-- ===== src/NetDevice.antt =====
-- src/net_device.rs: `query_netns_links`, which asks for the links of a network namespace from a thread
-- that it moves there.
pub mod DeviceInfo
pub mod Links
use net_device_mapping.Host.{INode, IoError, RawFd, RtnetlinkError}
use net_device_mapping.Path.{PathBuf}
use net_device_mapping.Prelude.{
  ℕ, zero, suc, List, [], ◌∷◌, ◌++◌, Result, ok, err, map_err, ◌>>=◌, Outcome, returns, panics,
}

-- Of `rtnetlink`'s types, what this program reads.
pub data LinkInfo (K : Type 0) : Type 0 where
  kind : K → LinkInfo K
  other_info : LinkInfo K

pub data LinkAttribute (K : Type 0) : Type 0 where
  if_name : List ℕ → LinkAttribute K
  link_info : List (LinkInfo K) → LinkAttribute K
  link : ℕ → LinkAttribute K
  other_attribute : LinkAttribute K

pub record LinkMessage (K : Type 0) : Type 0 where
  pub index : ℕ
  pub attributes : List (LinkAttribute K)

-- What a thread asks of the system; its network namespace is what it can change.
pub record ThreadHost (K : Type 0) : Type 0 where
  pub open_file : PathBuf → Result IoError RawFd
  -- The return code of `setns`, and where the thread is after it.
  pub setns : RawFd → INode → ℕ × INode
  pub last_os_error : IoError
  pub build_runtime : Result IoError (Unit {0})
  pub new_connection : INode → Result IoError (Unit {0})
  -- The items of the stream that a dump of the links gives in a namespace.
  pub links : INode → List (Result RtnetlinkError (LinkMessage K))

pub data QueryError : Type 0 where
  couldnt_open_netns : IoError → QueryError
  thread_died : QueryError
  tokio_runtime : IoError → QueryError
  netlink_connection : IoError → QueryError
  rtnetlink_recv_error : RtnetlinkError → QueryError

module _ {K : Type 0} (h : ThreadHost K) where
  abbrev pub moved : ℕ × INode → Result IoError INode
  moved (zero, netns) = ok netns
  moved (suc code, netns) = err h.last_os_error

  -- The namespace that the thread is in afterwards, where it was moved.
  unfoldable pub set_netns : RawFd → INode → Result IoError INode
  set_netns fd netns = moved (h.setns fd netns)

  -- The `while let` over the stream: an error ends it.
  unfoldable pub receive :
      List (LinkMessage K)
      → List (Result RtnetlinkError (LinkMessage K))
      → Result QueryError (List (LinkMessage K))
  receive links [] = ok links
  receive links (ok item ∷ stream) = receive (links ++ item ∷ []) stream
  receive links (err e ∷ stream) = err (rtnetlink_recv_error e)

  -- The closure of the new thread, which starts in `netns`.
  unfoldable pub thread : PathBuf → INode → Outcome (Result QueryError (List (LinkMessage K)))
  unfolding set_netns receive
  thread netns_filepath netns = returns (do
    netns_file ← map_err couldnt_open_netns (h.open_file netns_filepath)
    netns' ← map_err couldnt_open_netns (set_netns netns_file netns)
    _ ← map_err tokio_runtime h.build_runtime
    _ ← map_err netlink_connection (h.new_connection netns')
    receive [] (h.links netns'))

  -- `join`: a thread that panicked has no answer.
  abbrev pub joined :
      Outcome (Result QueryError (List (LinkMessage K))) → Result QueryError (List (LinkMessage K))
  joined (returns result) = result
  joined panics = err thread_died

  -- The namespace of the thread that calls it is handed on as it was.
  unfoldable pub query_netns_links :
      PathBuf → INode → Result QueryError (List (LinkMessage K)) × INode
  unfolding thread
  query_netns_links netns_filepath netns = (joined (thread netns_filepath netns), netns)
