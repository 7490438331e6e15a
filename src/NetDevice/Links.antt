-- ===== src/NetDevice/Links.antt =====
-- When `query_netns_links` answers, and with what.
use mathlib.Core.List.{append_assoc, append-nil}
use net_device_mapping.Host.{INode, IoError, RawFd, RtnetlinkError}
use net_device_mapping.NetDevice.{
  LinkMessage, ThreadHost, QueryError, moved, couldnt_open_netns, tokio_runtime, netlink_connection,
  set_netns, receive, thread, query_netns_links,
}
use net_device_mapping.Path.{PathBuf}
use net_device_mapping.Prelude.{
  ℕ, zero, suc, ◌≡◌, refl, sym, ◌∙◌, ap, List, [], ◌∷◌, ◌++◌, map, Result, ok, err, map_err,
  >>=-eq-ok, ok-injective,
}

module _ {K : Type 0} (h : ThreadHost K) where
  receive-ok :
      (links items : List (LinkMessage K)) → receive h links (map ok items) ≡ ok (links ++ items)
  unfolding receive
  receive-ok links [] = rw append-nil refl
  receive-ok links (item ∷ items) =
      receive-ok (links ++ item ∷ []) items ∙ ap ok (append_assoc links (item ∷ []) items)

  receive-eq-ok :
      (links : List (LinkMessage K)) (stream : List (Result RtnetlinkError (LinkMessage K)))
      {all : List (LinkMessage K)}
      → receive h links stream ≡ ok all
      → (items : List (LinkMessage K)) × (stream ≡ map ok items) × (all ≡ links ++ items)
  unfolding receive
  receive-eq-ok links [] e = ([], refl, sym (ok-injective e) ∙ sym (append-nil links))
  receive-eq-ok links (ok item ∷ stream) e =
      let (items, same, whole) = receive-eq-ok (links ++ item ∷ []) stream e in
      (item ∷ items, ap (λ s. ok item ∷ s) same, whole ∙ append_assoc links (item ∷ []) items)
  receive-eq-ok links (err x ∷ stream) e = cc

  -- The namespace file was opened, the thread was moved and connected, and the stream of the namespace
  -- that it was moved to held these links and no error.
  abbrev pub IsAnswered : PathBuf → INode → List (LinkMessage K) → Type 0
  IsAnswered path netns links =
      (fd : RawFd) × (netns' : INode) × (h.open_file path ≡ ok fd)
      × (h.setns fd netns ≡ (0, netns'))
      × (h.build_runtime ≡ ok tt)
      × (h.new_connection netns' ≡ ok tt)
      × (h.links netns' ≡ map ok links)

  map_err-eq-ok {ℓ} :
      {A : Type ℓ} (f : IoError → QueryError) (r : Result IoError A) {a : A}
      → map_err f r ≡ ok a
      → r ≡ ok a
  map_err-eq-ok f (ok b) e = ap ok (ok-injective e)
  map_err-eq-ok f (err x) e = cc

  set_netns-eq-ok :
      (fd : RawFd) (netns : INode) {netns' : INode}
      → set_netns h fd netns ≡ ok netns'
      → h.setns fd netns ≡ (0, netns')
  unfolding set_netns
  set_netns-eq-ok fd netns {netns'} e = go (h.setns fd netns) e
    where
      go : (r : ℕ × INode) → moved h r ≡ ok netns' → r ≡ (0, netns')
      go (zero, n) e = ap (λ x. (0, x)) (ok-injective e)
      go (suc code, n) e = cc

  query_netns_links-IsAnswered :
      (path : PathBuf) (netns : INode) (links : List (LinkMessage K))
      → (query_netns_links h path netns).0 ≡ ok links
      → IsAnswered path netns links
  unfolding query_netns_links thread
  query_netns_links-IsAnswered path netns links e =
      let (fd, opened, e₁) = >>=-eq-ok (map_err couldnt_open_netns (h.open_file path)) _ e in
      let (netns', moved, e₂) =
        >>=-eq-ok (map_err couldnt_open_netns (set_netns h fd netns)) _ e₁ in
      let (_, built, e₃) = >>=-eq-ok (map_err tokio_runtime h.build_runtime) _ e₂ in
      let (_, connected, e₄) =
        >>=-eq-ok (map_err netlink_connection (h.new_connection netns')) _ e₃ in
      let (items, stream, whole) = receive-eq-ok [] (h.links netns') e₄ in
      (
        fd,
        netns',
        map_err-eq-ok _ _ opened,
        set_netns-eq-ok fd netns (map_err-eq-ok _ _ moved),
        map_err-eq-ok _ _ built,
        map_err-eq-ok _ _ connected,
        stream ∙ ap (map ok) (sym whole),
      )

  -- `query_netns_links` answers with links exactly where the file of the namespace can be opened, the
  -- thread can be moved and connected, and the stream ends without an error; they are then all the links
  -- of the namespace that the thread was moved to, in order. The caller stays in its namespace.
  pub query_netns_links-answer :
      (path : PathBuf) (netns : INode) (links : List (LinkMessage K))
      → ((query_netns_links h path netns).0 ≡ ok links → IsAnswered path netns links)
        × (IsAnswered path netns links → query_netns_links h path netns ≡ (ok links, netns))
        × ((query_netns_links h path netns).1 ≡ netns)
  unfolding query_netns_links thread set_netns
  query_netns_links-answer path netns links = (
    query_netns_links-IsAnswered path netns links,
    (λ (fd, netns', opened, moved, built, connected, stream).
        rw (opened, moved, built, connected, stream) (ap (λ r. (r, netns)) (receive-ok [] links))),
    refl,
  )
