-- ===== src/Tracker/Invariant.antt =====
-- What every state of the tracker satisfies: a process is in a namespace that the tracker has.
pub mod Methods
pub mod Load
pub mod Events
use net_device_mapping.HashMap
use net_device_mapping.HashMap.{IsMap}
use net_device_mapping.Host.{INode, Pid}
use net_device_mapping.Prelude.{◌≡◌, true, some, nat_key}
use net_device_mapping.Tracker.State.{State}

pub record IsWellFormed (s : State) : Type 0 where
  pub namespaces_map : IsMap s.namespaces
  pub pids_map : IsMap s.pids
  pub placed :
      (pid : Pid) (inode : INode)
      → HashMap.get pid s.pids ≡ some inode
      → HashMap.contains_key inode s.namespaces ≡ true
