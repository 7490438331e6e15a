-- ===== src/MountMonitor/Rescan.antt =====
-- `State` of src/mount_monitor.rs: the mount table under UUIDs, and the rescan that turns the
-- difference to the kernel's table into events. `Uuid::new_v4()` is a parameter, the sequence of
-- its results, and the state of a rescan counts the draws.
use net_device_mapping.Channel.{Sender, send}
use net_device_mapping.HashMap
use net_device_mapping.HashMap.{HashMap}
use net_device_mapping.HashSet
use net_device_mapping.HashSet.{HashSet}
use net_device_mapping.Host.{Host, IoError}
use net_device_mapping.MountMonitor.{
  MountPoint, Uuid, MountChange, added, removed, modified, mount_point_key,
}
use net_device_mapping.MountMonitor.Convert.{from_mount_point}
use net_device_mapping.Path.{PathBuf}
use net_device_mapping.Path.Equality.{path_key}
use net_device_mapping.Prelude.{
  ℕ, ◌+◌, Bool, true, false, List, [], ◌∷◌, map, Option, none, some, Result, ok, Outcome, returns,
  panics, ◌>>=◌, if◌then◌else◌, nat_key, key_eq, not, length,
}

abbrev pub Mounts : Type 0
Mounts = HashMap Uuid MountPoint

-- How a part of the rescan ends: it goes on, it returns `Ok(false)` because the channel is closed,
-- or it panics (the index `self.mountinfo[&uuid]`).
pub data Flow (A : Type 0) : Type 0 where
  going : A → Flow A
  closed : Sender MountChange → Flow A
  panicked : Flow A

infixl 5 ◌>>>◌
abbrev pub ◌>>>◌ : {A B : Type 0} → Flow A → (A → Flow B) → Flow B
going a >>> f = f a
closed s >>> f = closed s
panicked >>> f = panicked

abbrev pub unless_closed : Sender MountChange × Bool → Flow (Sender MountChange)
unless_closed (sender, is_ok) = if is_ok then going sender else closed sender

unfoldable pub send_event : MountChange → Sender MountChange → Flow (Sender MountChange)
unfolding send
send_event change sender = unless_closed (send change sender)

-- `old_by_id` and `old_by_path`.
abbrev pub Lookups : Type 0
Lookups = HashMap ℕ Uuid × HashMap PathBuf Uuid

abbrev pub index_under : Option ℕ → Uuid → PathBuf → Lookups → Lookups
index_under (some id) uuid path (by_id, by_path) = (HashMap.insert id uuid by_id, by_path)
index_under none uuid path (by_id, by_path) = (by_id, HashMap.insert path uuid by_path)

unfoldable pub build_lookups : Mounts → Lookups → Lookups
build_lookups [] lookups = lookups
build_lookups ((uuid, mp) ∷ mounts) lookups =
    build_lookups mounts (index_under mp.id uuid mp.path lookups)

-- What the loop over the rescanned mount points changes.
pub record Rescan : Type 0 where
  pub new_map : Mounts
  pub seen_old : HashSet Uuid
  pub drawn : ℕ
  pub sender : Sender MountChange

-- Which old UUID a mount point has: by its mount id, or else by its path among the old ones
-- without an id.
pub data Match : Type 0 where
  by_id : Uuid → Match
  by_path : Uuid → Match
  unmatched : Match

abbrev pub match_path : Option Uuid → Match
match_path (some uuid) = by_path uuid
match_path none = unmatched

abbrev pub match_id : Option Uuid → Lookups → MountPoint → Match
match_id (some uuid) lookups mp = by_id uuid
match_id none lookups mp = match_path (HashMap.get mp.path lookups.1)

abbrev pub lookup_id : Option ℕ → Lookups → Option Uuid
lookup_id (some id) lookups = HashMap.get id lookups.0
lookup_id none lookups = none

unfoldable pub match_old : Lookups → MountPoint → Match
match_old lookups mp = match_id (lookup_id mp.id lookups) lookups mp

abbrev pub keep_mount : Uuid → MountPoint → Sender MountChange → Rescan → Rescan
keep_mount uuid mp sender st = record st {
  new_map = HashMap.insert uuid mp st.new_map;
  seen_old = HashSet.insert uuid st.seen_old;
  sender = sender;
}

module _ (new_v4 : ℕ → Uuid) where
  -- The mount point moved to another path: remove and add.
  unfoldable pub move_mount : Uuid → MountPoint → Rescan → Flow Rescan
  unfolding send_event HashMap.insert HashSet.insert
  move_mount uuid mp st = send_event (removed uuid) st.sender >>> λ sender.
      let new_uuid = new_v4 st.drawn in
      send_event (added new_uuid mp) sender >>> λ sender'. going (record {
        new_map = HashMap.insert new_uuid mp st.new_map;
        seen_old = HashSet.insert uuid st.seen_old;
        drawn = st.drawn + 1;
        sender = sender';
      })

  -- The same mount point, changed or not.
  unfoldable pub refresh_mount : Uuid → MountPoint → MountPoint → Rescan → Flow Rescan
  unfolding send_event HashMap.insert HashSet.insert
  refresh_mount uuid old_mp mp st =
      if not (key_eq mp old_mp)
      then (send_event (modified uuid mp) st.sender >>> λ sender.
          going (keep_mount uuid mp sender st))
      else going (keep_mount uuid mp st.sender st)

  unfoldable pub add_mount : MountPoint → Rescan → Flow Rescan
  unfolding send_event HashMap.insert
  add_mount mp st =
      let uuid = new_v4 st.drawn in
      send_event (added uuid mp) st.sender >>> λ sender. going (record st {
        new_map = HashMap.insert uuid mp st.new_map;
        drawn = st.drawn + 1;
        sender = sender;
      })

  -- A mount point that was found by its id: `old_mp = &self.mountinfo[&uuid]`.
  unfoldable pub update_by_id : Uuid → Option MountPoint → MountPoint → Rescan → Flow Rescan
  update_by_id uuid none mp st = panicked
  update_by_id uuid (some old_mp) mp st =
      if not (key_eq mp.path old_mp.path)
      then move_mount uuid mp st
      else refresh_mount uuid old_mp mp st

  unfoldable pub update_by_path : Uuid → Option MountPoint → MountPoint → Rescan → Flow Rescan
  update_by_path uuid none mp st = panicked
  update_by_path uuid (some old_mp) mp st = refresh_mount uuid old_mp mp st

  unfoldable pub rescan_matched : Mounts → Match → MountPoint → Rescan → Flow Rescan
  rescan_matched old (by_id uuid) mp st = update_by_id uuid (HashMap.get uuid old) mp st
  rescan_matched old (by_path uuid) mp st = update_by_path uuid (HashMap.get uuid old) mp st
  rescan_matched old unmatched mp st = add_mount mp st

  -- The body of the loop over the rescanned mount points.
  unfoldable pub rescan_mount : Mounts → Lookups → MountPoint → Rescan → Flow Rescan
  rescan_mount old lookups mp st = rescan_matched old (match_old lookups mp) mp st

  unfoldable pub rescan_mounts : Mounts → Lookups → List MountPoint → Rescan → Flow Rescan
  rescan_mounts old lookups [] st = going st
  rescan_mounts old lookups (mp ∷ rescanned) st =
      rescan_mount old lookups mp st >>> rescan_mounts old lookups rescanned

unfoldable pub remove_unseen : Uuid → HashSet Uuid → Sender MountChange → Flow (Sender MountChange)
remove_unseen uuid seen_old sender =
    if not (HashSet.contains uuid seen_old) then send_event (removed uuid) sender else going sender

-- What the old state has and the rescan did not meet has been removed.
unfoldable pub send_removed : Mounts → HashSet Uuid → Sender MountChange → Flow (Sender MountChange)
send_removed [] seen_old sender = going sender
send_removed ((uuid, _) ∷ old) seen_old sender =
    remove_unseen uuid seen_old sender >>> send_removed old seen_old

-- The monitor's state with what it uses up: the draws, and the sender.
pub record Monitor : Type 0 where
  pub mountinfo : Mounts
  pub drawn : ℕ
  pub sender : Sender MountChange

abbrev pub start_rescan : Monitor → Rescan
start_rescan s = record { new_map = []; seen_old = []; drawn = s.drawn; sender = s.sender }

-- `Ok(true)` after a whole rescan; `Ok(false)`, with the old mounts, if the channel is closed.
abbrev finish : Monitor → Flow Monitor → Outcome (Result IoError (Monitor × Bool))
finish s (going s') = returns (ok (s', true))
finish s (closed sender) = returns (ok (record s { sender = sender }, false))
finish s panicked = panics

unfoldable pub rescan : (ℕ → Uuid) → List MountPoint → Monitor → Flow Monitor
rescan new_v4 rescanned s =
    rescan_mounts new_v4 s.mountinfo (build_lookups s.mountinfo ([], [])) rescanned (start_rescan s)
    >>> λ st. send_removed s.mountinfo st.seen_old st.sender >>> λ sender.
        going (record { mountinfo = st.new_map; drawn = st.drawn; sender = sender })

unfoldable pub update_mountinfo :
    (ℕ → Uuid) → Host → Monitor → Outcome (Result IoError (Monitor × Bool))
update_mountinfo new_v4 h s = elim h.mountinfo [
  | ok mounting_points ↦ finish s (rescan new_v4 (map from_mount_point mounting_points) s)
  | Result.err e ↦ returns (Result.err e)
]

-- The `collect` of `State::new`: every mount point under the next UUID.
unfoldable pub assign_uuids : (ℕ → Uuid) → ℕ → List MountPoint → Mounts → Mounts
unfolding HashMap.insert
assign_uuids new_v4 drawn [] mounts = mounts
assign_uuids new_v4 drawn (mp ∷ mps) mounts =
    assign_uuids new_v4 (drawn + 1) mps (HashMap.insert (new_v4 drawn) mp mounts)

-- The table, and how many UUIDs were drawn for it.
unfoldable pub new : (ℕ → Uuid) → Host → Result IoError (Mounts × ℕ)
new new_v4 h = do
  mounting_points ← h.mountinfo
  let mps = map from_mount_point mounting_points
  ok (assign_uuids new_v4 0 mps [], length mps)

-- All the stored mount points as newly added; `false` if the channel is closed.
unfoldable pub send_mountinfo : Mounts → Sender MountChange → Sender MountChange × Bool
unfolding send
send_mountinfo [] sender = (sender, true)
send_mountinfo ((uuid, mount) ∷ mounts) sender =
    let (sender', is_ok) = send (added uuid mount) sender in
    let rest = send_mountinfo mounts sender' in if is_ok then rest else (sender', false)
