-- ===== src/Tests/Mounts.antt =====
-- The mount monitor of src/mount_monitor.rs on two mount tables.
use Prim.Native.String.{String}
use net_device_mapping.Channel.{Sender, send}
use net_device_mapping.HashMap
use net_device_mapping.HashSet
use net_device_mapping.Host.{Host}
use net_device_mapping.MountMonitor.{
  MountChange, Uuid, added, removed, modified, MountPoint-discrete, FsType-discrete,
}
use net_device_mapping.MountMonitor.Convert.{
  from_mount_point, into_mount_point, from_options, into_options, from_read_write, into_read_write,
  from_fs_type, into_fs_type, mount_point_roundtrip,
}
use net_device_mapping.MountMonitor.Ids.{DistinctIds, HaveIds, HaveIds-cons}
use net_device_mapping.MountMonitor.Monitor.{
  mountinfo_path, Wake, closed, changed, stream_ended, waiting, finished, handle_change, run,
  monitor_mountinfo,
}
use net_device_mapping.Tracker.Mirror.Monitor.{Follows, monitor_mountinfo-IsSynced}
use net_device_mapping.MountMonitor.Rescan.{
  send_event, build_lookups, match_old, move_mount, refresh_mount, add_mount, update_by_id,
  update_by_path, rescan_matched, rescan_mount, rescan_mounts, remove_unseen, send_removed, Monitor,
  rescan, update_mountinfo, assign_uuids, new, send_mountinfo,
}
use net_device_mapping.Mountinfo
use net_device_mapping.Path.{PathBuf, codes, root_dir, normal}
use net_device_mapping.Path.Equality.{
  OsString-discrete, Component-discrete, PathBuf-discrete, path_key,
}
use net_device_mapping.Prelude.{
  ℕ, ◌+◌, ◌≡◌, refl, ◌⊎◌, Bool, true, false, List, [], ◌∷◌, map, none, some, ok, err, returns,
  arith, nat_key, ℕ_discrete,
}
use net_device_mapping.Tracker.Mirror.{replay}
use net_device_mapping.Tracker.Mirror.Sync.{
  IsSynced, update_mountinfo-IsSynced, update_mountinfo_cases,
}
use net_device_mapping.Tracker.MountState.{on_event}

unfoldable pub program : Unit {0}
unfolding send send_event build_lookups match_old move_mount refresh_mount add_mount update_by_id
    update_by_path rescan_matched rescan_mount rescan_mounts remove_unseen send_removed rescan
    update_mountinfo assign_uuids new send_mountinfo handle_change run monitor_mountinfo
    from_mount_point from_options from_read_write from_fs_type into_mount_point into_options
    into_read_write into_fs_type HashMap.get HashMap.insert HashMap.remove HashSet.contains
    HashSet.insert MountPoint-discrete FsType-discrete OsString-discrete Component-discrete
    PathBuf-discrete ℕ_discrete on_event replay
program = tt

abbrev at : List String → PathBuf
at names = root_dir ∷ map (λ x. normal (codes x)) names

abbrev pub nsfs_mount : ℕ → PathBuf → Mountinfo.MountPoint
nsfs_mount id path = record {
  id = some id;
  parent_id = some 1;
  root = none;
  what = codes "nsfs";
  path = path;
  fstype = Mountinfo.other (codes "nsfs");
  options = record { read_write = Mountinfo.read_write; others = [] };
}

abbrev read_only : Mountinfo.MountPoint → Mountinfo.MountPoint
read_only m = record m { options = record { read_write = Mountinfo.read_only; others = [] } }

abbrev pub blue : Mountinfo.MountPoint
blue = nsfs_mount 40 (at ("run" ∷ "blue" ∷ []))

abbrev pub red : Mountinfo.MountPoint
red = nsfs_mount 41 (at ("run" ∷ "red" ∷ []))

abbrev green : Mountinfo.MountPoint
green = nsfs_mount 42 (at ("run" ∷ "green" ∷ []))

-- Afterwards blue is read-only, red is gone and green is new.
abbrev pub later : List Mountinfo.MountPoint
later = read_only blue ∷ green ∷ []

abbrev pub host : Host
host = record {
  glob = λ pattern. [];
  metadata = λ path. err 2;
  mountinfo = ok later;
  new_connection = ok tt;
  open_file = λ path. err 2;
  file_metadata = λ file. err 9;
  request = λ r. ok [];
}

abbrev pub new_v4 : ℕ → Uuid
new_v4 n = 1000 + n

abbrev before : Monitor
before = record {
  mountinfo = (1000, from_mount_point blue) ∷ (1001, from_mount_point red) ∷ [];
  drawn = 2;
  sender = record {
    sent = added 1000 (from_mount_point blue) ∷ added 1001 (from_mount_point red) ∷ [];
    listening = λ n. true;
  };
}

-- The same monitor after its last receiver left.
abbrev deserted : Monitor
deserted = record before { sender = record before.sender { listening = λ n. false } }

abbrev after : Monitor
after = record {
  mountinfo = (1000, from_mount_point (read_only blue)) ∷ (1002, from_mount_point green) ∷ [];
  drawn = 3;
  sender = record {
    sent =
        added 1000 (from_mount_point blue)
        ∷ added 1001 (from_mount_point red)
        ∷ modified 1000 (from_mount_point (read_only blue))
        ∷ added 1002 (from_mount_point green)
        ∷ removed 1001
        ∷ [];
    listening = λ n. true;
  };
}

rescan_of_later : update_mountinfo new_v4 host before ≡ returns (ok (after, true))
unfolding program
rescan_of_later = refl

abbrev SyncedBefore : (ℕ → Bool) → Type 0
SyncedBefore listening =
    IsSynced new_v4 (record before { sender = record before.sender { listening = listening } })

pub later-DistinctIds : DistinctIds (map from_mount_point later)
unfolding program
later-DistinctIds = ((40, refl, (ground arith, tt)), ((42, refl, tt), tt))

before-HaveIds : HaveIds before.mountinfo
unfolding HashMap.get
before-HaveIds =
    HaveIds-cons 1000 (from_mount_point blue) 40 ((1001, from_mount_point red) ∷ [])
      (unfold from_mount_point in refl)
      (HaveIds-cons 1001 (from_mount_point red) 41 [] (unfold from_mount_point in refl)
        λ u mp found. cc)

before-IsSynced : (listening : ℕ → Bool) → SyncedBefore listening
unfolding program
before-IsSynced listening = record {
  is_map = (refl, (refl, tt));
  have = before-HaveIds;
  fresh = λ n drawn. ground arith;
  mirrors = λ uuid. refl;
}

abbrev Rescanned : Type 0
Rescanned =
    (s' : Monitor) × (update_mountinfo new_v4 host before ≡ returns (ok (s', true)))
    × IsSynced new_v4 s'
    × (HashMap.values s'.mountinfo ≡ map from_mount_point later)

update_mountinfo-IsSynced_example : Rescanned
update_mountinfo-IsSynced_example =
    update_mountinfo-IsSynced new_v4 host before later (λ n m e. omega arith) refl later-DistinctIds
      (λ n. refl) (before-IsSynced (λ n. true))

update_mountinfo_cases_example :
    ((s' : Monitor) × (update_mountinfo new_v4 host deserted ≡ returns (ok (s', true)))
      × IsSynced new_v4 s')
    ⊎ ((s' : Monitor) × (update_mountinfo new_v4 host deserted ≡ returns (ok (s', false)))
        × (s'.mountinfo ≡ deserted.mountinfo))
update_mountinfo_cases_example =
    update_mountinfo_cases new_v4 host deserted later (λ n m e. omega arith) refl later-DistinctIds
      (before-IsSynced (λ n. false))

-- Nobody listens: the first event is refused and the table stays.
rescan_deserted : update_mountinfo new_v4 host deserted ≡ returns (ok (deserted, false))
unfolding program
rescan_deserted = refl

mount_point_roundtrip_example :
    (from_mount_point (into_mount_point (from_mount_point red)) ≡ from_mount_point red)
    × (into_mount_point (from_mount_point red) ≡ red)
mount_point_roundtrip_example = mount_point_roundtrip (from_mount_point red) red

-- The whole monitor: the tables with blue and red first, then the later ones, until nobody listens.
abbrev pub first_host : Host
first_host = record host { mountinfo = ok (blue ∷ red ∷ []) }

abbrev wakes : List Wake
wakes = changed host mountinfo_path ∷ closed ∷ []

abbrev pub send_nothing : Sender MountChange
send_nothing = record { sent = []; listening = λ n. true }

monitored : monitor_mountinfo new_v4 first_host wakes send_nothing ≡ finished (ok after)
unfolding program
monitored = refl

pub first-DistinctIds : DistinctIds (map from_mount_point (blue ∷ red ∷ []))
unfolding program
first-DistinctIds = ((40, refl, (ground arith, tt)), ((41, refl, tt), tt))

monitor_mountinfo-IsSynced_example :
    (s' : Monitor) × (monitor_mountinfo new_v4 first_host
        (changed host mountinfo_path ∷ [])
        send_nothing
      ≡ waiting s')
    × Follows new_v4 host s'
    × (monitor_mountinfo new_v4 first_host wakes send_nothing ≡ finished (ok s'))
    × (monitor_mountinfo new_v4 first_host
          (changed host mountinfo_path ∷ stream_ended ∷ [])
          send_nothing
        ≡ finished (ok s'))
monitor_mountinfo-IsSynced_example =
    monitor_mountinfo-IsSynced new_v4 (λ n m e. omega arith) first_host
      (changed host mountinfo_path ∷ []) [] send_nothing (blue ∷ red ∷ [], refl, first-DistinctIds)
      (refl, (later, refl, later-DistinctIds), tt) tt (λ n. refl) refl
