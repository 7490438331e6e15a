-- ===== src/Tests/Merging.antt =====
-- From the mount monitor to the tracker on a table with a mount of nsfs and one of tmpfs.
use net_device_mapping.Channel.{Sender}
use net_device_mapping.HashMap
use net_device_mapping.Host.{Host}
use net_device_mapping.Libmount.{Event}
use net_device_mapping.Libmount.Stream.{run, waiting}
use net_device_mapping.Libmount.Stream.Drained.{no_more, report}
use net_device_mapping.Libmount.Stream.Wakes.{wakes_of, sent_of, ReportsAll, silent, batch}
use net_device_mapping.Tests.Libmounting.{Counted, libmount, mountinfo, mountinfo_event, quiet}
use net_device_mapping.Tests.Libmounting
use net_device_mapping.Tracker.Mirror.Source.{heard, stream-IsSynced}
use net_device_mapping.MountMonitor.{added}
use net_device_mapping.MountMonitor.Convert.{from_mount_point}
use net_device_mapping.MountMonitor.Ids.{HaveIds, HaveIds-cons}
use net_device_mapping.MountMonitor.Monitor.{mountinfo_path, changed, monitor_mountinfo}
use net_device_mapping.MountMonitor.Monitor
use net_device_mapping.MountMonitor.Rescan.{Monitor, Mounts, new}
use net_device_mapping.MountMonitor.Setup.{set_up, IsEnabled, set_up-IsEnabled}
use net_device_mapping.Libmount.SendMonitor
use net_device_mapping.Libmount.SendMonitor.{enable_kernel, enable_userspace, get_fd}
use net_device_mapping.Mountinfo
use net_device_mapping.Path.{PathBuf, root_dir, normal, codes}
use net_device_mapping.Prelude.{
  ℕ, zero, suc, ◌+◌, ◌≡◌, refl, true, List, [], ◌∷◌, ◌++◌, some, ok, returns, arith, inl, inr,
  nat_key, length,
}
use net_device_mapping.Tests.Mounts.{
  blue, red, later, host, new_v4, first_host, send_nothing, later-DistinctIds, first-DistinctIds,
}
use net_device_mapping.Tests.Mounts
use net_device_mapping.Tests.Tracking.{started}
use net_device_mapping.Tests.Tracking
use net_device_mapping.Tracker.Events.{
  is_relevant, mount_change, state_requested, Tracker, event, no_event, track, Wake,
}
use net_device_mapping.Tracker.Mirror.Filtered.{KeepNsfs, HoldsNsfs}
use net_device_mapping.Tracker.Answers.{requests, requests-answers}
use net_device_mapping.Tracker.Mirror.Streams.{events, streams-HoldsNsfs}
use net_device_mapping.Tracker.Mirror.Sync.{IsSynced}
use net_device_mapping.Tracker.Mirror.Monitor.{IsReadable, Follows}
use net_device_mapping.Tracker.Mirror.Unexpected.{monitor_mountinfo-panics}
use net_device_mapping.Tracker.State.{current_state}
use net_device_mapping.Netns.{NetworkNamespace}
use net_device_mapping.Tracker.Streams.{
  received, state_requests, nsid_events, mount_events, syscalls, done, left, right, Sources,
  IsMerged,
}

program : Unit {0}
unfolding Tracking.program Mounts.program is_relevant received nsid_events mount_events syscalls
    state_requests
program = tt

abbrev scratch : Mountinfo.MountPoint
scratch = record blue { id = some 43; fstype = Mountinfo.tmpfs }

abbrev mixed : Monitor
mixed = record {
  mountinfo = (1000, from_mount_point blue) ∷ (1001, from_mount_point scratch) ∷ [];
  drawn = 2;
  sender = record {
    sent = added 1001 (from_mount_point scratch) ∷ added 1000 (from_mount_point blue) ∷ [];
    listening = λ n. true;
  };
}

mixed-HaveIds : HaveIds mixed.mountinfo
unfolding HashMap.get
mixed-HaveIds =
    HaveIds-cons 1000 (from_mount_point blue) 40 ((1001, from_mount_point scratch) ∷ [])
      (unfold from_mount_point in refl)
      (HaveIds-cons 1001 (from_mount_point scratch) 43 [] (unfold from_mount_point in refl)
        λ u mp found. cc)

mixed-IsSynced : IsSynced new_v4 mixed
unfolding program
mixed-IsSynced = record {
  is_map = (refl, (refl, tt));
  have = mixed-HaveIds;
  fresh = λ n drawn. ground arith;
  mirrors = λ uuid. ground arith;
}

abbrev idle : Tracker
idle = record {
  state = started;
  mount_state = [];
  responses = record { sent = []; listening = λ n. true };
}

-- A request comes before the change.
abbrev wakes : List Wake
wakes =
    event Tracking.host state_requested
    ∷ no_event
    ∷ event Tracking.host (mount_change (added 1000 (from_mount_point blue)))
    ∷ []

abbrev informed : Tracker
informed = record {
  state = started;
  mount_state = (1000, from_mount_point blue) ∷ [];
  responses = record { sent = current_state started ∷ []; listening = λ n. true };
}

tracked : track wakes idle ≡ ok informed
unfolding program
tracked = refl

kept : KeepNsfs mixed.sender.sent []
unfolding program
kept = (inr refl, (inl refl, tt))

-- What the four receivers have yielded.
abbrev sources : Sources
sources = record {
  nsids = [];
  mounts =
      ok (added 1001 (from_mount_point scratch)) ∷ ok (added 1000 (from_mount_point blue)) ∷ [];
  calls = [];
  requests = ok tt ∷ [];
}

merged : IsMerged sources (events wakes)
unfolding program
merged = record {
  first = mount_change (added 1000 (from_mount_point blue)) ∷ [];
  second = mount_change (added 1000 (from_mount_point blue)) ∷ [];
  with_mounts = right done;
  with_syscalls = left done;
  with_requests = right (left done);
}

streams-HoldsNsfs_example : HoldsNsfs informed.mount_state mixed.mountinfo
streams-HoldsNsfs_example =
    streams-HoldsNsfs new_v4 mixed sources wakes idle informed mixed-IsSynced refl merged kept refl
      tt (λ n. refl) tracked

abbrev after_request : List Wake
after_request =
    no_event ∷ event Tracking.host (mount_change (added 1000 (from_mount_point blue))) ∷ []

requests-answers_example :
    (t₁ : Tracker) × (later : List (List NetworkNamespace)) × (track [] idle ≡ ok t₁)
    × (informed.responses.sent ≡ t₁.responses.sent ++ current_state t₁.state ∷ later)
    × (length t₁.responses.sent ≡ length idle.responses.sent + requests [])
    × (length later ≡ requests after_request)
requests-answers_example =
    requests-answers [] after_request Tracking.host idle informed tt (λ n. refl) tracked

abbrev utab : PathBuf
utab = root_dir ∷ normal (codes "run") ∷ normal (codes "mount") ∷ normal (codes "utab") ∷ []

monitor_mountinfo-panics_example :
    monitor_mountinfo new_v4 first_host
      ((changed host mountinfo_path ∷ []) ++ changed host utab ∷ Monitor.closed ∷ [])
      send_nothing
    ≡ Monitor.panicked
monitor_mountinfo-panics_example =
    monitor_mountinfo-panics new_v4 (λ n m e. omega arith) first_host host
      (changed host mountinfo_path ∷ []) (Monitor.closed ∷ []) utab send_nothing
      (_, refl, first-DistinctIds) (refl, (later, refl, later-DistinctIds), tt) tt (λ e. cc)
      (λ n. refl) refl

-- The mount table changes twice before the stream's first wake; the second finds nothing.
abbrev busy : Counted
busy = (1, mountinfo ∷ mountinfo ∷ [])

abbrev batches : List (List Event)
batches = (mountinfo_event ∷ mountinfo_event ∷ []) ∷ [] ∷ []

busy_reports : ReportsAll libmount busy batches (1, [])
unfolding Libmounting.program
busy_reports = batch (report refl (report refl (no_more refl))) (batch (no_more refl) silent)

abbrev hosts : ℕ → Host
hosts zero = first_host
hosts (suc n) = host

hosts-IsReadable : (n : ℕ) → IsReadable (hosts n)
hosts-IsReadable zero = (blue ∷ red ∷ [], refl, first-DistinctIds)
hosts-IsReadable (suc n) = (later, refl, later-DistinctIds)

stream-IsSynced_example :
    (events' : Sender Event) × (s' : Monitor) × (run libmount 3 (wakes_of batches) busy quiet
      ≡ waiting (1, []) events')
    × (events'.sent ≡ sent_of batches)
    × (monitor_mountinfo new_v4 first_host (heard (λ n. host) events'.sent) send_nothing
        ≡ Monitor.waiting s')
    × Follows new_v4 (hosts (length events'.sent)) s'
stream-IsSynced_example =
    stream-IsSynced libmount new_v4 (λ n m e. omega arith) 3 busy (1, []) batches quiet hosts
      send_nothing busy_reports (omega arith, (omega arith, tt)) ((refl, (refl, tt)), (tt, tt))
      (λ n. refl) refl hosts-IsReadable (λ n. refl) refl

abbrev first_table : Mounts
first_table = (1000, from_mount_point blue) ∷ (1001, from_mount_point red) ∷ []

set_up_first :
    set_up libmount new_v4 first_host
    ≡ returns (ok (record { monitor = (1, []) }, 3, first_table, 2))
unfolding program Libmounting.program set_up enable_kernel enable_userspace get_fd SendMonitor.new
set_up_first = refl

set_up-IsEnabled_example :
    IsEnabled libmount new_v4 (1, []) 3 × (new new_v4 first_host ≡ ok (first_table, 2))
set_up-IsEnabled_example =
    set_up-IsEnabled libmount new_v4 first_host (record { monitor = (1, []) }) 3 first_table 2
      set_up_first
