-- ===== src/Tests/Libmounting.antt =====
-- The wrapper of libmount on a monitor that reports what it has been told: src/util/libmount_monitor.rs.
use net_device_mapping.Channel.{Sender, send}
use net_device_mapping.HashSet
use net_device_mapping.Libmount.{Libmnt, Event, kernel, Event-discrete, forever, millis}
use net_device_mapping.Libmount.Calls.{as_c_int, c_timeout, next_change, get_fd, event_cleanup}
use net_device_mapping.Libmount.Calls.Bounds.{c_timeout_bounds}
use net_device_mapping.Libmount.Handles.{
  Use, clone, drop, new, act, acts, from_inner, into_inner, cloned, dropped, sent, into_send, done,
  acts-handles,
}
use net_device_mapping.Libmount.Stream.{drained, drain, run, readable, closed, finished, send_new}
use net_device_mapping.Libmount.Stream.Drained.{Reports, no_more, report, firsts, drain-firsts}
use net_device_mapping.Netlink.{ℤ, pos, negsuc}
use net_device_mapping.Path.{Str, codes, root_dir, normal, is_utf8}
use net_device_mapping.Path.Equality.{PathBuf-discrete, OsString-discrete}
use net_device_mapping.Path.Lossy.{from_utf8_lossy}
use net_device_mapping.Path.Parse.{from_text}
use net_device_mapping.Prelude.{
  ℕ, ◌+◌, ◌-◌, ◌^◌, ◌≤◌, ◌<◌, ◌≡◌, ◌≢◌, refl, true, List, [], ◌∷◌, ok, arith, ℕ_discrete,
}

unfoldable pub program : Unit {0}
unfolding Event-discrete as_c_int c_timeout next_change get_fd event_cleanup new act acts drain run
    send_new PathBuf-discrete OsString-discrete from_utf8_lossy is_utf8 from_text firsts ℕ_discrete
    HashSet.contains HashSet.insert send
program = tt

-- A monitor: its references, and the paths of the changes that it has still to report.
abbrev pub Counted : Type 0
Counted = ℕ × List Str

abbrev reported : Counted → (ℤ × Str × ℤ) × Counted
reported (refs, []) = ((pos 1, [], pos 0), (refs, []))
reported (refs, path ∷ paths) = ((pos 0, path, pos 2), (refs, paths))

abbrev pub libmount : Libmnt Counted
libmount = record {
  new_monitor = (1, []);
  ref_monitor = λ (refs, paths). (refs + 1, paths);
  unref_monitor = λ (refs, paths). (refs - 1, paths);
  enable_userspace = λ m enable filename. (pos 0, m);
  enable_kernel = λ m enable. (pos 0, m);
  get_fd = λ m. (pos 3, m);
  close_fd = λ m. (pos 0, m);
  next_change = reported;
  event_cleanup = λ m. (pos 0, m);
  wait = λ m timeout. (pos 1, m);
  type_kernel = 2;
  type_userspace = 1;
}

c_timeout_bounds_example :
    (2 ^ 31 < 2 ^ 31 → c_timeout (millis (2 ^ 31)) ≡ pos (2 ^ 31))
    × (2 ^ 31 ≤ 2 ^ 31
        → 2 ^ 31 < 2 ^ 32 - 1
        → c_timeout (millis (2 ^ 31)) ≡ negsuc (2 ^ 32 - 1 - 2 ^ 31))
    × (2 ^ 31 ≡ 2 ^ 32 - 1 → c_timeout (millis (2 ^ 31)) ≡ negsuc 1)
    × (c_timeout (millis (2 ^ 31)) ≢ c_timeout forever)
c_timeout_bounds_example = c_timeout_bounds (2 ^ 31) (omega arith)

abbrev uses : List Use
uses = clone ∷ into_send ∷ drop ∷ []

acts-handles_example :
    ((acts libmount uses (new libmount)).0 ≡ 1)
    × (◌≡◌ {A = ℕ} 1 1
        → (act libmount from_inner (act libmount into_inner (acts libmount uses (new libmount)))).0
          ≡ 0)
acts-handles_example =
    acts-handles libmount (λ m. m.0) (λ m. refl) (λ m. refl) uses 1 refl
      (cloned (sent (dropped done)))

abbrev pub mountinfo : Str
mountinfo = codes "/proc/self/mountinfo"

abbrev changes : Counted
changes = (1, mountinfo ∷ codes "/run/mount/utab" ∷ mountinfo ∷ [])

abbrev pub mountinfo_event : Event
mountinfo_event = record {
  path = root_dir ∷ normal (codes "proc") ∷ normal (codes "self") ∷ normal (codes "mountinfo") ∷ [];
  kind = kernel;
}

abbrev utab_event : Event
utab_event = record {
  path = root_dir ∷ normal (codes "run") ∷ normal (codes "mount") ∷ normal (codes "utab") ∷ [];
  kind = kernel;
}

changes_reported :
    Reports libmount changes (mountinfo_event ∷ utab_event ∷ mountinfo_event ∷ []) (1, [])
unfolding program
changes_reported = report refl (report refl (report refl (no_more refl)))

abbrev pub quiet : Sender Event
quiet = record { sent = []; listening = λ n. true }

drain-firsts_example :
    drain libmount 4 changes [] quiet
    ≡ drained
        (1, [])
        (record quiet { sent = firsts (mountinfo_event ∷ utab_event ∷ mountinfo_event ∷ []) })
drain-firsts_example =
    drain-firsts libmount 4 changes (1, []) (mountinfo_event ∷ utab_event ∷ mountinfo_event ∷ [])
      quiet changes_reported (omega arith) (λ n. refl)

one_wake :
    run libmount 4 (readable ∷ closed ∷ []) changes quiet
    ≡ finished (ok tt) (1, []) (record quiet { sent = mountinfo_event ∷ utab_event ∷ [] })
unfolding program
one_wake = refl
