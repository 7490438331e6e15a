-- ===== src/Tests/Lookup.antt =====
-- `by_id` of src/netns.rs, and a search for an id that no file answers, on the system of Tests/Tracking.
use net_device_mapping.Netns.{NetworkNamespace}
use net_device_mapping.Netns.Lookup.{one_file_each, found_by_id, search_id, by_id}
use net_device_mapping.Netns.Lookup.Identified.{IsIdentified, by_id-IsIdentified}
use net_device_mapping.Netns.MountsIterator
use net_device_mapping.Path.{PathBuf}
use net_device_mapping.Prelude.{◌≡◌, refl, List, [], ◌∷◌, none, some, ok, option_ℕ_discrete, All}
use net_device_mapping.Tests.Tracking.{host, red_path, nameless}
use net_device_mapping.Tests.Tracking
use net_device_mapping.Mountinfo
use net_device_mapping.Netns.PidsIterator
use net_device_mapping.Tracker.Search.{
  has_id, search_known, inode_with_id, search_mounts, process_with_id, search_processes, nsfs_paths,
  rescan_for_id, find_netns_id_addition,
}
use net_device_mapping.Tracker.Search.Completeness.{
  IsUnanswered, IsUnmounted, IsUnheld, find_netns_id_addition-IsUnanswered,
}
use net_device_mapping.Tracker.State.{namespace_files, namespace_any_file}
use mathlib.Core.Option

abbrev red_namespace : NetworkNamespace
red_namespace = record { inode = 400; id = some 3; fs_path = red_path ∷ []; pids = [] }

red_found : by_id host 3 ≡ ok (some red_namespace)
unfolding Tracking.program option_ℕ_discrete one_file_each found_by_id search_id by_id
red_found = refl

nothing_found : by_id host 4 ≡ ok none
unfolding Tracking.program option_ℕ_discrete one_file_each found_by_id search_id by_id
nothing_found = refl

by_id-IsIdentified_example :
    (mounts : List PathBuf) × (MountsIterator.new host ≡ ok mounts)
    × IsIdentified host mounts 3 red_namespace
by_id-IsIdentified_example = by_id-IsIdentified host 3 red_namespace red_found

id_of_nobody : find_netns_id_addition host nameless 4 ≡ ok none
unfolding Tracking.program find_netns_id_addition search_known has_id namespace_files
    namespace_any_file rescan_for_id search_mounts inode_with_id search_processes process_with_id
    Option.bind
id_of_nobody = refl

find_netns_id_addition-IsUnanswered_example :
    All (λ f. IsUnanswered host 4 f.1) (namespace_files nameless)
    × ((mounts : List Mountinfo.MountPoint) × (host.mountinfo ≡ ok mounts)
        × All (IsUnmounted host 4) (nsfs_paths mounts))
    × All (IsUnheld host 4) (PidsIterator.new host)
find_netns_id_addition-IsUnanswered_example =
    find_netns_id_addition-IsUnanswered host nameless 4 id_of_nobody
