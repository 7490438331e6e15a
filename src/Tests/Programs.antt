-- ===== src/Tests/Programs.antt =====
-- The programs of src/bin and the queries of src/net_device.rs on two namespaces.
use mathlib.Core.List.{Permᴰ}
use net_device_mapping.Bin.Display.{frame, list_all, display}
use net_device_mapping.Bin.Display.Rows.{row, last_rows, display-rows}
use net_device_mapping.Bin.Display.Unordered.{current_state-display}
use net_device_mapping.Bin.ListNetDevices.{
  Answered, namespace_line, device_line, error_line, link_name, link_kind, link_peers, as_name,
  as_infos, as_kind, as_peer, collect_set, print_links, print_results, queries, main, inode_of,
}
use net_device_mapping.Bin.ListNetDevices.Attributes.{
  kinds, are_named, named_answer, all_named, end_of,
}
use net_device_mapping.Bin.ListNetDevices.Logged.{
  namespace_entry, link_entry, Written, printed, logged, io_error, show_links, show_results,
  main_logged,
}
use net_device_mapping.Bin.ListNetDevices.Logged.Agreement.{lines, as_result, main_logged-main}
use net_device_mapping.HashMap.{IsMap}
use net_device_mapping.HashSet.{HashSet}
use net_device_mapping.Host.{IoError, Pid, INode}
use net_device_mapping.NetDevice.{
  kind, other_info, if_name, link_info, link, other_attribute, LinkMessage, ThreadHost, QueryError,
  couldnt_open_netns, set_netns, receive, thread, query_netns_links,
}
use net_device_mapping.NetDevice.Links.{IsAnswered, query_netns_links-answer}
use net_device_mapping.Netns.{NetworkNamespace}
use net_device_mapping.Netns.Scan.Distinct.{all-inodes}
use net_device_mapping.Path.{Str, PathBuf, codes}
use net_device_mapping.Prelude.{
  ℕ, ◌+◌, ◌≡◌, refl, List, [], ◌∷◌, map, filter_map, none, some, Result, ok, err, returns, panics,
  arith, ltb, length, if◌then◌else◌, nat_key,
}
use net_device_mapping.Sorting.{insert, sort_by_key}
use net_device_mapping.Sorting.Order.{HaveOwnKeys}
use net_device_mapping.Tests.Tracking.{host, found, started, scan_of_host, red_path}
use net_device_mapping.Tests.Tracking
use net_device_mapping.Tracker.State.{current_state}
use net_device_mapping.Util.LineCountWriter.{newlines}

program : Unit {0}
unfolding Tracking.program link_name link_kind link_peers as_name as_infos as_kind as_peer
    collect_set print_links print_results queries main set_netns receive thread query_netns_links
    insert sort_by_key kinds are_named named_answer all_named filter_map
program = tt

all-inodes_example : HaveOwnKeys (λ n. n.inode) found
all-inodes_example = all-inodes host found scan_of_host

abbrev loopback : LinkMessage ℕ
loopback = record { index = 1; attributes = if_name (codes "lo") ∷ link 2 ∷ [] }

abbrev veth : LinkMessage ℕ
veth = record {
  index = 2;
  attributes =
      other_attribute
      ∷ link_info (other_info ∷ [])
      ∷ if_name (codes "veth0")
      ∷ link_info (kind 7 ∷ kind 8 ∷ [])
      ∷ [];
}

abbrev nameless : LinkMessage ℕ
nameless = record { index = 3; attributes = [] }

kind_of_veth : link_kind veth.attributes ≡ some 7
unfolding program
kind_of_veth = refl

-- The file of namespace 500 leads there; that of 400 cannot be opened.
abbrev threads : ThreadHost ℕ
threads = record {
  open_file = λ path. elim path [ [] ↦ err 2 | c ∷ p ↦ ok 8 ];
  setns = λ fd netns. (0, 500);
  last_os_error = 1;
  build_runtime = ok tt;
  new_connection = λ netns. ok tt;
  links = λ netns. ok loopback ∷ ok veth ∷ [];
}

query_netns_links-answer_example :
    ((query_netns_links threads red_path 1).0 ≡ ok (loopback ∷ veth ∷ [])
      → IsAnswered threads red_path 1 (loopback ∷ veth ∷ []))
    × (IsAnswered threads red_path 1 (loopback ∷ veth ∷ [])
        → query_netns_links threads red_path 1 ≡ (ok (loopback ∷ veth ∷ []), 1))
    × ((query_netns_links threads red_path 1).1 ≡ 1)
query_netns_links-answer_example =
    query_netns_links-answer threads red_path 1 (loopback ∷ veth ∷ [])

abbrev query : PathBuf → Result QueryError (List (LinkMessage ℕ))
query path = (query_netns_links threads path 1).0

abbrev results : List (Answered ℕ)
results =
    (record { inode = 500; id = none; fs_path = []; pids = [] }, ok (loopback ∷ nameless ∷ []))
    ∷ (record { inode = 400; id = none; fs_path = []; pids = [] }, err (couldnt_open_netns 2))
    ∷ []

-- The namespace with the smaller inode comes first; the link without a name stops the listing.
listing : main results ≡ (
  namespace_line 400 []
      ∷ error_line (couldnt_open_netns 2)
      ∷ namespace_line 500 []
      ∷ device_line (codes "lo") 1 none (2 ∷ [])
      ∷ [],
  panics,
)
unfolding program
listing = refl

abbrev answers : List (Answered ℕ)
answers = map (λ n. (n, ok (loopback ∷ veth ∷ []))) found

queries_of_host : queries query found ≡ answers
unfolding program
queries_of_host = refl

-- The second query is completed first.
abbrev reorder : List (Answered ℕ) → List (Answered ℕ)
reorder (a ∷ b ∷ rest) = b ∷ a ∷ rest
reorder results = results

completed : Permᴰ (queries query found) (reorder (queries query found))
unfolding program
completed = Permᴰ.swap refl refl

abbrev writes : List (Written ℕ) → Result IoError (Unit {0})
writes before = ok tt

main_logged-main_example :
    (lines (main_logged writes (ok tt) host query reorder).1 ≡ (main (queries query found)).0)
    × ((main_logged writes (ok tt) host query reorder).0
        ≡ as_result (end_of (all_named (sort_by_key inode_of (queries query found)))))
main_logged-main_example =
    main_logged-main writes (λ before. refl) host found query reorder scan_of_host completed

abbrev found_at : INode → NetworkNamespace
found_at inode = record { inode = inode; id = none; fs_path = []; pids = [] }

-- The log file is full after its first line.
abbrev full : List (Written ℕ) → Result IoError (Unit {0})
full before = if ltb (length before) 2 then ok tt else err 28

log_full : show_results full ((found_at 500, ok (loopback ∷ veth ∷ [])) ∷ []) [] ≡ (
  returns (err (io_error 28)),
  printed (namespace_line 500 [])
      ∷ logged (namespace_entry 500 [])
      ∷ logged (link_entry loopback)
      ∷ [],
)
unfolding program show_results show_links
log_full = refl

abbrev debug : HashSet PathBuf → Str
debug paths = codes "{}"

abbrev debug_pids : List Pid → Str
debug_pids pids = codes "[]"

clean : (paths : HashSet PathBuf) → newlines (debug paths) ≡ 0
unfolding newlines
clean paths = refl

display-rows_example :
    row (display debug none (found ∷ [] ∷ found ∷ [])) 3
    ≡ 3 + last_rows debug 0 (found ∷ [] ∷ found ∷ [])
display-rows_example =
    display-rows debug clean (found ∷ [] ∷ found ∷ []) 3
      (omega arith, (omega arith, (omega arith, tt)))

abbrev backwards : List NetworkNamespace
backwards = elim found [ a ∷ b ∷ rest ↦ b ∷ a ∷ rest | _ ↦ [] ]

started-IsMap : IsMap started.namespaces
unfolding program
started-IsMap = (refl, (refl, tt))

reversed : Permᴰ (current_state started) backwards
unfolding program
reversed = Permᴰ.swap refl refl

current_state-display_example :
    (frame debug backwards ≡ frame debug (current_state started))
    × (list_all debug debug_pids backwards ≡ list_all debug debug_pids (current_state started))
current_state-display_example =
    current_state-display debug debug_pids started backwards started-IsMap reversed
