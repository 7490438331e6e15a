-- ===== src/Netns/Scan/View.antt =====
-- What a scan finds out about one namespace: its processes and its paths.
use mathlib.Core.List.{append_assoc, append-nil}
use net_device_mapping.HashMap
use net_device_mapping.HashMap.{HashMap}
use net_device_mapping.HashMap.Laws.{get-insert}
use net_device_mapping.HashSet
use net_device_mapping.HashSet.{HashSet}
use net_device_mapping.Host.{Host, INode, Pid}
use net_device_mapping.Netns.{NetworkNamespace}
use net_device_mapping.Netns.Lookup.{pids_in, mounts_of}
use net_device_mapping.Netns.MountsIterator
use net_device_mapping.Netns.PidsIterator
use net_device_mapping.Netns.Scan.{
  Inodes, add_pid, scan_pids, add_mount, scan_mounts, query_id_at, query_id, query_ids,
}
use net_device_mapping.Path.{PathBuf}
use net_device_mapping.Path.Equality.{path_key}
use net_device_mapping.Prelude.{
  ℕ, ◌≡◌, refl, sym, ◌>>=◌, subst, ap, ap₂, ok-injective, Bool, true, false, ◌∙◌, inl, inr, List,
  [], ◌∷◌, ◌++◌, Option, none, some, ok, >>=-eq-ok, arith, nat_key, ◌==◌, if◌then◌else◌,
  Option-cases,
}

abbrev pub pids_at : Option NetworkNamespace → List Pid
pids_at none = []
pids_at (some netns) = netns.pids

abbrev pub paths_at : Option NetworkNamespace → HashSet PathBuf
paths_at none = []
paths_at (some netns) = netns.fs_path

abbrev pub pids_found : INode → Inodes → List Pid
pids_found i m = pids_at (HashMap.get i m)

abbrev pub paths_found : INode → Inodes → HashSet PathBuf
paths_found i m = paths_at (HashMap.get i m)

add_pid_lem :
    (i : INode) (pid : Pid) (inode : INode) (m : Inodes)
    → (pids_found i (add_pid pid inode m)
        ≡ (if inode == i then pids_found i m ++ pid ∷ [] else pids_found i m))
      × (paths_found i (add_pid pid inode m) ≡ paths_found i m)
unfolding add_pid
add_pid_lem i pid inode m = elim (Option-cases (HashMap.get inode m)) [
  | inl absent ↦
      let new : NetworkNamespace = record {
        inode = inode;
        id = none;
        fs_path = [];
        pids = pid ∷ [];
      } in
      rw (absent, add_pid)
        (ground (arith, get-insert inode i new m), ground (arith, get-insert inode i new m))
  | inr (netns, found) ↦
      let new : NetworkNamespace = record netns { pids = netns.pids ++ pid ∷ [] } in
      rw (found, add_pid)
        (ground (arith, get-insert inode i new m), ground (arith, get-insert inode i new m))
]

join_found :
    (b : Bool) (old now rest pids : List Pid) (pid : Pid)
    → now ≡ (if b then old ++ pid ∷ [] else old)
    → (if b then pid ∷ rest else rest) ≡ pids
    → now ++ rest ≡ old ++ pids
join_found true old now rest pids pid h e =
    ap (λ l. l ++ rest) h ∙ append_assoc old (pid ∷ []) rest ∙ ap (λ l. old ++ l) e
join_found false old now rest pids pid h e = ap₂ (λ l r. l ++ r) h e

-- A scan of the processes finds those that `pids_in` finds.
pub scan_pids_lem :
    (h : Host) (i : INode) (files : List (PathBuf × ℕ)) (m : Inodes) {pids : List Pid}
    → pids_in h i files ≡ ok pids
    → (pids_found i (scan_pids h files m) ≡ pids_found i m ++ pids)
      × (paths_found i (scan_pids h files m) ≡ paths_found i m)
unfolding pids_in scan_pids
scan_pids_lem h i [] m e = (ground (arith, append-nil (pids_found i m)), refl)
scan_pids_lem h i (file ∷ files) m {pids} e =
    let ((path, pid, inode), found, e') = >>=-eq-ok (PidsIterator.next h file) _ e in
    let (rest, later, e'') = >>=-eq-ok (pids_in h i files) _ e' in
    let (here, same) = add_pid_lem i pid inode m in
    let (there, same') = scan_pids_lem h i files (add_pid pid inode m) later in
    rw (scan_pids, found)
      (
        there ∙ join_found (inode == i) (pids_found i m) _ rest pids pid here (ok-injective e''),
        same' ∙ same,
      )

insert_empty : (path : PathBuf) → HashSet.insert path [] ≡ path ∷ []
unfolding HashSet.insert HashSet.contains
insert_empty path = refl

add_mount_lem :
    (i : INode) (path : PathBuf) (inode : INode) (m : Inodes)
    → (pids_found i (add_mount path inode m) ≡ pids_found i m)
      × (paths_found i (add_mount path inode m)
          ≡ (if inode == i then HashSet.insert path (paths_found i m) else paths_found i m))
unfolding add_mount
add_mount_lem i path inode m = elim (Option-cases (HashMap.get inode m)) [
  | inl absent ↦
      let new : NetworkNamespace = record {
        inode = inode;
        id = none;
        fs_path = path ∷ [];
        pids = [];
      } in
      rw (absent, add_mount)
        (
          ground (arith, get-insert inode i new m),
          ground (arith, get-insert inode i new m, insert_empty path),
        )
  | inr (netns, found) ↦
      let new : NetworkNamespace = record netns { fs_path = HashSet.insert path netns.fs_path } in
      rw (found, add_mount)
        (ground (arith, get-insert inode i new m), ground (arith, get-insert inode i new m))
]

-- A scan of the mounts finds those that `mounts_of` finds.
pub scan_mounts_lem :
    (h : Host) (i : INode) (mounts : List PathBuf) (m : Inodes) {m' : Inodes}
    {paths : HashSet PathBuf}
    → mounts_of h i mounts (paths_found i m) ≡ ok paths
    → scan_mounts h mounts m ≡ ok m'
    → (pids_found i m' ≡ pids_found i m) × (paths_found i m' ≡ paths)
unfolding mounts_of scan_mounts
scan_mounts_lem h i [] m e e' = (ground arith, ground arith)
scan_mounts_lem h i (mount ∷ mounts) m {m'} {paths} e e' =
    let ((path, inode), found, k) = >>=-eq-ok (MountsIterator.next h mount) _ e in
    let (same, here) = add_mount_lem i path inode m in
    let step : scan_mounts h mounts (add_mount path inode m) ≡ ok m' =
      sym (ap (λ r. r >>= λ x. scan_mounts h mounts (add_mount x.0 x.1 m)) found) ∙ e' in
    let (pids, all) =
      scan_mounts_lem h i mounts (add_mount path inode m) (ap (mounts_of h i mounts) here ∙ k)
        step in
    (pids ∙ same, all)

query_id-keeps :
    (h : Host) (netns : NetworkNamespace) {netns' : NetworkNamespace}
    → query_id h netns ≡ ok netns'
    → (netns'.pids ≡ netns.pids) × (netns'.fs_path ≡ netns.fs_path)
unfolding query_id query_id_at
query_id-keeps h netns e = ground arith

pub query_ids-keeps :
    (h : Host) (i : INode) (m : Inodes) {m' : Inodes}
    → query_ids h m ≡ ok m'
    → (pids_found i m' ≡ pids_found i m) × (paths_found i m' ≡ paths_found i m)
unfolding query_ids HashMap.get
query_ids-keeps h i [] e = (ground arith, ground arith)
query_ids-keeps h i ((inode, netns) ∷ m) e =
    let (netns', asked, e') = >>=-eq-ok (query_id h netns) _ e in
    let (rest, others, e'') = >>=-eq-ok (query_ids h m) _ e' in
    let (pids, paths) = query_id-keeps h netns asked in
    let (pids', paths') = query_ids-keeps h i m others in
    subst
      (λ m'.
        (pids_found i m' ≡ pids_found i ((inode, netns) ∷ m))
        × (paths_found i m' ≡ paths_found i ((inode, netns) ∷ m)))
      (ok-injective e'') (ground (arith, pids, pids'), ground (arith, paths, paths'))
