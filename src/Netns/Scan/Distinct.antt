-- ===== src/Netns/Scan/Distinct.antt =====
-- `NetworkNamespace::all` lists no namespace twice.
use net_device_mapping.HashMap
use net_device_mapping.HashMap.{HashMap, IsMap}
use net_device_mapping.HashMap.Laws.{insert-IsMap}
use net_device_mapping.Host.{Host, INode, Pid}
use net_device_mapping.Netns.{NetworkNamespace}
use net_device_mapping.Netns.MountsIterator
use net_device_mapping.Netns.PidsIterator
use net_device_mapping.Netns.Scan.{
  Inodes, add_pid, scan_pids, add_mount, scan_mounts, query_id, query_ids, all,
}
use net_device_mapping.Netns.Scan.Agreement.{
  AreKeyed, scan_pids-AreKeyed, scan_mounts-AreKeyed, query_ids-AreKeyed, all_lem,
}
use net_device_mapping.Path.{PathBuf}
use net_device_mapping.Prelude.{
  ℕ, ◌≡◌, ◌≢◌, sym, subst, List, [], ◌∷◌, none, ok, >>=-eq-ok, ok-injective, arith, nat_key, All,
  Option-cases, Result-cases, inl, inr,
}
use net_device_mapping.Sorting.Order.{HaveOwnKeys}

add_pid-IsMap : (pid : Pid) (inode : INode) (m : Inodes) → IsMap m → IsMap (add_pid pid inode m)
unfolding add_pid
add_pid-IsMap pid inode m i = elim (Option-cases (HashMap.get inode m)) [
  | inl e ↦ rw (add_pid, e) (insert-IsMap inode _ m i)
  | inr (netns, e) ↦ rw (add_pid, e) (insert-IsMap inode _ m i)
]

add_mount-IsMap :
    (path : PathBuf) (inode : INode) (m : Inodes) → IsMap m → IsMap (add_mount path inode m)
unfolding add_mount
add_mount-IsMap path inode m i = elim (Option-cases (HashMap.get inode m)) [
  | inl e ↦ rw (add_mount, e) (insert-IsMap inode _ m i)
  | inr (netns, e) ↦ rw (add_mount, e) (insert-IsMap inode _ m i)
]

scan_pids-IsMap :
    (h : Host) (files : List (PathBuf × ℕ)) (m : Inodes) → IsMap m → IsMap (scan_pids h files m)
unfolding scan_pids
scan_pids-IsMap h [] m i = i
scan_pids-IsMap h (file ∷ files) m i = elim (Result-cases (PidsIterator.next h file)) [
  | inl ((path, pid, inode), e) ↦
      rw (scan_pids, e)
        (scan_pids-IsMap h files (add_pid pid inode m) (add_pid-IsMap pid inode m i))
  | inr (failed, e) ↦ rw (scan_pids, e) (scan_pids-IsMap h files m i)
]

scan_mounts-IsMap :
    (h : Host) (mounts : List PathBuf) (m : Inodes) {m' : Inodes}
    → IsMap m
    → scan_mounts h mounts m ≡ ok m'
    → IsMap m'
unfolding scan_mounts
scan_mounts-IsMap h [] m i e = subst IsMap (ok-injective e) i
scan_mounts-IsMap h (mount ∷ mounts) m i e =
    let ((path, inode), asked, e') = >>=-eq-ok (MountsIterator.next h mount) _ e in
    scan_mounts-IsMap h mounts (add_mount path inode m) (add_mount-IsMap path inode m i) e'

query_ids-absent :
    (h : Host) (i : INode) (m : Inodes) {m' : Inodes}
    → query_ids h m ≡ ok m'
    → HashMap.get i m ≡ none
    → HashMap.get i m' ≡ none
unfolding query_ids HashMap.get
query_ids-absent h i [] e f = ground arith
query_ids-absent h i ((inode, netns) ∷ m) e f =
    let (netns', asked, e') = >>=-eq-ok (query_id h netns) _ e in
    let (rest, others, e'') = >>=-eq-ok (query_ids h m) _ e' in
    ground (arith, query_ids-absent h i m others)

query_ids-IsMap : (h : Host) (m : Inodes) {m' : Inodes} → IsMap m → query_ids h m ≡ ok m' → IsMap m'
unfolding query_ids
query_ids-IsMap h [] i e = subst IsMap (ok-injective e) tt
query_ids-IsMap h ((inode, netns) ∷ m) (fresh, i) e =
    let (netns', asked, e') = >>=-eq-ok (query_id h netns) _ e in
    let (rest, others, e'') = >>=-eq-ok (query_ids h m) _ e' in
    subst IsMap (ok-injective e'')
      (query_ids-absent h inode m others fresh, query_ids-IsMap h m i others)

values-fresh :
    (i : INode) (m : Inodes)
    → AreKeyed m
    → HashMap.get i m ≡ none
    → All (λ n. n.inode ≢ i) (HashMap.values m)
unfolding HashMap.get
values-fresh i [] k e = tt
values-fresh i ((j, n) ∷ m) (f, k) e = ((λ same. ground arith), values-fresh i m k (ground arith))

values-HaveOwnKeys :
    (m : Inodes) → AreKeyed m → IsMap m → HaveOwnKeys (λ n. n.inode) (HashMap.values m)
values-HaveOwnKeys [] k i = tt
values-HaveOwnKeys ((j, n) ∷ m) (f, k) (fresh, i) = (
  subst (λ x. All (λ b. b.inode ≢ x) (HashMap.values m)) (sym f) (values-fresh j m k fresh),
  values-HaveOwnKeys m k i,
)

-- A scan that succeeds lists every namespace once: no two of its entries have the same inode.
pub all-inodes :
    (h : Host) (l : List NetworkNamespace) → all h ≡ ok l → HaveOwnKeys (λ n. n.inode) l
unfolding all
all-inodes h l e =
    let (mounts, opened, e₁) = >>=-eq-ok (MountsIterator.new h) _ e in
    let (m₁, m₂, scanned, asked, same) = all_lem h mounts e opened in
    let k₁ = scan_pids-AreKeyed h (PidsIterator.new h) [] tt in
    let i₁ = scan_pids-IsMap h (PidsIterator.new h) [] tt in
    subst (HaveOwnKeys (λ n. n.inode)) same (
      values-HaveOwnKeys m₂
        (query_ids-AreKeyed h m₁ (scan_mounts-AreKeyed h mounts _ k₁ scanned) asked)
        (query_ids-IsMap h m₁ (scan_mounts-IsMap h mounts _ i₁ scanned) asked))
