-- ===== src/Netns/Scan/Agreement.antt =====
-- `NetworkNamespace::all` and `by_inode` of src/netns.rs see the same namespace.
use net_device_mapping.HashMap
use net_device_mapping.HashMap.{HashMap}
use net_device_mapping.HashSet.{HashSet}
use net_device_mapping.Host.{Host, INode, Pid}
use net_device_mapping.Netns.{NetworkNamespace, io_error}
use net_device_mapping.Netns.Lookup.{pids_in, mounts_of, gather, with_id, unless_unused, by_inode}
use net_device_mapping.Netns.MountsIterator
use net_device_mapping.Netns.PidsIterator
use net_device_mapping.Netns.Scan.{
  Inodes, add_pid, scan_pids, add_mount, scan_mounts, query_id_at, query_id, query_ids, all,
}
use net_device_mapping.Netns.Scan.View.{
  pids_at, paths_at, scan_pids_lem, scan_mounts_lem, query_ids-keeps,
}
use net_device_mapping.Path.{PathBuf}
use net_device_mapping.Prelude.{
  ℕ, ◌≡◌, refl, sym, ◌∙◌, ap, subst, inl, inr, List, [], ◌∷◌, Option, some, ok, map_err, returns,
  >>=-eq-ok, ok-injective, arith, nat_key, ◌==◌, find?, if_pos, if_neg, Option-cases, Result-cases,
}

-- Every namespace stands under its inode.
abbrev pub AreKeyed : Inodes → Type 0
AreKeyed [] = Unit
AreKeyed ((i, netns) ∷ m) = (netns.inode ≡ i) × AreKeyed m

insert-AreKeyed :
    (i : INode) (netns : NetworkNamespace) (m : Inodes)
    → netns.inode ≡ i
    → AreKeyed m
    → AreKeyed (HashMap.insert i netns m)
unfolding HashMap.insert
insert-AreKeyed i netns [] e k = (e, tt)
insert-AreKeyed i netns ((j, n) ∷ m) e (f, k) = elim (nat_key.dec j i) [
  | yes same ↦ rw (if_pos _ same) (e, k)
  | no other ↦ rw (if_neg _ other) (f, insert-AreKeyed i netns m e k)
]

AreKeyed-get :
    (i : INode) (m : Inodes) {netns : NetworkNamespace}
    → AreKeyed m
    → HashMap.get i m ≡ some netns
    → netns.inode ≡ i
unfolding HashMap.get
AreKeyed-get i [] k e = cc
AreKeyed-get i ((j, n) ∷ m) {netns} (f, k) e = elim (nat_key.dec j i) [
  | yes same ↦ ground arith
  | no other ↦ AreKeyed-get i m {netns = netns} k (ground arith)
]

find?-values :
    (i : INode) (m : Inodes)
    → AreKeyed m
    → find? (λ n. n.inode == i) (HashMap.values m) ≡ HashMap.get i m
unfolding HashMap.get
find?-values i [] k = refl
find?-values i ((j, n) ∷ m) (f, k) = ground (arith, find?-values i m k)

add_pid-AreKeyed :
    (pid : Pid) (inode : INode) (m : Inodes) → AreKeyed m → AreKeyed (add_pid pid inode m)
unfolding add_pid
add_pid-AreKeyed pid inode m k = elim (Option-cases (HashMap.get inode m)) [
  | inl absent ↦ rw (add_pid, absent) (insert-AreKeyed inode _ m refl k)
  | inr (netns, found) ↦
      rw (add_pid, found) (insert-AreKeyed inode _ m (AreKeyed-get inode m k found) k)
]

pub scan_pids-AreKeyed :
    (h : Host) (files : List (PathBuf × ℕ)) (m : Inodes)
    → AreKeyed m
    → AreKeyed (scan_pids h files m)
unfolding scan_pids
scan_pids-AreKeyed h [] m k = k
scan_pids-AreKeyed h (file ∷ files) m k = elim (Result-cases (PidsIterator.next h file)) [
  | inl ((path, pid, inode), found) ↦
      rw (scan_pids, found) (scan_pids-AreKeyed h files _ (add_pid-AreKeyed pid inode m k))
  | inr (e, failed) ↦ rw (scan_pids, failed) (scan_pids-AreKeyed h files m k)
]

add_mount-AreKeyed :
    (path : PathBuf) (inode : INode) (m : Inodes) → AreKeyed m → AreKeyed (add_mount path inode m)
unfolding add_mount
add_mount-AreKeyed path inode m k = elim (Option-cases (HashMap.get inode m)) [
  | inl absent ↦ rw (add_mount, absent) (insert-AreKeyed inode _ m refl k)
  | inr (netns, found) ↦
      rw (add_mount, found) (insert-AreKeyed inode _ m (AreKeyed-get inode m k found) k)
]

pub scan_mounts-AreKeyed :
    (h : Host) (mounts : List PathBuf) (m : Inodes) {m' : Inodes}
    → AreKeyed m
    → scan_mounts h mounts m ≡ ok m'
    → AreKeyed m'
unfolding scan_mounts
scan_mounts-AreKeyed h [] m k e = subst AreKeyed (ok-injective e) k
scan_mounts-AreKeyed h (mount ∷ mounts) m k e =
    let ((path, inode), found, e') = >>=-eq-ok (MountsIterator.next h mount) _ e in
    scan_mounts-AreKeyed h mounts (add_mount path inode m) (add_mount-AreKeyed path inode m k) e'

query_id-inode :
    (h : Host) (netns : NetworkNamespace) {netns' : NetworkNamespace}
    → query_id h netns ≡ ok netns'
    → netns'.inode ≡ netns.inode
unfolding query_id query_id_at
query_id-inode h netns e = ground arith

pub query_ids-AreKeyed :
    (h : Host) (m : Inodes) {m' : Inodes} → AreKeyed m → query_ids h m ≡ ok m' → AreKeyed m'
unfolding query_ids
query_ids-AreKeyed h [] k e = subst AreKeyed (ok-injective e) tt
query_ids-AreKeyed h ((inode, netns) ∷ m) (f, k) e =
    let (netns', asked, e') = >>=-eq-ok (query_id h netns) _ e in
    let (rest, others, e'') = >>=-eq-ok (query_ids h m) _ e' in
    subst AreKeyed (ok-injective e'')
      (query_id-inode h netns asked ∙ f, query_ids-AreKeyed h m k others)

with_id_lem :
    (h : Host) (netns : NetworkNamespace) {o : Option NetworkNamespace}
    → with_id h netns ≡ returns (ok o)
    → (pids_at o ≡ netns.pids) × (paths_at o ≡ netns.fs_path)
unfolding with_id
with_id_lem h netns e = (ground arith, ground arith)

unless_unused_lem :
    (h : Host) (i : INode) (pids : List Pid) (paths : HashSet PathBuf) {o : Option NetworkNamespace}
    → unless_unused h i pids paths ≡ returns (ok o)
    → (pids_at o ≡ pids) × (paths_at o ≡ paths)
unfolding unless_unused
unless_unused_lem h i [] [] e = (ground arith, ground arith)
unless_unused_lem h i [] (path ∷ paths) e = with_id_lem h _ e
unless_unused_lem h i (pid ∷ pids) paths e = with_id_lem h _ e

-- What `by_inode` returns has the processes and the paths that its two searches find.
by_inode_lem :
    (h : Host) (i : INode) {o : Option NetworkNamespace}
    → by_inode h i ≡ returns (ok o)
    → gather h i ≡ ok (pids_at o, paths_at o)
unfolding by_inode
by_inode_lem h i {o} e = elim (Result-cases (gather h i)) [
  | inl ((pids, paths), found) ↦
      let (same, same') = unless_unused_lem h i pids paths {o = o} (ground arith) in ground arith
  | inr (failed, found) ↦ absurd (ground arith)
]

-- The steps of an `all` that returns.
pub all_lem :
    (h : Host) (mounts : List PathBuf) {l : List NetworkNamespace}
    → all h ≡ ok l
    → MountsIterator.new h ≡ ok mounts
    → (m₁ m₂ : Inodes) × (scan_mounts h mounts (scan_pids h (PidsIterator.new h) []) ≡ ok m₁)
      × (query_ids h m₁ ≡ ok m₂)
      × (HashMap.values m₂ ≡ l)
unfolding all
all_lem h mounts {l} e q =
    let (mounts', q', e₁) = >>=-eq-ok (MountsIterator.new h) _ e in
    let same : mounts' ≡ mounts = ok-injective (sym q' ∙ q) in
    let (m₁, s, e₂) =
      >>=-eq-ok (scan_mounts h mounts' (scan_pids h (PidsIterator.new h) [])) _ e₁ in
    let (_, _, e₃) = >>=-eq-ok (map_err io_error h.new_connection) _ e₂ in
    let (m₂, t, e₄) = >>=-eq-ok (query_ids h m₁) _ e₃ in
    (
      m₁,
      m₂,
      subst (λ x. scan_mounts h x (scan_pids h (PidsIterator.new h) []) ≡ ok m₁) same s,
      t,
      ok-injective e₄,
    )

-- In one state of the system, if both `all` and `by_inode` return a result, the namespace that `all`
-- lists under an inode has the processes and the paths of the one that `by_inode` finds; and where one
-- of them has no such namespace, the other's has no processes and no paths.
pub all-by_inode :
    (h : Host) (i : INode) {l : List NetworkNamespace} {o : Option NetworkNamespace}
    → all h ≡ ok l
    → by_inode h i ≡ returns (ok o)
    → (pids_at (find? (λ n. n.inode == i) l) ≡ pids_at o)
      × (paths_at (find? (λ n. n.inode == i) l) ≡ paths_at o)
unfolding gather HashMap.get
all-by_inode h i {l} {o} e e₀ =
    let files = PidsIterator.new h in
    let m₀ = scan_pids h files [] in
    let (pids, p, g₁) = >>=-eq-ok (pids_in h i files) _ (by_inode_lem h i e₀) in
    let (mounts, q, g₂) = >>=-eq-ok (MountsIterator.new h) _ g₁ in
    let (paths, r, g₃) = >>=-eq-ok (mounts_of h i mounts []) _ g₂ in
    let (m₁, m₂, s, t, listed) = all_lem h mounts e q in
    let (a, b) = scan_pids_lem h i files [] p in
    let (c, d) = scan_mounts_lem h i mounts m₀ (ap (mounts_of h i mounts) b ∙ r) s in
    let (u, v) = query_ids-keeps h i m₁ t in
    let k₁ = scan_mounts-AreKeyed h mounts m₀ (scan_pids-AreKeyed h files [] tt) s in
    let found = find?-values i m₂ (query_ids-AreKeyed h m₁ k₁ t) in
    let searched = ap (find? (λ n. n.inode == i)) (sym listed) ∙ found in
    (
      ap pids_at searched ∙ u ∙ c ∙ a ∙ ap (λ x. x.0) (ok-injective g₃),
      ap paths_at searched ∙ v ∙ d ∙ ap (λ x. x.1) (ok-injective g₃),
    )
