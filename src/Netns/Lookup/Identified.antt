-- ===== src/Netns/Lookup/Identified.antt =====
-- What `by_id` of src/netns.rs returns.
use mathlib.Core.List.{Memᴰ}
use net_device_mapping.HashMap
use net_device_mapping.HashMap.{HashMap}
use net_device_mapping.Host.{Host, INode, NsId}
use net_device_mapping.Netns.{NetworkNamespace, id_query_failed, couldnt_get_metadata}
use net_device_mapping.Netns.Lookup.{pids_in, one_file_each, found_by_id, search_id, by_id}
use net_device_mapping.Netns.MountsIterator
use net_device_mapping.Netns.NsidQuery.{id_by_path}
use net_device_mapping.Netns.PidsIterator
use net_device_mapping.Path.{PathBuf}
use net_device_mapping.Prelude.{
  ◌≡◌, refl, sym, ◌∙◌, ap, subst, List, [], ◌∷◌, Option, none, some, Result, ok, err, map_err,
  >>=-eq-ok, ok-injective, arith, nat_key, option_nat_key, key_eq, All, if_pos, if_neg, Bool-cases,
  inl, inr, true, if◌then◌else◌,
}

insert-All :
    (Q : INode × PathBuf → Type 0) (k : INode) (v : PathBuf) (m : HashMap INode PathBuf)
    → Q (k, v)
    → All Q m
    → All Q (HashMap.insert k v m)
unfolding HashMap.insert
insert-All Q k v [] q h = (q, tt)
insert-All Q k v ((j, w) ∷ m) q (x, h) = elim (nat_key.dec j k) [
  | yes same ↦ rw (if_pos _ same) (q, h)
  | no other ↦ rw (if_neg _ other) (x, insert-All Q k v m q h)
]

All-Memᴰ : (P : PathBuf → Type 0) (xs : List PathBuf) → ((p : PathBuf) → Memᴰ p xs → P p) → All P xs
All-Memᴰ P [] f = tt
All-Memᴰ P (x ∷ xs) f = (f x (Memᴰ.head refl), All-Memᴰ P xs (λ p m. f p (Memᴰ.tail m)))

map_err-eq-ok :
    {E F A : Type 0} (f : E → F) (r : Result E A) {a : A} → map_err f r ≡ ok a → r ≡ ok a
map_err-eq-ok f (ok b) e = ap ok (ok-injective e)
map_err-eq-ok f (err x) e = cc

same_id : (id : NsId) (answer : Option NsId) → key_eq (some id) answer ≡ true → answer ≡ some id
same_id id answer e = elim (option_nat_key.dec (some id) answer) [
  | yes p ↦ sym p
  | no p ↦ absurd (ground arith)
]

module _ (h : Host) (mounts : List PathBuf) where
  -- A mount that leads to the inode that it stands under.
  abbrev pub LeadsTo : INode × PathBuf → Type 0
  LeadsTo (inode, path) = Memᴰ path mounts × (h.metadata path ≡ ok inode)

  leads :
      (mount : PathBuf) {path : PathBuf} {inode : INode}
      → MountsIterator.next h mount ≡ ok (path, inode)
      → Memᴰ mount mounts
      → LeadsTo (inode, path)
  unfolding MountsIterator.next
  leads mount e known =
      let (i, asked, e') =
        >>=-eq-ok (map_err (couldnt_get_metadata mount) (h.metadata mount)) _ e in
      subst (λ x. LeadsTo (x.1, x.0)) (ok-injective e') (known, map_err-eq-ok _ _ asked)

  entered :
      (there : Option PathBuf) (inode : INode) (path : PathBuf) (m : HashMap INode PathBuf)
      → LeadsTo (inode, path)
      → All LeadsTo m
      → All LeadsTo (elim there [ some _ ↦ m | none ↦ HashMap.insert inode path m ])
  entered none inode path m x l = insert-All LeadsTo inode path m x l
  entered (some p) inode path m x l = l

  one_file_each-LeadsTo :
      (rest : List PathBuf) (m : HashMap INode PathBuf) {m' : HashMap INode PathBuf}
      → All (λ p. Memᴰ p mounts) rest
      → All LeadsTo m
      → one_file_each h rest m ≡ ok m'
      → All LeadsTo m'
  unfolding one_file_each
  one_file_each-LeadsTo [] m r l e = subst (All LeadsTo) (ok-injective e) l
  one_file_each-LeadsTo (mount ∷ rest) m (known, r) l e =
      let ((path, inode), asked, e') = >>=-eq-ok (MountsIterator.next h mount) _ e in
      one_file_each-LeadsTo rest _ r
        (entered (HashMap.get inode m) inode path m (leads mount asked known) l) e'

  -- The namespace that a mount leads to, with that mount as its path, where the kernel gives the id for it, and with
  -- the processes that are in it.
  abbrev pub IsIdentified : NsId → NetworkNamespace → Type 0
  IsIdentified id n =
      (path : PathBuf) × LeadsTo (n.inode, path)
      × (n.id ≡ some id)
      × (n.fs_path ≡ path ∷ [])
      × (id_by_path h path ≡ ok (some id))
      × (pids_in h n.inode (PidsIterator.new h) ≡ ok n.pids)

  abbrev Identified : NsId → Option NetworkNamespace → Type 0
  Identified id none = Unit
  Identified id (some n) = IsIdentified id n

  search_id-Found :
      (id : NsId) (m : HashMap INode PathBuf) {n : NetworkNamespace}
      → All LeadsTo m
      → search_id h id m ≡ ok (some n)
      → Identified id (some n)
  unfolding search_id found_by_id
  search_id-Found id [] l e = absurd (ground arith)
  search_id-Found id ((inode, path) ∷ m) {n} (x, l) e =
      let (answer, asked, e') = >>=-eq-ok (map_err id_query_failed (id_by_path h path)) _ e in
      elim (Bool-cases (key_eq (some id) answer)) [
        | inl same ↦
            let (pids, found, e₁) = >>=-eq-ok (pids_in h inode (PidsIterator.new h)) _ (
              subst
                (λ b. (if b then found_by_id h id inode path else search_id h id m) ≡ ok (some n))
                same e') in
            subst (λ o. Identified id o) (ok-injective e₁)
              (path, x, refl, refl, map_err-eq-ok _ _ asked ∙ ap ok (same_id id answer same), found)
        | inr other ↦ search_id-Found id m l (
            subst (λ b. (if b then found_by_id h id inode path else search_id h id m) ≡ ok (some n))
              other e')
      ]

-- What `by_id` finds is a namespace that a mount of nsfs leads to, with that one mount as its path; the kernel
-- gives the id that was asked for to the mount's file, and the processes are those that the search of
-- /proc has in the namespace.
pub by_id-IsIdentified :
    (h : Host) (id : NsId) (n : NetworkNamespace)
    → by_id h id ≡ ok (some n)
    → (mounts : List PathBuf) × (MountsIterator.new h ≡ ok mounts) × IsIdentified h mounts id n
unfolding by_id
by_id-IsIdentified h id n e =
    let (mounts, opened, e₁) = >>=-eq-ok (MountsIterator.new h) _ e in
    let (all_files, collected, e₂) = >>=-eq-ok (one_file_each h mounts []) _ e₁ in
    (
      mounts,
      opened,
      search_id-Found h mounts id all_files
          (one_file_each-LeadsTo h mounts mounts []
            (All-Memᴰ (λ p. Memᴰ p mounts) mounts (λ p m. m)) tt collected)
          e₂,
    )
