-- ===== src/MountMonitor/Ids.antt =====
-- Mount points with kernel ids: the table of a rescan matches each old UUID at most once.
use net_device_mapping.HashMap
use net_device_mapping.HashMap.{HashMap, IsMap}
use net_device_mapping.HashMap.Laws.{get-insert}
use net_device_mapping.HashSet
use net_device_mapping.HashSet.{HashSet, contains-insert}
use net_device_mapping.MountMonitor.{MountPoint, Uuid}
use net_device_mapping.MountMonitor.Rescan.{
  Mounts, Lookups, Match, by_id, by_path, unmatched, match_old, build_lookups, index_under,
  match_path, match_id, lookup_id,
}
use net_device_mapping.Path.{PathBuf}
use net_device_mapping.Path.Equality.{path_key}
use net_device_mapping.Prelude.{
  ℕ, ◌≡◌, ◌≢◌, refl, ◌⊎◌, inl, inr, true, false, List, [], ◌∷◌, Option, none, some, ap, sym, subst,
  ◌∙◌, arith, nat_key, Bool-cases, Option-cases,
}

-- The old UUID that a match uses up has not been met before.
abbrev pub Unmet : Match → HashSet Uuid → Type 0
Unmet (by_id uuid) seen = HashSet.contains uuid seen ≡ false
Unmet (by_path uuid) seen = HashSet.contains uuid seen ≡ false
Unmet unmatched seen = Unit

abbrev pub meet : Match → HashSet Uuid → HashSet Uuid
meet (by_id uuid) seen = HashSet.insert uuid seen
meet (by_path uuid) seen = HashSet.insert uuid seen
meet unmatched seen = seen

-- No two of the mount points match the same old UUID.
abbrev pub MeetOnce : Lookups → HashSet Uuid → List MountPoint → Type 0
MeetOnce lookups seen [] = Unit
MeetOnce lookups seen (mp ∷ mps) =
    Unmet (match_old lookups mp) seen × MeetOnce lookups (meet (match_old lookups mp) seen) mps

abbrev Absent : ℕ → List MountPoint → Type 0
Absent i [] = Unit
Absent i (mp ∷ mps) = (mp.id ≢ some i) × Absent i mps

-- Every mount point has an id, and no two have the same: what /proc/self/mountinfo promises.
abbrev pub DistinctIds : List MountPoint → Type 0
DistinctIds [] = Unit
DistinctIds (mp ∷ mps) = ((i : ℕ) × (mp.id ≡ some i) × Absent i mps) × DistinctIds mps

abbrev pub HaveIds : Mounts → Type 0
HaveIds mounts =
    (u : Uuid) (mp : MountPoint) → HashMap.get u mounts ≡ some mp → (i : ℕ) × (mp.id ≡ some i)

HaveIds-tail :
    (u : Uuid) (mp : MountPoint) (mounts : Mounts)
    → IsMap ((u, mp) ∷ mounts)
    → HaveIds ((u, mp) ∷ mounts)
    → HaveIds mounts
unfolding HashMap.get
HaveIds-tail u mp mounts (fresh, m) h = λ v mq e. h v mq (ground arith)

pub HaveIds-cons :
    (u : Uuid) (mp : MountPoint) (i : ℕ) (mounts : Mounts)
    → mp.id ≡ some i
    → HaveIds mounts
    → HaveIds ((u, mp) ∷ mounts)
unfolding HashMap.get
HaveIds-cons u mp i mounts e h v mq found = elim (nat_key.dec u v) [
  | yes same ↦ (i, ground arith)
  | no other ↦ h v mq (ground arith)
]

index_under_id :
    (i : ℕ) (u : Uuid) (o : Option ℕ) (v : Uuid) (path : PathBuf) (lookups : Lookups)
    → HashMap.get i (index_under o v path lookups).0 ≡ some u
    → (HashMap.get i lookups.0 ≡ some u) ⊎ ((o ≡ some i) × (v ≡ u))
index_under_id i u none v path lookups h = inl h
index_under_id i u (some j) v path lookups h = ground (arith, get-insert j i v lookups.0)

-- What the index by ids holds was there before, or comes from a mount point with that id.
indexed :
    (i : ℕ) (u : Uuid) (mounts : Mounts) (lookups : Lookups)
    → IsMap mounts
    → HashMap.get i (build_lookups mounts lookups).0 ≡ some u
    → (HashMap.get i lookups.0 ≡ some u)
      ⊎ ((mp : MountPoint) × (HashMap.get u mounts ≡ some mp) × (mp.id ≡ some i))
unfolding build_lookups HashMap.get
indexed i u [] lookups m h = inl h
indexed i u ((v, mp) ∷ mounts) lookups (fresh, m) h =
    elim (indexed i u mounts (index_under mp.id v mp.path lookups) m h) [
      | inl here ↦ elim (index_under_id i u mp.id v mp.path lookups here) [
        | inl before ↦ inl before
        | inr (e, same) ↦ inr (mp, ground arith, e)
      ]
      | inr (mq, found, e) ↦ inr (mq, ground arith, e)
    ]

index_under_path :
    (i : ℕ) (o : Option ℕ) (v : Uuid) (path : PathBuf) (lookups : Lookups)
    → o ≡ some i
    → (index_under o v path lookups).1 ≡ lookups.1
index_under_path i none v path lookups h = cc
index_under_path i (some j) v path lookups h = refl

-- Where every old mount point has an id, none is indexed by its path.
no_paths :
    (mounts : Mounts) (lookups : Lookups)
    → IsMap mounts
    → HaveIds mounts
    → (build_lookups mounts lookups).1 ≡ lookups.1
unfolding build_lookups HashMap.get
no_paths [] lookups m h = refl
no_paths ((v, mp) ∷ mounts) lookups m h =
    let (i, e) = h v mp (ground arith) in
    no_paths mounts (index_under mp.id v mp.path lookups) m.1 (HaveIds-tail v mp mounts m h)
    ∙ index_under_path i mp.id v mp.path lookups e

lookup_id_of :
    (o : Option ℕ) (i : ℕ) (lookups : Lookups)
    → o ≡ some i
    → lookup_id o lookups ≡ HashMap.get i lookups.0
lookup_id_of o i lookups h = ap (λ o. lookup_id o lookups) h

module _ (old : Mounts) (is_map : IsMap old) (have : HaveIds old) where
  abbrev lookups : Lookups
  lookups = build_lookups old ([], [])

  -- What has been met has an id that is not to come again.
  abbrev Past : HashSet Uuid → List MountPoint → Type 0
  Past seen mps =
      (u : Uuid) (mp : MountPoint) (i : ℕ)
      → HashSet.contains u seen ≡ true
      → HashMap.get u old ≡ some mp
      → mp.id ≡ some i
      → Absent i mps

  indexed_old :
      (i : ℕ) (u : Uuid)
      → HashMap.get i lookups.0 ≡ some u
      → (mp : MountPoint) × (HashMap.get u old ≡ some mp) × (mp.id ≡ some i)
  unfolding HashMap.get
  indexed_old i u h = elim (indexed i u old ([], []) is_map h) [
    | inl empty ↦ cc
    | inr found ↦ found
  ]

  -- How a mount point with an id matches.
  pub match_by_id :
      (mp : MountPoint) (i : ℕ)
      → mp.id ≡ some i
      → (match_old lookups mp ≡ unmatched)
        ⊎ ((u : Uuid) × (op : MountPoint) × (match_old lookups mp ≡ by_id u)
            × (HashMap.get u old ≡ some op)
            × (op.id ≡ some i))
  unfolding match_old HashMap.get
  match_by_id mp i e = elim (Option-cases (HashMap.get i lookups.0)) [
    | inl miss ↦ inl (
        ap (λ o. match_id o lookups mp) (lookup_id_of mp.id i lookups e ∙ miss)
        ∙ ap (λ paths. match_path (HashMap.get mp.path paths)) (no_paths old ([], []) is_map have))
    | inr (u, hit) ↦
        let (op, found, f) = indexed_old i u hit in
        inr
          (u, op, ap (λ o. match_id o lookups mp) (lookup_id_of mp.id i lookups e ∙ hit), found, f)
  ]

  -- Two old mount points under one UUID are one, and so are their ids.
  same_id :
      (u : Uuid) (op mq : MountPoint) (i j : ℕ)
      → HashMap.get u old ≡ some op
      → op.id ≡ some i
      → HashMap.get u old ≡ some mq
      → mq.id ≡ some j
      → i ≡ j
  same_id u op mq i j a b c d = cc

  unmet :
      (seen : HashSet Uuid) (mp : MountPoint) (mps : List MountPoint) (i : ℕ) (u : Uuid)
      (op : MountPoint)
      → mp.id ≡ some i
      → HashMap.get u old ≡ some op
      → op.id ≡ some i
      → Past seen (mp ∷ mps)
      → HashSet.contains u seen ≡ false
  unmet seen mp mps i u op e found f p = elim (Bool-cases (HashSet.contains u seen)) [
    | inl met ↦ absurd ((p u op i met found f).0 e)
    | inr new ↦ new
  ]

  past :
      (seen : HashSet Uuid) (mp : MountPoint) (mps : List MountPoint) (i : ℕ) (u : Uuid)
      (op : MountPoint)
      → Absent i mps
      → HashMap.get u old ≡ some op
      → op.id ≡ some i
      → Past seen (mp ∷ mps)
      → Past (HashSet.insert u seen) mps
  past seen mp mps i u op absent found f p v mq j met g k = elim (nat_key.dec u v) [
    | yes same ↦
        subst (λ j. Absent j mps)
          (same_id u op mq i j found f (subst (λ w. HashMap.get w old ≡ some mq) (sym same) g) k)
          absent
    | no other ↦ (p v mq j (ground (arith, contains-insert u v seen)) g k).1
  ]

  MeetOnce-from :
      (seen : HashSet Uuid) (mps : List MountPoint)
      → DistinctIds mps
      → Past seen mps
      → MeetOnce lookups seen mps
  MeetOnce-from seen [] d p = tt
  MeetOnce-from seen (mp ∷ mps) ((i, e, absent), d) p = elim (match_by_id mp i e) [
    | inl m ↦ rw m (tt, MeetOnce-from seen mps d (λ u mq j c g f. (p u mq j c g f).1))
    | inr (u, op, m, found, f) ↦ rw m (
      unmet seen mp mps i u op e found f p,
      MeetOnce-from (HashSet.insert u seen) mps d (past seen mp mps i u op absent found f p),
    )
  ]

  -- Where the old mount points have ids, mount points with distinct ids meet each old one once.
  pub DistinctIds-MeetOnce : (mps : List MountPoint) → DistinctIds mps → MeetOnce lookups [] mps
  unfolding HashSet.contains
  DistinctIds-MeetOnce mps d = MeetOnce-from [] mps d (λ u mp i c g k. cc)
