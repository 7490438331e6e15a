-- ===== src/Build/Object.antt =====
-- Where build.rs puts the eBPF object, and where get_object_path of src/syscall_monitor.rs looks for it.
use net_device_mapping.Build.{need_sep, is_rooted, join, bin_dir, ebpf_out_obj}
use net_device_mapping.Path
use net_device_mapping.Path.{Str, PathBuf, Component, root_dir, normal, codes}
use net_device_mapping.Path.Parse.{from_text, IsName, to_text, normals, from_text-to_text}
use net_device_mapping.Prelude.{
  ℕ, ◌≡◌, refl, ap, sym, ◌∙◌, true, false, List, [], ◌∷◌, ◌++◌, none, some, ok, returns, arith, All,
  ◌==◌, any, Bool-cases, inl, inr,
}
use net_device_mapping.SyscallMonitor.Load.{Environment, parent, beside_exe, get_object_path}
use mathlib.Core.List.{append_assoc, append-nil}

need_sep-skip : (s : Str) (c : ℕ) (t : Str) → need_sep (s ++ c ∷ t) ≡ need_sep (c ∷ t)
need_sep-skip [] c t = refl
need_sep-skip (b ∷ []) c t = refl
need_sep-skip (b ∷ d ∷ s) c t = need_sep-skip (d ∷ s) c t

need_sep-piece :
    (c : ℕ) (x : Str)
    → (c == b'/') ≡ false
    → All (λ c. (c == b'/') ≡ false) x
    → need_sep (c ∷ x) ≡ true
need_sep-piece c [] h hs = ground arith
need_sep-piece c (d ∷ x) h (hd, hs) = need_sep-piece d x hd hs

need_sep-IsName : (x : Str) → IsName x → need_sep (b'/' ∷ x) ≡ true
need_sep-IsName [] (a, b, c, h) = absurd (a refl)
need_sep-IsName (c ∷ x) (a, b, d, (h, hs)) = need_sep-piece c x h hs

need_sep-to_text :
    (x : Str) (xs : List Str) → All IsName (x ∷ xs) → need_sep (to_text (x ∷ xs)) ≡ true
need_sep-to_text x [] (h, hs) = rw append-nil (need_sep-IsName x h)
need_sep-to_text x (y ∷ xs) (h, hs) =
    need_sep-skip (b'/' ∷ x) b'/' (y ++ to_text xs) ∙ need_sep-to_text y xs hs

to_text-append : (xs : List Str) (x : Str) → to_text (xs ++ x ∷ []) ≡ to_text xs ++ b'/' ∷ x
to_text-append [] x = append-nil (b'/' ∷ x)
to_text-append (y ∷ xs) x =
    ap (λ s. b'/' ∷ y ++ s) (to_text-append xs x)
    ∙ sym (append_assoc (b'/' ∷ y) (to_text xs) (b'/' ∷ x))

is_rooted-IsName : (x : Str) → IsName x → is_rooted x ≡ false
is_rooted-IsName [] h = refl
is_rooted-IsName (c ∷ x) (a, b, d, (h, hs)) = h

-- A name is joined to an absolute path of names.
join-to_text :
    (x : Str) (xs : List Str) (name : Str)
    → All IsName (x ∷ xs)
    → IsName name
    → join (to_text (x ∷ xs)) name ≡ to_text (x ∷ xs ++ name ∷ [])
unfolding join
join-to_text x xs name h n =
    rw (is_rooted-IsName name n, need_sep-to_text x xs h) (sym (to_text-append (x ∷ xs) name))

All-append {ℓ κ} :
    {A : Type ℓ} (P : A → Type κ) (xs ys : List A) → All P xs → All P ys → All P (xs ++ ys)
All-append P [] ys h k = k
All-append P (x ∷ xs) ys (p, h) k = (p, All-append P xs ys h k)

-- A name is joined to what ends in names that follow an absolute path of names.
join-append :
    (x : Str) (xs ys : List Str) (name : Str)
    → All IsName (x ∷ xs)
    → All IsName ys
    → IsName name
    → join (to_text (x ∷ xs ++ ys)) name ≡ to_text (x ∷ xs ++ (ys ++ name ∷ []))
join-append x xs ys name (h, hs) hy n =
    join-to_text x (xs ++ ys) name (h, All-append IsName xs ys hs hy) n
    ∙ ap (λ l. to_text (x ∷ l)) (append_assoc xs ys (name ∷ []))

slashless : (x : Str) → any (λ c. c == b'/') x ≡ false → All (λ c. (c == b'/') ≡ false) x
slashless [] e = tt
slashless (c ∷ x) e = elim (Bool-cases (c == b'/')) [
  | inl slash ↦ absurd (ground arith)
  | inr other ↦ (other, slashless x (ground arith))
]

ebpf-IsName : IsName (codes "ebpf")
ebpf-IsName = ((λ e. cc), (λ e. cc), (λ e. cc), slashless (codes "ebpf") refl)

object-IsName : IsName (codes "fork_monitor.bpf.o")
object-IsName = ((λ e. cc), (λ e. cc), (λ e. cc), slashless (codes "fork_monitor.bpf.o") refl)

-- The path of the object, where cargo's target directory is an absolute path of names.
ebpf_out_obj-to_text :
    (x : Str) (xs : List Str) (profile : Str)
    → All IsName (x ∷ xs)
    → IsName profile
    → ebpf_out_obj (bin_dir (to_text (x ∷ xs)) profile)
      ≡ to_text (x ∷ xs ++ profile ∷ codes "ebpf" ∷ codes "fork_monitor.bpf.o" ∷ [])
unfolding ebpf_out_obj bin_dir
ebpf_out_obj-to_text x xs profile h n =
    ap (λ bin. join (join bin (codes "ebpf")) (codes "fork_monitor.bpf.o"))
      (join-to_text x xs profile h n)
    ∙ ap (λ dir. join dir (codes "fork_monitor.bpf.o"))
        (join-append x xs (profile ∷ []) (codes "ebpf") h (n, tt) ebpf-IsName)
    ∙ join-append x xs (profile ∷ codes "ebpf" ∷ []) (codes "fork_monitor.bpf.o") h
        (n, (ebpf-IsName, tt)) object-IsName

normals-append : (xs ys : List Str) → normals (xs ++ ys) ≡ normals xs ++ normals ys
normals-append [] ys = refl
normals-append (x ∷ xs) ys = ap (λ p. normal x ∷ p) (normals-append xs ys)

parent-append :
    (c : Component) (p : PathBuf) (x : Str) → parent (c ∷ p ++ normal x ∷ []) ≡ some (c ∷ p)
unfolding parent
parent-append c [] x = refl
parent-append c (d ∷ p) x = rw (parent-append d p x) refl

-- The monitor of system calls finds the object that the build script compiled: where cargo's target
-- directory is an absolute path of names, the profile a name, EBPF_OBJECT_DIR is not set and the program
-- lies in the profile's directory, get_object_path returns the very path that the compiler wrote to.
pub get_object_path-ebpf_out_obj :
    (env : Environment) (x : Str) (xs : List Str) (profile program : Str)
    → All IsName (x ∷ xs)
    → IsName profile
    → env.ebpf_object_dir ≡ none
    → env.current_exe ≡ ok (root_dir ∷ normals (x ∷ xs ++ profile ∷ program ∷ []))
    → get_object_path env
      ≡ returns (ok (from_text (ebpf_out_obj (bin_dir (to_text (x ∷ xs)) profile))))
unfolding get_object_path beside_exe Path.join
get_object_path-ebpf_out_obj env x xs profile program h n unset exe =
    rw (unset, exe, ap (λ p. parent (root_dir ∷ p)) split, parent-append root_dir bin program)
      (ap (λ p. returns (ok p))
        (joined
          ∙ sym (from_text-to_text x (xs ++ names) h.0 all)
          ∙ sym (ap from_text (ebpf_out_obj-to_text x xs profile h n))))
  where
    bin : PathBuf
    bin = normals (x ∷ xs) ++ normal profile ∷ []

    split : normals (x ∷ xs ++ profile ∷ program ∷ []) ≡ bin ++ normal program ∷ []
    split =
        normals-append (x ∷ xs) (profile ∷ program ∷ [])
        ∙ sym (append_assoc (normals (x ∷ xs)) (normal profile ∷ []) (normal program ∷ []))

    names : List Str
    names = profile ∷ codes "ebpf" ∷ codes "fork_monitor.bpf.o" ∷ []

    all : All IsName (xs ++ names)
    all = All-append IsName xs names h.1 (n, (ebpf-IsName, (object-IsName, tt)))

    joined :
        Path.join (Path.join (root_dir ∷ bin) (codes "ebpf")) (codes "fork_monitor.bpf.o")
        ≡ root_dir ∷ normals (x ∷ xs ++ names)
    joined = simp (append_assoc, normals-append)
