-- ===== src/Chroot/Confinement.antt =====
-- What the chroot grate hands to the host stays below the chroot directory, and what the host says
-- of the working directory is turned back into the cage's view of it.
use lind_wasm_example_grates.Base.{
  ℕ, ◌≡◌, refl, ap, sym, ◌∙◌, ◌≢◌, ◌⊎◌, false, ◌||◌, none, some, List, [], ◌∷◌, ◌++◌, arith, eqb,
  text_key, All, inl, inr, Bool-cases, Option-cases, subst, list_eqb, list_eqb_iff,
}
use lind_wasm_example_grates.Path.Text.{
  Text, slash, split, trim_end, strip_prefix, strip_prefix-append, is_absolute,
}
use lind_wasm_example_grates.Path.Components.{walk, absolute}
use lind_wasm_example_grates.Path.Components.Laws.{
  Plain, walk-Plain, split-NoSlash, walk-absolute, walk-split-absolute, walk-trim_end,
}
use lind_wasm_example_grates.Chroot.Paths.{
  stripped_cwd, abs_path, normalize_path, under_chroot, virtualize_host_cwd,
}
use lind_wasm_example_grates.Chroot.State.{
  State, chroot_path, get_cage_cwd, ensure_cage_cwd, fd_dir_path, at_target, at_fdcwd,
}

-- The components that a path names, innermost first, when `.` and `..` are resolved on the text.
abbrev pub resolve : Text → List Text
resolve path = walk [] (split path)

pub resolve-Plain : (path : Text) → All Plain (resolve path)
resolve-Plain path = walk-Plain [] (split path) tt (split-NoSlash path)

-- The normalised path resolves to plain components, and to those of the path behind the cage's
-- working directory.
pub resolve-normalize_path :
    (path cwd : Text) → path ≢ [] → resolve (normalize_path path cwd) ≡ resolve (abs_path path cwd)
unfolding normalize_path
resolve-normalize_path [] cwd h = absurd (h refl)
resolve-normalize_path (c ∷ path) cwd h =
    walk-split-absolute _ (resolve-Plain (abs_path (c ∷ path) cwd))

resolve-under_chroot :
    (dir path cwd : Text)
    → path ≢ []
    → resolve (under_chroot dir (normalize_path path cwd))
      ≡ resolve (normalize_path path cwd) ++ resolve dir
resolve-under_chroot dir [] cwd h = absurd (h refl)
resolve-under_chroot dir (c ∷ path) cwd h =
    let plain = resolve-Plain (abs_path (c ∷ path) cwd) in
    unfold normalize_path in
    (walk-absolute (trim_end dir) _ [] plain
      ∙ ap (λ l. resolve (abs_path (c ∷ path) cwd) ++ l) (walk-trim_end [] dir)
      ∙ ap (λ l. l ++ resolve dir) (sym (walk-split-absolute _ plain)))

pub chroot_dir-get_cage_cwd :
    (s : State) (cageid : ℕ) → (get_cage_cwd s cageid).0.chroot_dir ≡ s.chroot_dir
unfolding get_cage_cwd
chroot_dir-get_cage_cwd s cageid = ground arith

chroot_path_host :
    (s : State) (path : Text) (cageid : ℕ)
    → path ≢ []
    → (chroot_path s path cageid).1
      ≡ under_chroot s.chroot_dir (normalize_path path (get_cage_cwd s cageid).1)
unfolding chroot_path
chroot_path_host s [] cageid h = absurd (h refl)
chroot_path_host s (c ∷ path) cageid h =
    ap (λ d. under_chroot d (normalize_path (c ∷ path) (get_cage_cwd s cageid).1))
      (chroot_dir-get_cage_cwd s cageid)

-- For every path that is not empty, the host path of chroot_path resolves, on the text, to the
-- components of the chroot directory with those of the normalised path below them, and none of the
-- latter is empty, `.` or `..`.
pub chroot_path_confined :
    (s : State) (path : Text) (cageid : ℕ)
    → path ≢ []
    → let view = normalize_path path (get_cage_cwd s cageid).1 in
      All Plain (resolve view)
      × (resolve (chroot_path s path cageid).1 ≡ resolve view ++ resolve s.chroot_dir)
chroot_path_confined s path cageid h = (
  resolve-Plain _,
  ap resolve (chroot_path_host s path cageid h) ∙ resolve-under_chroot s.chroot_dir path _ h,
)

normalize_path-absolute :
    (st : List Text) (cwd : Text) → All Plain st → normalize_path (absolute st) cwd ≡ absolute st
normalize_path-absolute st cwd h =
    unfold absolute normalize_path in ap absolute (walk-split-absolute st h)

trim_end_ne_root : (s : Text) → trim_end s ≢ slash ∷ []
unfolding trim_end
trim_end_ne_root [] e = cc
trim_end_ne_root (x ∷ xs) e = ground arith

append_ne : (xs ys : Text) (y : ℕ) → xs ++ y ∷ ys ≢ xs
append_ne [] ys y e = cc
append_ne (x ∷ xs) ys y e = append_ne xs ys y (ground arith)

list_eqb_ne : (xs ys : Text) → xs ≢ ys → list_eqb xs ys ≡ false
list_eqb_ne xs ys h = ground (arith, list_eqb_iff xs ys)

strip-absolute :
    (host_cwd t : Text) (st : List Text)
    → All Plain st
    → strip_prefix host_cwd t ≡ some (absolute st)
    → stripped_cwd host_cwd (strip_prefix host_cwd t) ≡ absolute st
strip-absolute host_cwd t st h e =
    ap (stripped_cwd host_cwd) e
    ∙ unfold stripped_cwd absolute in normalize_path-absolute st (slash ∷ []) h

virtualize_at :
    (dir t : Text) (st : List Text)
    → All Plain st
    → trim_end dir ≡ t
    → virtualize_host_cwd dir (t ++ absolute st) ≡ absolute st
virtualize_at dir [] st h e =
    unfold virtualize_host_cwd in rw e (normalize_path-absolute st (slash ∷ []) h)
virtualize_at dir (x ∷ xs) st h e =
    let host = (x ∷ xs) ++ absolute st in
    let at_root = list_eqb_ne (x ∷ xs) (slash ∷ []) (rw (← e) (trim_end_ne_root dir)) in
    let same = list_eqb_ne host (x ∷ xs) (unfold absolute in append_ne (x ∷ xs) _ slash) in
    unfold virtualize_host_cwd in
    rw e (
      rw (at_root, same)
        (strip-absolute host (x ∷ xs) st h (strip_prefix-append (x ∷ xs) (absolute st))))

virtualize-absolute :
    (dir : Text) (st : List Text)
    → All Plain st
    → virtualize_host_cwd dir (trim_end dir ++ absolute st) ≡ absolute st
virtualize-absolute dir st h = virtualize_at dir (trim_end dir) st h refl

-- For a path that is not empty, virtualize_host_cwd turns the host path that chroot_path made of
-- it back into the normalised path.
pub virtualize-chroot_path :
    (s : State) (path : Text) (cageid : ℕ)
    → path ≢ []
    → virtualize_host_cwd s.chroot_dir (chroot_path s path cageid).1
      ≡ normalize_path path (get_cage_cwd s cageid).1
virtualize-chroot_path s [] cageid h = absurd (h refl)
virtualize-chroot_path s (c ∷ path) cageid h =
    ap (virtualize_host_cwd s.chroot_dir) (chroot_path_host s (c ∷ path) cageid h)
    ∙ unfold normalize_path in virtualize-absolute s.chroot_dir _ (resolve-Plain _)

-- A host path that resolves to entries below a directory.
pub record Below (dir host : Text) : Type 0 where
  pub inside : List Text
  pub plain : All Plain inside
  pub resolves : resolve host ≡ inside ++ resolve dir

pub chroot_path-Below :
    (s : State) (path : Text) (cageid : ℕ)
    → path ≢ []
    → Below s.chroot_dir (chroot_path s path cageid).1
chroot_path-Below s path cageid h =
    let (plain, e) = chroot_path_confined s path cageid h in
    record { inside = _; plain = plain; resolves = e }

normalize_path_ne_nil : (path cwd : Text) → path ≢ [] → normalize_path path cwd ≢ []
unfolding normalize_path absolute
normalize_path_ne_nil [] cwd h = absurd (h refl)
normalize_path_ne_nil (c ∷ path) cwd h = λ e. cc

abbrev pub Confined : State → ℕ → ℕ → Text → Type 0
Confined s cageid dirfd path =
    ((at_target s cageid dirfd path).1 ≡ at_fdcwd)
    × Below s.chroot_dir (at_target s cageid dirfd path).2

abbrev pub Untracked : State → ℕ → ℕ → Text → Type 0
Untracked s cageid dirfd path =
    (is_absolute path ≡ false)
    × (dirfd ≢ at_fdcwd)
    × ((fd_dir_path s cageid dirfd).1 ≡ none)
    × ((at_target s cageid dirfd path).1 ≡ dirfd)
    × ((at_target s cageid dirfd path).2 ≡ path)

chroot_dir-fd_dir_path :
    (s : State) (cageid fd : ℕ) → (fd_dir_path s cageid fd).0.chroot_dir ≡ s.chroot_dir
unfolding fd_dir_path ensure_cage_cwd
chroot_dir-fd_dir_path s cageid fd = ground arith

relative-Confined :
    (s : State) (cageid dirfd : ℕ) (path : Text)
    → path ≢ []
    → (is_absolute path || eqb dirfd at_fdcwd) ≡ false
    → Confined s cageid dirfd path ⊎ Untracked s cageid dirfd path
relative-Confined s cageid dirfd [] h e = absurd (h refl)
relative-Confined s cageid dirfd (c ∷ path) h e =
    elim (Option-cases (fd_dir_path s cageid dirfd).1) [
      | inl d ↦ inr (unfold at_target in rw (e, d) (ground arith, ground arith, refl, refl, refl))
      | inr (dir, d) ↦
          let s' = (fd_dir_path s cageid dirfd).0 in
          let inside = normalize_path (c ∷ path) dir in
          inl (
            unfold at_target in
            rw (e, d)
              (
                refl,
                subst (λ (t : Text). Below t (chroot_path s' inside cageid).1)
                    (chroot_dir-fd_dir_path s cageid dirfd)
                    (chroot_path-Below s' inside cageid (normalize_path_ne_nil (c ∷ path) dir h)),
              ))
    ]

-- For a path that is not empty, the descriptor and path of an `*at` call become AT_FDCWD and a
-- path that resolves below the chroot directory, or stay as they were, and then the path is
-- relative, the descriptor is not AT_FDCWD and no directory is recorded for it.
pub at_target-Confined :
    (s : State) (cageid dirfd : ℕ) (path : Text)
    → path ≢ []
    → Confined s cageid dirfd path ⊎ Untracked s cageid dirfd path
at_target-Confined s cageid dirfd [] h = absurd (h refl)
at_target-Confined s cageid dirfd (c ∷ path) h =
    elim (Bool-cases (is_absolute (c ∷ path) || eqb dirfd at_fdcwd)) [
      | inl e ↦ inl (unfold at_target in rw e (refl, chroot_path-Below s (c ∷ path) cageid h))
      | inr e ↦ relative-Confined s cageid dirfd (c ∷ path) h e
    ]
