-- ===== src/Path/Agreement.antt =====
-- The normalisers of chroot-grate, fs-routing-clamp and imfs-grate agree.
use lind_wasm_example_grates.Base.{
  ◌≡◌, refl, ap, sym, ◌∙◌, ◌≢◌, List, [], ◌∷◌, ◌++◌, inl, inr, Bool-cases,
}
use lind_wasm_example_grates.Path.Text.{
  Text, slash, split, join, trim_end, is_absolute, split-append,
}
use lind_wasm_example_grates.Path.Components.{walk, component_step, absolute}
use lind_wasm_example_grates.Path.Components.Laws.{
  walk-Plain, walk-append, split-NoSlash, walk-split-absolute, walk-trim_end,
}
use lind_wasm_example_grates.Chroot.Paths.{normalize_path as chroot_normalize}
use lind_wasm_example_grates.FsClamp.Paths.{
  or_slash, normalize_path as clamp_normalize, resolve_path_for_cage,
}
use lind_wasm_example_grates.Imfs.Paths.{normalize_path_from_base}

or_slash-absolute : (st : List Text) → or_slash st ≡ absolute st
unfolding absolute join
or_slash-absolute [] = refl
or_slash-absolute (w ∷ st) = refl

clamp_normalize_lem : (path : Text) → clamp_normalize path ≡ absolute (walk [] (split path))
unfolding clamp_normalize
clamp_normalize_lem path = or_slash-absolute (walk [] (split path))

-- For a path that is not empty and any working directory, the path normalisers of the chroot
-- grate, the routing clamp and the in-memory file system give the same text.
pub normalizers_agree :
    (path cwd : Text)
    → path ≢ []
    → (resolve_path_for_cage cwd path ≡ chroot_normalize path cwd)
      × (normalize_path_from_base cwd path ≡ chroot_normalize path cwd)
normalizers_agree [] cwd h = absurd (h refl)
normalizers_agree (c ∷ path) cwd h = elim (Bool-cases (is_absolute (c ∷ path))) [
  | inl e ↦ (
    unfold resolve_path_for_cage chroot_normalize in rw e (or_slash-absolute _),
    unfold normalize_path_from_base chroot_normalize in
        rw e (unfold walk split component_step in or_slash-absolute _),
  )
  | inr e ↦ (
    unfold resolve_path_for_cage chroot_normalize in rw e (or_slash-absolute _),
    unfold normalize_path_from_base chroot_normalize in
        rw e (or_slash-absolute _ ∙ ap absolute (behind cwd (c ∷ path))),
  )
]
  where
    behind :
        (cwd path : Text)
        → walk [] (split cwd ++ split path) ≡ walk [] (split (trim_end cwd ++ slash ∷ path))
    behind cwd path =
        walk-append [] (split cwd) (split path)
        ∙ ap (λ st. walk st (split path)) (sym (walk-trim_end [] cwd))
        ∙ sym (
            ap (walk []) (split-append (trim_end cwd) path)
            ∙ walk-append [] (split (trim_end cwd)) (split path))

-- normalize_path of the routing clamp changes nothing in a text that it has normalised.
pub clamp_normalize_idem :
    (path : Text) → clamp_normalize (clamp_normalize path) ≡ clamp_normalize path
clamp_normalize_idem path =
    let st = walk [] (split path) in
    ap clamp_normalize (clamp_normalize_lem path)
    ∙ clamp_normalize_lem (absolute st)
    ∙ ap absolute (walk-split-absolute st (walk-Plain [] (split path) tt (split-NoSlash path)))
    ∙ sym (clamp_normalize_lem path)
