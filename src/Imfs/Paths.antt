-- ===== src/Imfs/Paths.antt =====
-- The path functions of rust-grates/imfs-grate/src/imfs/mod.rs, which keep no state: the two
-- normalisers, and the components that the tree walk follows.
use lind_wasm_example_grates.Base.{List, [], ◌∷◌, ◌++◌, if◌then◌else◌}
use lind_wasm_example_grates.Path.Text.{Text, slash, split, is_absolute, is_empty}
use lind_wasm_example_grates.Path.Components.{walk, absolute}

abbrev pub or_slash : List Text → Text
or_slash [] = slash ∷ []
or_slash (w ∷ st) = absolute (w ∷ st)

-- `base` is `/` for an absolute path.
unfoldable pub normalize_path_from_base : Text → Text → Text
normalize_path_from_base base path =
    let from = if is_absolute path then slash ∷ [] else base in
    or_slash (walk [] (split from ++ split path))

-- path.split('/').filter(|s| !s.is_empty())
unfoldable pub nonempty : List Text → List Text
nonempty [] = []
nonempty (w ∷ ws) = let rest = nonempty ws in if is_empty w then rest else w ∷ rest

abbrev pub components : Text → List Text
components path = nonempty (split path)
