-- ===== src/FsClamp/Paths.antt =====
-- The path functions of rust-grates/fs-routing-clamp/src/helpers.rs.
use lind_wasm_example_grates.Base.{Bool, List, [], ◌∷◌, ◌++◌, if◌then◌else◌}
use lind_wasm_example_grates.Path.Text.{Text, slash, split, trim_end, starts_with, is_absolute}
use lind_wasm_example_grates.Path.Components.{walk, absolute}

abbrev pub or_slash : List Text → Text
or_slash [] = slash ∷ []
or_slash (w ∷ st) = absolute (w ∷ st)

unfoldable pub normalize_path : Text → Text
normalize_path path = or_slash (walk [] (split path))

-- `cwd` is what `get_cage_cwd` returns for the cage.
unfoldable pub resolve_path_for_cage : Text → Text → Text
unfolding normalize_path
resolve_path_for_cage cwd path =
    if is_absolute path then normalize_path path else normalize_path (trim_end cwd ++ slash ∷ path)

unfoldable pub path_matches_prefix : Text → Text → Bool
path_matches_prefix prefix path = starts_with path prefix
