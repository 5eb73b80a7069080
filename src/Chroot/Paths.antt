-- ===== src/Chroot/Paths.antt =====
-- The text functions of rust-grates/chroot-grate/src/paths.rs and main.rs, which keep no state.
use lind_wasm_example_grates.Base.{
  Bool, false, ◌||◌, Option, none, some, [], ◌∷◌, ◌++◌, eqb, if◌then◌else◌, ◌==◌, text_key,
}
use lind_wasm_example_grates.Path.Text.{
  Text, slash, split, trim_end, strip_prefix, is_absolute, is_empty,
}
use lind_wasm_example_grates.Path.Components.{walk, absolute}

-- abs_path: a relative path is put behind the working directory.
abbrev pub abs_path : Text → Text → Text
abs_path path cwd = if is_absolute path then path else trim_end cwd ++ slash ∷ path

unfoldable pub normalize_path : Text → Text → Text
normalize_path [] cwd = []
normalize_path (c ∷ path) cwd = absolute (walk [] (split (abs_path (c ∷ path) cwd)))

-- format!("{}{}", chroot_dir.trim_end_matches('/'), normalized), the last step of `chroot_path`
abbrev pub under_chroot : Text → Text → Text
under_chroot chroot_dir normalized = trim_end chroot_dir ++ normalized

abbrev root : Text
root = slash ∷ []

unfoldable pub stripped_cwd : Text → Option Text → Text
unfolding normalize_path
stripped_cwd host_cwd none = normalize_path host_cwd root
stripped_cwd host_cwd (some stripped) =
    if is_absolute stripped then normalize_path stripped root else normalize_path host_cwd root

unfoldable pub virtualize_host_cwd : Text → Text → Text
unfolding stripped_cwd
virtualize_host_cwd chroot_dir host_cwd =
    let dir = trim_end chroot_dir in
    if is_empty dir || dir == root
    then normalize_path host_cwd root
    else if host_cwd == dir
    then root
    else stripped_cwd host_cwd (strip_prefix host_cwd dir)

-- The slice behind the prefix, and `/` for an empty one.
after_prefix : Text → Option Text → Text
after_prefix path none = path
after_prefix path (some []) = root
after_prefix path (some (c ∷ stripped)) = c ∷ stripped

unfoldable pub strip_chroot_prefix : Text → Text → Text
unfolding after_prefix
strip_chroot_prefix chroot_dir path = after_prefix path (strip_prefix path chroot_dir)

abbrev pub has_nul : Text → Bool
has_nul [] = false
has_nul (c ∷ s) = eqb c 0 || has_nul s

-- CString::new(s), which refuses a text with a NUL in it.
abbrev pub c_string : Text → Option Text
c_string s = if has_nul s then none else some s
