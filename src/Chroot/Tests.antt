-- ===== src/Chroot/Tests.antt =====
-- Runs of the chroot grate's path functions, and the theorems at concrete paths.
use Prim.Native.Char.{code}
use Prim.Native.String.{String}
use lind_wasm_example_grates.Base.{◌≡◌, refl, ◌≢◌, ◌⊎◌, some, [], ◌∷◌, ◌++◌, All}
use lind_wasm_example_grates.Base.Dict.{get}
use lind_wasm_example_grates.Path.Text.{Text, split, join, trim_end}
use lind_wasm_example_grates.Path.Components.{walk, component_step, absolute}
use lind_wasm_example_grates.Path.Components.Laws.{Plain}
use lind_wasm_example_grates.Chroot.Paths.{normalize_path, virtualize_host_cwd}
use lind_wasm_example_grates.Chroot.Confinement.{
  resolve, Confined, Untracked, chroot_path_confined, virtualize-chroot_path, at_target-Confined,
}
use lind_wasm_example_grates.Chroot.State.{
  State, chroot_path, get_cage_cwd, rewrite_at_path, rewritten, at_fdcwd, fd_dir_path,
}

abbrev codes : String → Text
codes String.[] = []
codes (String.◌∷◌ c s) = code c ∷ codes s

-- Cage 7 works in `/home`, and descriptor 3 is its directory `/var`.
abbrev jail : State
jail = record {
  chroot_dir = codes "/jail/";
  initial_cwd = [];
  cage_cwds = (7, codes "/home") ∷ [];
  cage_dir_fds = (7, (3, codes "/var") ∷ []) ∷ [];
}

normalize_path_run : normalize_path (codes "../../etc/./x//y") (codes "/home/") ≡ codes "/etc/x/y"
unfolding normalize_path trim_end split walk component_step absolute join
normalize_path_run = refl

chroot_path_run : (chroot_path jail (codes "../../../etc/passwd") 7).1 ≡ codes "/jail/etc/passwd"
unfolding chroot_path get normalize_path trim_end split walk component_step absolute join
chroot_path_run = refl

at_path_run :
    (rewrite_at_path jail 7 3 (some (codes "../log"))).1 ≡ rewritten at_fdcwd (codes "/jail/log")
unfolding rewrite_at_path chroot_path fd_dir_path get normalize_path trim_end split walk
    component_step absolute join
at_path_run = refl

escape_ne_nil : codes "../../../etc/passwd" ≢ []
escape_ne_nil e = cc

chroot_path_confined_example :
    All Plain (resolve (normalize_path (codes "../../../etc/passwd") (get_cage_cwd jail 7).1))
    × (resolve (chroot_path jail (codes "../../../etc/passwd") 7).1
        ≡ resolve (normalize_path (codes "../../../etc/passwd") (get_cage_cwd jail 7).1)
          ++ resolve (codes "/jail/"))
chroot_path_confined_example =
    chroot_path_confined jail (codes "../../../etc/passwd") 7 escape_ne_nil

virtualize-chroot_path_example :
    virtualize_host_cwd (codes "/jail/") (chroot_path jail (codes "../../../etc/passwd") 7).1
    ≡ normalize_path (codes "../../../etc/passwd") (get_cage_cwd jail 7).1
virtualize-chroot_path_example =
    virtualize-chroot_path jail (codes "../../../etc/passwd") 7 escape_ne_nil

at_target-Confined_example :
    Confined jail 7 3 (codes "../../../etc/passwd")
    ⊎ Untracked jail 7 3 (codes "../../../etc/passwd")
at_target-Confined_example = at_target-Confined jail 7 3 (codes "../../../etc/passwd") escape_ne_nil
