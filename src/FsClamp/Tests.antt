-- ===== src/FsClamp/Tests.antt =====
-- Runs of the routing clamp's helpers, and the theorems about them at concrete states.
use lind_wasm_example_grates.Path.Components.Laws.{Plain, walk-Plain, split-NoSlash}
use Prim.Native.Char.{code}
use Prim.Native.String.{String}
use lind_wasm_example_grates.Base.{
  Bool-cases, inl, inr, arith, ℕ, ◌+◌, ◌<◌, ◌≡◌, refl, ◌↔◌, ◌≢◌, true, not, ◌&&◌, ◌||◌, some, [],
  ◌∷◌, eqb, ltb, List, false, ◌++◌, All,
}
use lind_wasm_example_grates.Base.Dict.{get, insert}
use lind_wasm_example_grates.Base.Words.{u64_mod, checked_add}
use lind_wasm_example_grates.Path.Text.{Text, starts_with, split}
use lind_wasm_example_grates.Path.Components.{absolute, walk, component_step}
use lind_wasm_example_grates.Path.Agreement.{normalizers_agree}
use lind_wasm_example_grates.Path.Prefix.{path_matches_prefix_iff}
use lind_wasm_example_grates.Chroot.Paths.{normalize_path as chroot_normalize}
use lind_wasm_example_grates.FsClamp.Paths.{resolve_path_for_cage, path_matches_prefix}
use lind_wasm_example_grates.Imfs.Paths.{normalize_path_from_base}
use lind_wasm_example_grates.FsClamp.State.{
  ClampState, Request, init, set_route, get_route, clone_cage_routes, register_clamped_cage,
  insert_routes, parent_routes,
}
use lind_wasm_example_grates.FsClamp.Inheritance.{or_else, get_route-clone_cage_routes}
use lind_wasm_example_grates.FsClamp.Mmap.{
  Mmaps, record_clamped_mmap, remove_clamped_mmap, is_clamped_mmap, cut_all, cut,
}
use lind_wasm_example_grates.FsClamp.Coverage.{
  within, is_held, IsProper, held-remove_clamped_mmap, held-record_clamped_mmap,
  is_clamped_mmap_iff,
}

abbrev codes : String → Text
codes String.[] = []
codes (String.◌∷◌ c s) = code c ∷ codes s

-- Cage 2 is clamped and its `open` (2) goes to 3000.
abbrev routed : ClampState
routed = (set_route (register_clamped_cage (init 1 (codes "/tmp")) 2) 2 2 3000).0

fork_run : get_route (clone_cage_routes routed 2 5) 5 2 ≡ some 3000
unfolding get_route clone_cage_routes set_route register_clamped_cage get insert insert_routes
    parent_routes
fork_run = refl

get_route-clone_cage_routes_example :
    get_route (clone_cage_routes routed 2 5) 5 2
    ≡ or_else (get_route routed 2 2) (get_route routed 5 2)
get_route-clone_cage_routes_example = get_route-clone_cage_routes routed 2 5 5 2

abbrev open_request : Request
open_request = record { target_cage = 2; syscall_nr = 2; grate_id = 9; handler_fn = 77 }

abbrev mapped : Mmaps
mapped = (4, record { start = 0x1000; end = 0x5000 } ∷ []) ∷ []

-- A hole in the middle splits the range.
unmap_run :
    remove_clamped_mmap mapped 4 0x2000 0x1000
    ≡ (4, record { start = 0x1000; end = 0x2000 } ∷ record { start = 0x3000; end = 0x5000 } ∷ [])
      ∷ []
unfolding remove_clamped_mmap checked_add get insert cut_all cut
unmap_run = refl

held-remove_clamped_mmap_example : is_held (remove_clamped_mmap mapped 4 0x2000 0x1000) 4 0x2fff ≡ (
    is_held mapped 4 0x2fff
    && not (ltb (0x2000 + 0x1000) u64_mod && eqb 4 4 && within 0x2000 (0x2000 + 0x1000) 0x2fff))
held-remove_clamped_mmap_example = held-remove_clamped_mmap mapped 4 0x2000 0x1000 4 0x2fff

held-record_clamped_mmap_example : is_held (record_clamped_mmap mapped 4 0x8000 0x1000) 4 0x8abc ≡ (
    is_held mapped 4 0x8abc
    || (ltb (0x8000 + 0x1000) u64_mod && eqb 4 4 && within 0x8000 (0x8000 + 0x1000) 0x8abc))
held-record_clamped_mmap_example = held-record_clamped_mmap mapped 4 0x8000 0x1000 4 0x8abc

mapped-IsProper : IsProper mapped
unfolding get
mapped-IsProper c = elim (Bool-cases (eqb 4 c)) [ inl e ↦ rw e (omega arith, tt) | inr e ↦ rw e tt ]

is_clamped_mmap_iff_example : (is_clamped_mmap mapped 4 0x4000 0x2000 ≡ true) ↔ (
    (x : ℕ) × (within 0x4000 (0x4000 + 0x2000) x ≡ true)
    × (is_held mapped 4 x ≡ true)
    × (0x4000 + 0x2000 < u64_mod))
is_clamped_mmap_iff_example = is_clamped_mmap_iff mapped 4 0x4000 0x2000 mapped-IsProper

relative_ne_nil : codes "../a/./b" ≢ []
relative_ne_nil e = cc

normalizers_agree_example :
    (resolve_path_for_cage (codes "/x/y/") (codes "../a/./b")
      ≡ chroot_normalize (codes "../a/./b") (codes "/x/y/"))
    × (normalize_path_from_base (codes "/x/y/") (codes "../a/./b")
        ≡ chroot_normalize (codes "../a/./b") (codes "/x/y/"))
normalizers_agree_example = normalizers_agree (codes "../a/./b") (codes "/x/y/") relative_ne_nil

tmp-Plain : All Plain (codes "tmp" ∷ [])
unfolding walk split component_step
tmp-Plain = walk-Plain [] (split (codes "/tmp")) tt (split-NoSlash (codes "/tmp"))

sibling-Plain : All Plain (codes "x" ∷ codes "tmp-old" ∷ [])
unfolding walk split component_step
sibling-Plain = walk-Plain [] (split (codes "/tmp-old/x")) tt (split-NoSlash (codes "/tmp-old/x"))

path_matches_prefix_iff_example :
    (path_matches_prefix (absolute (codes "tmp" ∷ [])) (absolute (codes "x" ∷ codes "tmp-old" ∷ []))
      ≡ true)
    ↔ ((inside : List Text) × (v : Text) × (◌≡◌ {A = List Text}
          (codes "x" ∷ codes "tmp-old" ∷ [])
          (inside ++ (codes "tmp" ++ v) ∷ [])))
path_matches_prefix_iff_example =
    path_matches_prefix_iff (codes "tmp") [] (codes "x" ∷ codes "tmp-old" ∷ []) tmp-Plain
      sibling-Plain

-- A prefix that is not normal: it ends in a slash, and its own directory does not match.
slash_prefix_run : path_matches_prefix (codes "/tmp/") (codes "/tmp") ≡ false
unfolding path_matches_prefix starts_with
slash_prefix_run = refl
