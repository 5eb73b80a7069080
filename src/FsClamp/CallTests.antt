-- ===== src/FsClamp/CallTests.antt =====
-- Runs of the handlers of rust-grates/fs-routing-clamp in a small world, and the theorems about them
-- at these states.
use lind_wasm_example_grates.Path.Components.{walk, component_step, absolute}
use lind_wasm_example_grates.FsClamp.Paths.{path_matches_prefix, resolve_path_for_cage}
use lind_wasm_example_grates.Grate.Utf8.{to_utf8, from_utf8, before_nul}
use lind_wasm_example_grates.Base.Words.{pos}
use lind_wasm_example_grates.FsClamp.Lifecycle.{fs_calls}
use lind_wasm_example_grates.Path.Text.{Text, text, starts_with, split, join}
use lind_wasm_example_grates.FsClamp.AtCalls.{get_ns_handler}
use lind_wasm_example_grates.FsClamp.Nesting.{
  Balanced, body, nested, run_execs, nested_execs_keep_clamp, open_marker, close_marker, plain,
  done,
}
use lind_wasm_example_grates.FsClamp.State.{set_route, init}
use lind_wasm_example_grates.FsClamp.Escapes.{opens_below}
use lind_wasm_example_grates.Grate.Steps.{Args, ◌>>=◌, gets, return, copy_from_cage}
use lind_wasm_example_grates.FsClamp.Routing.{NsState, NsSys}
use lind_wasm_example_grates.FsClamp.FdCalls.{entry_for}
use lind_wasm_example_grates.Base.Dict.{get, is_some}
use lind_wasm_example_grates.Grate.Outside.{Entry}
use lind_wasm_example_grates.Grate.Sample.{sample, SampleWorld, quiet}
use lind_wasm_example_grates.Base.{
  text_key, nat_key, refl, ℕ, Bool, ◌≡◌, arith, List, false, true, ◌∷◌, [], ◌≤◌, ◌&&◌, ◌++◌,
}

-- Cage 4 has descriptor 3 open below the prefix, on underfd 7.
abbrev inside : Entry
inside = entry_for 7 false 1

abbrev clamp_state : NsState
clamp_state = record { clamp = (set_route (init 1 (text "/tmp")) 4 0 3000).0; mmaps = [] }

abbrev small_world : SampleWorld
small_world = quiet ((32, pos 8) ∷ (2, pos 9) ∷ []) ((64, to_utf8 (text "/tmp/x") ++ 0 ∷ []) ∷ [])

abbrev at_work : NsSys sample
at_work = record { own = clamp_state; tables = ((4, 3), inside) ∷ []; world = small_world }

abbrev args : ℕ → ℕ → Args
args first second = record {
  arg1 = first;
  arg1cage = 4;
  arg2 = second;
  arg2cage = 4;
  arg3 = 0;
  arg3cage = 4;
  arg4 = 0;
  arg4cage = 4;
  arg5 = 0;
  arg5cage = 4;
  arg6 = 0;
  arg6cage = 4;
}

-- The open is of a path below the prefix, and gives the first free descriptor.
open_run : opens_below sample (args 64 0) at_work ≡ true
unfolding opens_below set_route ◌>>=◌ gets return copy_from_cage get from_utf8 before_nul to_utf8
    path_matches_prefix starts_with resolve_path_for_cage walk split component_step absolute join
open_run = refl

depth_run : 1 ≤ at_work.own.clamp.clamp_depth
unfolding set_route
depth_run = omega arith

abbrev nested_clamp : List (Args × Text)
nested_clamp = (args 0 0, open_marker) ∷ (args 0 0, text "inner") ∷ (args 0 0, close_marker) ∷ []

nested_clamp-Balanced : Balanced nested_clamp
nested_clamp-Balanced =
    nested (args 0 0) (args 0 0) ((args 0 0, text "inner") ∷ []) []
      (plain (args 0 0) (text "inner") [] refl refl done) done

nested_execs_keep_clamp_example :
    body (run_execs sample nested_clamp at_work).own.clamp ≡ body at_work.own.clamp
nested_execs_keep_clamp_example =
    nested_execs_keep_clamp sample nested_clamp at_work nested_clamp-Balanced depth_run

abbrev all_handled : List ℕ → Bool
all_handled [] = true
all_handled (nr ∷ nrs) = is_some (get_ns_handler sample nr) && all_handled nrs

-- A number of FS_CALLS has a handler, so that none of the registrations panics.
fs_calls_run : all_handled fs_calls ≡ true
unfolding get_ns_handler get
fs_calls_run = refl
