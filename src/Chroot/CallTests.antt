-- ===== src/Chroot/CallTests.antt =====
-- Runs of the chroot grate's handlers in a small world, and the theorems about them at these states.
use lind_wasm_example_grates.Grate.Lossy.{from_utf8_lossy}
use lind_wasm_example_grates.Path.Components.{absolute, walk, component_step}
use lind_wasm_example_grates.Chroot.Paths.{normalize_path}
use lind_wasm_example_grates.Grate.Syscalls.{sys_rename}
use lind_wasm_example_grates.Chroot.PathCalls.{input_path_handler}
use lind_wasm_example_grates.Chroot.Walls.{
  Buffers, Guarded, Pointer, input_path_handler-Confined, among,
}
use lind_wasm_example_grates.Chroot.Entering.{DirsStay, path_read, fchdir_handler-open_handler}
use lind_wasm_example_grates.Base.Dict.{get}
use lind_wasm_example_grates.Grate.Utf8.{to_utf8, before_nul}
use lind_wasm_example_grates.Base.Words.{pos, is_neg}
use lind_wasm_example_grates.Path.Text.{text, strip_prefix, trim_end, join, split}
use lind_wasm_example_grates.Chroot.FdCalls.{open_handler, chdir_handler, fchdir_handler}
use lind_wasm_example_grates.Chroot.Directories.{
  Copies, duplicate_fd, by_dup, duplicate, duplicates_keep_directory,
}
use lind_wasm_example_grates.Chroot.Calls.{JailSys, dev_fd_target, at_index}
use lind_wasm_example_grates.Chroot.State.{State, get_cage_cwd, chroot_path}
use lind_wasm_example_grates.Grate.Steps.{
  ◌>>=◌, Args, gets, return, as_u64, copy_from_cage, make_threei_call,
}
use lind_wasm_example_grates.Base.{
  nat_key, refl, [], ◌∷◌, inl, inr, some, Option, ℕ, List, ◌≡◌, ◌+◌, length, ◌++◌, if◌then◌else◌,
  list_eqb, none, ap, sym, subst, ◌⊎◌,
}
use lind_wasm_example_grates.Grate.Sample.{sample, quiet, cut_to, SampleWorld, Asked}
use lind_wasm_example_grates.Chroot.Host.{Host}

-- The host has one directory; buffers of the grate begin at 4096.
abbrev host : Host sample
host = record {
  own_bytes = λ w bs.
      (record w { memory = (4096 + length w.memory, bs) ∷ w.memory }, 4096 + length w.memory);
  read_own = λ w ptr len. or_empty (cut_to len (get w.memory ptr));
  stat = λ w path. if list_eqb path (to_utf8 (text "/jail/work")) then some 0x41ED else none;
  copy_handler_table = λ w this child. w;
}
  where
    or_empty : Option (List ℕ) → List ℕ
    or_empty none = []
    or_empty (some bytes) = bytes

-- Descriptor 3 of cage 7 is its directory `/var`.
abbrev jail : State
jail = record {
  chroot_dir = text "/jail";
  initial_cwd = [];
  cage_cwds = (7, text "/") ∷ [];
  cage_dir_fds = (7, (3, text "/var") ∷ []) ∷ [];
}

abbrev start : JailSys sample host
start = record {
  own = jail;
  tables = [];
  world =
      quiet ((2, pos 5) ∷ (32, pos 6) ∷ [])
        ((64, to_utf8 (text "work") ++ 0 ∷ []) ∷ (80, to_utf8 (text "../etc/x") ++ 0 ∷ []) ∷ []);
}

abbrev call : ℕ → ℕ → Args
call arg1 arg2 = record {
  arg1 = arg1;
  arg1cage = 7;
  arg2 = arg2;
  arg2cage = 7;
  arg3 = 0;
  arg3cage = 7;
  arg4 = 0;
  arg4cage = 7;
  arg5 = 0;
  arg5cage = 7;
  arg6 = 0;
  arg6cage = 7;
}

duplicates_keep_directory_example :
    Copies sample host jail 7 3
      (duplicate_fd by_dup (call 3 0))
      (duplicate sample host by_dup (call 3 0) start)
duplicates_keep_directory_example = duplicates_keep_directory sample host by_dup (call 3 0) start

open_run : (open_handler sample host (call 64 0) start).1 ≡ pos 5
unfolding open_handler ◌>>=◌ return copy_from_cage gets get before_nul to_utf8 strip_prefix
    chroot_path trim_end normalize_path absolute join walk split component_step make_threei_call
open_run = refl

sample-DirsStay : DirsStay sample host
sample-DirsStay = record { own_bytes = λ w bs t h. h; opening = λ w self target args cages t h. h }

chdir_run : (chdir_handler sample host (call 64 0) start).1 ≡ pos 0
unfolding chdir_handler ◌>>=◌ return copy_from_cage gets get chroot_path normalize_path before_nul
    to_utf8 absolute trim_end join walk split component_step
chdir_run = refl

read_run : path_read sample host (call 64 0) start ≡ some (text "work")
unfolding get from_utf8_lossy before_nul to_utf8
read_run = refl

no_fd_run : dev_fd_target (text "work") ≡ none
unfolding dev_fd_target strip_prefix
no_fd_run = refl

fchdir_handler-open_handler_example :
    let entered =
      fchdir_handler sample host (call 5 0) (open_handler sample host (call 64 0) start).0 in
    (entered.1 ≡ pos 0)
    × ((get_cage_cwd entered.0.own 7).1
        ≡ (get_cage_cwd (chdir_handler sample host (call 64 0) start).0.own 7).1)
fchdir_handler-open_handler_example =
    fchdir_handler-open_handler sample host sample-DirsStay (call 64 0) (call 5 0) (text "work")
      start read_run no_fd_run chdir_run (ap is_neg open_run) refl (ap as_u64 (sym open_run))

-- A buffer among those of the grate.
abbrev Stored : ℕ → List ℕ → List (ℕ × List ℕ) → Type 0
Stored p bs [] = ⊥
Stored p bs ((q, cs) ∷ m) = ((q ≡ p) × (cs ≡ bs)) ⊎ Stored p bs m

abbrev stored : Buffers sample host
stored = record {
  Held = λ w p bs. Stored p bs w.memory;
  held_new = λ w bs. inl (refl, refl);
  held_old = λ w bs cs p h. inr h;
}

-- Every call so far has as its first argument a path of the grate below the root directory.
abbrev LogConfined : SampleWorld → List Asked → Type 0
LogConfined w [] = Unit
LogConfined w (asked ∷ log) =
    Pointer sample host stored (text "/jail") w (at_index asked.args 0) × LogConfined w log

LogConfined-own_bytes :
    (w : SampleWorld) (bs : List ℕ) (log : List Asked)
    → LogConfined w log
    → LogConfined (host.own_bytes w bs).0 log
LogConfined-own_bytes w bs [] h = tt
LogConfined-own_bytes w bs (asked ∷ log) (q, h) =
    (record { path = q.path; held = inr q.held; below = q.below }, LogConfined-own_bytes w bs log h)

LogConfined-append :
    (w w' : SampleWorld) (log : List Asked) (asked : Asked)
    → w'.memory ≡ w.memory
    → LogConfined w log
    → Pointer sample host stored (text "/jail") w (at_index asked.args 0)
    → LogConfined w' (log ++ asked ∷ [])
LogConfined-append w w' [] asked same h q = (
  record {
    path = q.path;
    held = subst (Stored (at_index asked.args 0) (to_utf8 q.path ++ 0 ∷ [])) (sym same) q.held;
    below = q.below;
  },
  tt,
)
LogConfined-append w w' (a ∷ log) asked same (p, h) q = (
  record {
    path = p.path;
    held = subst (Stored (at_index a.args 0) (to_utf8 p.path ++ 0 ∷ [])) (sym same) p.held;
    below = p.below;
  },
  LogConfined-append w w' log asked same h q,
)

log-Guarded : Guarded sample host stored (text "/jail") (0 ∷ 1 ∷ []) (λ w. LogConfined w w.log)
unfolding among
log-Guarded = record {
  buffer = λ w bs h. LogConfined-own_bytes w bs w.log h;
  call = λ w nr target args cages ok h.
      LogConfined-append w _ w.log
        (record { nr = nr; self_cage = 1; target_cage = target; args = args }) refl h (ok 0 refl).0;
}

input_path_handler-Confined_example :
    let w = (input_path_handler sample host sys_rename (0 ∷ 1 ∷ []) (call 64 80) start).0.world in
    LogConfined w w.log
input_path_handler-Confined_example =
    input_path_handler-Confined sample host stored (text "/jail") (0 ∷ 1 ∷ [])
      (λ w. LogConfined w w.log) log-Guarded sys_rename (call 64 80) start refl tt
