-- ===== src/WriteFilter/Tests.antt =====
-- Runs of the write filter in a small world, and its theorem at these states.
use lind_wasm_example_grates.Grate.Syscalls.{sys_write}
use lind_wasm_example_grates.Grate.Utf8.{to_utf8}
use lind_wasm_example_grates.Base.Dict.{get-insert, insert, get}
use lind_wasm_example_grates.Base.Words.{pos}
use lind_wasm_example_grates.Path.Text.{text, split}
use lind_wasm_example_grates.WriteFilter.Calls.{
  FilterSys, is_log, open_handler, filtered, forward_ret, eperm, plain_entry,
}
use lind_wasm_example_grates.WriteFilter.Refusal.{TracksEntries, opens_log, filtered-open_handler}
use lind_wasm_example_grates.Grate.Steps.{
  ◌>>=◌, Args, return, make_threei_call, copy_from_cage, gets,
}
use lind_wasm_example_grates.Base.{
  nat_key, pair_key, text_key, refl, [], ◌∷◌, true, false, ◌≡◌, ℕ, arith, if◌then◌else◌, ◌++◌,
}
use lind_wasm_example_grates.Grate.Sample.{sample, quiet}

sample-TracksEntries : TracksEntries sample
sample-TracksEntries = record {
  placed = λ t cage fd e t' made.
      ground (arith, get-insert t (cage, fd) e (cage, fd), pair_key.same_iff (cage, fd) (cage, fd));
  marked = λ t cage fd info e found. (
    insert t (cage, fd) (record e { perfdinfo = info }),
    rw found refl,
    ground (
      arith,
      get-insert t (cage, fd) (record e { perfdinfo = info }) (cage, fd),
      pair_key.same_iff (cage, fd) (cage, fd),
    ),
  );
}

log_run : is_log (text "/var/app.log") ≡ true
unfolding is_log split
log_run = refl

hidden_run : is_log (text "/var/.log") ≡ false
unfolding is_log split
hidden_run = refl

-- The path is that of a text file.
abbrev start : FilterSys sample
start = record {
  own = tt;
  tables = [];
  world = quiet ((2, pos 5) ∷ []) ((64, to_utf8 (text "/a.txt") ++ 0 ∷ []) ∷ []);
}

abbrev call : ℕ → Args
call arg1 = record {
  arg1 = arg1;
  arg1cage = 7;
  arg2 = 0;
  arg2cage = 7;
  arg3 = 0;
  arg3cage = 7;
  arg4 = 0;
  arg4cage = 7;
  arg5 = 0;
  arg5cage = 7;
  arg6 = 0;
  arg6cage = 7;
}

open_run : (open_handler sample (call 64) start).1 ≡ pos 5
unfolding open_handler ◌>>=◌ return make_threei_call get copy_from_cage gets
open_run = refl

filtered-open_handler_example :
    let opened = (open_handler sample (call 64) start).0 in
    filtered sample sys_write (call 5) opened ≡ (
      if opens_log sample (call 64) start
      then forward_ret sample sys_write (call 5) opened
      else (opened, eperm))
filtered-open_handler_example =
    filtered-open_handler sample sample-TracksEntries sys_write (call 64) (call 5) start
      (insert [] (7, 5) (plain_entry 5)) open_run refl refl
