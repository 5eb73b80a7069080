-- ===== src/NetClamp/Tests.antt =====
-- Runs of the handlers of rust-grates/net-routing-clamp in a small world.
use lind_wasm_example_grates.NetClamp.Marks.{
  Routed, gets_clamped_port, KeepsMarks, clamped_port_is_Routed,
}
use lind_wasm_example_grates.Grate.Steps.{Args, ◌>>=◌, gets, return, copy_from_cage}
use lind_wasm_example_grates.NetClamp.Calls.{NetSys, same_fd, addr_handler}
use lind_wasm_example_grates.Grate.Sample.{SampleWorld, has_cage, quiet, sample}
use lind_wasm_example_grates.NetClamp.State.{
  NetState, set_route, init_globals, extract_port_from_sockaddr, port_in_range,
}
use lind_wasm_example_grates.Grate.Outside.{Entry}
use lind_wasm_example_grates.Base.Dict.{get, insert, get-insert}
use lind_wasm_example_grates.Base.{
  nat_key, pair_key, refl, ℕ, some, ◌≡◌, [], arith, false, true, ◌∷◌, eqb_iff,
}

sample-KeepsMarks : KeepsMarks sample
unfolding insert has_cage
sample-KeepsMarks = record {
  set_mark = λ t cage fd info e found. (
    insert t (cage, fd) (record e { perfdinfo = info }),
    rw found refl,
    ground (
      arith,
      get-insert t (cage, fd) (record e { perfdinfo = info }) (cage, fd),
      pair_key.same_iff (cage, fd) (cage, fd),
    ),
    ground (arith, eqb_iff cage cage),
  );
}

-- Ports 8000 to 8999 are clamped; cage 4 has socket 3 open, and bind (49) goes to 2000.
abbrev unmarked : Entry
unmarked = same_fd 3 0

abbrev net_state : NetState
net_state = (set_route (init_globals 8000 8999) 4 0 2000).0

-- A sockaddr_in of port 8080 at address 64.
abbrev net_world : SampleWorld
net_world = quiet [] ((64, 2 ∷ 0 ∷ 31 ∷ 144 ∷ []) ∷ [])

abbrev listening : NetSys sample
listening = record { own = net_state; tables = ((4, 3), unmarked) ∷ []; world = net_world }

abbrev args : ℕ → ℕ → ℕ → Args
args first second third = record {
  arg1 = first;
  arg1cage = 4;
  arg2 = second;
  arg2cage = 4;
  arg3 = third;
  arg3cage = 4;
  arg4 = 0;
  arg4cage = 4;
  arg5 = 0;
  arg5cage = 4;
  arg6 = 0;
  arg6cage = 4;
}

known_run : has_cage listening.tables 4 ≡ true
unfolding has_cage
known_run = refl

unmarked_run : get listening.tables (4, 3) ≡ some unmarked
unfolding get
unmarked_run = refl

range_run : gets_clamped_port sample (args 3 64 16) listening ≡ true
unfolding gets_clamped_port ◌>>=◌ gets return copy_from_cage get extract_port_from_sockaddr
    port_in_range set_route init_globals
range_run = refl

clamped_port_is_Routed_example :
    Routed sample 0
      (args 3 100 5)
      false
      (gets_clamped_port sample (args 3 64 16) listening)
      (addr_handler sample 49 (args 3 64 16) listening)
clamped_port_is_Routed_example =
    clamped_port_is_Routed sample sample-KeepsMarks 49 0 (args 3 64 16) (args 3 100 5) listening
      unmarked known_run unmarked_run refl refl
