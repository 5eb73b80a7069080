-- ===== src/NetClamp/State.antt =====
-- The state of rust-grates/net-routing-clamp/src/helpers.rs: ROUTES, PORT_RANGE, CLAMPED_CAGES and
-- ALT_ALLOCATOR, after `init_globals`.
use lind_wasm_example_grates.FsClamp.State.{insert_routes, parent_routes}
use lind_wasm_example_grates.Base.Dict.{Dict, contains_key, get, insert, remove, retain}
use lind_wasm_example_grates.Base.{
  nat_key, pair_key, ℕ, Bool, Option, none, some, List, [], leb, ◌+◌, get_elem?, not, ◌&&◌, ◌*◌,
  eqb, if◌then◌else◌, ltb, length, ◌||◌,
}

pub record NetState : Type 0 where
  pub routes : Dict (ℕ × ℕ) ℕ
  pub port_range : ℕ × ℕ
  pub clamped_cages : Dict ℕ (Unit {0})
  pub alt_allocator : ℕ

unfoldable pub init_globals : ℕ → ℕ → NetState
init_globals port_low port_high = record {
  routes = [];
  port_range = (port_low, port_high);
  clamped_cages = [];
  alt_allocator = 2000;
}

unfoldable pub alloc_alt_syscall : NetState → NetState × ℕ
alloc_alt_syscall s = (record s { alt_allocator = s.alt_allocator + 1 }, s.alt_allocator)

unfoldable pub register_clamped_cage : NetState → ℕ → NetState
register_clamped_cage s cage_id = record s { clamped_cages = insert s.clamped_cages cage_id tt }

unfoldable pub deregister_clamped_cage : NetState → ℕ → NetState
deregister_clamped_cage s cage_id = record s { clamped_cages = remove s.clamped_cages cage_id }

unfoldable pub is_cage_clamped : NetState → ℕ → Bool
is_cage_clamped s cage_id = contains_key s.clamped_cages cage_id

-- The Boolean says that the key had a route before.
unfoldable pub set_route : NetState → ℕ → ℕ → ℕ → NetState × Bool
set_route s cage_id syscall_nr alt_nr = (
  record s { routes = insert s.routes (cage_id, syscall_nr) alt_nr },
  contains_key s.routes (cage_id, syscall_nr),
)

unfoldable pub get_route : NetState → ℕ → ℕ → Option ℕ
get_route s cage_id syscall_nr = get s.routes (cage_id, syscall_nr)

unfoldable pub clone_cage_routes : NetState → ℕ → ℕ → NetState
clone_cage_routes s parent child = record s {
  routes = insert_routes child (parent_routes parent s.routes) s.routes;
}

unfoldable pub remove_cage_state : NetState → ℕ → NetState
remove_cage_state s cage_id = record s {
  routes = retain (λ k. not (eqb k.0 cage_id)) s.routes;
  clamped_cages = remove s.clamped_cages cage_id;
}

unfoldable pub port_in_range : NetState → ℕ → Bool
port_in_range s port = leb s.port_range.0 port && leb port s.port_range.1

abbrev pub byte_at : List ℕ → ℕ → ℕ
byte_at buf i = elim (get_elem? buf i) [ none ↦ 0 | some b ↦ b ]

-- The family is in the first two bytes, low byte first, and the port in the next two, high byte
-- first. AF_INET is 2 and AF_INET6 is 10.
unfoldable pub extract_port_from_sockaddr : List ℕ → Option ℕ
extract_port_from_sockaddr buf =
    let family = byte_at buf 0 + 256 * byte_at buf 1 in
    if ltb (length buf) 4
    then none
    else if eqb family 2 || eqb family 10
    then some (256 * byte_at buf 2 + byte_at buf 3)
    else none
