-- ===== src/FsClamp/State.antt =====
-- The routing state of rust-grates/fs-routing-clamp/src/helpers.rs: routes, clamped cages, working
-- directories, the nesting depth and the recorded registrations. `CLAMP_STATE` is `Some` from
-- `init_globals` on; a state here is one after that call.
use lind_wasm_example_grates.Base.{
  ℕ, zero, suc, ◌+◌, Bool, not, ◌&&◌, Option, none, some, List, [], ◌∷◌, ◌++◌, eqb, if◌then◌else◌,
  nat_key, pair_key,
}
use lind_wasm_example_grates.Base.Dict.{Dict, get, insert, remove, retain, is_some}
use lind_wasm_example_grates.Path.Text.{Text, slash}
use lind_wasm_example_grates.FsClamp.Paths.{normalize_path}

-- `(target_cage, syscall_nr, grate_id, handler_fn_ptr)`
pub record Request : Type 0 where
  pub target_cage : ℕ
  pub syscall_nr : ℕ
  pub grate_id : ℕ
  pub handler_fn : ℕ

pub record ClampState : Type 0 where
  pub routes : Option (Dict (ℕ × ℕ) ℕ)
  pub ns_cage_id : ℕ
  pub clamp_entry_cage : ℕ
  pub clamp_depth : ℕ
  pub routing_prefix : Text
  pub clamped_cages : Option (Dict ℕ (Unit {0}))
  pub cwd_by_cage : Option (Dict ℕ Text)
  pub alt_allocator : ℕ
  pub interposition_map : List Request

abbrev pub init : ℕ → Text → ClampState
init ns_cage_id prefix = record {
  routes = none;
  ns_cage_id = ns_cage_id;
  clamp_entry_cage = 0;
  clamp_depth = 1;
  routing_prefix = prefix;
  clamped_cages = none;
  cwd_by_cage = none;
  alt_allocator = 3000;
  interposition_map = [];
}

-- get_or_insert_with(HashMap::new)
abbrev pub or_new {ℓ κ} : {K : Type ℓ} {V : Type κ} → Option (Dict K V) → Dict K V
or_new none = []
or_new (some m) = m

unfoldable pub alloc_alt_syscall : ClampState → ClampState × ℕ
alloc_alt_syscall s = (record s { alt_allocator = s.alt_allocator + 1 }, s.alt_allocator)

unfoldable pub enter_nested_clamp : ClampState → ClampState × ℕ
enter_nested_clamp s = (record s { clamp_depth = s.clamp_depth + 1 }, s.clamp_depth + 1)

abbrev pub pred_depth : ℕ → ℕ
pred_depth zero = zero
pred_depth (suc n) = n

unfoldable pub exit_nested_clamp : ClampState → ClampState × ℕ
exit_nested_clamp s = let d = pred_depth s.clamp_depth in (record s { clamp_depth = d }, d)

-- entry(cage_id).or_insert_with(|| "/")
abbrev with_cwd : Dict ℕ Text → ℕ → Option Text → Dict ℕ Text
with_cwd m cage_id none = insert m cage_id (slash ∷ [])
with_cwd m cage_id (some cwd) = m

unfoldable pub register_clamped_cage : ClampState → ℕ → ClampState
register_clamped_cage s cage_id = record s {
  clamped_cages = some (insert (or_new s.clamped_cages) cage_id tt);
  cwd_by_cage = let m = or_new s.cwd_by_cage in some (with_cwd m cage_id (get m cage_id));
}

abbrev pub map_some {ℓ} : {A : Type ℓ} → (A → A) → Option A → Option A
map_some f none = none
map_some f (some a) = some (f a)

unfoldable pub deregister_clamped_cage : ClampState → ℕ → ClampState
deregister_clamped_cage s cage_id = record s {
  clamped_cages = map_some (λ m. remove m cage_id) s.clamped_cages;
}

abbrev pub lookup {ℓ κ} :
    {K : Type ℓ} {V : Type κ} → (Dict K V → Option V) → Option (Dict K V) → Option V
lookup f none = none
lookup f (some m) = f m

unfoldable pub is_cage_clamped : ClampState → ℕ → Bool
is_cage_clamped s cage_id = is_some (lookup (λ m. get m cage_id) s.clamped_cages)

unfoldable pub push_interposition_request : ClampState → Request → ClampState
push_interposition_request s r = record s { interposition_map = s.interposition_map ++ r ∷ [] }

abbrev pub asks_for : ℕ → ℕ → Request → Bool
asks_for target_cage fs_syscall r = eqb r.target_cage target_cage && eqb r.syscall_nr fs_syscall

abbrev or_else : Option (ℕ × ℕ) → Option (ℕ × ℕ) → Option (ℕ × ℕ)
or_else none o = o
or_else (some r) o = some r

-- iter().rfind(..): the last request that matches
unfoldable pub rfind : ℕ → ℕ → List Request → Option (ℕ × ℕ)
rfind cage nr [] = none
rfind cage nr (r ∷ rs) =
    or_else (rfind cage nr rs)
      (if asks_for cage nr r then some (r.grate_id, r.handler_fn) else none)

unfoldable pub get_interposition_request : ClampState → ℕ → ℕ → Option (ℕ × ℕ)
unfolding rfind
get_interposition_request s target_cage fs_syscall =
    rfind target_cage fs_syscall s.interposition_map

-- The Boolean says that the key had a route before.
unfoldable pub set_route : ClampState → ℕ → ℕ → ℕ → ClampState × Bool
set_route s cage_id syscall_nr alt_nr =
    let m = or_new s.routes in
    (
      record s { routes = some (insert m (cage_id, syscall_nr) alt_nr) },
      is_some (get m (cage_id, syscall_nr)),
    )

unfoldable pub get_route : ClampState → ℕ → ℕ → Option ℕ
get_route s cage_id syscall_nr = lookup (λ m. get m (cage_id, syscall_nr)) s.routes

-- The parent's routes, as `(nr, alt)`.
unfoldable pub parent_routes : ℕ → Dict (ℕ × ℕ) ℕ → List (ℕ × ℕ)
parent_routes parent [] = []
parent_routes parent (((cid, nr), alt) ∷ m) =
    let rest = parent_routes parent m in if eqb cid parent then (nr, alt) ∷ rest else rest

-- The loop of inserts. `HashMap` leaves the order of its entries open; they are taken last to first.
unfoldable pub insert_routes : ℕ → List (ℕ × ℕ) → Dict (ℕ × ℕ) ℕ → Dict (ℕ × ℕ) ℕ
insert_routes child [] m = m
insert_routes child ((nr, alt) ∷ rest) m = insert (insert_routes child rest m) (child, nr) alt

unfoldable pub clone_cage_routes : ClampState → ℕ → ℕ → ClampState
clone_cage_routes s parent child = record s {
  routes = map_some (λ m. insert_routes child (parent_routes parent m) m) s.routes;
}

abbrev pub or_slash : Option Text → Text
or_slash none = slash ∷ []
or_slash (some cwd) = cwd

unfoldable pub get_cage_cwd : ClampState → ℕ → Text
get_cage_cwd s cage_id = or_slash (lookup (λ m. get m cage_id) s.cwd_by_cage)

unfoldable pub set_cage_cwd : ClampState → ℕ → Text → ClampState
set_cage_cwd s cage_id cwd = record s {
  cwd_by_cage = some (insert (or_new s.cwd_by_cage) cage_id (normalize_path cwd));
}

unfoldable pub clone_cage_cwd : ClampState → ℕ → ℕ → ClampState
unfolding get_cage_cwd set_cage_cwd
clone_cage_cwd s parent child = set_cage_cwd s child (get_cage_cwd s parent)

unfoldable pub remove_cage_state : ClampState → ℕ → ClampState
remove_cage_state s cage_id = record s {
  routes = map_some (retain λ k. not (eqb k.0 cage_id)) s.routes;
  clamped_cages = map_some (λ m. remove m cage_id) s.clamped_cages;
  cwd_by_cage = map_some (λ m. remove m cage_id) s.cwd_by_cage;
}
