-- ===== src/FsClamp/Inheritance.antt =====
-- Routes, registrations and per-cage state across registration, fork and exit
-- (rust-grates/fs-routing-clamp/src/helpers.rs).
use lind_wasm_example_grates.Base.{
  ℕ, ◌≡◌, refl, ap, false, not, ◌&&◌, Option, none, some, List, [], ◌∷◌, ◌++◌, arith, eqb,
  if◌then◌else◌, nat_key, pair_key,
}
use lind_wasm_example_grates.Base.Dict.{
  Dict, get, remove, retain, is_some, get-insert, get-remove, get-retain,
}
use lind_wasm_example_grates.Path.Text.{Text, slash}
use lind_wasm_example_grates.FsClamp.State.{
  ClampState, Request, push_interposition_request, get_interposition_request, asks_for, rfind,
  set_route, get_route, parent_routes, insert_routes, clone_cage_routes, remove_cage_state, or_new,
  or_slash, map_some, lookup, is_cage_clamped, get_cage_cwd,
}

abbrev pub or_else : Option ℕ → Option ℕ → Option ℕ
or_else none o = o
or_else (some v) o = some v

get-parent_routes :
    (parent : ℕ) (m : Dict (ℕ × ℕ) ℕ) (nr : ℕ)
    → get (parent_routes parent m) nr ≡ get m (parent, nr)
unfolding get parent_routes
get-parent_routes parent [] nr = refl
get-parent_routes parent (((cid, n), alt) ∷ m) nr = ground (arith, get-parent_routes parent m nr)

get-insert_routes :
    (child : ℕ) (rs : Dict ℕ ℕ) (m : Dict (ℕ × ℕ) ℕ) (c nr : ℕ)
    → get (insert_routes child rs m) (c, nr)
      ≡ (if eqb c child then or_else (get rs nr) (get m (c, nr)) else get m (c, nr))
unfolding get insert_routes
get-insert_routes child [] m c nr = ground arith
get-insert_routes child ((n, alt) ∷ rs) m c nr = ground (
  arith,
  get-insert (insert_routes child rs m) (child, n) alt (c, nr),
  get-insert_routes child rs m c nr,
)

-- After clone_cage_routes the child has the route of the parent for each call that the parent has
-- one for, keeps its own for the others, and no other cage changes.
pub get_route-clone_cage_routes :
    (s : ClampState) (parent child c nr : ℕ)
    → get_route (clone_cage_routes s parent child) c nr ≡ (
        if eqb c child
        then or_else (get_route s parent nr) (get_route s c nr)
        else get_route s c nr)
get_route-clone_cage_routes s parent child c nr = at s.routes refl
  where
    at :
        (r : Option (Dict (ℕ × ℕ) ℕ))
        → s.routes ≡ r
        → get_route (clone_cage_routes s parent child) c nr ≡ (
            if eqb c child
            then or_else (get_route s parent nr) (get_route s c nr)
            else get_route s c nr)
    at none e = unfold get_route clone_cage_routes in ground arith
    at (some m) e =
        unfold get_route clone_cage_routes in
        ground (
          arith,
          get-insert_routes child (parent_routes parent m) m c nr,
          get-parent_routes parent m nr,
        )

get-or_new : (r : Option (Dict (ℕ × ℕ) ℕ)) (k : ℕ × ℕ) → get (or_new r) k ≡ lookup (λ m. get m k) r
unfolding get
get-or_new none k = refl
get-or_new (some m) k = refl

is_some-or_new :
    (r : Option (Dict (ℕ × ℕ) ℕ)) (k : ℕ × ℕ)
    → is_some (get (or_new r) k) ≡ is_some (lookup (λ m. get m k) r)
is_some-or_new r k = ap is_some (get-or_new r k)

-- After set_route the cage has that route for that call, every other route stays, and the result
-- says whether there was one before.
pub get_route-set_route :
    (s : ClampState) (cage nr alt c n : ℕ)
    → (get_route (set_route s cage nr alt).0 c n
        ≡ (if eqb cage c && eqb nr n then some alt else get_route s c n))
      × ((set_route s cage nr alt).1 ≡ is_some (get_route s cage nr))
unfolding set_route get_route
get_route-set_route s cage nr alt c n =
    let m = or_new s.routes in
    (
      ground (arith, get-insert m (cage, nr) alt (c, n), get-or_new s.routes (c, n)),
      is_some-or_new s.routes (cage, nr),
    )

route_forgotten :
    (r : Option (Dict (ℕ × ℕ) ℕ)) (cage c nr : ℕ)
    → lookup (λ m. get m (c, nr)) (map_some (retain λ k. not (eqb k.0 cage)) r)
      ≡ (if eqb c cage then none else lookup (λ m. get m (c, nr)) r)
route_forgotten none cage c nr = ground arith
route_forgotten (some m) cage c nr =
    ground (arith, get-retain (λ (k : ℕ × ℕ). not (eqb k.0 cage)) m (c, nr))

mark_forgotten :
    (r : Option (Dict ℕ (Unit {0}))) (cage c : ℕ)
    → is_some (lookup (λ m. get m c) (map_some (λ m. remove m cage) r))
      ≡ (if eqb c cage then false else is_some (lookup (λ m. get m c) r))
mark_forgotten none cage c = ground arith
mark_forgotten (some m) cage c = ground (arith, get-remove m cage c)

cwd_forgotten :
    (r : Option (Dict ℕ Text)) (cage c : ℕ)
    → or_slash (lookup (λ m. get m c) (map_some (λ m. remove m cage) r))
      ≡ (if eqb c cage then slash ∷ [] else or_slash (lookup (λ m. get m c) r))
cwd_forgotten none cage c = ground arith
cwd_forgotten (some m) cage c = ground (arith, get-remove m cage c)

-- After remove_cage_state the cage has no route, is not clamped and has the root as directory, and
-- all other cages keep theirs.
pub remove_cage_state_forgets :
    (s : ClampState) (cage c nr : ℕ)
    → let s' = remove_cage_state s cage in
      (get_route s' c nr ≡ (if eqb c cage then none else get_route s c nr))
      × (is_cage_clamped s' c ≡ (if eqb c cage then false else is_cage_clamped s c))
      × (get_cage_cwd s' c ≡ (if eqb c cage then slash ∷ [] else get_cage_cwd s c))
unfolding remove_cage_state get_route is_cage_clamped get_cage_cwd
remove_cage_state_forgets s cage c nr = (
  route_forgotten s.routes cage c nr,
  mark_forgotten s.clamped_cages cage c,
  cwd_forgotten s.cwd_by_cage cage c,
)

rfind-append :
    (cage nr : ℕ) (rs : List Request) (r : Request)
    → rfind cage nr (rs ++ r ∷ [])
      ≡ (if asks_for cage nr r then some (r.grate_id, r.handler_fn) else rfind cage nr rs)
unfolding rfind
rfind-append cage nr [] r = ground arith
rfind-append cage nr (q ∷ rs) r = ground (arith, rfind-append cage nr rs r)

-- A registration that is recorded is the one found for its cage and call from then on, and none
-- other changes.
pub get_interposition_request-push :
    (s : ClampState) (r : Request) (cage nr : ℕ)
    → get_interposition_request (push_interposition_request s r) cage nr ≡ (
        if asks_for cage nr r
        then some (r.grate_id, r.handler_fn)
        else get_interposition_request s cage nr)
unfolding get_interposition_request push_interposition_request
get_interposition_request-push s r cage nr = rfind-append cage nr s.interposition_map r
