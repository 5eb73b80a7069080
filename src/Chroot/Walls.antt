-- ===== src/Chroot/Walls.antt =====
-- No call leaves the chroot grate with a path outside the root directory
-- (rust-grates/chroot-grate/src/main.rs and src/paths.rs).
use lind_wasm_example_grates.Chroot.State.{chroot_path, State}
use lind_wasm_example_grates.Chroot.PathCalls.{rewrite_paths, input_path_handler}
use lind_wasm_example_grates.Chroot.Confinement.{Below, chroot_dir-get_cage_cwd, chroot_path-Below}
use lind_wasm_example_grates.Grate.Utf8.{to_utf8}
use lind_wasm_example_grates.Chroot.Paths.{c_string}
use lind_wasm_example_grates.Path.Text.{Text}
use lind_wasm_example_grates.Chroot.Calls.{
  at_index, own_memory, call_with_rewrites, make_syscall_from_grate, JailSys, read_path_from_cage,
  owned, own_text, own_vec, path_in,
}
use lind_wasm_example_grates.Grate.Steps.{
  ◌>>=◌, make_threei_call, return, copy_from_cage, gets, Args, args_of, cages_of,
}
use lind_wasm_example_grates.Grate.Outside.{Outside}
use lind_wasm_example_grates.Base.{
  nat_key, refl, List, ℕ, Bool, ◌++◌, ◌<◌, ◌≡◌, false, length, some, ◌||◌, ◌∷◌, [], ap, arith, eqb,
  set, if◌then◌else◌, true, ◌⊎◌, Bool-cases, inl, inr, zero, suc, leb, length-set, ◌∙◌,
  Option-cases, ◌≢◌,
}
use lind_wasm_example_grates.Chroot.Host.{Host}

unfoldable pub among : ℕ → List ℕ → Bool
among i [] = false
among i (j ∷ js) = eqb i j || among i js

among-append : (i : ℕ) (js ks : List ℕ) → among i (js ++ ks) ≡ (among i js || among i ks)
unfolding among
among-append i [] ks = refl
among-append i (j ∷ js) ks = ground (arith, among-append i js ks)

at_index-set :
    (xs : List ℕ) (j v i : ℕ)
    → j < length xs
    → at_index (set xs j v) i ≡ (if eqb i j then v else at_index xs i)
unfolding at_index
at_index-set [] j v i h = elim h [ ]
at_index-set (x ∷ xs) zero v zero h = refl
at_index-set (x ∷ xs) zero v (suc i) h = ground arith
at_index-set (x ∷ xs) (suc j) v zero h = ground arith
at_index-set (x ∷ xs) (suc j) v (suc i) h = ground (arith, at_index-set xs j v i (omega arith))

c_string_same : (s t : Text) → c_string s ≡ some t → t ≡ s
c_string_same s t e = ground (arith, e)

chroot_dir-chroot_path :
    (s : State) (path : Text) (cage : ℕ) → (chroot_path s path cage).0.chroot_dir ≡ s.chroot_dir
unfolding chroot_path
chroot_dir-chroot_path s [] cage = refl
chroot_dir-chroot_path s (x ∷ path) cage = chroot_dir-get_cage_cwd s cage

c_string-Below :
    (s : State) (path : Text) (cage : ℕ) (t dir : Text)
    → path ≢ []
    → s.chroot_dir ≡ dir
    → c_string (chroot_path s path cage).1 ≡ some t
    → Below dir t
c_string-Below s path cage t dir h is_dir e =
    rw (c_string_same (chroot_path s path cage).1 t e, ← is_dir) (chroot_path-Below s path cage h)

-- The places of the rewrites.
abbrev places_of : List (ℕ × ℕ) → List ℕ
places_of [] = []
places_of ((i, p) ∷ rewrites) = i ∷ places_of rewrites

places_of-append : (xs ys : List (ℕ × ℕ)) → places_of (xs ++ ys) ≡ places_of xs ++ places_of ys
places_of-append [] ys = refl
places_of-append ((i, p) ∷ xs) ys = ap (◌∷◌ i) (places_of-append xs ys)

module _ (O : Outside) (H : Host O) where
  -- The buffers that the grate holds keep their bytes while it makes another one.
  pub record Buffers : Type 1 where
    pub Held : O.World → ℕ → List ℕ → Type 0
    pub held_new : (w : O.World) (bs : List ℕ) → Held (H.own_bytes w bs).0 (H.own_bytes w bs).1 bs
    pub held_old :
        (w : O.World) (bs cs : List ℕ) (p : ℕ) → Held w p cs → Held (H.own_bytes w bs).0 p cs

  module _ (B : Buffers) where
    -- A pointer to a text of the grate that resolves below the directory.
    pub record Pointer (dir : Text) (w : O.World) (p : ℕ) : Type 0 where
      pub path : Text
      pub held : B.Held w p (to_utf8 path ++ 0 ∷ [])
      pub below : Below dir path

    -- The argument at a place points to such a text, in the grate's memory.
    abbrev pub ConfinedAt : Text → O.World → List ℕ → List ℕ → ℕ → Type 0
    ConfinedAt dir w args cages i =
        Pointer dir w (at_index args i) × (at_index cages i ≡ own_memory O H)

    Pointer-own_bytes :
        (dir : Text) (w : O.World) (bs : List ℕ) (p : ℕ)
        → Pointer dir w p
        → Pointer dir (H.own_bytes w bs).0 p
    Pointer-own_bytes dir w bs p q = record {
      path = q.path;
      held = B.held_old w bs _ p q.held;
      below = q.below;
    }

    abbrev pub AllPointers : Text → O.World → List (ℕ × ℕ) → Type 0
    AllPointers dir w [] = Unit
    AllPointers dir w ((i, p) ∷ rewrites) = Pointer dir w p × AllPointers dir w rewrites

    AllPointers-own_text :
        (dir : Text) (w : O.World) (bs : List ℕ) (rewrites : List (ℕ × ℕ)) (i : ℕ)
        → Pointer dir (H.own_bytes w bs).0 (H.own_bytes w bs).1
        → AllPointers dir w rewrites
        → AllPointers dir (H.own_bytes w bs).0 (rewrites ++ (i, (H.own_bytes w bs).1) ∷ [])
    AllPointers-own_text dir w bs [] i new h = (new, tt)
    AllPointers-own_text dir w bs ((j, p) ∷ rewrites) i new (q, h) =
        (Pointer-own_bytes dir w bs p q, AllPointers-own_text dir w bs rewrites i new h)

    -- The argument at a place after a rewrite of one place.
    ConfinedAt-set :
        (dir : Text) (w : O.World) (args cages : List ℕ) (idx p i : ℕ)
        → idx < length args
        → idx < length cages
        → Pointer dir w p
        → (eqb i idx ≡ true) ⊎ ConfinedAt dir w args cages i
        → ConfinedAt dir w (set args idx p) (set cages idx (own_memory O H)) i
    ConfinedAt-set dir w args cages idx p i ha hc q at =
        rw (at_index-set args idx p i ha, at_index-set cages idx (own_memory O H) i hc)
          (elim (Bool-cases (eqb i idx)) [
            | inl e ↦ rw e (q, refl)
            | inr e ↦ rw e (elim at [ inl t ↦ absurd (ground (arith, t, e)) | inr c ↦ c ])
          ])

    -- A place is confined already, or among those that are still to be rewritten.
    after_rewrite :
        (dir : Text) (w : O.World) (args cages : List ℕ) (idx p : ℕ) (rest : List ℕ) (i : ℕ)
        → length args ≡ 6
        → length cages ≡ 6
        → leb 6 idx ≡ false
        → Pointer dir w p
        → (among i (idx ∷ rest) ≡ true) ⊎ ConfinedAt dir w args cages i
        → (among i rest ≡ true)
          ⊎ ConfinedAt dir w (set args idx p) (set cages idx (own_memory O H)) i
    unfolding among
    after_rewrite dir w args cages idx p rest i ha hc small q (inr c) =
        inr (ConfinedAt-set dir w args cages idx p i (ground arith) (ground arith) q (inr c))
    after_rewrite dir w args cages idx p rest i ha hc small q (inl m) =
        elim (Bool-cases (eqb i idx)) [
          | inl e ↦
              inr (ConfinedAt-set dir w args cages idx p i (ground arith) (ground arith) q (inl e))
          | inr e ↦ inl (ground (arith, m, e))
        ]

    module _ (dir : Text) (places : List ℕ) (Inv : O.World → Type 0) where
      -- What holds of the world outside is kept by a buffer that the grate makes, and by every call
      -- whose arguments at the places are confined.
      pub record Guarded : Type 0 where
        pub buffer : (w : O.World) (bs : List ℕ) → Inv w → Inv (H.own_bytes w bs).0
        pub call :
            (w : O.World) (nr target : ℕ) (args cages : List ℕ)
            → ((i : ℕ) → among i places ≡ true → ConfinedAt dir w args cages i)
            → Inv w
            → Inv (O.make_syscall_impl w nr O.own_cage target args cages).0

      module _ (guarded : Guarded) where
        call_with_rewrites-Inv :
            (nr target : ℕ) (rewrites : List (ℕ × ℕ)) (args cages : List ℕ) (s : JailSys O H)
            → length args ≡ 6
            → length cages ≡ 6
            → AllPointers dir s.world rewrites
            → ((i : ℕ)
                → among i places ≡ true
                → (among i (places_of rewrites) ≡ true) ⊎ ConfinedAt dir s.world args cages i)
            → Inv s.world
            → Inv (call_with_rewrites O H nr target args cages rewrites s).0.world
        unfolding call_with_rewrites make_syscall_from_grate make_threei_call ◌>>=◌ return among
        call_with_rewrites-Inv nr target [] args cages s ha hc ptrs at inv =
            guarded.call s.world nr target args cages
              (λ i m. elim (at i m) [ inl none_left ↦ absurd (ground arith) | inr c ↦ c ]) inv
        call_with_rewrites-Inv nr target ((idx, p) ∷ rewrites) args cages s ha hc (q, ptrs) at inv =
            elim (Bool-cases (leb 6 idx)) [
              | inl e ↦ rw e inv
              | inr e ↦ rw e (
                  call_with_rewrites-Inv nr target rewrites (set args idx p)
                    (set cages idx (own_memory O H)) s (length-set args idx p ∙ ha)
                    (length-set cages idx (own_memory O H) ∙ hc) ptrs
                    (λ i m.
                      after_rewrite dir s.world args cages idx p (places_of rewrites) i ha hc e q
                        (at i m))
                    inv)
            ]

        -- Each place is rewritten already or still to come.
        abbrev Covered : List (ℕ × ℕ) → List ℕ → Type 0
        Covered rewrites rest =
            (i : ℕ) → among i places ≡ true → (among i (places_of rewrites) || among i rest) ≡ true

        Covered-step :
            (rewrites : List (ℕ × ℕ)) (idx p : ℕ) (rest : List ℕ)
            → Covered rewrites (idx ∷ rest)
            → Covered (rewrites ++ (idx, p) ∷ []) rest
        unfolding among
        Covered-step rewrites idx p rest h i m =
            rw
              (
                places_of-append rewrites ((idx, p) ∷ []),
                among-append i (places_of rewrites) (idx ∷ []),
              )
              (ground (arith, h i m))

        rewrite_paths-Inv :
            (nr : ℕ) (a : Args) (rest : List ℕ) (rewrites : List (ℕ × ℕ)) (s : JailSys O H)
            → s.own.chroot_dir ≡ dir
            → AllPointers dir s.world rewrites
            → Covered rewrites rest
            → Inv s.world
            → Inv (rewrite_paths O H nr a rest rewrites s).0.world
        unfolding rewrite_paths ◌>>=◌ read_path_from_cage copy_from_cage gets return owned own_text
            own_vec among
        rewrite_paths-Inv nr a [] rewrites s is_dir ptrs covered inv =
            call_with_rewrites-Inv nr a.arg1cage rewrites (args_of a) (cages_of a) s refl refl ptrs
              (λ i m. inl (ground (arith, covered i m))) inv
        rewrite_paths-Inv nr a (idx ∷ rest) rewrites s is_dir ptrs covered inv =
            elim (Option-cases (
              path_in
                (O.copy_in s.world (at_index (args_of a) idx) (at_index (cages_of a) idx) 4096))) [
                  | inl e ↦ rw e inv
                  | inr ([], e) ↦ rw e inv
                  | inr (x ∷ path, e) ↦
                      let r = chroot_path s.own (x ∷ path) (at_index (cages_of a) idx) in
                      rw e (elim (Option-cases (c_string r.1)) [
                        | inl e' ↦ rw e' inv
                        | inr (t, e') ↦
                            let bytes = to_utf8 t ++ 0 ∷ [] in
                            let w = H.own_bytes s.world bytes in
                            let new : Pointer dir w.0 w.1 = record {
                              path = t;
                              held = B.held_new s.world bytes;
                              below = c_string-Below s.own (x ∷ path) _ t dir (λ q. cc) is_dir e';
                            } in
                            rw e' (
                              rewrite_paths-Inv nr a rest (rewrites ++ (idx, w.1) ∷ [])
                                (record s { own = r.0; world = w.0 })
                                (chroot_dir-chroot_path s.own (x ∷ path) _ ∙ is_dir)
                                (AllPointers-own_text dir s.world bytes rewrites idx new ptrs)
                                (Covered-step rewrites idx w.1 rest covered)
                                (guarded.buffer s.world bytes inv))
                      ])
                ]

        -- If the memory of the grate keeps its buffers, then what holds of the outside and is kept
        -- by each call whose path arguments point to texts of the grate that resolve below the
        -- chroot directory, is kept by a handler made by input_path_handler, which so makes no
        -- call with another path, for any call, places of the paths and arguments.
        pub input_path_handler-Confined :
            (nr : ℕ) (a : Args) (s : JailSys O H)
            → s.own.chroot_dir ≡ dir
            → Inv s.world
            → Inv (input_path_handler O H nr places a s).0.world
        unfolding input_path_handler among
        input_path_handler-Confined nr a s is_dir inv =
            rewrite_paths-Inv nr a places [] s is_dir tt (λ i m. m) inv
