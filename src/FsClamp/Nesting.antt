-- ===== src/FsClamp/Nesting.antt =====
-- The markers `%{` and `%}` of nested clamps in the exec handler of
-- rust-grates/fs-routing-clamp/src/handlers/clamped_lifecycle.rs.
use lind_wasm_example_grates.FsClamp.Lifecycle.{exec_if_read}
use lind_wasm_example_grates.FsClamp.Routing.{NsSys, do_syscall, set_clamp_entry}
use lind_wasm_example_grates.Grate.Steps.{Args, ◌>>=◌, gets, return, make_threei_call, when}
use lind_wasm_example_grates.Grate.Outside.{Outside}
use lind_wasm_example_grates.FsClamp.State.{
  ClampState, enter_nested_clamp, exit_nested_clamp, pred_depth,
}
use lind_wasm_example_grates.Path.Text.{Text, text}
use lind_wasm_example_grates.Base.{
  text_key, refl, ℕ, some, ap, List, [], ◌++◌, ◌==◌, ◌≡◌, false, ◌<◌, ◌∷◌, Bool-cases, ltb, eqb,
  true, arith, inl, inr, ◌≤◌, ◌+◌, ◌∙◌, subst, suc,
}

abbrev pub open_marker : Text
open_marker = text "%{"

abbrev pub close_marker : Text
close_marker = text "%}"

-- Execs in which every opening marker has its closing one.
pub data Balanced : List (Args × Text) → Type 0 where
  done : Balanced []
  plain :
      (a : Args) (path : Text) (rest : List (Args × Text))
      → (path == open_marker) ≡ false
      → (path == close_marker) ≡ false
      → Balanced rest
      → Balanced ((a, path) ∷ rest)
  nested :
      (a b : Args) (inner rest : List (Args × Text))
      → Balanced inner
      → Balanced rest
      → Balanced ((a, open_marker) ∷ (inner ++ ((b, close_marker) ∷ rest)))

-- The state of the clamp but for its entry cage.
abbrev pub body : ClampState → ClampState
body c = record c { clamp_entry_cage = 0 }

module _ (O : Outside) where
  -- The execs of the cages one after the other, with the path that each was read to have.
  unfoldable pub run_execs : List (Args × Text) → NsSys O → NsSys O
  run_execs [] s = s
  run_execs ((a, path) ∷ rest) s = run_execs rest (exec_if_read O a (some path) s).0

  run_execs-append :
      (xs ys : List (Args × Text)) (s : NsSys O)
      → run_execs (xs ++ ys) s ≡ run_execs ys (run_execs xs s)
  unfolding run_execs
  run_execs-append [] ys s = refl
  run_execs-append ((a, path) ∷ xs) ys s = run_execs-append xs ys (exec_if_read O a (some path) s).0

  -- An exec of neither marker changes the entry cage at most.
  plain_exec :
      (a : Args) (path : Text) (s : NsSys O)
      → (path == open_marker) ≡ false
      → (path == close_marker) ≡ false
      → body (exec_if_read O a (some path) s).0.own.clamp ≡ body s.own.clamp
  unfolding ◌>>=◌ gets return do_syscall make_threei_call when set_clamp_entry
  plain_exec a path s h k =
      rw (h, k)
        (elim (Bool-cases (eqb s.own.clamp.clamp_depth 1)) [
          | inl e ↦ rw e refl
          | inr e ↦ rw e refl
        ])

  open_exec :
      (a : Args) (s : NsSys O)
      → (exec_if_read O a (some open_marker) s).0.own.clamp ≡ (enter_nested_clamp s.own.clamp).0
  unfolding ◌>>=◌ gets return do_syscall make_threei_call
  open_exec a s = refl

  close_exec :
      (a : Args) (s : NsSys O)
      → 1 < s.own.clamp.clamp_depth
      → (exec_if_read O a (some close_marker) s).0.own.clamp ≡ (exit_nested_clamp s.own.clamp).0
  unfolding ◌>>=◌ gets return do_syscall make_threei_call
  close_exec a s h = let deep : ltb 1 s.own.clamp.clamp_depth ≡ true = ground arith in rw deep refl

  depth_kept : (c c' : ClampState) → body c ≡ body c' → c.clamp_depth ≡ c'.clamp_depth
  depth_kept c c' e = ap (λ (b : ClampState). b.clamp_depth) e

  -- A closing marker undoes the opening one, whatever the execs between them are.
  exit-enter :
      (c c' : ClampState)
      → body c' ≡ body (enter_nested_clamp c).0
      → body (exit_nested_clamp c').0 ≡ body c
  unfolding enter_nested_clamp exit_nested_clamp
  exit-enter c c' e =
      ap (λ (b : ClampState). record b { clamp_depth = pred_depth b.clamp_depth }) e
      ∙ ap (λ d. record (body c) { clamp_depth = d }) (pred_one c.clamp_depth)
    where
      pred_one : (n : ℕ) → pred_depth (n + 1) ≡ n
      pred_one n = subst (λ m. pred_depth m ≡ n) (let e : suc n ≡ n + 1 = omega arith in e) refl

  enter_depth : (c : ClampState) → (enter_nested_clamp c).0.clamp_depth ≡ c.clamp_depth + 1
  unfolding enter_nested_clamp
  enter_depth c = refl

  -- A sequence of execs in which every opening marker has its closing one, begun inside the clamp,
  -- ends with the routes, the clamped cages, the depth and all else of the state of the clamp as
  -- they were, but for its entry cage.
  pub nested_execs_keep_clamp :
      (execs : List (Args × Text)) (s : NsSys O)
      → Balanced execs
      → 1 ≤ s.own.clamp.clamp_depth
      → body (run_execs execs s).own.clamp ≡ body s.own.clamp
  unfolding run_execs
  nested_execs_keep_clamp _ s done h = refl
  nested_execs_keep_clamp _ s (plain a path rest p q balanced) h =
      let first : body (exec_if_read O a (some path) s).0.own.clamp ≡ body s.own.clamp =
        plain_exec a path s p q in
      nested_execs_keep_clamp rest (exec_if_read O a (some path) s).0 balanced
        (omega (arith, depth_kept _ _ first))
      ∙ first
  nested_execs_keep_clamp _ s (nested a b inner rest in_balanced balanced) h =
      let s1 : NsSys O = (exec_if_read O a (some open_marker) s).0 in
      let s2 : NsSys O = run_execs inner s1 in
      let s3 : NsSys O = (exec_if_read O b (some close_marker) s2).0 in
      let deeper : s1.own.clamp.clamp_depth ≡ s.own.clamp.clamp_depth + 1 =
        ap (λ (c : ClampState). c.clamp_depth) (open_exec a s) ∙ enter_depth s.own.clamp in
      let within : body s2.own.clamp ≡ body s1.own.clamp =
        nested_execs_keep_clamp inner s1 in_balanced (omega (arith, deeper)) in
      let closed : body s3.own.clamp ≡ body s.own.clamp =
        ap body (close_exec b s2 (omega (arith, deeper, depth_kept _ _ within)))
        ∙ exit-enter s.own.clamp s2.own.clamp (within ∙ ap body (open_exec a s)) in
      ap (λ (t : NsSys O). body t.own.clamp) (run_execs-append inner ((b, close_marker) ∷ rest) s1)
      ∙ nested_execs_keep_clamp rest s3 balanced (omega (arith, depth_kept _ _ closed))
      ∙ closed
