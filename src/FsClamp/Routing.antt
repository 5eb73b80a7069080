-- ===== src/FsClamp/Routing.antt =====
-- How a handler of rust-grates/fs-routing-clamp finds its paths and sends calls on
-- (src/helpers.rs): to the number of a route, to the kernel, or as the clamp's entry cage.
use lind_wasm_example_grates.FsClamp.Paths.{resolve_path_for_cage, path_matches_prefix}
use lind_wasm_example_grates.Grate.Steps.{
  Step, Sys, gets, ◌>>=◌, copy_from_cage, make_threei_call, return, passed,
}
use lind_wasm_example_grates.Grate.Utf8.{from_utf8, before_nul}
use lind_wasm_example_grates.FsClamp.Mmap.{Mmaps}
use lind_wasm_example_grates.Grate.Outside.{Outside}
use lind_wasm_example_grates.Path.Text.{Text}
use lind_wasm_example_grates.Base.Words.{ℤ, neg, u32_mod}
use lind_wasm_example_grates.FsClamp.State.{ClampState, get_cage_cwd, get_route}
use lind_wasm_example_grates.Base.{ℕ, Bool, Option, none, some, if◌then◌else◌, List, false, ◌%◌}

-- CLAMP_STATE and CLAMPED_MMAPS
pub record NsState : Type 0 where
  pub clamp : ClampState
  pub mmaps : Mmaps

abbrev pub ebadf : ℤ
ebadf = neg 9

abbrev pub efault : ℤ
efault = neg 14

abbrev pub einval : ℤ
einval = neg 22

abbrev pub emfile : ℤ
emfile = neg 24

abbrev pub max_path_len : ℕ
max_path_len = 4096

abbrev pub map_option {ℓ κ} : {A : Type ℓ} {B : Type κ} → (A → B) → Option A → Option B
map_option f none = none
map_option f (some a) = some (f a)

abbrev pub text_in : Option (List ℕ) → Option Text
text_in none = none
text_in (some buf) = from_utf8 (before_nul buf)

-- .map(test).unwrap_or(false)
abbrev pub holds_of : {A : Type 0} → (A → Bool) → Option A → Bool
holds_of test none = false
holds_of test (some a) = test a

-- match route { Some(alt) if test => alt, _ => nr }
unfoldable pub choose_nr : Option ℕ → Bool → ℕ → ℕ
choose_nr none test nr = nr
choose_nr (some alt) test nr = if test then alt else nr

unfoldable pub set_clamp_entry : ClampState → ℕ → ClampState
set_clamp_entry s cage_id = record s { clamp_entry_cage = cage_id }

module _ (O : Outside) where
  abbrev pub NsSys : Type 0
  NsSys = Sys O NsState

  abbrev pub Ns : Type 0 → Type 0
  Ns = Step NsSys

  unfoldable pub do_syscall : ℕ → ℕ → List ℕ → List ℕ → Ns ℤ
  do_syscall callingcage nr args arg_cages = do
    ns_cage ← gets (λ s. s.own.clamp.ns_cage_id)
    r ← make_threei_call O (nr % u32_mod) ns_cage callingcage args arg_cages
    return (passed r)

  unfoldable pub do_clamp_syscall : ℕ → ℕ → List ℕ → List ℕ → Ns ℤ
  do_clamp_syscall callingcage nr args arg_cages = do
    entry ← gets (λ s. s.own.clamp.clamp_entry_cage)
    r ← make_threei_call O (nr % u32_mod) entry callingcage args arg_cages
    return (passed r)

  abbrev pub route : ℕ → ℕ → Ns (Option ℕ)
  route cage_id nr = gets (λ s. get_route s.own.clamp cage_id nr)

  unfoldable pub read_path_from_cage : ℕ → ℕ → Ns (Option Text)
  read_path_from_cage path_ptr path_cage = do
    buf ← copy_from_cage O path_ptr path_cage max_path_len
    return (text_in buf)

  -- resolve_path_for_cage with the working directory of a cage
  abbrev pub resolved : ℕ → Text → NsSys → Text
  resolved cage_id path s = resolve_path_for_cage (get_cage_cwd s.own.clamp cage_id) path

  unfoldable pub resolve_path_from_cage : ℕ → ℕ → ℕ → Ns (Option Text)
  unfolding read_path_from_cage
  resolve_path_from_cage current_cage path_ptr path_cage = do
    path ← read_path_from_cage path_ptr path_cage
    gets (λ s. map_option (λ p. resolved current_cage p s) path)

  -- Whether a path that may be missing is below the routing prefix.
  abbrev pub below_prefix : Option Text → Ns Bool
  below_prefix path =
      gets (λ s. holds_of (λ p. path_matches_prefix s.own.clamp.routing_prefix p) path)

  -- match get_route(..) { Some(alt) => do_syscall(alt), None => do_clamp_syscall(nr) }
  unfoldable pub send_clamped : ℕ → ℕ → List ℕ → List ℕ → Ns ℤ
  unfolding do_syscall do_clamp_syscall
  send_clamped cage_id nr args arg_cages = route cage_id nr >>= (λ r. elim r [
    | some alt ↦ do_syscall cage_id alt args arg_cages
    | none ↦ do_clamp_syscall cage_id nr args arg_cages
  ])

  -- match get_route(..) { Some(alt) if clamped => do_syscall(alt), _ => do_syscall(nr) }
  unfoldable pub send_by : ℕ → ℕ → Bool → List ℕ → List ℕ → Ns ℤ
  unfolding do_syscall choose_nr
  send_by cage_id nr clamped args arg_cages = do
    r ← route cage_id nr
    do_syscall cage_id (choose_nr r clamped nr) args arg_cages
