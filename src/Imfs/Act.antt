-- ===== src/Imfs/Act.antt =====
-- An operation of rust-grates/imfs-grate/src/imfs/mod.rs: it changes the state and returns a value
-- or an errno, and what it changed before an error stays. `none` stands for a panic.
use lind_wasm_example_grates.Base.{ℕ, Bool, Option, none, some, get_elem?, if◌then◌else◌}
use lind_wasm_example_grates.Base.Words.{ℤ}
use lind_wasm_example_grates.Path.Text.{Text}
use lind_wasm_example_grates.Imfs.Node.{Node}
use lind_wasm_example_grates.Imfs.State.{ImfsState, put_node}
use lind_wasm_example_grates.Imfs.Resolve.{Result, ok, err, normalize_path_for_cage}

abbrev pub Act : Type 0 → Type 0 → Type 0
Act S A = S → Option (S × Result A)

module _ {S A B : Type 0} where
  abbrev pub after : Option (S × Result A) → (A → Act S B) → Option (S × Result B)
  after none f = none
  after (some (s, ok a)) f = f a s
  after (some (s, err e)) f = some (s, err e)

  infixl 5 ◌>>=◌
  unfoldable pub ◌>>=◌ : Act S A → (A → Act S B) → Act S B
  (m >>= f) s = after (m s) f

  infixl 5 ◌>>◌
  abbrev pub ◌>>◌ : Act S A → Act S B → Act S B
  m >> n = m >>= (λ a. n)

module _ {S A : Type 0} where
  unfoldable pub return : A → Act S A
  return a s = some (s, ok a)

  unfoldable pub fail : ℤ → Act S A
  fail e s = some (s, err e)

  abbrev pub answer : S → Option (Result A) → Option (S × Result A)
  answer s none = none
  answer s (some r) = some (s, r)

  -- a method that reads the state
  unfoldable pub ask : (S → Option (Result A)) → Act S A
  ask f s = answer s (f s)

  -- the result itself, for a `match` on both cases
  unfoldable pub attempt : (S → Option (Result A)) → Act S (Result A)
  attempt f s = elim (f s) [ none ↦ none | some r ↦ some (s, ok r) ]

  unfoldable pub need : (S → Option A) → Act S A
  need f s = elim (f s) [ none ↦ none | some a ↦ some (s, ok a) ]

-- a method that changes the state and returns nothing
unfoldable pub do_ : {S : Type 0} → (S → Option S) → Act S Unit
do_ f s = elim (f s) [ none ↦ none | some s' ↦ some (s', ok tt) ]

-- a method that changes the state and returns an index
unfoldable pub make : {S : Type 0} → (S → Option (ℕ × S)) → Act S ℕ
make f s = elim (f s) [ none ↦ none | some (i, s') ↦ some (s', ok i) ]

-- if test { return e; }
unfoldable pub fail_if : {S : Type 0} → Bool → ℤ → Act S Unit
fail_if test e = if test then fail e else return tt

abbrev pub node_at : ℕ → Act ImfsState Node
node_at i = need (λ s. get_elem? s.nodes i)

abbrev pub set_node : ℕ → Node → Act ImfsState Unit
set_node i n = do_ (λ s. put_node s i n)

-- An operation on a path, which is normalised by the working directory of the cage first.
unfoldable pub with_path : {A : Type 0} → ℕ → Text → (Text → Act ImfsState A) → Act ImfsState A
with_path cage_id path body s = body (normalize_path_for_cage s cage_id path) s
