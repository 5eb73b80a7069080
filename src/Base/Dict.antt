-- ===== src/Base/Dict.antt =====
-- `HashMap<K, V>` as an association list. Iteration order is left open by the source's map; here it
-- is the order of the list.
use mathlib.Core.Path.{◌≡◌, refl}
use mathlib.Core.Bool.{Bool, true, false}
use mathlib.Core.Option.{Option, none, some}
use mathlib.Core.List.{List, [], ◌∷◌}
use native.Mathlib.Omega.{arith}
use lind_wasm_example_grates.Base.Tests.{Key, ◌==◌, if◌then◌else◌}

abbrev pub Dict {ℓ κ} : Type ℓ → Type κ → Type (ℓ ⊔ κ)
Dict K V = List (K × V)

abbrev pub is_some {ℓ} : {A : Type ℓ} → Option A → Bool
is_some none = false
is_some (some a) = true

module _ {ℓ κ} {K : Type ℓ} {V : Type κ} ⦃key : Key K⦄ where
  -- m.get(&k)
  unfoldable pub get : Dict K V → K → Option V
  get [] k = none
  get ((j, v) ∷ m) k = if j == k then some v else get m k

  -- m.contains_key(&k)
  abbrev pub contains_key : Dict K V → K → Bool
  contains_key m k = is_some (get m k)

  -- m.retain(|k, _| p(k))
  unfoldable pub retain : (K → Bool) → Dict K V → Dict K V
  retain p [] = []
  retain p ((j, v) ∷ m) = let rest = retain p m in if p j then (j, v) ∷ rest else rest

  -- m.remove(&k)
  unfoldable pub remove : Dict K V → K → Dict K V
  remove [] k = []
  remove ((j, v) ∷ m) k = let rest = remove m k in if j == k then rest else (j, v) ∷ rest

  -- m.insert(k, v)
  unfoldable pub insert : Dict K V → K → V → Dict K V
  unfolding remove
  insert m k v = (k, v) ∷ remove m k

  pub get-remove :
      (m : Dict K V) (k j : K) → get (remove m k) j ≡ (if k == j then none else get m j)
  unfolding get remove
  get-remove [] k j = ground arith
  get-remove ((i, v) ∷ m) k j =
      ground (arith, get-remove m k j, key.same_iff i k, key.same_iff i j, key.same_iff k j)

  pub get-insert :
      (m : Dict K V) (k : K) (v : V) (j : K)
      → get (insert m k v) j ≡ (if k == j then some v else get m j)
  unfolding get insert
  get-insert m k v j = ground (arith, get-remove m k j)

  pub get-retain :
      (p : K → Bool) (m : Dict K V) (k : K) → get (retain p m) k ≡ (if p k then get m k else none)
  unfolding get retain
  get-retain p [] k = ground arith
  get-retain p ((j, v) ∷ m) k = ground (arith, get-retain p m k, key.same_iff j k)

  pub get-empty : (k : K) → get (let m : Dict K V = [] in m) k ≡ none
  unfolding get
  get-empty k = refl
