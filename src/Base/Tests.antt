-- ===== src/Base/Tests.antt =====
-- Boolean tests and the conditional: the comparisons of the source on unsigned integers.
use Prim.Native.Nat.{ℕ, compare, Ordering}
use mathlib.Core.Path.{◌≡◌, refl, ap}
use mathlib.Core.Logic.{◌≢◌, ◌↔◌, ◌⊎◌, inl, inr}
use mathlib.Core.Bool.{Bool, true, false, ◌&&◌}
use mathlib.Core.List.{List, [], ◌∷◌}
use mathlib.Core.Option.{Option, none, some}
use native.Mathlib.Omega.{arith}

abbrev pub ltb : ℕ → ℕ → Bool
ltb a b = elim (compare a b) [ Ordering.lt ↦ true | _ ↦ false ]

abbrev pub leb : ℕ → ℕ → Bool
leb a b = elim (compare a b) [ Ordering.gt ↦ false | _ ↦ true ]

abbrev pub eqb : ℕ → ℕ → Bool
eqb a b = elim (compare a b) [ Ordering.eq ↦ true | _ ↦ false ]

infix 1 if◌then◌else◌
abbrev pub if◌then◌else◌ {ℓ} : {A : Type ℓ} → Bool → A → A → A
if true then x else y = x
if false then x else y = y

pub eqb_iff : (a b : ℕ) → (eqb a b ≡ true) ↔ (a ≡ b)
eqb_iff a b = ground arith

pub Bool-cases : (b : Bool) → (b ≡ true) ⊎ (b ≡ false)
Bool-cases true = inl refl
Bool-cases false = inr refl

pub Option-cases {ℓ} : {A : Type ℓ} (o : Option A) → (o ≡ none) ⊎ ((a : A) × (o ≡ some a))
Option-cases none = inl refl
Option-cases (some a) = inr (a, refl)

pub none≢some {ℓ} : {A : Type ℓ} {a : A} → none ≢ some a
none≢some e = ground arith

-- Keys and texts, which the source compares by `==` of their type: a test that decides equality.
pub record Key {ℓ} (K : Type ℓ) : Type ℓ where
  pub same : K → K → Bool
  pub same_iff : (j k : K) → (same j k ≡ true) ↔ (j ≡ k)

module _ {ℓ} {K : Type ℓ} ⦃key : Key K⦄ where
  infix 50 ◌==◌
  abbrev pub ◌==◌ : K → K → Bool
  j == k = key.same j k

abbrev pub pair_eqb : ℕ × ℕ → ℕ × ℕ → Bool
pair_eqb (a, b) (c, d) = eqb a c && eqb b d

pub pair_eqb_iff : (p q : ℕ × ℕ) → (pair_eqb p q ≡ true) ↔ (p ≡ q)
pair_eqb_iff (a, b) (c, d) =
    (λ h. ground arith, λ e. ground (arith, ap (λ (r : ℕ × ℕ). r.0) e, ap (λ (r : ℕ × ℕ). r.1) e))

abbrev pub list_eqb : List ℕ → List ℕ → Bool
list_eqb [] [] = true
list_eqb [] (y ∷ ys) = false
list_eqb (x ∷ xs) [] = false
list_eqb (x ∷ xs) (y ∷ ys) = eqb x y && list_eqb xs ys

list_eqb_sound : (xs ys : List ℕ) → list_eqb xs ys ≡ true → xs ≡ ys
list_eqb_sound [] [] h = refl
list_eqb_sound [] (y ∷ ys) h = cc
list_eqb_sound (x ∷ xs) [] h = cc
list_eqb_sound (x ∷ xs) (y ∷ ys) h = ground (arith, list_eqb_sound xs ys)

pub list_eqb_refl : (xs : List ℕ) → list_eqb xs xs ≡ true
list_eqb_refl [] = refl
list_eqb_refl (x ∷ xs) = ground (arith, list_eqb_refl xs)

pub list_eqb_iff : (xs ys : List ℕ) → (list_eqb xs ys ≡ true) ↔ (xs ≡ ys)
list_eqb_iff xs ys = (list_eqb_sound xs ys, λ e. rw e (list_eqb_refl ys))

instance abbrev pub nat_key : Key ℕ
nat_key = record { same = eqb; same_iff = eqb_iff }

-- `(u64, u64)`
instance abbrev pub pair_key : Key (ℕ × ℕ)
pair_key = record { same = pair_eqb; same_iff = pair_eqb_iff }

-- `String`
instance abbrev pub text_key : Key (List ℕ)
text_key = record { same = list_eqb; same_iff = list_eqb_iff }
