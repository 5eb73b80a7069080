-- ===== src/Base/Lists.antt =====
-- Lists measured and indexed by native numbers, under the library's names.
use Prim.Native.Nat.{ℕ, zero, suc, ◌+◌, ◌-◌, ◌≤◌, ◌<◌, min}
use mathlib.Core.Path.{◌≡◌, refl, sym, ap, ◌∙◌}
use mathlib.Core.Logic.{◌≢◌}
use mathlib.Core.List.{List, [], ◌∷◌, ◌++◌}
use mathlib.Core.Option.{Option, none, some}
use native.Mathlib.Omega.{arith}

module _ {ℓ} {A : Type ℓ} where
  abbrev pub length : List A → ℕ
  length [] = 0
  length (x ∷ xs) = suc (length xs)

  abbrev pub get_elem? : List A → ℕ → Option A
  get_elem? [] i = none
  get_elem? (x ∷ xs) zero = some x
  get_elem? (x ∷ xs) (suc i) = get_elem? xs i

  abbrev pub set : List A → ℕ → A → List A
  set [] i v = []
  set (x ∷ xs) zero v = v ∷ xs
  set (x ∷ xs) (suc i) v = x ∷ set xs i v

  abbrev pub take : ℕ → List A → List A
  take zero xs = []
  take (suc n) [] = []
  take (suc n) (x ∷ xs) = x ∷ take n xs

  abbrev pub drop : ℕ → List A → List A
  drop zero xs = xs
  drop (suc n) [] = []
  drop (suc n) (x ∷ xs) = drop n xs

  abbrev pub replicate : ℕ → A → List A
  replicate zero a = []
  replicate (suc n) a = a ∷ replicate n a

module _ {ℓ} {A : Type ℓ} where
  pub length-append : (xs ys : List A) → length (xs ++ ys) ≡ length xs + length ys
  length-append [] ys = omega arith
  length-append (x ∷ xs) ys = omega (arith, length-append xs ys)

  pub length-set : (xs : List A) (i : ℕ) (v : A) → length (set xs i v) ≡ length xs
  length-set [] i v = refl
  length-set (x ∷ xs) zero v = refl
  length-set (x ∷ xs) (suc i) v = ap suc (length-set xs i v)

  pub in_range : (xs : List A) (i : ℕ) (a : A) → get_elem? xs i ≡ some a → i < length xs
  in_range [] i a e = ground arith
  in_range (x ∷ xs) zero a e = omega arith
  in_range (x ∷ xs) (suc i) a e = omega (arith, in_range xs i a e)

  pub set_same : (xs : List A) (i : ℕ) (a : A) → get_elem? xs i ≡ some a → set xs i a ≡ xs
  set_same [] i a e = refl
  set_same (x ∷ xs) zero a e = ground arith
  set_same (x ∷ xs) (suc i) a e = ap (◌∷◌ x) (set_same xs i a e)

  pub get_elem?-set_self :
      (xs : List A) (i : ℕ) (v : A) → i < length xs → get_elem? (set xs i v) i ≡ some v
  get_elem?-set_self [] i v h = elim h [ ]
  get_elem?-set_self (x ∷ xs) zero v h = refl
  get_elem?-set_self (x ∷ xs) (suc i) v h = get_elem?-set_self xs i v (omega arith)

  pub get_elem?-set_ne :
      (xs : List A) (i j : ℕ) (v : A) → i ≢ j → get_elem? (set xs i v) j ≡ get_elem? xs j
  get_elem?-set_ne [] i j v h = refl
  get_elem?-set_ne (x ∷ xs) zero zero v h = absurd (h refl)
  get_elem?-set_ne (x ∷ xs) zero (suc j) v h = refl
  get_elem?-set_ne (x ∷ xs) (suc i) zero v h = refl
  get_elem?-set_ne (x ∷ xs) (suc i) (suc j) v h = get_elem?-set_ne xs i j v (λ e. h (ap suc e))

  pub length-take : (n : ℕ) (xs : List A) → length (take n xs) ≡ min n (length xs)
  length-take zero xs = omega arith
  length-take (suc n) [] = omega arith
  length-take (suc n) (x ∷ xs) = omega (arith, length-take n xs)

  pub length-drop : (n : ℕ) (xs : List A) → length (drop n xs) ≡ length xs - n
  length-drop zero xs = omega arith
  length-drop (suc n) [] = omega arith
  length-drop (suc n) (x ∷ xs) = omega (arith, length-drop n xs)

  pub take-append-drop : (n : ℕ) (xs : List A) → take n xs ++ drop n xs ≡ xs
  take-append-drop zero xs = refl
  take-append-drop (suc n) [] = refl
  take-append-drop (suc n) (x ∷ xs) = ap (◌∷◌ x) (take-append-drop n xs)

  -- Nothing is cut off a list that is short enough.
  pub take_all : (xs : List A) {n : ℕ} → length xs ≤ n → take n xs ≡ xs
  take_all [] {n = zero} short = refl
  take_all [] {n = suc n} short = refl
  take_all (x ∷ xs) {n = zero} short = absurd (omega arith)
  take_all (x ∷ xs) {n = suc n} short = ap (◌∷◌ x) (take_all xs (omega arith))

  pub take-append_le : (n : ℕ) (xs ys : List A) → n ≤ length xs → take n (xs ++ ys) ≡ take n xs
  take-append_le zero xs ys h = refl
  take-append_le (suc n) [] ys h = absurd (omega arith)
  take-append_le (suc n) (x ∷ xs) ys h = ap (◌∷◌ x) (take-append_le n xs ys (omega arith))

  pub drop-append_le :
      (n : ℕ) (xs ys : List A) → n ≤ length xs → drop n (xs ++ ys) ≡ drop n xs ++ ys
  drop-append_le zero xs ys h = refl
  drop-append_le (suc n) [] ys h = absurd (omega arith)
  drop-append_le (suc n) (x ∷ xs) ys h = drop-append_le n xs ys (omega arith)

  pub drop-append_ge :
      (n : ℕ) (xs ys : List A) → length xs ≤ n → drop n (xs ++ ys) ≡ drop (n - length xs) ys
  drop-append_ge n [] ys h = ap (λ k. drop k ys) (omega arith)
  drop-append_ge zero (x ∷ xs) ys h = absurd (omega arith)
  drop-append_ge (suc n) (x ∷ xs) ys h =
      drop-append_ge n xs ys (omega arith) ∙ ap (λ k. drop k ys) (omega arith)

  take_cong : {m n : ℕ} (xs : List A) → m ≡ n → take m xs ≡ take n xs
  take_cong xs e = ap (λ k. take k xs) e

  pub take-append :
      (n : ℕ) (xs ys : List A) → take n (xs ++ ys) ≡ take n xs ++ take (n - length xs) ys
  take-append zero xs ys = take_cong {m = 0} {n = 0 - length xs} ys (omega arith)
  take-append (suc n) [] ys = take_cong {m = suc n} {n = suc n - 0} ys (omega arith)
  take-append (suc n) (x ∷ xs) ys = ap (◌∷◌ x) (
      take-append n xs ys
      ∙ ap (◌++◌ (take n xs))
          (take_cong {m = n - length xs} {n = suc n - suc (length xs)} ys (omega arith)))

  pub take_nil : (n : ℕ) → take {A = A} n [] ≡ []
  take_nil zero = refl
  take_nil (suc n) = refl

  pub drop_nil : (n : ℕ) → drop {A = A} n [] ≡ []
  drop_nil zero = refl
  drop_nil (suc n) = refl

  pub take-take : (n u : ℕ) (xs : List A) → take n (take u xs) ≡ take (min n u) xs
  take-take zero u xs = take_cong {m = 0} {n = min 0 u} xs (omega arith)
  take-take (suc n) zero xs = take_cong {m = 0} {n = min (suc n) 0} xs (omega arith)
  take-take (suc n) (suc u) [] = sym (take_nil (min (suc n) (suc u)))
  take-take (suc n) (suc u) (x ∷ xs) =
      ap (◌∷◌ x) (take-take n u xs)
      ∙ take_cong {m = suc (min n u)} {n = min (suc n) (suc u)} (x ∷ xs) (omega arith)

  -- A part of the first u entries is a part of the list.
  pub take-drop-take :
      (n i u : ℕ) (xs : List A) → take n (drop i (take u xs)) ≡ take (min n (u - i)) (drop i xs)
  take-drop-take n zero u xs =
      take-take n u xs ∙ take_cong {m = min n u} {n = min n (u - 0)} xs (omega arith)
  take-drop-take n (suc i) zero xs =
      take_nil n ∙ take_cong {m = 0} {n = min n (0 - suc i)} (drop (suc i) xs) (omega arith)
  take-drop-take n (suc i) (suc u) [] = take_nil n ∙ sym (take_nil (min n (suc u - suc i)))
  take-drop-take n (suc i) (suc u) (x ∷ xs) =
      take-drop-take n i u xs
      ∙ take_cong {m = min n (u - i)} {n = min n (suc u - suc i)} (drop i xs) (omega arith)

  pub drop-take : (k u : ℕ) (xs : List A) → drop k (take u xs) ≡ take (u - k) (drop k xs)
  drop-take zero u xs = take_cong {m = u} {n = u - 0} xs (omega arith)
  drop-take (suc k) zero xs = take_cong {m = 0} {n = 0 - suc k} (drop (suc k) xs) (omega arith)
  drop-take (suc k) (suc u) [] = sym (take_nil (suc u - suc k))
  drop-take (suc k) (suc u) (x ∷ xs) =
      drop-take k u xs ∙ take_cong {m = u - k} {n = suc u - suc k} (drop k xs) (omega arith)

  -- The front is what is taken, to the entry.
  pub take-append_self :
      (xs ys : List A) (n : ℕ) → length xs ≤ n → take n (xs ++ ys) ≡ xs ++ take (n - length xs) ys
  take-append_self xs ys n h =
      take-append n xs ys ∙ ap (λ zs. zs ++ take (n - length xs) ys) (take_all xs h)

  pub drop_all : (n : ℕ) (xs : List A) → length xs ≤ n → drop n xs ≡ []
  drop_all n [] h = drop_nil n
  drop_all zero (x ∷ xs) h = absurd (omega arith)
  drop_all (suc n) (x ∷ xs) h = drop_all n xs (omega arith)

  pub take-min : (n : ℕ) (xs : List A) → take (min n (length xs)) xs ≡ take n xs
  take-min n xs = sym (take-take n (length xs) xs) ∙ ap (take n) (take_all xs (omega arith))

  pub length-replicate : (n : ℕ) (a : A) → length (replicate n a) ≡ n
  length-replicate zero a = refl
  length-replicate (suc n) a = ap suc (length-replicate n a)

-- A predicate holds of every entry.
module _ {ℓ κ} {A : Type ℓ} (P : A → Type κ) where
  abbrev pub All : List A → Type κ
  All [] = Unit
  All (a ∷ as') = P a × All as'

  pub All-append : (front back : List A) → All front → All back → All (front ++ back)
  All-append [] back _ ok = ok
  All-append (a ∷ front) back (here, rest) ok = (here, All-append front back rest ok)
