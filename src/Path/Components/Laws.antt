-- ===== src/Path/Components/Laws.antt =====
-- Laws of the component loop: what it leaves is plain, plain components pass through it unchanged,
-- and the text that is put together from its result resolves to that result again.
use mathlib.Core.List.{append_assoc, append-nil, reverse-cons, reverse-reverse}
use lind_wasm_example_grates.Base.{
  ℕ, zero, suc, ◌≡◌, refl, sym, ap, ◌∙◌, ◌≢◌, ◌&&◌, List, [], ◌∷◌, ◌++◌, reverse, replicate, arith,
  All, eqb, ◌⊎◌, inl, inr, All-append, list_eqb_iff, Bool-cases,
}
use lind_wasm_example_grates.Path.Text.{
  Text, NoSlash, slash, is_empty, push_front, split, join, trim_end, split-append, split_piece,
}
use lind_wasm_example_grates.Path.Components.{dot, dotdot, pop, component_step, walk, absolute}

-- A component that names an entry: not empty, not `.`, not `..`, and in one piece.
pub record Plain (w : Text) : Type 0 where
  pub piece : NoSlash w
  pub nonempty : w ≢ []
  pub not_dot : w ≢ dot
  pub not_dotdot : w ≢ dotdot

push_front-NoSlash :
    (x : ℕ) (ws : List Text) → x ≢ slash → All NoSlash ws → All NoSlash (push_front x ws)
push_front-NoSlash x [] n h = ((n, tt), tt)
push_front-NoSlash x (w ∷ ws) n h = ((n, h.0), h.1)

-- What `split` cuts out has no slash.
pub split-NoSlash : (s : Text) → All NoSlash (split s)
unfolding split
split-NoSlash [] = (tt, tt)
split-NoSlash (x ∷ xs) = elim (Bool-cases (eqb x slash)) [
  | inl e ↦ rw e (tt, split-NoSlash xs)
  | inr e ↦ rw e (push_front-NoSlash x (split xs) (ground arith) (split-NoSlash xs))
]

step_cases :
    (st : List Text) (w : Text)
    → (component_step st w ≡ st)
      ⊎ (component_step st w ≡ pop st)
      ⊎ ((w ≢ []) × (w ≢ dot) × (w ≢ dotdot) × (component_step st w ≡ w ∷ st))
unfolding component_step
step_cases st w = ground (arith, list_eqb_iff w [], list_eqb_iff w dot, list_eqb_iff w dotdot)

pop-Plain : (st : List Text) → All Plain st → All Plain (pop st)
pop-Plain [] h = tt
pop-Plain (v ∷ st) h = h.1

step-Plain :
    (st : List Text) (w : Text) → All Plain st → NoSlash w → All Plain (component_step st w)
step-Plain st w h n = elim (step_cases st w) [
  | inl e ↦ rw e h
  | inr (inl e) ↦ rw e (pop-Plain st h)
  | inr (inr (a, b, c, e)) ↦
      rw e (record { piece = n; nonempty = a; not_dot = b; not_dotdot = c }, h)
]

pub walk-Plain : (st ws : List Text) → All Plain st → All NoSlash ws → All Plain (walk st ws)
unfolding walk
walk-Plain st [] h n = h
walk-Plain st (w ∷ ws) h n = walk-Plain (component_step st w) ws (step-Plain st w h n.0) n.1

step-Plain_self : (st : List Text) (w : Text) → Plain w → component_step st w ≡ w ∷ st
unfolding component_step
step-Plain_self st w p = ground (
  arith,
  list_eqb_iff w [],
  list_eqb_iff w dot,
  list_eqb_iff w dotdot,
  p.nonempty,
  p.not_dot,
  p.not_dotdot,
)

pub walk-append : (st xs ys : List Text) → walk st (xs ++ ys) ≡ walk (walk st xs) ys
unfolding walk
walk-append st [] ys = refl
walk-append st (x ∷ xs) ys = walk-append (component_step st x) xs ys

pub walk-Plain_self : (st ws : List Text) → All Plain ws → walk st ws ≡ reverse ws ++ st
unfolding walk
walk-Plain_self st [] h = refl
walk-Plain_self st (w ∷ ws) h =
    ap (λ s. walk s ws) (step-Plain_self st w h.0) ∙ walk-Plain_self (w ∷ st) ws h.1 ∙ snoc
  where
    snoc : reverse ws ++ w ∷ st ≡ reverse (w ∷ ws) ++ st
    snoc = sym (rw (reverse-cons w ws) (append_assoc (reverse ws) (w ∷ []) st))

split-join : (w : Text) (ws : List Text) → All NoSlash (w ∷ ws) → split (join (w ∷ ws)) ≡ w ∷ ws
unfolding join
split-join w [] h = split_piece w h.0
split-join w (v ∷ ws) h =
    split-append w (join (v ∷ ws))
    ∙ ap (λ l. l ++ split (join (v ∷ ws))) (split_piece w h.0)
    ∙ ap (◌∷◌ w) (split-join v ws h.1)

pub reverse-All {ℓ κ} : {A : Type ℓ} (P : A → Type κ) (xs : List A) → All P xs → All P (reverse xs)
reverse-All P [] h = tt
reverse-All P (x ∷ xs) h =
    rw (reverse-cons x xs) (All-append P (reverse xs) (x ∷ []) (reverse-All P xs h.1) (h.0, tt))

pub pieces : (ws : List Text) → All Plain ws → All NoSlash ws
pieces [] h = tt
pieces (w ∷ ws) h = (h.0.piece, pieces ws h.1)

walk-split-join : (st ws : List Text) → All Plain ws → walk st (split (join ws)) ≡ walk st ws
walk-split-join st [] h = unfold walk split join component_step in refl
walk-split-join st (w ∷ ws) h = ap (walk st) (split-join w ws (pieces (w ∷ ws) h))

-- What `absolute` puts behind a text resolves to the stack that it was made from, on top.
pub walk-absolute :
    (base : Text) (st below : List Text)
    → All Plain st
    → walk below (split (base ++ absolute st)) ≡ st ++ walk below (split base)
unfolding absolute
walk-absolute base st below h =
    ap (walk below) (split-append base (join (reverse st)))
    ∙ walk-append below (split base) (split (join (reverse st)))
    ∙ walk-split-join _ (reverse st) (reverse-All Plain st h)
    ∙ walk-Plain_self _ (reverse st) (reverse-All Plain st h)
    ∙ ap (λ l. l ++ walk below (split base)) (reverse-reverse st)

-- The text of a plain stack resolves to that stack.
pub walk-split-absolute : (st : List Text) → All Plain st → walk [] (split (absolute st)) ≡ st
walk-split-absolute st h =
    walk-absolute [] st [] h ∙ unfold walk split component_step in append-nil st

abbrev slashes : ℕ → Text
slashes n = replicate n slash

walk-slashes : (st : List Text) (n : ℕ) → walk st (split (slashes n)) ≡ st
unfolding walk split component_step
walk-slashes st zero = refl
walk-slashes st (suc n) = walk-slashes st n

trim_end_split : (s : Text) → (n : ℕ) × (s ≡ trim_end s ++ slashes n)
unfolding trim_end
trim_end_split [] = (0, refl)
trim_end_split (x ∷ xs) =
    let (n, e) = trim_end_split xs in
    elim (Bool-cases (eqb x slash && is_empty (trim_end xs))) [
      | inl t ↦ (suc n, ground (arith, e))
      | inr t ↦ (n, rw t (ap (◌∷◌ x) e))
    ]

walk_trailing :
    (st : List Text) (s : Text) (n : ℕ) → walk st (split (s ++ slashes n)) ≡ walk st (split s)
walk_trailing st s zero = rw append-nil
walk_trailing st s (suc n) =
    ap (walk st) (split-append s (slashes n))
    ∙ walk-append st (split s) (split (slashes n))
    ∙ walk-slashes (walk st (split s)) n

-- Slashes at the end of a text change nothing.
pub walk-trim_end : (st : List Text) (s : Text) → walk st (split (trim_end s)) ≡ walk st (split s)
walk-trim_end st s =
    let (n, e) = trim_end_split s in
    sym (ap (λ t. walk st (split t)) e ∙ walk_trailing st (trim_end s) n)
