-- ===== src/Imfs/Bytes.antt =====
-- Equations between byte lists for the write loops of rust-grates/imfs-grate/src/imfs/mod.rs.
use mathlib.Core.List.{append_assoc, append-nil}
use lind_wasm_example_grates.Base.{
  ℕ, ◌+◌, ◌-◌, ◌≤◌, ◌≡◌, sym, ap, ◌∙◌, ◌⊎◌, inl, inr, List, [], ◌++◌, length, take, drop, arith,
  length-take, length-drop, length-append, take-append-drop, take-append_le, drop-append_le,
  drop-append_ge, take-take, take_all, take-append_self, drop-take, take-append-drop, drop_all,
}

-- What a round leaves in its chunk: `buf` is cut after m bytes, at the end of the chunk or of `buf`.
module _ (bytes rest buf : List ℕ) (u lo m : ℕ) (all : length bytes ≡ 1024) (small : u ≤ 1024)
    (inside : lo + m ≤ u) (some_of : m ≤ length buf) where
  size : length (take m buf) ≡ m
  size = length-take m buf ∙ omega arith

  size_lo : length (take lo bytes) ≡ lo
  size_lo = length-take lo bytes ∙ omega arith

  size_front : length (take lo bytes ++ take m buf) ≡ lo + m
  size_front = length-append (take lo bytes) (take m buf) ∙ omega (arith, size_lo, size)

  pub round_size :
      length (take lo bytes ++ take m buf ++ drop (lo + length (take m buf)) bytes) ≡ 1024
  round_size =
      length-append (take lo bytes ++ take m buf) (drop (lo + length (take m buf)) bytes)
      ∙ omega (arith, size, size_front, length-drop (lo + length (take m buf)) bytes)

  front_part :
      take u (take lo bytes ++ take m buf ++ drop (lo + length (take m buf)) bytes)
      ≡ take lo bytes ++ take m buf ++ take (u - (lo + m)) (drop (lo + m) bytes)
  front_part =
      take-append_self (take lo bytes ++ take m buf) (drop (lo + length (take m buf)) bytes) u
        (omega (arith, size_front))
      ∙ ap
          (λ n. take lo bytes ++ take m buf ++ take (u - n) (drop (lo + length (take m buf)) bytes))
          size_front
      ∙ ap (λ n. take lo bytes ++ take m buf ++ take (u - (lo + m)) (drop (lo + n) bytes)) size

  size_u : length (take u bytes) ≡ u
  size_u = length-take u bytes ∙ omega arith

  take_part : take lo (take u bytes ++ rest) ≡ take lo bytes
  take_part =
      take-append_le lo (take u bytes) rest (omega (arith, size_u))
      ∙ take-take lo u bytes
      ∙ ap (λ n. take n bytes) (omega arith)

  -- The rest of `buf` goes on in the next chunk, or there is none.
  pub round_bytes :
      (m ≡ length buf) ⊎ (lo + m ≡ 1024 × u ≡ 1024)
      → take u (take lo bytes ++ take m buf ++ drop (lo + length (take m buf)) bytes)
          ++ (drop m buf ++ drop (length (drop m buf)) rest)
        ≡ take lo (take u bytes ++ rest) ++ buf ++ drop (lo + length buf) (take u bytes ++ rest)
  round_bytes (inl e) =
      let none_left : drop m buf ≡ [] = drop_all m buf (omega arith) in
      let whole : take m buf ≡ buf = take_all buf (omega arith) in
      let behind : drop (lo + length buf) (take u bytes ++ rest)
          ≡ take (u - (lo + m)) (drop (lo + m) bytes) ++ rest =
        drop-append_le (lo + length buf) (take u bytes) rest (omega (arith, size_u))
        ∙ ap (λ zs. zs ++ rest) (drop-take (lo + length buf) u bytes)
        ∙ ap (λ n. take (u - (lo + n)) (drop (lo + n) bytes) ++ rest) (sym e) in
      rw (front_part, take_part, behind, none_left, whole)
        (append_assoc (take lo bytes ++ buf) (take (u - (lo + m)) (drop (lo + m) bytes)) rest)
  round_bytes (inr (full, e)) =
      let gone : u - (lo + m) ≡ 0 = omega arith in
      let none_left : take (u - (lo + m)) (drop (lo + m) bytes) ≡ [] =
        ap (λ n. take n (drop (lo + m) bytes)) gone in
      let past : lo + length buf - length (take u bytes) ≡ length (drop m buf) =
        omega (arith, size_u, length-drop m buf) in
      let behind : drop (lo + length buf) (take u bytes ++ rest) ≡ drop (length (drop m buf)) rest =
        drop-append_ge (lo + length buf) (take u bytes) rest (omega (arith, size_u))
        ∙ ap (λ n. drop n rest) past in
      let tail : List ℕ = drop (length (drop m buf)) rest in
      let xs : List ℕ = take lo bytes ++ take m buf in
      let whole : xs ++ drop m buf ≡ take lo bytes ++ buf =
        append_assoc (take lo bytes) (take m buf) (drop m buf)
        ∙ ap (◌++◌ (take lo bytes)) (take-append-drop m buf) in
      rw (front_part, take_part, behind, none_left)
        (ap (λ zs. zs ++ (drop m buf ++ tail)) (append-nil xs)
          ∙ sym (append_assoc xs (drop m buf) tail)
          ∙ ap (λ zs. zs ++ tail) whole)

pub zero_plus : (n : ℕ) → 0 + n ≡ n
zero_plus n = omega arith

plus_zero : (n : ℕ) → n + 0 ≡ n
plus_zero n = omega arith

pub no_bytes : (xs : List ℕ) (lo : ℕ) → xs ≡ take lo xs ++ [] ++ drop (lo + 0) xs
no_bytes xs lo = sym (
    ap (λ zs. zs ++ drop (lo + 0) xs) (append-nil (take lo xs))
    ∙ ap (λ n. take lo xs ++ drop n xs) (plus_zero lo)
    ∙ take-append-drop lo xs)

-- A full chunk that the skip loop passes, and what the rest of the run comes to.
pub behind_bytes :
    (xs ys buf : List ℕ) (i : ℕ)
    → length xs ≡ 1024
    → 1024 ≤ i
    → xs ++ (take (i - 1024) ys ++ buf ++ drop (i - 1024 + length buf) ys)
      ≡ take i (xs ++ ys) ++ buf ++ drop (i + length buf) (xs ++ ys)
behind_bytes xs ys buf i size far =
    let front : take i (xs ++ ys) ≡ xs ++ take (i - 1024) ys =
      take-append_self xs ys i (omega arith) ∙ ap (λ n. xs ++ take (i - n) ys) size in
    let past : i + length buf - length xs ≡ i - 1024 + length buf = omega arith in
    let back : drop (i + length buf) (xs ++ ys) ≡ drop (i - 1024 + length buf) ys =
      drop-append_ge (i + length buf) xs ys (omega arith) ∙ ap (λ n. drop n ys) past in
    let tail : List ℕ = drop (i - 1024 + length buf) ys in
    rw (front, back)
      (sym (append_assoc xs (take (i - 1024) ys ++ buf) tail)
        ∙ ap (λ zs. zs ++ tail) (sym (append_assoc xs (take (i - 1024) ys) buf)))

pub same_length :
    (xs buf : List ℕ) (i : ℕ)
    → i + length buf ≤ length xs
    → length (take i xs ++ buf ++ drop (i + length buf) xs) ≡ length xs
same_length xs buf i h =
    length-append (take i xs ++ buf) (drop (i + length buf) xs)
    ∙ omega
        (arith, length-append (take i xs) buf, length-take i xs, length-drop (i + length buf) xs)

pub middle :
    (xs buf : List ℕ) (i : ℕ)
    → i + length buf ≤ length xs
    → take (length buf) (drop i (take i xs ++ buf ++ drop (i + length buf) xs)) ≡ buf
middle xs buf i inside =
    let size = length-take i xs in
    let ahead : i - length (take i xs) ≡ 0 = omega arith in
    let one =
      drop-append_le i (take i xs ++ buf) (drop (i + length buf) xs)
        (omega (arith, length-append (take i xs) buf)) in
    let two : drop i (take i xs ++ buf) ≡ buf =
      drop-append_ge i (take i xs) buf (omega arith) ∙ ap (λ n. drop n buf) ahead in
    rw (one, two)
      (take-append_le (length buf) buf (drop (i + length buf) xs) (omega arith)
        ∙ take_all buf (omega arith))
