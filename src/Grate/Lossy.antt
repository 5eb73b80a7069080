-- ===== src/Grate/Lossy.antt =====
-- `String::from_utf8_lossy` of a path that a handler copied from a cage: each longest part of the
-- bytes that begins a character and does not go on as one becomes U+FFFD.
use lind_wasm_example_grates.Base.{
  ℕ, zero, suc, ◌+◌, ◌-◌, ◌*◌, ◌&&◌, true, false, none, some, List, [], ◌∷◌, leb, eqb,
  if◌then◌else◌,
}
use lind_wasm_example_grates.Path.Text.{Text}
use lind_wasm_example_grates.Grate.Utf8.{lead}

abbrev pub replacement : ℕ
replacement = 0xFFFD

-- The least and the greatest byte that may follow the first one.
abbrev second_from : ℕ → ℕ
second_from b = if eqb b 0xE0 then 0xA0 else if eqb b 0xF0 then 0x90 else 0x80

abbrev second_to : ℕ → ℕ
second_to b = if eqb b 0xED then 0x9F else if eqb b 0xF4 then 0x8F else 0xBF

-- A first byte, with what the rest of the bytes gives when so many more are due.
abbrev first_byte : ℕ → (ℕ → ℕ → ℕ → ℕ → Text) → Text
first_byte b rest = elim (lead b) [
  | none ↦ replacement ∷ rest 0 0 0 0
  | some (n, bits, least) ↦ elim n [
    | zero ↦ bits ∷ rest 0 0 0 0
    | suc k ↦ rest (suc k) bits (second_from b) (second_to b)
  ]
]

-- `more` bytes of the character `c` are still to come, the next one between `from` and `to`.
unfoldable pub lossy : ℕ → ℕ → ℕ → ℕ → List ℕ → Text
unfolding lead
lossy zero c from to [] = []
lossy (suc more) c from to [] = replacement ∷ []
lossy zero c from to (b ∷ bs) = first_byte b (λ m d f t. lossy m d f t bs)
lossy (suc more) c from to (b ∷ bs) = elim (leb from b && leb b to) [
  | false ↦ replacement ∷ first_byte b (λ m d f t. lossy m d f t bs)
  | true ↦ elim more [
    | zero ↦ (c * 64 + (b - 0x80)) ∷ lossy 0 0 0 0 bs
    | suc k ↦ lossy (suc k) (c * 64 + (b - 0x80)) 0x80 0xBF bs
  ]
]

unfoldable pub from_utf8_lossy : List ℕ → Text
unfolding lossy
from_utf8_lossy = lossy 0 0 0 0
