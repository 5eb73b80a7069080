-- ===== src/Grate/Utf8.antt =====
-- `String::from_utf8` of a path that a handler copied from a cage.
use lind_wasm_example_grates.Base.{
  ℕ, zero, suc, ◌+◌, ◌-◌, ◌*◌, ◌/◌, ◌%◌, ◌++◌, Bool, true, false, not, ◌&&◌, Option, none, some,
  List, [], ◌∷◌, ltb, leb, eqb, if◌then◌else◌,
}
use lind_wasm_example_grates.Path.Text.{Text}

-- What the first byte of a character says: the bytes that follow, its own bits, and the least
-- character of this length.
unfoldable pub lead : ℕ → Option (ℕ × ℕ × ℕ)
lead b =
    if ltb b 0x80
    then some (0, b, 0)
    else if leb 0xC2 b && ltb b 0xE0
    then some (1, b - 0xC0, 0x80)
    else if leb 0xE0 b && ltb b 0xF0
    then some (2, b - 0xE0, 0x800)
    else if leb 0xF0 b && ltb b 0xF5
    then some (3, b - 0xF0, 0x10000)
    else none

abbrev pub is_scalar : ℕ → Bool
is_scalar c = ltb c 0x110000 && not (leb 0xD800 c && ltb c 0xE000)

abbrev push_char : ℕ → Option Text → Option Text
push_char c none = none
push_char c (some t) = some (c ∷ t)

-- The text from here on: `more` bytes of the character `c` are still to come, and `least` bounds it
-- from below.
unfoldable pub decode : ℕ → ℕ → ℕ → List ℕ → Option Text
unfolding lead
decode zero c least [] = some []
decode (suc more) c least [] = none
decode zero c least (b ∷ bs) = elim (lead b) [
  | none ↦ none
  | some (n, bits, l) ↦ elim n [
    | zero ↦ push_char bits (decode 0 0 0 bs)
    | suc k ↦ decode (suc k) bits l bs
  ]
]
decode (suc more) c least (b ∷ bs) =
    let bits = c * 64 + (b - 0x80) in
    elim (leb 0x80 b && ltb b 0xC0) [
      | false ↦ none
      | true ↦ elim more [
        | zero ↦ if leb least bits && is_scalar bits then push_char bits (decode 0 0 0 bs) else none
        | suc k ↦ decode (suc k) bits least bs
      ]
    ]

unfoldable pub from_utf8 : List ℕ → Option Text
unfolding decode
from_utf8 = decode 0 0 0

-- `buf[..len]` up to the first zero byte, or all of it
unfoldable pub before_nul : List ℕ → List ℕ
before_nul [] = []
before_nul (b ∷ bs) = let rest = before_nul bs in if eqb b 0 then [] else b ∷ rest

-- The bytes of a character.
unfoldable pub encode_char : ℕ → List ℕ
encode_char c =
    if ltb c 0x80
    then c ∷ []
    else if ltb c 0x800
    then (0xC0 + c / 64) ∷ (0x80 + c % 64) ∷ []
    else if ltb c 0x10000
    then (0xE0 + c / 4096) ∷ (0x80 + c / 64 % 64) ∷ (0x80 + c % 64) ∷ []
    else (0xF0 + c / 262144) ∷ (0x80 + c / 4096 % 64) ∷ (0x80 + c / 64 % 64) ∷ (0x80 + c % 64) ∷ []

-- s.as_bytes()
unfoldable pub to_utf8 : Text → List ℕ
unfolding encode_char
to_utf8 [] = []
to_utf8 (c ∷ t) = encode_char c ++ to_utf8 t
