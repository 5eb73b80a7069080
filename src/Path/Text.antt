-- ===== src/Path/Text.antt =====
-- Rust's `str` functions that the grates' path code calls, on lists of code points.
use Prim.Native.Char.{code}
use Prim.Native.String.{String}
use lind_wasm_example_grates.Base.{
  ℕ, ◌≡◌, refl, ◌≢◌, Bool, true, false, ◌&&◌, Option, none, some, List, [], ◌∷◌, ◌++◌, arith, eqb,
  if◌then◌else◌,
}

abbrev pub Text : Type 0
Text = List ℕ

-- The code points of a literal.
abbrev pub text : String → Text
text String.[] = []
text (String.◌∷◌ c s) = code c ∷ text s

abbrev pub slash : ℕ
slash = b'/'

-- `push_front x (w :: ws)` puts one character in front of the first piece.
abbrev pub push_front : ℕ → List Text → List Text
push_front x [] = (x ∷ []) ∷ []
push_front x (w ∷ ws) = (x ∷ w) ∷ ws

-- s.split('/'): the empty text has one piece, which is empty.
unfoldable pub split : Text → List Text
split [] = [] ∷ []
split (x ∷ xs) = let rest = split xs in if eqb x slash then [] ∷ rest else push_front x rest

-- ws.join("/")
unfoldable pub join : List Text → Text
join [] = []
join (w ∷ []) = w
join (w ∷ v ∷ ws) = w ++ slash ∷ join (v ∷ ws)

abbrev pub is_empty {ℓ} : {A : Type ℓ} → List A → Bool
is_empty [] = true
is_empty (x ∷ xs) = false

-- s.trim_end_matches('/')
unfoldable pub trim_end : Text → Text
trim_end [] = []
trim_end (x ∷ xs) = let rest = trim_end xs in if eqb x slash && is_empty rest then [] else x ∷ rest

-- s.strip_prefix(p)
unfoldable pub strip_prefix : Text → Text → Option Text
strip_prefix s [] = some s
strip_prefix [] (p ∷ ps) = none
strip_prefix (x ∷ xs) (p ∷ ps) = let rest = strip_prefix xs ps in if eqb x p then rest else none

-- s.starts_with(p)
unfoldable pub starts_with : Text → Text → Bool
starts_with s [] = true
starts_with [] (p ∷ ps) = false
starts_with (x ∷ xs) (p ∷ ps) = eqb x p && starts_with xs ps

-- s.starts_with('/')
abbrev pub is_absolute : Text → Bool
is_absolute [] = false
is_absolute (x ∷ xs) = eqb x slash

pub strip_prefix-append : (p s : Text) → strip_prefix (p ++ s) p ≡ some s
unfolding strip_prefix
strip_prefix-append [] s = refl
strip_prefix-append (p ∷ ps) s = ground (arith, strip_prefix-append ps s)

pub starts_with-append : (p s : Text) → starts_with (p ++ s) p ≡ true
unfolding starts_with
starts_with-append [] s = refl
starts_with-append (p ∷ ps) s = ground (arith, starts_with-append ps s)

-- A piece of a path: a text with no slash in it.
abbrev pub NoSlash : Text → Type 0
NoSlash [] = Unit
NoSlash (x ∷ xs) = (x ≢ slash) × NoSlash xs

split_ne_nil : (s : Text) → split s ≢ []
unfolding split
split_ne_nil [] e = cc
split_ne_nil (x ∷ xs) e = ground (arith, split_ne_nil xs)

-- A slash between two texts cuts between their pieces.
pub split-append : (s t : Text) → split (s ++ slash ∷ t) ≡ split s ++ split t
unfolding split
split-append [] t = refl
split-append (x ∷ xs) t = ground (arith, split-append xs t, split_ne_nil xs)

pub split_piece : (w : Text) → NoSlash w → split w ≡ w ∷ []
unfolding split
split_piece [] h = refl
split_piece (x ∷ xs) h = ground (arith, split_piece xs h.1)
