-- ===== src/Path/Components.antt =====
-- The component loop that the grates' path normalisers share: `""` and `"."` are skipped, `".."`
-- drops the last component, and any other component is pushed. The head of a stack is the end of
-- the source's `Vec`.
pub mod Laws
use lind_wasm_example_grates.Base.{
  ℕ, Bool, ◌||◌, List, [], ◌∷◌, reverse, if◌then◌else◌, ◌==◌, text_key,
}
use lind_wasm_example_grates.Path.Text.{Text, slash, join}

abbrev pub dot : Text
dot = b'.' ∷ []

abbrev pub dotdot : Text
dotdot = b'.' ∷ b'.' ∷ []

-- components.pop()
abbrev pub pop : List Text → List Text
pop [] = []
pop (w ∷ ws) = ws

abbrev pub is_skipped : Text → Bool
is_skipped w = w == [] || w == dot

-- one round of the loop
unfoldable pub component_step : List Text → Text → List Text
component_step st w = if is_skipped w then st else if w == dotdot then pop st else w ∷ st

unfoldable pub walk : List Text → List Text → List Text
walk st [] = st
walk st (w ∷ ws) = walk (component_step st w) ws

-- format!("/{}", components.join("/"))
unfoldable pub absolute : List Text → Text
absolute st = slash ∷ join (reverse st)
