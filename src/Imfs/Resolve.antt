-- ===== src/Imfs/Resolve.antt =====
-- Path resolution of rust-grates/imfs-grate/src/imfs/mod.rs: the walk down the node tree, links
-- followed. `none` stands for a panic or a loop that does not end.
use lind_wasm_example_grates.Base.{
  ℕ, zero, suc, Bool, true, not, ◌&&◌, Option, none, some, List, [], ◌∷◌, length, get_elem?,
  reverse, eqb, if◌then◌else◌, text_key, nat_key,
}
use lind_wasm_example_grates.Base.Words.{ℤ, neg}
use lind_wasm_example_grates.Base.Dict.{get}
use lind_wasm_example_grates.Path.Text.{Text, slash, join, is_empty}
use lind_wasm_example_grates.Imfs.Paths.{normalize_path_from_base, components}
use lind_wasm_example_grates.Imfs.Node.{hardlink_target, symlink_target}
use lind_wasm_example_grates.Imfs.Chunks.{◌>>=◌}
use lind_wasm_example_grates.Imfs.State.{ImfsState, lookup_child, is_dir_node}

-- Result<A, i32>
pub data Result {ℓ} (A : Type ℓ) : Type ℓ where
  ok : A → Result A
  err : ℤ → Result A

abbrev pub enoent : ℤ
enoent = neg 2

abbrev pub enotdir : ℤ
enotdir = neg 20

abbrev pub eloop : ℤ
eloop = neg 40

abbrev pub or_root : Option Text → Text
or_root none = slash ∷ []
or_root (some cwd) = cwd

-- `normalize_path_for_cage` goes on as `normalize_path_from_base` does.
unfoldable pub normalize_path_for_cage : ImfsState → ℕ → Text → Text
normalize_path_for_cage s cage_id path =
    normalize_path_from_base (or_root (get s.cwd_info cage_id)) path

-- Each round goes to the parent; the number of nodes is enough where the parents lead to the root.
unfoldable pub names_up : ℕ → ImfsState → ℕ → Option (List Text)
names_up zero s current = if eqb current s.root_idx then some [] else none
names_up (suc fuel) s current = if eqb current s.root_idx then some [] else (do
  n ← get_elem? s.nodes current
  rest ← names_up fuel s n.parent_idx
  some (n.name ∷ rest))

unfoldable pub absolute_path_for_node : ImfsState → ℕ → Option Text
unfolding names_up
absolute_path_for_node s node_idx = do
  parts ← names_up (length s.nodes) s node_idx
  some (slash ∷ join (reverse parts))

-- Where a round of the walk goes: to a node, or to another path, which is resolved from the root.
pub data Step : Type 0 where
  at_node : ℕ → Step
  at_path : Text → Step

unfoldable pub through_symlink : ImfsState → ℕ → List Text → Text → Option Step
through_symlink s current remaining target = do
  parent_path ← absolute_path_for_node s current
  let resolved = normalize_path_from_base parent_path target
  some (
      at_path (
        if is_empty remaining
        then resolved
        else normalize_path_from_base resolved (join remaining)))

unfoldable pub follow : ImfsState → ℕ → List Text → ℕ → Option ℕ → Option Text → Option Step
unfolding through_symlink
follow s current remaining entry_idx (some target) symlink = some (at_node target)
follow s current remaining entry_idx none (some target) = through_symlink s current remaining target
follow s current remaining entry_idx none none = some (at_node entry_idx)

-- The final component is not followed unless `follow_final` says so.
unfoldable pub enter : ImfsState → Bool → ℕ → List Text → Option ℕ → Option (Result Step)
unfolding follow
enter s follow_final current remaining none = some (err enoent)
enter s follow_final current remaining (some entry_idx) =
    if is_empty remaining && not follow_final then some (ok (at_node entry_idx)) else (do
      n ← get_elem? s.nodes entry_idx
      step ← follow s current remaining entry_idx (hardlink_target n.info) (symlink_target n.info)
      some (ok step))

unfoldable pub walk_step : ImfsState → Bool → ℕ → Text → List Text → Option (Result Step)
unfolding enter
walk_step s follow_final current component remaining = do
  n ← get_elem? s.nodes current
  (if is_dir_node n.node_type
      then (do
        found ← lookup_child s current component
        enter s follow_final current remaining found)
      else some (err enotdir))

-- The walk ends at a node or an error, or goes on with the path of a symbolic link.
unfoldable pub walk_components : ImfsState → Bool → ℕ → List Text → Option (Result Step)
unfolding walk_step
walk_components s follow_final current [] = some (ok (at_node current))
walk_components s follow_final current (component ∷ remaining) = do
  r ← walk_step s follow_final current component remaining
  let on : ℕ → Option (Result Step) = λ next. walk_components s follow_final next remaining
  (elim r [
    | ok (at_node next) ↦ on next
    | ok (at_path p) ↦ some (ok (at_path p))
    | err e ↦ some (err e)
  ])

-- `depths` counts down from 41, so that it is spent when `depth > 40`.
unfoldable pub resolve_path_inner : ℕ → ImfsState → Text → Bool → Option (Result ℕ)
unfolding walk_components
resolve_path_inner zero s path follow_final = some (err eloop)
resolve_path_inner (suc depths) s path follow_final = do
  r ← walk_components s follow_final s.root_idx (components path)
  let on : Text → Option (Result ℕ) = λ p. resolve_path_inner depths s p follow_final
  (elim r [
    | ok (at_node current) ↦ some (ok current)
    | ok (at_path p) ↦ on p
    | err e ↦ some (err e)
  ])

abbrev pub max_depths : ℕ
max_depths = 41

unfoldable pub resolve_path : ImfsState → Text → Bool → Option (Result ℕ)
resolve_path s path follow_final = resolve_path_inner max_depths s path follow_final

unfoldable pub last : List Text → Option Text
last [] = none
last (w ∷ []) = some w
last (w ∷ w' ∷ ws) = last (w' ∷ ws)

unfoldable pub init_of : List Text → List Text
init_of [] = []
init_of (w ∷ []) = []
init_of (w ∷ w' ∷ ws) = w ∷ init_of (w' ∷ ws)

unfoldable pub parent_of : ImfsState → List Text → Text → Option (Result (ℕ × Text))
parent_of s [] filename = some (ok (s.root_idx, filename))
parent_of s (w ∷ ws) filename = do
  r ← resolve_path s (slash ∷ join (w ∷ ws)) true
  (elim r [
    | err e ↦ some (err e)
    | ok parent_idx ↦ (do
      n ← get_elem? s.nodes parent_idx
      some (if is_dir_node n.node_type then ok (parent_idx, filename) else err enotdir))
  ])

unfoldable pub resolve_parent_and_name : ImfsState → Text → Option (Result (ℕ × Text))
unfolding last init_of parent_of
resolve_parent_and_name s path =
    let parts = components path in
    elim (last parts) [
      | none ↦ some (err enoent)
      | some filename ↦ parent_of s (init_of parts) filename
    ]
