-- ===== src/Imfs/Tree.antt =====
-- Directory entries of rust-grates/imfs-grate/src/imfs/mod.rs: what a lookup finds after an entry
-- is added or removed, and what `unlink_node` does to a directory.
use lind_wasm_example_grates.Base.{
  ℕ, ◌+◌, ◌<◌, false, Option, none, some, List, [], ◌∷◌, ◌++◌, length, get_elem?, set, eqb, ltb,
  if◌then◌else◌, ◌==◌, text_key, Bool-cases, Option-cases, none≢some, ◌≡◌, ◌≢◌, refl, sym, ap, ◌∙◌,
  inl, inr, get_elem?-set_self, get_elem?-set_ne, arith,
}
use lind_wasm_example_grates.Path.Text.{Text}
use lind_wasm_example_grates.Imfs.Node.{Node, DirEntry, dir_info}
use lind_wasm_example_grates.Imfs.Chunks.{◌>>=◌}
use lind_wasm_example_grates.Imfs.State.{
  ImfsState, put_node, put_children, children, add_child, remove_child, retain_names, find_entry,
  lookup_child, unlink_node, unlink_as, doom, link_count, count_for, count_dirs,
}

abbrev pub or_else {ℓ} : {A : Type ℓ} → Option A → Option A → Option A
or_else none o = o
or_else (some a) o = some a

put_node-nodes :
    (s s' : ImfsState) (i : ℕ) (n : Node)
    → put_node s i n ≡ some s'
    → (i < length s.nodes) × s'.nodes ≡ set s.nodes i n
unfolding put_node
put_node-nodes s s' i n eq = elim (Bool-cases (ltb i (length s.nodes))) [
  | inl e ↦ (ground arith, ground arith)
  | inr e ↦ ground arith
]

find_entry-retain_names :
    (name other : Text) (es : List DirEntry)
    → find_entry other (retain_names name es)
      ≡ (if other == name then none else find_entry other es)
unfolding find_entry retain_names
find_entry-retain_names name other [] = ground arith
find_entry-retain_names name other (e ∷ es) = ground (
  arith,
  find_entry-retain_names name other es,
  text_key.same_iff e.name name,
  text_key.same_iff e.name other,
  text_key.same_iff other name,
)

children-put_children :
    (s s' : ImfsState) (i : ℕ) (es : List DirEntry)
    → put_children s i es ≡ some s'
    → children s' i ≡ some es
unfolding put_children children
children-put_children s s' i es eq = elim (Option-cases (get_elem? s.nodes i)) [
  | inl e ↦ absurd (ground arith)
  | inr (n, e) ↦
      (let n' : Node = record n { info = dir_info es } in
        let step : put_children s i es ≡ put_node s i n' = rw e refl in
        let (near, nodes) = put_node-nodes s s' i n' (sym step ∙ eq) in
        rw (nodes, get_elem?-set_self s.nodes i n' near) refl)
]

-- After remove_child the directory has no entry of the name of the node, and a lookup of another
-- name finds what it found before.
pub lookup_child-remove_child :
    (s s' : ImfsState) (i : ℕ) (n : Node) (es : List DirEntry) (name : Text)
    → get_elem? s.nodes i ≡ some n
    → children s n.parent_idx ≡ some es
    → remove_child s i ≡ some s'
    → lookup_child s' n.parent_idx name ≡ some (if name == n.name then none else find_entry name es)
unfolding remove_child lookup_child
lookup_child-remove_child s s' i n es name at_i dir eq =
    let step : remove_child s i ≡ put_children s n.parent_idx (retain_names n.name es) =
      rw (at_i, dir) refl in
    let after = children-put_children s s' n.parent_idx (retain_names n.name es) (sym step ∙ eq) in
    rw after (ap some (find_entry-retain_names n.name name es))

find_entry-append :
    (name : Text) (es : List DirEntry) (e : DirEntry)
    → find_entry name (es ++ e ∷ [])
      ≡ or_else (find_entry name es) (if e.name == name then some e.node_idx else none)
unfolding find_entry
find_entry-append name [] e = refl
find_entry-append name (d ∷ es) e = ground (arith, find_entry-append name es e)

-- The last change of `add_child`.
set_parent : ImfsState → ℕ → ℕ → Option ImfsState
set_parent t c p = do child' ← get_elem? t.nodes c; put_node t c (record child' { parent_idx = p })

children-set_parent :
    (t t' : ImfsState) (c p i : ℕ)
    → c ≢ i
    → set_parent t c p ≡ some t'
    → children t' i ≡ children t i
unfolding set_parent children
children-set_parent t t' c p i apart eq = elim (Option-cases (get_elem? t.nodes c)) [
  | inl e ↦ absurd (ground arith)
  | inr (m, e) ↦
      (let m' : Node = record m { parent_idx = p } in
        let step : set_parent t c p ≡ put_node t c m' = rw e refl in
        let (near, nodes) = put_node-nodes t t' c m' (sym step ∙ eq) in
        rw (nodes, get_elem?-set_ne t.nodes c i m' apart) refl)
]

-- After add_child of a node to another node, a directory, a lookup there finds what it found
-- before, or else the child if the name is its own.
pub lookup_child-add_child :
    (s s' : ImfsState) (p c : ℕ) (n : Node) (es : List DirEntry) (name : Text)
    → p ≢ c
    → get_elem? s.nodes c ≡ some n
    → children s p ≡ some es
    → add_child s p c ≡ some s'
    → lookup_child s' p name
      ≡ some (or_else (find_entry name es) (if n.name == name then some c else none))
unfolding add_child lookup_child set_parent
lookup_child-add_child s s' p c n es name apart at_c dir eq =
    let e : DirEntry = record { name = n.name; node_idx = c } in
    elim (Option-cases (put_children s p (es ++ e ∷ []))) [
      | inl none_eq ↦ absurd (none≢some (sym (rw (at_c, dir, none_eq) refl) ∙ eq))
      | inr (t, put) ↦
          (let step : add_child s p c ≡ set_parent t c p = rw (at_c, dir, put) refl in
            let kept = children-set_parent t s' c p p (λ q. apart (sym q)) (sym step ∙ eq) in
            rw (kept, children-put_children s t p (es ++ e ∷ []) put)
              (ap some (find_entry-append name es e)))
    ]

-- unlink_node of a directory node whose entries name nodes in range changes nothing, so the slot
-- of the node is not reclaimed.
pub unlink_node_keeps_directories :
    (s : ImfsState) (i : ℕ) (n : Node) (es : List DirEntry) (dirs : ℕ)
    → get_elem? s.nodes i ≡ some n
    → n.info ≡ dir_info es
    → count_dirs s es ≡ some dirs
    → unlink_node s i ≡ some s
unfolding unlink_node unlink_as doom link_count count_for
unlink_node_keeps_directories s i n es dirs at_i dir count =
    let links : eqb (2 + dirs) 0 ≡ false = ground arith in
    rw (at_i, dir, at_i, dir, count, links) refl
