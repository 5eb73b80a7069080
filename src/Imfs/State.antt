-- ===== src/Imfs/State.antt =====
-- The node tree of rust-grates/imfs-grate/src/imfs/mod.rs: node slots, directory entries and the
-- reclaiming of what is no longer linked. `none` stands for a panic: a slot out of range, or
-- `children` of a node that is no directory.
use lind_wasm_example_grates.Base.{
  ℕ, suc, ◌+◌, Bool, true, false, ◌||◌, Option, none, some, List, [], ◌∷◌, ◌++◌, length, get_elem?,
  set, eqb, ltb, if◌then◌else◌, ◌==◌, text_key, nat_key, pair_key,
}
use lind_wasm_example_grates.Base.Words.{ℤ}
use lind_wasm_example_grates.Base.Dict.{Dict}
use lind_wasm_example_grates.Path.Text.{Text}
use lind_wasm_example_grates.Path.Components.{dot, dotdot}
use lind_wasm_example_grates.Imfs.Node.{
  Node, NodeType, NodeInfo, DirEntry, dir_info, hard_link, reg_info, free_info, new_node, now,
  children_of, hardlink_target,
}
use lind_wasm_example_grates.Imfs.Chunks.{ChunkStore, ◌>>=◌, reclaim_chunk_chain}

pub record FdInfo : Type 0 where
  pub flags : ℕ
  pub offset : ℤ

-- `fd_info` holds places in `fd_heap`, since descriptors share one FdInfo after `dup` and `fork`.
pub record ImfsState : Type 0 where
  pub nodes : List Node
  pub store : ChunkStore
  pub node_free_list : List ℕ
  pub root_idx : ℕ
  pub fd_info : Dict (ℕ × ℕ) ℕ
  pub fd_heap : List FdInfo
  pub cwd_info : Dict ℕ Text

unfoldable pub put_node : ImfsState → ℕ → Node → Option ImfsState
put_node s i n =
    if ltb i (length s.nodes) then some (record s { nodes = set s.nodes i n }) else none

unfoldable pub update_ctime : ImfsState → ℕ → Option ImfsState
update_ctime s i = do n ← get_elem? s.nodes i; put_node s i (record n { ctime = now })

unfoldable pub update_mtime : ImfsState → ℕ → Option ImfsState
update_mtime s i = do n ← get_elem? s.nodes i; put_node s i (record n { mtime = now })

unfoldable pub create_in : ImfsState → List ℕ → Text → NodeType → ℕ → Option (ℕ × ImfsState)
create_in s [] name node_type mode =
    let idx = length s.nodes in
    some (idx, record s { nodes = s.nodes ++ new_node idx name node_type mode ∷ [] })
create_in s (free_idx ∷ free) name node_type mode = do
  s' ←
      put_node (record s { node_free_list = free }) free_idx (new_node free_idx name node_type mode)
  some (free_idx, s')

unfoldable pub create_node : ImfsState → Text → NodeType → ℕ → Option (ℕ × ImfsState)
unfolding create_in
create_node s name node_type mode = create_in s s.node_free_list name node_type mode

-- nodes[i].children_mut() = children
unfoldable pub put_children : ImfsState → ℕ → List DirEntry → Option ImfsState
put_children s i children = do
  n ← get_elem? s.nodes i
  put_node s i (record n { info = dir_info children })

unfoldable pub children : ImfsState → ℕ → Option (List DirEntry)
children s i = do n ← get_elem? s.nodes i; children_of n.info

unfoldable pub add_child : ImfsState → ℕ → ℕ → Option ImfsState
unfolding put_children children
add_child s parent_idx child_idx = do
  child ← get_elem? s.nodes child_idx
  entries ← children s parent_idx
  s' ←
      put_children s parent_idx (entries ++ record { name = child.name; node_idx = child_idx } ∷ [])
  child' ← get_elem? s'.nodes child_idx
  put_node s' child_idx (record child' { parent_idx = parent_idx })

unfoldable pub retain_names : Text → List DirEntry → List DirEntry
retain_names name [] = []
retain_names name (e ∷ es) =
    let rest = retain_names name es in if e.name == name then rest else e ∷ rest

unfoldable pub remove_child : ImfsState → ℕ → Option ImfsState
unfolding put_children children retain_names
remove_child s node_idx = do
  n ← get_elem? s.nodes node_idx
  entries ← children s n.parent_idx
  put_children s n.parent_idx (retain_names n.name entries)

unfoldable pub find_entry : Text → List DirEntry → Option ℕ
find_entry name [] = none
find_entry name (e ∷ es) =
    let rest = find_entry name es in if e.name == name then some e.node_idx else rest

unfoldable pub lookup_child : ImfsState → ℕ → Text → Option (Option ℕ)
unfolding children find_entry
lookup_child s parent_idx name = do entries ← children s parent_idx; some (find_entry name entries)

abbrev pub is_dir_node : NodeType → Bool
is_dir_node NodeType.dir = true
is_dir_node _ = false

abbrev pub is_own_entry : Text → Bool
is_own_entry name = name == dot || name == dotdot

-- The subdirectories among the entries, `.` and `..` left out.
unfoldable pub count_dirs : ImfsState → List DirEntry → Option ℕ
count_dirs s [] = some 0
count_dirs s (e ∷ es) = do
  rest ← count_dirs s es
  (if is_own_entry e.name then some rest else (do
    n ← get_elem? s.nodes e.node_idx
    some (if is_dir_node n.node_type then suc rest else rest)))

abbrev pub is_link_to : ℕ → NodeInfo → Bool
is_link_to i (hard_link target) = eqb target i
is_link_to i _ = false

-- The entries that name a node, directly or through a hard link node.
unfoldable pub count_links : ImfsState → ℕ → List DirEntry → Option ℕ
count_links s i [] = some 0
count_links s i (e ∷ es) = do
  rest ← count_links s i es
  (if eqb e.node_idx i then some (suc rest) else (do
    n ← get_elem? s.nodes e.node_idx
    some (if is_link_to i n.info then suc rest else rest)))

abbrev pub entries_of : NodeInfo → List DirEntry
entries_of (dir_info es) = es
entries_of _ = []

unfoldable pub all_entries : List Node → List DirEntry
all_entries [] = []
all_entries (n ∷ ns) = entries_of n.info ++ all_entries ns

unfoldable pub count_for : ImfsState → ℕ → NodeInfo → Option ℕ
unfolding count_dirs count_links all_entries
count_for s i (dir_info es) = do child_dirs ← count_dirs s es; some (2 + child_dirs)
count_for s i _ = count_links s i (all_entries s.nodes)

unfoldable pub link_count : ImfsState → ℕ → Option ℕ
unfolding count_for
link_count s i = do n ← get_elem? s.nodes i; count_for s i n.info

abbrev pub head_of : NodeInfo → Option ℕ
head_of (reg_info head tail) = head
head_of _ = none

unfoldable pub reclaim_node : ImfsState → ℕ → Option ImfsState
reclaim_node s i = do
  n ← get_elem? s.nodes i
  store' ← reclaim_chunk_chain s.store (head_of n.info)
  s' ←
      put_node (record s { store = store' }) i
        (record n { node_type = NodeType.free; info = free_info })
  some (record s' { node_free_list = i ∷ s'.node_free_list })

-- With no link left the node is doomed, and its slot is free at once unless it is open.
unfoldable pub doom : ImfsState → ℕ → Option ImfsState
unfolding link_count reclaim_node
doom s i = do
  links ← link_count s i
  n ← get_elem? s.nodes i
  (if eqb links 0
      then (do
        s' ← put_node s i (record n { doomed = true })
        (if eqb n.in_use 0 then reclaim_node s' i else some s'))
      else some s)

unfoldable pub unlink_as : ImfsState → ℕ → Option ℕ → Option ImfsState
unfolding doom
unlink_as s i none = doom s i
unlink_as s i (some target) = do
  s' ← update_ctime s target
  s'' ← doom s' target
  reclaim_node s'' i

unfoldable pub unlink_node : ImfsState → ℕ → Option ImfsState
unfolding unlink_as
unlink_node s i = do n ← get_elem? s.nodes i; unlink_as s i (hardlink_target n.info)
