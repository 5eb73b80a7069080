-- ===== src/Imfs/Tests.antt =====
-- Runs of the file system of rust-grates/imfs-grate at concrete states.
use lind_wasm_example_grates.Imfs.Chunks.{
  truncate_chain, skip_write, write_chain, read_chain, skip_read, slice, put_chunk,
  reclaim_chunk_chain, reclaim_chain, reclaim_chunk, chunk_for_write, alloc_chunk, link_tail,
  write_round, write_chunk, zero_fill, splice, end_at,
}
use lind_wasm_example_grates.Imfs.Node.{new_chunk}
use lind_wasm_example_grates.Imfs.State.{
  add_child, remove_child, put_children, put_node, retain_names, count_dirs, unlink_node,
}
use lind_wasm_example_grates.Imfs.Fds.{fork, set_offset, get_offset, share_all}
use lind_wasm_example_grates.Base.Dict.{insert, remove}
use lind_wasm_example_grates.Imfs.Act.{with_path, ◌>>=◌, fail_if, return, ask, fail, need}
use lind_wasm_example_grates.Imfs.Resolve.{
  normalize_path_for_cage, resolve_parent_and_name, resolve_path, resolve_path_inner, last, init_of,
  parent_of, walk_components, walk_step, enter, follow,
}
use lind_wasm_example_grates.Imfs.Paths.{normalize_path_from_base, nonempty}
use lind_wasm_example_grates.Path.Components.{walk, component_step, absolute}
use lind_wasm_example_grates.Path.Text.{split, join}
use lind_wasm_example_grates.Imfs.State.{lookup_child, find_entry, children}
use lind_wasm_example_grates.Base.Dict.{get}
use lind_wasm_example_grates.Imfs.Fs.{unlink_resolved_path}
use lind_wasm_example_grates.Base.{
  ℕ, false, Option, none, some, List, [], ◌∷◌, ◌++◌, take, drop, replicate, ◌≡◌, refl, inl, inr,
  arith,
}
use lind_wasm_example_grates.Base.Words.{pos, neg}
use lind_wasm_example_grates.Imfs.Node.{
  Chunk, DirEntry, Node, NodeType, NodeInfo, dir_info, reg_info, now,
}
use lind_wasm_example_grates.Imfs.State.{ImfsState}
use lind_wasm_example_grates.Imfs.Resolve.{err}
use lind_wasm_example_grates.Imfs.Fs.{unlink}
use lind_wasm_example_grates.Imfs.Tree.{
  lookup_child-add_child, lookup_child-remove_child, unlink_node_keeps_directories,
}
use lind_wasm_example_grates.Imfs.Sharing.{get_offset-fork}
use lind_wasm_example_grates.Base.{nat_key, pair_key}
use lind_wasm_example_grates.Imfs.Failure.{
  PathCall, to_unlink, run_call, failed_call_changes_nothing,
}
use lind_wasm_example_grates.Imfs.Chunks.{
  ChunkStore, File, read_from_file, write_to_file, truncate_file,
}
use lind_wasm_example_grates.Imfs.Content.{Chain, Filled, content, Holds, read_returns_content}

abbrev full_chunk : Chunk
full_chunk = record { bytes = replicate 1024 7; used = 1024; next = some 0 }

abbrev last_chunk : Chunk
last_chunk = record { bytes = 1 ∷ 2 ∷ replicate 1022 0; used = 2; next = none }

abbrev two_chunks : ChunkStore
two_chunks = record { chunks = last_chunk ∷ full_chunk ∷ []; chunk_free_list = [] }

abbrev two_chunk_file : File
two_chunk_file = record { head = some 1; tail = some 0; total_size = 1026 }

two_chunks-Holds : Holds two_chunks two_chunk_file (full_chunk ∷ last_chunk ∷ [])
unfolding Holds Chain Filled content
two_chunks-Holds = (
  (1, refl, refl, (0, refl, refl, refl)),
  (refl, omega arith, inr refl, (refl, omega arith, inl refl, tt)),
  refl,
)

read_returns_content_example :
    read_from_file two_chunks two_chunk_file 1023 2
    ≡ some (take 2 (drop 1023 (content (full_chunk ∷ last_chunk ∷ []))))
read_returns_content_example =
    read_returns_content two_chunks two_chunk_file (full_chunk ∷ last_chunk ∷ []) 1023 2
      two_chunks-Holds

-- A file system with a directory `d` and a file `f` that is in no directory yet.
abbrev some_node : ℕ → List ℕ → NodeType → NodeInfo → Node
some_node index name node_type info = record {
  node_type = node_type;
  index = index;
  total_size = 0;
  name = name;
  parent_idx = 0;
  in_use = 0;
  doomed = false;
  mode = 0o777;
  owner = 501;
  group = 20;
  info = info;
  ctime = now;
  atime = now;
  mtime = now;
}

abbrev small_state : ImfsState
small_state = record {
  nodes =
      some_node 0 (b'/' ∷ []) NodeType.dir
        (dir_info (record { name = b'd' ∷ []; node_idx = 1 } ∷ []))
      ∷ some_node 1 (b'd' ∷ []) NodeType.dir (dir_info [])
      ∷ some_node 2 (b'f' ∷ []) NodeType.reg (reg_info none none)
      ∷ [];
  store = record { chunks = []; chunk_free_list = [] };
  node_free_list = [];
  root_idx = 0;
  fd_info = ((7, 3), 0) ∷ [];
  fd_heap = record { flags = 2; offset = pos 0 } ∷ [];
  cwd_info = [];
}

abbrev path_f : List ℕ
path_f = b'/' ∷ b'f' ∷ []

abbrev unlink_f : PathCall
unlink_f = to_unlink 7 path_f

no_such_file : run_call unlink_f small_state ≡ some (small_state, err (neg 2))
unfolding unlink with_path ◌>>=◌ fail_if return normalize_path_for_cage normalize_path_from_base
    walk split component_step absolute join ask resolve_parent_and_name nonempty resolve_path
    resolve_path_inner lookup_child get fail need last init_of parent_of walk_components walk_step
    enter follow find_entry children unlink_resolved_path
no_such_file = refl

failed_call_changes_nothing_example : small_state ≡ small_state
failed_call_changes_nothing_example =
    failed_call_changes_nothing unlink_f small_state small_state (neg 2) no_such_file

-- Where the new file goes.
abbrev dir_entries : List DirEntry
dir_entries = record { name = b'd' ∷ []; node_idx = 1 } ∷ []

abbrev the_file : Node
the_file = some_node 2 (b'f' ∷ []) NodeType.reg (reg_info none none)

abbrev the_dir : Node
the_dir = some_node 1 (b'd' ∷ []) NodeType.dir (dir_info [])

abbrev with_f : ImfsState
with_f = record small_state {
  nodes =
      some_node 0 (b'/' ∷ []) NodeType.dir
        (dir_info (dir_entries ++ record { name = b'f' ∷ []; node_idx = 2 } ∷ []))
      ∷ the_dir
      ∷ the_file
      ∷ [];
}

children_eq : children small_state 0 ≡ some dir_entries
unfolding children
children_eq = refl

no_dirs : count_dirs small_state [] ≡ some 0
unfolding count_dirs
no_dirs = refl

opened : get small_state.fd_info (7, 3) ≡ some 0
unfolding get
opened = refl

f_added : add_child small_state 0 2 ≡ some with_f
unfolding add_child children put_children put_node
f_added = refl

lookup_child-add_child_example : lookup_child with_f 0 (b'f' ∷ []) ≡ some (some 2)
unfolding find_entry
lookup_child-add_child_example =
    lookup_child-add_child small_state with_f 0 2 the_file dir_entries (b'f' ∷ [])
      (λ e. omega arith) refl children_eq f_added

abbrev without_d : ImfsState
without_d = record small_state {
  nodes = some_node 0 (b'/' ∷ []) NodeType.dir (dir_info []) ∷ the_dir ∷ the_file ∷ [];
}

d_removed : remove_child small_state 1 ≡ some without_d
unfolding remove_child children put_children put_node retain_names
d_removed = refl

lookup_child-remove_child_example : lookup_child without_d 0 (b'd' ∷ []) ≡ some none
lookup_child-remove_child_example =
    lookup_child-remove_child small_state without_d 1 the_dir dir_entries (b'd' ∷ []) refl
      children_eq d_removed

unlink_node_keeps_directories_example : unlink_node small_state 1 ≡ some small_state
unlink_node_keeps_directories_example =
    unlink_node_keeps_directories small_state 1 the_dir [] 0 refl refl no_dirs

abbrev seeked : ImfsState
seeked = record (fork small_state 7 8) { fd_heap = record { flags = 2; offset = pos 40 } ∷ [] }

child_seeked : set_offset (fork small_state 7 8) 8 3 (pos 40) ≡ some seeked
unfolding set_offset fork share_all insert get remove
child_seeked = refl

get_offset-fork_example : get_offset seeked 7 3 ≡ some (pos 40)
get_offset-fork_example =
    get_offset-fork small_state seeked 7 8 3 0 (pos 40) (λ e. omega arith) opened child_seeked

abbrev full_file : File
full_file = record { head = some 0; tail = some 0; total_size = 1024 }

abbrev one_chunk : ChunkStore
one_chunk = record { chunks = record full_chunk { next = none } ∷ []; chunk_free_list = [] }

abbrev write_past : Option (ChunkStore × File) → Option (ChunkStore × File × ℕ)
write_past none = none
write_past (some (s, f)) = write_to_file s f 1024 (1 ∷ [])

abbrev read_hole : Option (ChunkStore × File × ℕ) → Option (List ℕ)
read_hole none = none
read_hole (some (s, f, n)) = read_from_file s f 10 1

-- The file is cut to 10 bytes and then written beyond its first chunk: the byte at 10 is not zero
-- but what the file had there before.
stale_byte : read_hole (write_past (truncate_file one_chunk full_file 10)) ≡ some (7 ∷ [])
unfolding truncate_file write_to_file read_from_file truncate_chain skip_write write_chain
    read_chain skip_read slice put_chunk reclaim_chunk_chain reclaim_chain reclaim_chunk
    chunk_for_write alloc_chunk link_tail write_round write_chunk zero_fill splice end_at new_chunk
stale_byte = refl
