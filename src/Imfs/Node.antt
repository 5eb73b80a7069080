-- ===== src/Imfs/Node.antt =====
-- Nodes and chunks of rust-grates/imfs-grate/src/imfs/node.rs.
use Prim.Native.Nat.{bit_and, bit_or}
use lind_wasm_example_grates.Base.{ℕ, Bool, false, Option, none, some, List, [], replicate}
use lind_wasm_example_grates.Path.Text.{Text}

abbrev pub chunk_size : ℕ
chunk_size = 1024

abbrev pub max_node_name : ℕ
max_node_name = 65

abbrev pub max_nodes : ℕ
max_nodes = 1024

pub data NodeType : Type 0 where
  reg dir lnk pip free : NodeType

pub record DirEntry : Type 0 where
  pub name : Text
  pub node_idx : ℕ

pub record NodeTime : Type 0 where
  pub secs : ℕ
  pub nanos : ℕ

abbrev pub now : NodeTime
now = record { secs = 0; nanos = 0 }

pub data NodeInfo : Type 0 where
  reg_info : Option ℕ → Option ℕ → NodeInfo
  dir_info : List DirEntry → NodeInfo
  hard_link : ℕ → NodeInfo
  symlink : Text → NodeInfo
  pip_info : List ℕ → ℕ → ℕ → NodeInfo
  free_info : NodeInfo

pub record Node : Type 0 where
  pub node_type : NodeType
  pub index : ℕ
  pub total_size : ℕ
  pub name : Text
  pub parent_idx : ℕ
  pub in_use : ℕ
  pub doomed : Bool
  pub mode : ℕ
  pub owner : ℕ
  pub group : ℕ
  pub info : NodeInfo
  pub ctime : NodeTime
  pub atime : NodeTime
  pub mtime : NodeTime

unfoldable pub mode_bits : NodeType → ℕ → ℕ
mode_bits NodeType.reg mode = bit_or 0o100000 (bit_and mode 0o7777)
mode_bits NodeType.dir mode = bit_or 0o040000 (bit_and mode 0o7777)
mode_bits NodeType.lnk mode = bit_or 0o120000 (bit_and mode 0o7777)
mode_bits NodeType.pip mode = bit_or 0o010000 (bit_and mode 0o7777)
mode_bits NodeType.free mode = bit_and mode 0o7777

abbrev pub new_info : NodeType → NodeInfo
new_info NodeType.reg = reg_info none none
new_info NodeType.dir = dir_info []
new_info NodeType.lnk = symlink []
new_info NodeType.pip = pip_info [] 0 0
new_info NodeType.free = free_info

-- `Node::new`; GET_UID is 501 and GET_GID 20.
unfoldable pub new_node : ℕ → Text → NodeType → ℕ → Node
unfolding mode_bits
new_node index name node_type mode = record {
  node_type = node_type;
  index = index;
  total_size = 0;
  name = name;
  parent_idx = 0;
  in_use = 0;
  doomed = false;
  mode = mode_bits node_type mode;
  owner = 501;
  group = 20;
  info = new_info node_type;
  ctime = now;
  atime = now;
  mtime = now;
}

-- `children` panics on a node that is no directory.
abbrev pub children_of : NodeInfo → Option (List DirEntry)
children_of (dir_info children) = some children
children_of _ = none

abbrev pub hardlink_target : NodeInfo → Option ℕ
hardlink_target (hard_link target) = some target
hardlink_target _ = none

abbrev pub symlink_target : NodeInfo → Option Text
symlink_target (symlink target) = some target
symlink_target _ = none

pub record Chunk : Type 0 where
  pub bytes : List ℕ
  pub used : ℕ
  pub next : Option ℕ

unfoldable pub new_chunk : Chunk
new_chunk = record { bytes = replicate chunk_size 0; used = 0; next = none }
