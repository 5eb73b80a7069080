-- ===== src/Imfs/Chunks.antt =====
-- The chunk arena of rust-grates/imfs-grate/src/imfs/mod.rs and the byte access to one file: the
-- functions on `chunks`, `chunk_free_list` and the chunk list of a regular file. `none` stands for a
-- panic (an index out of range, a slice out of bounds) or a loop that does not end.
use lind_wasm_example_grates.Base.{
  ℕ, zero, suc, ◌+◌, ◌-◌, ◌/◌, Option, none, some, List, [], ◌∷◌, ◌++◌, length, take, drop,
  get_elem?, set, replicate, min, max, eqb, ltb, leb, if◌then◌else◌,
}
use lind_wasm_example_grates.Imfs.Node.{Chunk, new_chunk, chunk_size}

infixl 5 ◌>>=◌
abbrev pub ◌>>=◌ {ℓ κ} : {A : Type ℓ} {B : Type κ} → Option A → (A → Option B) → Option B
none >>= f = none
some a >>= f = f a

-- `chunks` and `chunk_free_list`; the head of the free list is the end of the source's `Vec`.
pub record ChunkStore : Type 0 where
  pub chunks : List Chunk
  pub chunk_free_list : List ℕ

-- NodeInfo::Reg and the size of the file.
pub record File : Type 0 where
  pub head : Option ℕ
  pub tail : Option ℕ
  pub total_size : ℕ

-- self.chunks[i] = c, which panics out of range
unfoldable pub put_chunk : ChunkStore → ℕ → Chunk → Option ChunkStore
put_chunk s i c =
    if ltb i (length s.chunks) then some (record s { chunks = set s.chunks i c }) else none

alloc_from : ChunkStore → List ℕ → Option (ℕ × ChunkStore)
alloc_from s [] = some (length s.chunks, record s { chunks = s.chunks ++ new_chunk ∷ [] })
alloc_from s (free_idx ∷ free) = do
  s' ← put_chunk (record s { chunk_free_list = free }) free_idx new_chunk
  some (free_idx, s')

unfoldable pub alloc_chunk : ChunkStore → Option (ℕ × ChunkStore)
unfolding alloc_from
alloc_chunk s = alloc_from s s.chunk_free_list

unfoldable pub reclaim_chunk : ChunkStore → ℕ → Option ChunkStore
reclaim_chunk s idx = do
  s' ← put_chunk s idx new_chunk
  some (record s' { chunk_free_list = idx ∷ s'.chunk_free_list })

-- `fuel` bounds the length of the chain: the number of chunks is enough for one without a cycle.
unfoldable pub reclaim_chain : ℕ → ChunkStore → Option ℕ → Option ChunkStore
reclaim_chain fuel s none = some s
reclaim_chain zero s (some ci) = none
reclaim_chain (suc fuel) s (some ci) = do
  c ← get_elem? s.chunks ci
  s' ← reclaim_chunk s ci
  reclaim_chain fuel s' c.next

unfoldable pub reclaim_chunk_chain : ChunkStore → Option ℕ → Option ChunkStore
unfolding reclaim_chain
reclaim_chunk_chain s chunk_idx = reclaim_chain (length s.chunks) s chunk_idx

-- The skip loop of `read_from_node`. Each round takes CHUNK_SIZE off the offset, so offset /
-- CHUNK_SIZE rounds are enough: then the offset lies within a chunk.
unfoldable pub skip_read : ℕ → ChunkStore → Option ℕ → ℕ → Option (Option ℕ × ℕ)
skip_read rounds s none local_offset = some (none, local_offset)
skip_read zero s (some ci) local_offset = some (some ci, local_offset)
skip_read (suc rounds) s (some ci) local_offset =
    if ltb local_offset chunk_size
    then some (some ci, local_offset)
    else (do c ← get_elem? s.chunks ci; skip_read rounds s c.next (local_offset - chunk_size))

-- data[from..to], which panics where the range is not within the data
unfoldable pub slice : List ℕ → ℕ → ℕ → Option (List ℕ)
slice bytes from to =
    if leb from to
    then if leb to (length bytes) then some (take (to - from) (drop from bytes)) else none
    else none

-- The copy loop: `count` is what is still to be read.
unfoldable pub read_chain : ℕ → ChunkStore → Option ℕ → ℕ → ℕ → Option (List ℕ)
read_chain fuel s chunk_idx local_offset zero = some []
read_chain fuel s none local_offset (suc count) = some []
read_chain zero s (some ci) local_offset (suc count) = none
read_chain (suc fuel) s (some ci) local_offset (suc count) = do
  c ← get_elem? s.chunks ci
  let to_copy = min (suc count) (c.used - local_offset)
  part ← slice c.bytes local_offset (local_offset + to_copy)
  rest ← read_chain fuel s c.next 0 (suc count - to_copy)
  some (part ++ rest)

-- `read_from_node` on a regular file; `len` is the length of the buffer.
unfoldable pub read_from_file : ChunkStore → File → ℕ → ℕ → Option (List ℕ)
unfolding skip_read read_chain
read_from_file s f offset len = if leb f.total_size offset then some [] else (do
  let count = min len (f.total_size - offset)
  (chunk_idx, local_offset) ← skip_read (offset / chunk_size) s f.head offset
  read_chain (length s.chunks + count) s chunk_idx local_offset count)

-- The skip loop of `write_to_node`, which marks each chunk it passes as full.
unfoldable pub skip_write : ℕ → ChunkStore → Option ℕ → ℕ → Option (ChunkStore × Option ℕ × ℕ)
skip_write rounds s none local_offset = some (s, none, local_offset)
skip_write zero s (some ci) local_offset = some (s, some ci, local_offset)
skip_write (suc rounds) s (some ci) local_offset =
    if ltb local_offset chunk_size then some (s, some ci, local_offset) else (do
      c ← get_elem? s.chunks ci
      s' ← put_chunk s ci (record c { used = chunk_size })
      skip_write rounds s' c.next (local_offset - chunk_size))

-- self.chunks[t].next = Some(new_ci), where there is a tail
unfoldable pub link_tail : ChunkStore → Option ℕ → ℕ → Option ChunkStore
link_tail s none new_ci = some s
link_tail s (some t) new_ci = do
  c ← get_elem? s.chunks t
  put_chunk s t (record c { next = some new_ci })

abbrev pub or_head : Option ℕ → ℕ → Option ℕ
or_head none new_ci = some new_ci
or_head (some head) new_ci = some head

-- The chunk of a round: the present one, or a new one at the end of the chain.
unfoldable pub chunk_for_write : ChunkStore → File → Option ℕ → Option (ChunkStore × File × ℕ)
chunk_for_write s f (some ci) = some (s, f, ci)
chunk_for_write s f none = do
  (new_ci, s') ← alloc_chunk s
  s'' ← link_tail s' f.tail new_ci
  some (s'', record f { head = or_head f.head new_ci; tail = some new_ci }, new_ci)

-- data[at..at + part.len()] is overwritten.
unfoldable pub splice : List ℕ → ℕ → List ℕ → List ℕ
splice bytes at part = take at bytes ++ part ++ drop (at + length part) bytes

-- data[used..local_offset].fill(0)
unfoldable pub zero_fill : Chunk → ℕ → List ℕ
unfolding splice
zero_fill c local_offset =
    if ltb c.used local_offset
    then splice c.bytes c.used (replicate (local_offset - c.used) 0)
    else c.bytes

-- `part` is what fits into the chunk.
unfoldable pub write_chunk : Chunk → ℕ → List ℕ → Chunk
unfolding splice zero_fill
write_chunk c local_offset part =
    let filled = splice (zero_fill c local_offset) local_offset part in
    let end = local_offset + length part in
    record c { bytes = filled; used = if ltb c.used end then end else c.used }

-- What a round does to its chunk, with the offset and the bytes that are left.
unfoldable pub write_round : Chunk → ℕ → List ℕ → Chunk × ℕ × List ℕ
unfolding write_chunk
write_round c local_offset buf =
    if leb chunk_size local_offset
    then (record c { used = chunk_size }, local_offset - chunk_size, buf)
    else (let to_copy = min (length buf) (chunk_size - local_offset) in
        (write_chunk c local_offset (take to_copy buf), 0, drop to_copy buf))

-- A round takes a chunk off the offset or a byte off the buffer.
unfoldable pub write_chain :
    ℕ → ChunkStore → File → Option ℕ → ℕ → List ℕ → Option (ChunkStore × File)
write_chain fuel s f chunk_idx local_offset [] = some (s, f)
write_chain zero s f chunk_idx local_offset (b ∷ buf) = none
write_chain (suc fuel) s f chunk_idx local_offset (b ∷ buf) = do
  (s', f', ci) ← chunk_for_write s f chunk_idx
  c ← get_elem? s'.chunks ci
  let (c', offset', rest) = write_round c local_offset (b ∷ buf)
  s'' ← put_chunk s' ci c'
  write_chain fuel s'' f' c.next offset' rest

-- `write_to_node` on a regular file
unfoldable pub write_to_file : ChunkStore → File → ℕ → List ℕ → Option (ChunkStore × File × ℕ)
unfolding skip_write write_chain
write_to_file s f offset [] = some (s, f, 0)
write_to_file s f offset (b ∷ buf) = do
  let written = length (b ∷ buf)
  (s', chunk_idx, local_offset) ← skip_write (offset / chunk_size) s f.head offset
  (s'', f') ← write_chain (offset + written) s' f chunk_idx local_offset (b ∷ buf)
  some (s'', record f' { total_size = max f'.total_size (offset + written) }, written)

-- self.chunks[ci].next = None, where a chunk was kept, which is the tail then
unfoldable pub end_at : ChunkStore → File → Option ℕ → Option (ChunkStore × File)
end_at s f none = some (s, f)
end_at s f (some ci) = do
  c ← get_elem? s.chunks ci
  s' ← put_chunk s ci (record c { next = none })
  some (s', record f { tail = some ci })

-- The loop of `truncate_node`: a round takes a chunk off what remains.
unfoldable pub truncate_chain :
    ℕ → ChunkStore → File → Option ℕ → ℕ → Option ℕ → Option (ChunkStore × File)
truncate_chain fuel s f none remaining last_keep = end_at s f last_keep
truncate_chain zero s f (some ci) remaining last_keep = none
truncate_chain (suc fuel) s f (some ci) remaining last_keep = do
  c ← get_elem? s.chunks ci
  (if ltb chunk_size remaining
      then truncate_chain fuel s f c.next (remaining - chunk_size) (some ci)
      else (do
        s' ← put_chunk s ci (record c { used = remaining; next = none })
        s'' ← reclaim_chunk_chain s' c.next
        some (s'', record f { tail = some ci })))

-- `truncate_node` on a regular file
unfoldable pub truncate_file : ChunkStore → File → ℕ → Option (ChunkStore × File)
unfolding write_to_file truncate_chain
truncate_file s f new_size =
    if eqb new_size f.total_size
    then some (s, f)
    else if ltb f.total_size new_size
    then (do (s', f', written) ← write_to_file s f (new_size - 1) (0 ∷ []); some (s', f'))
    else if eqb new_size 0
    then (do
      s' ← reclaim_chunk_chain s f.head
      some (s', record { head = none; tail = none; total_size = 0 }))
    else (do
      (s', f') ← truncate_chain (suc (new_size / chunk_size)) s f f.head new_size none
      some (s', record f' { total_size = new_size }))
