-- ===== src/Imfs/Content.antt =====
-- What a regular file of rust-grates/imfs-grate/src/imfs/mod.rs holds: the bytes of its chunk
-- list, and the reads and writes on them.
use lind_wasm_example_grates.Base.{
  ℕ, zero, suc, ◌+◌, ◌-◌, ◌*◌, ◌/◌, ◌≤◌, ◌<◌, min, ◌≡◌, refl, sym, ap, ◌∙◌, ◌⊎◌, inl, inr, Option,
  none, some, List, [], ◌∷◌, ◌++◌, length, take, drop, get_elem?, arith, length-take, length-drop,
  length-append, take-append, take-drop-take, drop-append_le, drop-append_ge, drop_all, take_nil,
  take-min, ltb, leb, true, Bool-cases,
}
use lind_wasm_example_grates.Imfs.Node.{Chunk, chunk_size}
use lind_wasm_example_grates.Imfs.Chunks.{
  ChunkStore, File, slice, skip_read, read_chain, read_from_file,
}

-- The chunk list that starts at an index of the arena.
unfoldable pub Chain : List Chunk → Option ℕ → List Chunk → Type 0
Chain chunks start [] = start ≡ none
Chain chunks start (c ∷ cs) =
    (i : ℕ) × start ≡ some i × get_elem? chunks i ≡ some c × Chain chunks c.next cs

-- Each chunk of the list but the last is full.
unfoldable pub Filled : List Chunk → Type 0
Filled [] = Unit
Filled (c ∷ cs) = length c.bytes ≡ 1024 × c.used ≤ 1024 × (cs ≡ [] ⊎ c.used ≡ 1024) × Filled cs

unfoldable pub content : List Chunk → List ℕ
content [] = []
content (c ∷ cs) = take c.used c.bytes ++ content cs

-- The file holds the bytes of the list `cs`.
unfoldable pub Holds : ChunkStore → File → List Chunk → Type 0
unfolding Chain Filled content
Holds s f cs = Chain s.chunks f.head cs × Filled cs × f.total_size ≡ length (content cs)

length-front :
    (c : Chunk) → length c.bytes ≡ 1024 → c.used ≤ 1024 → length (take c.used c.bytes) ≡ c.used
length-front c full small = length-take c.used c.bytes ∙ omega arith

pub length-content :
    (c : Chunk) (cs : List Chunk)
    → length c.bytes ≡ 1024
    → c.used ≤ 1024
    → length (content (c ∷ cs)) ≡ c.used + length (content cs)
unfolding content
length-content c cs full small =
    length-append (take c.used c.bytes) (content cs)
    ∙ ap (λ n. n + length (content cs)) (length-front c full small)

-- Where bytes lie beyond a place within the first chunk, or at its end, the place is in use.
pub in_front :
    (c : Chunk) (cs : List Chunk) (i : ℕ)
    → length c.bytes ≡ 1024
    → c.used ≤ 1024
    → cs ≡ [] ⊎ c.used ≡ 1024
    → i < 1024
    → i < length (content (c ∷ cs))
    → i < c.used
unfolding content
in_front c cs i full small (inr e) near inside = omega arith
in_front c cs i full small (inl e) near inside =
    let nil : length (content cs) ≡ 0 = ap (λ w. length (content w)) e in
    let all = length-content c cs full small in omega arith

-- Where the skip loop ends: before the same bytes, in a chunk that the place lies in.
record Place (s : ChunkStore) (cs : List Chunk) (i : ℕ) (found : Option (Option ℕ × ℕ))
    : Type 0 where
  start : Option ℕ
  offset : ℕ
  rest : List Chunk
  found_eq : found ≡ some (start, offset)
  chain : Chain s.chunks start rest
  filled : Filled rest
  near : offset < 1024
  left : length (content rest) - offset ≡ length (content cs) - i
  same : drop offset (content rest) ≡ drop i (content cs)

-- Where bytes lie beyond a place behind the first chunk, that chunk is full.
pub used_behind :
    (c : Chunk) (cs : List Chunk) (i : ℕ)
    → length c.bytes ≡ 1024
    → c.used ≤ 1024
    → cs ≡ [] ⊎ c.used ≡ 1024
    → 1024 ≤ i
    → i < length (content (c ∷ cs))
    → c.used ≡ 1024
unfolding content
used_behind c cs i full small (inr e) far inside = e
used_behind c cs i full small (inl e) far inside =
    let nil : length (content cs) ≡ 0 = ap (λ w. length (content w)) e in
    let all = length-content c cs full small in absurd (omega arith)

further :
    {s : ChunkStore} (c : Chunk) (cs : List Chunk) (i : ℕ) {found : Option (Option ℕ × ℕ)}
    → 1024 ≤ i
    → c.used ≡ 1024
    → length (take c.used c.bytes) ≡ c.used
    → length (content (c ∷ cs)) ≡ c.used + length (content cs)
    → Place s cs (i - 1024) found
    → Place s (c ∷ cs) i found
further c cs i far used front all p =
    let back : drop i (content (c ∷ cs)) ≡ drop (i - 1024) (content cs) =
      unfold content in
      (drop-append_ge i (take c.used c.bytes) (content cs) (omega arith)
        ∙ ap (λ n. drop (i - n) (content cs)) (front ∙ used)) in
    let left = p.left in
    record {
      start = p.start;
      offset = p.offset;
      rest = p.rest;
      found_eq = p.found_eq;
      chain = p.chain;
      filled = p.filled;
      near = p.near;
      left = omega arith;
      same = p.same ∙ sym back;
    }

here :
    (s : ChunkStore) (k : ℕ) (cs : List Chunk) (i : ℕ)
    → Chain s.chunks (some k) cs
    → Filled cs
    → i < 1024
    → Place s cs i (some (some k, i))
here s k cs i ch fi near = record {
  start = some k;
  offset = i;
  rest = cs;
  found_eq = refl;
  chain = ch;
  filled = fi;
  near = near;
  left = refl;
  same = refl;
}

skip_read-Place :
    (rounds : ℕ) (s : ChunkStore) (start : Option ℕ) (i : ℕ) (cs : List Chunk)
    → Chain s.chunks start cs
    → Filled cs
    → i < length (content cs)
    → i < 1024 * suc rounds
    → Place s cs i (skip_read rounds s start i)
unfolding skip_read Chain Filled
skip_read-Place rounds s start i [] ch fi inside enough = absurd (unfold content in omega arith)
skip_read-Place zero s start i (c ∷ cs) ch fi inside enough =
    let (k, es, eg, more) = ch in rw es (here s k (c ∷ cs) i (k, refl, eg, more) fi (omega arith))
skip_read-Place (suc rounds) s start i (c ∷ cs) ch fi inside enough =
    let (k, es, eg, more) = ch in
    let (full, small, last, fi') = fi in
    rw es (elim (Bool-cases (ltb i 1024)) [
      | inl e ↦ rw e (here s k (c ∷ cs) i (k, refl, eg, more) fi (ground arith))
      | inr e ↦
          (let far : 1024 ≤ i = ground arith in
            let used = used_behind c cs i full small last far inside in
            let all = length-content c cs full small in
            let front = length-front c full small in
            let next =
              skip_read-Place rounds s c.next (i - 1024) cs more fi' (omega arith) (omega arith) in
            rw (e, eg) (further c cs i (omega arith) used front all next))
    ])

-- A part of the content that starts in the first chunk: what that chunk has of it, then the rest.
take-content :
    (c : Chunk) (cs : List Chunk) (i count : ℕ)
    → length c.bytes ≡ 1024
    → c.used ≤ 1024
    → i ≤ c.used
    → take (min count (c.used - i)) (drop i c.bytes)
        ++ take (count - min count (c.used - i)) (content cs)
      ≡ take count (drop i (content (c ∷ cs)))
unfolding content
take-content c cs i count full small within =
    let front = length-front c full small in
    let whole = drop-append_le i (take c.used c.bytes) (content cs) (omega arith) in
    let size = length-drop i (take c.used c.bytes) in
    let parts = take-append count (drop i (take c.used c.bytes)) (content cs) in
    let here = take-drop-take count i c.used c.bytes in
    rw (whole, parts, here)
      (ap (λ n. take (min count (c.used - i)) (drop i c.bytes) ++ take n (content cs))
        (omega arith))

lem-leb : (m n : ℕ) → m ≤ n → leb m n ≡ true
lem-leb m n h = ground arith

slice_lem :
    (bytes : List ℕ) (i n : ℕ)
    → i + n ≤ length bytes
    → slice bytes i (i + n) ≡ some (take n (drop i bytes))
unfolding slice
slice_lem bytes i n within =
    rw (lem-leb i (i + n) (omega arith), lem-leb (i + n) (length bytes) within)
      (ap (λ m. some (take m (drop i bytes))) (omega arith))

read_chain-content :
    (fuel : ℕ) (s : ChunkStore) (start : Option ℕ) (i count : ℕ) (cs : List Chunk)
    → Chain s.chunks start cs
    → Filled cs
    → i < 1024
    → i + count ≤ length (content cs)
    → count ≤ fuel
    → read_chain fuel s start i count ≡ some (take count (drop i (content cs)))
unfolding read_chain Chain Filled
read_chain-content fuel s start i zero cs ch fi near inside enough = refl
read_chain-content fuel s start i (suc count) [] ch fi near inside enough =
    absurd (unfold content in omega arith)
read_chain-content zero s start i (suc count) (c ∷ cs) ch fi near inside enough =
    absurd (omega arith)
read_chain-content (suc fuel) s start i (suc count) (c ∷ cs) ch fi near inside enough =
    let (k, es, eg, more) = ch in
    let (full, small, last, fi') = fi in
    let within = in_front c cs i full small last near (omega arith) in
    let all = length-content c cs full small in
    let n : ℕ = min (suc count) (c.used - i) in
    let ih =
      read_chain-content fuel s c.next 0 (suc count - n) cs more fi' (omega arith) (omega arith)
        (omega arith) in
    let part = slice_lem c.bytes i n (omega arith) in
    rw (es, eg, part, ih) (ap some (take-content c cs i (suc count) full small (omega arith)))

read_at :
    (s : ChunkStore) (f : File) (cs : List Chunk) (offset len : ℕ)
    → {found : Option (Option ℕ × ℕ)} → (p : Place s cs offset found)
    → f.total_size ≡ length (content cs)
    → offset < length (content cs)
    → read_chain
        (length s.chunks + min len (f.total_size - offset))
        s
        p.start
        p.offset
        (min len (f.total_size - offset))
      ≡ some (take len (drop offset (content cs)))
read_at s f cs offset len p size inside =
    let left = p.left in
    let near = p.near in
    let count : ℕ = min len (f.total_size - offset) in
    let got =
      read_chain-content (length s.chunks + count) s p.start p.offset count p.rest p.chain p.filled
        p.near (omega arith) (omega arith) in
    let rest : length (drop offset (content cs)) ≡ f.total_size - offset =
      length-drop offset (content cs) ∙ omega arith in
    got
    ∙ ap some (
        ap (take count) p.same
        ∙ ap (λ n. take (min len n) (drop offset (content cs))) (sym rest)
        ∙ take-min len (drop offset (content cs)))

-- A read of a well-formed file, one whose chunks are full but the last and whose size is theirs
-- together, returns the bytes from the offset on, as many as the buffer takes and the file has,
-- and neither panics nor runs on.
pub read_returns_content :
    (s : ChunkStore) (f : File) (cs : List Chunk) (offset len : ℕ)
    → Holds s f cs
    → read_from_file s f offset len ≡ some (take len (drop offset (content cs)))
unfolding read_from_file Holds
read_returns_content s f cs offset len (ch, fi, size) =
    elim (Bool-cases (leb f.total_size offset)) [
      | inl e ↦
          (let beyond : length (content cs) ≤ offset = ground arith in
            rw (e, drop_all offset (content cs) beyond, take_nil {A = ℕ} len) refl)
      | inr e ↦
          (let inside : offset < length (content cs) = ground arith in
            let p =
              skip_read-Place (offset / chunk_size) s f.head offset cs ch fi inside (omega arith) in
            rw (e, p.found_eq) (read_at s f cs offset len p size inside))
    ]
