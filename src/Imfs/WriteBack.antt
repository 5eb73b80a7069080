-- ===== src/Imfs/WriteBack.antt =====
-- What `write_to_node` of rust-grates/imfs-grate/src/imfs/mod.rs does to a file that it does not
-- extend, and what a read gives then.
use lind_wasm_example_grates.Base.{
  ℕ, ◌+◌, ◌/◌, ◌≤◌, max, ◌≡◌, refl, sym, ap, ◌∙◌, subst, inl, inr, Option, some, List, [], ◌∷◌,
  ◌++◌, length, take, drop, get_elem?, arith, Option-cases, none≢some,
}
use lind_wasm_example_grates.Imfs.Node.{Chunk}
use lind_wasm_example_grates.Imfs.Chunks.{
  ChunkStore, File, skip_write, write_chain, write_to_file, read_from_file,
}
use lind_wasm_example_grates.Imfs.Content.{Chain, Filled, content, Holds, read_returns_content}
use lind_wasm_example_grates.Imfs.Overwrite.{Spots, Apart, Distinct}
use lind_wasm_example_grates.Imfs.SkipWrite.{skip_then_write, skip_then_write-Written}
use lind_wasm_example_grates.Imfs.Bytes.{no_bytes, same_length, middle}

-- The file has the chunks at the given places, and the bytes of a list.
unfoldable pub At : ChunkStore → File → List ℕ → List Chunk → Type 0
unfolding Spots
At s f is cs =
    Spots s.chunks f.head is cs × Distinct is × Filled cs × f.total_size ≡ length (content cs)

Chain-Spots :
    (chunks : List Chunk) (start : Option ℕ) (is : List ℕ) (cs : List Chunk)
    → Spots chunks start is cs
    → Chain chunks start cs
unfolding Spots Chain
Chain-Spots chunks start [] [] at = at
Chain-Spots chunks start [] (c ∷ cs) at = absurd at
Chain-Spots chunks start (i ∷ is) [] at = absurd at
Chain-Spots chunks start (i ∷ is) (c ∷ cs) (es, eg, more) =
    (i, es, eg, Chain-Spots chunks c.next is cs more)

pub At-Holds :
    (s : ChunkStore) (f : File) (is : List ℕ) (cs : List Chunk) → At s f is cs → Holds s f cs
unfolding At Holds
At-Holds s f is cs (at, di, fi, size) = (Chain-Spots s.chunks f.head is cs at, fi, size)

-- The outcome of a write of `buf` at an offset within the file: its number of bytes, with the file
-- as it was but for these bytes, and every chunk of no place of the file as it was.
pub record Replaced (s : ChunkStore) (f : File) (is : List ℕ) (cs : List Chunk) (offset : ℕ)
    (buf : List ℕ) : Type 0 where
  pub store : ChunkStore
  pub after : List Chunk
  pub returns : write_to_file s f offset buf ≡ some (store, f, length buf)
  pub at : At store f is after
  pub bytes :
      content after ≡ take offset (content cs) ++ buf ++ drop (offset + length buf) (content cs)
  pub elsewhere : (j : ℕ) → Apart j is → get_elem? store.chunks j ≡ get_elem? s.chunks j

finish :
    (s t : ChunkStore) (f : File) (offset b : ℕ) (buf : List ℕ)
    → offset + length (b ∷ buf) ≤ f.total_size
    → skip_then_write (offset / 1024) (offset + length (b ∷ buf)) s f f.head offset (b ∷ buf)
      ≡ some (t, f)
    → write_to_file s f offset (b ∷ buf) ≡ some (t, f, length (b ∷ buf))
unfolding write_to_file skip_then_write
finish s t f offset b buf inside h =
    elim (Option-cases (skip_write (offset / 1024) s f.head offset)) [
      | inl e ↦ absurd (none≢some (sym (rw e refl) ∙ h))
      | inr (p, e) ↦
          (let step : write_chain (offset + length (b ∷ buf)) p.0 f p.1 p.2 (b ∷ buf)
                ≡ some (t, f) =
              sym (rw e refl) ∙ h in
            let size : max f.total_size (offset + length (b ∷ buf)) ≡ f.total_size = omega arith in
            rw (e, step) (ap (λ n. some (t, record f { total_size = n }, length (b ∷ buf))) size))
    ]

-- A write that ends within a well-formed file returns the whole count, neither panics nor runs on,
-- replaces exactly the bytes from the offset on by those of the buffer, keeps the chunks and the
-- size of the file, and changes no other chunk.
pub write_to_file-Replaced :
    (s : ChunkStore) (f : File) (is : List ℕ) (cs : List Chunk) (offset : ℕ) (buf : List ℕ)
    → At s f is cs
    → offset + length buf ≤ f.total_size
    → Replaced s f is cs offset buf
unfolding At
write_to_file-Replaced s f is cs offset [] (at, di, fi, size) inside = record {
  store = s;
  after = cs;
  returns = unfold write_to_file in refl;
  at = (at, di, fi, size);
  bytes = no_bytes (content cs) offset;
  elsewhere = λ j away. refl;
}
write_to_file-Replaced s f is cs offset (b ∷ buf) (at, di, fi, size) inside =
    let w =
      skip_then_write-Written (offset / 1024) (offset + length (b ∷ buf)) s f f.head is cs offset
        (b ∷ buf) at di fi (omega arith) (omega arith) (omega arith) (omega arith) in
    record {
      store = w.store;
      after = w.after;
      returns = finish s w.store f offset b buf inside w.result;
      at = (
        w.spots,
        di,
        w.filled,
        size ∙ sym (ap length w.bytes ∙ same_length (content cs) (b ∷ buf) offset (omega arith)),
      );
      bytes = w.bytes;
      elsewhere = w.elsewhere;
    }

pair_eq : {A : Type 0} {a b : A} → some a ≡ some b → a ≡ b
pair_eq e = ground arith

-- After a write that ends within a well-formed file, a read of as many bytes at its offset gives
-- the bytes that were written.
pub read_from_file-write_to_file :
    (s s' : ChunkStore) (f f' : File) (is : List ℕ) (cs : List Chunk) (offset : ℕ) (buf : List ℕ)
    → At s f is cs
    → offset + length buf ≤ f.total_size
    → write_to_file s f offset buf ≡ some (s', f', length buf)
    → read_from_file s' f' offset (length buf) ≡ some buf
read_from_file-write_to_file s s' f f' is cs offset buf ok inside eq =
    let r = write_to_file-Replaced s f is cs offset buf ok inside in
    let size : f.total_size ≡ length (content cs) = unfold At in ok.3 in
    let seen : take (length buf) (drop offset (content r.after)) ≡ buf =
      ap (λ zs. take (length buf) (drop offset zs)) r.bytes
      ∙ middle (content cs) buf offset (omega arith) in
    let base : read_from_file r.store f offset (length buf) ≡ some buf =
      read_returns_content r.store f r.after offset (length buf)
        (At-Holds r.store f is r.after r.at)
      ∙ ap some seen in
    let same : (r.store, f, length buf) ≡ (s', f', length buf) = pair_eq (sym r.returns ∙ eq) in
    subst (λ (p : ChunkStore × File × ℕ). read_from_file p.0 p.1 offset (length buf) ≡ some buf)
      same base

abbrev pub AllApart : List ℕ → List ℕ → Type 0
AllApart [] is = Unit
AllApart (j ∷ js) is = Apart j is × AllApart js is

Spots-kept :
    (old new : List Chunk) (start : Option ℕ) (js : List ℕ) (ds : List Chunk) (is : List ℕ)
    → AllApart js is
    → ((j : ℕ) → Apart j is → get_elem? new j ≡ get_elem? old j)
    → Spots old start js ds
    → Spots new start js ds
unfolding Spots
Spots-kept old new start [] [] is away kept at = at
Spots-kept old new start [] (d ∷ ds) is away kept at = at
Spots-kept old new start (j ∷ js) [] is away kept at = at
Spots-kept old new start (j ∷ js) (d ∷ ds) is (here, away) kept (es, eg, more) =
    (es, kept j here ∙ eg, Spots-kept old new d.next js ds is away kept more)

-- A write that ends within a well-formed file leaves each file that has no chunk in common with it
-- as it was.
pub write_keeps_other_files :
    (s s' : ChunkStore) (f f' g : File) (is js : List ℕ) (cs ds : List Chunk) (offset : ℕ)
    (buf : List ℕ)
    → At s f is cs
    → offset + length buf ≤ f.total_size
    → At s g js ds
    → AllApart js is
    → write_to_file s f offset buf ≡ some (s', f', length buf)
    → At s' g js ds
unfolding At
write_keeps_other_files s s' f f' g is js cs ds offset buf ok inside (at, di, fi, size) away eq =
    let r = write_to_file-Replaced s f is cs offset buf ok inside in
    let same : (r.store, f, length buf) ≡ (s', f', length buf) = pair_eq (sym r.returns ∙ eq) in
    let store : r.store ≡ s' = ap (λ (p : ChunkStore × File × ℕ). p.0) same in
    (
      subst (λ t. Spots t.chunks g.head js ds) store
          (Spots-kept s.chunks r.store.chunks g.head js ds is away r.elsewhere at),
      di,
      fi,
      size,
    )
