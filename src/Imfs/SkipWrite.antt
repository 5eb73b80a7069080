-- ===== src/Imfs/SkipWrite.antt =====
-- The two loops of `write_to_node` of rust-grates/imfs-grate/src/imfs/mod.rs one after the other,
-- within a file: the skip loop leaves the store as it is.
use lind_wasm_example_grates.Base.{
  ℕ, zero, suc, ◌+◌, ◌-◌, ◌*◌, ◌≤◌, ◌<◌, ◌≡◌, refl, sym, ap, ◌∙◌, inl, inr, Option, some, List, [],
  ◌∷◌, ◌++◌, length, take, get_elem?, arith, in_range, set_same, length-take, ltb, true, Bool-cases,
}
use lind_wasm_example_grates.Imfs.Node.{Chunk}
use lind_wasm_example_grates.Imfs.Chunks.{
  ChunkStore, File, ◌>>=◌, put_chunk, skip_write, write_chain,
}
use lind_wasm_example_grates.Imfs.Content.{Filled, content, length-content, used_behind}
use lind_wasm_example_grates.Imfs.Bytes.{behind_bytes}
use lind_wasm_example_grates.Imfs.Overwrite.{Spots, Apart, Distinct, Written, write_chain-Written}

Written-behind :
    (s : ChunkStore) (f : File) (k : ℕ) (is : List ℕ) (c : Chunk) (cs : List Chunk) (i : ℕ)
    (buf : List ℕ) (r : Option (ChunkStore × File))
    → get_elem? s.chunks k ≡ some c
    → Apart k is
    → length c.bytes ≡ 1024
    → c.used ≡ 1024
    → 1024 ≤ i
    → Written s f c.next is cs (i - 1024) buf r
    → Written s f (some k) (k ∷ is) (c ∷ cs) i buf r
unfolding Spots Filled content
Written-behind s f k is c cs i buf r eg apart full used far w =
    let size : length (take c.used c.bytes) ≡ 1024 = length-take c.used c.bytes ∙ omega arith in
    record {
      store = w.store;
      after = c ∷ w.after;
      result = w.result;
      spots = (refl, w.elsewhere k apart ∙ eg, w.spots);
      filled = (full, omega arith, inr used, w.filled);
      bytes =
          ap (◌++◌ (take c.used c.bytes)) w.bytes
          ∙ behind_bytes (take c.used c.bytes) (content cs) buf i size far;
      elsewhere = λ j away. w.elsewhere j away.1;
      free = w.free;
    }

-- To mark a full chunk as full changes nothing.
put_same :
    (s : ChunkStore) (k : ℕ) (c : Chunk)
    → get_elem? s.chunks k ≡ some c
    → c.used ≡ 1024
    → put_chunk s k (record c { used = 1024 }) ≡ some s
unfolding put_chunk
put_same s k c eg used =
    let range : ltb k (length s.chunks) ≡ true = let r = in_range s.chunks k c eg in ground arith in
    let same : record c { used = 1024 } ≡ c = ap (λ u. record c { used = u }) (sym used) in
    rw (range, same, set_same s.chunks k c eg) refl

-- The two loops of `write_to_node`.
unfoldable pub skip_then_write :
    ℕ → ℕ → ChunkStore → File → Option ℕ → ℕ → List ℕ → Option (ChunkStore × File)
skip_then_write rounds fuel s f start i buf = do
  (s', start', lo) ← skip_write rounds s start i
  write_chain fuel s' f start' lo buf

pub skip_then_write-Written :
    (rounds fuel : ℕ) (s : ChunkStore) (f : File) (start : Option ℕ) (is : List ℕ) (cs : List Chunk)
    (i : ℕ) (buf : List ℕ)
    → Spots s.chunks start is cs
    → Distinct is
    → Filled cs
    → i < 1024 * suc rounds
    → i < length (content cs)
    → i + length buf ≤ length (content cs)
    → length buf ≤ fuel
    → Written s f start is cs i buf (skip_then_write rounds fuel s f start i buf)
unfolding skip_then_write skip_write Spots Filled
skip_then_write-Written rounds fuel s f start is [] i buf at di fi near low inside enough =
    absurd (unfold content in omega arith)
skip_then_write-Written rounds fuel s f start [] (c ∷ cs) i buf at di fi near low inside enough =
    absurd at
skip_then_write-Written zero fuel s f start (k ∷ is) (c ∷ cs) i buf (es, eg, more) di fi near low
      inside enough =
    rw es (
      write_chain-Written fuel s f (some k) (k ∷ is) (c ∷ cs) i buf (refl, eg, more) di fi
        (omega arith) inside enough)
skip_then_write-Written (suc rounds) fuel s f start (k ∷ is) (c ∷ cs) i buf (es, eg, more)
      (apart, di) (full, small, last, fi) near low inside enough =
    elim (Bool-cases (ltb i 1024)) [
      | inl e ↦
          rw (es, e)
            (write_chain-Written fuel s f (some k) (k ∷ is) (c ∷ cs) i buf (refl, eg, more)
              (apart, di) (full, small, last, fi) (ground arith) inside enough)
      | inr e ↦
          (let far : 1024 ≤ i = ground arith in
            let used = used_behind c cs i full small last far low in
            let all = length-content c cs full small in
            let rest =
              skip_then_write-Written rounds fuel s f c.next is cs (i - 1024) buf more di fi
                (omega arith) (omega arith) (omega arith) enough in
            rw (es, e, eg)
              (rw (put_same s k c eg used)
                (Written-behind s f k is c cs i buf _ eg apart full used far rest)))
    ]
