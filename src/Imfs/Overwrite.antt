-- ===== src/Imfs/Overwrite.antt =====
-- A write within the size of a file of rust-grates/imfs-grate/src/imfs/mod.rs.
use lind_wasm_example_grates.Base.{
  ℕ, zero, suc, ◌+◌, ◌-◌, ◌≤◌, ◌<◌, min, ◌≡◌, ◌≢◌, refl, sym, ap, ◌∙◌, ◌⊎◌, inl, inr, Option, none,
  some, List, [], ◌∷◌, ◌++◌, length, take, drop, get_elem?, set, arith, in_range, length-take,
  length-drop, ltb, leb, true, false, Bool-cases, get_elem?-set_self, get_elem?-set_ne,
}
use lind_wasm_example_grates.Imfs.Node.{Chunk}
use lind_wasm_example_grates.Imfs.Chunks.{
  ChunkStore, File, put_chunk, write_chain, write_round, write_chunk, splice, zero_fill,
  chunk_for_write,
}
use lind_wasm_example_grates.Imfs.Content.{Filled, content, length-content, in_front}
use lind_wasm_example_grates.Imfs.Bytes.{round_size, round_bytes, no_bytes, zero_plus}

-- The chunk list from a start, with the places of its chunks.
unfoldable pub Spots : List Chunk → Option ℕ → List ℕ → List Chunk → Type 0
Spots chunks start [] [] = start ≡ none
Spots chunks start (i ∷ is) (c ∷ cs) =
    start ≡ some i × get_elem? chunks i ≡ some c × Spots chunks c.next is cs
Spots chunks start [] (c ∷ cs) = ⊥
Spots chunks start (i ∷ is) [] = ⊥

abbrev pub Apart : ℕ → List ℕ → Type 0
Apart i [] = Unit
Apart i (j ∷ is) = i ≢ j × Apart i is

abbrev pub Distinct : List ℕ → Type 0
Distinct [] = Unit
Distinct (i ∷ is) = Apart i is × Distinct is

-- A chunk elsewhere is no matter.
Spots-set :
    (chunks : List Chunk) (start : Option ℕ) (is : List ℕ) (cs : List Chunk) (i : ℕ) (c : Chunk)
    → Apart i is
    → Spots chunks start is cs
    → Spots (set chunks i c) start is cs
unfolding Spots
Spots-set chunks start [] [] i c apart at = at
Spots-set chunks start [] (d ∷ cs) i c apart at = at
Spots-set chunks start (j ∷ is) [] i c apart at = at
Spots-set chunks start (j ∷ is) (d ∷ cs) i c (ne, apart) (es, eg, rest) =
    (es, get_elem?-set_ne chunks i j c ne ∙ eg, Spots-set chunks d.next is cs i c apart rest)

-- A round within the bytes in use changes these bytes alone.
write_round_within :
    (c : Chunk) (lo m : ℕ) (buf : List ℕ)
    → lo < 1024
    → lo + m ≤ c.used
    → m ≡ min (length buf) (1024 - lo)
    → write_round c lo buf ≡ (record c { bytes = splice c.bytes lo (take m buf) }, 0, drop m buf)
unfolding write_round write_chunk zero_fill
write_round_within c lo m buf near inside e =
    let size : length (take m buf) ≡ m = length-take m buf ∙ omega arith in
    let a : leb 1024 lo ≡ false = ground arith in
    let b : ltb c.used lo ≡ false = ground arith in
    let d : ltb c.used (lo + length (take m buf)) ≡ false = ground (arith, size) in
    rw (a, sym e, b, d) refl

-- What a run of the copy loop comes to: it ends, the file is as it was but for the bytes written,
-- and no chunk elsewhere has changed.
pub record Written (s : ChunkStore) (f : File) (start : Option ℕ) (is : List ℕ) (cs : List Chunk)
    (lo : ℕ) (buf : List ℕ) (r : Option (ChunkStore × File)) : Type 0 where
  pub store : ChunkStore
  pub after : List Chunk
  pub result : r ≡ some (store, f)
  pub spots : Spots store.chunks start is after
  pub filled : Filled after
  pub bytes : content after ≡ take lo (content cs) ++ buf ++ drop (lo + length buf) (content cs)
  pub elsewhere : (j : ℕ) → Apart j is → get_elem? store.chunks j ≡ get_elem? s.chunks j
  pub free : store.chunk_free_list ≡ s.chunk_free_list

pub nothing_left :
    (s : ChunkStore) (f : File) (start : Option ℕ) (is : List ℕ) (cs : List Chunk) (lo : ℕ)
    → Spots s.chunks start is cs
    → Filled cs
    → Written s f start is cs lo [] (some (s, f))
nothing_left s f start is cs lo at fi = record {
  store = s;
  after = cs;
  result = refl;
  spots = at;
  filled = fi;
  bytes = no_bytes (content cs) lo;
  elsewhere = λ j apart. refl;
  free = refl;
}

-- A chunk list of the same places is empty when the other is.
pub Spots-nil :
    (old new : List Chunk) (o p : Option ℕ) (is : List ℕ) (cs ds : List Chunk)
    → Spots old o is cs
    → Spots new p is ds
    → cs ≡ []
    → ds ≡ []
unfolding Spots
Spots-nil old new o p [] cs [] a b e = refl
Spots-nil old new o p [] cs (d ∷ ds) a b e = absurd b
Spots-nil old new o p (i ∷ is) [] ds a b e = absurd a
Spots-nil old new o p (i ∷ is) (c ∷ cs) ds a b e = cc

-- How far a round goes: to the end of the buffer, or to the end of a full chunk.
round_fits :
    (c : Chunk) (cs : List Chunk) (lo n m : ℕ)
    → length c.bytes ≡ 1024
    → c.used ≤ 1024
    → cs ≡ [] ⊎ c.used ≡ 1024
    → lo < 1024
    → lo + n ≤ length (content (c ∷ cs))
    → m ≡ min n (1024 - lo)
    → (lo + m ≤ c.used) × ((m ≡ n) ⊎ (lo + m ≡ 1024 × c.used ≡ 1024))
unfolding content
round_fits c cs lo n m full small (inl e) near inside cut =
    let nil : length (content cs) ≡ 0 = ap (λ w. length (content w)) e in
    let all = length-content c cs full small in (omega arith, inl (omega arith))
round_fits c cs lo n m full small (inr e) near inside cut = (
  omega arith,
  elim (Bool-cases (leb n (1024 - lo))) [
    | inl h ↦ inl (ground arith)
    | inr h ↦ inr (ground arith, e)
  ],
)

abbrev after_round : ChunkStore → ℕ → Chunk → ChunkStore
after_round s i c = record s { chunks = set s.chunks i c }

-- A round, and what the rest of the run comes to.
Written-round :
    (s : ChunkStore) (f : File) (i : ℕ) (is : List ℕ) (c : Chunk) (cs : List Chunk) (lo m : ℕ)
    (buf : List ℕ) (r : Option (ChunkStore × File))
    → Spots s.chunks (some i) (i ∷ is) (c ∷ cs)
    → Apart i is
    → Filled (c ∷ cs)
    → m ≤ length buf
    → lo + m ≤ c.used
    → (m ≡ length buf) ⊎ (lo + m ≡ 1024 × c.used ≡ 1024)
    → Written
        (after_round s i (record c { bytes = splice c.bytes lo (take m buf) }))
        f
        c.next
        is
        cs
        0
        (drop m buf)
        r
    → Written s f (some i) (i ∷ is) (c ∷ cs) lo buf r
unfolding Spots Filled content splice
Written-round s f i is c cs lo m buf r (es, eg, more) apart (full, small, last, fi) part inside cut
      w =
    let c' : Chunk = record c {
      bytes = take lo c.bytes ++ take m buf ++ drop (lo + length (take m buf)) c.bytes;
    } in
    let at_i : get_elem? (set s.chunks i c') i ≡ some c' =
      get_elem?-set_self s.chunks i c' (in_range s.chunks i c eg) in
    let whole : length c'.bytes ≡ 1024 =
      round_size c.bytes (content cs) buf c.used lo m full small inside part in
    let rest : content w.after ≡ drop m buf ++ drop (length (drop m buf)) (content cs) =
      w.bytes ∙ ap (λ n. drop m buf ++ drop n (content cs)) (zero_plus (length (drop m buf))) in
    record {
      store = w.store;
      after = c' ∷ w.after;
      result = w.result;
      spots = (refl, w.elsewhere i apart ∙ at_i, w.spots);
      filled = (
        whole,
        small,
        elim last [
          | inl e ↦
              inl (Spots-nil s.chunks w.store.chunks c.next c.next is cs w.after more w.spots e)
          | inr e ↦ inr e
        ],
        w.filled,
      );
      bytes =
          ap (◌++◌ (take c.used c'.bytes)) rest
          ∙ round_bytes c.bytes (content cs) buf c.used lo m full small inside part cut;
      elsewhere =
          λ j away. w.elsewhere j away.1 ∙ get_elem?-set_ne s.chunks i j c' (λ e. away.0 (sym e));
      free = w.free;
    }

pub write_chain-Written :
    (fuel : ℕ) (s : ChunkStore) (f : File) (start : Option ℕ) (is : List ℕ) (cs : List Chunk)
    (lo : ℕ) (buf : List ℕ)
    → Spots s.chunks start is cs
    → Distinct is
    → Filled cs
    → lo < 1024
    → lo + length buf ≤ length (content cs)
    → length buf ≤ fuel
    → Written s f start is cs lo buf (write_chain fuel s f start lo buf)
unfolding write_chain chunk_for_write put_chunk Spots Filled
write_chain-Written fuel s f start is cs lo [] at di fi near inside enough =
    nothing_left s f start is cs lo at fi
write_chain-Written zero s f start is cs lo (b ∷ buf) at di fi near inside enough =
    absurd (omega arith)
write_chain-Written (suc fuel) s f start [] [] lo (b ∷ buf) at di fi near inside enough =
    absurd (unfold content in omega arith)
write_chain-Written (suc fuel) s f start [] (c ∷ cs) lo (b ∷ buf) at di fi near inside enough =
    absurd at
write_chain-Written (suc fuel) s f start (i ∷ is) [] lo (b ∷ buf) at di fi near inside enough =
    absurd at
write_chain-Written (suc fuel) s f start (i ∷ is) (c ∷ cs) lo (b ∷ buf) (es, eg, more) (apart, di)
      (full, small, last, fi) near inside enough =
    let all = length-content c cs full small in
    let within = in_front c cs lo full small last near (omega arith) in
    let m : ℕ = min (length (b ∷ buf)) (1024 - lo) in
    let (inside', cut) = round_fits c cs lo (length (b ∷ buf)) m full small last near inside refl in
    let c' : Chunk = record c { bytes = splice c.bytes lo (take m (b ∷ buf)) } in
    let round = write_round_within c lo m (b ∷ buf) near inside' refl in
    let range : ltb i (length s.chunks) ≡ true = let r = in_range s.chunks i c eg in ground arith in
    let left = length-drop m (b ∷ buf) in
    let fits : length (b ∷ buf) - m ≤ length (content cs) = elim cut [
      | inl e ↦ omega arith
      | inr (x, y) ↦ omega arith
    ] in
    let ih =
      write_chain-Written fuel (after_round s i c') f c.next is cs 0 (drop m (b ∷ buf))
        (Spots-set s.chunks c.next is cs i c' apart more) di fi (omega arith) (omega arith)
        (omega arith) in
    rw (es, eg, round, range)
      (Written-round s f i is c cs lo m (b ∷ buf) _ (refl, eg, more) apart (full, small, last, fi)
        (omega arith) inside' cut ih)
