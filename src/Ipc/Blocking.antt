-- ===== src/Ipc/Blocking.antt =====
-- Blocking writes of a pipe (rust-grates/ipc-grate/src/pipe.rs), by what the other threads do between
-- their steps.
use lind_wasm_example_grates.Base.Words.{as_i32}
use lind_wasm_example_grates.Ipc.Flow.{quiet, room_of}
use lind_wasm_example_grates.Ipc.Ring.{RingCrate}
use lind_wasm_example_grates.Ipc.Pipe.{
  returned, PipeBuffer, slept, Round, read, read_loop, write_loop, write,
}
use lind_wasm_example_grates.Base.{
  ℕ, refl, inl, inr, true, false, [], ◌∷◌, Bool-cases, List, ◌<◌, ◌≡◌, ◌≢◌, All, arith, length, min,
  length-drop, ◌≤◌, eqb, ◌+◌, ap, length-take, take, ◌∙◌, leb, drop,
}

module _ (R : RingCrate) where
  open R use {contents, capacity, popped, contents_pop, capacity_pop, pushed, capacity_push, within}

  -- A pipe with a reader, of a capacity.
  abbrev pub HasReader : ℕ → PipeBuffer R → Type 0
  HasReader cap q = (q.read_refs ≢ 0) × (capacity q.ring ≡ cap)

  -- A round in which the other threads leave a pipe with a reader one with a reader, and have room
  -- for a byte in it when the sleep is over.
  pub record Helpful (cap : ℕ) (r : Round R) : Type 0 where
    pub sleep : PipeBuffer R → PipeBuffer R
    pub not_interrupted : r.nap ≡ slept sleep
    pub reader_stays : (q : PipeBuffer R) → HasReader cap q → HasReader cap (r.gap q)
    pub frees :
        (q : PipeBuffer R) → HasReader cap q → HasReader cap (sleep q) × (0 < room_of R (sleep q))

  -- What a read by another thread leaves.
  abbrev pub after_read : ℕ → PipeBuffer R → PipeBuffer R
  after_read count q = (read R (quiet R ∷ []) count count true q).0

  after_read_frees :
      (count cap : ℕ) (q : PipeBuffer R)
      → 0 < count
      → 0 < cap
      → HasReader cap q
      → HasReader cap (after_read count q) × (0 < room_of R (after_read count q))
  unfolding read read_loop
  after_read_frees count cap q some_bytes some_room open_end = ground (
    arith,
    contents_pop q.ring (min count count),
    capacity_pop q.ring (min count count),
    within q.ring,
    length-drop (min count count) (contents q.ring),
  )

  -- The other threads read while the writer sleeps.
  abbrev pub reading : ℕ → Round R
  reading count = record { gap = λ q. q; nap = slept (after_read count) }

  pub reading-Helpful : (count cap : ℕ) → 0 < count → 0 < cap → Helpful cap (reading count)
  reading-Helpful count cap some_bytes some_room = record {
    sleep = after_read count;
    not_interrupted = refl;
    reader_stays = λ q h. h;
    frees = λ q h. after_read_frees count cap q some_bytes some_room h;
  }

  write_loop_completes :
      (cap : ℕ) (rs : List (Round R)) (total : ℕ) (src : List ℕ) (p : PipeBuffer R)
      → All (Helpful cap) rs
      → length src ≤ length rs
      → HasReader cap p
      → 0 < room_of R p
      → (write_loop R rs total src false p).1 ≡ returned (as_i32 (total + length src)) []
  unfolding write_loop
  write_loop_completes cap rs total [] p good enough open_end room =
      ap (λ (n : ℕ). returned (as_i32 n) []) (omega arith)
  write_loop_completes cap [] total (b ∷ rest) p good enough open_end room = absurd (omega arith)
  write_loop_completes cap (r ∷ rs) total (b ∷ rest) p good enough open_end room =
      let (ring', n) = R.push_slice p.ring (b ∷ rest) in
      let p' : PipeBuffer R = record p { ring = ring' } in
      let e = pushed p.ring (b ∷ rest) in
      let still : HasReader cap (r.gap p') =
        good.0.reader_stays p' (open_end.0, capacity_push p.ring (b ∷ rest) ∙ open_end.1) in
      let woken = good.0.frees (r.gap p') still in
      elim (Bool-cases (leb (length (b ∷ rest)) n)) [
        | inl all_in ↦
            rw all_in (ap (λ (k : ℕ). returned (as_i32 (total + k)) []) (ground (arith, e)))
        | inr some_left ↦
            let reader : eqb (r.gap p').read_refs 0 ≡ false = ground (arith, still.0) in
            let left = length-drop n (b ∷ rest) in
            rw (some_left, reader, good.0.not_interrupted)
              (write_loop_completes cap rs (total + n) (drop n (b ∷ rest)) (good.0.sleep (r.gap p'))
                  good.1 (ground (arith, e, left)) woken.0 woken.1
                ∙ ap (λ (k : ℕ). returned (as_i32 k) []) (ground (arith, e, left)))
      ]

  -- A blocking write returns the whole count, if the pipe has a reader and room for a byte, there
  -- are as many rounds as bytes, and in each round the others send no signal, leave every pipe of
  -- its capacity that has a reader one with a reader, and leave room for a byte in it when the
  -- sleep is over.
  pub write_completes :
      (rs : List (Round R)) (src : List ℕ) (count : ℕ) (p : PipeBuffer R)
      → All (Helpful (capacity p.ring)) rs
      → min count (length src) ≤ length rs
      → p.read_refs ≢ 0
      → 0 < room_of R p
      → (write R rs src count false p).1 ≡ returned (as_i32 (min count (length src))) []
  unfolding write
  write_completes rs src count p good enough reader room =
      let open_end : eqb p.read_refs 0 ≡ false = ground arith in
      let len = length-take (min count (length src)) src in
      rw open_end (
        write_loop_completes (capacity p.ring) rs 0 (take (min count (length src)) src) p good
          (omega (arith, len)) (reader, refl) room
        ∙ ap (λ (k : ℕ). returned (as_i32 k) []) (omega (arith, len)))
