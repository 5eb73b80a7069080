-- ===== src/Ipc/Stream.antt =====
-- A pipe over any sequence of nonblocking calls and of dups and closes of its ends: the bytes come
-- out in the order in which they went in, and the end of file is marked when the last writer goes
-- (rust-grates/ipc-grate/src/pipe.rs).
use mathlib.Core.Path.{ap₂}
use mathlib.Core.List.{append_assoc, append-nil}
use lind_wasm_example_grates.Base.{
  ℕ, zero, suc, ◌+◌, ◌-◌, ◌≤◌, ◌<◌, ◌^◌, ◌≡◌, refl, sym, ap, ◌∙◌, inl, inr, true, false, List, [],
  ◌∷◌, ◌++◌, length, take, min, arith, eqb, leb, if◌then◌else◌, Bool-cases, length-take,
  take-append-drop,
}
use lind_wasm_example_grates.Base.Words.{pos, negsuc, as_i32, as_i32_small, u32_mod}
use lind_wasm_example_grates.Ipc.Ring.{RingCrate}
use lind_wasm_example_grates.Ipc.Pipe.{
  Outcome, returned, waiting, eagain, PipeBuffer, new_pipe, read, write, short, incr_write_ref,
  decr_write_ref, incr_read_ref, decr_read_ref,
}
use lind_wasm_example_grates.Ipc.Flow.{quiet, bytes_of, room_of, write_nonblocking}

-- The number that a call reported, 0 for an error.
abbrev pub reported : Outcome → ℕ
reported (returned (pos n) bytes) = n
reported (returned (negsuc n) bytes) = 0
reported waiting = 0

abbrev pub delivered : Outcome → List ℕ
delivered (returned r bytes) = bytes
delivered waiting = []

pub data Call : Type 0 where
  writes : List ℕ → ℕ → Call
  reads : ℕ → ℕ → Call
  dup_writer close_writer dup_reader close_reader : Call

module _ (R : RingCrate) where
  -- The pipe, the bytes that writes reported as taken, and the bytes that reads returned.
  pub record Session : Type 0 where
    pub pipe : PipeBuffer R
    pub accepted : List ℕ
    pub received : List ℕ

  unfoldable pub step : Session → Call → Session
  step s (writes src count) =
      let (p, out) = write R (quiet R ∷ []) src count true s.pipe in
      record s { pipe = p; accepted = s.accepted ++ take (reported out) src }
  step s (reads room count) =
      let (p, out) = read R (quiet R ∷ []) room count true s.pipe in
      record s { pipe = p; received = s.received ++ delivered out }
  step s dup_writer = record s { pipe = incr_write_ref R s.pipe }
  step s close_writer = record s { pipe = decr_write_ref R s.pipe }
  step s dup_reader = record s { pipe = incr_read_ref R s.pipe }
  step s close_reader = record s { pipe = decr_read_ref R s.pipe }

  unfoldable pub run : Session → List Call → Session
  run s [] = s
  run s (c ∷ cs) = run (step s c) cs

  abbrev pub start : ℕ → Session
  start cap = record { pipe = new_pipe R cap; accepted = []; received = [] }

  pub record InOrder (s : Session) : Type 0 where
    pub stream : s.accepted ≡ s.received ++ bytes_of R s.pipe
    pub small : R.capacity s.pipe.ring < 2 ^ 31

  reported-short : (n : ℕ) → n < 2 ^ 31 → reported (short R n eagain) ≡ n
  reported-short zero h = refl
  reported-short (suc n) h = ap reported (ap (λ r. returned r []) (as_i32_small (suc n) h))

  take-take-min : (n m : ℕ) (src : List ℕ) → n ≤ m → take n (take m src) ≡ take n src
  take-take-min zero m src h = refl
  take-take-min (suc n) zero src h = absurd (omega arith)
  take-take-min (suc n) (suc m) [] h = refl
  take-take-min (suc n) (suc m) (b ∷ src) h = ap (◌∷◌ b) (take-take-min n m src (omega arith))

  reported_number :
      (len n : ℕ)
      → n < 2 ^ 31
      → reported (if leb len n then returned (as_i32 n) [] else short R n eagain) ≡ n
  reported_number len n h = elim (Bool-cases (leb len n)) [
    | inl e ↦ rw (e, as_i32_small n h)
    | inr e ↦ rw e (reported-short n h)
  ]

  write-InOrder :
      (src : List ℕ) (count : ℕ) (s : Session) → InOrder s → InOrder (step s (writes src count))
  write-InOrder src count s v = elim (Bool-cases (eqb s.pipe.read_refs 0)) [
    | inl broken ↦
        unfold step write in rw broken (record { stream = rw append-nil v.stream; small = v.small })
    | inr reader ↦
        let src' = take (min count (length src)) src in
        let n = min (length src') (room_of R s.pipe) in
        let (appended, said, _, same) = write_nonblocking R [] src count s.pipe (ground arith) in
        let few : n < 2 ^ 31 = omega (arith, v.small) in
        let number = ap reported said ∙ reported_number (length src') n few in
        let front =
          take-take-min n (min count (length src)) src
            (omega (arith, length-take (min count (length src)) src)) in
        unfold step in
        record {
          stream = rw (number, ← front, appended, v.stream) (append_assoc s.received _ _);
          small = rw same v.small;
        }
  ]

  read-quiet :
      (room count : ℕ) (p : PipeBuffer R)
      → let (p', out) = read R (quiet R ∷ []) room count true p in
        let (ring', bytes) = R.pop_slice p.ring (min count room) in
        (delivered out ≡ bytes) × (p'.ring ≡ ring')
  unfolding read
  read-quiet room count p = ground arith

  read-InOrder : (room count : ℕ) (s : Session) → InOrder s → InOrder (step s (reads room count))
  read-InOrder room count s v =
      let n = min count room in
      let (out, ring) = read-quiet room count s.pipe in
      unfold step in
      record {
        stream =
            v.stream
            ∙ ap (λ l. s.received ++ l) (sym (take-append-drop n (bytes_of R s.pipe)))
            ∙ sym (append_assoc s.received _ _)
            ∙ ap₂ (λ a b. (s.received ++ a) ++ b) (sym (out ∙ R.popped s.pipe.ring n))
                (sym (ap R.contents ring ∙ R.contents_pop s.pipe.ring n));
        small = rw (ring, R.capacity_pop) v.small;
      }

  step-InOrder : (c : Call) (s : Session) → InOrder s → InOrder (step s c)
  step-InOrder (writes src count) s v = write-InOrder src count s v
  step-InOrder (reads room count) s v = read-InOrder room count s v
  step-InOrder dup_writer s v =
      unfold step incr_write_ref in record { stream = v.stream; small = v.small }
  step-InOrder close_writer s v =
      unfold step decr_write_ref in record { stream = v.stream; small = v.small }
  step-InOrder dup_reader s v =
      unfold step incr_read_ref in record { stream = v.stream; small = v.small }
  step-InOrder close_reader s v =
      unfold step decr_read_ref in record { stream = v.stream; small = v.small }

  run-InOrder : (cs : List Call) (s : Session) → InOrder s → InOrder (run s cs)
  unfolding run
  run-InOrder [] s v = v
  run-InOrder (c ∷ cs) s v = run-InOrder cs (step s c) (step-InOrder c s v)

  -- For a pipe of less than 2^31 bytes and any sequence of nonblocking reads and writes, dups and
  -- closes, the bytes that writes reported as written are, in order, those that reads returned and
  -- then those still in the pipe.
  pub pipe_is_fifo :
      (cap : ℕ) (cs : List Call)
      → cap < 2 ^ 31
      → let s = run (start cap) cs in s.accepted ≡ s.received ++ bytes_of R s.pipe
  pipe_is_fifo cap cs h =
      (run-InOrder cs (start cap) (
        unfold new_pipe in
        record { stream = sym (R.contents_new cap); small = rw R.capacity_new h })).stream

  -- n dups of the write end, then m closes of it.
  abbrev pub repeat : ℕ → Call → List Call → List Call
  repeat zero c cs = cs
  repeat (suc n) c cs = c ∷ repeat n c cs

  dups-run :
      (n : ℕ) (cs : List Call) (s : Session) (k : ℕ)
      → s.pipe.eof ≡ false
      → s.pipe.write_refs ≡ k
      → k + n < u32_mod
      → (t : Session) × (run s (repeat n dup_writer cs) ≡ run t cs)
        × (t.pipe.eof ≡ false)
        × (t.pipe.write_refs ≡ k + n)
  unfolding run step incr_write_ref
  dups-run zero cs s k e w h = (s, refl, e, omega arith)
  dups-run (suc n) cs s k e w h =
      let (t, r, e', w') =
        dups-run n cs (step s dup_writer) (k + 1) e (omega arith) (omega arith) in
      (t, r, e', omega arith)

  closes-run :
      (m : ℕ) (s : Session) (k : ℕ)
      → s.pipe.eof ≡ false
      → s.pipe.write_refs ≡ k
      → m ≤ k
      → 0 < k
      → k < u32_mod
      → (run s (repeat m close_writer [])).pipe.eof ≡ eqb m k
  unfolding run step decr_write_ref
  closes-run zero s k e w le h lt = ground arith
  closes-run (suc zero) s k e w le h lt = ground arith
  closes-run (suc (suc m)) s k e w le h lt =
      closes-run (suc m) (step s close_writer) (k - 1) (ground arith) (omega arith) (omega arith)
        (omega arith) (omega arith)
      ∙ ground arith

  -- After n dups of the write end of a new pipe and m closes, m at most n + 1 and n + 1 below
  -- 2^32, the end of file is marked exactly when m is n + 1.
  pub eof_after_closes :
      (cap n m : ℕ)
      → m ≤ n + 1
      → n + 1 < u32_mod
      → (run (start cap) (repeat n dup_writer (repeat m close_writer []))).pipe.eof ≡ eqb m (n + 1)
  eof_after_closes cap n m le h =
      let (t, r, e, w) =
        dups-run n (repeat m close_writer []) (start cap) 1 (unfold new_pipe in refl)
          (unfold new_pipe in refl) (omega arith) in
      ap (λ (s : Session). s.pipe.eof) r ∙ closes-run m t (n + 1) e (omega arith) le (omega arith) h
