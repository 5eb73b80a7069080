-- ===== src/Ipc/Flow.antt =====
-- What reads and writes of a pipe do to the bytes in it (rust-grates/ipc-grate/src/pipe.rs).
use mathlib.Core.List.{append-nil}
use lind_wasm_example_grates.Base.{
  ℕ, zero, suc, ◌-◌, ◌<◌, ◌≡◌, refl, sym, ap, ◌∙◌, ◌≢◌, Bool, true, false, List, [], ◌∷◌, ◌++◌,
  length, take, drop, min, arith, eqb, leb, if◌then◌else◌,
}
use lind_wasm_example_grates.Base.Words.{as_i32}
use lind_wasm_example_grates.Path.Text.{is_empty}
use lind_wasm_example_grates.Ipc.Ring.{RingCrate}
use lind_wasm_example_grates.Ipc.Pipe.{
  returned, eagain, PipeBuffer, slept, Round, read, write_loop, write, short,
}

take_nonempty : (n : ℕ) (xs : List ℕ) → 0 < n → xs ≢ [] → is_empty (take n xs) ≡ false
take_nonempty zero xs lt h = absurd (omega arith)
take_nonempty (suc n) [] lt h = absurd (h refl)
take_nonempty (suc n) (x ∷ xs) lt h = refl

module _ (R : RingCrate) where
  open R use {
    contents, capacity, popped, contents_pop, capacity_pop, pushed, contents_push, capacity_push,
    within,
  }

  abbrev pub Pipe : Type 0
  Pipe = PipeBuffer R

  -- The bytes in the pipe, oldest first.
  abbrev pub bytes_of : Pipe → List ℕ
  bytes_of p = contents p.ring

  -- A read of a pipe that holds bytes, of a count above 0, takes the oldest bytes, as many as
  -- count and buffer allow, and leaves the rest in order, whatever the other threads do.
  pub read_takes_oldest :
      (r : Round R) (rs : List (Round R)) (room count : ℕ) (nonblocking : Bool) (p : Pipe)
      → bytes_of p ≢ []
      → 0 < min count room
      → let (p', out) = read R (r ∷ rs) room count nonblocking p in
        let taken = take (min count room) (bytes_of p) in
        (out ≡ returned (as_i32 (length taken)) taken)
        × (bytes_of p' ≡ drop (min count room) (bytes_of p))
  unfolding read
  read_takes_oldest r rs room count nonblocking p h lt =
      let e = popped p.ring (min count room) in
      rw (ap is_empty e ∙ take_nonempty (min count room) (bytes_of p) lt h)
        (ap (λ bs. returned (as_i32 (length bs)) bs) e, contents_pop p.ring (min count room))

  -- A round in which no other thread touches the pipe.
  abbrev pub quiet : Round R
  quiet = record { gap = λ p. p; nap = slept (λ p. p) }

  abbrev pub room_of : Pipe → ℕ
  room_of p = capacity p.ring - length (bytes_of p)

  write_loop-quiet :
      (rs : List (Round R)) (src : List ℕ) (p : Pipe)
      → p.read_refs ≢ 0
      → let (p', out) = write_loop R (quiet ∷ rs) 0 src true p in
        let n = min (length src) (room_of p) in
        (bytes_of p' ≡ bytes_of p ++ take n src)
        × (out ≡ (if leb (length src) n then returned (as_i32 n) [] else short R n eagain))
        × (p'.read_refs ≡ p.read_refs)
        × (capacity p'.ring ≡ capacity p.ring)
  unfolding write_loop
  write_loop-quiet rs [] p h =
      let none_in : min 0 (room_of p) ≡ 0 = omega arith in
      rw none_in (sym (append-nil (bytes_of p)), refl, refl, refl)
  write_loop-quiet rs (b ∷ rest) p h =
      rw (← pushed p.ring (b ∷ rest))
        (ground (arith, contents_push p.ring (b ∷ rest), capacity_push p.ring (b ∷ rest)))

  -- A nonblocking write to a pipe with a reader that no other thread touches meanwhile appends the
  -- front of the source as far as there is room and returns its length, or EAGAIN if that is 0 and
  -- more was asked; readers and capacity stay.
  pub write_nonblocking :
      (rs : List (Round R)) (src : List ℕ) (count : ℕ) (p : Pipe)
      → p.read_refs ≢ 0
      → let (p', out) = write R (quiet ∷ rs) src count true p in
        let src' = take (min count (length src)) src in
        let n = min (length src') (room_of p) in
        (bytes_of p' ≡ bytes_of p ++ take n src')
        × (out ≡ (if leb (length src') n then returned (as_i32 n) [] else short R n eagain))
        × (p'.read_refs ≡ p.read_refs)
        × (capacity p'.ring ≡ capacity p.ring)
  unfolding write
  write_nonblocking rs src count p h =
      let open_end : eqb p.read_refs 0 ≡ false = ground arith in
      rw open_end (write_loop-quiet rs (take (min count (length src)) src) p h)
