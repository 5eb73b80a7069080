-- ===== src/Ipc/EndOfFile.antt =====
-- The end of file of a pipe (rust-grates/ipc-grate/src/pipe.rs): which reads see it, by what the other
-- threads do between their steps.
use lind_wasm_example_grates.Path.Text.{is_empty}
use lind_wasm_example_grates.Base.Words.{as_i32, pos}
use lind_wasm_example_grates.Ipc.Flow.{quiet, bytes_of, write_nonblocking}
use lind_wasm_example_grates.Ipc.Ring.{RingCrate}
use lind_wasm_example_grates.Ipc.Pipe.{
  returned, waiting, eagain, eintr, Outcome, PipeBuffer, interrupted, slept, Round, Nap, read,
  read_loop, write_loop, write, decr_write_ref,
}
use lind_wasm_example_grates.Base.{
  ℕ, zero, suc, refl, inl, inr, true, false, [], ◌∷◌, Bool-cases, List, ◌≡◌, ◌≢◌, All, Bool, ◌⊎◌,
  arith, length, min, ◌≤◌, eqb, ap, length-take, take, ◌∙◌, drop, take_all, take-min, subst,
}

take_nil : (n : ℕ) → ◌≡◌ {A = List ℕ} (take n []) []
take_nil zero = refl
take_nil (suc n) = refl

drop_nil : (n : ℕ) → ◌≡◌ {A = List ℕ} (drop n []) []
drop_nil zero = refl
drop_nil (suc n) = refl

module _ (R : RingCrate) where
  open R use {contents, capacity, popped, contents_pop, capacity_pop, pushed, capacity_push, within}

  Nap-cases :
      (nap : Nap R)
      → (nap ≡ interrupted) ⊎ ((others : PipeBuffer R → PipeBuffer R) × (nap ≡ slept others))
  Nap-cases interrupted = inl refl
  Nap-cases (slept others) = inr (others, refl)

  abbrev pub NapLeavesOpen : Nap R → Type 0
  NapLeavesOpen interrupted = Unit
  NapLeavesOpen (slept others) = (q : PipeBuffer R) → q.eof ≡ false → (others q).eof ≡ false

  -- The other threads do not mark the end of file.
  pub record LeavesOpen (r : Round R) : Type 0 where
    pub in_gap : (q : PipeBuffer R) → q.eof ≡ false → (r.gap q).eof ≡ false
    pub in_sleep : NapLeavesOpen r.nap

  -- A signal arrives in one of the sleeps.
  abbrev pub HasSignal : List (Round R) → Type 0
  HasSignal [] = ⊥
  HasSignal (r ∷ rs) = (r.nap ≡ interrupted) ⊎ HasSignal rs

  -- What a read of at most so many bytes may end with while the pipe has a writer.
  pub data OpenRead (rs : List (Round R)) (most : ℕ) (nonblocking : Bool) : Outcome → Type 0 where
    some_bytes :
        (bytes : List ℕ)
        → bytes ≢ []
        → length bytes ≤ most
        → OpenRead rs most nonblocking (returned (as_i32 (length bytes)) bytes)
    not_now : nonblocking ≡ true → OpenRead rs most nonblocking (returned eagain [])
    by_signal :
        nonblocking ≡ false → HasSignal rs → OpenRead rs most nonblocking (returned eintr [])
    asleep : nonblocking ≡ false → OpenRead rs most nonblocking waiting

  take_some : (n : ℕ) (xs : List ℕ) → is_empty (take n xs) ≡ false → take n xs ≢ []
  take_some n xs h e = ground (arith, h, e)

  -- The part of a read that does not go on: the ring held bytes.
  found_bytes :
      (rs : List (Round R)) (n : ℕ) (nonblocking : Bool) (p : PipeBuffer R)
      → is_empty (R.pop_slice p.ring n).1 ≡ false
      → OpenRead rs n nonblocking
          (returned (as_i32 (length (R.pop_slice p.ring n).1)) (R.pop_slice p.ring n).1)
  found_bytes rs n nonblocking p h =
      let e = popped p.ring n in
      some_bytes (R.pop_slice p.ring n).1 (λ none_left. ground (arith, h, none_left))
        (omega (arith, ap length e, length-take n (contents p.ring)))

  later_signal :
      (r : Round R) (rs : List (Round R)) (n : ℕ) (out : Outcome)
      → OpenRead rs n false out
      → OpenRead (r ∷ rs) n false out
  later_signal r rs n _ (some_bytes bytes h le) = some_bytes bytes h le
  later_signal r rs n _ (not_now e) = not_now e
  later_signal r rs n _ (by_signal e s) = by_signal e (inr s)
  later_signal r rs n _ (asleep e) = asleep e

  read_loop_open :
      (rs : List (Round R)) (n : ℕ) (p : PipeBuffer R)
      → All LeavesOpen rs
      → p.eof ≡ false
      → OpenRead rs n false (read_loop R rs n false p).1
  unfolding read_loop
  read_loop_open [] n p good open_end = asleep refl
  read_loop_open (r ∷ rs) n p good open_end =
      let p' : PipeBuffer R = record p { ring = (R.pop_slice p.ring n).0 } in
      let still = good.0.in_gap p' open_end in
      elim (Bool-cases (is_empty (R.pop_slice p.ring n).1)) [
        | inr e ↦ rw e (found_bytes (r ∷ rs) n false p e)
        | inl e ↦ elim (Nap-cases r.nap) [
          | inl signal ↦ rw (e, still, signal) (by_signal refl (inl refl))
          | inr (others, sleeps) ↦
              rw (e, still, sleeps)
                (later_signal _ rs n _ (
                  read_loop_open rs n (others (r.gap p')) good.1
                    (subst NapLeavesOpen sleeps good.0.in_sleep (r.gap p') still)))
        ]
      ]

  -- A read of a pipe whose end of file is unmarked, and which the other threads leave unmarked in
  -- every round, never ends with the 0 of an end of file for want of bytes: it returns one byte or
  -- more and no more than count and buffer allow, or EAGAIN in nonblocking mode, or in blocking
  -- mode EINTR if a signal comes in some sleep, or it still sleeps.
  pub read_open_end :
      (r : Round R) (rs : List (Round R)) (room count : ℕ) (nonblocking : Bool) (p : PipeBuffer R)
      → All LeavesOpen (r ∷ rs)
      → p.eof ≡ false
      → OpenRead (r ∷ rs) (min count room) nonblocking (read R (r ∷ rs) room count nonblocking p).1
  unfolding read
  read_open_end r rs room count false p good open_end =
      read_loop_open (r ∷ rs) (min count room) p good open_end
  read_open_end r rs room count true p good open_end =
      let n = min count room in
      let p' : PipeBuffer R = record p { ring = (R.pop_slice p.ring n).0 } in
      let still = good.0.in_gap p' open_end in
      unfold read_loop in
      elim (Bool-cases (is_empty (R.pop_slice p.ring n).1)) [
        | inr e ↦ rw e (found_bytes (r ∷ rs) n true p e)
        | inl e ↦ rw (e, still) (not_now refl)
      ]

  -- Another thread writes while the reader sleeps.
  abbrev pub writing : List ℕ → Round R
  writing src = record {
    gap = λ q. q;
    nap = slept (λ q. (write R (quiet R ∷ []) src (length src) true q).0);
  }

  eof-write_loop :
      (src : List ℕ) (p : PipeBuffer R) → (write_loop R (quiet R ∷ []) 0 src true p).0.eof ≡ p.eof
  unfolding write_loop
  eof-write_loop [] p = refl
  eof-write_loop (b ∷ rest) p = ground arith

  pub writing-LeavesOpen : (src : List ℕ) → LeavesOpen (writing src)
  writing-LeavesOpen src = record {
    in_gap = λ q h. h;
    in_sleep = λ q h. elim (Bool-cases (eqb q.read_refs 0)) [
      | inl e ↦ unfold write in rw e h
      | inr e ↦
          unfold write in rw e (eof-write_loop (take (min (length src) (length src)) src) q ∙ h)
    ];
  }

  -- Another thread writes, and then closes the last write end, behind a reader's first look.
  abbrev pub last_words : List ℕ → Nap R → Round R
  last_words src nap = record {
    gap = λ q. decr_write_ref R (write R (quiet R ∷ []) src (length src) true q).0;
    nap = nap;
  }

  write_refs-write_loop :
      (src : List ℕ) (p : PipeBuffer R)
      → p.read_refs ≢ 0
      → (write_loop R (quiet R ∷ []) 0 src true p).0.write_refs ≡ p.write_refs
  unfolding write_loop
  write_refs-write_loop [] p h = refl
  write_refs-write_loop (b ∷ rest) p h = ground arith

  -- The bytes are in the pipe and the end of file is marked.
  last_words_left :
      (src : List ℕ) (nap : Nap R) (p : PipeBuffer R)
      → bytes_of R p ≡ []
      → p.write_refs ≡ 1
      → p.read_refs ≢ 0
      → (((last_words src nap).gap p).eof ≡ true)
        × (bytes_of R ((last_words src nap).gap p) ≡ take (capacity p.ring) src)
  last_words_left src nap p no_bytes one_writer reader =
      let (written, out, still, cap) = write_nonblocking R [] src (length src) p reader in
      let all = take_all src {n = min (length src) (length src)} (omega arith) in
      let there : eqb p.read_refs 0 ≡ false = ground arith in
      (
        unfold decr_write_ref write in
            rw
              (
                there,
                write_refs-write_loop (take (min (length src) (length src)) src) p reader,
                one_writer,
              )
              refl,
        unfold decr_write_ref in
            written
            ∙ rw (all, no_bytes)
                (ap (λ k. take k src) (omega arith) ∙ take-min (capacity p.ring) src),
      )

  -- When another thread, after a reader of an empty pipe has looked at the ring and before it
  -- looks at the flag, writes without blocking to the pipe and closes its only write end, the read
  -- returns 0, the end of file, and the pipe then holds what was written, as much as its capacity
  -- takes.
  pub read_misses_last_words :
      (rs : List (Round R)) (nap : Nap R) (src : List ℕ) (room count : ℕ) (nonblocking : Bool)
      (p : PipeBuffer R)
      → bytes_of R p ≡ []
      → p.write_refs ≡ 1
      → p.read_refs ≢ 0
      → let (p', out) = read R (last_words src nap ∷ rs) room count nonblocking p in
        (out ≡ returned (pos 0) []) × (bytes_of R p' ≡ take (capacity p.ring) src)
  unfolding read read_loop
  read_misses_last_words rs nap src room count nonblocking p no_bytes one_writer reader =
      let n = min count room in
      let p' : PipeBuffer R = record p { ring = (R.pop_slice p.ring n).0 } in
      let none_out = popped p.ring n ∙ ap (take n) no_bytes ∙ take_nil n in
      let none_left = contents_pop p.ring n ∙ ap (drop n) no_bytes ∙ drop_nil n in
      let (closed, left) = last_words_left src nap p' none_left one_writer reader in
      rw (ap is_empty none_out, closed) (refl, left ∙ ap (λ k. take k src) (capacity_pop p.ring n))
