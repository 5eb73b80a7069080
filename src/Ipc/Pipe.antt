-- ===== src/Ipc/Pipe.antt =====
-- The pipe of rust-grates/ipc-grate/src/pipe.rs. The threads of other cages act between two steps
-- of a blocking call: a `Round` says what they do after the first look at the ring (`gap`) and how
-- the sleep at the end of a round of the loop goes. A call that is given no more rounds is waiting.
use lind_wasm_example_grates.Base.{
  ℕ, zero, suc, ◌+◌, ◌-◌, ◌%◌, Bool, true, false, not, List, [], ◌∷◌, length, take, drop, min, eqb,
  ltb, leb, if◌then◌else◌,
}
use lind_wasm_example_grates.Base.Words.{ℤ, pos, neg, as_i32, u32_mod}
use lind_wasm_example_grates.Path.Text.{is_empty}
use lind_wasm_example_grates.Ipc.Ring.{RingCrate}

abbrev pub eintr : ℤ
eintr = neg 4

abbrev pub eagain : ℤ
eagain = neg 11

abbrev pub epipe : ℤ
epipe = neg 32

abbrev pub pipe_capacity : ℕ
pipe_capacity = 65536

-- What a call returns, with the bytes that it took out; or that it still sleeps.
pub data Outcome : Type 0 where
  returned : ℤ → List ℕ → Outcome
  waiting : Outcome

module _ (R : RingCrate) where
  open R use {Ring, new, push_slice, pop_slice, contents, capacity}

  pub record PipeBuffer : Type 0 where
    pub ring : Ring
    pub write_refs : ℕ
    pub read_refs : ℕ
    pub eof : Bool

  -- `nap_signal_aware`: interrupted by a signal, or slept while others did something to the pipe.
  pub data Nap : Type 0 where
    interrupted : Nap
    slept : (PipeBuffer → PipeBuffer) → Nap

  pub record Round : Type 0 where
    pub gap : PipeBuffer → PipeBuffer
    pub nap : Nap

  unfoldable pub new_pipe : ℕ → PipeBuffer
  new_pipe cap = record { ring = new cap; write_refs = 1; read_refs = 1; eof = false }

  unfoldable pub read_loop : List Round → ℕ → Bool → PipeBuffer → PipeBuffer × Outcome
  read_loop [] n nonblocking p = (p, waiting)
  read_loop (r ∷ rs) n nonblocking p =
      let (ring', bytes) = pop_slice p.ring n in
      let p' = record p { ring = ring' } in
      let p'' = r.gap p' in
      let again : PipeBuffer × Outcome = elim r.nap [
        | interrupted ↦ (p'', returned eintr [])
        | slept others ↦ read_loop rs n nonblocking (others p'')
      ] in
      if not (is_empty bytes)
      then (p', returned (as_i32 (length bytes)) bytes)
      else if p''.eof
      then (p'', returned (pos 0) [])
      else if nonblocking
      then (p'', returned eagain [])
      else again

  -- `room` is the length of the destination slice.
  unfoldable pub read : List Round → ℕ → ℕ → Bool → PipeBuffer → PipeBuffer × Outcome
  unfolding read_loop
  read rounds room count nonblocking p = read_loop rounds (min count room) nonblocking p

  -- The number so far if there is one, or the error.
  abbrev pub short : ℕ → ℤ → Outcome
  short zero e = returned e []
  short (suc n) e = returned (as_i32 (suc n)) []

  -- `rest` is src[total..write_count].
  unfoldable pub write_loop : List Round → ℕ → List ℕ → Bool → PipeBuffer → PipeBuffer × Outcome
  write_loop rounds total [] nonblocking p = (p, returned (as_i32 total) [])
  write_loop [] total (b ∷ rest) nonblocking p = (p, waiting)
  write_loop (r ∷ rs) total (b ∷ rest) nonblocking p =
      let (ring', n) = push_slice p.ring (b ∷ rest) in
      let p' = record p { ring = ring' } in
      let p'' = r.gap p' in
      let again : PipeBuffer × Outcome = elim r.nap [
        | interrupted ↦ (p'', short (total + n) eintr)
        | slept others ↦ write_loop rs (total + n) (drop n (b ∷ rest)) nonblocking (others p'')
      ] in
      if leb (length (b ∷ rest)) n
      then (p', returned (as_i32 (total + n)) [])
      else if eqb p''.read_refs 0
      then (p'', returned epipe [])
      else if nonblocking
      then (p'', short (total + n) eagain)
      else again

  unfoldable pub write : List Round → List ℕ → ℕ → Bool → PipeBuffer → PipeBuffer × Outcome
  unfolding write_loop
  write rounds src count nonblocking p =
      if eqb p.read_refs 0
      then (p, returned epipe [])
      else write_loop rounds 0 (take (min count (length src)) src) nonblocking p

  -- fetch_add and fetch_sub on u32 wrap around.
  abbrev pub fetch_sub : ℕ → ℕ
  fetch_sub n = (n + u32_mod - 1) % u32_mod

  unfoldable pub incr_write_ref : PipeBuffer → PipeBuffer
  incr_write_ref p = record p { write_refs = (p.write_refs + 1) % u32_mod }

  unfoldable pub decr_write_ref : PipeBuffer → PipeBuffer
  decr_write_ref p = record p {
    write_refs = fetch_sub p.write_refs;
    eof = if eqb p.write_refs 1 then true else p.eof;
  }

  unfoldable pub incr_read_ref : PipeBuffer → PipeBuffer
  incr_read_ref p = record p { read_refs = (p.read_refs + 1) % u32_mod }

  unfoldable pub decr_read_ref : PipeBuffer → PipeBuffer
  decr_read_ref p = record p { read_refs = fetch_sub p.read_refs }

  unfoldable pub has_data : PipeBuffer → Bool
  has_data p = not (is_empty (contents p.ring))

  unfoldable pub has_space : PipeBuffer → Bool
  has_space p = ltb (length (contents p.ring)) (capacity p.ring)

  unfoldable pub bytes_available : PipeBuffer → ℕ
  bytes_available p = length (contents p.ring)
