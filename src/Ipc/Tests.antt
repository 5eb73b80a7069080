-- ===== src/Ipc/Tests.antt =====
-- Runs of the pipe of rust-grates/ipc-grate over a ring that is a list.
use lind_wasm_example_grates.Ipc.Blocking.{Helpful, reading, reading-Helpful, write_completes}
use lind_wasm_example_grates.Ipc.EndOfFile.{
  OpenRead, last_words, read_misses_last_words, writing, read_open_end, writing-LeavesOpen,
}
use lind_wasm_example_grates.Base.{
  ℕ, zero, suc, ◌+◌, ◌<◌, ◌≡◌, ◌≢◌, refl, true, false, List, [], ◌∷◌, ◌++◌, length, take, min,
  arith, eqb, All, replicate,
}
use lind_wasm_example_grates.Base.Words.{pos, as_i32}
use lind_wasm_example_grates.Ipc.ListRing.{put, list_ring}
use lind_wasm_example_grates.Ipc.Pipe.{
  returned, PipeBuffer, Round, interrupted, new_pipe, read, write, decr_write_ref, incr_write_ref,
  read_loop, write_loop,
}
use lind_wasm_example_grates.Ipc.Flow.{
  bytes_of, room_of, quiet, read_takes_oldest, write_nonblocking,
}
use lind_wasm_example_grates.Ipc.Stream.{
  Call, writes, reads, dup_writer, close_writer, run, step, start, repeat, pipe_is_fifo,
  eof_after_closes,
}

abbrev Pipe : Type 0
Pipe = PipeBuffer list_ring

abbrev quiet_round : Round list_ring
quiet_round = quiet list_ring

abbrev fresh : Pipe
unfolding new_pipe
fresh = new_pipe list_ring 16

abbrev hello : List ℕ
hello = b'h' ∷ b'i' ∷ b'!' ∷ []

abbrev loaded : Pipe
unfolding new_pipe
loaded = record fresh { ring = put fresh.ring hello }

write_run : (write list_ring (quiet_round ∷ []) hello 3 true fresh).1 ≡ returned (pos 3) []
unfolding write fresh as_i32
write_run = refl

read_run :
    (read list_ring (quiet_round ∷ []) 64 2 true loaded).1 ≡ returned (pos 2) (b'h' ∷ b'i' ∷ [])
unfolding read loaded as_i32
read_run = refl

loaded_ne_nil : bytes_of list_ring loaded ≢ []
unfolding loaded
loaded_ne_nil e = cc

read_takes_oldest_example :
    (read list_ring (quiet_round ∷ []) 64 2 true loaded).1
    ≡ returned
        (as_i32 (length (take (min 2 64) (bytes_of list_ring loaded))))
        (take (min 2 64) (bytes_of list_ring loaded))
read_takes_oldest_example =
    (read_takes_oldest list_ring quiet_round [] 64 2 true loaded loaded_ne_nil (omega arith)).0

fresh_nil : bytes_of list_ring fresh ≡ []
unfolding fresh
fresh_nil = refl

fresh_open : fresh.eof ≡ false
unfolding fresh
fresh_open = refl

fresh_one_writer : fresh.write_refs ≡ 1
unfolding fresh
fresh_one_writer = refl

-- The reader sleeps once, and then finds what another thread has written.
woken_run :
    (read list_ring (writing list_ring hello ∷ quiet_round ∷ []) 64 2 false fresh).1
    ≡ returned (pos 2) (b'h' ∷ b'i' ∷ [])
unfolding read read_loop fresh write write_loop as_i32
woken_run = refl

read_open_end_example :
    OpenRead list_ring
      (writing list_ring hello ∷ quiet_round ∷ [])
      2
      false
      (read list_ring (writing list_ring hello ∷ quiet_round ∷ []) 64 2 false fresh).1
read_open_end_example =
    read_open_end list_ring (writing list_ring hello) (quiet_round ∷ []) 64 2 false fresh
      (writing-LeavesOpen list_ring hello, (record { in_gap = λ q h. h; in_sleep = λ q h. h }, tt))
      fresh_open

fresh_has_reader : fresh.read_refs ≢ 0
unfolding fresh
fresh_has_reader = omega arith

read_misses_last_words_example :
    let (p, out) = read list_ring (last_words list_ring hello interrupted ∷ []) 64 64 false fresh in
    (out ≡ returned (pos 0) []) × (bytes_of list_ring p ≡ take 16 hello)
unfolding fresh
read_misses_last_words_example =
    read_misses_last_words list_ring [] interrupted hello 64 64 false fresh fresh_nil
      fresh_one_writer fresh_has_reader

write_nonblocking_example :
    bytes_of list_ring (write list_ring (quiet_round ∷ []) hello 3 true fresh).0
    ≡ bytes_of list_ring fresh
      ++ take (min (length (take (min 3 3) hello)) (room_of list_ring fresh)) (take (min 3 3) hello)
write_nonblocking_example = (write_nonblocking list_ring [] hello 3 fresh fresh_has_reader).0

abbrev message : List ℕ
message = replicate 20 b'x'

-- Other threads read five bytes in each sleep.
All-Helpful : (n : ℕ) → All (Helpful list_ring 16) (replicate n (reading list_ring 5))
All-Helpful zero = tt
All-Helpful (suc n) = (reading-Helpful list_ring 5 16 (omega arith) (omega arith), All-Helpful n)

fresh_has_room : 0 < room_of list_ring fresh
unfolding fresh
fresh_has_room = omega arith

write_completes_example :
    (write list_ring (replicate 20 (reading list_ring 5)) message 20 false fresh).1
    ≡ returned (as_i32 (min 20 (length message))) []
unfolding fresh
write_completes_example =
    write_completes list_ring (replicate 20 (reading list_ring 5)) message 20 fresh (All-Helpful 20)
      (omega arith) fresh_has_reader fresh_has_room

abbrev calls : List Call
calls = writes hello 3 ∷ reads 2 2 ∷ dup_writer ∷ writes hello 2 ∷ close_writer ∷ reads 9 9 ∷ []

pipe_is_fifo_example :
    (run list_ring (start list_ring 16) calls).accepted
    ≡ (run list_ring (start list_ring 16) calls).received
      ++ bytes_of list_ring (run list_ring (start list_ring 16) calls).pipe
pipe_is_fifo_example = pipe_is_fifo list_ring 16 calls (omega arith)

calls-run : (run list_ring (start list_ring 16) calls).received ≡ hello ++ b'h' ∷ b'i' ∷ []
unfolding run step new_pipe read write as_i32 decr_write_ref incr_write_ref
calls-run = refl

eof_after_closes_example :
    (run list_ring
      (start list_ring 16)
      (repeat list_ring 2 dup_writer (repeat list_ring 3 close_writer []))).pipe.eof
    ≡ eqb 3 (2 + 1)
eof_after_closes_example = eof_after_closes list_ring 16 2 3 (omega arith) (omega arith)
