-- ===== src/Imfs/ChunkTests.antt =====
-- Writes to files of rust-grates/imfs-grate at a concrete store of three chunks.
use lind_wasm_example_grates.Imfs.Chunks.{
  skip_write, write_chain, put_chunk, chunk_for_write, write_round, write_chunk, zero_fill, splice,
}
use lind_wasm_example_grates.Base.{
  ℕ, none, some, List, [], ◌∷◌, replicate, ◌≡◌, refl, inl, inr, arith,
}
use lind_wasm_example_grates.Imfs.Node.{Chunk}
use lind_wasm_example_grates.Imfs.Chunks.{ChunkStore, File, read_from_file, write_to_file}
use lind_wasm_example_grates.Imfs.Content.{Filled, content}
use lind_wasm_example_grates.Imfs.Overwrite.{Spots}
use lind_wasm_example_grates.Imfs.WriteBack.{
  At, Replaced, write_to_file-Replaced, read_from_file-write_to_file, write_keeps_other_files,
}

abbrev first_chunk : Chunk
first_chunk = record { bytes = replicate 1024 7; used = 1024; next = some 0 }

abbrev second_chunk : Chunk
second_chunk = record { bytes = 1 ∷ 2 ∷ replicate 1022 0; used = 2; next = none }

abbrev other_chunk : Chunk
other_chunk = record { bytes = 5 ∷ replicate 1023 0; used = 1; next = none }

abbrev three_chunks : ChunkStore
three_chunks = record {
  chunks = second_chunk ∷ first_chunk ∷ other_chunk ∷ [];
  chunk_free_list = [];
}

abbrev long_file : File
long_file = record { head = some 1; tail = some 0; total_size = 1026 }

abbrev other_file : File
other_file = record { head = some 2; tail = some 2; total_size = 1 }

abbrev long_places : List ℕ
long_places = 1 ∷ 0 ∷ []

abbrev long_chunks : List Chunk
long_chunks = first_chunk ∷ second_chunk ∷ []

long_file-At : At three_chunks long_file long_places long_chunks
unfolding At Spots Filled content
long_file-At = (
  (refl, refl, (refl, refl, refl)),
  (((λ e. omega arith), tt), (tt, tt)),
  (refl, omega arith, inr refl, (refl, omega arith, inl refl, tt)),
  refl,
)

other_file-At : At three_chunks other_file (2 ∷ []) (other_chunk ∷ [])
unfolding At Spots Filled content
other_file-At = ((refl, refl, refl), (tt, tt), (refl, omega arith, inl refl, tt), refl)

write_to_file-Replaced_example :
    Replaced three_chunks long_file long_places long_chunks 1020 (replicate 6 9)
write_to_file-Replaced_example =
    write_to_file-Replaced three_chunks long_file long_places long_chunks 1020 (replicate 6 9)
      long_file-At (omega arith)

-- A byte is written at 1024.
abbrev written_store : ChunkStore
written_store = record three_chunks {
  chunks =
      record second_chunk { bytes = 9 ∷ 2 ∷ replicate 1022 0 } ∷ first_chunk ∷ other_chunk ∷ [];
}

one_byte : write_to_file three_chunks long_file 1024 (9 ∷ []) ≡ some (written_store, long_file, 1)
unfolding write_to_file skip_write write_chain put_chunk chunk_for_write write_round write_chunk
    zero_fill splice
one_byte = refl

read_from_file-write_to_file_example : read_from_file written_store long_file 1024 1 ≡ some (9 ∷ [])
read_from_file-write_to_file_example =
    read_from_file-write_to_file three_chunks written_store long_file long_file long_places
      long_chunks 1024 (9 ∷ []) long_file-At (omega arith) one_byte

write_keeps_other_files_example : At written_store other_file (2 ∷ []) (other_chunk ∷ [])
write_keeps_other_files_example =
    write_keeps_other_files three_chunks written_store long_file long_file other_file long_places
      (2 ∷ []) long_chunks (other_chunk ∷ []) 1024 (9 ∷ []) long_file-At (omega arith) other_file-At
      (((λ e. omega arith), ((λ e. omega arith), tt)), tt) one_byte
