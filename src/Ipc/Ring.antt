-- ===== src/Ipc/Ring.antt =====
-- The byte ring that rust-grates/ipc-grate/src/pipe.rs takes from the crate `ringbuf`. The crate is
-- not part of the repository: this is what pipe.rs calls of it, and what it documents of the calls.
use lind_wasm_example_grates.Base.{ℕ, ◌+◌, ◌-◌, ◌≤◌, ◌≡◌, List, [], ◌++◌, length, take, drop, min}

pub record RingCrate : Type 1 where
  pub Ring : Type 0
  -- RingBuffer::new(capacity), split into its two halves
  pub new : ℕ → Ring
  -- push_slice(src): how many bytes went in
  pub push_slice : Ring → List ℕ → Ring × ℕ
  -- pop_slice(dst) for a slice of the length: the bytes that came out
  pub pop_slice : Ring → ℕ → Ring × List ℕ
  -- the lengths of the two free stretches that push_access hands to its closure
  pub vacant : Ring → ℕ × ℕ
  -- push_access, where the closure has written these bytes to the front of the free stretches
  pub push_access : Ring → List ℕ → Ring
  -- the two stretches of stored bytes that pop_access hands to its closure
  pub occupied : Ring → List ℕ × List ℕ
  -- pop_access, where the closure has returned the number
  pub pop_access : Ring → ℕ → Ring
  -- the stored bytes, oldest first, and the capacity
  pub contents : Ring → List ℕ
  pub capacity : Ring → ℕ
  pub within : (r : Ring) → length (contents r) ≤ capacity r
  pub contents_new : (n : ℕ) → contents (new n) ≡ []
  pub capacity_new : (n : ℕ) → capacity (new n) ≡ n
  pub pushed :
      (r : Ring) (bytes : List ℕ)
      → (push_slice r bytes).1 ≡ min (length bytes) (capacity r - length (contents r))
  pub contents_push :
      (r : Ring) (bytes : List ℕ)
      → contents (push_slice r bytes).0 ≡ contents r ++ take (push_slice r bytes).1 bytes
  pub capacity_push : (r : Ring) (bytes : List ℕ) → capacity (push_slice r bytes).0 ≡ capacity r
  pub popped : (r : Ring) (n : ℕ) → (pop_slice r n).1 ≡ take n (contents r)
  pub contents_pop : (r : Ring) (n : ℕ) → contents (pop_slice r n).0 ≡ drop n (contents r)
  pub capacity_pop : (r : Ring) (n : ℕ) → capacity (pop_slice r n).0 ≡ capacity r
  pub room : (r : Ring) → (vacant r).0 + (vacant r).1 ≡ capacity r - length (contents r)
  pub contents_access :
      (r : Ring) (bytes : List ℕ)
      → length bytes ≤ capacity r - length (contents r)
      → contents (push_access r bytes) ≡ contents r ++ bytes
  pub stored : (r : Ring) → (occupied r).0 ++ (occupied r).1 ≡ contents r
  pub contents_pop_access : (r : Ring) (n : ℕ) → contents (pop_access r n) ≡ drop n (contents r)
