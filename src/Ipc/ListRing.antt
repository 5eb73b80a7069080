-- ===== src/Ipc/ListRing.antt =====
-- A ring over a list, which has what the pipe code of rust-grates/ipc-grate relies on.
use mathlib.Core.List.{append-nil}
use lind_wasm_example_grates.Base.{
  ℕ, ◌-◌, ◌≤◌, ◌≡◌, refl, sym, ap, ◌∙◌, List, [], ◌++◌, length, take, drop, min, arith,
  length-append, length-take, length-drop, take_all, take-min,
}
use lind_wasm_example_grates.Ipc.Ring.{RingCrate}

pub record ListRing : Type 0 where
  pub items : List ℕ
  pub cap : ℕ
  pub fits : length items ≤ cap

abbrev pub put : ListRing → List ℕ → ListRing
put r bytes = record {
  items = r.items ++ take (r.cap - length r.items) bytes;
  cap = r.cap;
  fits = omega (
    arith,
    length-append r.items (take (r.cap - length r.items) bytes),
    length-take (r.cap - length r.items) bytes,
    r.fits,
  );
}

abbrev pub get_out : ListRing → ℕ → ListRing
get_out r n = record {
  items = drop n r.items;
  cap = r.cap;
  fits = omega (arith, length-drop n r.items, r.fits);
}

pub min_cut : (n : ℕ) (xs : List ℕ) → take n xs ≡ take (min (length xs) n) xs
min_cut n xs = sym (take-min n xs) ∙ ap (λ k. take k xs) (omega arith)

abbrev pub list_ring : RingCrate
list_ring = record {
  Ring = ListRing;
  new = λ n. record { items = []; cap = n; fits = omega arith };
  push_slice = λ r bytes. (put r bytes, min (length bytes) (r.cap - length r.items));
  pop_slice = λ r n. (get_out r n, take n r.items);
  vacant = λ r. (r.cap - length r.items, 0);
  push_access = put;
  occupied = λ r. (r.items, []);
  pop_access = get_out;
  contents = λ r. r.items;
  capacity = λ r. r.cap;
  within = λ r. r.fits;
  contents_new = λ n. refl;
  capacity_new = λ n. refl;
  pushed = λ r bytes. refl;
  contents_push = λ r bytes. ap (◌++◌ r.items) (min_cut (r.cap - length r.items) bytes);
  capacity_push = λ r bytes. refl;
  popped = λ r n. refl;
  contents_pop = λ r n. refl;
  capacity_pop = λ r n. refl;
  room = λ r. omega arith;
  contents_access = λ r bytes h. ap (◌++◌ r.items) (take_all bytes h);
  stored = λ r. append-nil r.items;
  contents_pop_access = λ r n. refl;
}
