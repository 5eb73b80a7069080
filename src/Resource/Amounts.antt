-- ===== src/Resource/Amounts.antt =====
-- The numbers of rust-grates/resource-grate/src/nanny.rs: `f64` amounts, rates and seconds, as an
-- interface. The laws say how rounded operations keep the order, in a form that IEEE numbers have
-- with their infinities and NaN too: a comparison with NaN is false.
use lind_wasm_example_grates.Base.{ℕ, ◌≤◌, ◌≡◌, Bool, true, false}

pub record Amounts : Type 1 where
  pub F : Type 0
  pub zero : F
  pub of_nat : ℕ → F
  pub plus : F → F → F
  pub sub : F → F → F
  pub times : F → F → F
  pub over : F → F → F
  -- a < b
  pub less : F → F → Bool
  pub ceil : F → F
  -- Duration::as_secs_f64 and Duration::from_secs_f64, of nanoseconds
  pub secs : ℕ → F
  pub nanos : F → ℕ

module _ (A : Amounts) where
  open A use {F, zero, sub, times, less, secs}

  pub record KeepsOrder : Type 0 where
    pub less_irrefl : (a : F) → less a a ≡ false
    pub less_trans : (a b c : F) → less a b ≡ true → less b c ≡ true → less a c ≡ true
    pub sub_anti : (a b c : F) → less c b ≡ false → less (sub a b) (sub a c) ≡ false
    pub times_mono :
        (a b r : F) → less zero r ≡ true → less b a ≡ false → less (times b r) (times a r) ≡ false
    pub secs_mono : (m n : ℕ) → m ≤ n → less (secs n) (secs m) ≡ false
