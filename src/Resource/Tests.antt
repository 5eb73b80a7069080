-- ===== src/Resource/Tests.antt =====
-- Runs of the accounts of rust-grates/resource-grate, on whole numbers of bytes and seconds.
use native.Mathlib.Nat.{mul-le-mul_right}
use lind_wasm_example_grates.Base.Dict.{remove}
use lind_wasm_example_grates.Grate.Steps.{◌>>=◌, return, gets, when, make_threei_call}
use lind_wasm_example_grates.Resource.Nanny.{tattle_add_item, tattle_remove_item}
use lind_wasm_example_grates.Resource.Charges.{forward}
use lind_wasm_example_grates.Resource.Files.{handle_open, with_slot, add_item, remove_item, opened}
use lind_wasm_example_grates.Base.{
  ℕ, ◌+◌, ◌-◌, ◌*◌, ◌/◌, ◌≤◌, ltb, ◌≡◌, refl, some, [], ◌∷◌, arith, text_key,
}
use lind_wasm_example_grates.Base.Words.{pos}
use lind_wasm_example_grates.Base.Dict.{get, insert}
use lind_wasm_example_grates.Path.Text.{text}
use lind_wasm_example_grates.Grate.Sample.{sample, quiet, SampleWorld}
use lind_wasm_example_grates.Grate.Steps.{Sys, Args}
use lind_wasm_example_grates.Resource.Amounts.{Amounts, KeepsOrder}
use lind_wasm_example_grates.Resource.Nanny.{
  NannyState, ResourceConfig, RenewableResource, FungibleResource, from_config, tattle_quantity,
}
use lind_wasm_example_grates.Resource.Rate.{Advances, tattle_quantity-Waited, owed_after, Waited}
use lind_wasm_example_grates.Resource.Handlers.{on_open}
use lind_wasm_example_grates.Resource.Limits.{run, started, counts_within_limits}
use lind_wasm_example_grates.Resource.Accounting.{by_open, acquire, Settled, slots_of_acquire}

abbrev ceil_div : ℕ → ℕ → ℕ
ceil_div a r = (a + (r - 1)) / r

abbrev whole : Amounts
whole = record {
  F = ℕ;
  zero = 0;
  of_nat = λ n. n;
  plus = ◌+◌;
  sub = ◌-◌;
  times = ◌*◌;
  over = ceil_div;
  less = ltb;
  ceil = λ n. n;
  secs = λ n. n / 1000000000;
  nanos = λ s. s * 1000000000;
}

whole-KeepsOrder : KeepsOrder whole
whole-KeepsOrder = record {
  less_irrefl = λ a. ground arith;
  less_trans = λ a b c h k. ground arith;
  sub_anti = λ a b c h. ground arith;
  times_mono = λ a b r h k. ground (arith, mul-le-mul_right {m = a} {n = b} r (ground arith));
  secs_mono = λ m n h. ground arith;
}

sample-Advances : Advances sample
sample-Advances w = omega arith

abbrev limits : ResourceConfig whole
limits = record {
  renewable = (text "filewrite", 10) ∷ [];
  fungible = (text "filesopened", 1) ∷ [];
  individual = [];
  hard_caps = [];
}

abbrev file_world : SampleWorld
file_world = quiet ((2, pos 3) ∷ []) []

abbrev fresh : Sys sample (NannyState whole)
fresh = started whole sample limits 0 [] file_world

-- open("..", O_RDONLY) in cage 4
abbrev open_args : Args
open_args = record {
  arg1 = 64;
  arg1cage = 4;
  arg2 = 0;
  arg2cage = 4;
  arg3 = 0;
  arg3cage = 4;
  arg4 = 0;
  arg4cage = 4;
  arg5 = 0;
  arg5cage = 4;
  arg6 = 0;
  arg6cage = 4;
}

abbrev at_most_one : ℕ → FungibleResource
at_most_one n = record { limit = 1; count = n }

-- The second open finds the only slot taken.
opens_run :
    get
      (run whole sample ((on_open, 1, open_args) ∷ (on_open, 1, open_args) ∷ []) fresh).own.fungible
      (text "filesopened")
    ≡ some (at_most_one 1)
unfolding run handle_open with_slot add_item remove_item opened forward tattle_quantity
    tattle_add_item tattle_remove_item from_config get insert remove ◌>>=◌ return gets when
    make_threei_call
opens_run = refl

counts_within_limits_example : 1 ≤ 1
counts_within_limits_example =
    counts_within_limits whole sample limits 0 [] file_world
      ((on_open, 1, open_args) ∷ (on_open, 1, open_args) ∷ []) (text "filesopened") (at_most_one 1)
      opens_run

fresh_run : get fresh.own.fungible (text "filesopened") ≡ some (at_most_one 0)
unfolding from_config get
fresh_run = refl

slots_of_acquire_example :
    Settled whole sample
      (text "filesopened")
      (at_most_one 0)
      (acquire whole sample by_open 1 open_args fresh)
slots_of_acquire_example =
    slots_of_acquire whole sample by_open 1 open_args fresh (at_most_one 0) fresh_run

abbrev bucket : RenewableResource whole
bucket = record { allowed_per_sec = 10; inner = record { consumed = 0; last_update = 0 } }

bucket_run : get fresh.own.renewable (text "filewrite") ≡ some bucket
unfolding from_config get
bucket_run = refl

tattle_quantity-Waited_example :
    (after : RenewableResource whole) × (get
        (tattle_quantity whole sample (text "filewrite") 35 fresh).0.own.renewable
        (text "filewrite")
      ≡ some after)
    × (after.allowed_per_sec ≡ 10)
    × Waited whole sample 10
        (owed_after whole sample 10 35 bucket.inner fresh.world)
        fresh.world
        after.inner
        (tattle_quantity whole sample (text "filewrite") 35 fresh).0.world
tattle_quantity-Waited_example =
    tattle_quantity-Waited whole whole-KeepsOrder sample sample-Advances (text "filewrite") 35 fresh
      bucket bucket_run refl
