-- ===== src/Resource/Rate.antt =====
-- A charge of a renewable resource (rust-grates/resource-grate/src/nanny.rs) over its rate
-- waits, and the bucket is drained for the whole of the wait.
use lind_wasm_example_grates.Base.{
  ℕ, zero, suc, ◌+◌, ◌≤◌, ◌<◌, true, false, Bool-cases, inl, inr, some, ◌≡◌, refl, ◌∙◌, ltb, arith,
  text_key, ◌-◌, ◌⊎◌,
}
use lind_wasm_example_grates.Base.Dict.{get, get-insert}
use lind_wasm_example_grates.Path.Text.{Text}
use lind_wasm_example_grates.Grate.Outside.{Outside}
use lind_wasm_example_grates.Grate.Steps.{Sys}
use lind_wasm_example_grates.Resource.Amounts.{Amounts, KeepsOrder}
use lind_wasm_example_grates.Resource.Nanny.{
  RenewableInner, RenewableResource, NannyState, drain, charged, sleep_secs, at_least_zero, spin,
  lind_sleep, charge, tattle_quantity,
}

-- The clock has moved on after each round of the loop that waits.
abbrev pub Advances : Outside → Type 0
Advances O = (w : O.World) → O.now w < O.now (O.yield_now w)

module _ (O : Outside) (advances : Advances O) where
  -- Enough rounds reach the deadline.
  pub spin-deadline :
      (fuel deadline : ℕ) (w : O.World)
      → deadline ≤ O.now w + fuel
      → deadline ≤ O.now (spin O fuel deadline w)
  unfolding spin
  spin-deadline zero deadline w h = omega arith
  spin-deadline (suc fuel) deadline w h = elim (Bool-cases (ltb (O.now w) deadline)) [
    | inl e ↦ rw (e, spin) (spin-deadline fuel deadline (O.yield_now w) (omega (arith, advances w)))
    | inr e ↦ rw (e, spin) (ground arith)
  ]

module _ (A : Amounts) (O : Outside) where
  open A use {F, less, sub, times, secs, nanos}

  -- What a charge owes before it waits, and the nanoseconds that it waits for.
  abbrev pub owed_after : F → F → RenewableInner A → O.World → RenewableInner A
  owed_after rate quantity inner w = charged A quantity (drain A rate (O.now w) inner)

  abbrev pub wait_of : F → RenewableInner A → ℕ
  wait_of rate owed = nanos (sleep_secs A rate owed)

  -- What is left of the amount owed when the whole wait has been drained.
  abbrev pub left_after_wait : F → RenewableInner A → F
  left_after_wait rate owed =
      at_least_zero A (sub owed.consumed (times (secs (wait_of rate owed)) rate))

  -- The bucket and the time after a charge: no wait, or the whole of it.
  abbrev pub Waited : F → RenewableInner A → O.World → RenewableInner A → O.World → Type 0
  Waited rate owed w inner' w' =
      ((less rate owed.consumed ≡ false) × (inner' ≡ owed) × (w' ≡ w))
      ⊎ ((less rate owed.consumed ≡ true)
          × (O.now w + wait_of rate owed ≤ O.now w')
          × (less (left_after_wait rate owed) inner'.consumed ≡ false))

module _ (A : Amounts) (keeps : KeepsOrder A) (O : Outside) (advances : Advances O) where
  open A use {F, zero as none_at_all, less, sub, times, secs, nanos}

  at_least_zero_mono :
      (x y : F) → less x y ≡ false → less (at_least_zero A x) (at_least_zero A y) ≡ false
  at_least_zero_mono x y h =
      ground (arith, h, keeps.less_irrefl none_at_all, keeps.less_trans x none_at_all y)

  charge-Waited :
      (rate quantity : F) (inner : RenewableInner A) (w : O.World)
      → less none_at_all rate ≡ true
      → (let c = charge A O rate quantity inner w in
          Waited A O rate (owed_after A O rate quantity inner w) w c.0 c.1)
  unfolding charge lind_sleep drain
  charge-Waited rate quantity inner w positive =
      let owed : RenewableInner A = owed_after A O rate quantity inner w in
      let dur : ℕ = wait_of A O rate owed in
      let woken : O.World = spin O dur (O.now w + dur) w in
      let reached : O.now w + dur ≤ O.now woken =
        spin-deadline O advances dur (O.now w + dur) w (omega arith) in
      elim (Bool-cases (less rate owed.consumed)) [
        | inr e ↦ inl (e, rw e refl, rw e refl)
        | inl e ↦ inr (
          e,
          rw e reached,
          rw e (
              at_least_zero_mono _ _ (
                keeps.sub_anti owed.consumed _ _ (
                  keeps.times_mono _ _ rate positive
                    (keeps.secs_mono dur (O.now woken - O.now w) (omega (arith, reached)))))),
        )
      ]

  -- If rounded operations keep the order, the rate is above zero and the clock moves on in each
  -- round of the wait, then a charge of a configured resource keeps its rate, and of the drained
  -- consumption plus the quantity: when it is not above the rate there is no wait and it is the
  -- new consumption; when it is, the charge returns not before the seconds it is over, as a
  -- Duration, have passed, with a consumption not above what a drain for that Duration leaves of
  -- it, at least zero.
  pub tattle_quantity-Waited :
      (name : Text) (quantity : F) (s : Sys O (NannyState A)) (r : RenewableResource A)
      → get s.own.renewable name ≡ some r
      → less none_at_all r.allowed_per_sec ≡ true
      → (after : RenewableResource A) × (get
            (tattle_quantity A O name quantity s).0.own.renewable
            name
          ≡ some after)
        × (after.allowed_per_sec ≡ r.allowed_per_sec)
        × Waited A O r.allowed_per_sec
            (owed_after A O r.allowed_per_sec quantity r.inner s.world)
            s.world
            after.inner
            (tattle_quantity A O name quantity s).0.world
  unfolding tattle_quantity
  tattle_quantity-Waited name quantity s r found positive =
      let c : RenewableInner A × O.World = charge A O r.allowed_per_sec quantity r.inner s.world in
      (
        record r { inner = c.0 },
        rw found (
            get-insert s.own.renewable name (record r { inner = c.0 }) name
            ∙ ground (arith, text_key.same_iff name name)),
        refl,
        rw found (charge-Waited r.allowed_per_sec quantity r.inner s.world positive),
      )
