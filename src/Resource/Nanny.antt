-- ===== src/Resource/Nanny.antt =====
-- The accounts of rust-grates/resource-grate/src/nanny.rs. A lock is held for a whole call and for
-- nothing else, so that a call is one step; a `HashSet` of ports is a map into the unit type.
use lind_wasm_example_grates.Base.{
  ℕ, zero, suc, ◌+◌, ◌-◌, Bool, true, false, Option, none, some, leb, ltb, map, if◌then◌else◌,
  nat_key, text_key,
}
use lind_wasm_example_grates.Base.Dict.{Dict, get, insert, contains_key}
use lind_wasm_example_grates.Path.Text.{Text}
use lind_wasm_example_grates.Grate.Outside.{Outside}
use lind_wasm_example_grates.Grate.Steps.{Sys, Step}
use lind_wasm_example_grates.Resource.Amounts.{Amounts}

pub record FungibleResource : Type 0 where
  pub limit : ℕ
  pub count : ℕ

module _ (O : Outside) where
  -- The loop of `lind_sleep`: rounds are left until the fuel runs out.
  unfoldable pub spin : ℕ → ℕ → O.World → O.World
  spin zero deadline w = w
  spin (suc fuel) deadline w = elim (ltb (O.now w) deadline) [
    | false ↦ w
    | true ↦ spin fuel deadline (O.yield_now w)
  ]

  -- A round takes a nanosecond at least, so that the length of the sleep is enough fuel.
  unfoldable pub lind_sleep : ℕ → O.World → O.World
  unfolding spin
  lind_sleep dur w = spin dur (O.now w + dur) w

module _ (A : Amounts) where
  open A use {F}

  -- The times are readings of the clock.
  pub record RenewableInner : Type 0 where
    pub consumed : F
    pub last_update : ℕ

  pub record RenewableResource : Type 0 where
    pub allowed_per_sec : F
    pub inner : RenewableInner

  pub record NannyState : Type 0 where
    pub renewable : Dict Text RenewableResource
    pub fungible : Dict Text FungibleResource
    pub individual : Dict Text (Dict ℕ (Unit {0}))
    pub hard_caps : Dict Text ℕ

  pub record ResourceConfig : Type 0 where
    pub renewable : Dict Text F
    pub fungible : Dict Text ℕ
    pub individual : Dict Text (Dict ℕ (Unit {0}))
    pub hard_caps : Dict Text ℕ

  abbrev pub full_bucket : ℕ → Text × F → Text × RenewableResource
  full_bucket now (name, rate) = (
    name,
    record { allowed_per_sec = rate; inner = record { consumed = A.zero; last_update = now } },
  )

  abbrev pub no_slots : Text × ℕ → Text × FungibleResource
  no_slots (name, limit) = (name, record { limit = limit; count = 0 })

  unfoldable pub from_config : ℕ → ResourceConfig → NannyState
  from_config now config = record {
    renewable = map (full_bucket now) config.renewable;
    fungible = map no_slots config.fungible;
    individual = config.individual;
    hard_caps = config.hard_caps;
  }

  -- if x < 0.0 { x = 0.0; }
  abbrev pub at_least_zero : F → F
  at_least_zero x = if A.less x A.zero then A.zero else x

  -- What is left of the consumption at the reading `now`.
  unfoldable pub drain : F → ℕ → RenewableInner → RenewableInner
  drain rate now inner = record {
    consumed =
        at_least_zero (A.sub inner.consumed (A.times (A.secs (now - inner.last_update)) rate));
    last_update = now;
  }

  abbrev pub charged : F → RenewableInner → RenewableInner
  charged quantity inner = record inner { consumed = A.plus inner.consumed quantity }

  abbrev pub sleep_secs : F → RenewableInner → F
  sleep_secs rate inner = A.over (A.sub inner.consumed rate) rate

  -- `try_acquire`: the count of a resource under its limit goes up.
  abbrev pub add_to : NannyState → Text → Option FungibleResource → NannyState × Bool
  add_to s name none = (s, true)
  add_to s name (some r) =
      if leb r.limit r.count
      then (s, false)
      else (record s { fungible = insert s.fungible name (record r { count = r.count + 1 }) }, true)

  -- The Boolean says `Ok`.
  unfoldable pub tattle_add_item : NannyState → Text → NannyState × Bool
  tattle_add_item s name = add_to s name (get s.fungible name)

  abbrev pub remove_from : NannyState → Text → Option FungibleResource → NannyState
  remove_from s name none = s
  remove_from s name (some r) = record s {
    fungible = insert s.fungible name (record r { count = r.count - 1 });
  }

  unfoldable pub tattle_remove_item : NannyState → Text → NannyState
  tattle_remove_item s name = remove_from s name (get s.fungible name)

  unfoldable pub is_item_allowed : NannyState → Text → ℕ → Bool
  is_item_allowed s name item = elim (get s.individual name) [
    | none ↦ true
    | some ports ↦ contains_key ports item
  ]

  module _ (O : Outside) where
    -- The bucket after a charge, and the world in which the caller goes on.
    unfoldable pub charge : F → F → RenewableInner → O.World → RenewableInner × O.World
    unfolding drain lind_sleep
    charge rate quantity inner w =
        let owed = charged quantity (drain rate (O.now w) inner) in
        if A.less rate owed.consumed
        then (let woken = lind_sleep O (A.nanos (sleep_secs rate owed)) w in
            (drain rate (O.now woken) owed, woken))
        else (owed, w)

    abbrev pub charge_resource : Text → F → Option RenewableResource → Step (Sys O NannyState) Unit
    charge_resource name quantity none s = (s, tt)
    charge_resource name quantity (some r) s =
        let c = charge r.allowed_per_sec quantity r.inner s.world in
        (
          record s {
            own = record s.own {
              renewable = insert s.own.renewable name (record r { inner = c.0 });
            };
            world = c.1;
          },
          tt,
        )

    unfoldable pub tattle_quantity : Text → F → Step (Sys O NannyState) Unit
    tattle_quantity name quantity s = charge_resource name quantity (get s.own.renewable name) s
