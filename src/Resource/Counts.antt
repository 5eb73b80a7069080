-- ===== src/Resource/Counts.antt =====
-- The parts of a handler of rust-grates/resource-grate keep every count within its limit.
use lind_wasm_example_grates.Base.{
  ℕ, ◌+◌, ◌-◌, ◌≤◌, Bool, true, false, Option, none, some, ◌≡◌, arith, text_key,
}
use lind_wasm_example_grates.Base.Words.{ℤ}
use lind_wasm_example_grates.Base.Dict.{get, get-insert}
use lind_wasm_example_grates.Path.Text.{Text}
use lind_wasm_example_grates.Grate.Outside.{Outside, Entry}
use lind_wasm_example_grates.Grate.Steps.{Sys, Args}
use lind_wasm_example_grates.Grate.Keeps.{
  Keeps, Own, Keeps-then, Keeps-return, Keeps-gets, Keeps-if, Keeps-when, make_threei_call-Keeps,
  copy_from_cage-Keeps, on_own-Keeps, try_tables-Keeps, place_fd-Keeps,
}
use lind_wasm_example_grates.Resource.Amounts.{Amounts}
use lind_wasm_example_grates.Resource.Nanny.{
  FungibleResource, RenewableResource, NannyState, tattle_add_item, tattle_remove_item,
  tattle_quantity, add_to, remove_from, charge_resource,
}
use lind_wasm_example_grates.Resource.Charges.{Do, forward, is_loopback_addr, fd_kind, socket_flags}
use lind_wasm_example_grates.Resource.Files.{add_item, remove_item, attempted, granted, with_slot}
use lind_wasm_example_grates.Resource.Sockets.{relabelled, relabel}

-- Every fungible resource is within its limit.
abbrev pub Within : (A : Amounts) → NannyState A → Type 0
Within A s = (name : Text) (r : FungibleResource) → get s.fungible name ≡ some r → r.count ≤ r.limit

module _ (A : Amounts) where
  pub tattle_add_item-Within :
      (name : Text) (s : NannyState A) → Within A s → Within A (tattle_add_item A s name).0
  unfolding tattle_add_item
  tattle_add_item-Within name s h = go (get s.fungible name) (h name)
    where
      go :
          (o : Option FungibleResource)
          → ((r : FungibleResource) → o ≡ some r → r.count ≤ r.limit)
          → Within A (add_to A s name o).0
      go none small = h
      go (some r) small = λ j q e.
          ground
            (arith, h j q, small r, get-insert s.fungible name (record r { count = r.count + 1 }) j)

  pub tattle_remove_item-Within :
      (name : Text) (s : NannyState A) → Within A s → Within A (tattle_remove_item A s name)
  unfolding tattle_remove_item
  tattle_remove_item-Within name s h = go (get s.fungible name) (h name)
    where
      go :
          (o : Option FungibleResource)
          → ((r : FungibleResource) → o ≡ some r → r.count ≤ r.limit)
          → Within A (remove_from A s name o)
      go none small = h
      go (some r) small = λ j q e.
          ground
            (arith, h j q, small r, get-insert s.fungible name (record r { count = r.count - 1 }) j)

module _ (A : Amounts) (O : Outside) where
  abbrev pub Ok : Sys O (NannyState A) → Type 0
  Ok = Own O (Within A)

  pub add_item-Keeps : (name : Text) → Keeps Ok (add_item A O name)
  unfolding add_item
  add_item-Keeps name = record { kept = λ s p. tattle_add_item-Within A name s.own p }

  pub remove_item-Keeps : (name : Text) → Keeps Ok (remove_item A O name)
  unfolding remove_item
  remove_item-Keeps name = on_own-Keeps O (Within A) _ (tattle_remove_item-Within A name)

  pub tattle_quantity-Keeps :
      (name : Text) (quantity : A.F) → Keeps Ok (tattle_quantity A O name quantity)
  unfolding tattle_quantity
  tattle_quantity-Keeps name quantity = record { kept = λ s p. go s p (get s.own.renewable name) }
    where
      go :
          (s : Sys O (NannyState A))
          → Ok s
          → (o : Option (RenewableResource A)) → Ok (charge_resource A O name quantity o s).0
      go s p none = p
      go s p (some r) = p

  pub ruleset kept_by = (
    Keeps-then, Keeps-return, Keeps-gets, Keeps-if, Keeps-when, make_threei_call-Keeps,
    copy_from_cage-Keeps, try_tables-Keeps, place_fd-Keeps, add_item-Keeps, remove_item-Keeps,
    tattle_quantity-Keeps,
  )

  pub forward-Keeps : (nr grate_cageid : ℕ) (a : Args) → Keeps Ok (forward A O nr grate_cageid a)
  unfolding forward
  forward-Keeps nr grate_cageid a = search kept_by depth 30

  pub attempted-Keeps :
      (name : Text) (succeeded : ℤ → Do A O Unit)
      → ((ret : ℤ) → Keeps Ok (succeeded ret))
      → (ret : ℤ) → Keeps Ok (attempted A O name succeeded ret)
  attempted-Keeps name succeeded h ret = search (kept_by, h) depth 30

  pub granted-Keeps :
      (name : Text) (call : Do A O ℤ) (succeeded : ℤ → Do A O Unit)
      → Keeps Ok call
      → ((ret : ℤ) → Keeps Ok (succeeded ret))
      → (taken : Bool) → Keeps Ok (granted A O name call succeeded taken)
  granted-Keeps name call succeeded hc hs true =
      Keeps-then call _ hc (attempted-Keeps name succeeded hs)
  granted-Keeps name call succeeded hc hs false = Keeps-return _

  pub with_slot-Keeps :
      (name : Text) (call : Do A O ℤ) (succeeded : ℤ → Do A O Unit)
      → Keeps Ok call
      → ((ret : ℤ) → Keeps Ok (succeeded ret))
      → Keeps Ok (with_slot A O name call succeeded)
  unfolding with_slot
  with_slot-Keeps name call succeeded hc hs =
      Keeps-then _ _ (add_item-Keeps name) (granted-Keeps name call succeeded hc hs)

  pub fd_kind-Keeps : (cage_id fd : ℕ) → Keeps Ok (fd_kind A O cage_id fd)
  unfolding fd_kind
  fd_kind-Keeps cage_id fd = search kept_by depth 30

  pub socket_flags-Keeps : (cage_id fd : ℕ) → Keeps Ok (socket_flags A O cage_id fd)
  unfolding socket_flags
  socket_flags-Keeps cage_id fd = search kept_by depth 30

  pub is_loopback_addr-Keeps :
      (addr_ptr addr_cage : ℕ) → Keeps Ok (is_loopback_addr A O addr_ptr addr_cage)
  unfolding is_loopback_addr
  is_loopback_addr-Keeps addr_ptr addr_cage = search kept_by depth 30

  pub relabelled-Keeps :
      (cage_id fd : ℕ) (change : ℕ → ℕ) (o : Option Entry)
      → Keeps Ok (relabelled A O cage_id fd change o)
  relabelled-Keeps cage_id fd change none = Keeps-return _
  relabelled-Keeps cage_id fd change (some e) = search kept_by depth 30

  pub relabel-Keeps : (cage_id fd : ℕ) (change : ℕ → ℕ) → Keeps Ok (relabel A O cage_id fd change)
  unfolding relabel
  relabel-Keeps cage_id fd change =
      Keeps-then _ _ (Keeps-gets _) (relabelled-Keeps cage_id fd change)

  pub ruleset parts_keep = (
    kept_by, forward-Keeps, fd_kind-Keeps, socket_flags-Keeps, is_loopback_addr-Keeps,
    relabel-Keeps,
  )
