-- ===== src/Resource/Accounting.antt =====
-- What the handlers of rust-grates/resource-grate that acquire a slot leave of its count.
use lind_wasm_example_grates.Base.{
  ℕ, ◌+◌, ◌-◌, ◌<◌, Bool-cases, inl, inr, false, Option, none, some, ◌≡◌, ◌∙◌, arith, leb,
  if◌then◌else◌, text_key,
}
use lind_wasm_example_grates.Base.Words.{ℤ, is_neg}
use lind_wasm_example_grates.Base.Dict.{get, get-insert}
use lind_wasm_example_grates.Path.Text.{Text, text}
use lind_wasm_example_grates.Grate.Outside.{Outside, Entry}
use lind_wasm_example_grates.Grate.Steps.{Sys, Args, ◌>>=◌, return}
use lind_wasm_example_grates.Grate.Keeps.{
  Keeps, Own, Keeps-then, Keeps-return, Keeps-gets, Keeps-if, Keeps-when, make_threei_call-Keeps,
  copy_from_cage-Keeps, try_tables-Keeps, place_fd-Keeps,
}
use lind_wasm_example_grates.Resource.Amounts.{Amounts}
use lind_wasm_example_grates.Resource.Nanny.{
  FungibleResource, RenewableResource, NannyState, tattle_add_item, tattle_remove_item,
  tattle_quantity, charge_resource,
}
use lind_wasm_example_grates.Resource.Charges.{Do, forward, is_loopback_addr, socket_flags}
use lind_wasm_example_grates.Resource.Files.{
  add_item, remove_item, attempted, with_slot, opened, handle_open,
}
use lind_wasm_example_grates.Resource.Sockets.{
  relabelled, relabel, handle_listen, accepted, handle_accept, connected, handle_connect,
}

-- The handlers that take a slot.
pub data Acquirer : Type 0 where
  by_open : Acquirer
  by_listen : Acquirer
  by_accept : Acquirer
  by_connect : Acquirer

abbrev pub resource_of : Acquirer → Text
resource_of by_open = text "filesopened"
resource_of by_listen = text "insockets"
resource_of by_accept = text "outsockets"
resource_of by_connect = text "outsockets"

module _ (A : Amounts) (O : Outside) where
  abbrev pub acquire : Acquirer → ℕ → Args → Do A O ℤ
  acquire h = elim h [
    | by_open ↦ handle_open A O
    | by_listen ↦ handle_listen A O
    | by_accept ↦ handle_accept A O
    | by_connect ↦ handle_connect A O
  ]

  -- The entry of a fungible resource.
  abbrev Holds : Text → FungibleResource → Sys O (NannyState A) → Type 0
  Holds name r = Own O (λ g. get g.fungible name ≡ some r)

  tattle_quantity-Holds :
      (name : Text) (r : FungibleResource) (account : Text) (quantity : A.F)
      → Keeps (Holds name r) (tattle_quantity A O account quantity)
  unfolding tattle_quantity
  tattle_quantity-Holds name r account quantity = record {
    kept = λ s p. go s p (get s.own.renewable account);
  }
    where
      go :
          (s : Sys O (NannyState A))
          → Holds name r s
          → (o : Option (RenewableResource A))
          → Holds name r (charge_resource A O account quantity o s).0
      go s p none = p
      go s p (some b) = p

  ruleset holds_on = (
    Keeps-then, Keeps-return, Keeps-gets, Keeps-if, Keeps-when, make_threei_call-Keeps,
    copy_from_cage-Keeps, try_tables-Keeps, place_fd-Keeps, tattle_quantity-Holds,
  )

  forward-Holds :
      (name : Text) (r : FungibleResource) (nr g : ℕ) (a : Args)
      → Keeps (Holds name r) (forward A O nr g a)
  unfolding forward
  forward-Holds name r nr g a = search holds_on depth 30

  relabel-Holds :
      (name : Text) (r : FungibleResource) (cage_id fd : ℕ) (change : ℕ → ℕ)
      → Keeps (Holds name r) (relabel A O cage_id fd change)
  unfolding relabel
  relabel-Holds name r cage_id fd change = Keeps-then _ _ (Keeps-gets _) go
    where
      go : (o : Option Entry) → Keeps (Holds name r) (relabelled A O cage_id fd change o)
      go none = Keeps-return _
      go (some e) = search holds_on depth 30

  -- The count after a call with the result `ret`.
  abbrev pub after : ℤ → FungibleResource → FungibleResource
  after ret r = record r { count = if is_neg ret then r.count else r.count + 1 }

  module _ (name : Text) (r : FungibleResource) where
    -- What a handler shows of the resource when it has returned.
    abbrev pub Settled : Sys O (NannyState A) × ℤ → Type 0
    Settled (s, ret) =
        (get s.own.fungible name ≡ some (after ret r)) × (is_neg ret ≡ false → r.count < r.limit)

    attempted-Settled :
        (succeeded : ℤ → Do A O Unit)
        → ((ret : ℤ) → Keeps (Holds name (record r { count = r.count + 1 })) (succeeded ret))
        → r.count < r.limit
        → (ret : ℤ) (s : Sys O (NannyState A)) → Holds name (record r { count = r.count + 1 }) s
        → Settled (attempted A O name succeeded ret s)
    unfolding remove_item ◌>>=◌ return tattle_remove_item
    attempted-Settled succeeded hs below ret s p = elim (Bool-cases (is_neg ret)) [
      | inr e ↦ rw e ((hs ret).kept s p, λ _. below)
      | inl e ↦
          rw (e, p)
            (
              get-insert s.own.fungible name (record r { count = r.count + 1 - 1 }) name
                  ∙ ground (arith, text_key.same_iff name name),
              λ h. ground arith,
            )
    ]

    with_slot-Settled :
        (call : Do A O ℤ) (succeeded : ℤ → Do A O Unit)
        → Keeps (Holds name (record r { count = r.count + 1 })) call
        → ((ret : ℤ) → Keeps (Holds name (record r { count = r.count + 1 })) (succeeded ret))
        → (s : Sys O (NannyState A)) → get s.own.fungible name ≡ some r
        → Settled (with_slot A O name call succeeded s)
    unfolding with_slot add_item ◌>>=◌ return tattle_add_item
    with_slot-Settled call succeeded hc hs s found = elim (Bool-cases (leb r.limit r.count)) [
      | inl full ↦ rw (found, full) (found, λ h. ground arith)
      | inr room ↦
          rw (found, room)
            (attempted-Settled succeeded hs (ground arith) _ _ (
              hc.kept _ (
                get-insert s.own.fungible name (record r { count = r.count + 1 }) name
                ∙ ground (arith, text_key.same_iff name name))))
    ]

  ruleset acquire_parts = (holds_on, forward-Holds, relabel-Holds, with_slot-Settled)

  -- An open, listen, accept or connect of a configured resource leaves one more slot taken if it
  -- returns no error, and then there was one free; if it returns an error the count is as before.
  pub slots_of_acquire :
      (h : Acquirer) (grate_cageid : ℕ) (a : Args) (s : Sys O (NannyState A)) (r : FungibleResource)
      → get s.own.fungible (resource_of h) ≡ some r
      → Settled (resource_of h) r (acquire h grate_cageid a s)
  unfolding handle_open opened handle_listen handle_accept accepted socket_flags handle_connect
      connected is_loopback_addr
  slots_of_acquire by_open g a s r found =
      with_slot-Settled _ r _ _ (search acquire_parts depth 30)
        (λ ret. search acquire_parts depth 30) s found
  slots_of_acquire by_listen g a s r found =
      with_slot-Settled _ r _ _ (search acquire_parts depth 30)
        (λ ret. search acquire_parts depth 30) s found
  slots_of_acquire by_accept g a s r found =
      with_slot-Settled _ r _ _ (search acquire_parts depth 30)
        (λ ret. search acquire_parts depth 30) s found
  slots_of_acquire by_connect g a s r found =
      with_slot-Settled _ r _ _ (search acquire_parts depth 30)
        (λ ret. search acquire_parts depth 30) s found
