-- ===== src/Resource/Limits.antt =====
-- No sequence of calls to the handlers of rust-grates/resource-grate takes more slots of a fungible
-- resource than its limit.
use lind_wasm_example_grates.Base.{
  ℕ, zero, suc, ◌≤◌, Bool, true, false, some, List, [], ◌∷◌, ◌≡◌, arith, text_key, map,
}
use lind_wasm_example_grates.Base.Words.{ℤ, pos, negsuc}
use lind_wasm_example_grates.Base.Dict.{get}
use lind_wasm_example_grates.Path.Text.{Text}
use lind_wasm_example_grates.Grate.Outside.{Outside}
use lind_wasm_example_grates.Grate.Steps.{Sys, Args}
use lind_wasm_example_grates.Grate.Steps.{is_thread_clone}
use lind_wasm_example_grates.Grate.Keeps.{Keeps, Keeps-return, is_thread_clone-Keeps}
use lind_wasm_example_grates.Resource.Amounts.{Amounts}
use lind_wasm_example_grates.Resource.Nanny.{
  FungibleResource, NannyState, ResourceConfig, from_config, no_slots,
}
use lind_wasm_example_grates.Resource.Charges.{
  extract_port, charge_read_pre, charge_read_post, charge_write_pre, charge_write_post,
}
use lind_wasm_example_grates.Resource.Files.{
  opened, handle_open, release, handle_close, charged_read, charged_write,
}
use lind_wasm_example_grates.Resource.Sockets.{
  handle_socket, bound, handle_bind, handle_listen, accepted, handle_accept, connected,
  handle_connect,
}
use lind_wasm_example_grates.Resource.Handlers.{
  Handler, on_open, on_close, on_read, on_write, on_pread64, on_pwrite64, on_readv, on_writev,
  on_socket, on_bind, on_listen, on_accept, on_connect, on_sendto, on_recvfrom, on_sendmsg,
  on_recvmsg, on_clone, on_exit, on_getrandom, handle, cloned, handle_clone, handle_exit,
  handle_getrandom,
}
use lind_wasm_example_grates.Resource.Counts.{Ok, with_slot-Keeps, parts_keep}

module _ (A : Amounts) (O : Outside) where
  charge_read_post-Keeps :
      (cage_id fd : ℕ) (ret : ℤ) → Keeps (Ok A O) (charge_read_post A O cage_id fd ret)
  unfolding charge_read_post
  charge_read_post-Keeps cage_id fd (negsuc n) = Keeps-return _
  charge_read_post-Keeps cage_id fd (pos zero) = Keeps-return _
  charge_read_post-Keeps cage_id fd (pos (suc n)) = search parts_keep depth 30

  charge_write_post-Keeps :
      (cage_id fd : ℕ) (ret : ℤ) → Keeps (Ok A O) (charge_write_post A O cage_id fd ret)
  unfolding charge_write_post
  charge_write_post-Keeps cage_id fd (negsuc n) = Keeps-return _
  charge_write_post-Keeps cage_id fd (pos zero) = Keeps-return _
  charge_write_post-Keeps cage_id fd (pos (suc n)) = search parts_keep depth 30

  charged_read-Keeps : (nr g : ℕ) (a : Args) → Keeps (Ok A O) (charged_read A O nr g a)
  unfolding charged_read charge_read_pre
  charged_read-Keeps nr g a = search (parts_keep, charge_read_post-Keeps) depth 30

  charged_write-Keeps : (nr g : ℕ) (a : Args) → Keeps (Ok A O) (charged_write A O nr g a)
  unfolding charged_write charge_write_pre
  charged_write-Keeps nr g a = search (parts_keep, charge_write_post-Keeps) depth 30

  opened-Keeps : (cage_id flags : ℕ) (ret : ℤ) → Keeps (Ok A O) (opened A O cage_id flags ret)
  unfolding opened
  opened-Keeps cage_id flags ret = search parts_keep depth 30

  release-Keeps : (kind sflags : ℕ) → Keeps (Ok A O) (release A O kind sflags)
  unfolding release
  release-Keeps kind sflags = search parts_keep depth 30

  accepted-Keeps : (a : Args) (ret : ℤ) → Keeps (Ok A O) (accepted A O a ret)
  unfolding accepted
  accepted-Keeps a ret = search parts_keep depth 30

  connected-Keeps : (a : Args) (ret : ℤ) → Keeps (Ok A O) (connected A O a ret)
  unfolding connected
  connected-Keeps a ret = search parts_keep depth 30

  cloned-Keeps :
      (g : ℕ) (a : Args) (is_thread taken : Bool) → Keeps (Ok A O) (cloned A O g a is_thread taken)
  cloned-Keeps g a is_thread false = Keeps-return _
  cloned-Keeps g a is_thread true = search parts_keep depth 30

  handle-Keeps : (h : Handler) (g : ℕ) (a : Args) → Keeps (Ok A O) (handle A O h g a)
  unfolding handle_open handle_close handle_socket bound handle_bind extract_port handle_listen
      handle_accept handle_connect is_thread_clone handle_clone handle_exit handle_getrandom
  handle-Keeps on_open g a = search (parts_keep, with_slot-Keeps, opened-Keeps) depth 30
  handle-Keeps on_close g a = search (parts_keep, release-Keeps) depth 30
  handle-Keeps on_read g a = charged_read-Keeps _ g a
  handle-Keeps on_write g a = charged_write-Keeps _ g a
  handle-Keeps on_pread64 g a = charged_read-Keeps _ g a
  handle-Keeps on_pwrite64 g a = charged_write-Keeps _ g a
  handle-Keeps on_readv g a = charged_read-Keeps _ g a
  handle-Keeps on_writev g a = charged_write-Keeps _ g a
  handle-Keeps on_socket g a = search parts_keep depth 30
  handle-Keeps on_bind g a = search parts_keep depth 30
  handle-Keeps on_listen g a = search (parts_keep, with_slot-Keeps) depth 30
  handle-Keeps on_accept g a = search (parts_keep, with_slot-Keeps, accepted-Keeps) depth 30
  handle-Keeps on_connect g a = search (parts_keep, with_slot-Keeps, connected-Keeps) depth 30
  handle-Keeps on_sendto g a = charged_write-Keeps _ g a
  handle-Keeps on_recvfrom g a = charged_read-Keeps _ g a
  handle-Keeps on_sendmsg g a = charged_write-Keeps _ g a
  handle-Keeps on_recvmsg g a = charged_read-Keeps _ g a
  handle-Keeps on_clone g a = search (parts_keep, is_thread_clone-Keeps, cloned-Keeps) depth 30
  handle-Keeps on_exit g a = search parts_keep depth 30
  handle-Keeps on_getrandom g a = search parts_keep depth 30

  -- The calls of the cages, in the order in which the grate serves them.
  unfoldable pub run : List (Handler × ℕ × Args) → Sys O (NannyState A) → Sys O (NannyState A)
  run [] s = s
  run ((h, grate_cageid, a) ∷ calls) s = run calls (handle A O h grate_cageid a s).0

  run-Within :
      (calls : List (Handler × ℕ × Args)) (s : Sys O (NannyState A))
      → Ok A O s
      → Ok A O (run calls s)
  unfolding run
  run-Within [] s p = p
  run-Within ((h, g, a) ∷ calls) s p =
      run-Within calls (handle A O h g a s).0 ((handle-Keeps h g a).kept s p)

  no_slots-Within :
      (limits : List (Text × ℕ)) (name : Text) (r : FungibleResource)
      → get (map (no_slots A) limits) name ≡ some r
      → r.count ≤ r.limit
  unfolding get
  no_slots-Within [] name r e = ground arith
  no_slots-Within ((j, n) ∷ limits) name r e =
      ground (arith, no_slots-Within limits name r, text_key.same_iff j name)

  abbrev pub started : ResourceConfig A → ℕ → O.Tables → O.World → Sys O (NannyState A)
  started config now tables world = record {
    own = from_config A now config;
    tables = tables;
    world = world;
  }

  -- From the start of a configuration and over any sequence of calls to the handlers, whatever the
  -- kernel answers, the count of every fungible resource is at most its limit.
  pub counts_within_limits :
      (config : ResourceConfig A) (now : ℕ) (tables : O.Tables) (world : O.World)
      (calls : List (Handler × ℕ × Args)) (name : Text) (r : FungibleResource)
      → get (run calls (started config now tables world)).own.fungible name ≡ some r
      → r.count ≤ r.limit
  unfolding from_config
  counts_within_limits config now tables world calls name r e =
      run-Within calls (started config now tables world) (no_slots-Within config.fungible) name r e
