-- ===== src/FsClamp/Sides.antt =====
-- A descriptor of rust-grates/fs-routing-clamp stays on the side it was opened on: clamped, or the
-- kernel's.
use lind_wasm_example_grates.FsClamp.Duplicates.{
  dup_new, dup_made, dup2_ret, dup3_ret, close_and, install, o_cloexec_bit, installed,
}
use lind_wasm_example_grates.Grate.Steps.{
  ◌>>=◌, gets, Args, args_of, cages_of, return, made, has_bit, placed,
}
use lind_wasm_example_grates.Base.Words.{ℤ, is_neg, pos, as_i32, neg, as_i32_small, negsuc}
use lind_wasm_example_grates.FsClamp.FdCalls.{fd_handler, is_clamped, send_to_side, entry_for}
use lind_wasm_example_grates.FsClamp.Routing.{NsSys, Ns}
use lind_wasm_example_grates.Grate.Outside.{Outside, Entry}
use lind_wasm_example_grates.Base.{
  refl, ℕ, Bool, some, ◌≡◌, inr, true, ◌<◌, arith, ◌^◌, set, inl, false, suc, zero, ◌⊎◌, subst,
  if◌then◌else◌, not, eqb,
}

-- What the handlers rely on of `fdtables`: a descriptor that was made has the entry it was made
-- with, and its number is a small one.
pub record TracksFds (O : Outside) : Type 0 where
  pub new_entry :
      (t : O.Tables) (cage : ℕ) (e : Entry) (t' : O.Tables) (v : ℕ)
      → O.get_unused_virtual_fd t cage e ≡ inr (t', v)
      → (O.translate_virtual_fd t' cage v ≡ some e) × (v < 2 ^ 31)
  pub new_entry_from :
      (t : O.Tables) (cage : ℕ) (e : Entry) (start : ℕ) (t' : O.Tables) (v : ℕ)
      → O.get_unused_virtual_fd_from_startfd t cage e start ≡ inr (t', v)
      → (O.translate_virtual_fd t' cage v ≡ some e) × (v < 2 ^ 31)
  pub new_errno :
      (t : O.Tables) (cage : ℕ) (e : Entry) (errno : ℕ)
      → O.get_unused_virtual_fd t cage e ≡ inl errno
      → 0 < errno
  pub placed_errno :
      (t : O.Tables) (cage fd : ℕ) (e : Entry) (errno : ℕ)
      → O.get_specific_virtual_fd t cage fd e ≡ inl errno
      → 0 < errno
  pub placed_entry :
      (t : O.Tables) (cage fd : ℕ) (e : Entry) (t' : O.Tables)
      → O.get_specific_virtual_fd t cage fd e ≡ inr t'
      → O.translate_virtual_fd t' cage fd ≡ some e

module _ (O : Outside) where
  -- Descriptor `fd` of the cage is open, and is clamped or not.
  abbrev pub OnSide : NsSys O → ℕ → ℕ → Bool → Type 0
  OnSide s cage fd clamped =
      (e : Entry) × (O.translate_virtual_fd s.tables cage fd ≡ some e) × (is_clamped e ≡ clamped)

  -- A result that is a descriptor is one on this side.
  abbrev pub Gives : ℕ → Bool → NsSys O × ℤ → Type 0
  Gives cage clamped (s, ret) = (v : ℕ) → ret ≡ pos v → OnSide s cage v clamped

  negative-Gives :
      (cage : ℕ) (clamped : Bool) (s : NsSys O) (ret : ℤ)
      → is_neg ret ≡ true
      → Gives cage clamped (s, ret)
  negative-Gives cage clamped s ret h v e = absurd (ground arith)

  module _ (tracks : TracksFds O) where
    -- A call as the descriptor's side sees it.
    pub fd_handler-OnSide :
        (sysno : ℕ) (a : Args) (s : NsSys O) (clamped : Bool)
        → OnSide s a.arg1cage a.arg1 clamped
        → (underfd : ℕ) × (fd_handler O sysno a s
            ≡ send_to_side O a.arg1cage sysno clamped (set (args_of a) 0 underfd) (cages_of a) s)
    unfolding fd_handler ◌>>=◌ gets
    fd_handler-OnSide sysno a s clamped (e, found, side) = (e.underfd, rw (found, side) refl)

    is_neg-neg : (errno : ℕ) → 0 < errno → is_neg (neg errno) ≡ true
    is_neg-neg zero h = absurd (omega arith)
    is_neg-neg (suc n) h = refl

    pub small_result : (n v : ℕ) → n < 2 ^ 31 → as_i32 n ≡ pos v → n ≡ v
    small_result n v h e = ground (arith, as_i32_small n h)

    pub dup_new-Gives :
        (cage : ℕ) (e : Entry) (ret : ℤ) (s : NsSys O)
        → Gives cage (is_clamped e) (dup_new O cage e ret s)
    unfolding ◌>>=◌ return
    dup_new-Gives cage e (negsuc n) s = λ v h. absurd (ground arith)
    dup_new-Gives cage e (pos ret) s =
        go (O.get_unused_virtual_fd s.tables cage (entry_for ret false e.perfdinfo)) refl
      where
        go :
            (o : ℕ ⊎ (O.Tables × ℕ))
            → O.get_unused_virtual_fd s.tables cage (entry_for ret false e.perfdinfo) ≡ o
            → Gives cage (is_clamped e) (dup_made O cage ret (made O s o).1 (made O s o).0)
        go (inl errno) made =
            λ v h. absurd (ground (arith, is_neg-neg errno (tracks.new_errno _ _ _ _ made)))
        go (inr (t, w)) made = λ v h.
            let new : (O.translate_virtual_fd t cage w ≡ some (entry_for ret false e.perfdinfo))
                × (w < 2 ^ 31) =
              tracks.new_entry _ _ _ _ _ made in
            (
              entry_for ret false e.perfdinfo,
              subst (λ n. O.translate_virtual_fd t cage n ≡ some (entry_for ret false e.perfdinfo))
                  (small_result w v new.1 h) new.0,
              refl,
            )

    pub install-Gives :
        (cage newfd underfd : ℕ) (cloexec : Bool) (perfdinfo : ℕ) (s : NsSys O)
        → newfd < 2 ^ 31
        → Gives cage (not (eqb perfdinfo 0)) (install O cage newfd underfd cloexec perfdinfo s)
    unfolding ◌>>=◌ return
    install-Gives cage newfd underfd cloexec perfdinfo s small =
        go (O.get_specific_virtual_fd s.tables cage newfd (entry_for underfd cloexec perfdinfo))
          refl
      where
        go :
            (o : ℕ ⊎ O.Tables)
            → O.get_specific_virtual_fd s.tables cage newfd (entry_for underfd cloexec perfdinfo)
              ≡ o
            → Gives cage
                (not (eqb perfdinfo 0))
                (installed O cage newfd underfd (placed O s o).1 (placed O s o).0)
        go (inl errno) made =
            λ v h. absurd (ground (arith, is_neg-neg errno (tracks.placed_errno _ _ _ _ _ made)))
        go (inr t) made = λ v h. (
          entry_for underfd cloexec perfdinfo,
          subst (λ n. O.translate_virtual_fd t cage n ≡ some (entry_for underfd cloexec perfdinfo))
              (small_result newfd v small h) (tracks.placed_entry _ _ _ _ _ made),
          refl,
        )

    -- A test before either part.
    pub if-Gives :
        (test : Bool) (cage : ℕ) (clamped : Bool) (m n : Ns O ℤ) (s : NsSys O)
        → Gives cage clamped (m s)
        → Gives cage clamped (n s)
        → Gives cage clamped ((if test then m else n) s)
    if-Gives true cage clamped m n s hm hn = hm
    if-Gives false cage clamped m n s hm hn = hn

    pub dup2_ret-Gives :
        (a : Args) (e : Entry) (ret : ℤ) (s : NsSys O)
        → a.arg2 < 2 ^ 31
        → Gives a.arg1cage (is_clamped e) (dup2_ret O a e ret s)
    unfolding return
    dup2_ret-Gives a e (negsuc n) s small = λ v h. absurd (ground arith)
    dup2_ret-Gives a e (pos ret) s small =
        install-Gives a.arg1cage a.arg2 ret false e.perfdinfo s small

    set_cloexec-Gives :
        (a : Args) (e : Entry) (ret : ℕ) (r : ℤ) (s : NsSys O)
        → a.arg2 < 2 ^ 31
        → Gives a.arg1cage (is_clamped e) (
            (if is_neg r
                then close_and O a.arg1cage ret r
                else install O a.arg1cage a.arg2 ret true e.perfdinfo)
              s)
    unfolding ◌>>=◌ return
    set_cloexec-Gives a e ret (pos n) s small =
        install-Gives a.arg1cage a.arg2 ret true e.perfdinfo s small
    set_cloexec-Gives a e ret (negsuc n) s small = λ v h. absurd (ground arith)

    pub dup3_ret-Gives :
        (a : Args) (e : Entry) (ret : ℤ) (s : NsSys O)
        → a.arg2 < 2 ^ 31
        → Gives a.arg1cage (is_clamped e) (dup3_ret O a e ret s)
    unfolding ◌>>=◌ return
    dup3_ret-Gives a e (negsuc n) s small = λ v h. absurd (ground arith)
    dup3_ret-Gives a e (pos ret) s small =
        if-Gives (has_bit o_cloexec_bit a.arg3) a.arg1cage (is_clamped e) _ _ s
          (set_cloexec-Gives a e ret _ _ small)
          (install-Gives a.arg1cage a.arg2 ret false e.perfdinfo s small)
