-- ===== src/Imfs/Sharing.antt =====
-- What `fork` shares, of rust-grates/imfs-grate/src/imfs/mod.rs: parent and child use one FdInfo for
-- each descriptor.
use lind_wasm_example_grates.Base.{
  ℕ, some, [], ◌∷◌, get_elem?, set, nat_key, pair_key, Option-cases, none≢some, in_range, ◌≡◌, ◌≢◌,
  refl, sym, ap, ◌∙◌, subst, inl, inr, get_elem?-set_self, arith,
}
use lind_wasm_example_grates.Base.Words.{ℤ}
use lind_wasm_example_grates.Base.Dict.{Dict, get, get-insert}
use lind_wasm_example_grates.Imfs.State.{ImfsState}
use lind_wasm_example_grates.Imfs.Tree.{or_else}
use lind_wasm_example_grates.Imfs.Fds.{share_all, fork, info_of, get_offset, set_offset}

get-share_all_child :
    (p c fd : ℕ) (pairs : Dict (ℕ × ℕ) ℕ) (s : ImfsState)
    → get (share_all p c pairs s).fd_info (c, fd)
      ≡ or_else (get pairs (p, fd)) (get s.fd_info (c, fd))
unfolding share_all get
get-share_all_child p c fd [] s = refl
get-share_all_child p c fd (((j, d), h) ∷ pairs) s = ground (
  arith,
  get-share_all_child p c fd pairs s,
  get-insert (share_all p c pairs s).fd_info (c, d) h (c, fd),
  pair_key.same_iff (c, d) (c, fd),
  pair_key.same_iff (j, d) (p, fd),
)

get-share_all_other :
    (p c j fd : ℕ) (pairs : Dict (ℕ × ℕ) ℕ) (s : ImfsState)
    → j ≢ c
    → get (share_all p c pairs s).fd_info (j, fd) ≡ get s.fd_info (j, fd)
unfolding share_all
get-share_all_other p c j fd [] s apart = refl
get-share_all_other p c j fd (((i, d), h) ∷ pairs) s apart = ground (
  arith,
  get-share_all_other p c j fd pairs s apart,
  get-insert (share_all p c pairs s).fd_info (c, d) h (j, fd),
  pair_key.same_iff (c, d) (j, fd),
)

share_all-heap :
    (p c : ℕ) (pairs : Dict (ℕ × ℕ) ℕ) (s : ImfsState) → (share_all p c pairs s).fd_heap ≡ s.fd_heap
unfolding share_all
share_all-heap p c [] s = refl
share_all-heap p c (((i, d), h) ∷ pairs) s = ground (arith, share_all-heap p c pairs s)

-- `fork` copies the working directory after the descriptors.
fork-fd_info :
    (s : ImfsState) (p c : ℕ) → (fork s p c).fd_info ≡ (share_all p c s.fd_info s).fd_info
unfolding fork
fork-fd_info s p c = ground arith

fork-heap : (s : ImfsState) (p c : ℕ) → (fork s p c).fd_heap ≡ s.fd_heap
unfolding fork
fork-heap s p c = ground (arith, share_all-heap p c s.fd_info s)

some_eq : {A : Type 0} {a b : A} → some a ≡ some b → a ≡ b
some_eq e = ground arith

-- An offset that is set through one descriptor is read through each that has the same FdInfo.
get_offset-set_offset :
    (s s' : ImfsState) (c d p e h : ℕ) (o : ℤ)
    → get s.fd_info (c, d) ≡ some h
    → get s.fd_info (p, e) ≡ some h
    → set_offset s c d o ≡ some s'
    → get_offset s' p e ≡ some o
unfolding get_offset set_offset info_of
get_offset-set_offset s s' c d p e h o one other eq = elim (Option-cases (get_elem? s.fd_heap h)) [
  | inl gone ↦ absurd (none≢some (sym (rw (one, gone) refl) ∙ eq))
  | inr (i, at_h) ↦
      (let next : ImfsState = record s { fd_heap = set s.fd_heap h (record i { offset = o }) } in
        let step : set_offset s c d o ≡ some next = rw (one, at_h) refl in
        let same : next ≡ s' = some_eq (sym step ∙ eq) in
        let back : get_offset next p e ≡ some o =
          rw
            (
              other,
              get_elem?-set_self s.fd_heap h (record i { offset = o })
                  (in_range s.fd_heap h i at_h),
            )
            refl in
        subst (λ t. get_offset t p e ≡ some o) same back)
]

-- After fork, an offset that the child, another cage than the parent, sets through a descriptor
-- that the parent had open is the offset of the descriptor of the parent.
pub get_offset-fork :
    (s s' : ImfsState) (parent child fd h : ℕ) (offset : ℤ)
    → parent ≢ child
    → get s.fd_info (parent, fd) ≡ some h
    → set_offset (fork s parent child) child fd offset ≡ some s'
    → get_offset s' parent fd ≡ some offset
get_offset-fork s s' parent child fd h offset apart open_in eq =
    let infos = fork-fd_info s parent child in
    let at : (j : ℕ)
        → get (fork s parent child).fd_info (j, fd)
          ≡ get (share_all parent child s.fd_info s).fd_info (j, fd) =
      λ j. ap (λ m. get m (j, fd)) infos in
    let in_child : get (fork s parent child).fd_info (child, fd) ≡ some h =
      at child
      ∙ get-share_all_child parent child fd s.fd_info s
      ∙ ap (λ o. or_else o (get s.fd_info (child, fd))) open_in in
    let in_parent : get (fork s parent child).fd_info (parent, fd) ≡ some h =
      at parent ∙ get-share_all_other parent child parent fd s.fd_info s apart ∙ open_in in
    get_offset-set_offset (fork s parent child) s' child fd parent fd h offset in_child in_parent eq
