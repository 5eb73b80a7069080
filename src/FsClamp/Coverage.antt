-- ===== src/FsClamp/Coverage.antt =====
-- The ranges of clamped mappings as a set of addresses (rust-grates/fs-routing-clamp/src/helpers.rs).
use mathlib.Core.Path.{ap₂}
use Prim.Native.Nat.{max}
use lind_wasm_example_grates.Base.{
  ℕ, ◌+◌, ◌<◌, ◌≡◌, refl, ◌↔◌, ◌∙◌, Bool, true, false, not, ◌&&◌, ◌||◌, Option, none, some, List,
  [], ◌∷◌, ◌++◌, arith, eqb, ltb, leb, if◌then◌else◌, nat_key, Option-cases, Bool-cases, subst, inl,
  inr, All, All-append,
}
use lind_wasm_example_grates.Base.Dict.{get, get-insert, get-remove}
use lind_wasm_example_grates.Base.Words.{checked_add, u64_mod}
use lind_wasm_example_grates.FsClamp.Mmap.{
  MmapRange, Mmaps, or_default, ranges_of, record_until, remove_until, record_clamped_mmap,
  is_clamped_mmap, remove_clamped_mmap, any_overlap, put_back, remove_in, cut, cut_all, overlaps,
}

-- addr ≤ x < end
abbrev pub within : ℕ → ℕ → ℕ → Bool
within addr end x = leb addr x && ltb x end

-- Some range holds the address.
pub covered : List MmapRange → ℕ → Bool
covered [] x = false
covered (r ∷ rs) x = within r.start r.end x || covered rs x

covered-append :
    (rs qs : List MmapRange) (x : ℕ) → covered (rs ++ qs) x ≡ covered rs x || covered qs x
unfolding covered
covered-append [] qs x = refl
covered-append (r ∷ rs) qs x = ground (arith, covered-append rs qs x)

covered-cut :
    (addr end : ℕ) (r : MmapRange) (x : ℕ)
    → covered (cut addr end r) x ≡ within r.start r.end x && not (within addr end x)
unfolding covered cut
covered-cut addr end r x = ground arith

or-and : (a b c : Bool) → (a && c || b && c) ≡ ((a || b) && c)
or-and true b true = refl
or-and true true false = refl
or-and true false false = refl
or-and false b c = refl

covered-cut_all :
    (addr end : ℕ) (rs : List MmapRange) (x : ℕ)
    → covered (cut_all addr end rs) x ≡ covered rs x && not (within addr end x)
unfolding covered cut_all
covered-cut_all addr end [] x = refl
covered-cut_all addr end (r ∷ rs) x =
    covered-append (cut addr end r) (cut_all addr end rs) x
    ∙ ap₂ ◌||◌ (covered-cut addr end r x) (covered-cut_all addr end rs x)
    ∙ or-and (within r.start r.end x) (covered rs x) (not (within addr end x))

-- An address of the cage that a clamped mapping holds.
abbrev pub is_held : Mmaps → ℕ → ℕ → Bool
is_held maps cageid x = covered (ranges_of maps cageid) x

covered-put_back :
    (maps : Mmaps) (cageid c x : ℕ) (rs : List MmapRange)
    → is_held (put_back maps cageid rs) c x
      ≡ (if eqb cageid c then covered rs x else is_held maps c x)
unfolding put_back
covered-put_back maps cageid c x [] = unfold covered in ground (arith, get-remove maps cageid c)
covered-put_back maps cageid c x (r ∷ rs) = ground (arith, get-insert maps cageid (r ∷ rs) c)

held-remove_in :
    (maps : Mmaps) (cageid addr end c x : ℕ)
    → is_held (remove_in maps cageid addr end (get maps cageid)) c x
      ≡ (is_held maps c x && not (eqb cageid c && within addr end x))
held-remove_in maps cageid addr end c x = elim (Option-cases (get maps cageid)) [
  | inl e ↦ unfold remove_in covered in rw e (ground (arith, e))
  | inr (rs, e) ↦
      unfold remove_in in
      rw e (
        ground (
          arith,
          e,
          covered-put_back maps cageid c x (cut_all addr end rs),
          covered-cut_all addr end rs x,
        ))
]

-- After remove_clamped_mmap an address of a cage is held exactly when it was before and is not in
-- the unmapped interval of that cage, also where a range is split; an interval that does not end
-- below 2^64 changes nothing.
pub held-remove_clamped_mmap :
    (maps : Mmaps) (cageid addr len c x : ℕ)
    → is_held (remove_clamped_mmap maps cageid addr len) c x ≡ (
        is_held maps c x
        && not (ltb (addr + len) u64_mod && eqb cageid c && within addr (addr + len) x))
unfolding remove_clamped_mmap checked_add
held-remove_clamped_mmap maps cageid addr len c x =
    ground (arith, held-remove_in maps cageid addr (addr + len) c x)

-- After record_clamped_mmap an address of a cage is held exactly when it was before or is in the
-- mapped interval of that cage; an interval that does not end below 2^64 changes nothing.
pub held-record_clamped_mmap :
    (maps : Mmaps) (cageid addr len c x : ℕ)
    → is_held (record_clamped_mmap maps cageid addr len) c x ≡ (
        is_held maps c x
        || (ltb (addr + len) u64_mod && eqb cageid c && within addr (addr + len) x))
unfolding record_clamped_mmap checked_add covered
held-record_clamped_mmap maps cageid addr len c x =
    let one : List MmapRange = record { start = addr; end = addr + len } ∷ [] in
    ground (
      arith,
      get-insert maps cageid (ranges_of maps cageid ++ one) c,
      covered-append (ranges_of maps cageid) one x,
    )

abbrev pub Proper : MmapRange → Type 0
Proper r = r.start < r.end

-- Every kept range holds an address.
abbrev pub IsProper : Mmaps → Type 0
IsProper maps = (c : ℕ) → All Proper (ranges_of maps c)

cut-Proper : (addr end : ℕ) (r : MmapRange) → Proper r → All Proper (cut addr end r)
unfolding cut
cut-Proper addr end r h = ground arith

cut_all-Proper :
    (addr end : ℕ) (rs : List MmapRange) → All Proper rs → All Proper (cut_all addr end rs)
unfolding cut_all
cut_all-Proper addr end [] h = tt
cut_all-Proper addr end (r ∷ rs) h =
    All-append Proper (cut addr end r) _ (cut-Proper addr end r h.0)
      (cut_all-Proper addr end rs h.1)

All-or {ℓ} :
    (P : List MmapRange → Type ℓ) (b : Bool) (xs ys : List MmapRange)
    → P xs
    → P ys
    → P (if b then xs else ys)
All-or P true xs ys hx hy = hx
All-or P false xs ys hx hy = hy

ranges-put_back :
    (maps : Mmaps) (cageid c : ℕ) (rs : List MmapRange)
    → ranges_of (put_back maps cageid rs) c ≡ (if eqb cageid c then rs else ranges_of maps c)
unfolding put_back
ranges-put_back maps cageid c [] = ground (arith, get-remove maps cageid c)
ranges-put_back maps cageid c (r ∷ rs) = ground (arith, get-insert maps cageid (r ∷ rs) c)

remove_in-Proper :
    (maps : Mmaps) (cageid addr end : ℕ)
    → IsProper maps
    → IsProper (remove_in maps cageid addr end (get maps cageid))
remove_in-Proper maps cageid addr end h c = elim (Option-cases (get maps cageid)) [
  | inl e ↦ unfold remove_in in rw e (h c)
  | inr (rs, e) ↦
      let own : All Proper rs = subst (λ o. All Proper (or_default o)) e (h cageid) in
      unfold remove_in in
      rw (e, ranges-put_back maps cageid c (cut_all addr end rs))
        (All-or (All Proper) (eqb cageid c) (cut_all addr end rs) (ranges_of maps c)
          (cut_all-Proper addr end rs own) (h c))
]

or_default-Proper :
    (b : Bool) (new : List MmapRange) (old : Option (List MmapRange))
    → All Proper new
    → All Proper (or_default old)
    → All Proper (or_default (if b then some new else old))
or_default-Proper true new old hn ho = hn
or_default-Proper false new old hn ho = ho

record_until-Proper :
    (maps : Mmaps) (cageid addr end : ℕ)
    → addr < end
    → IsProper maps
    → IsProper (record_until maps cageid addr (some end))
unfolding record_until
record_until-Proper maps cageid addr end lt h c =
    let new = ranges_of maps cageid ++ record { start = addr; end = end } ∷ [] in
    rw (get-insert maps cageid new c) (
      or_default-Proper (eqb cageid c) new (get maps c)
        (All-append Proper (ranges_of maps cageid) _ (h cageid) (lt, tt)) (h c))

-- What `record_clamped_mmap` and `remove_clamped_mmap` return, for a property of the result.
cases {ℓ} :
    (P : Mmaps → Type ℓ) (maps : Mmaps) (f : Option ℕ → Mmaps) (addr len : ℕ)
    → P maps
    → f none ≡ maps
    → (0 < len → P (f (some (addr + len))))
    → P (if eqb len 0 then maps else f (checked_add addr len))
unfolding checked_add
cases P maps f addr len stay e go = elim (Bool-cases (eqb len 0)) [
  | inl z ↦ rw z stay
  | inr n ↦ elim (Bool-cases (ltb (addr + len) u64_mod)) [
    | inl fits ↦ rw (n, fits) (go (ground arith))
    | inr over ↦ rw (n, over, e) stay
  ]
]

-- record_clamped_mmap and remove_clamped_mmap keep every range of every cage non-empty.
pub mmap-IsProper :
    (maps : Mmaps) (cageid addr len : ℕ)
    → IsProper maps
    → IsProper (record_clamped_mmap maps cageid addr len)
      × IsProper (remove_clamped_mmap maps cageid addr len)
mmap-IsProper maps cageid addr len h = (
  unfold record_clamped_mmap in
      cases IsProper maps (record_until maps cageid addr) addr len h refl
        (λ lt. record_until-Proper maps cageid addr (addr + len) (omega arith) h),
  unfold remove_clamped_mmap in
      cases IsProper maps (remove_until maps cageid addr) addr len h refl
        (λ _. remove_in-Proper maps cageid addr (addr + len) h),
)

overlap_witness :
    (addr end : ℕ) (rs : List MmapRange)
    → addr < end
    → All Proper rs
    → any_overlap addr end rs ≡ true
    → (x : ℕ) × (within addr end x ≡ true) × (covered rs x ≡ true)
unfolding any_overlap covered
overlap_witness addr end [] lt h e = cc
overlap_witness addr end (r ∷ rs) lt h e = elim (Bool-cases (overlaps addr end r)) [
  | inl o ↦ (max addr r.start, ground arith, ground arith)
  | inr o ↦
      let (x, w, v) = overlap_witness addr end rs lt h.1 (ground arith) in (x, w, ground arith)
]

overlap_of_witness :
    (addr end x : ℕ) (rs : List MmapRange)
    → within addr end x ≡ true
    → covered rs x ≡ true
    → any_overlap addr end rs ≡ true
unfolding any_overlap covered
overlap_of_witness addr end x [] w v = cc
overlap_of_witness addr end x (r ∷ rs) w v = ground (arith, overlap_of_witness addr end x rs)

-- With all ranges non-empty, is_clamped_mmap is true exactly when the interval ends below 2^64 and
-- one of its addresses is held by the cage.
pub is_clamped_mmap_iff :
    (maps : Mmaps) (cageid addr len : ℕ)
    → IsProper maps
    → (is_clamped_mmap maps cageid addr len ≡ true) ↔ (
        (x : ℕ) × (within addr (addr + len) x ≡ true)
        × (is_held maps cageid x ≡ true)
        × (addr + len < u64_mod))
unfolding is_clamped_mmap checked_add
is_clamped_mmap_iff maps cageid addr len h = (
  λ e.
      let (x, w, v) =
        overlap_witness addr (addr + len) (ranges_of maps cageid) (ground arith) (h cageid)
          (ground arith) in
      (x, w, v, ground arith),
  λ p.
      let (x, w, v, lt) = p in
      ground (arith, overlap_of_witness addr (addr + len) x (ranges_of maps cageid) w v),
)
