-- ===== src/FsClamp/Mmap.antt =====
-- The ranges of clamped mappings (rust-grates/fs-routing-clamp/src/helpers.rs): half-open intervals
-- of u64 addresses, kept for each cage.
use lind_wasm_example_grates.Base.{
  ℕ, Bool, false, ◌&&◌, ◌||◌, Option, none, some, List, [], ◌∷◌, ◌++◌, ltb, leb, eqb, if◌then◌else◌,
  nat_key,
}
use lind_wasm_example_grates.Base.Dict.{Dict, get, insert, remove}
use lind_wasm_example_grates.Base.Words.{checked_add}

pub record MmapRange : Type 0 where
  pub start : ℕ
  pub end : ℕ

abbrev pub Mmaps : Type 0
Mmaps = Dict ℕ (List MmapRange)

abbrev pub or_default : Option (List MmapRange) → List MmapRange
or_default none = []
or_default (some rs) = rs

abbrev pub ranges_of : Mmaps → ℕ → List MmapRange
ranges_of maps cageid = or_default (get maps cageid)

unfoldable pub record_until : Mmaps → ℕ → ℕ → Option ℕ → Mmaps
record_until maps cageid addr none = maps
record_until maps cageid addr (some end) =
    insert maps cageid (ranges_of maps cageid ++ record { start = addr; end = end } ∷ [])

unfoldable pub record_clamped_mmap : Mmaps → ℕ → ℕ → ℕ → Mmaps
unfolding record_until
record_clamped_mmap maps cageid addr len =
    if eqb len 0 then maps else record_until maps cageid addr (checked_add addr len)

abbrev pub overlaps : ℕ → ℕ → MmapRange → Bool
overlaps addr end r = ltb addr r.end && ltb r.start end

unfoldable pub any_overlap : ℕ → ℕ → List MmapRange → Bool
any_overlap addr end [] = false
any_overlap addr end (r ∷ rs) = overlaps addr end r || any_overlap addr end rs

unfoldable pub overlap_until : Mmaps → ℕ → ℕ → Option ℕ → Bool
unfolding any_overlap
overlap_until maps cageid addr none = false
overlap_until maps cageid addr (some end) = any_overlap addr end (ranges_of maps cageid)

unfoldable pub is_clamped_mmap : Mmaps → ℕ → ℕ → ℕ → Bool
unfolding overlap_until
is_clamped_mmap maps cageid addr len =
    if eqb len 0 then false else overlap_until maps cageid addr (checked_add addr len)

-- What is left of one range: itself, or its parts on the left and on the right.
unfoldable pub cut : ℕ → ℕ → MmapRange → List MmapRange
cut addr end r =
    if leb end r.start || leb r.end addr
    then r ∷ []
    else (if ltb r.start addr then record { start = r.start; end = addr } ∷ [] else [])
      ++ (if ltb end r.end then record { start = end; end = r.end } ∷ [] else [])

unfoldable pub cut_all : ℕ → ℕ → List MmapRange → List MmapRange
cut_all addr end [] = []
cut_all addr end (r ∷ rs) = cut addr end r ++ cut_all addr end rs

-- A cage with no range left loses its entry.
unfoldable pub put_back : Mmaps → ℕ → List MmapRange → Mmaps
put_back maps cageid [] = remove maps cageid
put_back maps cageid (r ∷ rs) = insert maps cageid (r ∷ rs)

unfoldable pub remove_in : Mmaps → ℕ → ℕ → ℕ → Option (List MmapRange) → Mmaps
unfolding put_back
remove_in maps cageid addr end none = maps
remove_in maps cageid addr end (some rs) = put_back maps cageid (cut_all addr end rs)

unfoldable pub remove_until : Mmaps → ℕ → ℕ → Option ℕ → Mmaps
unfolding remove_in
remove_until maps cageid addr none = maps
remove_until maps cageid addr (some end) = remove_in maps cageid addr end (get maps cageid)

unfoldable pub remove_clamped_mmap : Mmaps → ℕ → ℕ → ℕ → Mmaps
unfolding remove_until
remove_clamped_mmap maps cageid addr len =
    if eqb len 0 then maps else remove_until maps cageid addr (checked_add addr len)
