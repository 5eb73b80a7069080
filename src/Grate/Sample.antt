-- ===== src/Grate/Sample.antt =====
-- A small world for the runs of the handlers: it answers each call by its number and writes down
-- what it was asked; the descriptor tables are one association list.
use lind_wasm_example_grates.Base.{
  ℕ, zero, suc, Bool, true, false, not, Option, none, some, List, [], ◌∷◌, ◌++◌, ◌⊎◌, inl, inr, eqb,
  take, if◌then◌else◌, nat_key, pair_key, ◌-◌,
}
use lind_wasm_example_grates.Base.Words.{ℤ, pos}
use lind_wasm_example_grates.Base.Dict.{Dict, get, insert, remove, retain}
use lind_wasm_example_grates.Grate.Outside.{Outside, Entry}

-- A call that left the grate: its number, the cages it is made as and for, and its arguments.
pub record Asked : Type 0 where
  pub nr : ℕ
  pub self_cage : ℕ
  pub target_cage : ℕ
  pub args : List ℕ

pub record SampleWorld : Type 0 where
  pub time : ℕ
  pub answers : List (ℕ × ℤ)
  pub memory : List (ℕ × List ℕ)
  pub log : List Asked

abbrev pub Fds : Type 0
Fds = Dict (ℕ × ℕ) Entry

abbrev pub or_ok : Option ℤ → ℤ
or_ok none = pos 0
or_ok (some ret) = ret

abbrev pub cut_to : ℕ → Option (List ℕ) → Option (List ℕ)
cut_to len none = none
cut_to len (some bytes) = some (take len bytes)

-- The first descriptor from `fd` on that is free, if one of `fuel` is.
unfoldable pub first_free : ℕ → Fds → ℕ → ℕ → Option ℕ
first_free zero t cage fd = none
first_free (suc fuel) t cage fd = elim (get t (cage, fd)) [
  | none ↦ some fd
  | some e ↦ first_free fuel t cage (suc fd)
]

abbrev pub put_at : Fds → ℕ → Entry → Option ℕ → ℕ ⊎ (Fds × ℕ)
put_at t cage e none = inl 24
put_at t cage e (some fd) = inr (insert t (cage, fd) e, fd)

abbrev pub closed : Fds → ℕ × ℕ → Option Entry → Option Fds
closed t k none = none
closed t k (some e) = some (remove t k)

abbrev pub changed : Fds → ℕ × ℕ → ℕ → Option Entry → Option Fds
changed t k info none = none
changed t k info (some e) = some (insert t k (record e { perfdinfo = info }))

unfoldable pub copied : Fds → ℕ → ℕ → Fds
copied [] parent child = []
copied (((cage, fd), e) ∷ t) parent child =
    let rest = copied t parent child in if eqb cage parent then ((child, fd), e) ∷ rest else rest

unfoldable pub has_cage : Fds → ℕ → Bool
has_cage [] cage = false
has_cage (((c, fd), e) ∷ t) cage = let rest = has_cage t cage in if eqb c cage then true else rest

abbrev pub sample : Outside
sample = record {
  World = SampleWorld;
  own_cage = 1;
  make_syscall_impl = λ w nr self_cage target_cage args arg_cages. (
    record w {
      log =
          w.log
          ++ record { nr = nr; self_cage = self_cage; target_cage = target_cage; args = args } ∷ [];
    },
    or_ok (get w.answers nr),
  );
  register_handler_impl = λ w cage nr grate handler. (w, pos 0);
  copy_in = λ w addr cage len. cut_to len (get w.memory addr);
  copy_out = λ w bytes addr cage len. some (record w { memory = insert w.memory addr bytes });
  now = λ w. w.time;
  yield_now = λ w. record w { time = suc w.time };
  Tables = Fds;
  check_cage_exists = has_cage;
  translate_virtual_fd = λ t cage fd. get t (cage, fd);
  get_unused_virtual_fd = λ t cage e. put_at t cage e (first_free 1024 t cage 0);
  get_unused_virtual_fd_from_startfd =
      λ t cage e fd. put_at t cage e (first_free (1024 - fd) t cage fd);
  get_specific_virtual_fd = λ t cage fd e. inr (insert t (cage, fd) e);
  set_perfdinfo = λ t cage fd info. changed t (cage, fd) info (get t (cage, fd));
  close_virtualfd = λ t cage fd. closed t (cage, fd) (get t (cage, fd));
  copy_fdtable_for_cage = λ t parent child. some (copied t parent child ++ t);
  init_empty_cage = λ t cage. t;
  remove_cage_from_fdtable = λ t cage. retain (λ k. not (eqb k.0 cage)) t;
}

abbrev pub quiet : List (ℕ × ℤ) → List (ℕ × List ℕ) → SampleWorld
quiet answers memory = record { time = 0; answers = answers; memory = memory; log = [] }
