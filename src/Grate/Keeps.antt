-- ===== src/Grate/Keeps.antt =====
-- Predicates on a grate's own state that the steps of a handler keep.
use lind_wasm_example_grates.Base.{
  ℕ, Bool, true, false, Option, none, some, List, ◌⊎◌, inl, inr, if◌then◌else◌,
}
use lind_wasm_example_grates.Grate.Outside.{Outside, Entry}
use lind_wasm_example_grates.Grate.Steps.{
  Sys, Step, ◌>>=◌, return, gets, when, make_threei_call, copy_from_cage, is_thread_clone, on_own,
  try_tables, place_fd, tried, placed,
}

module _ {S : Type 0} (P : S → Type 0) where
  pub record Keeps {A : Type 0} (m : Step S A) : Type 0 where
    pub kept : (s : S) → P s → P (m s).0

module _ {S A B : Type 0} {P : S → Type 0} where
  pub Keeps-then :
      (m : Step S A) (f : A → Step S B) → Keeps P m → ((a : A) → Keeps P (f a)) → Keeps P (m >>= f)
  unfolding ◌>>=◌
  Keeps-then m f h rest = record { kept = λ s p. (rest (m s).1).kept (m s).0 (h.kept s p) }

module _ {S A : Type 0} {P : S → Type 0} where
  pub Keeps-return : (a : A) → Keeps P (return a)
  unfolding return
  Keeps-return a = record { kept = λ s p. p }

  pub Keeps-gets : (f : S → A) → Keeps P (gets f)
  unfolding gets
  Keeps-gets f = record { kept = λ s p. p }

  pub Keeps-if :
      (test : Bool) (m n : Step S A) → Keeps P m → Keeps P n → Keeps P (if test then m else n)
  Keeps-if true m n hm hn = hm
  Keeps-if false m n hm hn = hn

module _ {S : Type 0} {P : S → Type 0} where
  pub Keeps-when : (test : Bool) (m : Step S Unit) → Keeps P m → Keeps P (when test m)
  unfolding when return
  Keeps-when true m hm = hm
  Keeps-when false m hm = record { kept = λ s p. p }

module _ (O : Outside) {G : Type 0} (P : G → Type 0) where
  -- A predicate on the own state alone.
  abbrev pub Own : Sys O G → Type 0
  Own s = P s.own

  pub make_threei_call-Keeps :
      (nr self_cage target_cage : ℕ) (args arg_cages : List ℕ)
      → Keeps Own (make_threei_call O nr self_cage target_cage args arg_cages)
  unfolding make_threei_call
  make_threei_call-Keeps nr self_cage target_cage args arg_cages = record { kept = λ s p. p }

  pub copy_from_cage-Keeps :
      (addr addr_cage len : ℕ) → Keeps Own (copy_from_cage O addr addr_cage len)
  unfolding copy_from_cage gets
  copy_from_cage-Keeps addr addr_cage len = record { kept = λ s p. p }

  pub is_thread_clone-Keeps :
      (clone_args_ptr clone_args_cage : ℕ)
      → Keeps Own (is_thread_clone O clone_args_ptr clone_args_cage)
  unfolding is_thread_clone copy_from_cage gets
  is_thread_clone-Keeps clone_args_ptr clone_args_cage = record { kept = λ s p. p }

  pub on_own-Keeps : (f : G → G) → ((g : G) → P g → P (f g)) → Keeps Own (on_own O f)
  on_own-Keeps f h = record { kept = λ s p. h s.own p }

  pub try_tables-Keeps : (f : O.Tables → Option O.Tables) → Keeps Own (try_tables O f)
  try_tables-Keeps f = record { kept = λ s p. go s p (f s.tables) }
    where
      go : (s : Sys O G) → Own s → (o : Option O.Tables) → Own (tried O s o).0
      go s p none = p
      go s p (some t) = p

  pub place_fd-Keeps : (cage_id fd : ℕ) (entry : Entry) → Keeps Own (place_fd O cage_id fd entry)
  place_fd-Keeps cage_id fd entry = record {
    kept = λ s p. go s p (O.get_specific_virtual_fd s.tables cage_id fd entry);
  }
    where
      go : (s : Sys O G) → Own s → (o : ℕ ⊎ O.Tables) → Own (placed O s o).0
      go s p (inl errno) = p
      go s p (inr t) = p
