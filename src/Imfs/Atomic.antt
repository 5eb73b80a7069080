-- ===== src/Imfs/Atomic.antt =====
-- An operation of rust-grates/imfs-grate/src/imfs/mod.rs that fails has changed nothing: its
-- checks come first.
use lind_wasm_example_grates.Base.{
  ℕ, Bool, true, false, Option, none, some, if◌then◌else◌, ◌≡◌, refl, subst,
}
use lind_wasm_example_grates.Base.Words.{ℤ}
use lind_wasm_example_grates.Path.Text.{Text}
use lind_wasm_example_grates.Imfs.State.{ImfsState}
use lind_wasm_example_grates.Imfs.Resolve.{Result, ok, err, normalize_path_for_cage}
use lind_wasm_example_grates.Imfs.Act.{
  Act, after, ◌>>=◌, return, fail, ask, answer, attempt, need, do_, make, fail_if, with_path,
}

module _ {S A : Type 0} where
  -- An outcome in which the state is the one before.
  abbrev pub Kept : S → Option (S × Result A) → Type 0
  Kept s none = Unit
  Kept s (some (s', r)) = s' ≡ s

  -- An outcome in which the state is the one before, if it is an error.
  abbrev pub Unchanged : S → Option (S × Result A) → Type 0
  Unchanged s none = Unit
  Unchanged s (some (s', ok a)) = Unit
  Unchanged s (some (s', err e)) = s' ≡ s

  -- An outcome that is no error.
  abbrev pub Fine : Option (S × Result A) → Type 0
  Fine none = Unit
  Fine (some (s', ok a)) = Unit
  Fine (some (s', err e)) = ⊥

  pub record Reads (m : Act S A) : Type 0 where
    kept : (s : S) → Kept s (m s)

  pub record Never (m : Act S A) : Type 0 where
    fine : (s : S) → Fine (m s)

  pub record Atomic (m : Act S A) : Type 0 where
    unchanged : (s : S) → Unchanged s (m s)

  Fine-Unchanged : (s : S) (o : Option (S × Result A)) → Fine o → Unchanged s o
  Fine-Unchanged s none h = tt
  Fine-Unchanged s (some (s', ok a)) h = tt
  Fine-Unchanged s (some (s', err e)) h = elim h [ ]

  pub never : (m : Act S A) → Never m → Atomic m
  never m h = record { unchanged = λ s. Fine-Unchanged s (m s) (h.fine s) }

  pub reads : (m : Act S A) → Reads m → Atomic m
  reads m h = record { unchanged = λ s. go s (m s) (h.kept s) }
    where
      go : (s : S) (o : Option (S × Result A)) → Kept s o → Unchanged s o
      go s none h = tt
      go s (some (s', ok a)) h = tt
      go s (some (s', err e)) h = h

  pub failed : (m : Act S A) → Atomic m → (s s' : S) (e : ℤ) → m s ≡ some (s', err e) → s' ≡ s
  failed m atomic s s' e eq = subst (Unchanged s) eq (atomic.unchanged s)

  pub ask-Reads : (f : S → Option (Result A)) → Reads (ask f)
  unfolding ask
  ask-Reads f = record { kept = λ s. go s (f s) }
    where
      go : (s : S) (o : Option (Result A)) → Kept s (answer s o)
      go s none = tt
      go s (some r) = refl

  pub return-Never : (a : A) → Never (return a)
  unfolding return
  return-Never a = record { fine = λ s. tt }

  pub if-Never : (test : Bool) (m n : Act S A) → Never m → Never n → Never (if test then m else n)
  if-Never true m n hm hn = hm
  if-Never false m n hm hn = hn

  pub if-Atomic :
      (test : Bool) (m n : Act S A) → Atomic m → Atomic n → Atomic (if test then m else n)
  if-Atomic true m n hm hn = hm
  if-Atomic false m n hm hn = hn

module _ {S A : Type 0} where
  pub attempt-Reads : (f : S → Option (Result A)) → Reads (attempt f)
  unfolding attempt
  attempt-Reads f = record {
    kept = λ s.
        elim (f s)
          as (λ o. Kept {A = Result A} s (elim o [ none ↦ none | some r ↦ some (s, ok r) ])) [
            | none ↦ tt
            | some r ↦ refl
          ];
  }

  pub need-Reads : (f : S → Option A) → Reads (need f)
  unfolding need
  need-Reads f = record {
    kept = λ s.
        elim (f s) as (λ o. Kept {A = A} s (elim o [ none ↦ none | some a ↦ some (s, ok a) ])) [
          | none ↦ tt
          | some a ↦ refl
        ];
  }

  pub need-Never : (f : S → Option A) → Never (need f)
  unfolding need
  need-Never f = record {
    fine = λ s.
        elim (f s)
          as (λ o. Fine {S = S} {A = A} (elim o [ none ↦ none | some a ↦ some (s, ok a) ])) [
            | none ↦ tt
            | some a ↦ tt
          ];
  }

module _ {S : Type 0} where
  pub fail_if-Reads : (test : Bool) (e : ℤ) → Reads {S = S} (fail_if test e)
  unfolding fail_if fail return
  fail_if-Reads true e = record { kept = λ s. refl }
  fail_if-Reads false e = record { kept = λ s. refl }

  pub do_-Never : (f : S → Option S) → Never (do_ f)
  unfolding do_
  do_-Never f = record {
    fine = λ s.
        elim (f s)
          as (λ o. Fine {S = S} {A = Unit} (elim o [ none ↦ none | some s' ↦ some (s', ok tt) ])) [
            | none ↦ tt
            | some s' ↦ tt
          ];
  }

  pub make-Never : (f : S → Option (ℕ × S)) → Never (make f)
  unfolding make
  make-Never f = record {
    fine = λ s.
        elim (f s)
          as (λ o. Fine {S = S} {A = ℕ} (elim o [ none ↦ none | some (i, s') ↦ some (s', ok i) ])) [
            | none ↦ tt
            | some (i, s') ↦ tt
          ];
  }

module _ {S A : Type 0} where
  pub fail-Reads : (e : ℤ) → Reads {S = S} {A = A} (fail e)
  unfolding fail
  fail-Reads e = record { kept = λ s. refl }

module _ {S A B : Type 0} where
  -- A check, then the rest.
  pub reads_then :
      (m : Act S A) (f : A → Act S B) → Reads m → ((a : A) → Atomic (f a)) → Atomic (m >>= f)
  unfolding ◌>>=◌
  reads_then m f reads rest = record { unchanged = λ s. go s (m s) (reads.kept s) }
    where
      go : (s : S) (o : Option (S × Result A)) → Kept s o → Unchanged s (after o f)
      go s none h = tt
      go s (some (s', ok a)) h = subst (λ t. Unchanged t (f a s')) h ((rest a).unchanged s')
      go s (some (s', err e)) h = h

  -- Changes may fail, then what follows must not.
  pub atomic_then :
      (m : Act S A) (f : A → Act S B) → Atomic m → ((a : A) → Never (f a)) → Atomic (m >>= f)
  unfolding ◌>>=◌
  atomic_then m f h rest = record { unchanged = λ s. go s (m s) (h.unchanged s) }
    where
      go : (s : S) (o : Option (S × Result A)) → Unchanged s o → Unchanged s (after o f)
      go s none h = tt
      go s (some (s', ok a)) h = Fine-Unchanged s (f a s') ((rest a).fine s')
      go s (some (s', err e)) h = h

  pub Never-then :
      (m : Act S A) (f : A → Act S B) → Never m → ((a : A) → Never (f a)) → Never (m >>= f)
  unfolding ◌>>=◌
  Never-then m f h rest = record { fine = λ s. go (m s) (h.fine s) }
    where
      go : (o : Option (S × Result A)) → Fine o → Fine (after o f)
      go none h = tt
      go (some (s', ok a)) h = (rest a).fine s'
      go (some (s', err e)) h = h

module _ {A : Type 0} where
  pub with_path-Atomic :
      (cage_id : ℕ) (path : Text) (body : Text → Act ImfsState A)
      → ((norm_path : Text) → Atomic (body norm_path))
      → Atomic (with_path cage_id path body)
  unfolding with_path
  with_path-Atomic cage_id path body h = record {
    unchanged = λ s. (h (normalize_path_for_cage s cage_id path)).unchanged s;
  }
