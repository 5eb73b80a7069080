-- ===== src/Grate/Steps.antt =====
-- A handler is a function of the grate's own state, the descriptor tables and the world outside.
-- The wrappers of lib/grate-rs/src/lib.rs around the runtime's functions.
use lind_wasm_example_grates.Base.{
  ℕ, zero, suc, ◌/◌, ◌%◌, ◌^◌, Bool, Option, none, some, List, [], ◌∷◌, ◌⊎◌, inl, inr, eqb,
  if◌then◌else◌, false, ◌-◌, ◌+◌, ◌*◌, true,
}
use lind_wasm_example_grates.Base.Words.{ℤ, pos, negsuc}
use lind_wasm_example_grates.Grate.Outside.{Outside, Entry}

abbrev pub Step : Type 0 → Type 0 → Type 0
Step S A = S → S × A

module _ {S A B : Type 0} where
  infixl 5 ◌>>=◌
  unfoldable pub ◌>>=◌ : Step S A → (A → Step S B) → Step S B
  (m >>= f) s = let r = m s in f r.1 r.0

  infixl 5 ◌>>◌
  abbrev pub ◌>>◌ : Step S A → Step S B → Step S B
  m >> n = m >>= (λ a. n)

unfoldable pub return : {S A : Type 0} → A → Step S A
return a s = (s, a)

-- a part of the state, read
unfoldable pub gets : {S A : Type 0} → (S → A) → Step S A
gets f s = (s, f s)

-- if test { .. }
unfoldable pub when : {S : Type 0} → Bool → Step S Unit → Step S Unit
when test m = if test then m else return tt

-- The arguments of a handler.
pub record Args : Type 0 where
  pub arg1 : ℕ
  pub arg1cage : ℕ
  pub arg2 : ℕ
  pub arg2cage : ℕ
  pub arg3 : ℕ
  pub arg3cage : ℕ
  pub arg4 : ℕ
  pub arg4cage : ℕ
  pub arg5 : ℕ
  pub arg5cage : ℕ
  pub arg6 : ℕ
  pub arg6cage : ℕ

-- [arg1, .., arg6]
abbrev pub args_of : Args → List ℕ
args_of a = a.arg1 ∷ a.arg2 ∷ a.arg3 ∷ a.arg4 ∷ a.arg5 ∷ a.arg6 ∷ []

-- [arg1cage, .., arg6cage]
abbrev pub cages_of : Args → List ℕ
cages_of a = a.arg1cage ∷ a.arg2cage ∷ a.arg3cage ∷ a.arg4cage ∷ a.arg5cage ∷ a.arg6cage ∷ []

-- `n & (1 << k) != 0`
abbrev pub has_bit : ℕ → ℕ → Bool
has_bit k n = eqb (n / 2 ^ k % 2) 1

pub data GrateError : Type 0 where
  make_syscall_error : ℤ → GrateError
  handler_registration_error : ℤ → GrateError

-- The result of a call that is passed on: Ok(ret) => ret, Err(MakeSyscallError(e)) => e, _ => -1.
abbrev pub passed : GrateError ⊎ ℤ → ℤ
passed (inr ret) = ret
passed (inl (make_syscall_error e)) = e
passed (inl (handler_registration_error e)) = negsuc 0

-- `ret as u64` and the sign of a result
abbrev pub as_u64 : ℤ → ℕ
as_u64 (pos n) = n
as_u64 (negsuc n) = 2 ^ 64 - n - 1

abbrev pub is_pos : ℤ → Bool
is_pos (pos zero) = false
is_pos (pos (suc n)) = true
is_pos (negsuc n) = false

-- a number of which these are the bytes, the lowest first
abbrev pub le_bytes : List ℕ → ℕ
le_bytes [] = 0
le_bytes (b ∷ bs) = b + 256 * le_bytes bs

-- CLONE_THREAD in the first eight bytes of `struct clone_args`
abbrev pub thread_flags : Option (List ℕ) → Bool
thread_flags none = false
thread_flags (some buf) = has_bit 16 (le_bytes buf)

module _ (O : Outside) where
  open O use {World, Tables}

  pub record Sys (G : Type 0) : Type 0 where
    pub own : G
    pub tables : Tables
    pub world : World

  -- A negative result is an error.
  abbrev pub as_call_result : ℤ → GrateError ⊎ ℤ
  as_call_result (pos n) = inr (pos n)
  as_call_result (negsuc n) = inl (make_syscall_error (negsuc n))

  abbrev pub as_registered : ℤ → GrateError ⊎ (Unit {0})
  as_registered (pos zero) = inr tt
  as_registered (pos (suc n)) = inl (handler_registration_error (pos (suc n)))
  as_registered (negsuc n) = inl (handler_registration_error (negsuc n))

  module _ {G : Type 0} where
    unfoldable pub make_threei_call : ℕ → ℕ → ℕ → List ℕ → List ℕ → Step (Sys G) (GrateError ⊎ ℤ)
    make_threei_call nr self_cage target_cage args arg_cages s =
        let r = O.make_syscall_impl s.world nr self_cage target_cage args arg_cages in
        (record s { world = r.0 }, as_call_result r.1)

    unfoldable pub register_handler : ℕ → ℕ → ℕ → ℕ → Step (Sys G) (GrateError ⊎ (Unit {0}))
    register_handler cageid syscall_nr grateid handler s =
        let r = O.register_handler_impl s.world cageid syscall_nr grateid handler in
        (record s { world = r.0 }, as_registered r.1)

    -- copy_data_between_cages into a buffer of `len` bytes
    unfoldable pub copy_from_cage : ℕ → ℕ → ℕ → Step (Sys G) (Option (List ℕ))
    copy_from_cage addr addr_cage len = gets (λ s. O.copy_in s.world addr addr_cage len)

    abbrev pub on_own : (G → G) → Step (Sys G) Unit
    on_own f s = (record s { own = f s.own }, tt)

    abbrev pub tried : Sys G → Option Tables → Sys G × Unit {0}
    tried s none = (s, tt)
    tried s (some t) = (record s { tables = t }, tt)

    -- let _ = fdtables::..: an error leaves the tables
    abbrev pub try_tables : (Tables → Option Tables) → Step (Sys G) Unit
    try_tables f s = tried s (f s.tables)

    abbrev pub placed : Sys G → ℕ ⊎ Tables → Sys G × Option ℕ
    placed s (inl errno) = (s, some errno)
    placed s (inr t) = (record s { tables = t }, none)

    -- fdtables::get_specific_virtual_fd: the errno, if there is one
    abbrev pub place_fd : ℕ → ℕ → Entry → Step (Sys G) (Option ℕ)
    place_fd cage_id fd entry s = placed s (O.get_specific_virtual_fd s.tables cage_id fd entry)

    abbrev pub made : Sys G → ℕ ⊎ (Tables × ℕ) → Sys G × (ℕ ⊎ ℕ)
    made s (inl errno) = (s, inl errno)
    made s (inr (t, vfd)) = (record s { tables = t }, inr vfd)

    -- fdtables::get_unused_virtual_fd, and the search that starts at a descriptor
    abbrev pub new_fd : ℕ → Entry → Step (Sys G) (ℕ ⊎ ℕ)
    new_fd cage_id entry s = made s (O.get_unused_virtual_fd s.tables cage_id entry)

    abbrev pub new_fd_from : ℕ → Entry → ℕ → Step (Sys G) (ℕ ⊎ ℕ)
    new_fd_from cage_id entry startfd s =
        made s (O.get_unused_virtual_fd_from_startfd s.tables cage_id entry startfd)

    unfoldable pub is_thread_clone : ℕ → ℕ → Step (Sys G) Bool
    unfolding copy_from_cage gets
    is_thread_clone clone_args_ptr clone_args_cage s =
        let r = copy_from_cage clone_args_ptr clone_args_cage 8 s in (r.0, thread_flags r.1)

    abbrev pub translate : ℕ → ℕ → Step (Sys G) (Option Entry)
    translate cage_id fd = gets (λ s. O.translate_virtual_fd s.tables cage_id fd)
