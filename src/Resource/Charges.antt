-- ===== src/Resource/Charges.antt =====
-- The helpers of rust-grates/resource-grate/src/handlers.rs: calls passed on, the kinds of
-- descriptors, and the charges around a read or a write.
use lind_wasm_example_grates.Base.{
  ℕ, zero, suc, ◌+◌, ◌-◌, ◌*◌, ◌^◌, Bool, false, ◌&&◌, ◌||◌, Option, none, some, List, eqb,
  get_elem?, if◌then◌else◌, ◌%◌,
}
use lind_wasm_example_grates.Base.Words.{ℤ, pos, negsuc, as_i32, zeq, u32_mod}
use lind_wasm_example_grates.Path.Text.{Text, text}
use lind_wasm_example_grates.Grate.Outside.{Outside, Entry}
use lind_wasm_example_grates.Grate.Steps.{
  Sys, Step, ◌>>=◌, return, Args, args_of, cages_of, has_bit, make_threei_call, copy_from_cage,
  translate, passed,
}
use lind_wasm_example_grates.Resource.Amounts.{Amounts}
use lind_wasm_example_grates.Resource.Nanny.{NannyState, tattle_quantity}

abbrev pub fd_file : ℕ
fd_file = 1

abbrev pub fd_socket : ℕ
fd_socket = 2

-- The bits of SOCK_LOOPBACK and SOCK_LISTENING.
abbrev pub sock_loopback : ℕ
sock_loopback = 0

abbrev pub sock_listening : ℕ
sock_listening = 1

-- `flags | (1 << k)` and `flags & !(1 << k)`
abbrev pub with_bit : ℕ → ℕ → ℕ
with_bit k n = if has_bit k n then n else n + 2 ^ k

abbrev pub without_bit : ℕ → ℕ → ℕ
without_bit k n = if has_bit k n then n - 2 ^ k else n

abbrev pub or_zero : Option ℕ → ℕ
or_zero none = 0
or_zero (some n) = n

abbrev pub byte_at : List ℕ → ℕ → ℕ
byte_at buf i = or_zero (get_elem? buf i)

-- u16::from_ne_bytes([buf[0], buf[1]]), the low byte first
abbrev pub family_of : List ℕ → ℕ
family_of buf = byte_at buf 0 + 256 * byte_at buf 1

-- u16::from_be_bytes([buf[2], buf[3]])
abbrev pub port_of : List ℕ → ℕ
port_of buf = 256 * byte_at buf 2 + byte_at buf 3

abbrev pub af_inet : ℕ
af_inet = 2

abbrev pub port_in : Option (List ℕ) → Option ℕ
port_in none = none
port_in (some buf) = if eqb (family_of buf) af_inet then some (port_of buf) else none

abbrev pub loopback_in : Option (List ℕ) → Bool
loopback_in none = false
loopback_in (some buf) = eqb (family_of buf) af_inet && eqb (byte_at buf 4) 127

abbrev pub kind_in : Option Entry → ℕ
kind_in none = 0
kind_in (some e) = e.fdkind

abbrev pub flags_in : Option Entry → ℕ
flags_in none = 0
flags_in (some e) = if eqb e.fdkind fd_socket then e.perfdinfo else 0

-- fd as i32 is 1 or 2
abbrev pub is_log : ℕ → Bool
is_log fd = zeq (as_i32 fd) (pos 1) || zeq (as_i32 fd) (pos 2)

module _ (A : Amounts) (O : Outside) where
  open A use {F, of_nat, plus, times, over, ceil}

  abbrev pub Do : Type 0 → Type 0
  Do = Step (Sys O (NannyState A))

  -- make_threei_call for the calling cage
  unfoldable pub forward : ℕ → ℕ → Args → Do ℤ
  forward nr grate_cageid a = do
    r ← make_threei_call O (nr % u32_mod) grate_cageid a.arg1cage (args_of a) (cages_of a)
    return (passed r)

  unfoldable pub block_charge : ℕ → F
  block_charge bytes = times (ceil (over (of_nat bytes) (of_nat 4096))) (of_nat 4096)

  unfoldable pub extract_port : ℕ → ℕ → Do (Option ℕ)
  extract_port addr_ptr addr_cage = do
    buf ← copy_from_cage O addr_ptr addr_cage 16
    return (port_in buf)

  unfoldable pub is_loopback_addr : ℕ → ℕ → Do Bool
  is_loopback_addr addr_ptr addr_cage = do
    buf ← copy_from_cage O addr_ptr addr_cage 16
    return (loopback_in buf)

  unfoldable pub fd_kind : ℕ → ℕ → Do ℕ
  fd_kind cage_id fd = do e ← translate O cage_id fd; return (kind_in e)

  unfoldable pub socket_flags : ℕ → ℕ → Do ℕ
  socket_flags cage_id fd = do e ← translate O cage_id fd; return (flags_in e)

  abbrev pub charge : Text → F → Do Unit
  charge = tattle_quantity A O

  -- A socket's resource by its loopback flag, and what else takes the other descriptors.
  abbrev by_kind : ℕ → ℕ → (Bool → Do Unit) → Do Unit → Do Unit
  by_kind cage_id fd on_socket otherwise = do
    kind ← fd_kind cage_id fd
    flags ← socket_flags cage_id fd
    (if eqb kind fd_socket then on_socket (has_bit sock_loopback flags) else otherwise)

  unfoldable pub charge_read_pre : ℕ → ℕ → Do Unit
  unfolding fd_kind socket_flags
  charge_read_pre cage_id fd =
      by_kind cage_id fd
        (λ loopback. charge (if loopback then text "looprecv" else text "netrecv") A.zero)
        (charge (text "fileread") A.zero)

  unfoldable pub charge_read_post : ℕ → ℕ → ℤ → Do Unit
  unfolding fd_kind socket_flags block_charge
  charge_read_post cage_id fd (negsuc n) = return tt
  charge_read_post cage_id fd (pos zero) = return tt
  charge_read_post cage_id fd (pos (suc n)) =
      let bytes = suc n in
      by_kind cage_id fd
        (λ loopback.
          charge (if loopback then text "looprecv" else text "netrecv")
            (plus (of_nat bytes) (of_nat 64)))
        (charge (text "fileread") (block_charge bytes))

  unfoldable pub charge_write_pre : ℕ → ℕ → Do Unit
  unfolding fd_kind socket_flags
  charge_write_pre cage_id fd =
      if is_log fd
      then charge (text "lograte") A.zero
      else by_kind cage_id fd
          (λ loopback. charge (if loopback then text "loopsend" else text "netsend") A.zero)
          (charge (text "filewrite") A.zero)

  unfoldable pub charge_write_post : ℕ → ℕ → ℤ → Do Unit
  unfolding fd_kind socket_flags block_charge
  charge_write_post cage_id fd (negsuc n) = return tt
  charge_write_post cage_id fd (pos zero) = return tt
  charge_write_post cage_id fd (pos (suc n)) =
      let bytes = suc n in
      if is_log fd
      then charge (text "lograte") (of_nat bytes)
      else by_kind cage_id fd
          (λ loopback.
            charge (if loopback then text "loopsend" else text "netsend")
              (plus (of_nat bytes) (of_nat 64)))
          (charge (text "filewrite") (block_charge bytes))
