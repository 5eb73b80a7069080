-- ===== src/FsClamp/Escapes.antt =====
-- No descriptor leaves its side by being duplicated, and an open decides the side by its path
-- (rust-grates/fs-routing-clamp/src/handlers/ns_handlers.rs).
use lind_wasm_example_grates.FsClamp.Paths.{path_matches_prefix}
use lind_wasm_example_grates.FsClamp.FdCalls.{
  f_dupfd, fd_handler, ns_fcntl_handler, f_dupfd_cloexec, send_to_side,
}
use lind_wasm_example_grates.FsClamp.Duplicates.{ns_dup_handler, ns_dup2_handler, ns_dup3_handler}
use lind_wasm_example_grates.Base.Words.{ℤ, pos}
use lind_wasm_example_grates.FsClamp.Sides.{OnSide}
use lind_wasm_example_grates.FsClamp.Routing.{NsSys, Ns, resolve_path_from_cage, holds_of}
use lind_wasm_example_grates.Grate.Steps.{Args, args_of, cages_of}
use lind_wasm_example_grates.Grate.Outside.{Outside}
use lind_wasm_example_grates.Base.{ℕ, Bool, ◌≡◌, set}

-- The calls that duplicate a descriptor.
pub data Duplicator : Type 0 where
  by_dup : Duplicator
  by_dup2 : Duplicator
  by_dup3 : Duplicator
  by_fcntl : Duplicator
  by_fcntl_cloexec : Duplicator

module _ (O : Outside) where
  abbrev pub duplicate : Duplicator → Args → Ns O ℤ
  duplicate by_dup a = ns_dup_handler O a
  duplicate by_dup2 a = ns_dup2_handler O a
  duplicate by_dup3 a = ns_dup3_handler O a
  duplicate by_fcntl a = ns_fcntl_handler O (record a { arg2 = f_dupfd })
  duplicate by_fcntl_cloexec a = ns_fcntl_handler O (record a { arg2 = f_dupfd_cloexec })

  -- The descriptor that a result names is marked to be on this side, and a call on it by a handler
  -- of fd_route_handler! goes to this side, with the descriptor's underfd.
  abbrev pub Sends : ℕ → Bool → NsSys O × ℤ → Type 0
  Sends cage clamped (s, ret) =
      (b : Args)
      → ret ≡ pos b.arg1
      → b.arg1cage ≡ cage
      → OnSide O s b.arg1cage b.arg1 clamped
        × ((sysno : ℕ)
            → (underfd : ℕ) × (fd_handler O sysno b s
                ≡ send_to_side O b.arg1cage sysno clamped (set (args_of b) 0 underfd) (cages_of b)
                    s))

  -- Whether the path of an open is below the prefix: it is read from the cage, and resolved by the
  -- working directory of the cage of the flags.
  unfoldable pub opens_below : Args → NsSys O → Bool
  unfolding resolve_path_from_cage
  opens_below a s =
      holds_of (path_matches_prefix s.own.clamp.routing_prefix)
        (resolve_path_from_cage O a.arg2cage a.arg1 a.arg1cage s).1
