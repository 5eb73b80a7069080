-- ===== src/Lib.antt =====
-- Verification of the Rust grates of lind-wasm-example-grates.
--
-- A grate sits between a cage (a sandboxed process) and the kernel and handles some of its system
-- calls. The parts that are modelled, and where they are:
--
-- - Path: the text functions of Rust's `str` that path code calls (Path/Text) and the component loop
--   that the grates share (Path/Components, with its laws). Path/Agreement compares the grates,
--   and Path/Prefix says what a prefix matches.
-- - Chroot: rust-grates/chroot-grate. Chroot/Paths has `normalize_path`, `virtualize_host_cwd` and
--   `strip_chroot_prefix` of src/paths.rs and src/main.rs; Chroot/State has the global tables
--   (CHROOT_DIR, CAGE_CWDS, CAGE_DIR_FDS) as a record that each operation takes and returns, with
--   `chroot_path`, the descriptor directories and `rewrite_at_path`. Chroot/Calls has what the
--   handlers share, Chroot/PathCalls those that name files (the macro `input_path_handler!` is a
--   function of the places of its paths), Chroot/FdCalls those that keep the directories, and
--   Chroot/Sockets is src/sockets.rs. Chroot/Host is the interface of the grate's own memory, in
--   which it passes texts to the kernel, and of `stat`.
-- - Grate: lib/grate-rs. Grate/Outside is the interface of the code outside the repository that the
--   handlers call: the runtime's functions of lib/grate-rs/src/ffi.rs, the clock and the crate
--   `fdtables`. Grate/Steps has the form of a handler, a function of the grate's own state, the
--   tables and the world outside, with the wrappers of src/lib.rs; Grate/Keeps says that such a
--   function keeps a predicate. Grate/Sample is an outside on which the tests run.
-- - FsClamp: rust-grates/fs-routing-clamp. FsClamp/State has `NSClampState` of src/helpers.rs and its
--   operations, FsClamp/Paths the path functions, FsClamp/Mmap the ranges of clamped mappings,
--   FsClamp/Routing the calls that leave the grate. The handlers of src/handlers are in
--   FsClamp/PathCalls, FsClamp/FdCalls, FsClamp/Duplicates, FsClamp/AtCalls and FsClamp/Lifecycle.
-- - NetClamp: rust-grates/net-routing-clamp. NetClamp/State has the tables of src/helpers.rs and the
--   port of a socket address, NetClamp/Calls the handlers of src/handlers/ns_handlers.rs,
--   NetClamp/Lifecycle those of src/handlers/clamped_lifecycle.rs.
-- - WriteFilter: rust-grates/write-filter-grate. WriteFilter/Calls has src/handlers.rs with the
--   extension of a path, as Rust's `Path` finds it, and the closure of src/main.rs.
-- - Resource: rust-grates/resource-grate. Resource/Nanny has the accounts of src/nanny.rs, with the
--   `f64` numbers as an interface (Resource/Amounts); Resource/Charges, Resource/Files,
--   Resource/Sockets and Resource/Handlers are src/handlers.rs.
-- - Imfs: rust-grates/imfs-grate/src/imfs. Imfs/Node is node.rs; the others are parts of mod.rs:
--   Imfs/Chunks the chunk arena with `read_from_node`, `write_to_node` and `truncate_node`, Imfs/State
--   `ImfsState` with its node slots and directory entries, Imfs/Resolve the path walk, Imfs/Act the
--   form of an operation (a state, and a value or an errno), Imfs/Fs and Imfs/Rename the operations
--   on paths, Imfs/Fds, Imfs/Calls and Imfs/Dup those on descriptors. Imfs/Tables is the interface of the crate
--   `fdtables`, which is not in the repository. Imfs/Content says what bytes a chunk list holds,
--   Imfs/Overwrite and Imfs/SkipWrite follow the two loops of `write_to_node` within a file.
-- - Ipc: rust-grates/ipc-grate/src/pipe.rs and src/socket.rs. Ipc/Ring is the interface of the crate `ringbuf`, which
--   is not in the repository: a record of the calls and of what is documented of them, taken as a
--   parameter. Ipc/Pipe has `PipeBuffer` with its blocking `read` and `write`, and Ipc/Blocking and
--   Ipc/EndOfFile are about what they do among other threads. Ipc/Sockets has the registry
--   of src/socket.rs and what `connect_handler` and `accept_handler` of src/handlers.rs do to
--   it; a pipe is shared through an `Arc`, so a socket holds the place of its pipes in a list.
--
-- Texts are lists of code points, u32 and u64 values natural numbers with their wrap-around written
-- out, and an i32 result an integer (Base/Words). A `HashMap` is an association list (Base/Dict). A
-- `Mutex` is locked for a whole operation, so an operation is a function of the state; the pipe has no
-- lock, and what other threads do between two of its steps is an argument. Its loops run over the
-- list of these rounds, so they need no fuel: a call that is given too few rounds is `waiting`.
--
-- The loops of Imfs over chunks and links run on fuel, and `none` stands for a panic or a loop that
-- does not end: the number of chunks and of bytes asked for is enough for a chunk list without a
-- cycle, the number of nodes for a chain of parents or hard links, and 41 symbolic links are the
-- source's own bound. The wait of `lind_sleep` has as many rounds as nanoseconds, enough for a clock
-- that moves on in each. The search for a port has as many rounds as there are ports in its range, which
-- Ipc/Ports shows to be enough. The time of day is one constant, since no branch depends on it.
--
-- Not modelled: what a path means on the host (symbolic links of the host may lead out of the chroot
-- directory; paths are resolved on the text here), the handlers of the ipc and imfs grates
-- other than those named, the default handlers of lib/grate-rs/src/fd_support.rs, the command lines,
-- and the grates that are not named above.
pub mod Base
pub mod Chroot
pub mod FsClamp
pub mod Grate
pub mod Imfs
pub mod Ipc
pub mod NetClamp
pub mod WriteFilter
pub mod Path
pub mod Resource
