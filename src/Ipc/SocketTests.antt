-- ===== src/Ipc/SocketTests.antt =====
-- Runs of the socket registry of rust-grates/ipc-grate with a ring that is a list.
use lind_wasm_example_grates.Base.{
  true, none, some, [], ◌∷◌, nat_key, text_key, ◌≡◌, ◌≢◌, refl, arith,
}
use lind_wasm_example_grates.Base.Dict.{get, contains_key}
use lind_wasm_example_grates.Path.Text.{Text}
use lind_wasm_example_grates.Ipc.Sockets.{
  ConnState, SocketInfo, SocketRegistry, alloc_ephemeral_port, create_socketpair, connect, accept,
  queue_of,
}
use lind_wasm_example_grates.Ipc.Ports.{PortIs, alloc_ephemeral_port_lem}
use lind_wasm_example_grates.Ipc.Connection.{
  Crossed, IsAccepted, create_socketpair-Crossed, accept-connect,
}
use lind_wasm_example_grates.Ipc.ListRing.{list_ring}

abbrev empty_registry : SocketRegistry list_ring
empty_registry = record {
  pipes = [];
  sockets = [];
  next_socket_id = 0;
  pending_connections = [];
  bound_paths = [];
  bound_ports = (60999, 4) ∷ [];
  next_ephemeral_port = 60999;
}

alloc_ephemeral_port_lem_example :
    PortIs list_ring empty_registry (alloc_ephemeral_port list_ring empty_registry)
alloc_ephemeral_port_lem_example =
    alloc_ephemeral_port_lem list_ring empty_registry (omega arith, omega arith)

create_socketpair-Crossed_example :
    let (a, b, s') = create_socketpair list_ring empty_registry 1 1 0 in
    (a ≢ b) × Crossed list_ring s' a b
create_socketpair-Crossed_example = create_socketpair-Crossed list_ring empty_registry 1 1 0

abbrev sock_path : Text
sock_path = b'/' ∷ b's' ∷ []

abbrev a_socket : SocketInfo
a_socket = record {
  domain = 1;
  socktype = 1;
  state = ConnState.not_connected;
  flags = 0;
  local_addr = none;
  remote_addr = none;
  sendpipe = none;
  recvpipe = none;
}

-- Socket 0 listens at a path, socket 1 connects.
abbrev two_sockets : SocketRegistry list_ring
two_sockets = record empty_registry {
  sockets = (0, a_socket) ∷ (1, a_socket) ∷ [];
  next_socket_id = 2;
  bound_paths = (sock_path, 0) ∷ [];
}

connector : get two_sockets.sockets 1 ≡ some a_socket
unfolding get
connector = refl

bound : contains_key two_sockets.bound_paths sock_path ≡ true
unfolding get
bound = refl

nobody_waits : queue_of list_ring two_sockets sock_path ≡ []
unfolding queue_of get
nobody_waits = refl

accept-connect_example :
    IsAccepted list_ring 1
      (accept list_ring (connect list_ring two_sockets 1 sock_path).0 0 sock_path)
accept-connect_example =
    accept-connect list_ring two_sockets 1 0 sock_path a_socket connector bound nobody_waits
      (λ e. omega arith)
