-- ===== src/Ipc/Sockets.antt =====
-- The socket registry of rust-grates/ipc-grate/src/socket.rs, with what the connect and accept
-- handlers of src/handlers.rs do to it. A pipe is shared through an `Arc`, so a socket holds its
-- place in `pipes`.
use lind_wasm_example_grates.Base.{
  ℕ, zero, suc, ◌+◌, ◌-◌, Option, none, some, List, [], ◌∷◌, ◌++◌, length, eqb, ltb, if◌then◌else◌,
  nat_key, text_key,
}
use lind_wasm_example_grates.Base.Words.{ℤ, pos, neg}
use lind_wasm_example_grates.Base.Dict.{Dict, get, insert, remove, contains_key}
use lind_wasm_example_grates.Path.Text.{Text}
use lind_wasm_example_grates.Ipc.Ring.{RingCrate}
use lind_wasm_example_grates.Ipc.Pipe.{PipeBuffer, new_pipe}

abbrev pub udsock_capacity : ℕ
udsock_capacity = 212992

pub data ConnState : Type 0 where
  not_connected connected read_only write_only listening : ConnState

pub record SocketInfo : Type 0 where
  pub domain : ℕ
  pub socktype : ℕ
  pub state : ConnState
  pub flags : ℕ
  pub local_addr : Option Text
  pub remote_addr : Option Text
  pub sendpipe : Option ℕ
  pub recvpipe : Option ℕ

unfoldable pub new_socket : ℕ → ℕ → ℕ → SocketInfo
new_socket domain socktype flags = record {
  domain = domain;
  socktype = socktype;
  state = ConnState.not_connected;
  flags = flags;
  local_addr = none;
  remote_addr = none;
  sendpipe = none;
  recvpipe = none;
}

pub record PendingConnection : Type 0 where
  pub remote_addr : Text
  pub pipe_to_listener : ℕ
  pub pipe_to_connector : ℕ

abbrev pub last_port : ℕ
last_port = 60999

abbrev pub first_port : ℕ
first_port = 32768

-- if port > 32768 { port - 1 } else { 60999 }
abbrev pub next_port : ℕ → ℕ
next_port port = if ltb first_port port then port - 1 else last_port

-- What the loop comes to: a port, no port, or no end within the rounds that it was given.
pub data PortSearch : Type 0 where
  found : ℕ → PortSearch
  exhausted : PortSearch
  running : PortSearch

unfoldable pub search_port : ℕ → Dict ℕ ℕ → ℕ → ℕ → PortSearch
search_port zero bound_ports start port = running
search_port (suc rounds) bound_ports start port =
    let rest = search_port rounds bound_ports start (next_port port) in
    if contains_key bound_ports port
    then (if eqb (next_port port) start then exhausted else rest)
    else found port

-- The whole range is a round of the search.
abbrev pub port_rounds : ℕ
port_rounds = 28232

module _ (R : RingCrate) where
  pub record SocketRegistry : Type 0 where
    pub pipes : List (PipeBuffer R)
    pub sockets : Dict ℕ SocketInfo
    pub next_socket_id : ℕ
    pub pending_connections : Dict Text (List PendingConnection)
    pub bound_paths : Dict Text ℕ
    pub bound_ports : Dict ℕ ℕ
    pub next_ephemeral_port : ℕ

  unfoldable pub new_registry : SocketRegistry
  new_registry = record {
    pipes = [];
    sockets = [];
    next_socket_id = 0;
    pending_connections = [];
    bound_paths = [];
    bound_ports = [];
    next_ephemeral_port = last_port;
  }

  unfoldable pub create_socket : SocketRegistry → ℕ → ℕ → ℕ → ℕ × SocketRegistry
  create_socket s domain socktype flags = (
    s.next_socket_id,
    record s {
      sockets = insert s.sockets s.next_socket_id (new_socket domain socktype flags);
      next_socket_id = s.next_socket_id + 1;
    },
  )

  abbrev pub forget_addr : SocketRegistry → Option Text → SocketRegistry
  forget_addr s none = s
  forget_addr s (some addr) = record s { bound_paths = remove s.bound_paths addr }

  abbrev pub forget_socket : SocketRegistry → ℕ → Option SocketInfo → SocketRegistry
  forget_socket s socket_id none = s
  forget_socket s socket_id (some sock) =
      forget_addr (record s { sockets = remove s.sockets socket_id }) sock.local_addr

  unfoldable pub remove_socket : SocketRegistry → ℕ → SocketRegistry
  remove_socket s socket_id = forget_socket s socket_id (get s.sockets socket_id)

  abbrev pub take_port : SocketRegistry → PortSearch → SocketRegistry × PortSearch
  take_port s (found port) = (record s { next_ephemeral_port = next_port port }, found port)
  take_port s r = (s, r)

  unfoldable pub alloc_ephemeral_port : SocketRegistry → SocketRegistry × PortSearch
  alloc_ephemeral_port s =
      let start = s.next_ephemeral_port in
      take_port s (search_port port_rounds s.bound_ports start start)

  -- A change of the socket of an id, if there is one.
  abbrev pub change :
      SocketRegistry → ℕ → (SocketInfo → SocketInfo) → Option SocketInfo → SocketRegistry
  change s socket_id f none = s
  change s socket_id f (some sock) = record s { sockets = insert s.sockets socket_id (f sock) }

  unfoldable pub with_socket : SocketRegistry → ℕ → (SocketInfo → SocketInfo) → SocketRegistry
  with_socket s socket_id f = change s socket_id f (get s.sockets socket_id)

  abbrev pub wire : ℕ → ℕ → SocketInfo → SocketInfo
  wire send recv sock = record sock {
    sendpipe = some send;
    recvpipe = some recv;
    state = ConnState.connected;
  }

  -- Two new pipes: their places, and the registry with them.
  unfoldable pub two_pipes : SocketRegistry → ℕ × ℕ × SocketRegistry
  two_pipes s =
      let n = length s.pipes in
      let pipe = new_pipe R udsock_capacity in
      (n, n + 1, record s { pipes = s.pipes ++ pipe ∷ pipe ∷ [] })

  unfoldable pub create_socketpair : SocketRegistry → ℕ → ℕ → ℕ → ℕ × ℕ × SocketRegistry
  unfolding two_pipes create_socket with_socket
  create_socketpair s domain socktype flags =
      let (pipe_a, pipe_b, s1) = two_pipes s in
      let (id1, s2) = create_socket s1 domain socktype flags in
      let (id2, s3) = create_socket s2 domain socktype flags in
      let s4 = with_socket s3 id1 (wire pipe_a pipe_b) in
      (id1, id2, with_socket s4 id2 (wire pipe_b pipe_a))

  unfoldable pub establish_connection : SocketRegistry → ℕ → ℕ → SocketRegistry
  unfolding two_pipes with_socket
  establish_connection s connector_id acceptor_id =
      let (to_acceptor, to_connector, s1) = two_pipes s in
      let s2 = with_socket s1 connector_id (wire to_acceptor to_connector) in
      with_socket s2 acceptor_id (wire to_connector to_acceptor)

  abbrev pub or_nothing : Option Text → Text
  or_nothing none = []
  or_nothing (some addr) = addr

  abbrev pub local_addr_of : Option SocketInfo → Text
  local_addr_of none = []
  local_addr_of (some sock) = or_nothing sock.local_addr

  unfoldable pub queue_of : SocketRegistry → Text → List PendingConnection
  queue_of s addr = elim (get s.pending_connections addr) [ none ↦ [] | some queue ↦ queue ]

  unfoldable pub push_pending : SocketRegistry → Text → PendingConnection → SocketRegistry
  unfolding queue_of
  push_pending s addr conn = record s {
    pending_connections = insert s.pending_connections addr (queue_of s addr ++ conn ∷ []);
  }

  -- The end of `connect_handler`, for a socket and the address that it connects to.
  unfoldable pub connect : SocketRegistry → ℕ → Text → SocketRegistry × ℤ
  unfolding two_pipes with_socket push_pending
  connect s socket_id target_addr =
      let (to_listener, to_connector, s1) = two_pipes s in
      let s2 =
        with_socket s1 socket_id (λ sock. record (wire to_listener to_connector sock) {
          remote_addr = some target_addr;
        }) in
      let conn : PendingConnection = record {
        remote_addr = local_addr_of (get s2.sockets socket_id);
        pipe_to_listener = to_listener;
        pipe_to_connector = to_connector;
      } in
      if contains_key s.bound_paths target_addr
      then (push_pending s2 target_addr conn, pos 0)
      else (s, neg 111)

  -- The oldest connection that waits at an address, taken off the queue.
  abbrev pub pop_queue :
      SocketRegistry → Text → List PendingConnection → Option (PendingConnection × SocketRegistry)
  pop_queue s addr [] = none
  pop_queue s addr (conn ∷ queue) =
      some (conn, record s { pending_connections = insert s.pending_connections addr queue })

  abbrev pub domain_of : Option SocketInfo → ℕ
  domain_of none = 1
  domain_of (some sock) = sock.domain

  abbrev pub socktype_of : Option SocketInfo → ℕ
  socktype_of none = 1
  socktype_of (some sock) = sock.socktype

  -- The socket of an accepted connection: it reads what the connector writes.
  unfoldable pub accept_pending :
      ℕ → Option (PendingConnection × SocketRegistry) → Option (ℕ × SocketRegistry)
  unfolding create_socket with_socket
  accept_pending socket_id none = none
  accept_pending socket_id (some (conn, s)) =
      let listener = get s.sockets socket_id in
      let (new_id, s1) = create_socket s (domain_of listener) (socktype_of listener) 0 in
      some (
        new_id,
        with_socket s1 new_id (λ sock.
            record (wire conn.pipe_to_connector conn.pipe_to_listener sock) {
              remote_addr = some conn.remote_addr;
            }),
      )

  -- A round of the loop of `accept_handler`, up to the new socket.
  unfoldable pub accept : SocketRegistry → ℕ → Text → Option (ℕ × SocketRegistry)
  unfolding accept_pending queue_of
  accept s socket_id listen_addr =
      accept_pending socket_id (pop_queue s listen_addr (queue_of s listen_addr))
