-- ===== src/Ipc/Connection.antt =====
-- Connected sockets of rust-grates/ipc-grate: each reads the pipe that the other writes.
use lind_wasm_example_grates.Base.{
  ℕ, ◌+◌, true, Option, none, some, List, [], ◌∷◌, ◌++◌, length, if◌then◌else◌, ◌==◌, nat_key,
  text_key, ◌≡◌, ◌≢◌, refl, sym, ap, ◌∙◌, subst, arith,
}
use lind_wasm_example_grates.Base.Dict.{get, insert, contains_key, get-insert}
use lind_wasm_example_grates.Path.Text.{Text}
use lind_wasm_example_grates.Ipc.Ring.{RingCrate}
use lind_wasm_example_grates.Ipc.Sockets.{
  SocketInfo, ConnState, PendingConnection, SocketRegistry, new_socket, create_socket, with_socket,
  wire, two_pipes, create_socketpair, connect, accept, accept_pending, queue_of, push_pending,
  change, local_addr_of, domain_of, socktype_of,
}

abbrev pub IsWired : Option SocketInfo → ℕ → ℕ → Type 0
IsWired none send recv = ⊥
IsWired (some sock) send recv =
    sock.sendpipe ≡ some send × sock.recvpipe ≡ some recv × sock.state ≡ ConnState.connected

module _ (R : RingCrate) where
  -- Two sockets that are joined by two different pipes, in opposite directions.
  abbrev pub Crossed : SocketRegistry R → ℕ → ℕ → Type 0
  Crossed s a b =
      (p : ℕ) × (q : ℕ) × (p ≢ q) × IsWired (get s.sockets a) p q × IsWired (get s.sockets b) q p

  abbrev changed : (SocketInfo → SocketInfo) → Option SocketInfo → Option SocketInfo
  changed f none = none
  changed f (some sock) = some (f sock)

  get-change :
      (s : SocketRegistry R) (j k : ℕ) (f : SocketInfo → SocketInfo) (o : Option SocketInfo)
      → get s.sockets j ≡ o
      → get (change R s j f o).sockets k ≡ (if j == k then changed f o else get s.sockets k)
  get-change s j k f none e = ground (arith, nat_key.same_iff j k)
  get-change s j k f (some sock) e = get-insert s.sockets j (f sock) k

  get-with_socket :
      (s : SocketRegistry R) (j k : ℕ) (f : SocketInfo → SocketInfo)
      → get (with_socket R s j f).sockets k
        ≡ (if j == k then changed f (get s.sockets j) else get s.sockets k)
  unfolding with_socket
  get-with_socket s j k f = get-change s j k f (get s.sockets j) refl

  -- create_socketpair makes two sockets with different ids, joined by two different pipes in
  -- opposite directions.
  pub create_socketpair-Crossed :
      (s : SocketRegistry R) (domain socktype flags : ℕ)
      → let (a, b, s') = create_socketpair R s domain socktype flags in (a ≢ b) × Crossed s' a b
  unfolding create_socketpair two_pipes create_socket
  create_socketpair-Crossed s domain socktype flags =
      let id : ℕ = s.next_socket_id in
      let n : ℕ = length s.pipes in
      let s1 : SocketRegistry R = (two_pipes R s).2 in
      let new : SocketInfo = new_socket domain socktype flags in
      let s3 : SocketRegistry R =
        (create_socket R (create_socket R s1 domain socktype flags).1 domain socktype flags).1 in
      let s4 : SocketRegistry R = with_socket R s3 id (wire R n (n + 1)) in
      let in_s3 = λ (k : ℕ). get-insert (insert s.sockets id new) (id + 1) new k in
      let in_s2 = λ (k : ℕ). get-insert s.sockets id new k in
      let one : get (with_socket R s4 (id + 1) (wire R (n + 1) n)).sockets id
          ≡ some (wire R n (n + 1) new) =
        ground (
          arith,
          get-with_socket s4 (id + 1) id (wire R (n + 1) n),
          get-with_socket s3 id id (wire R n (n + 1)),
          in_s3 id,
          in_s2 id,
        ) in
      let two : get (with_socket R s4 (id + 1) (wire R (n + 1) n)).sockets (id + 1)
          ≡ some (wire R (n + 1) n new) =
        ground (
          arith,
          get-with_socket s4 (id + 1) (id + 1) (wire R (n + 1) n),
          get-with_socket s3 id (id + 1) (wire R n (n + 1)),
          in_s3 (id + 1),
        ) in
      (
        (λ e. omega arith),
        (n, n + 1, (λ e. omega arith), rw one (refl, refl, refl), rw two (refl, refl, refl)),
      )

  queue_of-push_pending :
      (s : SocketRegistry R) (addr : Text) (conn : PendingConnection)
      → queue_of R (push_pending R s addr conn) addr ≡ queue_of R s addr ++ conn ∷ []
  unfolding queue_of push_pending
  queue_of-push_pending s addr conn = ground (
    arith,
    get-insert s.pending_connections addr (queue_of R s addr ++ conn ∷ []) addr,
    text_key.same_iff addr addr,
  )

  -- The registry of a socket that has connected.
  wired : SocketRegistry R → ℕ → Text → SocketInfo → SocketRegistry R
  wired s cid addr sock = record s {
    pipes = (two_pipes R s).2.pipes;
    sockets =
        insert s.sockets cid
          (record (wire R (length s.pipes) (length s.pipes + 1) sock) { remote_addr = some addr });
  }

  connect_bound :
      (s : SocketRegistry R) (cid : ℕ) (addr : Text) (sock : SocketInfo)
      → get s.sockets cid ≡ some sock
      → contains_key s.bound_paths addr ≡ true
      → (connect R s cid addr).0
        ≡ push_pending R (wired s cid addr sock) addr (record {
          remote_addr = local_addr_of R (get (wired s cid addr sock).sockets cid);
          pipe_to_listener = length s.pipes;
          pipe_to_connector = length s.pipes + 1;
        })
  unfolding connect two_pipes with_socket wired
  connect_bound s cid addr sock at bound = rw (bound, at) refl

  abbrev pub IsAccepted : ℕ → Option (ℕ × SocketRegistry R) → Type 0
  IsAccepted cid none = ⊥
  IsAccepted cid (some (id, s)) = Crossed s cid id

  accept_front :
      (s : SocketRegistry R) (sid : ℕ) (addr : Text) (conn : PendingConnection)
      (queue : List PendingConnection) (cid : ℕ)
      → queue_of R s addr ≡ conn ∷ queue
      → cid ≢ s.next_socket_id
      → conn.pipe_to_listener ≢ conn.pipe_to_connector
      → IsWired (get s.sockets cid) conn.pipe_to_listener conn.pipe_to_connector
      → IsAccepted cid (accept R s sid addr)
  unfolding accept accept_pending create_socket
  accept_front s sid addr conn queue cid front apart differ is_wired = rw front (
      let new : ℕ = s.next_socket_id in
      let base : SocketRegistry R = record s {
        pending_connections = insert s.pending_connections addr queue;
      } in
      let listener = get s.sockets sid in
      let sock : SocketInfo = new_socket (domain_of R listener) (socktype_of R listener) 0 in
      let s1 : SocketRegistry R = record base {
        sockets = insert s.sockets new sock;
        next_socket_id = new + 1;
      } in
      let f : SocketInfo → SocketInfo = λ k.
        record (wire R conn.pipe_to_connector conn.pipe_to_listener k) {
          remote_addr = some conn.remote_addr;
        } in
      let in_s1 = λ (k : ℕ). get-insert s.sockets new sock k in
      let old : get (with_socket R s1 new f).sockets cid ≡ get s.sockets cid =
        ground (arith, get-with_socket s1 new cid f, in_s1 cid) in
      let made : get (with_socket R s1 new f).sockets new ≡ some (f sock) =
        ground (arith, get-with_socket s1 new new f, in_s1 new) in
      (
        conn.pipe_to_listener,
        conn.pipe_to_connector,
        differ,
        rw old is_wired,
        rw made (refl, refl, refl),
      ))

  same_key : (k : ℕ) → (k == k) ≡ true
  same_key k = ground (arith, nat_key.same_iff k k)

  -- A socket that connects to a bound address with no other connection waiting there, and the
  -- socket that the next accept of the listener makes, are joined by two different pipes in
  -- opposite directions.
  pub accept-connect :
      (s : SocketRegistry R) (cid sid : ℕ) (addr : Text) (sock : SocketInfo)
      → get s.sockets cid ≡ some sock
      → contains_key s.bound_paths addr ≡ true
      → queue_of R s addr ≡ []
      → cid ≢ s.next_socket_id
      → IsAccepted cid (accept R (connect R s cid addr).0 sid addr)
  accept-connect s cid sid addr sock at bound empty apart =
      let n : ℕ = length s.pipes in
      let s2 : SocketRegistry R = wired s cid addr sock in
      let conn : PendingConnection = record {
        remote_addr = local_addr_of R (get s2.sockets cid);
        pipe_to_listener = n;
        pipe_to_connector = n + 1;
      } in
      let none_yet : queue_of R s2 addr ≡ [] = unfold queue_of wired in empty in
      let kept : (push_pending R s2 addr conn).next_socket_id ≡ s.next_socket_id =
        unfold push_pending wired in refl in
      let front : queue_of R (push_pending R s2 addr conn) addr ≡ conn ∷ [] =
        queue_of-push_pending s2 addr conn ∙ ap (λ q. q ++ conn ∷ []) none_yet in
      let joined : IsWired (get (push_pending R s2 addr conn).sockets cid) n (n + 1) =
        unfold push_pending wired in
        rw
          (
            get-insert s.sockets cid (record (wire R n (n + 1) sock) { remote_addr = some addr })
                cid,
            same_key cid,
          )
          (refl, refl, refl) in
      subst (λ t. IsAccepted cid (accept R t sid addr))
        (sym (connect_bound s cid addr sock at bound))
        (accept_front (push_pending R s2 addr conn) sid addr conn [] cid front
          (λ e. apart (e ∙ kept)) (λ e. omega arith) joined)
