-- ===== src/Ipc/Ports.antt =====
-- The search for a free port of rust-grates/ipc-grate/src/socket.rs.
use lind_wasm_example_grates.Base.{
  ℕ, zero, suc, ◌+◌, ◌-◌, ◌≤◌, true, false, eqb, ltb, if◌then◌else◌, nat_key, Bool-cases, ◌≡◌, ◌≢◌,
  refl, subst, inl, inr, arith,
}
use lind_wasm_example_grates.Base.Dict.{Dict, contains_key}
use lind_wasm_example_grates.Ipc.Ring.{RingCrate}
use lind_wasm_example_grates.Ipc.Sockets.{
  PortSearch, found, exhausted, running, search_port, next_port, first_port, last_port,
  SocketRegistry, alloc_ephemeral_port, take_port, port_rounds,
}

abbrev pub IsEphemeral : ℕ → Type 0
IsEphemeral port = first_port ≤ port × port ≤ last_port

-- The number of rounds from a port until the search is back at its start.
abbrev dist : ℕ → ℕ → ℕ
dist start port =
    if ltb start port then port - start else (port - first_port) + 1 + (last_port - start)

dist_step :
    (start port : ℕ)
    → IsEphemeral start
    → IsEphemeral port
    → next_port port ≢ start
    → suc (dist start (next_port port)) ≡ dist start port
dist_step start port s p back = ground arith

dist_back :
    (start port : ℕ)
    → IsEphemeral start
    → IsEphemeral port
    → next_port port ≡ start
    → dist start port ≡ 1
dist_back start port s p back = ground arith

dist_inj :
    (start p q : ℕ)
    → IsEphemeral start
    → IsEphemeral p
    → IsEphemeral q
    → dist start p ≡ dist start q
    → p ≡ q
dist_inj start p q s ip iq eq = ground arith

-- Where one round is left there is only one port.
only_port :
    (start p q : ℕ)
    → IsEphemeral start
    → IsEphemeral p
    → IsEphemeral q
    → next_port p ≡ start
    → dist start q ≤ dist start p
    → p ≡ q
only_port start p q s ip iq back near = ground arith

next_port-IsEphemeral : (port : ℕ) → IsEphemeral port → IsEphemeral (next_port port)
next_port-IsEphemeral port p = (ground arith, ground arith)

-- What the search has found from a port on.
Searched : Dict ℕ ℕ → ℕ → ℕ → PortSearch → Type 0
Searched bound start port (found q) = contains_key bound q ≡ false × IsEphemeral q
Searched bound start port exhausted =
    (q : ℕ) → IsEphemeral q → dist start q ≤ dist start port → contains_key bound q ≡ true
Searched bound start port running = ⊥

Searched-from :
    (bound : Dict ℕ ℕ) (start port : ℕ) (r : PortSearch)
    → IsEphemeral start
    → IsEphemeral port
    → next_port port ≢ start
    → contains_key bound port ≡ true
    → Searched bound start (next_port port) r
    → Searched bound start port r
unfolding Searched
Searched-from bound start port (found q) s p back here ok = ok
Searched-from bound start port running s p back here ok = ok
Searched-from bound start port exhausted s p back here ok = λ q iq near.
    elim (Bool-cases (eqb q port)) [
      | inl e ↦
          (let same : port ≡ q = ground arith in subst (λ x. contains_key bound x ≡ true) same here)
      | inr e ↦
          (let apart : dist start q ≢ dist start port =
              λ d. absurd (let same = dist_inj start q port s iq p d in ground arith) in
            let step = dist_step start port s p back in ok q iq (omega arith))
    ]

search_port-Searched :
    (rounds : ℕ) (bound : Dict ℕ ℕ) (start port : ℕ)
    → IsEphemeral start
    → IsEphemeral port
    → dist start port ≤ rounds
    → Searched bound start port (search_port rounds bound start port)
unfolding search_port Searched
search_port-Searched zero bound start port s p enough = absurd (ground arith)
search_port-Searched (suc rounds) bound start port s p enough =
    elim (Bool-cases (contains_key bound port)) [
      | inr free ↦ rw free (free, p)
      | inl taken ↦ elim (Bool-cases (eqb (next_port port) start)) [
        | inl back ↦
            rw (taken, back)
              (λ q iq near.
                subst (λ x. contains_key bound x ≡ true)
                  (only_port start port q s p iq (ground arith) near) taken)
        | inr more ↦
            (let apart : next_port port ≢ start = λ e. absurd (ground arith) in
              let step = dist_step start port s p apart in
              let rest =
                search_port-Searched rounds bound start (next_port port) s
                  (next_port-IsEphemeral port p) (omega arith) in
              rw (taken, more) (Searched-from bound start port _ s p apart taken rest))
      ]
    ]

module _ (R : RingCrate) where
  -- What is promised of a port that is given out, of the next start, and of a search that fails.
  abbrev pub PortIs : SocketRegistry R → SocketRegistry R × PortSearch → Type 0
  PortIs s (s', found port) =
      contains_key s.bound_ports port ≡ false
      × IsEphemeral port
      × IsEphemeral s'.next_ephemeral_port
  PortIs s (s', exhausted) =
      s' ≡ s × ((port : ℕ) → IsEphemeral port → contains_key s.bound_ports port ≡ true)
  PortIs s (s', running) = ⊥

  -- From a start in the range of ephemeral ports alloc_ephemeral_port ends: it gives a port of the
  -- range that is not bound and leaves a start in the range, or every port of the range is bound
  -- and it changes nothing.
  pub alloc_ephemeral_port_lem :
      (s : SocketRegistry R)
      → IsEphemeral s.next_ephemeral_port
      → PortIs s (alloc_ephemeral_port R s)
  unfolding alloc_ephemeral_port Searched
  alloc_ephemeral_port_lem s start =
      go (search_port port_rounds s.bound_ports s.next_ephemeral_port s.next_ephemeral_port) (
        search_port-Searched port_rounds s.bound_ports s.next_ephemeral_port s.next_ephemeral_port
          start start (ground arith))
    where
      go :
          (r : PortSearch)
          → Searched s.bound_ports s.next_ephemeral_port s.next_ephemeral_port r
          → PortIs s (take_port R s r)
      go (found port) (free, p) = (free, p, next_port-IsEphemeral port p)
      go exhausted all = (refl, λ port p. all port p (ground arith))
      go running none = none
