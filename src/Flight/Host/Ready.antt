-- ===== src/Flight/Host/Ready.antt =====
-- A server is handed to Elixir only once it has been reached.
use ex_arrow.Prelude.{
  Option, some, none, ◌⊎◌, sym, ◌∙◌, false, ℕ, zero, suc, ◌+◌, ◌<◌, ◌≤◌, ◌≡◌, ◌≢◌, refl, ap, ◌↔◌,
  inl, inr, Bool, true, Bool-cases, ok, map_err, map_err-eq-ok, >>=-eq-ok, arith,
}
use ex_arrow.Beam.{text_eq, text_eq→≡, codes, Text, Term, Rustler}
use ex_arrow.Flight.Tls.{ServerTlsMode, parse_server_tls}
use ex_arrow.Flight.Host.{
  any_v4, any_v6, Machine, FlightServerHandle, probe_ip, probe, attempts, configured, handle_of,
  probed, flight_server_start, bound_addr, bad_tls, message,
}

-- The loop succeeds at the first attempt that does, of those that are left.
probe-reached :
    (attempt : ℕ → Bool) (left made : ℕ)
    → probe attempt left made ≡ true
    → (i : ℕ) × (i < made + left) × (attempt i ≡ true)
unfolding probe
probe-reached attempt zero made h = cc
probe-reached attempt (suc left) made h = elim (Bool-cases (attempt made)) [
  | inl up ↦ (made, omega arith, up)
  | inr down ↦
      let (i, below, up) = probe-reached attempt left (suc made) (rw down at h) in
      (i, omega arith, up)
]

probe-reaches :
    (attempt : ℕ → Bool) (left made i : ℕ)
    → made ≤ i
    → i < made + left
    → attempt i ≡ true
    → probe attempt left made ≡ true
unfolding probe
probe-reaches attempt zero made i from below up = absurd (omega arith)
probe-reaches attempt (suc left) made i from below up = elim (Bool-cases (attempt made)) [
  | inl now ↦ rw now refl
  | inr down ↦
      let apart : made ≢ i = λ e. cc (ap attempt e, up, down) in
      rw down (probe-reaches attempt left (suc made) i (omega arith) (omega arith) up)
]

-- Where a server that listens at an address is dialled: one that listens at every address, at this machine.
pub data Dials : Text → Text → Type 0 where
  every_v4 : Dials (codes "0.0.0.0") (codes "127.0.0.1")
  every_v6 : Dials (codes "::") (codes "127.0.0.1")
  itself : (ip : Text) → ip ≢ codes "0.0.0.0" → ip ≢ codes "::" → Dials ip ip

-- A server that every step succeeded for, up to an attempt to reach it.
pub record Reached {F : Type 0} (m : Machine) (r : Rustler F) (host : Text) (port : ℕ)
    (server_tls : Term F) (handle : FlightServerHandle) : Type 0 where
  pub mode : ServerTlsMode
  pub parsed : parse_server_tls r server_tls ≡ ok mode
  pub runs : m.runtime ≡ ok tt
  pub addr : m.Addr
  pub addressed : m.parse_addr host port ≡ ok addr
  pub listener : m.Listener
  pub bound : m.bind addr ≡ ok listener
  pub secured : (mode ≡ ServerTlsMode.plaintext) ⊎ (m.tls_config mode ≡ ok tt)
  -- The address that the listener says it has, or else the one that was asked for.
  pub local : m.Addr
  pub known :
      (m.local_addr listener ≡ some local) ⊎ ((m.local_addr listener ≡ none) × (local ≡ addr))
  pub ip : Text
  pub dialled : Dials (m.ip_of local) ip
  pub attempt : ℕ
  pub soon : attempt < 80
  pub reached : m.connects ip (m.port_of local) attempt ≡ true
  pub handed : handle ≡ record {
    join = some tt;
    join_poisoned = false;
    host = m.ip_of local;
    port = m.port_of local;
    shutdown = some tt;
    shutdown_poisoned = false;
  }

probe_ip-Dials : (host : Text) → Dials host (probe_ip host)
unfolding probe_ip
probe_ip-Dials host = elim (Bool-cases (text_eq host any_v4)) [
  | inl four ↦ rw (text_eq→≡ host any_v4 four) every_v4
  | inr no_four ↦ elim (Bool-cases (text_eq host any_v6)) [
    | inl six ↦ rw (text_eq→≡ host any_v6 six) every_v6
    | inr no_six ↦
        rw (no_four, no_six)
          (itself host (λ e. cc (ap (λ t. text_eq t any_v4) e, no_four))
            (λ e. cc (ap (λ t. text_eq t any_v6) e, no_six)))
  ]
]

Dials-probe_ip : (host ip : Text) → Dials host ip → probe_ip host ≡ ip
unfolding probe_ip
Dials-probe_ip _ _ every_v4 = refl
Dials-probe_ip _ _ every_v6 = refl
Dials-probe_ip _ _ (itself ip no_four no_six) = elim (Bool-cases (text_eq ip any_v4)) [
  | inl four ↦ absurd (no_four (text_eq→≡ ip any_v4 four))
  | inr four ↦ elim (Bool-cases (text_eq ip any_v6)) [
    | inl six ↦ absurd (no_six (text_eq→≡ ip any_v6 six))
    | inr six ↦ rw (four, six) refl
  ]
]

module _ (m : Machine) where
  configured-secured :
      (mode : ServerTlsMode)
      → configured m mode ≡ ok tt
      → (mode ≡ ServerTlsMode.plaintext) ⊎ (m.tls_config mode ≡ ok tt)
  unfolding configured
  configured-secured ServerTlsMode.plaintext h = inl refl
  configured-secured (ServerTlsMode.tls cert key) h = inr h
  configured-secured (ServerTlsMode.mtls cert key ca) h = inr h

  secured-configured :
      (mode : ServerTlsMode)
      → (mode ≡ ServerTlsMode.plaintext) ⊎ (m.tls_config mode ≡ ok tt)
      → configured m mode ≡ ok tt
  unfolding configured
  secured-configured mode (inl plain) = rw plain refl
  secured-configured ServerTlsMode.plaintext (inr h) = refl
  secured-configured (ServerTlsMode.tls cert key) (inr h) = h
  secured-configured (ServerTlsMode.mtls cert key ca) (inr h) = h

  bound_addr-known :
      (said : Option m.Addr) (addr : m.Addr)
      → (said ≡ some (bound_addr m said addr)) ⊎ ((said ≡ none) × (bound_addr m said addr ≡ addr))
  bound_addr-known none addr = inr (refl, refl)
  bound_addr-known (some a) addr = inl refl

  known-bound_addr :
      (said : Option m.Addr) (addr local : m.Addr)
      → (said ≡ some local) ⊎ ((said ≡ none) × (local ≡ addr))
      → bound_addr m said addr ≡ local
  known-bound_addr said addr local (inl e) = ap (λ o. bound_addr m o addr) e
  known-bound_addr said addr local (inr (e, same)) = ap (λ o. bound_addr m o addr) e ∙ sym same

  abbrev tries : m.Addr → ℕ → Bool
  tries local = m.connects (probe_ip (m.ip_of local)) (m.port_of local)

  pub handle_of-is :
      (local : m.Addr)
      → handle_of m local ≡ record {
        join = some tt;
        join_poisoned = false;
        host = m.ip_of local;
        port = m.port_of local;
        shutdown = some tt;
        shutdown_poisoned = false;
      }
  unfolding handle_of
  handle_of-is local = refl

  probed-eq-ok :
      (local : m.Addr) (h : FlightServerHandle)
      → probed m local ≡ ok h
      → (probe (tries local) attempts 0 ≡ true) × (h ≡ handle_of m local)
  unfolding probed
  probed-eq-ok local h e = elim (Bool-cases (probe (tries local) attempts 0)) [
    | inl up ↦ (up, cc (rw up at e))
    | inr down ↦ cc (rw down at e)
  ]

  module _ {F : Type 0} (r : Rustler F) (host : Text) (port : ℕ) (server_tls : Term F)
      (h : FlightServerHandle) where
    start-Reached :
        flight_server_start m r host port server_tls ≡ ok h → Reached m r host port server_tls h
    unfolding flight_server_start
    start-Reached e =
        let (mode, parsed, e₁) = >>=-eq-ok (map_err bad_tls (parse_server_tls r server_tls)) _ e in
        let (u, runs, e₂) = >>=-eq-ok (map_err message m.runtime) _ e₁ in
        let (addr, addressed, e₃) = >>=-eq-ok (map_err message (m.parse_addr host port)) _ e₂ in
        let (listener, bound, e₄) = >>=-eq-ok (map_err message (m.bind addr)) _ e₃ in
        let (v, secured, e₅) = >>=-eq-ok (map_err message (configured m mode)) _ e₄ in
        let local = bound_addr m (m.local_addr listener) addr in
        let (up, handed) = probed-eq-ok local h e₅ in
        let (i, soon, reached) = probe-reached (tries local) attempts 0 up in
        record {
          mode = mode;
          parsed = map_err-eq-ok bad_tls (parse_server_tls r server_tls) mode parsed;
          runs = map_err-eq-ok message m.runtime tt runs;
          addr = addr;
          addressed = map_err-eq-ok message (m.parse_addr host port) addr addressed;
          listener = listener;
          bound = map_err-eq-ok message (m.bind addr) listener bound;
          secured = configured-secured mode (map_err-eq-ok message (configured m mode) tt secured);
          local = local;
          known = bound_addr-known (m.local_addr listener) addr;
          ip = probe_ip (m.ip_of local);
          dialled = probe_ip-Dials (m.ip_of local);
          attempt = i;
          soon = omega arith;
          reached = reached;
          handed = handed ∙ handle_of-is local;
        }

    Reached-start :
        Reached m r host port server_tls h → flight_server_start m r host port server_tls ≡ ok h
    unfolding flight_server_start probed handle_of
    Reached-start w =
        let same = known-bound_addr (m.local_addr w.listener) w.addr w.local w.known in
        let dialled = Dials-probe_ip (m.ip_of w.local) w.ip w.dialled in
        let up =
          probe-reaches (tries w.local) attempts 0 w.attempt (omega arith) (omega (arith, w.soon))
            (ap (λ ip. m.connects ip (m.port_of w.local) w.attempt) dialled ∙ w.reached) in
        let secured = secured-configured w.mode w.secured in
        rw (w.parsed, w.runs, w.addressed, w.bound, secured)
          (ap (probed m) same
            ∙ (let reaches : probed m w.local ≡ ok h = rw (up, w.handed) in reaches))

-- A start hands out a server exactly if its TLS mode, the runtime, the address, the listener and, unless the
-- mode is plaintext, the certificates are all good and one of 80 attempts to connect to it succeeds: at the
-- IP address and the port that the listener says it has, or was asked for if it says none, and at 127.0.0.1
-- for 0.0.0.0 and ::. The handle then has that address and port, and a thread and a signal that are still
-- to be taken.
pub flight_server_start-eq-ok :
    {F : Type 0} (m : Machine) (r : Rustler F) (host : Text) (port : ℕ) (server_tls : Term F)
    (handle : FlightServerHandle)
    → (flight_server_start m r host port server_tls ≡ ok handle)
      ↔ Reached m r host port server_tls handle
flight_server_start-eq-ok m r host port server_tls handle =
    (start-Reached m r host port server_tls handle, Reached-start m r host port server_tls handle)
