-- ===== src/Flight/Host.antt =====
-- flight.rs: the NIFs that start and stop a server.
-- The machine is a parameter: what each call of the Tokio runtime, of the network and of `tonic` answers.
pub mod Ready
pub mod Stopped
use ex_arrow.Prelude.{
  ℕ, zero, suc, ◌+◌, Bool, true, false, ◌||◌, Option, none, some, List, [], ◌∷◌, ◌++◌,
  if◌then◌else◌, Result, ok, err, ◌>>=◌, ◌>>◌, ensure, map_err,
}
use ex_arrow.Beam.{Text, text_eq, Term, Rustler}
use ex_arrow.Flight.Tls.{TlsError, ServerTlsMode, parse_server_tls}

pub record Machine : Type 1 where
  pub Addr : Type 0
  pub Listener : Type 0
  -- `tokio::runtime::Runtime::new()`
  pub runtime : Result Text (Unit {0})
  -- `format!("{}:{}", host, port).parse()`
  pub parse_addr : Text → ℕ → Result Text Addr
  pub bind : Addr → Result Text Listener
  pub local_addr : Listener → Option Addr
  pub port_of : Addr → ℕ
  pub ip_of : Addr → Text
  -- `builder.tls_config(..)`, from the certificates
  pub tls_config : ServerTlsMode → Result Text (Unit {0})
  -- Whether an attempt to connect, of these in a row, succeeds.
  pub connects : Text → ℕ → ℕ → Bool

pub data StartError : Type 0 where
  bad_tls : TlsError → StartError
  message : Text → StartError
  not_ready : Text → ℕ → StartError

-- `FlightServerHandle`: a taken field is `none`, and a lock may be poisoned.
pub record FlightServerHandle : Type 0 where
  pub join : Option (Unit {0})
  pub join_poisoned : Bool
  pub host : Text
  pub port : ℕ
  pub shutdown : Option (Unit {0})
  pub shutdown_poisoned : Bool

-- `"0.0.0.0"`, `"::"` and `"127.0.0.1"`
abbrev pub any_v4 : Text
any_v4 = b'0' ∷ b'.' ∷ b'0' ∷ b'.' ∷ b'0' ∷ b'.' ∷ b'0' ∷ []

abbrev pub any_v6 : Text
any_v6 = b':' ∷ b':' ∷ []

abbrev pub loopback : Text
loopback = b'1' ∷ b'2' ∷ b'7' ∷ b'.' ∷ b'0' ∷ b'.' ∷ b'0' ∷ b'.' ∷ b'1' ∷ []

-- The address at which the server is tried.
unfoldable pub probe_ip : Text → Text
probe_ip actual_host =
    if text_eq actual_host any_v4 || text_eq actual_host any_v6 then loopback else actual_host

-- `for _ in 0..80`: the rounds that are left, and the attempts that were made.
probe : (ℕ → Bool) → ℕ → ℕ → Bool
probe attempt zero made = false
probe attempt (suc left) made =
    let rest = probe attempt left (suc made) in if attempt made then true else rest

abbrev pub attempts : ℕ
attempts = 80

module _ (m : Machine) where
  open m use {
    Addr, Listener, runtime, parse_addr, bind, local_addr, port_of, ip_of, tls_config, connects,
  }

  -- `listener.local_addr().unwrap_or(addr)`
  abbrev pub bound_addr : Option Addr → Addr → Addr
  bound_addr none addr = addr
  bound_addr (some a) addr = a

  -- TLS is configured only where it is asked for.
  unfoldable pub configured : ServerTlsMode → Result Text (Unit {0})
  configured ServerTlsMode.plaintext = ok tt
  configured (ServerTlsMode.tls cert key) = tls_config (ServerTlsMode.tls cert key)
  configured (ServerTlsMode.mtls cert key ca) = tls_config (ServerTlsMode.mtls cert key ca)

  -- The handle of a server that listens at this address.
  unfoldable pub handle_of : Addr → FlightServerHandle
  handle_of local = record {
    join = some tt;
    join_poisoned = false;
    host = ip_of local;
    port = port_of local;
    shutdown = some tt;
    shutdown_poisoned = false;
  }

  -- From the probing on.
  probed : Addr → Result StartError FlightServerHandle
  unfolding probe probe_ip handle_of
  probed local =
      if probe (connects (probe_ip (ip_of local)) (port_of local)) attempts 0
      then ok (handle_of local)
      else err (not_ready (ip_of local) (port_of local))

  unfoldable pub flight_server_start :
      {F : Type 0} → Rustler F → Text → ℕ → Term F → Result StartError FlightServerHandle
  unfolding configured probed
  flight_server_start r host port server_tls = do
    tls_mode ← map_err bad_tls (parse_server_tls r server_tls)
    rt ← map_err message runtime
    addr ← map_err message (parse_addr host port)
    listener ← map_err message (bind addr)
    let local = bound_addr (local_addr listener) addr
    secured ← map_err message (configured tls_mode)
    probed local

unfoldable pub flight_server_port : FlightServerHandle → ℕ
flight_server_port handle = handle.port

unfoldable pub flight_server_host : FlightServerHandle → Text
flight_server_host handle = handle.host

-- What a stop does to the server.
pub data Effect : Type 0 where
  signalled joined : Effect

-- `if let Ok(mut g) = lock { if let Some(x) = g.take() { .. } }`: what is done, and what is left.
taken : Bool → Option (Unit {0}) → Effect → List Effect × Option (Unit {0})
taken poisoned none effect = ([], none)
taken poisoned (some u) effect = if poisoned then ([], some u) else (effect ∷ [], none)

unfoldable pub flight_server_stop : FlightServerHandle → List Effect × FlightServerHandle
unfolding taken
flight_server_stop handle =
    let (signals, shutdown') = taken handle.shutdown_poisoned handle.shutdown signalled in
    let (joins, join') = taken handle.join_poisoned handle.join joined in
    (signals ++ joins, record handle { shutdown = shutdown'; join = join' })
