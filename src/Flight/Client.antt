-- ===== src/Flight/Client.antt =====
-- flight.rs: the NIFs of a Flight client.
-- The client of the `arrow_flight` crate with its transport is a parameter: a call on a connection has
-- an answer, the milliseconds that it takes, and the connection after it. So is the IPC stream writer
-- and reader.
pub mod Fetched
pub mod Link
pub mod Echoed
use text.Mathlib.Text.{◌==◌ as str_eq}
use ex_arrow.Prelude.{
  try_collect, ℕ, Bool, true, false, String, Option, none, some, List, [], ◌∷◌, map, ltb,
  if◌then◌else◌, Result, ok, err, ◌>>=◌, ok_or, map_err, when_some,
}
use ex_arrow.Beam.{Text, Term, Terms, Rustler, binary, tuple, list, nil, cons}
use ex_arrow.Flight.{FlightDescriptor, FlightInfo}
use ex_arrow.Flight.Tls.{TlsError, TlsMode, plaintext, system_certs, custom_ca, parse_tls_mode}
use ex_arrow.Flight.Descriptor.{
  DescriptorError, decode_descriptor, try_encode_binary, encode_flight_info,
}
use ex_arrow.Flight.Server.{FlightLib, Messages}

-- The answer to a call, and how long it takes.
pub record Answer (A : Type 0) : Type 0 where
  pub result : Result Text A
  pub millis : ℕ

pub data Failure : Type 0 where
  client_lock client_lock_poisoned empty_stream allocation : Failure
  timed_out : String → Failure
  bad_descriptor : DescriptorError → Failure
  bad_tls : TlsError → Failure
  message : Text → Failure

-- `arrow_flight::client::FlightClient`
pub record FlightClient (fl : FlightLib) : Type 1 where
  pub Conn : Type 0
  pub do_put : Conn → Messages fl → Result Text (List (Result Text (Unit {0}))) × Conn
  pub do_get : Conn → Text → Result Text (List (Result Text fl.Batch)) × Conn
  pub list_flights : Conn → Text → Answer (List (Result Text FlightInfo)) × Conn
  pub get_flight_info : Conn → FlightDescriptor → Answer FlightInfo × Conn
  pub get_schema : Conn → FlightDescriptor → Answer fl.Schema × Conn
  pub list_actions : Conn → Answer (List (Result Text (Text × Text))) × Conn
  pub do_action : Conn → Text × Text → Answer (List (Result Text Text)) × Conn

-- `arrow_ipc`'s `StreamWriter` on a buffer and `StreamReader` on its bytes.
pub record IpcLib (fl : FlightLib) : Type 1 where
  pub Writer : Type 0
  pub new_writer : fl.Schema → Result Text Writer
  pub write : Writer → fl.Batch → Result Text Writer
  pub finish : Writer → Result Text Text
  pub new_reader : Text → Result Text (List (Result Text fl.Batch))

-- With a timeout, an answer that does not come before it is an error; 0 is no timeout.
unfoldable pub await : {A : Type 0} → ℕ → String → Answer A → Result Failure A
await timeout_ms what answer =
    if ltb 0 timeout_ms
    then (if ltb answer.millis timeout_ms
        then map_err message answer.result
        else err (timed_out what))
    else map_err message answer.result

-- The same for a stream that is collected.
unfoldable pub await_all :
    {A : Type 0} → ℕ → String → Answer (List (Result Text A)) → Result Failure (List A)
unfolding await
await_all timeout_ms what answer =
    await timeout_ms what
      (record { result = (do items ← answer.result; try_collect items); millis = answer.millis })

-- The URI scheme, and whether TLS is configured, with the certificate that it trusts.
unfoldable pub client_tls : TlsMode → String × Option (Option Text)
client_tls TlsMode.plaintext = ("http", none)
client_tls system_certs = ("https", some none)
client_tls (custom_ca pem) = ("https", some (some pem))

-- What `tonic` does to make a channel: the URI, the timeout, the configuration of TLS, the connection.
pub record Tonic : Type 1 where
  pub Endpoint : Type 0
  pub Channel : Type 0
  pub from_shared : String × Text × ℕ → Result Text Endpoint
  pub connect_timeout : Endpoint → ℕ → Endpoint
  pub tls_config : Endpoint → Option Text → Result Text Endpoint
  pub connect : Endpoint → Result Text Channel

module _ (tonic : Tonic) where
  open tonic use {Endpoint, Channel, from_shared, connect_timeout, tls_config, connect}

  -- `match tls_cfg { Some(cfg) => .., None => endpoint }`
  secured : Endpoint → Option (Option Text) → Result Text Endpoint
  secured endpoint none = ok endpoint
  secured endpoint (some trust) = tls_config endpoint trust

  unfoldable pub flight_client_connect :
      {F : Type 0} → Rustler F → Text → ℕ → ℕ → Term F → Result Failure Channel
  unfolding client_tls secured
  flight_client_connect r host port connect_timeout_ms tls_mode = do
    mode ← map_err bad_tls (parse_tls_mode r tls_mode)
    endpoint ← map_err message (from_shared ((client_tls mode).0, host, port))
    let timed =
        if ltb 0 connect_timeout_ms then connect_timeout endpoint connect_timeout_ms else endpoint
    ready ← map_err message (secured timed (client_tls mode).1)
    map_err message (connect ready)

module _ {fl : FlightLib} (cl : FlightClient fl) where
  open cl use {Conn}

  -- `FlightClientHandle`; a panic while the lock is held poisons it.
  pub record FlightClientHandle : Type 0 where
    pub client : Conn
    pub poisoned : Bool

  -- A call under the lock: what the handle answers, and the handle after it.
  abbrev pub locked :
      {A B : Type 0}
      → Failure
      → FlightClientHandle
      → (Conn → A × Conn)
      → (A → Result Failure B)
      → Result Failure B × FlightClientHandle
  locked refusal handle call read =
      if handle.poisoned
      then (err refusal, handle)
      else (read (call handle.client).0, record handle { client = (call handle.client).1 })

  module _ {F : Type 0} (r : Rustler F) where
    -- `:none`, or a descriptor.
    unfoldable pub put_descriptor : Term F → Result DescriptorError (Option FlightDescriptor)
    put_descriptor t =
        let described = (do d ← decode_descriptor r t; ok (some d)) in
        when_some (r.atom_of t) (λ a. if str_eq a "none" then ok none else described) described

    -- The results that the server answers with are waited for, and not looked at.
    abbrev drained : Result Text (List (Result Text (Unit {0}))) → Result Failure (Unit {0})
    drained (err e) = err (message e)
    drained (ok results) = ok tt

    put_batches :
        FlightClientHandle
        → fl.Schema
        → List fl.Batch
        → Result DescriptorError (Option FlightDescriptor)
        → Result Failure (Unit {0}) × FlightClientHandle
    put_batches handle schema batches (err e) = (err (bad_descriptor e), handle)
    put_batches handle schema batches (ok d) =
        locked client_lock handle (λ c. cl.do_put c (fl.encode d schema batches)) drained

    unfoldable pub flight_client_do_put :
        FlightClientHandle
        → fl.Schema
        → List fl.Batch
        → Term F
        → Result Failure (Unit {0}) × FlightClientHandle
    unfolding put_descriptor put_batches
    flight_client_do_put handle schema batches descriptor =
        put_batches handle schema batches (put_descriptor descriptor)

  module _ (ipc : IpcLib fl) where
    open ipc use {Writer, new_writer, write, finish, new_reader}

    -- `ExArrowIpcStream`, with what its reader has still to give.
    pub record IpcStream : Type 0 where
      pub reader : List (Result Text fl.Batch)

    -- The loop: batches are written as they come.
    write_rest : Writer → List (Result Text fl.Batch) → Result Text Writer
    write_rest writer [] = ok writer
    write_rest writer (err e ∷ rest) = err e
    write_rest writer (ok batch ∷ rest) = do next ← write writer batch; write_rest next rest

    -- The lines from the first batch on.
    rewrite : fl.Batch → List (Result Text fl.Batch) → Result Text IpcStream
    unfolding write_rest
    rewrite batch rest = do
      writer ← new_writer (fl.batch_schema batch)
      started ← write writer batch
      filled ← write_rest started rest
      buf ← finish filled
      reader ← new_reader buf
      ok (record { reader = reader })

    collected : List (Result Text fl.Batch) → Result Failure IpcStream
    unfolding rewrite
    collected [] = err empty_stream
    collected (err e ∷ rest) = err (message e)
    collected (ok batch ∷ rest) = map_err message (rewrite batch rest)

    got : Result Text (List (Result Text fl.Batch)) → Result Failure IpcStream
    unfolding collected
    got (err e) = err (message e)
    got (ok flight_stream) = collected flight_stream

    unfoldable pub flight_client_do_get :
        FlightClientHandle → Text → Result Failure IpcStream × FlightClientHandle
    unfolding got
    flight_client_do_get handle ticket = locked client_lock handle (λ c. cl.do_get c ticket) got

  module _ {F : Type 0} (r : Rustler F) (grants : ℕ → Bool) where
    encode_all : List FlightInfo → Option (Terms F)
    encode_all [] = some nil
    encode_all (info ∷ infos) =
        when_some (encode_flight_info grants info)
          (λ t. when_some (encode_all infos) (λ ts. some (cons t ts)) none) none

    encode_bodies : List Text → Option (Terms F)
    encode_bodies [] = some nil
    encode_bodies (body ∷ bodies) =
        when_some (try_encode_binary grants body)
          (λ t. when_some (encode_bodies bodies) (λ ts. some (cons t ts)) none) none

    -- Strings are encoded without a check of the allocation.
    encode_actions : List (Text × Text) → Terms F
    encode_actions [] = nil
    encode_actions ((kind, description) ∷ rest) =
        cons (tuple (cons (binary kind) (cons (binary description) nil))) (encode_actions rest)

    unfoldable pub flight_client_list_flights :
        FlightClientHandle → Text → ℕ → Result Failure (Term F) × FlightClientHandle
    unfolding await_all encode_all
    flight_client_list_flights handle criteria timeout_ms =
        locked client_lock_poisoned handle (λ c. cl.list_flights c criteria)
          λ answer. do
            flights ← await_all timeout_ms "list_flights" answer
            terms ← ok_or (encode_all flights) allocation
            ok (list terms)

    -- A descriptor is read before the lock is taken.
    described :
        {A B : Type 0}
        → FlightClientHandle
        → Result DescriptorError FlightDescriptor
        → (Conn → FlightDescriptor → A × Conn)
        → (A → Result Failure B)
        → Result Failure B × FlightClientHandle
    described handle (err e) call read = (err (bad_descriptor e), handle)
    described handle (ok d) call read = locked client_lock_poisoned handle (λ c. call c d) read

    unfoldable pub flight_client_get_flight_info :
        FlightClientHandle → Term F → ℕ → Result Failure (Term F) × FlightClientHandle
    unfolding await described
    flight_client_get_flight_info handle descriptor timeout_ms =
        described handle (decode_descriptor r descriptor) cl.get_flight_info λ answer. do
          info ← await timeout_ms "get_flight_info" answer
          ok_or (encode_flight_info grants info) allocation

    unfoldable pub flight_client_get_schema :
        FlightClientHandle → Term F → ℕ → Result Failure fl.Schema × FlightClientHandle
    unfolding await described
    flight_client_get_schema handle descriptor timeout_ms =
        described handle (decode_descriptor r descriptor) cl.get_schema
          (await timeout_ms "get_schema")

    unfoldable pub flight_client_list_actions :
        FlightClientHandle → ℕ → Result Failure (Term F) × FlightClientHandle
    unfolding await_all encode_actions
    flight_client_list_actions handle timeout_ms =
        locked client_lock_poisoned handle cl.list_actions λ answer. do
          actions ← await_all timeout_ms "list_actions" answer
          ok (list (encode_actions actions))

    unfoldable pub flight_client_do_action :
        FlightClientHandle → Text → Text → ℕ → Result Failure (Term F) × FlightClientHandle
    unfolding await_all encode_bodies
    flight_client_do_action handle kind body timeout_ms =
        locked client_lock_poisoned handle (λ c. cl.do_action c (kind, body))
          λ answer. do
            bodies ← await_all timeout_ms "do_action" answer
            terms ← ok_or (encode_bodies bodies) allocation
            ok (list terms)
