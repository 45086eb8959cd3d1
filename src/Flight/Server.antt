-- ===== src/Flight/Server.antt =====
-- flight.rs: `EchoFlightService`, the server that keeps what is uploaded under a ticket.
-- A handler takes the lock at most once and does everything under it that reads or writes the datasets,
-- so that a request is one step of the state, whatever other requests are served at the same time; what
-- `do_put` awaits before it takes the lock is its list of messages.
pub mod Requests
pub mod Keys
pub mod History
pub mod Listed
use text.Mathlib.Text.{◌==◌ as str_eq}
use ex_arrow.Prelude.{
  ℕ, ℤ, ◌+◌, ◌-◌, ◌%◌, ◌^◌, pos, negsuc, Bool, true, false, String, Option, none, some, List, [],
  ◌∷◌, map, ltb, if◌then◌else◌, Result, ok, err, ◌>>=◌, ok_or, map_err, when_some,
}
use ex_arrow.Beam.{Text}
use ex_arrow.HashMap.{get, insert}
use ex_arrow.Flight.{FlightDescriptor, FlightEndpoint, FlightInfo}
use ex_arrow.Flight.Descriptor.{cmd_descriptor, descriptor_to_key}

-- A message of a stream of batches: the descriptor that it may carry, and the rest.
pub record FlightData (Payload : Type 0) : Type 0 where
  pub flight_descriptor : Option FlightDescriptor
  pub payload : Payload

-- What the server takes from the Arrow crates and from the standard library.
pub record FlightLib : Type 1 where
  pub Schema : Type 0
  pub Batch : Type 0
  pub Payload : Type 0
  -- `batch.schema()`, `batch.num_rows()`
  pub batch_schema : Batch → Schema
  pub num_rows : Batch → ℕ
  -- `SchemaAsIpc::new(schema, &IpcWriteOptions::default()).try_into()`
  pub schema_message : Schema → Result Text Text
  -- `String::from_utf8_lossy`, and which bytes are a `String`
  pub lossy : Text → Text
  pub is_utf8 : Text → Bool
  -- `FlightDataEncoderBuilder` with a schema and maybe a descriptor, built of batches
  pub encode :
      Option FlightDescriptor → Schema → List Batch → List (Result Text (FlightData Payload))
  -- `FlightRecordBatchStream::new_from_flight_data`, collected
  pub decode : List (Result Text (FlightData Payload)) → Result Text (List Batch)

pub data Status : Type 0 where
  unimplemented : String → Status
  lock unsupported_descriptor empty_stream no_batches : Status
  internal : Text → Status
  schema_encode : Text → Status
  unknown_ticket : Text → Status
  unknown_action : String → Status

-- `"echo"`
abbrev pub echo_ticket : Text
echo_ticket = b'e' ∷ b'c' ∷ b'h' ∷ b'o' ∷ []

-- An `as i64` of a sum of `usize`s.
abbrev pub wrap_i64 : ℕ → ℤ
wrap_i64 n = let m = n % 2 ^ 64 in if ltb m (2 ^ 63) then pos m else negsuc (2 ^ 64 - 1 - m)

pub record ArrowActionType : Type 0 where
  pub kind : String
  pub description : String

module _ (fl : FlightLib) where
  open fl use {
    Schema, Batch, Payload, batch_schema, num_rows, schema_message, lossy, encode, decode,
  }

  pub record Dataset : Type 0 where
    pub schema : Schema
    pub batches : List Batch

  abbrev pub Datasets : Type 0
  Datasets = List (Text × Dataset)

  -- `Mutex<EchoState>`; a panic while the lock is held poisons it.
  pub record EchoState : Type 0 where
    pub datasets : Datasets
    pub poisoned : Bool

  abbrev pub Messages : Type 0
  Messages = List (Result Text (FlightData Payload))

  abbrev pub count_rows : List Batch → ℕ
  count_rows [] = 0
  count_rows (b ∷ bs) = num_rows b + count_rows bs

  -- `flight_server_start` makes this state.
  unfoldable pub initial : EchoState
  initial = record { datasets = []; poisoned = false }

  -- `self.state.lock().map_err(|_| Status::internal("lock"))?`
  abbrev pub take_lock : EchoState → Result Status Datasets
  take_lock st = if st.poisoned then err lock else ok st.datasets

  unfoldable pub schema_ipc_bytes : Schema → Result Status Text
  schema_ipc_bytes schema = map_err schema_encode (schema_message schema)

  -- The `FlightInfo` that `list_flights` and `get_flight_info` build.
  flight_info : FlightDescriptor → Text → Dataset → Result Status FlightInfo
  unfolding schema_ipc_bytes
  flight_info d key set = do
    bytes ← schema_ipc_bytes set.schema
    ok (record {
      schema = bytes;
      flight_descriptor = some d;
      endpoint = record { ticket = some key; location = [] } ∷ [];
      total_records = wrap_i64 (count_rows set.batches);
      total_bytes = negsuc 0;
    })

  listed : Text × Dataset → Result Status FlightInfo
  unfolding flight_info
  listed (key, set) = flight_info (cmd_descriptor key) key set

  -- `iter` is the order in which the map is gone through.
  unfoldable pub list_flights :
      (Datasets → Datasets) → EchoState → Result Status (List (Result Status FlightInfo))
  unfolding listed
  list_flights iter st = do datasets ← take_lock st; ok (map listed (iter datasets))

  -- `descriptor_to_key(&desc).ok_or_else(..)?`
  abbrev pub key_of : FlightDescriptor → Result Status Text
  key_of d = ok_or (descriptor_to_key lossy d) unsupported_descriptor

  -- `guard.datasets.get(&ticket_key)`
  abbrev pub dataset_at : EchoState → Text → Result Status Dataset
  dataset_at st key = do datasets ← take_lock st; ok_or (get key datasets) (unknown_ticket key)

  unfoldable pub get_flight_info : EchoState → FlightDescriptor → Result Status FlightInfo
  unfolding flight_info
  get_flight_info st d = do key ← key_of d; set ← dataset_at st key; flight_info d key set

  unfoldable pub get_schema : EchoState → FlightDescriptor → Result Status Text
  unfolding schema_ipc_bytes
  get_schema st d = do key ← key_of d; set ← dataset_at st key; schema_ipc_bytes set.schema

  -- The messages of the answer, with `Status::internal` in place of their errors.
  unfoldable pub do_get :
      EchoState → Text → Result Status (List (Result Status (FlightData Payload)))
  do_get st ticket = do
    set ← dataset_at st (lossy ticket)
    ok (map (map_err internal) (encode none set.schema set.batches))

  -- `first.flight_descriptor.as_ref().and_then(descriptor_to_key).unwrap_or_else(..)`
  abbrev pub put_key : Option FlightDescriptor → Text
  put_key none = lossy echo_ticket
  put_key (some d) = when_some (descriptor_to_key lossy d) (λ key. key) (lossy echo_ticket)

  -- `batches.first().map(|b| b.schema()).ok_or_else(..)?`
  dataset_of : List Batch → Result Status Dataset
  dataset_of [] = err no_batches
  dataset_of (b ∷ bs) = ok (record { schema = batch_schema b; batches = b ∷ bs })

  -- Everything before the lock is taken: the ticket and the dataset.
  unfoldable pub receive : Messages → Result Status (Text × Dataset)
  unfolding dataset_of
  receive [] = err empty_stream
  receive (err e ∷ rest) = err (internal e)
  receive (ok first ∷ rest) = do
    batches ← map_err internal (decode (ok first ∷ rest))
    set ← dataset_of batches
    ok (put_key first.flight_descriptor, set)

  store : EchoState → Text × Dataset → Result Status (Unit {0}) × EchoState
  store st (key, set) =
      if st.poisoned
      then (err lock, st)
      else (ok tt, record st { datasets = insert key set st.datasets })

  stored_or_refused :
      EchoState → Result Status (Text × Dataset) → Result Status (Unit {0}) × EchoState
  unfolding store
  stored_or_refused st (err e) = (err e, st)
  stored_or_refused st (ok put) = store st put

  -- One `PutResult` answers an upload that is kept.
  unfoldable pub do_put : EchoState → Messages → Result Status (Unit {0}) × EchoState
  unfolding receive stored_or_refused
  do_put st messages = stored_or_refused st (receive messages)

  -- `"pong"`
  abbrev pub pong : Text
  pong = b'p' ∷ b'o' ∷ b'n' ∷ b'g' ∷ []

  abbrev pub keys : Datasets → List Text
  keys [] = []
  keys ((k, set) ∷ m) = k ∷ keys m

  clear : EchoState → Result Status (List Text) × EchoState
  clear st = if st.poisoned then (err lock, st) else (ok [], record st { datasets = [] })

  list_tickets : (Datasets → Datasets) → EchoState → Result Status (List Text)
  list_tickets iter st = do datasets ← take_lock st; ok (keys (iter datasets))

  -- The bodies of the results.
  unfoldable pub do_action :
      (Datasets → Datasets) → EchoState → String → Result Status (List Text) × EchoState
  unfolding clear list_tickets
  do_action iter st kind =
      if str_eq kind "ping"
      then (ok (pong ∷ []), st)
      else if str_eq kind "clear"
      then clear st
      else if str_eq kind "list_tickets"
      then (list_tickets iter st, st)
      else (err (unknown_action kind), st)

  unfoldable pub list_actions : List ArrowActionType
  list_actions =
      record { kind = "clear"; description = "Clear all stored datasets." }
      ∷ record {
        kind = "ping";
        description = "Responds with 'pong'. Used to verify the server is alive.";
      }
      ∷ record {
        kind = "list_tickets";
        description = "Return one result per stored dataset, each body is the ticket bytes.";
      }
      ∷ []

-- The methods that the server does not have.
unfoldable pub handshake : Result Status (Unit {0})
handshake = err (unimplemented "handshake")

unfoldable pub poll_flight_info : Result Status (Unit {0})
poll_flight_info = err (unimplemented "poll_flight_info")

unfoldable pub do_exchange : Result Status (Unit {0})
do_exchange = err (unimplemented "do_exchange")
