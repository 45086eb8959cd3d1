-- ===== src/FlightSql/Client.antt =====
-- flight_sql.rs: connections, queries, metadata and streams.
-- The client of the `arrow-flight` crate is a parameter: a call on it gives its answer and the client
-- after it.
pub mod Queried
use ex_arrow.Prelude.{
  ℕ, ℤ, pos, negsuc, Bool, true, false, String, Option, none, some, List, [], ◌∷◌, length,
  if◌then◌else◌, Result, ok, err, ◌>>=◌, ok_or, map_err,
}
use ex_arrow.Beam.{Text, Term, Rustler}
use ex_arrow.Flight.{FlightEndpoint, FlightInfo}
use ex_arrow.Flight.Tls.{TlsError, TlsMode, parse_tls_mode}
use ex_arrow.Flight.Client.{client_tls}
use ex_arrow.FlightSql.Errors.{FlightError, SqlError, flight_error_to_term}

-- `CommandGetTables` and `CommandGetDbSchemas`
pub record CommandGetTables : Type 0 where
  pub catalog : Option Text
  pub db_schema_filter_pattern : Option Text
  pub table_name_filter_pattern : Option Text
  pub table_types : List Text
  pub include_schema : Bool

pub record CommandGetDbSchemas : Type 0 where
  pub catalog : Option Text
  pub db_schema_filter_pattern : Option Text

pub record SqlLib : Type 1 where
  pub Conn : Type 0
  pub Schema : Type 0
  pub Batch : Type 0
  pub Prepared : Type 0
  pub execute : Conn → Text → Result FlightError FlightInfo × Conn
  pub execute_update : Conn → Text → Result FlightError ℤ × Conn
  -- `FlightRecordBatchStream` is what it has to give.
  pub do_get : Conn → Text → Result FlightError (List (Result FlightError Batch)) × Conn
  pub get_tables : Conn → CommandGetTables → Result FlightError FlightInfo × Conn
  pub get_db_schemas : Conn → CommandGetDbSchemas → Result FlightError FlightInfo × Conn
  pub get_sql_info : Conn → List ℕ → Result FlightError FlightInfo × Conn
  pub prepare : Conn → Text → Result FlightError Prepared × Conn
  pub set_header : Conn → Text × Text → Conn
  -- `Schema::empty()`, `Schema::try_from(IpcMessage(..))`
  pub empty_schema : Schema
  pub schema_of_message : Text → Result Text Schema
  -- What the methods of a prepared statement answer, and the statement after them.
  pub set_parameters : Prepared → Batch → Result FlightError (Unit {0}) × Prepared
  pub parameter_schema : Prepared → Result FlightError Schema
  pub stmt_execute : Prepared → Result FlightError FlightInfo × Prepared
  pub stmt_execute_update : Prepared → Result FlightError ℤ × Prepared
  pub close : Prepared → Result FlightError (Unit {0})

pub data Failure : Type 0 where
  client_lock_poisoned stream_lock_poisoned statement_lock_poisoned : Failure
  -- `{:error, {code, grpc_status, message}}`
  sql : SqlError → Failure
  multi_endpoint : ℕ → Failure
  no_ticket statement_closed : Failure
  schema_decode : Text → Failure
  bad_tls : TlsError → Failure
  message : Text → Failure

abbrev pub shown : {A : Type 0} → Result FlightError A → Result Failure A
shown answer = map_err (λ e. sql (flight_error_to_term e)) answer

module _ (lib : SqlLib) where
  open lib use {Conn, Schema, Batch}

  -- `FlightSqlClientHandle`
  pub record FlightSqlClientHandle : Type 0 where
    pub client : Conn
    pub poisoned : Bool

  -- `FlightSqlStreamResource`, with what the stream has still to give.
  pub record FlightSqlStreamResource : Type 0 where
    pub schema : Schema
    pub stream : List (Result FlightError Batch)
    pub poisoned : Bool

  -- `for (k, v) in &headers { client.set_header(..) }`
  set_headers : Conn → List (Text × Text) → Conn
  set_headers client [] = client
  set_headers client (h ∷ hs) = set_headers (lib.set_header client h) hs

  -- `connect` is what `tonic` does to make a channel and a client of it: the URI, TLS, the connection.
  unfoldable pub flight_sql_connect :
      {F : Type 0}
      → Rustler F
      → (String × Option (Option Text) → Text → ℕ → Result Text Conn)
      → Text
      → ℕ
      → Term F
      → List (Text × Text)
      → Result Failure FlightSqlClientHandle
  unfolding set_headers
  flight_sql_connect r connect host port tls_mode headers = do
    mode ← map_err bad_tls (parse_tls_mode r tls_mode)
    client ← map_err message (connect (client_tls mode) host port)
    ok (record { client = set_headers client headers; poisoned = false })

  unfoldable pub decode_flight_schema : Text → Result Text Schema
  decode_flight_schema [] = ok lib.empty_schema
  decode_flight_schema (b ∷ bytes) = lib.schema_of_message (b ∷ bytes)

  -- Exactly one endpoint, with a ticket.
  unfoldable pub ticket_of : List FlightEndpoint → Result Failure Text
  ticket_of (ep ∷ []) = ok_or ep.ticket no_ticket
  ticket_of endpoints = err (multi_endpoint (length endpoints))

  -- The one endpoint, its ticket and the schema, which `flight_sql_query` and `flight_info_to_stream` both
  -- take from a `FlightInfo`.
  unfoldable pub located : FlightInfo → Result Failure (Text × Schema)
  unfolding ticket_of decode_flight_schema
  located info = do
    ticket ← ticket_of info.endpoint
    schema ← map_err schema_decode (decode_flight_schema info.schema)
    ok (ticket, schema)

  unfoldable pub streamed :
      Schema
      → Result FlightError (List (Result FlightError Batch))
      → Result Failure FlightSqlStreamResource
  streamed schema answer = do
    stream ← shown answer
    ok (record { schema = schema; stream = stream; poisoned = false })

  unfoldable pub query_located :
      Conn → Result Failure (Text × Schema) → Result Failure FlightSqlStreamResource × Conn
  unfolding streamed
  query_located client (err e) = (err e, client)
  query_located client (ok (ticket, schema)) =
      (streamed schema (lib.do_get client ticket).0, (lib.do_get client ticket).1)

  -- From the `FlightInfo` on, with the client under its lock.
  unfoldable pub query_info :
      Conn → Result FlightError FlightInfo → Result Failure FlightSqlStreamResource × Conn
  unfolding located query_located
  query_info client (err e) = (err (sql (flight_error_to_term e)), client)
  query_info client (ok info) = query_located client (located info)

  unfoldable pub flight_sql_query :
      FlightSqlClientHandle → Text → Result Failure FlightSqlStreamResource × FlightSqlClientHandle
  unfolding query_info
  flight_sql_query handle query =
      if handle.poisoned
      then (err client_lock_poisoned, handle)
      else (let (info, client) = lib.execute handle.client query in
          let (reply, client') = query_info client info in
          (reply, record handle { client = client' }))

  -- The rows that were affected, `none` where the server does not say.
  unfoldable pub rows_affected : Result FlightError ℤ → Result Failure (Option ℕ)
  rows_affected (ok (pos n)) = ok (some n)
  rows_affected (ok (negsuc n)) = ok none
  rows_affected (err e) = err (sql (flight_error_to_term e))

  unfoldable pub flight_sql_execute :
      FlightSqlClientHandle → Text → Result Failure (Option ℕ) × FlightSqlClientHandle
  unfolding rows_affected
  flight_sql_execute handle query =
      if handle.poisoned
      then (err client_lock_poisoned, handle)
      else (let (answer, client) = lib.execute_update handle.client query in
          (rows_affected answer, record handle { client = client }))

  unfoldable pub flight_sql_stream_schema : FlightSqlStreamResource → Schema
  flight_sql_stream_schema stream = stream.schema

  -- `none` is `:done`.
  next_of :
      List (Result FlightError Batch)
      → Result Failure (Option Batch) × List (Result FlightError Batch)
  next_of [] = (ok none, [])
  next_of (ok b ∷ rest) = (ok (some b), rest)
  next_of (err e ∷ rest) = (err (sql (flight_error_to_term e)), rest)

  unfoldable pub flight_sql_stream_next :
      FlightSqlStreamResource → Result Failure (Option Batch) × FlightSqlStreamResource
  unfolding next_of
  flight_sql_stream_next stream =
      if stream.poisoned
      then (err stream_lock_poisoned, stream)
      else (let (reply, rest) = next_of stream.stream in (reply, record stream { stream = rest }))

  -- The lines of `flight_info_to_stream` from `client.lock()` on.
  get_located :
      FlightSqlClientHandle
      → Result Failure (Text × Schema)
      → Result Failure FlightSqlStreamResource × FlightSqlClientHandle
  unfolding streamed
  get_located handle (err e) = (err e, handle)
  get_located handle (ok (ticket, schema)) =
      if handle.poisoned then (err client_lock_poisoned, handle) else (
        streamed schema (lib.do_get handle.client ticket).0,
        record handle { client = (lib.do_get handle.client ticket).1 },
      )

  unfoldable pub flight_info_to_stream :
      FlightSqlClientHandle
      → FlightInfo
      → Result Failure FlightSqlStreamResource × FlightSqlClientHandle
  unfolding located get_located
  flight_info_to_stream handle info = get_located handle (located info)

  -- An answer that was given under the lock, which is free again.
  unfoldable pub info_or_error :
      FlightSqlClientHandle
      → Result FlightError FlightInfo
      → Result Failure FlightSqlStreamResource × FlightSqlClientHandle
  unfolding flight_info_to_stream
  info_or_error handle (err e) = (err (sql (flight_error_to_term e)), handle)
  info_or_error handle (ok info) = flight_info_to_stream handle info

  -- What the three NIFs for metadata do with their call.
  unfoldable pub metadata :
      FlightSqlClientHandle
      → (Conn → Result FlightError FlightInfo × Conn)
      → Result Failure FlightSqlStreamResource × FlightSqlClientHandle
  unfolding info_or_error
  metadata handle call =
      if handle.poisoned
      then (err client_lock_poisoned, handle)
      else info_or_error (record handle { client = (call handle.client).1 }) (call handle.client).0

  unfoldable pub flight_sql_get_tables :
      FlightSqlClientHandle
      → Option Text
      → Option Text
      → Option Text
      → List Text
      → Bool
      → Result Failure FlightSqlStreamResource × FlightSqlClientHandle
  unfolding metadata
  flight_sql_get_tables handle catalog db_schema_filter table_name_filter table_types
        include_schema =
      metadata handle (λ c. lib.get_tables c (record {
        catalog = catalog;
        db_schema_filter_pattern = db_schema_filter;
        table_name_filter_pattern = table_name_filter;
        table_types = table_types;
        include_schema = include_schema;
      }))

  unfoldable pub flight_sql_get_db_schemas :
      FlightSqlClientHandle
      → Option Text
      → Option Text
      → Result Failure FlightSqlStreamResource × FlightSqlClientHandle
  unfolding metadata
  flight_sql_get_db_schemas handle catalog db_schema_filter = metadata handle (λ c.
      lib.get_db_schemas c
        (record { catalog = catalog; db_schema_filter_pattern = db_schema_filter }))

  unfoldable pub flight_sql_get_sql_info :
      FlightSqlClientHandle → Result Failure FlightSqlStreamResource × FlightSqlClientHandle
  unfolding metadata
  flight_sql_get_sql_info handle = metadata handle (λ c. lib.get_sql_info c [])
