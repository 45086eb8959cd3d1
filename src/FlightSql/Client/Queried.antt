-- ===== src/FlightSql/Client/Queried.antt =====
-- What a query that succeeds has done.
use ex_arrow.Prelude.{
  ◌≡◌, refl, ◌∙◌, ap, false, if_split, some, List, [], ◌∷◌, length, Result, ok, err, ok_or-eq-ok,
  map_err, map_err-eq-ok, Yields, Yields-ok, Yields-err, Yields-bind,
}
use ex_arrow.Beam.{Text}
use ex_arrow.Flight.{FlightEndpoint, FlightInfo}
use ex_arrow.FlightSql.Errors.{FlightError, flight_error_to_term}
use ex_arrow.FlightSql.Client.{
  SqlLib, Failure, sql, multi_endpoint, no_ticket, schema_decode, client_lock_poisoned,
  FlightSqlClientHandle, FlightSqlStreamResource, shown, decode_flight_schema, ticket_of, located,
  streamed, query_located, query_info, flight_sql_query,
}

module _ (lib : SqlLib) where
  -- The plan, the ticket of its one endpoint, its schema, and the stream that is fetched by the ticket.
  pub record Queried (handle : FlightSqlClientHandle lib) (query : Text)
      (s : FlightSqlStreamResource lib) : Type 0 where
    pub info : FlightInfo
    pub endpoint : FlightEndpoint
    pub ticket : Text
    pub sound : handle.poisoned ≡ false
    pub planned : (lib.execute handle.client query).0 ≡ ok info
    pub single : info.endpoint ≡ endpoint ∷ []
    pub has_ticket : endpoint.ticket ≡ some ticket
    pub schema : decode_flight_schema lib info.schema ≡ ok s.schema
    pub fetched : (lib.do_get (lib.execute handle.client query).1 ticket).0 ≡ ok s.stream
    pub open_lock : s.poisoned ≡ false

  -- One endpoint with a ticket.
  record Single (eps : List FlightEndpoint) (ticket : Text) : Type 0 where
    endpoint : FlightEndpoint
    single : eps ≡ endpoint ∷ []
    has_ticket : endpoint.ticket ≡ some ticket

  ticket_of-Single : (eps : List FlightEndpoint) → Yields (Single eps) (ticket_of lib eps)
  unfolding ticket_of
  ticket_of-Single [] = Yields-err (multi_endpoint 0)
  ticket_of-Single (ep ∷ []) = record {
    at = λ t e. record {
      endpoint = ep;
      single = refl;
      has_ticket = ok_or-eq-ok ep.ticket no_ticket e;
    };
  }
  ticket_of-Single (a ∷ b ∷ eps) = Yields-err (multi_endpoint (length (a ∷ b ∷ eps)))

  record Located (info : FlightInfo) (l : Text × lib.Schema) : Type 0 where
    one : Single info.endpoint l.0
    schema : decode_flight_schema lib info.schema ≡ ok l.1

  located-Located : (info : FlightInfo) → Yields (Located info) (located lib info)
  unfolding located
  located-Located info = Yields-bind (ticket_of lib info.endpoint) (λ t one.
      Yields-bind (map_err schema_decode (decode_flight_schema lib info.schema)) (λ schema read.
        Yields-ok (t, schema)
          (record {
            one = (ticket_of-Single info.endpoint).at t one;
            schema = map_err-eq-ok schema_decode (decode_flight_schema lib info.schema) schema read;
          })))

  -- What a stream is made of.
  record Streamed (schema : lib.Schema)
      (answer : Result FlightError (List (Result FlightError lib.Batch)))
      (s : FlightSqlStreamResource lib) : Type 0 where
    same_schema : schema ≡ s.schema
    given : answer ≡ ok s.stream
    open_lock : s.poisoned ≡ false

  streamed-Streamed :
      (schema : lib.Schema) (answer : Result FlightError (List (Result FlightError lib.Batch)))
      → Yields (Streamed schema answer) (streamed lib schema answer)
  unfolding streamed
  streamed-Streamed schema answer = Yields-bind (shown answer) (λ stream got. Yields-ok _ (record {
    same_schema = refl;
    given = map_err-eq-ok (λ e. sql (flight_error_to_term e)) answer stream got;
    open_lock = refl;
  }))

  -- What is known of a stream once the plan is there.
  record Fetched (client : lib.Conn) (info : FlightInfo) (s : FlightSqlStreamResource lib)
      : Type 0 where
    ticket : Text
    one : Single info.endpoint ticket
    schema : decode_flight_schema lib info.schema ≡ ok s.schema
    fetched : (lib.do_get client ticket).0 ≡ ok s.stream
    open_lock : s.poisoned ≡ false

  query_located-Fetched :
      (client : lib.Conn) (info : FlightInfo) (l : Result Failure (Text × lib.Schema))
      → Yields (Located info) l
      → Yields (Fetched client info) (query_located lib client l).0
  unfolding query_located
  query_located-Fetched client info (err e) y = Yields-err e
  query_located-Fetched client info (ok (ticket, schema)) y = record {
    at = λ s e.
        let l = y.at (ticket, schema) refl in
        let st = (streamed-Streamed schema (lib.do_get client ticket).0).at s e in
        record {
          ticket = ticket;
          one = l.one;
          schema = l.schema ∙ ap ok st.same_schema;
          fetched = st.given;
          open_lock = st.open_lock;
        };
  }

  query_info-Queried :
      (handle : FlightSqlClientHandle lib) (query : Text) (answer : Result FlightError FlightInfo)
      → handle.poisoned ≡ false
      → (lib.execute handle.client query).0 ≡ answer
      → Yields (Queried handle query) (query_info lib (lib.execute handle.client query).1 answer).0
  unfolding query_info
  query_info-Queried handle query (err e) sound planned = Yields-err (sql (flight_error_to_term e))
  query_info-Queried handle query (ok info) sound planned = record {
    at = λ s e.
        let f =
          (query_located-Fetched (lib.execute handle.client query).1 info (located lib info)
              (located-Located info)).at
            s e in
        record {
          info = info;
          endpoint = f.one.endpoint;
          ticket = f.ticket;
          sound = sound;
          planned = planned;
          single = f.one.single;
          has_ticket = f.one.has_ticket;
          schema = f.schema;
          fetched = f.fetched;
          open_lock = f.open_lock;
        };
  }

-- A query that gives a stream has planned it, found exactly one endpoint, with a ticket, read the schema
-- of the plan, and fetched the stream by that ticket on the client that made the plan, with no other call
-- between the two. So a plan of several endpoints is never answered with a part of its rows.
pub flight_sql_query-Queried :
    (lib : SqlLib) (handle : FlightSqlClientHandle lib) (query : Text)
    (s : FlightSqlStreamResource lib)
    → (flight_sql_query lib handle query).0 ≡ ok s
    → Queried lib handle query s
unfolding flight_sql_query
flight_sql_query-Queried lib handle query s gives =
    (if_split
        (λ (t : Result Failure (FlightSqlStreamResource lib) × FlightSqlClientHandle lib).
          Yields (Queried lib handle query) t.0)
        handle.poisoned _ _ (λ lost. Yields-err client_lock_poisoned)
        (λ sound.
          query_info-Queried lib handle query (lib.execute handle.client query).0 sound refl)).at
      s gives
