-- ===== src/FlightSql/Statement.antt =====
-- flight_sql.rs: prepared statements, and what lib/ex_arrow/flight_sql/statement.ex makes of the answers
-- of `bind` and `close`.
-- A statement has the client that prepared it, which its results are fetched on, so the handle of that
-- client goes in and out of what is done with it.
pub mod Closed
pub mod Wrapped
use ex_arrow.Prelude.{
  ℕ, ℤ, Bool, true, false, String, Option, none, some, List, [], ◌∷◌, if◌then◌else◌, Result, ok,
  err, ◌>>=◌, map_err,
}
use ex_arrow.Beam.{Text, Term, Terms, atom, tuple, nil, cons}
use ex_arrow.Flight.{FlightInfo}
use ex_arrow.FlightSql.Errors.{FlightError, flight_error_to_term}
use ex_arrow.FlightSql.Client.{
  SqlLib, Failure, sql, statement_closed, statement_lock_poisoned, client_lock_poisoned,
  FlightSqlClientHandle, FlightSqlStreamResource, shown, rows_affected, info_or_error,
}

module _ (lib : SqlLib) where
  open lib use {Schema, Batch, Prepared}

  -- `FlightSqlPreparedStatementResource`: a statement that was closed is `none`.
  pub record PreparedStatement : Type 0 where
    pub stmt : Option Prepared
    pub poisoned : Bool

  -- `done` is `{:ok, :ok}`.
  pub data Reply : Type 0 where
    done : Reply
    schema : Schema → Reply
    stream : FlightSqlStreamResource lib → Reply
    rows : Option ℕ → Reply
    failed : Failure → Reply

  abbrev pub Handle : Type 0
  Handle = FlightSqlClientHandle lib

  prepared_or_error :
      Handle → Result FlightError Prepared → Result Failure PreparedStatement × Handle
  prepared_or_error handle (err e) = (err (sql (flight_error_to_term e)), handle)
  prepared_or_error handle (ok p) = (ok (record { stmt = some p; poisoned = false }), handle)

  unfoldable pub flight_sql_prepare : Handle → Text → Result Failure PreparedStatement × Handle
  unfolding prepared_or_error
  flight_sql_prepare handle query =
      if handle.poisoned
      then (err client_lock_poisoned, handle)
      else prepared_or_error (record handle { client = (lib.prepare handle.client query).1 })
          (lib.prepare handle.client query).0

  abbrev pub unit_reply : Result FlightError (Unit {0}) → Reply
  unit_reply (ok u) = done
  unit_reply (err e) = failed (sql (flight_error_to_term e))

  abbrev schema_reply : Result FlightError Schema → Reply
  schema_reply (ok s) = schema s
  schema_reply (err e) = failed (sql (flight_error_to_term e))

  abbrev rows_reply : Result Failure (Option ℕ) → Reply
  rows_reply (ok n) = rows n
  rows_reply (err e) = failed e

  abbrev stream_reply : Result Failure (FlightSqlStreamResource lib) → Reply
  stream_reply (ok s) = stream s
  stream_reply (err e) = failed e

  abbrev closed_failure : Reply
  closed_failure = failed statement_closed

  abbrev opened :
      PreparedStatement
      → Option Prepared
      → (Prepared → Reply × Prepared)
      → Reply × PreparedStatement
  opened s none use_it = (closed_failure, s)
  opened s (some p) use_it = ((use_it p).0, record s { stmt = some (use_it p).1 })

  -- The statement under its lock, and what is done with it unless it is closed.
  locked : PreparedStatement → (Prepared → Reply × Prepared) → Reply × PreparedStatement
  locked s use_it =
      if s.poisoned then (failed statement_lock_poisoned, s) else opened s s.stmt use_it

  unfoldable pub flight_sql_prepared_bind : PreparedStatement → Batch → Reply × PreparedStatement
  unfolding locked
  flight_sql_prepared_bind s batch =
      locked s (λ p. (unit_reply (lib.set_parameters p batch).0, (lib.set_parameters p batch).1))

  unfoldable pub flight_sql_prepared_parameter_schema :
      PreparedStatement → Reply × PreparedStatement
  unfolding locked
  flight_sql_prepared_parameter_schema s =
      locked s (λ p. (schema_reply (lib.parameter_schema p), p))

  unfoldable pub flight_sql_prepared_execute_update : PreparedStatement → Reply × PreparedStatement
  unfolding locked rows_affected
  flight_sql_prepared_execute_update s = locked s (λ p.
      (rows_reply (rows_affected lib (lib.stmt_execute_update p).0), (lib.stmt_execute_update p).1))

  -- What the client replies, and the client after it.
  abbrev streamed_reply : Result Failure (FlightSqlStreamResource lib) × Handle → Reply × Handle
  streamed_reply (answer, handle) = (stream_reply answer, handle)

  execute_opened : PreparedStatement → Option Prepared → Handle → Reply × PreparedStatement × Handle
  unfolding info_or_error
  execute_opened s none handle = (closed_failure, s, handle)
  execute_opened s (some p) handle =
      let (reply, handle') = streamed_reply (info_or_error lib handle (lib.stmt_execute p).0) in
      (reply, record s { stmt = some (lib.stmt_execute p).1 }, handle')

  unfoldable pub flight_sql_prepared_execute :
      PreparedStatement → Handle → Reply × PreparedStatement × Handle
  unfolding execute_opened
  flight_sql_prepared_execute s handle =
      if s.poisoned
      then (failed statement_lock_poisoned, s, handle)
      else execute_opened s s.stmt handle

  -- `guard.take()`: the statement is closed whatever the server answers.
  close_taken : PreparedStatement → Option Prepared → Reply × PreparedStatement
  close_taken s none = (done, s)
  close_taken s (some p) = (unit_reply (lib.close p), record s { stmt = none })

  unfoldable pub flight_sql_prepared_close : PreparedStatement → Reply × PreparedStatement
  unfolding close_taken
  flight_sql_prepared_close s =
      if s.poisoned then (failed statement_lock_poisoned, s) else close_taken s s.stmt
