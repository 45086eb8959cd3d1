-- ===== src/Samples/Queries.antt =====
-- Flight SQL at small inputs.
use ex_arrow.Prelude.{ℕ, ◌+◌, ℤ, pos, ◌≡◌, refl, false, none, some, [], ◌∷◌, ok}
use ex_arrow.Beam.{Text, other, codes}
use ex_arrow.Flight.{FlightEndpoint, FlightInfo}
use ex_arrow.FlightSql.Errors.{Code, tonic, arrow, ipc_error, flight_error_to_term}
use ex_arrow.FlightSql.Errors.Recovered.{status_debug, flight_error_to_term-status_debug}
use ex_arrow.FlightSql.Client.{
  SqlLib, statement_closed, FlightSqlClientHandle, FlightSqlStreamResource, flight_sql_query,
  query_info, located, query_located, streamed, ticket_of, decode_flight_schema,
}
use ex_arrow.FlightSql.Client.Queried.{Queried, flight_sql_query-Queried}
use ex_arrow.FlightSql.Statement.{
  PreparedStatement, done, failed, flight_sql_prepared_bind, flight_sql_prepared_close,
}
use ex_arrow.FlightSql.Statement.Closed.{bind, execute, close, closed, run_all, run_all-close}
use ex_arrow.FlightSql.Statement.Wrapped.{IsWrapped, handle_answer-IsWrapped}

-- A message with a quote, a backslash and a new line.
abbrev tricky : Text
tricky = b'a' ∷ b'"' ∷ b'\\' ∷ 10 ∷ []

flight_error_to_term-status_debug_example :
    flight_error_to_term
      (arrow (ipc_error (status_debug Code.not_found tricky (codes ", details: []"))))
    ≡ flight_error_to_term (tonic Code.not_found tricky)
flight_error_to_term-status_debug_example =
    flight_error_to_term-status_debug Code.not_found tricky (codes ", details: []")
      (refl, (refl, (refl, (refl, tt)))) refl

abbrev ticketed : FlightEndpoint
ticketed = record { ticket = some (codes "t"); location = [] }

abbrev planned : FlightInfo
planned = record {
  schema = [];
  flight_descriptor = none;
  endpoint = ticketed ∷ [];
  total_records = pos 1;
  total_bytes = pos 8;
}

-- A server with one table, and a client of it that counts its calls.
abbrev one_table : SqlLib
one_table = record {
  Conn = ℕ;
  Schema = Unit {0};
  Batch = ℕ;
  Prepared = ℕ;
  execute = λ c q. (ok planned, c + 1);
  execute_update = λ c q. (ok (pos 1), c + 1);
  do_get = λ c t. (ok (ok 7 ∷ []), c + 1);
  get_tables = λ c command. (ok planned, c + 1);
  get_db_schemas = λ c command. (ok planned, c + 1);
  get_sql_info = λ c infos. (ok planned, c + 1);
  prepare = λ c q. (ok 3, c + 1);
  set_header = λ c header. c;
  empty_schema = tt;
  schema_of_message = λ bytes. ok tt;
  set_parameters = λ p b. (ok tt, b);
  parameter_schema = λ p. ok tt;
  stmt_execute = λ p. (ok planned, p);
  stmt_execute_update = λ p. (ok (pos 1), p);
  close = λ p. ok tt;
}

abbrev fresh : FlightSqlClientHandle one_table
fresh = record { client = 0; poisoned = false }

abbrev seven : FlightSqlStreamResource one_table
seven = record { schema = tt; stream = ok 7 ∷ []; poisoned = false }

seven-given : (flight_sql_query one_table fresh (codes "select")).0 ≡ ok seven
unfolding flight_sql_query query_info located query_located streamed ticket_of decode_flight_schema
seven-given = refl

flight_sql_query-Queried_example : Queried one_table fresh (codes "select") seven
flight_sql_query-Queried_example =
    flight_sql_query-Queried one_table fresh (codes "select") seven seven-given

run_all-close_example :
    run_all one_table
      (close ∷ bind 9 ∷ execute ∷ close ∷ [])
      (record { stmt = some 3; poisoned = false })
      fresh
    ≡ (
      done ∷ failed statement_closed ∷ failed statement_closed ∷ done ∷ [],
      closed one_table,
      fresh,
    )
run_all-close_example = run_all-close one_table (some 3) (bind 9 ∷ execute ∷ close ∷ []) fresh

abbrev open_statement : PreparedStatement one_table
open_statement = record { stmt = some 3; poisoned = false }

handle_answer-IsWrapped_example :
    IsWrapped {F = ℤ} one_table (λ e. other) (flight_sql_prepared_bind one_table open_statement 9).0
    × IsWrapped {F = ℤ} one_table
        (λ e. other)
        (flight_sql_prepared_close one_table open_statement).0
handle_answer-IsWrapped_example = handle_answer-IsWrapped one_table (λ e. other) open_statement 9
