-- ===== src/FlightSql/Statement/Closed.antt =====
-- What is done with a statement after it was closed.
use ex_arrow.Prelude.{◌≡◌, refl, ◌∙◌, ap, false, Option, none, some, List, [], ◌∷◌, map}
use ex_arrow.FlightSql.Client.{SqlLib, statement_closed}
use ex_arrow.FlightSql.Statement.{
  PreparedStatement, Reply, done, failed, unit_reply, Handle, locked, flight_sql_prepared_bind,
  flight_sql_prepared_parameter_schema, flight_sql_prepared_execute, execute_opened,
  flight_sql_prepared_execute_update, flight_sql_prepared_close, close_taken,
}

module _ (lib : SqlLib) where
  -- What may be done with a statement.
  pub data Op : Type 0 where
    bind : lib.Batch → Op
    parameter_schema execute execute_update close : Op

  abbrev beside :
      Handle lib
      → Reply lib × PreparedStatement lib
      → Reply lib × PreparedStatement lib × Handle lib
  beside handle (reply, s) = (reply, s, handle)

  pub run : Op → PreparedStatement lib → Handle lib → Reply lib × PreparedStatement lib × Handle lib
  run (bind batch) s handle = beside handle (flight_sql_prepared_bind lib s batch)
  run parameter_schema s handle = beside handle (flight_sql_prepared_parameter_schema lib s)
  run execute s handle = flight_sql_prepared_execute lib s handle
  run execute_update s handle = beside handle (flight_sql_prepared_execute_update lib s)
  run close s handle = beside handle (flight_sql_prepared_close lib s)

  -- In a row: the replies, the statement and the client after them.
  pub run_all :
      List Op
      → PreparedStatement lib
      → Handle lib
      → List (Reply lib) × PreparedStatement lib × Handle lib
  unfolding run
  run_all [] s handle = ([], s, handle)
  run_all (op ∷ ops) s handle =
      let (reply, s₁, handle₁) = run op s handle in
      let (replies, s₂, handle₂) = run_all ops s₁ handle₁ in (reply ∷ replies, s₂, handle₂)

  abbrev pub closed_reply : Op → Reply lib
  closed_reply (bind batch) = failed statement_closed
  closed_reply parameter_schema = failed statement_closed
  closed_reply execute = failed statement_closed
  closed_reply execute_update = failed statement_closed
  closed_reply close = done

  -- A closed statement, under a sound lock.
  abbrev pub closed : PreparedStatement lib
  closed = record { stmt = none; poisoned = false }

  run-closed :
      (op : Op) (handle : Handle lib) → run op closed handle ≡ (closed_reply op, closed, handle)
  unfolding run flight_sql_prepared_bind flight_sql_prepared_parameter_schema
      flight_sql_prepared_execute flight_sql_prepared_execute_update flight_sql_prepared_close
      locked execute_opened close_taken
  run-closed (bind batch) handle = refl
  run-closed parameter_schema handle = refl
  run-closed execute handle = refl
  run-closed execute_update handle = refl
  run-closed close handle = refl

  run_all-closed :
      (ops : List Op) (handle : Handle lib)
      → run_all ops closed handle ≡ (map closed_reply ops, closed, handle)
  unfolding run_all
  run_all-closed [] handle = refl
  run_all-closed (op ∷ ops) handle = rw (run-closed op handle, run_all-closed ops handle) refl

  -- What close answers for a statement that is open, or closed already.
  abbrev pub close_answer : Option lib.Prepared → Reply lib
  close_answer none = done
  close_answer (some p) = unit_reply lib (lib.close p)

  close-closed :
      (stmt : Option lib.Prepared) (handle : Handle lib)
      → run close (record { stmt = stmt; poisoned = false }) handle
        ≡ (close_answer stmt, closed, handle)
  unfolding run flight_sql_prepared_close close_taken
  close-closed none handle = refl
  close-closed (some p) handle = refl

-- Whatever the server answers to the close of a statement with a sound lock, the statement is closed: of
-- anything that is done with it afterwards, in any order, a close succeeds and the rest fails as a closed
-- statement. None of it uses the client or opens the statement again.
pub run_all-close :
    (lib : SqlLib) (stmt : Option lib.Prepared) (ops : List (Op lib)) (handle : Handle lib)
    → run_all lib (close ∷ ops) (record { stmt = stmt; poisoned = false }) handle
      ≡ (close_answer lib stmt ∷ map (closed_reply lib) ops, closed lib, handle)
unfolding run_all
run_all-close lib stmt ops handle =
    ap
      (λ t. (
        t.0 ∷ (run_all lib ops t.1 t.2).0,
        (run_all lib ops t.1 t.2).1,
        (run_all lib ops t.1 t.2).2,
      ))
      (close-closed lib stmt handle)
    ∙ ap (λ t. (close_answer lib stmt ∷ t.0, t.1, t.2)) (run_all-closed lib ops handle)
