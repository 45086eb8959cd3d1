-- ===== src/FlightSql/Statement/Wrapped.antt =====
-- lib/ex_arrow/flight_sql/statement.ex: `bind/2` and `close/1`, on the terms that the NIFs answer with;
-- util.rs: how an answer is written.
use text.Mathlib.Text.{◌==◌ as str_eq}
use ex_arrow.Prelude.{
  ℕ, pos, ◌≡◌, refl, Bool, true, false, Option, none, some, if◌then◌else◌, Result, ok, err,
}
use ex_arrow.Beam.{Term, atom, int, tuple, other, nil, cons}
use ex_arrow.FlightSql.Client.{SqlLib, Failure}
use ex_arrow.FlightSql.Statement.{
  PreparedStatement, Reply, done, schema, stream, rows, failed, unit_reply, locked,
  flight_sql_prepared_bind, flight_sql_prepared_close, close_taken,
}

-- `:ok`, `{:error, wrap_nif_error(nif_err)}` with `nif_err`, and the error of a `case` with no clause for
-- a term.
pub data Outcome (F : Type 0) : Type 0 where
  fine : Outcome F
  error case_clause_error : Term F → Outcome F

module _ {F : Type 0} where
  unfoldable pub ok_encode : Term F → Term F
  ok_encode t = tuple (cons (atom "ok") (cons t nil))

  unfoldable pub err_encode : Term F → Term F
  err_encode t = tuple (cons (atom "error") (cons t nil))

  -- The `case` of `bind` and of `close`.
  unfoldable pub handle_answer : Term F → Outcome F
  handle_answer (atom a) = if str_eq a "ok" then fine else case_clause_error (atom a)
  handle_answer (tuple (cons (atom a) (cons t nil))) =
      if str_eq a "error" then error t else case_clause_error (tuple (cons (atom a) (cons t nil)))
  handle_answer t = case_clause_error t

module _ {F : Type 0} (lib : SqlLib) (failure : Failure → Term F) where
  abbrev row_count : Option ℕ → Term F
  row_count none = atom "unknown"
  row_count (some n) = int (pos n)

  -- A reference to a resource is `other`.
  unfoldable pub encode : Reply lib → Term F
  unfolding ok_encode err_encode
  encode done = ok_encode (atom "ok")
  encode (schema s) = ok_encode other
  encode (stream s) = ok_encode other
  encode (rows n) = ok_encode (row_count n)
  encode (failed e) = err_encode (failure e)

  -- A reply of which the wrapper makes an error of its own, or the error that it says.
  pub data IsWrapped (r : Reply lib) : Type 0 where
    unhandled :
        r ≡ done
        → handle_answer (encode r) ≡ case_clause_error (ok_encode (atom "ok"))
        → IsWrapped r
    refused :
        (e : Failure) → r ≡ failed e → handle_answer (encode r) ≡ error (failure e) → IsWrapped r

  done-IsWrapped : IsWrapped done
  unfolding encode handle_answer ok_encode
  done-IsWrapped = unhandled refl refl

  failed-IsWrapped : (e : Failure) → IsWrapped (failed e)
  unfolding encode handle_answer err_encode
  failed-IsWrapped e = refused e refl refl

  unit_reply-IsWrapped : (answer : Result _ (Unit {0})) → IsWrapped (unit_reply lib answer)
  unit_reply-IsWrapped (ok u) = done-IsWrapped
  unit_reply-IsWrapped (err e) = failed-IsWrapped _

  bind-IsWrapped :
      (stmt : Option lib.Prepared) (poisoned : Bool) (batch : lib.Batch)
      → IsWrapped
          (flight_sql_prepared_bind lib (record { stmt = stmt; poisoned = poisoned }) batch).0
  unfolding flight_sql_prepared_bind locked
  bind-IsWrapped stmt true batch = failed-IsWrapped _
  bind-IsWrapped none false batch = failed-IsWrapped _
  bind-IsWrapped (some p) false batch = unit_reply-IsWrapped _

  close-IsWrapped :
      (stmt : Option lib.Prepared) (poisoned : Bool)
      → IsWrapped (flight_sql_prepared_close lib (record { stmt = stmt; poisoned = poisoned })).0
  unfolding flight_sql_prepared_close close_taken
  close-IsWrapped stmt true = failed-IsWrapped _
  close-IsWrapped none false = done-IsWrapped
  close-IsWrapped (some p) false = unit_reply-IsWrapped _

-- A bind or a close that succeeds is answered `{:ok, :ok}`, for which the Elixir functions `bind` and
-- `close` have no clause: they raise, on any statement, and return only when the NIF has failed. The
-- error is then the one that the NIF gave.
pub handle_answer-IsWrapped :
    {F : Type 0} (lib : SqlLib) (failure : Failure → Term F) (s : PreparedStatement lib)
    (batch : lib.Batch)
    → IsWrapped lib failure (flight_sql_prepared_bind lib s batch).0
      × IsWrapped lib failure (flight_sql_prepared_close lib s).0
handle_answer-IsWrapped lib failure s batch = (
  bind-IsWrapped lib failure s.stmt s.poisoned batch,
  close-IsWrapped lib failure s.stmt s.poisoned,
)
