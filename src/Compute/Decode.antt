-- ===== src/Compute/Decode.antt =====
-- compute.rs: `decode_expr`, `decode_op`, `decode_scalar`.
pub mod Encode
pub mod RoundTrip
pub mod Checked
pub mod Unpanicked
use text.Mathlib.Text.{◌==◌ as str_eq}
use ex_arrow.Prelude.{
  ℕ, ℤ, Bool, true, false, String, Option, none, some, ◌==◌, ◌^◌, if◌then◌else◌, fits_signed,
  Result, ok, err, ◌>>=◌, ◌>>◌, ok_or, when_some,
}
use ex_arrow.Beam.{Text, Term, Terms, Rustler, tuple, list, improper, nil, cons}
use ex_arrow.Compute.{
  Op, eq, ne, gt, gte, lt, lte, and, or, not, ScalarValue, bool, int, float, utf8, date32, date64,
  timestamp_micros, timestamp_millis, timestamp_seconds, timestamp_nanos, Expr, Exprs, field,
  scalar, call, args_len, Error, not_a_tuple, empty_tuple, tag_not_atom, field_len, field_name,
  scalar_len, call_len, args_not_list, improper_list, not_arity, bad_tag, op_not_atom, bad_op,
  arity, not_a_scalar, temporal_len, unit_not_atom, value_not_integer, bad_unit, date32_range,
}

module _ {F : Type 0} (r : Rustler F) where
  open r use {atom_of, bool_of, i64_of, f64_of, string_of}

  unfoldable pub decode_op : Term F → Result (Error F) Op
  decode_op t = do
    a ← ok_or (atom_of t) op_not_atom
    if str_eq a "eq"
        then ok eq
        else if str_eq a "ne"
        then ok ne
        else if str_eq a "gt"
        then ok gt
        else if str_eq a "gte"
        then ok gte
        else if str_eq a "lt"
        then ok lt
        else if str_eq a "lte"
        then ok lte
        else if str_eq a "and"
        then ok and
        else if str_eq a "or"
        then ok or
        else if str_eq a "not"
        then ok not
        else err bad_op

  -- The last lines of `decode_scalar`: a unit and a value.
  temporal : String → ℤ → Result (Error F) (ScalarValue F)
  temporal unit v =
      if str_eq unit "date32"
      then (if fits_signed (2 ^ 31) v then ok (date32 v) else err (date32_range v))
      else if str_eq unit "date64"
      then ok (date64 v)
      else if str_eq unit "timestamp_micros"
      then ok (timestamp_micros v)
      else if str_eq unit "timestamp_millis"
      then ok (timestamp_millis v)
      else if str_eq unit "timestamp_seconds"
      then ok (timestamp_seconds v)
      else if str_eq unit "timestamp_nanos"
      then ok (timestamp_nanos v)
      else err bad_unit

  -- `get_tuple(term)` with its two elements, when no plain scalar was read.
  decode_temporal : Term F → Result (Error F) (ScalarValue F)
  unfolding temporal
  decode_temporal (tuple (cons unit (cons value nil))) = do
    u ← ok_or (atom_of unit) unit_not_atom
    v ← ok_or (i64_of value) value_not_integer
    temporal u v
  decode_temporal (tuple _) = err temporal_len
  decode_temporal _ = err not_a_scalar

  -- The first decoder that answers gives the scalar.
  unfoldable pub decode_scalar : Term F → Result (Error F) (ScalarValue F)
  unfolding decode_temporal
  decode_scalar t =
      when_some (bool_of t) (λ b. ok (bool b))
        (when_some (i64_of t) (λ i. ok (int i))
          (when_some (f64_of t) (λ f. ok (float f))
            (when_some (string_of t) (λ s. ok (utf8 s)) (decode_temporal t))))

  -- The `match op` on the number of arguments.
  check_arity : Op → Exprs F → Result (Error F) (Expr F)
  check_arity not args = if args_len args == 1 then ok (call not args) else err not_arity
  check_arity op args = if args_len args == 2 then ok (call op args) else err (arity op)

  decode_field : Terms F → Result (Error F) (Expr F)
  decode_field (cons name nil) = do s ← ok_or (string_of name) field_name; ok (field s)
  decode_field _ = err field_len

  decode_literal : Terms F → Result (Error F) (Expr F)
  unfolding decode_scalar
  decode_literal (cons value nil) = do s ← decode_scalar value; ok (scalar s)
  decode_literal _ = err scalar_len

  -- `tag == field()`, `tag == scalar()`, `tag == call()`
  dispatch : Result (Error F) (Expr F) → String → Terms F → Result (Error F) (Expr F)
  unfolding decode_field decode_literal
  dispatch as_call tag rest =
      if str_eq tag "field"
      then decode_field rest
      else if str_eq tag "scalar"
      then decode_literal rest
      else if str_eq tag "call"
      then as_call
      else err bad_tag

  unfoldable mutual
    unfolding dispatch check_arity decode_op

    pub decode_expr : Term F → Result (Error F) (Expr F)
    decode_expr (tuple nil) = err empty_tuple
    decode_expr (tuple (cons tag rest)) = do
      a ← ok_or (atom_of tag) tag_not_atom
      dispatch (decode_call rest) a rest
    decode_expr _ = err not_a_tuple

    pub decode_call : Terms F → Result (Error F) (Expr F)
    decode_call (cons op (cons args nil)) = do
      o ← decode_op op
      es ← decode_args args
      check_arity o es
    decode_call _ = err call_len

    pub decode_args : Term F → Result (Error F) (Exprs F)
    decode_args (list ts) = decode_each ts
    decode_args (improper t ts tail) = do e ← decode_expr t; es ← decode_each ts; err improper_list
    decode_args _ = err args_not_list

    -- `list.map(decode_expr).collect()`
    pub decode_each : Terms F → Result (Error F) (Exprs F)
    decode_each nil = ok Exprs.nil
    decode_each (cons t ts) = do e ← decode_expr t; es ← decode_each ts; ok (Exprs.cons e es)
