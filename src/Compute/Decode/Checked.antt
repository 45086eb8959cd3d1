-- ===== src/Compute/Decode/Checked.antt =====
-- What decoding has checked of an expression that it returns.
use text.Mathlib.Text.{◌==◌ as str_eq}
use ex_arrow.Prelude.{
  ℤ, true, String, ◌≡◌, fits_i64, Result, ok, Yields, Yields-ok, ok_or, ok_or-eq-ok, ◌==◌,
  Yields-err, Yields-if, Yields-bind, Yields-when_some, yields_rules, arith,
}
use ex_arrow.Beam.{Term, Terms, Rustler, RustlerLaws, tuple, list, improper, nil, cons}
use ex_arrow.Compute.{
  Op, not, bool, int, float, utf8, Expr, Exprs, field, scalar, call, args_len, Error, not_arity,
  arity, field_len, scalar_len, bad_tag, empty_tuple, not_a_tuple, call_len, args_not_list,
  improper_list, tag_not_atom, unit_not_atom, value_not_integer, field_name,
}
use ex_arrow.Compute.Decode.{
  decode_op, decode_scalar, decode_temporal, temporal, check_arity, dispatch, decode_field,
  decode_literal, decode_expr, decode_call, decode_args, decode_each,
}
use ex_arrow.Compute.Decode.Encode.{IsValidScalar, IsWellFormed, AllWellFormed}

module _ {F : Type 0} (r : Rustler F) (laws : RustlerLaws r) where
  temporal-IsValidScalar :
      (unit : String) (v : ℤ) → fits_i64 v ≡ true → Yields (IsValidScalar r) (temporal r unit v)
  unfolding temporal
  temporal-IsValidScalar unit v fits = search yields_rules depth 9

  decode_temporal-IsValidScalar : (t : Term F) → Yields (IsValidScalar r) (decode_temporal r t)
  unfolding decode_temporal
  decode_temporal-IsValidScalar (tuple nil) = Yields-err _
  decode_temporal-IsValidScalar (tuple (cons unit nil)) = Yields-err _
  decode_temporal-IsValidScalar (tuple (cons unit (cons value nil))) =
      Yields-bind (ok_or (r.atom_of unit) unit_not_atom) λ u hu.
        Yields-bind (ok_or (r.i64_of value) value_not_integer) λ v hv.
          temporal-IsValidScalar u v
            (laws.i64_of-fits value v (ok_or-eq-ok (r.i64_of value) value_not_integer hv))
  decode_temporal-IsValidScalar _ = Yields-err _

  decode_scalar-IsValidScalar : (t : Term F) → Yields (IsValidScalar r) (decode_scalar r t)
  unfolding decode_scalar
  decode_scalar-IsValidScalar t =
      Yields-when_some (r.bool_of t) (λ b h. Yields-ok (bool b) tt)
        (Yields-when_some (r.i64_of t) (λ i h. Yields-ok (int i) (laws.i64_of-fits t i h))
          (Yields-when_some (r.f64_of t) (λ f h. Yields-ok (float f) tt)
            (Yields-when_some (r.string_of t)
              (λ s h. Yields-ok (utf8 s) (laws.string_of-utf8 t s h))
              (decode_temporal-IsValidScalar t))))

  check_arity-IsWellFormed :
      (op : Op) (es : Exprs F) → AllWellFormed r es → Yields (IsWellFormed r) (check_arity r op es)
  unfolding check_arity
  check_arity-IsWellFormed not es all =
      Yields-if (args_len es == 1) (λ h. Yields-ok (call not es) (ground arith, all))
        (λ h. Yields-err not_arity)
  check_arity-IsWellFormed op es all =
      Yields-if (args_len es == 2) (λ h. Yields-ok (call op es) (ground arith, all))
        (λ h. Yields-err (arity op))

  decode_field-IsWellFormed : (ts : Terms F) → Yields (IsWellFormed r) (decode_field r ts)
  unfolding decode_field
  decode_field-IsWellFormed (cons name nil) =
      Yields-bind (ok_or (r.string_of name) field_name) λ s h.
        Yields-ok (field s)
          (laws.string_of-utf8 name s (ok_or-eq-ok (r.string_of name) field_name h))
  decode_field-IsWellFormed _ = Yields-err field_len

  decode_literal-IsWellFormed : (ts : Terms F) → Yields (IsWellFormed r) (decode_literal r ts)
  unfolding decode_literal
  decode_literal-IsWellFormed (cons value nil) =
      Yields-bind (decode_scalar r value)
        λ s h. Yields-ok (scalar s) ((decode_scalar-IsValidScalar value).at s h)
  decode_literal-IsWellFormed _ = Yields-err scalar_len

  dispatch-IsWellFormed :
      (as_call : Result (Error F) (Expr F)) (tag : String) (rest : Terms F)
      → Yields (IsWellFormed r) as_call
      → Yields (IsWellFormed r) (dispatch r as_call tag rest)
  unfolding dispatch
  dispatch-IsWellFormed as_call tag rest h =
      Yields-if (str_eq tag "field") (λ _. decode_field-IsWellFormed rest)
        λ _.
          Yields-if (str_eq tag "scalar") (λ _. decode_literal-IsWellFormed rest)
            λ _. Yields-if (str_eq tag "call") (λ _. h) (λ _. Yields-err bad_tag)

  mutual
    unfolding decode_expr

    checked_expr : (t : Term F) → Yields (IsWellFormed r) (decode_expr r t)
    checked_expr (tuple nil) = Yields-err empty_tuple
    checked_expr (tuple (cons tag rest)) =
        let called = checked_call rest in
        Yields-bind (ok_or (r.atom_of tag) tag_not_atom)
          λ a _. dispatch-IsWellFormed (decode_call r rest) a rest called
    checked_expr _ = Yields-err not_a_tuple

    checked_call : (ts : Terms F) → Yields (IsWellFormed r) (decode_call r ts)
    checked_call (cons op (cons args nil)) =
        let given = checked_args args in
        Yields-bind (decode_op r op) λ o _.
          Yields-bind (decode_args r args) λ es h. check_arity-IsWellFormed o es (given.at es h)
    checked_call _ = Yields-err call_len

    checked_args : (t : Term F) → Yields (AllWellFormed r) (decode_args r t)
    checked_args (list ts) = checked_each ts
    checked_args (improper t ts tail) =
        Yields-bind (decode_expr r t)
          λ e h. Yields-bind (decode_each r ts) λ es k. Yields-err improper_list
    checked_args _ = Yields-err args_not_list

    checked_each : (ts : Terms F) → Yields (AllWellFormed r) (decode_each r ts)
    checked_each nil = Yields-ok Exprs.nil tt
    checked_each (cons t ts) =
        let first = checked_expr t in
        let others = checked_each ts in
        Yields-bind (decode_expr r t) λ e h.
          Yields-bind (decode_each r ts)
            λ es k. Yields-ok (Exprs.cons e es) (first.at e h, others.at es k)

-- Every expression that decoding returns has two arguments for each operator, one for `not`,
-- integers that fit an `i64` (an `i32` for `date32`) and UTF-8 texts, at every depth.
pub decode_expr-IsWellFormed :
    {F : Type 0} (r : Rustler F) (laws : RustlerLaws r) (t : Term F) (e : Expr F)
    → decode_expr r t ≡ ok e
    → IsWellFormed r e
decode_expr-IsWellFormed r laws t e h = (checked_expr r laws t).at e h
