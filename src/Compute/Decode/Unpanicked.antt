-- ===== src/Compute/Decode/Unpanicked.antt =====
-- A term without improper lists that is no expression is refused with a message.
use text.Mathlib.Text.{◌==◌ as str_eq}
use ex_arrow.Prelude.{ℤ, refl, String, ◌==◌, Result, ok_or}
use ex_arrow.Beam.{Term, Terms, IsProper, AllProper, Rustler, tuple, list, improper, nil, cons}
use ex_arrow.Compute.{
  Op, not, bool, int, float, utf8, Expr, Exprs, field, scalar, call, args_len, Error, not_a_tuple,
  empty_tuple, tag_not_atom, field_len, field_name, scalar_len, call_len, args_not_list, not_arity,
  bad_tag, op_not_atom, arity, not_a_scalar, temporal_len, unit_not_atom, value_not_integer,
}
use ex_arrow.Compute.Panics.{
  Safe, Safe-ok, Safe-err, Safe-if, Safe-ok_or, Safe-bind, Safe-when_some, safe_rules,
}
use ex_arrow.Compute.Decode.{
  decode_op, temporal, decode_temporal, decode_scalar, check_arity, decode_field, decode_literal,
  dispatch, decode_expr, decode_call, decode_args, decode_each,
}

module _ {F : Type 0} (r : Rustler F) where
  decode_op-Safe : (t : Term F) → Safe (decode_op r t)
  unfolding decode_op
  decode_op-Safe t =
      Safe-bind (ok_or (r.atom_of t) op_not_atom) (Safe-ok_or (r.atom_of t) op_not_atom refl)
        (λ a _. search safe_rules depth 14)

  temporal-Safe : (unit : String) (v : ℤ) → Safe (temporal r unit v)
  unfolding temporal
  temporal-Safe unit v = search safe_rules depth 12

  decode_temporal-Safe : (t : Term F) → Safe (decode_temporal r t)
  unfolding decode_temporal
  decode_temporal-Safe (tuple (cons unit (cons value nil))) =
      Safe-bind (ok_or (r.atom_of unit) unit_not_atom)
        (Safe-ok_or (r.atom_of unit) unit_not_atom refl)
        λ u _.
          Safe-bind (ok_or (r.i64_of value) value_not_integer)
            (Safe-ok_or (r.i64_of value) value_not_integer refl) λ v _. temporal-Safe u v
  decode_temporal-Safe (tuple _) = Safe-err temporal_len refl
  decode_temporal-Safe _ = Safe-err not_a_scalar refl

  decode_scalar-Safe : (t : Term F) → Safe (decode_scalar r t)
  unfolding decode_scalar
  decode_scalar-Safe t =
      Safe-when_some (r.bool_of t) (λ b. Safe-ok (bool b))
        (Safe-when_some (r.i64_of t) (λ i. Safe-ok (int i))
          (Safe-when_some (r.f64_of t) (λ f. Safe-ok (float f))
            (Safe-when_some (r.string_of t) (λ s. Safe-ok (utf8 s)) (decode_temporal-Safe t))))

  check_arity-Safe : (op : Op) (es : Exprs F) → Safe (check_arity r op es)
  unfolding check_arity
  check_arity-Safe not es =
      Safe-if (args_len es == 1) (Safe-ok (call not es)) (Safe-err not_arity refl)
  check_arity-Safe op es =
      Safe-if (args_len es == 2) (Safe-ok (call op es)) (Safe-err (arity op) refl)

  decode_field-Safe : (ts : Terms F) → Safe (decode_field r ts)
  unfolding decode_field
  decode_field-Safe (cons name nil) =
      Safe-bind (ok_or (r.string_of name) field_name)
        (Safe-ok_or (r.string_of name) field_name refl) (λ s _. Safe-ok (field s))
  decode_field-Safe _ = Safe-err field_len refl

  decode_literal-Safe : (ts : Terms F) → Safe (decode_literal r ts)
  unfolding decode_literal
  decode_literal-Safe (cons value nil) =
      Safe-bind (decode_scalar r value) (decode_scalar-Safe value) (λ s _. Safe-ok (scalar s))
  decode_literal-Safe _ = Safe-err scalar_len refl

  dispatch-Safe :
      (as_call : Result (Error F) (Expr F)) (tag : String) (rest : Terms F)
      → Safe as_call
      → Safe (dispatch r as_call tag rest)
  unfolding dispatch
  dispatch-Safe as_call tag rest h = Safe-if (str_eq tag "field") (decode_field-Safe rest) (
      Safe-if (str_eq tag "scalar") (decode_literal-Safe rest)
        (Safe-if (str_eq tag "call") h (Safe-err bad_tag refl)))

  mutual
    unfolding decode_expr

    pub decode_expr-Safe : (t : Term F) → IsProper t → Safe (decode_expr r t)
    decode_expr-Safe (tuple nil) proper = Safe-err empty_tuple refl
    decode_expr-Safe (tuple (cons tag rest)) (_, proper) =
        let inner = decode_call-Safe rest proper in
        Safe-bind (ok_or (r.atom_of tag) tag_not_atom)
          (Safe-ok_or (r.atom_of tag) tag_not_atom refl)
          λ a _. dispatch-Safe (decode_call r rest) a rest inner
    decode_expr-Safe _ proper = Safe-err not_a_tuple refl

    decode_call-Safe : (ts : Terms F) → AllProper ts → Safe (decode_call r ts)
    decode_call-Safe (cons op (cons args nil)) (_, (proper, _)) =
        let inner = decode_args-Safe args proper in
        Safe-bind (decode_op r op) (decode_op-Safe op)
          λ o _. Safe-bind (decode_args r args) inner λ es _. check_arity-Safe o es
    decode_call-Safe _ proper = Safe-err call_len refl

    decode_args-Safe : (t : Term F) → IsProper t → Safe (decode_args r t)
    decode_args-Safe (list ts) proper = decode_each-Safe ts proper
    decode_args-Safe (improper t ts tail) proper = absurd proper
    decode_args-Safe _ proper = Safe-err args_not_list refl

    decode_each-Safe : (ts : Terms F) → AllProper ts → Safe (decode_each r ts)
    decode_each-Safe nil proper = Safe-ok Exprs.nil
    decode_each-Safe (cons t ts) (proper, rest) =
        let first = decode_expr-Safe t proper in
        let others = decode_each-Safe ts rest in
        Safe-bind (decode_expr r t) first
          λ e _. Safe-bind (decode_each r ts) others λ es _. Safe-ok (Exprs.cons e es)
