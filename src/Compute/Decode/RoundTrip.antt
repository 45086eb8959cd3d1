-- ===== src/Compute/Decode/RoundTrip.antt =====
-- Decoding inverts the encoding that Elixir sends.
use ex_arrow.Prelude.{
  ℤ, true, false, String, ◌≡◌, refl, ◌∙◌, ◌^◌, fits_signed, fits_i64, pos, negsuc, ok, arith,
}
use ex_arrow.Beam.{Term, Rustler, RustlerLaws, atom, tuple, nil, cons}
use ex_arrow.Compute.{
  Op, eq, ne, gt, gte, lt, lte, and, or, not, ScalarValue, bool, int, float, utf8, date32, date64,
  timestamp_micros, timestamp_millis, timestamp_seconds, timestamp_nanos, Expr, Exprs, field,
  scalar, call, args_len,
}
use ex_arrow.Compute.Decode.{
  decode_op, decode_scalar, temporal, check_arity, decode_expr, decode_each,
}
use ex_arrow.Compute.Decode.Encode.{
  encode_op, encode_scalar, encode_node, encode_each, op_arity, IsValidScalar, IsWellFormed,
  AllWellFormed,
}

i64_of_i32 : (z : ℤ) → fits_signed (2 ^ 31) z ≡ true → fits_i64 z ≡ true
i64_of_i32 (pos n) h = ground arith
i64_of_i32 (negsuc n) h = ground arith

module _ {F : Type 0} (r : Rustler F) (laws : RustlerLaws r) where
  open laws use {
    atom_of-atom, bool_of-true, bool_of-false, bool_of-int, bool_of-float, bool_of-binary,
    bool_of-tuple, i64_of-int, i64_of-float, i64_of-binary, i64_of-tuple, f64_of-float,
    f64_of-binary, f64_of-tuple, string_of-binary, string_of-tuple,
  }

  decode-encode_op : (op : Op) → decode_op r (atom (encode_op op)) ≡ ok op
  unfolding decode_op
  decode-encode_op eq = rw atom_of-atom
  decode-encode_op ne = rw atom_of-atom
  decode-encode_op gt = rw atom_of-atom
  decode-encode_op gte = rw atom_of-atom
  decode-encode_op lt = rw atom_of-atom
  decode-encode_op lte = rw atom_of-atom
  decode-encode_op and = rw atom_of-atom
  decode-encode_op or = rw atom_of-atom
  decode-encode_op not = rw atom_of-atom

  -- A pair of a unit and an integer is read by none of the plain decoders.
  decode_scalar-pair :
      (unit : String) (v : ℤ)
      → fits_i64 v ≡ true
      → decode_scalar r (tuple (cons (atom unit) (cons (Term.int v) nil))) ≡ temporal r unit v
  unfolding decode_scalar
  decode_scalar-pair unit v h =
      rw (bool_of-tuple, i64_of-tuple, f64_of-tuple, string_of-tuple, atom_of-atom, i64_of-int, h)

  decode-encode_scalar :
      (s : ScalarValue F) → IsValidScalar r s → decode_scalar r (encode_scalar s) ≡ ok s
  unfolding temporal
  decode-encode_scalar (bool true) h = unfold decode_scalar in rw bool_of-true
  decode-encode_scalar (bool false) h = unfold decode_scalar in rw bool_of-false
  decode-encode_scalar (int z) h = unfold decode_scalar in rw (bool_of-int, i64_of-int, h)
  decode-encode_scalar (float f) h =
      unfold decode_scalar in rw (bool_of-float, i64_of-float, f64_of-float)
  decode-encode_scalar (utf8 s) h =
      unfold decode_scalar in rw (bool_of-binary, i64_of-binary, f64_of-binary, string_of-binary, h)
  decode-encode_scalar (date32 d) h = decode_scalar-pair "date32" d (i64_of_i32 d h) ∙ rw h
  decode-encode_scalar (date64 d) h = decode_scalar-pair "date64" d h
  decode-encode_scalar (timestamp_micros d) h = decode_scalar-pair "timestamp_micros" d h
  decode-encode_scalar (timestamp_millis d) h = decode_scalar-pair "timestamp_millis" d h
  decode-encode_scalar (timestamp_seconds d) h = decode_scalar-pair "timestamp_seconds" d h
  decode-encode_scalar (timestamp_nanos d) h = decode_scalar-pair "timestamp_nanos" d h

  check_arity-IsWellFormed :
      (op : Op) (es : Exprs F) → args_len es ≡ op_arity op → check_arity r op es ≡ ok (call op es)
  unfolding check_arity
  check_arity-IsWellFormed not es h = ground arith
  check_arity-IsWellFormed _ es h = ground arith

  mutual
    unfolding decode_expr

    decode_node : (e : Expr F) → IsWellFormed r e → decode_expr r (encode_node e) ≡ ok e
    decode_node (field s) h = rw (atom_of-atom, string_of-binary, h)
    decode_node (scalar s) h = rw (atom_of-atom, decode-encode_scalar s h)
    decode_node (call op es) h =
        rw (
          atom_of-atom,
          decode-encode_op op,
          decode_nodes es h.1,
          check_arity-IsWellFormed op es h.0,
        )

    decode_nodes : (es : Exprs F) → AllWellFormed r es → decode_each r (encode_each es) ≡ ok es
    decode_nodes Exprs.nil h = refl
    decode_nodes (Exprs.cons e es) h = rw (decode_node e h.0, decode_nodes es h.1)

-- Decoding the term that an expression is sent as gives that expression, for every expression
-- whose operators have their number of arguments, whose numbers fit their types and whose texts
-- are UTF-8.
pub decode_expr-encode_node :
    {F : Type 0} (r : Rustler F) (laws : RustlerLaws r) (e : Expr F)
    → IsWellFormed r e
    → decode_expr r (encode_node e) ≡ ok e
decode_expr-encode_node r laws e h = decode_node r laws e h
