-- ===== src/Parquet/Decode.antt =====
-- parquet.rs: `decode_filter_expr` and `decode_filter_value`.
pub mod RoundTrip
pub mod Checked
use text.Mathlib.Text.{◌==◌ as str_eq}
use ex_arrow.Prelude.{
  ℕ, ℤ, Bool, true, false, String, Option, none, some, ◌||◌, if◌then◌else◌, Result, ok, err, ◌>>=◌,
  ok_or, when_some,
}
use ex_arrow.Beam.{Text, Term, Terms, Rustler, tuple, list, improper, nil, cons}
use ex_arrow.Parquet.{
  FilterValue, int, float, utf8, bool, FilterExpr, FilterExprs, eq, ne, gt, gte, lt, lte, and, or,
  Error, improper_list, filter_not_tuple, filter_empty, filter_op, junction_len, junction_not_list,
  junction_empty, comparison_len, filter_column, filter_value, unsupported_op,
}

module _ {F : Type 0} (r : Rustler F) where
  open r use {atom_of, bool_of, i64_of, f64_of, string_of}

  unfoldable pub decode_filter_value : Term F → Result (Error F) (FilterValue F)
  decode_filter_value t =
      when_some (bool_of t) (λ b. ok (bool b))
        (when_some (i64_of t) (λ i. ok (int i))
          (when_some (f64_of t) (λ f. ok (float f))
            (when_some (string_of t) (λ s. ok (utf8 s)) (err filter_value))))

  comparison : String → Text → FilterValue F → Result (Error F) (FilterExpr F)
  comparison op col val =
      if str_eq op "eq"
      then ok (eq col val)
      else if str_eq op "ne"
      then ok (ne col val)
      else if str_eq op "gt"
      then ok (gt col val)
      else if str_eq op "gte"
      then ok (gte col val)
      else if str_eq op "lt"
      then ok (lt col val)
      else if str_eq op "lte"
      then ok (lte col val)
      else err unsupported_op

  -- The lines after the test for `and` and `or`.
  decode_comparison : String → Terms F → Result (Error F) (FilterExpr F)
  unfolding comparison decode_filter_value
  decode_comparison op (cons col (cons val nil)) = do
    c ← ok_or (string_of col) filter_column
    v ← decode_filter_value val
    comparison op c v
  decode_comparison op _ = err comparison_len

  -- `if children.is_empty()`, and the two constructors.
  junction : String → FilterExprs F → Result (Error F) (FilterExpr F)
  junction op FilterExprs.nil = err junction_empty
  junction op children = ok (if str_eq op "and" then and children else or children)

  -- `op_atom == atom_and() || op_atom == atom_or()`
  filter_dispatch :
      String → Result (Error F) (FilterExpr F) → Terms F → Result (Error F) (FilterExpr F)
  unfolding decode_comparison
  filter_dispatch op as_junction rest =
      if str_eq op "and" || str_eq op "or" then as_junction else decode_comparison op rest

  unfoldable mutual
    unfolding filter_dispatch junction

    pub decode_filter_expr : Term F → Result (Error F) (FilterExpr F)
    decode_filter_expr (tuple nil) = err filter_empty
    decode_filter_expr (tuple (cons op rest)) = do
      o ← ok_or (atom_of op) filter_op
      filter_dispatch o (decode_junction o rest) rest
    decode_filter_expr _ = err filter_not_tuple

    pub decode_junction : String → Terms F → Result (Error F) (FilterExpr F)
    decode_junction op (cons children nil) = do es ← decode_children children; junction op es
    decode_junction op _ = err junction_len

    pub decode_children : Term F → Result (Error F) (FilterExprs F)
    decode_children (list ts) = decode_filters ts
    decode_children (improper t ts tail) = do
      e ← decode_filter_expr t
      es ← decode_filters ts
      err improper_list
    decode_children _ = err junction_not_list

    -- `list.map(decode_filter_expr).collect()`
    pub decode_filters : Terms F → Result (Error F) (FilterExprs F)
    decode_filters nil = ok FilterExprs.nil
    decode_filters (cons t ts) = do
      e ← decode_filter_expr t
      es ← decode_filters ts
      ok (FilterExprs.cons e es)
