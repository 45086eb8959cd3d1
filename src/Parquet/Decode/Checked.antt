-- ===== src/Parquet/Decode/Checked.antt =====
-- What decoding guarantees of a filter.
use text.Mathlib.Text.{◌==◌ as str_eq}
use ex_arrow.Prelude.{
  yields_rules, Bool, true, ◌&&◌, String, ◌≡◌, refl, ok, Result, Yields, Yields-ok, Yields-err,
  Yields-bind, Yields-if, ok_or, if◌then◌else◌, ◌||◌, arith,
}
use ex_arrow.Beam.{Text, Term, Terms, Rustler, tuple, list, improper, nil, cons}
use ex_arrow.Parquet.{
  FilterValue, FilterExpr, FilterExprs, and, or, Error, improper_list, junction_len,
  junction_not_list, junction_empty, filter_empty, filter_not_tuple, filter_op, comparison_len,
  filter_column,
}
use ex_arrow.Parquet.Decode.{
  decode_filter_value, comparison, decode_comparison, junction, filter_dispatch, decode_filter_expr,
  decode_junction, decode_children, decode_filters,
}
use ex_arrow.Parquet.Filter.Typed.{is_inhabited, all_inhabited}

both : (a b : Bool) → a ≡ true → b ≡ true → (a && b) ≡ true
both a b h k = rw (h, k)

module _ {F : Type 0} (r : Rustler F) where
  abbrev Inhabited : FilterExpr F → Type 0
  Inhabited e = is_inhabited e ≡ true

  abbrev AllInhabited : FilterExprs F → Type 0
  AllInhabited es = all_inhabited es ≡ true

  comparison-Inhabited :
      (op : String) (col : Text) (v : FilterValue F) → Yields Inhabited (comparison r op col v)
  unfolding comparison
  comparison-Inhabited op col v = search yields_rules depth 12

  decode_comparison-Inhabited :
      (op : String) (ts : Terms F) → Yields Inhabited (decode_comparison r op ts)
  unfolding decode_comparison
  decode_comparison-Inhabited op (cons col (cons val nil)) =
      Yields-bind (ok_or (r.string_of col) filter_column)
        λ c _. Yields-bind (decode_filter_value r val) λ v _. comparison-Inhabited op c v
  decode_comparison-Inhabited op _ = Yields-err comparison_len

  junction-Inhabited :
      (op : String) (es : FilterExprs F) → AllInhabited es → Yields Inhabited (junction r op es)
  unfolding junction
  junction-Inhabited op FilterExprs.nil h = Yields-err junction_empty
  junction-Inhabited op (FilterExprs.cons x xs) h =
      Yields-ok
        (if str_eq op "and" then and (FilterExprs.cons x xs) else or (FilterExprs.cons x xs))
        (ground arith)

  dispatch-Inhabited :
      (op : String) (as_junction : Result (Error F) (FilterExpr F)) (rest : Terms F)
      → Yields Inhabited as_junction
      → Yields Inhabited (filter_dispatch r op as_junction rest)
  unfolding filter_dispatch
  dispatch-Inhabited op as_junction rest h =
      Yields-if (str_eq op "and" || str_eq op "or") (λ _. h)
        (λ _. decode_comparison-Inhabited op rest)

  mutual
    unfolding decode_filter_expr

    checked_filter : (t : Term F) → Yields Inhabited (decode_filter_expr r t)
    checked_filter (tuple nil) = Yields-err filter_empty
    checked_filter (tuple (cons op rest)) =
        let inner = λ (o : String). checked_junction o rest in
        Yields-bind (ok_or (r.atom_of op) filter_op)
          λ o _. dispatch-Inhabited o (decode_junction r o rest) rest (inner o)
    checked_filter _ = Yields-err filter_not_tuple

    checked_junction : (op : String) (ts : Terms F) → Yields Inhabited (decode_junction r op ts)
    checked_junction op (cons children nil) =
        let given = checked_children children in
        Yields-bind (decode_children r children) λ es h. junction-Inhabited op es (given.at es h)
    checked_junction op _ = Yields-err junction_len

    checked_children : (t : Term F) → Yields AllInhabited (decode_children r t)
    checked_children (list ts) = checked_all ts
    checked_children (improper t ts tail) =
        Yields-bind (decode_filter_expr r t)
          λ e h. Yields-bind (decode_filters r ts) λ es k. Yields-err improper_list
    checked_children _ = Yields-err junction_not_list

    checked_all : (ts : Terms F) → Yields AllInhabited (decode_filters r ts)
    checked_all nil = Yields-ok FilterExprs.nil refl
    checked_all (cons t ts) =
        let first = checked_filter t in
        let others = checked_all ts in
        Yields-bind (decode_filter_expr r t) λ e h. Yields-bind (decode_filters r ts) λ es k.
          Yields-ok (FilterExprs.cons e es)
            (both (is_inhabited e) (all_inhabited es) (first.at e h) (others.at es k))

-- A filter that decoding returns has no empty conjunction or disjunction, at any depth.
pub decode_filter_expr-is_inhabited :
    {F : Type 0} (r : Rustler F) (t : Term F) (e : FilterExpr F)
    → decode_filter_expr r t ≡ ok e
    → is_inhabited e ≡ true
decode_filter_expr-is_inhabited r t e h = (checked_filter r t).at e h
