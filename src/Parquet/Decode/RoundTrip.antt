-- ===== src/Parquet/Decode/RoundTrip.antt =====
-- The terms that stand for filters, `{:gt, column, value}` and `{:and, [filters]}`, and their decoding.
use ex_arrow.Prelude.{true, false, String, ◌≡◌, refl, fits_i64, ok}
use ex_arrow.Beam.{Text, Term, Terms, Rustler, RustlerLaws, atom, binary, tuple, list, nil, cons}
use ex_arrow.Parquet.{
  FilterValue, int, float, utf8, bool, FilterExpr, FilterExprs, eq, ne, gt, gte, lt, lte, and, or,
}
use ex_arrow.Parquet.Decode.{
  decode_filter_value, comparison, decode_comparison, decode_filter_expr, decode_filters,
}
use ex_arrow.Parquet.Filter.Typed.{has_child}

module _ {F : Type 0} where
  abbrev pub encode_value : FilterValue F → Term F
  encode_value (bool true) = atom "true"
  encode_value (bool false) = atom "false"
  encode_value (int z) = Term.int z
  encode_value (float f) = Term.float f
  encode_value (utf8 s) = binary s

  abbrev triple : String → Text → FilterValue F → Term F
  triple op col v = tuple (cons (atom op) (cons (binary col) (cons (encode_value v) nil)))

  abbrev mutual
    pub encode_filter : FilterExpr F → Term F
    encode_filter (eq col v) = triple "eq" col v
    encode_filter (ne col v) = triple "ne" col v
    encode_filter (gt col v) = triple "gt" col v
    encode_filter (gte col v) = triple "gte" col v
    encode_filter (lt col v) = triple "lt" col v
    encode_filter (lte col v) = triple "lte" col v
    encode_filter (and xs) = tuple (cons (atom "and") (cons (list (encode_filters xs)) nil))
    encode_filter (or xs) = tuple (cons (atom "or") (cons (list (encode_filters xs)) nil))

    pub encode_filters : FilterExprs F → Terms F
    encode_filters FilterExprs.nil = nil
    encode_filters (FilterExprs.cons x xs) = cons (encode_filter x) (encode_filters xs)

module _ {F : Type 0} (r : Rustler F) where
  abbrev pub IsValidValue : FilterValue F → Type 0
  IsValidValue (int z) = fits_i64 z ≡ true
  IsValidValue (utf8 s) = r.is_utf8 s ≡ true
  IsValidValue _ = Unit

  abbrev Compared : Text → FilterValue F → Type 0
  Compared col v = (r.is_utf8 col ≡ true) × IsValidValue v

  abbrev mutual
    -- UTF-8 names and texts, integers that fit an `i64`, and no empty junction.
    pub IsSendable : FilterExpr F → Type 0
    IsSendable (eq col v) = Compared col v
    IsSendable (ne col v) = Compared col v
    IsSendable (gt col v) = Compared col v
    IsSendable (gte col v) = Compared col v
    IsSendable (lt col v) = Compared col v
    IsSendable (lte col v) = Compared col v
    IsSendable (and xs) = (has_child xs ≡ true) × AllSendable xs
    IsSendable (or xs) = (has_child xs ≡ true) × AllSendable xs

    pub AllSendable : FilterExprs F → Type 0
    AllSendable FilterExprs.nil = Unit
    AllSendable (FilterExprs.cons x xs) = IsSendable x × AllSendable xs

  module _ (laws : RustlerLaws r) where
    open laws use {
      atom_of-atom, bool_of-true, bool_of-false, bool_of-int, bool_of-float, bool_of-binary,
      i64_of-int, i64_of-float, i64_of-binary, f64_of-float, f64_of-binary, string_of-binary,
    }

    decode-encode_value :
        (v : FilterValue F) → IsValidValue v → decode_filter_value r (encode_value v) ≡ ok v
    unfolding decode_filter_value
    decode-encode_value (bool true) h = rw bool_of-true
    decode-encode_value (bool false) h = rw bool_of-false
    decode-encode_value (int z) h = rw (bool_of-int, i64_of-int, h)
    decode-encode_value (float f) h = rw (bool_of-float, i64_of-float, f64_of-float)
    decode-encode_value (utf8 s) h =
        rw (bool_of-binary, i64_of-binary, f64_of-binary, string_of-binary, h)

    decode-triple :
        (op : String) (col : Text) (v : FilterValue F)
        → Compared col v
        → decode_comparison r op (cons (binary col) (cons (encode_value v) nil))
          ≡ comparison r op col v
    unfolding decode_comparison
    decode-triple op col v (name, valid) = rw (string_of-binary, name, decode-encode_value v valid)

    mutual
      unfolding decode_filter_expr comparison

      decode-filter :
          (e : FilterExpr F) → IsSendable e → decode_filter_expr r (encode_filter e) ≡ ok e
      decode-filter (eq col v) h = rw (atom_of-atom, decode-triple "eq" col v h)
      decode-filter (ne col v) h = rw (atom_of-atom, decode-triple "ne" col v h)
      decode-filter (gt col v) h = rw (atom_of-atom, decode-triple "gt" col v h)
      decode-filter (gte col v) h = rw (atom_of-atom, decode-triple "gte" col v h)
      decode-filter (lt col v) h = rw (atom_of-atom, decode-triple "lt" col v h)
      decode-filter (lte col v) h = rw (atom_of-atom, decode-triple "lte" col v h)
      decode-filter (and FilterExprs.nil) h = absurd (let none_there = h.0 in cc)
      decode-filter (or FilterExprs.nil) h = absurd (let none_there = h.0 in cc)
      decode-filter (and (FilterExprs.cons x xs)) h =
          rw (atom_of-atom, decode-filter x h.1.0, decode-all xs h.1.1)
      decode-filter (or (FilterExprs.cons x xs)) h =
          rw (atom_of-atom, decode-filter x h.1.0, decode-all xs h.1.1)

      decode-all :
          (xs : FilterExprs F) → AllSendable xs → decode_filters r (encode_filters xs) ≡ ok xs
      decode-all FilterExprs.nil h = refl
      decode-all (FilterExprs.cons x xs) h = rw (decode-filter x h.0, decode-all xs h.1)

-- Decoding the term that a filter is sent as gives that filter, for every filter whose names and texts
-- are UTF-8, whose integers fit an `i64` and whose junctions are not empty.
pub decode_filter_expr-encode_filter :
    {F : Type 0} (r : Rustler F) (laws : RustlerLaws r) (e : FilterExpr F)
    → IsSendable r e
    → decode_filter_expr r (encode_filter e) ≡ ok e
decode_filter_expr-encode_filter r laws e h = decode-filter r laws e h
