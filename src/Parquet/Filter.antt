-- ===== src/Parquet/Filter.antt =====
-- parquet.rs: `make_scalar`, `eval_cmp`, `eval_filter_on_batch`, `collect_filter_columns` and
-- `validate_filter_types`. As in compute.rs, an arm of `make_scalar` returns the one value of its array.
pub mod Combine
pub mod Literals
pub mod Correct
pub mod Typed
pub mod Columns
use text.Mathlib.Text.{◌==◌ as str_eq}
use ex_arrow.Prelude.{
  ℕ, ℤ, Bool, true, false, String, Option, none, some, List, [], ◌∷◌, ◌++◌, ◌||◌, ◌^◌, fits_signed,
  if◌then◌else◌, Result, ok, err, ◌>>=◌, ◌>>◌, ok_or, map_err, when_some,
}
use ex_arrow.Beam.{Text, text_eq}
use ex_arrow.Arrow.{
  DataType, Floats, Native, bool_value, int_value, f32_value, f64_value, utf8_value, boolean, int32,
  int64, float32, float64,
}
use ex_arrow.Arrow.Kernels.{Kernels, Datum, whole, Cmp}
use ex_arrow.Parquet.{
  FilterValue, int, float, utf8, bool, FilterExpr, FilterExprs, eq, ne, gt, gte, lt, lte, and, or,
  nil, cons, Error, out_of_range, inexact, incomparable, column_not_found, not_in_schema, empty_and,
  empty_or, unknown_op, kernel,
}

module _ (fl : Floats) where
  open fl use {F64, f64_of_i64, f32_of_f64, f64_of_f32, eq_f64}

  unfoldable pub make_scalar : FilterValue F64 → DataType → Result (Error F64) (Native fl)
  make_scalar (int v) int64 = ok (int_value v)
  make_scalar (int v) int32 =
      if fits_signed (2 ^ 31) v then ok (int_value v) else err (out_of_range v)
  make_scalar (float v) float64 = ok (f64_value v)
  make_scalar (float v) float32 =
      if eq_f64 (f64_of_f32 (f32_of_f64 v)) v
      then ok (f32_value (f32_of_f64 v))
      else err (inexact v)
  make_scalar (utf8 s) DataType.utf8 = ok (utf8_value s)
  make_scalar (bool b) boolean = ok (bool_value b)
  make_scalar (int v) float64 = ok (f64_value (f64_of_i64 v))
  make_scalar v dt = err (incomparable v dt)

  -- `schema.field_with_name(col)` is a lookup of the type of a column.
  check_type : (Text → Option DataType) → Text → FilterValue F64 → Result (Error F64) (Unit {0})
  unfolding make_scalar
  check_type field_type col v = do
    dt ← ok_or (field_type col) (not_in_schema col)
    w ← make_scalar v dt
    ok tt

  unfoldable mutual
    unfolding check_type

    pub validate_filter_types :
        (Text → Option DataType) → FilterExpr F64 → Result (Error F64) (Unit {0})
    validate_filter_types schema (and xs) = validate_all schema xs
    validate_filter_types schema (or xs) = validate_all schema xs
    validate_filter_types schema (eq col v) = check_type schema col v
    validate_filter_types schema (ne col v) = check_type schema col v
    validate_filter_types schema (gt col v) = check_type schema col v
    validate_filter_types schema (gte col v) = check_type schema col v
    validate_filter_types schema (lt col v) = check_type schema col v
    validate_filter_types schema (lte col v) = check_type schema col v

    pub validate_all : (Text → Option DataType) → FilterExprs F64 → Result (Error F64) (Unit {0})
    validate_all schema nil = ok tt
    validate_all schema (cons x xs) = do validate_filter_types schema x; validate_all schema xs

-- `out.iter().any(|x| x == c)`
abbrev pub has_text : List Text → Text → Bool
has_text [] c = false
has_text (x ∷ xs) c = text_eq x c || has_text xs c

-- `out.push(c.clone())`, unless it is there.
push_new : List Text → Text → List Text
push_new out c = if has_text out c then out else out ++ c ∷ []

unfoldable mutual
  unfolding push_new

  pub collect_filter_columns : {F : Type 0} → FilterExpr F → List Text → List Text
  collect_filter_columns (eq c v) out = push_new out c
  collect_filter_columns (ne c v) out = push_new out c
  collect_filter_columns (gt c v) out = push_new out c
  collect_filter_columns (gte c v) out = push_new out c
  collect_filter_columns (lt c v) out = push_new out c
  collect_filter_columns (lte c v) out = push_new out c
  collect_filter_columns (and xs) out = collect_all xs out
  collect_filter_columns (or xs) out = collect_all xs out

  pub collect_all : {F : Type 0} → FilterExprs F → List Text → List Text
  collect_all nil out = out
  collect_all (cons x xs) out = collect_all xs (collect_filter_columns x out)

module _ {fl : Floats} (k : Kernels fl) where
  open k use {Array, Mask, Batch, data_type, one, compare, and_masks, or_masks, column_by_name}

  -- The `match op` on the name of the comparison.
  named_cmp : String → Result (Error fl.F64) Cmp
  named_cmp op =
      if str_eq op "eq"
      then ok Cmp.eq
      else if str_eq op "ne"
      then ok Cmp.neq
      else if str_eq op "gt"
      then ok Cmp.gt
      else if str_eq op "gte"
      then ok Cmp.gt_eq
      else if str_eq op "lt"
      then ok Cmp.lt
      else if str_eq op "lte"
      then ok Cmp.lt_eq
      else err (unknown_op op)

  unfoldable pub eval_cmp : Array → FilterValue fl.F64 → String → Result (Error fl.F64) Mask
  unfolding make_scalar named_cmp
  eval_cmp array value op = do
    w ← make_scalar fl value (data_type array)
    c ← named_cmp op
    map_err kernel (compare c (whole array) (Datum.scalar (one (data_type array) w)))

  eval_column : Batch → Text → FilterValue fl.F64 → String → Result (Error fl.F64) Mask
  unfolding eval_cmp
  eval_column batch col v op = do
    array ← ok_or (column_by_name batch col) (column_not_found col)
    eval_cmp array v op

  -- `acc = Some(match acc { None => mask, Some(prev) => f(&prev, &mask)? })`
  join : (Mask → Mask → Result Text Mask) → Option Mask → Mask → Result (Error fl.F64) Mask
  join f none mask = ok mask
  join f (some prev) mask = map_err kernel (f prev mask)

  unfoldable mutual
    unfolding eval_column join

    pub eval_filter_on_batch : Batch → FilterExpr fl.F64 → Result (Error fl.F64) Mask
    eval_filter_on_batch batch (eq col v) = eval_column batch col v "eq"
    eval_filter_on_batch batch (ne col v) = eval_column batch col v "ne"
    eval_filter_on_batch batch (gt col v) = eval_column batch col v "gt"
    eval_filter_on_batch batch (gte col v) = eval_column batch col v "gte"
    eval_filter_on_batch batch (lt col v) = eval_column batch col v "lt"
    eval_filter_on_batch batch (lte col v) = eval_column batch col v "lte"
    eval_filter_on_batch batch (and xs) = do
      acc ← eval_children batch and_masks xs none
      ok_or acc empty_and
    eval_filter_on_batch batch (or xs) = do
      acc ← eval_children batch or_masks xs none
      ok_or acc empty_or

    -- The `for child in children`, with `acc`.
    pub eval_children :
        Batch
        → (Mask → Mask → Result Text Mask)
        → FilterExprs fl.F64
        → Option Mask
        → Result (Error fl.F64) (Option Mask)
    eval_children batch f nil acc = ok acc
    eval_children batch f (cons x xs) acc = do
      mask ← eval_filter_on_batch batch x
      joined ← join f acc mask
      eval_children batch f xs (some joined)
