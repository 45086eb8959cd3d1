-- ===== src/Parquet/Rows.antt =====
-- The reference for filters: the truth of a filter at one row. A row gives each column that it has
-- a type and a cell; `some none` is a null, and `none` is a filter that has no truth there.
use mathlib.Core.Option
use ex_arrow.Prelude.{Bool, true, false, ◌&&◌, ◌||◌, Option, none, some, to_option}
use ex_arrow.Beam.{Text}
use ex_arrow.Arrow.{Floats, DataType, Native}
use ex_arrow.Arrow.Kernels.{Cmp, lift₂}
use ex_arrow.Parquet.{
  FilterValue, FilterExpr, FilterExprs, eq, ne, gt, gte, lt, lte, and, or, nil, cons,
}
use ex_arrow.Parquet.Filter.{make_scalar}

abbrev pub Row : Floats → Type 0
Row fl = Text → Option (DataType × Option (Native fl))

-- Two truths that may be missing.
abbrev pub combine :
    (Bool → Bool → Bool) → Option (Option Bool) → Option (Option Bool) → Option (Option Bool)
combine f (some a) (some b) = some (lift₂ f a b)
combine f _ _ = none

module _ {fl : Floats} (native_cmp : Cmp → Native fl → Native fl → Bool) (row : Row fl) where
  abbrev pub row_compare : Cmp → Text → FilterValue fl.F64 → Option (Option Bool)
  row_compare c col v = Option.bind (row col) λ entry.
      Option.map (λ w. lift₂ (native_cmp c) entry.1 (some w)) (to_option (make_scalar fl v entry.0))

  unfoldable mutual
    pub row_truth : FilterExpr fl.F64 → Option (Option Bool)
    row_truth (eq col v) = row_compare Cmp.eq col v
    row_truth (ne col v) = row_compare Cmp.neq col v
    row_truth (gt col v) = row_compare Cmp.gt col v
    row_truth (gte col v) = row_compare Cmp.gt_eq col v
    row_truth (lt col v) = row_compare Cmp.lt col v
    row_truth (lte col v) = row_compare Cmp.lt_eq col v
    row_truth (and xs) = row_every xs
    row_truth (or xs) = row_some xs

    pub row_every : FilterExprs fl.F64 → Option (Option Bool)
    row_every nil = some (some true)
    row_every (cons x xs) = combine ◌&&◌ (row_truth x) (row_every xs)

    pub row_some : FilterExprs fl.F64 → Option (Option Bool)
    row_some nil = some (some false)
    row_some (cons x xs) = combine ◌||◌ (row_truth x) (row_some xs)
