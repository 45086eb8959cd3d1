-- ===== src/Compute/Eval/Rows.antt =====
-- The reference for `Eval`: an expression evaluated at one row, with no arrays, masks or lengths.
-- A row holds a value of a column, with the column's type, or a literal; `none` is an expression
-- that has no value.
use mathlib.Core.Option
use ex_arrow.Prelude.{to_option, ℕ, Bool, not, ◌&&◌, ◌||◌, Option, none, some}
use ex_arrow.Arrow.{Floats, DataType, boolean, Native, bool_value}
use ex_arrow.Arrow.Kernels.{Kernels, Cmp, lift₂}
use ex_arrow.Arrow.Laws.{KernelLaws}
use ex_arrow.Compute.{
  Op, eq, ne, gt, gte, lt, lte, and, or, not as negate, ScalarValue, bool, Expr, field, scalar,
  call, cons,
}
use ex_arrow.Compute.Scalar.{make_scalar_array, infer_lit_compare_type}

pub data RowValue (fl : Floats) : Type 0 where
  column : DataType → Option (Native fl) → RowValue fl
  constant : ScalarValue fl.F64 → RowValue fl

abbrev pub op_cmp : Op → Option Cmp
op_cmp eq = some Cmp.eq
op_cmp ne = some Cmp.neq
op_cmp gt = some Cmp.gt
op_cmp gte = some Cmp.gt_eq
op_cmp lt = some Cmp.lt
op_cmp lte = some Cmp.lt_eq
op_cmp _ = none

module _ {fl : Floats} where
  -- The truth of a boolean value: `some none` is a null.
  abbrev pub truth : RowValue fl → Option (Option Bool)
  truth (column boolean none) = some none
  truth (column boolean (some (bool_value b))) = some (some b)
  truth (constant (bool b)) = some (some b)
  truth _ = none

  abbrev pub flag : Option Bool → RowValue fl
  flag t = column boolean (Option.map bool_value t)

  -- A literal, read at a type.
  abbrev pub read : ScalarValue fl.F64 → DataType → Option (Native fl)
  read s dt = to_option (make_scalar_array fl s dt)

module _ {fl : Floats} {k : Kernels fl} (laws : KernelLaws k) where
  open laws use {cell, native_cmp}

  abbrev pub row_compare : Cmp → RowValue fl → RowValue fl → Option (Option Bool)
  row_compare c (column dt x) (column dt' y) = some (lift₂ (native_cmp c) x y)
  row_compare c (column dt x) (constant s) =
      Option.map (λ v. lift₂ (native_cmp c) x (some v)) (read s dt)
  row_compare c (constant s) (column dt y) =
      Option.map (λ v. lift₂ (native_cmp c) (some v) y) (read s dt)
  row_compare c (constant s) (constant s') =
      Option.bind (to_option (infer_lit_compare_type s s'))
        λ dt. Option.bind (read s dt) λ v. Option.map (λ v'. some (native_cmp c v v')) (read s' dt)

  module _ (batch : k.Batch) (i : ℕ) where
    abbrev pub row_both :
        (Bool → Bool → Bool) → Option (RowValue fl) → Option (RowValue fl) → Option (RowValue fl)
    row_both f left right =
        Option.bind (Option.bind left truth)
          λ p. Option.map (λ q. flag (lift₂ f p q)) (Option.bind right truth)

    pub row_op : Op → Option (RowValue fl) → Option (RowValue fl) → Option (RowValue fl)
    row_op and left right = row_both ◌&&◌ left right
    row_op or left right = row_both ◌||◌ left right
    row_op op left right =
        Option.bind (op_cmp op)
          λ c. Option.bind left λ x. Option.bind right λ y. Option.map flag (row_compare c x y)

    unfoldable pub row_value : Expr fl.F64 → Option (RowValue fl)
    unfolding row_op
    row_value (field name) =
        Option.map (λ a. column (k.data_type a) (cell a i)) (k.column_by_name batch name)
    row_value (scalar s) = some (constant s)
    row_value (call negate (cons a rest)) =
        Option.map (λ t. flag (Option.map not t)) (Option.bind (row_value a) truth)
    row_value (call op (cons a (cons b rest))) = row_op op (row_value a) (row_value b)
    row_value (call op _) = none

    unfoldable pub row_truth : Expr fl.F64 → Option (Option Bool)
    unfolding row_value
    row_truth e = Option.bind (row_value e) truth
