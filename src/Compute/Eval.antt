-- ===== src/Compute/Eval.antt =====
-- compute.rs: `eval_to_bool`, `eval_value`, `value_as_bool`, `eval_cmp` and `apply_cmp_dyn`: an
-- expression is evaluated a column at a time, and literals stay scalars until they meet a column.
-- A numbered argument is `args[0]`, `args[1]`; `index_panic` where there is none.
pub mod Rows
pub mod Covers
pub mod Steps
pub mod Correct
pub mod Unpanicked
use ex_arrow.Prelude.{
  ℕ, Bool, true, false, Option, none, some, ◌==◌, if◌then◌else◌, Result, ok, err, ◌>>=◌, ok_or,
  map_err,
}
use ex_arrow.Beam.{Text}
use ex_arrow.Arrow.{Floats, DataType}
use ex_arrow.Arrow.Kernels.{Kernels, Datum, whole, Cmp}
use ex_arrow.Compute.{
  Op, eq, ne, gt, gte, lt, lte, and, or, not, ScalarValue, bool, Expr, Exprs, field, scalar, call,
  nil, cons, Error, column_not_found, not_boolean_column, not_boolean_scalar, mask_length,
  array_lengths, kernel, index_panic, unreachable_op,
}
use ex_arrow.Compute.Scalar.{make_scalar_array, infer_lit_compare_type}

pub data Value {fl : Floats} (k : Kernels fl) : Type 0 where
  array : k.Array → Value k
  lit : ScalarValue fl.F64 → Value k

module _ {fl : Floats} (k : Kernels fl) where
  open k use {
    Array, Mask, Batch, data_type, array_len, one, as_boolean, of_boolean, mask_len, mask_value,
    fill, compare, and_masks, or_masks, not_mask, num_rows, column_by_name,
  }

  abbrev pub Eval : Type 0 → Type 0
  Eval A = Result (Error fl.F64) A

  -- The arms of each `match op` that calls a function of `arrow_ord::cmp`.
  unfoldable pub cmp_of : Op → Eval Cmp
  cmp_of eq = ok Cmp.eq
  cmp_of ne = ok Cmp.neq
  cmp_of gt = ok Cmp.gt
  cmp_of gte = ok Cmp.gt_eq
  cmp_of lt = ok Cmp.lt
  cmp_of lte = ok Cmp.lt_eq
  cmp_of op = err (unreachable_op op)

  apply_cmp : Op → Datum Array → Datum Array → Eval Mask
  unfolding cmp_of
  apply_cmp op l r = do c ← cmp_of op; map_err kernel (compare c l r)

  -- `Scalar::new(make_scalar_array(..)?)`
  scalar_datum : ScalarValue fl.F64 → DataType → Eval (Datum Array)
  scalar_datum s dt = do v ← make_scalar_array fl s dt; ok (Datum.scalar (one dt v))

  unfoldable pub eval_cmp : Value k → Value k → Op → ℕ → Eval Mask
  unfolding apply_cmp scalar_datum
  eval_cmp (array l) (array r) op len =
      if array_len l == array_len r
      then apply_cmp op (whole l) (whole r)
      else err (array_lengths (array_len l) (array_len r))
  eval_cmp (array l) (lit s) op len = do r ← scalar_datum s (data_type l); apply_cmp op (whole l) r
  eval_cmp (lit s) (array r) op len = do l ← scalar_datum s (data_type r); apply_cmp op l (whole r)
  eval_cmp (lit l) (lit r) op len = do
    dt ← infer_lit_compare_type l r
    ls ← scalar_datum l dt
    rs ← scalar_datum r dt
    single ← apply_cmp op ls rs
    ok (fill (mask_value single 0) len)

  unfoldable pub value_as_bool : Value k → ℕ → Eval Mask
  value_as_bool (array a) len = do
    b ← ok_or (as_boolean a) (not_boolean_column (data_type a))
    if mask_len b == len then ok b else err (mask_length (mask_len b) len)
  value_as_bool (lit (bool b)) len = ok (fill b len)
  value_as_bool (lit s) len = err (not_boolean_scalar s)

  -- `.map_err(..).map(|a| Value::Array(Arc::new(a)))`
  abbrev pub masked : Result Text Mask → Eval (Value k)
  masked r = do m ← map_err kernel r; ok (array (of_boolean m))

  abbrev pub compared : Eval Mask → Eval (Value k)
  compared r = do m ← r; ok (array (of_boolean m))

  module _ (batch : Batch) where
    -- `value_as_bool(left, ..)?` and `value_as_bool(right, ..)?`, then the kernel
    pub eval_both :
        (Mask → Mask → Result Text Mask) → Eval (Value k) → Eval (Value k) → Eval (Value k)
    unfolding value_as_bool
    eval_both f left right = do
      l ← left
      p ← value_as_bool l (num_rows batch)
      r ← right
      q ← value_as_bool r (num_rows batch)
      masked (f p q)

    unfoldable pub eval_value : Expr fl.F64 → Eval (Value k)
    unfolding eval_both eval_cmp
    eval_value (field name) = do
      column ← ok_or (column_by_name batch name) (column_not_found name)
      ok (array column)
    eval_value (scalar s) = ok (lit s)
    eval_value (call not (cons a rest)) = do
      v ← eval_value a
      p ← value_as_bool v (num_rows batch)
      masked (not_mask p)
    eval_value (call and (cons a (cons b rest))) = eval_both and_masks (eval_value a) (eval_value b)
    eval_value (call or (cons a (cons b rest))) = eval_both or_masks (eval_value a) (eval_value b)
    eval_value (call op (cons a (cons b rest))) = do
      l ← eval_value a
      r ← eval_value b
      compared (eval_cmp l r op (num_rows batch))
    eval_value (call and (cons a nil)) = eval_both and_masks (eval_value a) (err index_panic)
    eval_value (call or (cons a nil)) = eval_both or_masks (eval_value a) (err index_panic)
    eval_value (call op (cons a nil)) = eval_value a >>= λ l. err index_panic
    eval_value (call op nil) = err index_panic

    unfoldable pub eval_to_bool : Expr fl.F64 → Eval Mask
    unfolding eval_value
    eval_to_bool e = do v ← eval_value e; value_as_bool v (num_rows batch)
