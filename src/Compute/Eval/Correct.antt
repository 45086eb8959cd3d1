-- ===== src/Compute/Eval/Correct.antt =====
-- Column-at-a-time evaluation agrees with evaluation at each row.
use ex_arrow.Prelude.{
  ℕ, ◌≡◌, refl, ◌<◌, ◌&&◌, ◌||◌, some, Result, ok, err, ◌>>=◌, ok_or, ok_or-eq-ok, Yields,
  Yields-ok, Yields-err, Yields-bind,
}
use ex_arrow.Beam.{Text}
use ex_arrow.Arrow.{Floats}
use ex_arrow.Arrow.Kernels.{Kernels}
use ex_arrow.Arrow.Laws.{KernelLaws}
use ex_arrow.Compute.{
  Op, and, or, not as negate, Expr, field, scalar, call, nil, cons, column_not_found, index_panic,
}
use ex_arrow.Compute.Eval.{Value, array, lit, value_as_bool, eval_both, eval_value, eval_to_bool}
use ex_arrow.Compute.Eval.Rows.{row_value, row_truth}
use ex_arrow.Compute.Eval.Covers.{Covers}
use ex_arrow.Compute.Eval.Steps.{n, Tracks, Kernel, as_mask, both-Tracks, not-Tracks, cmp-Tracks}

module _ {fl : Floats} {k : Kernels fl} (laws : KernelLaws k) (batch : k.Batch) where
  open laws use {bit}

  and-Kernel : Kernel laws batch ◌&&◌ k.and_masks
  and-Kernel p q m h hp hq =
      (laws.and_masks-len p q m (n laws batch) h hp hq, λ i. laws.and_masks-bit p q m i h)

  or-Kernel : Kernel laws batch ◌||◌ k.or_masks
  or-Kernel p q m h hp hq =
      (laws.or_masks-len p q m (n laws batch) h hp hq, λ i. laws.or_masks-bit p q m i h)

  abbrev Agrees : Expr fl.F64 → Value k → Type 0
  Agrees e = Tracks laws batch (λ i. row_value laws batch i e)

  -- An operator that has run out of arguments never returns.
  panics :
      (op : Op) (a : Expr fl.F64)
      → Yields (Agrees (call op (cons a nil))) (eval_value k batch a >>= λ l. err index_panic)
  panics op a = Yields-bind (eval_value k batch a) (λ l _. Yields-err index_panic)

  both_panics :
      (op : Op) (a : Expr fl.F64) (run : k.Mask → k.Mask → Result Text k.Mask)
      → Yields
          (Agrees (call op (cons a nil)))
          (eval_both k batch run (eval_value k batch a) (err index_panic))
  unfolding eval_both
  both_panics op a run =
      Yields-bind (eval_value k batch a)
        λ l _. Yields-bind (value_as_bool k l (n laws batch)) (λ p _. Yields-err index_panic)

  eval_value-Agrees : (e : Expr fl.F64) → Yields (Agrees e) (eval_value k batch e)
  unfolding eval_value row_value
  eval_value-Agrees (field name) =
      Yields-bind (ok_or (k.column_by_name batch name) (column_not_found name)) λ a h.
        let is = ok_or-eq-ok (k.column_by_name batch name) (column_not_found name) h in
        Yields-ok (array a) (laws.column-len batch name a is, λ i lt. rw is)
  eval_value-Agrees (scalar s) = Yields-ok (lit s) (tt, λ i lt. refl)
  eval_value-Agrees (call negate (cons a rest)) =
      not-Tracks laws batch (eval_value k batch a) (λ i. row_value laws batch i a)
        (eval_value-Agrees a)
  eval_value-Agrees (call and (cons a (cons b rest))) =
      both-Tracks laws batch ◌&&◌ k.and_masks (eval_value k batch a) (eval_value k batch b)
        (λ i. row_value laws batch i a) (λ i. row_value laws batch i b) and-Kernel
        (eval_value-Agrees a) (eval_value-Agrees b)
  eval_value-Agrees (call or (cons a (cons b rest))) =
      both-Tracks laws batch ◌||◌ k.or_masks (eval_value k batch a) (eval_value k batch b)
        (λ i. row_value laws batch i a) (λ i. row_value laws batch i b) or-Kernel
        (eval_value-Agrees a) (eval_value-Agrees b)
  eval_value-Agrees (call op (cons a (cons b rest))) =
      cmp-Tracks laws batch op (eval_value k batch a) (eval_value k batch b)
        (λ i. row_value laws batch i a) (λ i. row_value laws batch i b) (eval_value-Agrees a)
        (eval_value-Agrees b)
  eval_value-Agrees (call and (cons a nil)) = both_panics and a k.and_masks
  eval_value-Agrees (call or (cons a nil)) = both_panics or a k.or_masks
  eval_value-Agrees (call op (cons a nil)) = panics op a
  eval_value-Agrees (call op nil) = Yields-err index_panic

  pub eval_to_bool-Covers :
      (e : Expr fl.F64)
      → Yields (Covers laws (n laws batch) (λ i. row_truth laws batch i e)) (eval_to_bool k batch e)
  unfolding eval_to_bool row_truth
  eval_to_bool-Covers e =
      Yields-bind (eval_value k batch e)
        λ v h. as_mask laws batch (λ i. row_value laws batch i e) v ((eval_value-Agrees e).at v h)

-- A mask that a filter expression evaluates to has one bit for each row of the batch, and the bit
-- of a row below their number is the truth, null included, that the expression has when it is
-- evaluated at that row alone.
pub eval_to_bool-rows :
    {fl : Floats} {k : Kernels fl} (laws : KernelLaws k) (batch : k.Batch) (e : Expr fl.F64)
    (m : k.Mask) (i : ℕ)
    → eval_to_bool k batch e ≡ ok m
    → i < k.num_rows batch
    → (k.mask_len m ≡ k.num_rows batch) × (row_truth laws batch i e ≡ some (laws.bit m i))
eval_to_bool-rows laws batch e m i h lt =
    let (len, bits) = (eval_to_bool-Covers laws batch e).at m h in (len, bits i lt)
