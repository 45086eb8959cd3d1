-- ===== src/Compute/Eval/Covers.antt =====
-- The masks of `value_as_bool` and `eval_cmp`, bit by bit.
use mathlib.Core.Option
use ex_arrow.Prelude.{
  map_err-eq-ok, to_option, ℕ, ◌≡◌, refl, sym, ap, ap₂, ◌∙◌, ◌<◌, Bool, Option, none, some, ◌==◌,
  ok, ok_or, ok_or-eq-ok, Yields, Yields-ok, Yields-err, Yields-if, Yields-bind, arith,
}
use ex_arrow.Arrow.{Floats, DataType, Native}
use ex_arrow.Arrow.Kernels.{Kernels, Datum, whole, Cmp, lift₂}
use ex_arrow.Arrow.Laws.{KernelLaws}
use ex_arrow.Compute.{
  Op, eq, ne, gt, gte, lt, lte, ScalarValue, bool, not_boolean_column, mask_length, array_lengths,
  kernel,
}
use ex_arrow.Compute.Scalar.{make_scalar_array, infer_lit_compare_type}
use ex_arrow.Compute.Eval.{Value, array, lit, apply_cmp, scalar_datum, eval_cmp, value_as_bool}
use ex_arrow.Compute.Eval.Rows.{RowValue, column, constant, op_cmp, truth, flag, read, row_compare}

pub truth-flag : (fl : Floats) (t : Option Bool) → truth {fl = fl} (flag t) ≡ some t
truth-flag fl none = refl
truth-flag fl (some b) = refl

module _ {fl : Floats} {k : Kernels fl} (laws : KernelLaws k) where
  open laws use {cell, bit, native_cmp}

  abbrev pub value_at : ℕ → Value k → RowValue fl
  value_at i (array a) = column (k.data_type a) (cell a i)
  value_at i (lit s) = constant s

  abbrev pub IsSized : ℕ → Value k → Type 0
  IsSized n (array a) = k.array_len a ≡ n
  IsSized n (lit s) = Unit

  -- A mask of `n` bits that has the truths of a row-wise answer.
  abbrev pub Covers : ℕ → (ℕ → Option (Option Bool)) → k.Mask → Type 0
  Covers n at m = (k.mask_len m ≡ n) × ((i : ℕ) → i < n → at i ≡ some (bit m i))

  pub value_as_bool-Covers :
      (n : ℕ) (v : Value k)
      → IsSized n v
      → Yields (Covers n (λ i. truth (value_at i v))) (value_as_bool k v n)
  unfolding value_as_bool
  value_as_bool-Covers n (array a) sized =
      Yields-bind (ok_or (k.as_boolean a) (not_boolean_column (k.data_type a))) λ m h.
        Yields-if (k.mask_len m == n)
          (λ len. Yields-ok m (
            ground arith,
            λ i _.
                let is : k.as_boolean a ≡ some m =
                  ok_or-eq-ok (k.as_boolean a) (not_boolean_column (k.data_type a)) h in
                rw (laws.as_boolean-type a m is, laws.as_boolean-cell a m i is)
                  (truth-flag fl (bit m i)),
          ))
          (λ _. Yields-err (mask_length (k.mask_len m) n))
  value_as_bool-Covers n (lit (bool b)) sized =
      Yields-ok (k.fill b n) (laws.mask_len-fill b n, λ i h. ap some (sym (laws.bit-fill b n i h)))
  value_as_bool-Covers n (lit _) sized = Yields-err _

  -- A comparison that succeeds has run the kernel of its operator.
  abbrev Ran : Op → Datum k.Array → Datum k.Array → k.Mask → Type 0
  Ran op l r m = (c : Cmp) × (op_cmp op ≡ some c) × (k.compare c l r ≡ ok m)

  apply_cmp-Ran : (op : Op) (l r : Datum k.Array) → Yields (Ran op l r) (apply_cmp k op l r)
  unfolding apply_cmp
  apply_cmp-Ran eq l r = record {
    at = λ m h. (Cmp.eq, refl, map_err-eq-ok kernel (k.compare Cmp.eq l r) m h);
  }
  apply_cmp-Ran ne l r = record {
    at = λ m h. (Cmp.neq, refl, map_err-eq-ok kernel (k.compare Cmp.neq l r) m h);
  }
  apply_cmp-Ran gt l r = record {
    at = λ m h. (Cmp.gt, refl, map_err-eq-ok kernel (k.compare Cmp.gt l r) m h);
  }
  apply_cmp-Ran gte l r = record {
    at = λ m h. (Cmp.gt_eq, refl, map_err-eq-ok kernel (k.compare Cmp.gt_eq l r) m h);
  }
  apply_cmp-Ran lt l r = record {
    at = λ m h. (Cmp.lt, refl, map_err-eq-ok kernel (k.compare Cmp.lt l r) m h);
  }
  apply_cmp-Ran lte l r = record {
    at = λ m h. (Cmp.lt_eq, refl, map_err-eq-ok kernel (k.compare Cmp.lt_eq l r) m h);
  }
  apply_cmp-Ran _ l r = Yields-err _

  abbrev pub compare_rows : Op → Value k → Value k → ℕ → Option (Option Bool)
  compare_rows op l r i =
      Option.bind (op_cmp op) λ c. row_compare laws c (value_at i l) (value_at i r)

  scalar_datum-reads :
      (s : ScalarValue fl.F64) (dt : DataType)
      → Yields
          (λ d. (v : Native fl) × (read s dt ≡ some v) × (d ≡ Datum.scalar (k.one dt v)))
          (scalar_datum k s dt)
  unfolding scalar_datum
  scalar_datum-reads s dt =
      Yields-bind (make_scalar_array fl s dt)
        λ v h. Yields-ok (Datum.scalar (k.one dt v)) (v, ap to_option h, refl)

  pub eval_cmp-Covers :
      (n : ℕ) (l r : Value k) (op : Op)
      → IsSized n l
      → IsSized n r
      → Yields (Covers n (compare_rows op l r)) (eval_cmp k l r op n)
  unfolding eval_cmp Option.bind
  eval_cmp-Covers n (array l) (array r) op ln rn =
      Yields-if (k.array_len l == k.array_len r)
        (λ _. record {
          at = λ m h.
              let (c, is, ran) = (apply_cmp-Ran op (whole l) (whole r)).at m h in
              (
                laws.compare-len c (whole l) (whole r) m n ran (ln, rn),
                λ i lt. rw (is, laws.compare-bit c (whole l) (whole r) m n i ran (ln, rn) lt),
              );
        })
        (λ _. Yields-err (array_lengths (k.array_len l) (k.array_len r)))
  eval_cmp-Covers n (array l) (lit s) op ln rn =
      Yields-bind (scalar_datum k s (k.data_type l)) λ d made. record {
        at = λ m h.
            let (v, reads, is_one) = (scalar_datum-reads s (k.data_type l)).at d made in
            let one = Datum.scalar (k.one (k.data_type l) v) in
            let (c, is, ran) = (apply_cmp-Ran op (whole l) one).at m (rw (← is_one) h) in
            (
              laws.compare-len c (whole l) one m n ran ln,
              λ i lt.
                  rw (is, reads, laws.compare-bit c (whole l) one m n i ran ln lt, laws.cell-one),
            );
      }
  eval_cmp-Covers n (lit s) (array r) op ln rn =
      Yields-bind (scalar_datum k s (k.data_type r)) λ d made. record {
        at = λ m h.
            let (v, reads, is_one) = (scalar_datum-reads s (k.data_type r)).at d made in
            let one = Datum.scalar (k.one (k.data_type r) v) in
            let (c, is, ran) = (apply_cmp-Ran op one (whole r)).at m (rw (← is_one) h) in
            (
              laws.compare-len c one (whole r) m n ran rn,
              λ i lt.
                  rw (is, reads, laws.compare-bit c one (whole r) m n i ran rn lt, laws.cell-one),
            );
      }
  eval_cmp-Covers n (lit s) (lit s') op ln rn =
      Yields-bind (infer_lit_compare_type s s') λ dt inferred.
        Yields-bind (scalar_datum k s dt) λ d made. Yields-bind (scalar_datum k s' dt) λ d' made'.
          Yields-bind (apply_cmp k op d d') λ m h.
            let (v, reads, is_one) = (scalar_datum-reads s dt).at d made in
            let (v', reads', is_one') = (scalar_datum-reads s' dt).at d' made' in
            let (c, is, ran) = (apply_cmp-Ran op d d').at m h in
            let lone = λ (w : Native fl). Datum.scalar (k.one dt w) in
            let ones : k.compare c (lone v) (lone v') ≡ ok m = rw (is_one, is_one') at ran in
            let first : bit m 0 ≡ some (native_cmp c v v') =
              laws.compare-bit c (lone v) (lone v') m 1 0 ones refl (omega arith)
              ∙ ap₂ (lift₂ (native_cmp c)) (laws.cell-one dt v) (laws.cell-one dt v') in
            let b = k.mask_value m 0 in
            let inferred' : to_option (infer_lit_compare_type s s') ≡ some dt =
              ap to_option inferred in
            Yields-ok (k.fill b n) (
              laws.mask_len-fill b n,
              λ i lt. rw (
                is,
                inferred',
                reads,
                reads',
                laws.bit-fill b n i lt,
                laws.mask_value-bit m 0 (native_cmp c v v') first,
              ),
            )
