-- ===== src/Compute/Eval/Unpanicked.antt =====
-- Evaluation of a well-formed expression never panics: the arguments that it indexes are there, and
-- a comparison is only asked for the operators that have one.
use ex_arrow.Prelude.{
  ℕ, ◌<◌, ◌≡◌, refl, Bool, true, false, ◌==◌, Result, ◌>>=◌, ok_or, map_err, arith,
}
use ex_arrow.Beam.{Text, Rustler}
use ex_arrow.Arrow.{Floats, DataType}
use ex_arrow.Arrow.Kernels.{Kernels, Datum, whole}
use ex_arrow.Compute.{
  Op, eq, ne, gt, gte, lt, lte, and, or, not, ScalarValue, bool, Expr, field, scalar, call, nil,
  cons, Error, column_not_found, not_boolean_scalar, not_boolean_column, mask_length, array_lengths,
}
use ex_arrow.Compute.Panics.{
  Safe, Safe-ok, Safe-err, Safe-if, Safe-ok_or, Safe-kernel, Safe-bind, safe_rules,
}
use ex_arrow.Compute.Scalar.{make_scalar_array, infer_lit_compare_type}
use ex_arrow.Compute.Scalar.Unpanicked.{make_scalar_array-Safe, infer-Safe}
use ex_arrow.Compute.Decode.Encode.{op_arity, IsWellFormed}
use ex_arrow.Compute.Eval.{
  Value, array, lit, cmp_of, apply_cmp, scalar_datum, eval_cmp, value_as_bool, eval_both,
  eval_value, eval_to_bool, masked, compared,
}

abbrev is_cmp : Op → Bool
is_cmp and = false
is_cmp or = false
is_cmp not = false
is_cmp op = true

op_arity_positive : (op : Op) → 0 < op_arity op
op_arity_positive not = omega arith
op_arity_positive _ = omega arith

module _ {fl : Floats} (k : Kernels fl) where
  cmp_of-Safe : (op : Op) → is_cmp op ≡ true → Safe (cmp_of k op)
  unfolding cmp_of
  cmp_of-Safe and h = cc
  cmp_of-Safe or h = cc
  cmp_of-Safe not h = cc
  cmp_of-Safe eq h = search safe_rules
  cmp_of-Safe ne h = search safe_rules
  cmp_of-Safe gt h = search safe_rules
  cmp_of-Safe gte h = search safe_rules
  cmp_of-Safe lt h = search safe_rules
  cmp_of-Safe lte h = search safe_rules

  apply_cmp-Safe : (op : Op) (l r : Datum k.Array) → is_cmp op ≡ true → Safe (apply_cmp k op l r)
  unfolding apply_cmp
  apply_cmp-Safe op l r h =
      Safe-bind (cmp_of k op) (cmp_of-Safe op h) (λ c _. Safe-kernel (k.compare c l r))

  scalar_datum-Safe : (s : ScalarValue fl.F64) (dt : DataType) → Safe (scalar_datum k s dt)
  unfolding scalar_datum
  scalar_datum-Safe s dt =
      Safe-bind (make_scalar_array fl s dt) (make_scalar_array-Safe fl s dt)
        (λ v _. Safe-ok (Datum.scalar (k.one dt v)))

  eval_cmp-Safe : (l r : Value k) (op : Op) (n : ℕ) → is_cmp op ≡ true → Safe (eval_cmp k l r op n)
  unfolding eval_cmp
  eval_cmp-Safe (array l) (array r) op n h =
      Safe-if (k.array_len l == k.array_len r) (apply_cmp-Safe op (whole l) (whole r) h)
        (Safe-err (array_lengths (k.array_len l) (k.array_len r)) refl)
  eval_cmp-Safe (array l) (lit s) op n h =
      Safe-bind (scalar_datum k s (k.data_type l)) (scalar_datum-Safe s (k.data_type l))
        (λ d _. apply_cmp-Safe op (whole l) d h)
  eval_cmp-Safe (lit s) (array r) op n h =
      Safe-bind (scalar_datum k s (k.data_type r)) (scalar_datum-Safe s (k.data_type r))
        (λ d _. apply_cmp-Safe op d (whole r) h)
  eval_cmp-Safe (lit s) (lit t) op n h =
      Safe-bind (infer_lit_compare_type s t) (infer-Safe s t) λ dt _.
        Safe-bind (scalar_datum k s dt) (scalar_datum-Safe s dt) λ l _.
          Safe-bind (scalar_datum k t dt) (scalar_datum-Safe t dt) λ r _.
            Safe-bind (apply_cmp k op l r) (apply_cmp-Safe op l r h)
              λ m _. Safe-ok (k.fill (k.mask_value m 0) n)

  value_as_bool-Safe : (v : Value k) (n : ℕ) → Safe (value_as_bool k v n)
  unfolding value_as_bool
  value_as_bool-Safe (array a) n =
      Safe-bind (ok_or (k.as_boolean a) (not_boolean_column (k.data_type a)))
        (Safe-ok_or (k.as_boolean a) (not_boolean_column (k.data_type a)) refl)
        (λ b _.
          Safe-if (k.mask_len b == n) (Safe-ok b) (Safe-err (mask_length (k.mask_len b) n) refl))
  value_as_bool-Safe (lit (bool b)) n = Safe-ok (k.fill b n)
  value_as_bool-Safe (lit s) n = Safe-err (not_boolean_scalar s) refl

  masked-Safe : (r : Result Text k.Mask) → Safe (masked k r)
  masked-Safe r = Safe-bind (map_err _ r) (Safe-kernel r) (λ m _. Safe-ok (array (k.of_boolean m)))

  module _ (r : Rustler fl.F64) (batch : k.Batch) where
    both-Safe :
        (f : k.Mask → k.Mask → Result Text k.Mask) (left right : Result (Error fl.F64) (Value k))
        → Safe left
        → Safe right
        → Safe (eval_both k batch f left right)
    unfolding eval_both
    both-Safe f left right hl hr = Safe-bind left hl λ v _.
        Safe-bind (value_as_bool k v _) (value_as_bool-Safe v _) λ p _.
          Safe-bind right hr λ w _.
            Safe-bind (value_as_bool k w _) (value_as_bool-Safe w _) λ q _. masked-Safe (f p q)

    cmp-Safe :
        (op : Op) (left right : Result (Error fl.F64) (Value k))
        → is_cmp op ≡ true
        → Safe left
        → Safe right
        → Safe (left >>= λ l. right >>= λ w. compared k (eval_cmp k l w op (k.num_rows batch)))
    cmp-Safe op left right h hl hr = Safe-bind left hl λ v _. Safe-bind right hr λ w _.
        Safe-bind (eval_cmp k v w op _) (eval_cmp-Safe v w op _ h)
          λ m _. Safe-ok (array (k.of_boolean m))

    eval_value-Safe : (e : Expr fl.F64) → IsWellFormed r e → Safe (eval_value k batch e)
    unfolding eval_value
    eval_value-Safe (field name) h =
        Safe-bind (ok_or (k.column_by_name batch name) (column_not_found name))
          (Safe-ok_or (k.column_by_name batch name) (column_not_found name) refl)
          (λ c _. Safe-ok (array c))
    eval_value-Safe (scalar s) h = Safe-ok (lit s)
    eval_value-Safe (call not (cons a rest)) h =
        let inner = eval_value-Safe a h.1.0 in
        Safe-bind (eval_value k batch a) inner λ v _.
          Safe-bind (value_as_bool k v _) (value_as_bool-Safe v _) λ p _. masked-Safe (k.not_mask p)
    eval_value-Safe (call and (cons a (cons b rest))) h =
        both-Safe k.and_masks (eval_value k batch a) (eval_value k batch b)
          (eval_value-Safe a h.1.0) (eval_value-Safe b h.1.1.0)
    eval_value-Safe (call or (cons a (cons b rest))) h =
        both-Safe k.or_masks (eval_value k batch a) (eval_value k batch b) (eval_value-Safe a h.1.0)
          (eval_value-Safe b h.1.1.0)
    eval_value-Safe (call op (cons a (cons b rest))) h =
        cmp-Safe op (eval_value k batch a) (eval_value k batch b) refl (eval_value-Safe a h.1.0)
          (eval_value-Safe b h.1.1.0)
    eval_value-Safe (call op (cons a nil)) h = absurd (let short = h.0 in omega arith)
    eval_value-Safe (call op nil) h =
        absurd (let short = h.0 in omega (arith, op_arity_positive op))

    pub eval_to_bool-Safe : (e : Expr fl.F64) → IsWellFormed r e → Safe (eval_to_bool k batch e)
    unfolding eval_to_bool
    eval_to_bool-Safe e h =
        Safe-bind (eval_value k batch e) (eval_value-Safe e h) (λ v _. value_as_bool-Safe v _)
