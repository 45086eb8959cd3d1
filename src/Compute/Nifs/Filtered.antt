-- ===== src/Compute/Nifs/Filtered.antt =====
-- The rows that the filter keeps.
use ex_arrow.Prelude.{
  map_err-eq-ok, ℕ, suc, ◌<◌, ◌≡◌, refl, sym, ap, ap₂, ◌∙◌, Bool, Option, none, some, List, [], ◌∷◌,
  length, ok, err, false, ◌>>=◌, map_err, >>=-eq-ok, arith,
}
use ex_arrow.Beam.{Term, IsProper, Rustler, RustlerLaws}
use ex_arrow.Arrow.{Floats}
use ex_arrow.Arrow.Kernels.{Kernels}
use ex_arrow.Arrow.Laws.{KernelLaws, keep_rows, keep_if}
use ex_arrow.Compute.{Expr, Error, kernel}
use ex_arrow.Compute.Decode.{decode_expr}
use ex_arrow.Compute.Eval.{eval_to_bool}
use ex_arrow.Compute.Eval.Rows.{row_truth}
use ex_arrow.Compute.Eval.Correct.{eval_to_bool-Covers}
use ex_arrow.Compute.Nifs.{compute_filter_expr, compute_filter}
use ex_arrow.Compute.Panics.{is_panic, Safe-bind, Safe-kernel}
use ex_arrow.Compute.Decode.Checked.{decode_expr-IsWellFormed}
use ex_arrow.Compute.Decode.Unpanicked.{decode_expr-Safe}
use ex_arrow.Compute.Eval.Unpanicked.{eval_to_bool-Safe}

-- A row is kept when the expression is true of it: not when it is false, null or has no value.
abbrev pub verdict : Option (Option Bool) → Option Bool
verdict (some t) = t
verdict none = none

keep_rows-ext :
    {A : Type 0} (xs : List A) (p q : ℕ → Option Bool)
    → ((i : ℕ) → i < length xs → p i ≡ q i)
    → keep_rows xs p ≡ keep_rows xs q
keep_rows-ext [] p q h = refl
keep_rows-ext (x ∷ xs) p q h =
    let ih = keep_rows-ext xs (λ i. p (suc i)) (λ i. q (suc i)) (λ i lt. h (suc i) (omega arith)) in
    let first = h 0 (omega arith) in ap₂ (λ b rest. keep_if b x rest) first ih

-- Filtering by an expression sent from Elixir returns exactly the rows at which the decoded
-- expression, evaluated at that row alone, is true, in their order.
pub compute_filter_expr-rows :
    {fl : Floats} {k : Kernels fl} (laws : KernelLaws k) (r : Rustler fl.F64) (batch out : k.Batch)
    (t : Term fl.F64)
    → compute_filter_expr k r batch t ≡ ok out
    → (e : Expr fl.F64) × (decode_expr r t ≡ ok e)
      × (laws.rows out ≡ keep_rows (laws.rows batch) (λ i. verdict (row_truth laws batch i e)))
compute_filter_expr-rows {k = k} laws r batch out t h =
    let (e, decoded, more) =
      >>=-eq-ok (decode_expr r t)
        (λ e. eval_to_bool k batch e >>= λ m. map_err kernel (k.filter_record_batch batch m))
        {out = out} (unfold compute_filter_expr in h) in
    let (m, evaluated, filtered) =
      >>=-eq-ok (eval_to_bool k batch e) (λ m. map_err kernel (k.filter_record_batch batch m))
        more in
    let (len, bits) = (eval_to_bool-Covers laws batch e).at m evaluated in
    let kept =
      laws.filter-rows batch out m
        (map_err-eq-ok kernel (k.filter_record_batch batch m) out filtered) len in
    (
      e,
      decoded,
      kept
          ∙ keep_rows-ext (laws.rows batch) (laws.bit m) (λ i. verdict (row_truth laws batch i e))
              (λ i lt. sym (ap verdict (bits i (rw (laws.rows-len batch) at lt)))),
    )

-- No term without improper lists makes the filter panic: whatever fails, in decoding, in evaluation or in
-- the kernel, fails with a message, and neither an index out of range, nor an `unreachable!`, nor the end
-- of an improper list is met.
pub compute_filter_expr-is_panic :
    {fl : Floats} (k : Kernels fl) (r : Rustler fl.F64) (laws : RustlerLaws r) (batch : k.Batch)
    (t : Term fl.F64) (e : Error fl.F64)
    → IsProper t
    → compute_filter_expr k r batch t ≡ err e
    → is_panic e ≡ false
unfolding compute_filter_expr
compute_filter_expr-is_panic k r laws batch t e proper h =
    let safe = Safe-bind (decode_expr r t) (decode_expr-Safe r t proper) λ d decoded.
      Safe-bind (eval_to_bool k batch d)
        (eval_to_bool-Safe k r batch d (decode_expr-IsWellFormed r laws t d decoded))
        λ m _. Safe-kernel (k.filter_record_batch batch m) in
    safe.at e h

-- A batch filtered by the first column of a predicate batch of as many rows has exactly the rows at
-- which that column is true, in their order.
pub compute_filter-rows :
    {fl : Floats} {k : Kernels fl} (laws : KernelLaws k) (batch predicate out : k.Batch)
    (column : k.Array) (mask : k.Mask) (rest : List k.Array)
    → k.columns predicate ≡ column ∷ rest
    → k.as_boolean column ≡ some mask
    → k.array_len column ≡ k.num_rows batch
    → compute_filter k batch predicate ≡ ok out
    → laws.rows out ≡ keep_rows (laws.rows batch) (laws.bit mask)
unfolding compute_filter
compute_filter-rows {k = k} laws batch predicate out column mask rest has is_mask size h =
    let filtered : map_err kernel (k.filter_record_batch batch mask) ≡ ok out =
      rw (has, is_mask) at h in
    laws.filter-rows batch out mask
      (map_err-eq-ok kernel (k.filter_record_batch batch mask) out filtered)
      (laws.as_boolean-len column mask is_mask ∙ size)
