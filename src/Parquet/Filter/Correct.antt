-- ===== src/Parquet/Filter/Correct.antt =====
-- `eval_filter_on_batch` against the truth of the filter at each row.
use mathlib.Core.Option
use ex_arrow.Prelude.{
  ℕ, ◌<◌, ◌≡◌, refl, sym, ap, ◌∙◌, Bool, true, false, ◌&&◌, ◌||◌, String, Option, none, some,
  Result, ok, ◌>>=◌, ok_or, ok_or-eq-ok, map_err-eq-ok, to_option, Yields, Yields-ok, Yields-err,
  Yields-bind, Yields-ok_or, >>=-eq-ok, arith,
}
use ex_arrow.Beam.{Text}
use ex_arrow.Arrow.{Floats}
use ex_arrow.Arrow.Kernels.{Kernels, Datum, whole, Cmp, lift₂}
use ex_arrow.Arrow.Laws.{KernelLaws}
use ex_arrow.Parquet.{
  FilterValue, FilterExpr, FilterExprs, eq, ne, gt, gte, lt, lte, and, or, nil, cons, Error,
  column_not_found, empty_and, empty_or, kernel,
}
use ex_arrow.Parquet.Filter.{
  make_scalar, eval_cmp, eval_column, join, named_cmp, eval_filter_on_batch, eval_children,
}
use ex_arrow.Parquet.Filter.Combine.{combine_assoc, combine-unit}
use ex_arrow.Parquet.Rows.{Row, combine, row_compare, row_truth, row_every, row_some}

module _ {fl : Floats} {k : Kernels fl} (laws : KernelLaws k) (batch : k.Batch) where
  open laws use {bit, cell, native_cmp}

  -- A row of the batch.
  abbrev pub row_at : ℕ → Row fl
  row_at i col = Option.map (λ a. (k.data_type a, cell a i)) (k.column_by_name batch col)

  abbrev n : ℕ
  n = k.num_rows batch

  -- The mask of a truth at each row.
  abbrev Masks : (ℕ → Option (Option Bool)) → k.Mask → Type 0
  Masks truth m = (k.mask_len m ≡ n) × ((i : ℕ) → i < n → truth i ≡ some (bit m i))

  column-Masks :
      (col : Text) (v : FilterValue fl.F64) (op : String) (c : Cmp)
      → named_cmp k op ≡ ok c
      → Yields
          (Masks (λ i. row_compare native_cmp (row_at i) c col v))
          (eval_column k batch col v op)
  unfolding eval_column eval_cmp Option.bind
  column-Masks col v op c named =
      Yields-bind (ok_or (k.column_by_name batch col) (column_not_found col)) λ a h.
        let found = ok_or-eq-ok (k.column_by_name batch col) (column_not_found col) h in
        Yields-bind (make_scalar fl v (k.data_type a)) λ w made.
          Yields-bind (named_cmp k op) λ c' is.
            let same : c ≡ c' = cc in
            let one = Datum.scalar (k.one (k.data_type a) w) in
            record {
              at = λ m ran.
                  let done = map_err-eq-ok kernel (k.compare c' (whole a) one) m ran in
                  let len = laws.column-len batch col a found in
                  let reads : to_option (make_scalar fl v (k.data_type a)) ≡ some w =
                    ap to_option made in
                  (
                    laws.compare-len c' (whole a) one m n done len,
                    λ i lt. rw (
                      found,
                      reads,
                      same,
                      laws.compare-bit c' (whole a) one m n i done len lt,
                      laws.cell-one,
                    ),
                  );
            }

  abbrev Junction : (Bool → Bool → Bool) → (k.Mask → k.Mask → Result Text k.Mask) → Type 0
  Junction f run =
      (p q m : k.Mask)
      → run p q ≡ ok m
      → k.mask_len p ≡ n
      → k.mask_len q ≡ n
      → (k.mask_len m ≡ n) × ((i : ℕ) → bit m i ≡ lift₂ f (bit p i) (bit q i))

  -- The accumulator of the loop over the children, once it holds a mask.
  abbrev Holds : (ℕ → Option (Option Bool)) → Option k.Mask → Type 0
  Holds truth acc = (m : k.Mask) × (acc ≡ some m) × Masks truth m

  joined-Masks :
      (f : Bool → Bool → Bool) (run : k.Mask → k.Mask → Result Text k.Mask)
      (p q : ℕ → Option (Option Bool)) (prev mask : k.Mask)
      → Junction f run
      → Masks p prev
      → Masks q mask
      → Yields (Masks (λ i. combine f (p i) (q i))) (join k run (some prev) mask)
  unfolding join
  joined-Masks f run p q prev mask law (plen, pbits) (qlen, qbits) = record {
    at = λ m h.
        let (len, bits) = law prev mask m (map_err-eq-ok kernel (run prev mask) m h) plen qlen in
        (len, λ i lt. rw (pbits i lt, qbits i lt, bits i));
  }

  and-Junction : Junction ◌&&◌ k.and_masks
  and-Junction p q m h hp hq =
      (laws.and_masks-len p q m n h hp hq, λ i. laws.and_masks-bit p q m i h)

  or-Junction : Junction ◌||◌ k.or_masks
  or-Junction p q m h hp hq = (laws.or_masks-len p q m n h hp hq, λ i. laws.or_masks-bit p q m i h)

  abbrev Fold : Type 0
  Fold = ℕ → FilterExprs fl.F64 → Option (Option Bool)

  -- The truth of a list of children under a junction.
  record Folds (f : Bool → Bool → Bool) (unit : Bool) (fold : Fold) : Type 0 where
    right_unit : (a : Bool) → f a unit ≡ a
    assoc : (a b c : Bool) → f (f a b) c ≡ f a (f b c)
    fold_nil : (i : ℕ) → fold i nil ≡ some (some unit)
    fold_cons :
        (i : ℕ) (x : FilterExpr fl.F64) (xs : FilterExprs fl.F64)
        → fold i (cons x xs) ≡ combine f (row_truth native_cmp (row_at i) x) (fold i xs)

  every-Folds : Folds ◌&&◌ true (λ i. row_every native_cmp (row_at i))
  unfolding row_every
  every-Folds = record {
    right_unit = λ a. ground arith;
    assoc = λ a b c. ground arith;
    fold_nil = λ i. refl;
    fold_cons = λ i x xs. refl;
  }

  some-Folds : Folds ◌||◌ false (λ i. row_some native_cmp (row_at i))
  unfolding row_some
  some-Folds = record {
    right_unit = λ a. ground arith;
    assoc = λ a b c. ground arith;
    fold_nil = λ i. refl;
    fold_cons = λ i x xs. refl;
  }

  mutual
    unfolding eval_filter_on_batch row_truth named_cmp join

    pub filter-Masks :
        (e : FilterExpr fl.F64)
        → Yields (Masks (λ i. row_truth native_cmp (row_at i) e)) (eval_filter_on_batch k batch e)
    filter-Masks (eq col v) = column-Masks col v "eq" Cmp.eq refl
    filter-Masks (ne col v) = column-Masks col v "ne" Cmp.neq refl
    filter-Masks (gt col v) = column-Masks col v "gt" Cmp.gt refl
    filter-Masks (gte col v) = column-Masks col v "gte" Cmp.gt_eq refl
    filter-Masks (lt col v) = column-Masks col v "lt" Cmp.lt refl
    filter-Masks (lte col v) = column-Masks col v "lte" Cmp.lt_eq refl
    filter-Masks (and xs) =
        all-Masks ◌&&◌ true (λ i. row_every native_cmp (row_at i)) k.and_masks xs empty_and
          every-Folds and-Junction
    filter-Masks (or xs) =
        all-Masks ◌||◌ false (λ i. row_some native_cmp (row_at i)) k.or_masks xs empty_or some-Folds
          or-Junction

    -- The loop and the test that follows it.
    all-Masks :
        (f : Bool → Bool → Bool) (unit : Bool) (fold : Fold)
        (run : k.Mask → k.Mask → Result Text k.Mask) (xs : FilterExprs fl.F64) (why : Error fl.F64)
        → Folds f unit fold
        → Junction f run
        → Yields
            (Masks (λ i. fold i xs))
            (eval_children k batch run xs none >>= λ acc. ok_or acc why)
    all-Masks f unit fold run nil why folds law = Yields-err why
    all-Masks f unit fold run (cons x xs) why folds law =
        Yields-bind (eval_children k batch run (cons x xs) none) λ acc ran.
          Yields-ok_or acc why λ m is.
            let (mask, evaluated, more) =
              >>=-eq-ok (eval_filter_on_batch k batch x)
                (λ mask. eval_children k batch run xs (some mask)) {out = acc} ran in
            let q : ℕ → Option (Option Bool) = λ i. row_truth native_cmp (row_at i) x in
            let (m', found, (len, bits)) =
              (rest-Masks f unit fold run xs q mask folds law
                  ((filter-Masks x).at mask evaluated)).at
                acc more in
            let same : m' ≡ m = cc in
            (
              ap k.mask_len (sym same) ∙ len,
              λ i lt. folds.fold_cons i x xs ∙ bits i lt ∙ ap (λ t. some (bit t i)) same,
            )

    -- The loop, from the accumulator of the children before.
    rest-Masks :
        (f : Bool → Bool → Bool) (unit : Bool) (fold : Fold)
        (run : k.Mask → k.Mask → Result Text k.Mask) (xs : FilterExprs fl.F64)
        (p : ℕ → Option (Option Bool)) (prev : k.Mask)
        → Folds f unit fold
        → Junction f run
        → Masks p prev
        → Yields
            (Holds (λ i. combine f (p i) (fold i xs)))
            (eval_children k batch run xs (some prev))
    rest-Masks f unit fold run nil p prev folds law (len, bits) = Yields-ok (some prev) (
      prev,
      refl,
      (
        len,
        λ i lt.
            ap (combine f (p i)) (folds.fold_nil i)
            ∙ combine-unit f unit folds.right_unit (p i)
            ∙ bits i lt,
      ),
    )
    rest-Masks f unit fold run (cons x xs) p prev folds law h =
        Yields-bind (eval_filter_on_batch k batch x) λ mask evaluated.
          Yields-bind (join k run (some prev) mask) λ joined is.
            let q : ℕ → Option (Option Bool) = λ i. row_truth native_cmp (row_at i) x in
            let both =
              (joined-Masks f run p q prev mask law h ((filter-Masks x).at mask evaluated)).at
                joined is in
            record {
              at = λ acc done.
                  let (m, found, (len, bits)) =
                    (rest-Masks f unit fold run xs (λ i. combine f (p i) (q i)) joined folds law
                        both).at
                      acc done in
                  (
                    m,
                    found,
                    (
                      len,
                      λ i lt.
                          ap (combine f (p i)) (folds.fold_cons i x xs)
                          ∙ sym (combine_assoc f folds.assoc (p i) (q i) (fold i xs))
                          ∙ bits i lt,
                    ),
                  );
            }

-- A mask that a Parquet filter evaluates to on a batch has one bit for each row, and the bit of a
-- row below their number is the truth of the filter at that row alone: the comparison of its cell with
-- the literal read at the column's type, and the conjunction or disjunction of all children, null
-- where one is null.
pub eval_filter_on_batch-rows :
    {fl : Floats} {k : Kernels fl} (laws : KernelLaws k) (batch : k.Batch) (e : FilterExpr fl.F64)
    (m : k.Mask) (i : ℕ)
    → eval_filter_on_batch k batch e ≡ ok m
    → i < k.num_rows batch
    → (k.mask_len m ≡ k.num_rows batch)
      × (row_truth laws.native_cmp (row_at laws batch i) e ≡ some (laws.bit m i))
eval_filter_on_batch-rows laws batch e m i h below =
    let (len, bits) = (filter-Masks laws batch e).at m h in (len, bits i below)
