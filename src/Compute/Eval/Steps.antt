-- ===== src/Compute/Eval/Steps.antt =====
-- One step of evaluation keeps a value in agreement with the rows.
use mathlib.Core.Option
use ex_arrow.Prelude.{
  map_err-eq-ok, ℕ, ◌≡◌, ap, ◌∙◌, ◌<◌, Bool, not, Option, none, some, Result, ok, ◌>>=◌, map_err,
  Yields, Yields-ok, Yields-bind,
}
use ex_arrow.Beam.{Text}
use ex_arrow.Arrow.{Floats}
use ex_arrow.Arrow.Kernels.{Kernels, Cmp, lift₂}
use ex_arrow.Arrow.Laws.{KernelLaws}
use ex_arrow.Compute.{Op, Error, kernel}
use ex_arrow.Compute.Eval.{Value, array, eval_cmp, value_as_bool, eval_both, masked, compared}
use ex_arrow.Compute.Eval.Rows.{RowValue, op_cmp, truth, flag, row_compare, row_both}
use ex_arrow.Compute.Eval.Covers.{value_at, IsSized, Covers, value_as_bool-Covers, eval_cmp-Covers}

module _ {fl : Floats} {k : Kernels fl} (laws : KernelLaws k) (batch : k.Batch) where
  open laws use {bit}

  abbrev pub n : ℕ
  n = k.num_rows batch

  -- A value whose rows are those of a row-wise answer.
  abbrev pub Tracks : (ℕ → Option (RowValue fl)) → Value k → Type 0
  Tracks row v = IsSized laws n v × ((i : ℕ) → i < n → row i ≡ some (value_at laws i v))

  -- The truths of a row-wise answer.
  abbrev pub truths : (ℕ → Option (RowValue fl)) → ℕ → Option (Option Bool)
  truths row i = Option.bind (row i) truth

  pub as_mask :
      (row : ℕ → Option (RowValue fl)) (v : Value k)
      → Tracks row v
      → Yields (Covers laws n (truths row)) (value_as_bool k v n)
  unfolding Option.bind
  as_mask row v (sized, same) = record {
    at = λ m h.
        let (len, bits) = (value_as_bool-Covers laws n v sized).at m h in
        (len, λ i lt. rw (same i lt) (bits i lt));
  }

  pub as_array :
      (row : ℕ → Option (RowValue fl)) (m : k.Mask)
      → k.mask_len m ≡ n
      → ((i : ℕ) → i < n → row i ≡ some (flag (bit m i)))
      → Tracks row (array (k.of_boolean m))
  as_array row m len same = (
    laws.array_len-of_boolean m ∙ len,
    λ i lt. rw (laws.data_type-of_boolean, laws.cell-of_boolean) (same i lt),
  )

  abbrev pub Kernel : (Bool → Bool → Bool) → (k.Mask → k.Mask → Result Text k.Mask) → Type 0
  Kernel f run =
      (p q m : k.Mask)
      → run p q ≡ ok m
      → k.mask_len p ≡ n
      → k.mask_len q ≡ n
      → (k.mask_len m ≡ n) × ((i : ℕ) → bit m i ≡ lift₂ f (bit p i) (bit q i))

  pub both-Tracks :
      (f : Bool → Bool → Bool) (run : k.Mask → k.Mask → Result Text k.Mask)
      (left right : Result (Error fl.F64) (Value k)) (l r : ℕ → Option (RowValue fl))
      → Kernel f run
      → Yields (Tracks l) left
      → Yields (Tracks r) right
      → Yields
          (Tracks (λ i. row_both laws batch i f (l i) (r i)))
          (eval_both k batch run left right)
  unfolding eval_both Option.bind
  both-Tracks f run left right l r law yl yr = Yields-bind left λ v hv.
      Yields-bind (value_as_bool k v n) λ p hp. Yields-bind right λ w hw.
        Yields-bind (value_as_bool k w n) λ q hq.
          let (plen, pbits) = (as_mask l v (yl.at v hv)).at p hp in
          let (qlen, qbits) = (as_mask r w (yr.at w hw)).at q hq in
          Yields-bind (map_err kernel (run p q)) λ m hm.
            let (mlen, mbits) = law p q m (map_err-eq-ok kernel (run p q) m hm) plen qlen in
            Yields-ok (array (k.of_boolean m)) (
              as_array (λ i. row_both laws batch i f (l i) (r i)) m mlen
                (λ i lt. rw (pbits i lt, qbits i lt, mbits i)))

  pub not-Tracks :
      (inner : Result (Error fl.F64) (Value k)) (row : ℕ → Option (RowValue fl))
      → Yields (Tracks row) inner
      → Yields
          (Tracks (λ i. Option.map (λ t. flag (Option.map not t)) (truths row i)))
          (inner >>= λ v. value_as_bool k v n >>= λ p. masked k (k.not_mask p))
  not-Tracks inner row y = Yields-bind inner λ v hv. Yields-bind (value_as_bool k v n) λ p hp.
      let (plen, pbits) = (as_mask row v (y.at v hv)).at p hp in
      Yields-bind (map_err kernel (k.not_mask p)) λ m hm.
        let is = map_err-eq-ok kernel (k.not_mask p) m hm in
        Yields-ok (array (k.of_boolean m)) (
          as_array (λ i. Option.map (λ t. flag (Option.map not t)) (truths row i)) m
            (laws.not_mask-len p m is ∙ plen) (λ i lt. rw (pbits i lt, laws.not_mask-bit p m i is)))

  pub cmp-Tracks :
      (op : Op) (left right : Result (Error fl.F64) (Value k)) (l r : ℕ → Option (RowValue fl))
      → Yields (Tracks l) left
      → Yields (Tracks r) right
      → Yields
          (Tracks (λ i. Option.bind (op_cmp op) λ c.
            Option.bind (l i) λ x. Option.bind (r i) λ y. Option.map flag (row_compare laws c x y)))
          (left >>= λ v. right >>= λ w. compared k (eval_cmp k v w op n))
  unfolding Option.bind
  cmp-Tracks op left right l r yl yr = Yields-bind left λ v hv. Yields-bind right λ w hw.
      let (lsize, lrow) = yl.at v hv in
      let (rsize, rrow) = yr.at w hw in
      Yields-bind (eval_cmp k v w op n) λ m hm.
        let (len, bits) = (eval_cmp-Covers laws n v w op lsize rsize).at m hm in
        Yields-ok (array (k.of_boolean m)) (
          as_array
            (λ i. Option.bind (op_cmp op) λ c.
              Option.bind (l i)
                λ x. Option.bind (r i) λ y. Option.map flag (row_compare laws c x y))
            m len (λ i lt. rw (lrow i lt, rrow i lt) (bound (op_cmp op) v w i (bits i lt))))
    where
      bound :
          (o : Option Cmp) (v w : Value k) (i : ℕ) {t : Option Bool}
          → Option.bind o (λ c. row_compare laws c (value_at laws i v) (value_at laws i w)) ≡ some t
          → Option.bind o
              (λ c. Option.map flag (row_compare laws c (value_at laws i v) (value_at laws i w)))
            ≡ some (flag {fl = fl} t)
      bound none v w i h = cc
      bound (some c) v w i h = ap (Option.map flag) h
