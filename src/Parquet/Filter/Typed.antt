-- ===== src/Parquet/Filter/Typed.antt =====
-- A filter that `validate_filter_types` accepts never fails on a batch of that schema.
use ex_arrow.Prelude.{
  ◌≡◌, refl, sym, ◌∙◌, subst, Bool, true, false, ◌&&◌, String, Option, none, some, Result, ok,
  >>=-eq-ok, ok_or, ok_or-eq-ok, arith,
}
use ex_arrow.Beam.{Text}
use ex_arrow.Arrow.{Floats, DataType, Native}
use ex_arrow.Arrow.Kernels.{Kernels, Datum, whole, Cmp}
use ex_arrow.Arrow.Laws.{KernelLaws}
use ex_arrow.Parquet.{
  FilterValue, FilterExpr, FilterExprs, eq, ne, gt, gte, lt, lte, and, or, nil, cons, not_in_schema,
}
use ex_arrow.Parquet.Filter.{
  make_scalar, check_type, validate_filter_types, validate_all, named_cmp, eval_cmp, eval_column,
  join, eval_filter_on_batch, eval_children,
}
use ex_arrow.Parquet.Filter.Correct.{filter-Masks}

abbrev pub has_child : {F : Type 0} → FilterExprs F → Bool
has_child nil = false
has_child (cons x xs) = true

abbrev mutual
  -- No conjunction or disjunction is empty.
  pub is_inhabited : {F : Type 0} → FilterExpr F → Bool
  is_inhabited (and xs) = has_child xs && all_inhabited xs
  is_inhabited (or xs) = has_child xs && all_inhabited xs
  is_inhabited _ = true

  pub all_inhabited : {F : Type 0} → FilterExprs F → Bool
  all_inhabited nil = true
  all_inhabited (cons x xs) = is_inhabited x && all_inhabited xs

-- The kernels fail only on operands that do not fit: a comparison of an array with one value read at
-- its type succeeds, and so does a junction of masks of one length.
pub record Total {fl : Floats} (k : Kernels fl) : Type 0 where
  pub compare-ok :
      (c : Cmp) (a : k.Array) (v : FilterValue fl.F64) (w : Native fl)
      → make_scalar fl v (k.data_type a) ≡ ok w
      → (m : k.Mask) × (k.compare c (whole a) (Datum.scalar (k.one (k.data_type a) w)) ≡ ok m)
  pub and_masks-ok :
      (p q : k.Mask) → k.mask_len p ≡ k.mask_len q → (m : k.Mask) × (k.and_masks p q ≡ ok m)
  pub or_masks-ok :
      (p q : k.Mask) → k.mask_len p ≡ k.mask_len q → (m : k.Mask) × (k.or_masks p q ≡ ok m)

module _ {fl : Floats} {k : Kernels fl} (laws : KernelLaws k) (total : Total k) (batch : k.Batch)
    (schema : Text → Option DataType) where
  -- The batch has each column of the schema, at its type.
  abbrev pub Conforms : Type 0
  Conforms =
      (col : Text) (dt : DataType)
      → schema col ≡ some dt
      → (a : k.Array) × (k.column_by_name batch col ≡ some a) × (k.data_type a ≡ dt)

  abbrev Evaluates : FilterExpr fl.F64 → Type 0
  Evaluates e = (m : k.Mask) × (eval_filter_on_batch k batch e ≡ ok m)

  column-ok :
      (col : Text) (v : FilterValue fl.F64) (op : String) (c : Cmp) {u : Unit {0}}
      → named_cmp k op ≡ ok c
      → Conforms
      → check_type fl schema col v ≡ ok u
      → (m : k.Mask) × (eval_column k batch col v op ≡ ok m)
  unfolding check_type eval_column eval_cmp
  column-ok col v op c {u = u} named conforms h =
      let (dt, field, more) = >>=-eq-ok (ok_or (schema col) (not_in_schema col)) _ {out = u} h in
      let (w, made, _) = >>=-eq-ok (make_scalar fl v dt) _ {out = u} more in
      let (a, found, typed) =
        conforms col dt (ok_or-eq-ok (schema col) (not_in_schema col) field) in
      let made' : make_scalar fl v (k.data_type a) ≡ ok w =
        subst (λ t. make_scalar fl v t ≡ ok w) (sym typed) made in
      let (m, ran) = total.compare-ok c a v w made' in (m, rw (found, made', named, ran))

  abbrev Joins : (k.Mask → k.Mask → Result Text k.Mask) → Type 0
  Joins run =
      (p q : k.Mask)
      → k.mask_len p ≡ k.num_rows batch
      → k.mask_len q ≡ k.num_rows batch
      → (m : k.Mask) × (run p q ≡ ok m) × (k.mask_len m ≡ k.num_rows batch)

  and-Joins : Joins k.and_masks
  and-Joins p q hp hq =
      let (m, ran) = total.and_masks-ok p q (hp ∙ sym hq) in
      (m, ran, laws.and_masks-len p q m (k.num_rows batch) ran hp hq)

  or-Joins : Joins k.or_masks
  or-Joins p q hp hq =
      let (m, ran) = total.or_masks-ok p q (hp ∙ sym hq) in
      (m, ran, laws.or_masks-len p q m (k.num_rows batch) ran hp hq)

  and-true : (a b : Bool) → (a && b) ≡ true → (a ≡ true) × (b ≡ true)
  and-true a b h = ground arith

  mutual
    unfolding eval_filter_on_batch validate_filter_types named_cmp join

    filter-ok :
        (e : FilterExpr fl.F64) {u : Unit {0}}
        → Conforms
        → is_inhabited e ≡ true
        → validate_filter_types fl schema e ≡ ok u
        → Evaluates e
    filter-ok (eq col v) conforms some_child h = column-ok col v "eq" Cmp.eq refl conforms h
    filter-ok (ne col v) conforms some_child h = column-ok col v "ne" Cmp.neq refl conforms h
    filter-ok (gt col v) conforms some_child h = column-ok col v "gt" Cmp.gt refl conforms h
    filter-ok (gte col v) conforms some_child h = column-ok col v "gte" Cmp.gt_eq refl conforms h
    filter-ok (lt col v) conforms some_child h = column-ok col v "lt" Cmp.lt refl conforms h
    filter-ok (lte col v) conforms some_child h = column-ok col v "lte" Cmp.lt_eq refl conforms h
    filter-ok (and xs) conforms some_child h =
        let (m, ran) = all-ok k.and_masks xs and-Joins conforms some_child h in (m, rw ran)
    filter-ok (or xs) conforms some_child h =
        let (m, ran) = all-ok k.or_masks xs or-Joins conforms some_child h in (m, rw ran)

    -- The loop over the children, from the start.
    all-ok :
        (run : k.Mask → k.Mask → Result Text k.Mask) (xs : FilterExprs fl.F64) {u : Unit {0}}
        → Joins run
        → Conforms
        → (has_child xs && all_inhabited xs) ≡ true
        → validate_all fl schema xs ≡ ok u
        → (m : k.Mask) × (eval_children k batch run xs none ≡ ok (some m))
    all-ok run nil joins conforms some_child h = cc
    all-ok run (cons x xs) {u = u} joins conforms some_child h =
        let (first, others) = and-true (is_inhabited x) (all_inhabited xs) some_child in
        let (_, valid, rest) = >>=-eq-ok (validate_filter_types fl schema x) _ {out = u} h in
        let (mask, evaluated) = filter-ok x conforms first valid in
        let (len, _) = (filter-Masks laws batch x).at mask evaluated in
        let (m, ran) = rest-ok run xs mask joins conforms len others rest in
        (m, rw (evaluated, ran))

    -- The loop, once the accumulator holds a mask.
    rest-ok :
        (run : k.Mask → k.Mask → Result Text k.Mask) (xs : FilterExprs fl.F64) (prev : k.Mask)
        {u : Unit {0}}
        → Joins run
        → Conforms
        → k.mask_len prev ≡ k.num_rows batch
        → all_inhabited xs ≡ true
        → validate_all fl schema xs ≡ ok u
        → (m : k.Mask) × (eval_children k batch run xs (some prev) ≡ ok (some m))
    rest-ok run nil prev joins conforms size inhabited h = (prev, refl)
    rest-ok run (cons x xs) prev {u = u} joins conforms size inhabited h =
        let (first, others) = and-true (is_inhabited x) (all_inhabited xs) inhabited in
        let (_, valid, rest) = >>=-eq-ok (validate_filter_types fl schema x) _ {out = u} h in
        let (mask, evaluated) = filter-ok x conforms first valid in
        let (len, _) = (filter-Masks laws batch x).at mask evaluated in
        let (joined, ran, size') = joins prev mask size len in
        let (m, done) = rest-ok run xs joined joins conforms size' others rest in
        (m, rw (evaluated, ran, done))

-- A filter without empty junctions that the schema's types are valid for evaluates to a mask on every
-- batch that has the schema's columns at their types: it fails neither on a missing column nor on a
-- literal.
pub validate_filter_types-total :
    {fl : Floats} {k : Kernels fl} (laws : KernelLaws k) (total : Total k) (batch : k.Batch)
    (schema : Text → Option DataType) (e : FilterExpr fl.F64)
    → Conforms laws total batch schema
    → is_inhabited e ≡ true
    → validate_filter_types fl schema e ≡ ok tt
    → (m : k.Mask) × (eval_filter_on_batch k batch e ≡ ok m)
validate_filter_types-total laws total batch schema e conforms inhabited valid =
    filter-ok laws total batch schema e conforms inhabited valid
