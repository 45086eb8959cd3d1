-- ===== src/Parquet/Prune/Sound.antt =====
-- A row group that is skipped holds no row that the filter selects.
use mathlib.Core.Option
use ex_arrow.Prelude.{
  ℕ, Bool, true, false, ◌&&◌, ◌||◌, ◌≡◌, refl, ap, ◌∙◌, Option, none, some, List, get_elem?, Result,
  ok, err, to_option, when_some, Option-cases, ◌⊎◌, inl, inr, arith,
}
use ex_arrow.Beam.{Text}
use ex_arrow.Arrow.{DataType, Floats, Native}
use ex_arrow.Arrow.Kernels.{Cmp, lift₂}
use ex_arrow.Parquet.{
  FilterValue, FilterExpr, FilterExprs, eq, ne, gt, gte, lt, lte, and, or, nil, cons,
}
use ex_arrow.Parquet.Filter.{make_scalar}
use ex_arrow.Parquet.Rows.{Row, combine, row_compare, row_truth, row_every, row_some}
use ex_arrow.Parquet.Prune.{
  Statistics, int_range_may_match, str_range_may_match, float_range_may_match, Leaf,
  parquet_leaf_index, RowGroup, chunk_may_match, row_group_may_match, all_may_match, any_may_match,
}
use ex_arrow.Parquet.Prune.Order.{CmpLaws}
use ex_arrow.Parquet.Prune.Stats.{stored_as, Tests, Bounds, PlainValue, stats-keep}

when_some-true :
    {A : Type 0} (o : Option A) (f : A → Bool)
    → ((a : A) → o ≡ some a → f a ≡ true)
    → when_some o f true ≡ true
when_some-true none f h = refl
when_some-true (some a) f h = h a refl

or-right : (a b : Bool) → b ≡ true → (a || b) ≡ true
or-right a b h = ground arith

compared_cell :
    {E A : Type 0} (f : A → A → Bool) (r : Result E A) (cell : Option A)
    → Option.map (λ w. lift₂ f cell (some w)) (to_option r) ≡ some (some true)
    → (x w : A) × (cell ≡ some x) × (r ≡ ok w) × (f x w ≡ true)
compared_cell f (err e) cell h = cc
compared_cell f (ok w) none h = cc
compared_cell f (ok w) (some x) h = (x, w, refl, refl, cc)

both-true :
    (p q : Option (Option Bool))
    → combine ◌&&◌ p q ≡ some (some true)
    → (p ≡ some (some true)) × (q ≡ some (some true))
both-true none q h = cc
both-true (some a) none h = cc
both-true (some none) (some b) h = cc
both-true (some (some a)) (some none) h = cc
both-true (some (some true)) (some (some true)) h = (refl, refl)
both-true (some (some true)) (some (some false)) h = cc
both-true (some (some false)) (some (some b)) h = cc

either-true :
    (p q : Option (Option Bool))
    → combine ◌||◌ p q ≡ some (some true)
    → (p ≡ some (some true)) ⊎ (q ≡ some (some true))
either-true none q h = cc
either-true (some a) none h = cc
either-true (some none) (some b) h = cc
either-true (some (some a)) (some none) h = cc
either-true (some (some true)) (some (some b)) h = inl refl
either-true (some (some false)) (some (some b)) h = inr h

module _ {fl : Floats} {native_cmp : Cmp → Native fl → Native fl → Bool}
    (laws : CmpLaws fl native_cmp) (lossy : Text → Text) where
  abbrev mutual
    -- The float literals of a filter are neither NaN nor a negative zero, also when rounded to 32 bits.
    pub PlainFilter : FilterExpr fl.F64 → Type 0
    PlainFilter (and xs) = PlainFilters xs
    PlainFilter (or xs) = PlainFilters xs
    PlainFilter (eq col v) = PlainValue laws lossy v
    PlainFilter (ne col v) = PlainValue laws lossy v
    PlainFilter (gt col v) = PlainValue laws lossy v
    PlainFilter (gte col v) = PlainValue laws lossy v
    PlainFilter (lt col v) = PlainValue laws lossy v
    PlainFilter (lte col v) = PlainValue laws lossy v

    pub PlainFilters : FilterExprs fl.F64 → Type 0
    PlainFilters nil = Unit
    PlainFilters (cons x xs) = PlainFilter x × PlainFilters xs

  module _ (leaves : List (Leaf fl lossy)) (rg : RowGroup fl lossy) (row : Row fl) where
    -- The row is of the row group: a cell of a column that a leaf is found for is of a type that the
    -- leaf stores, and within its statistics.
    abbrev pub IsRowOf : Type 0
    IsRowOf =
        (col : Text) (i : ℕ) (stats : Statistics fl) (dt : DataType) (x : Native fl)
        → parquet_leaf_index fl lossy leaves col ≡ some i
        → get_elem? rg i ≡ some (some stats)
        → row col ≡ some (dt, some x)
        → (stored_as dt stats ≡ true) × Bounds laws lossy stats x

    compared :
        (c : Cmp) (col : Text) (v : FilterValue fl.F64)
        → row_compare native_cmp row c col v ≡ some (some true)
        → (dt : DataType) × (x w : Native fl) × (row col ≡ some (dt, some x))
          × (make_scalar fl v dt ≡ ok w)
          × (native_cmp c x w ≡ true)
    unfolding Option.bind
    compared c col v h = elim (Option-cases (row col)) [
      | inl e ↦ absurd (let h' = rw e at h in cc)
      | inr ((dt, cell), e) ↦
          let (x, w, is, made, holds) =
            compared_cell (native_cmp c) (make_scalar fl v dt) cell (rw e at h) in
          (dt, x, w, e ∙ ap (λ t. some (dt, t)) is, made, holds)
    ]

    chunk-keep :
        (e : FilterExpr fl.F64) (c : Cmp) (col : Text) (v : FilterValue fl.F64)
        → Tests fl e c
        → IsRowOf
        → PlainValue laws lossy v
        → row_compare native_cmp row c col v ≡ some (some true)
        → chunk_may_match fl lossy leaves rg e col v ≡ true
    unfolding chunk_may_match
    chunk-keep e c col v tests of plain h =
        let (dt, x, w, entry, made, holds) = compared c col v h in
        when_some-true (parquet_leaf_index fl lossy leaves col) _ λ i leaf.
          when_some-true (get_elem? rg i) _ λ chunk at. when_some-true chunk _ λ stats is.
            let (stored, bounds) = of col i stats dt x leaf (at ∙ ap some is) entry in
            stats-keep laws lossy e c tests stats v dt x w stored bounds plain made holds

    mutual
      unfolding row_group_may_match row_truth int_range_may_match str_range_may_match
          float_range_may_match

      filter-keep :
          (e : FilterExpr fl.F64)
          → IsRowOf
          → PlainFilter e
          → row_truth native_cmp row e ≡ some (some true)
          → row_group_may_match fl lossy leaves rg e ≡ true
      filter-keep (eq col v) of plain h =
          chunk-keep (eq col v) Cmp.eq col v
            (record { ints = λ a b d. refl; texts = λ a b d. refl; floats = λ a b d. refl }) of
            plain h
      filter-keep (ne col v) of plain h =
          chunk-keep (ne col v) Cmp.neq col v
            (record { ints = λ a b d. refl; texts = λ a b d. refl; floats = λ a b d. refl }) of
            plain h
      filter-keep (gt col v) of plain h =
          chunk-keep (gt col v) Cmp.gt col v
            (record { ints = λ a b d. refl; texts = λ a b d. refl; floats = λ a b d. refl }) of
            plain h
      filter-keep (gte col v) of plain h =
          chunk-keep (gte col v) Cmp.gt_eq col v
            (record { ints = λ a b d. refl; texts = λ a b d. refl; floats = λ a b d. refl }) of
            plain h
      filter-keep (lt col v) of plain h =
          chunk-keep (lt col v) Cmp.lt col v
            (record { ints = λ a b d. refl; texts = λ a b d. refl; floats = λ a b d. refl }) of
            plain h
      filter-keep (lte col v) of plain h =
          chunk-keep (lte col v) Cmp.lt_eq col v
            (record { ints = λ a b d. refl; texts = λ a b d. refl; floats = λ a b d. refl }) of
            plain h
      filter-keep (and xs) of plain h = every-keep xs of plain h
      filter-keep (or xs) of plain h = some-keep xs of plain h

      every-keep :
          (xs : FilterExprs fl.F64)
          → IsRowOf
          → PlainFilters xs
          → row_every native_cmp row xs ≡ some (some true)
          → all_may_match fl lossy leaves rg xs ≡ true
      every-keep nil of plain h = refl
      every-keep (cons x xs) of (plain, plains) h =
          let (first, rest) =
            both-true (row_truth native_cmp row x) (row_every native_cmp row xs) h in
          rw (filter-keep x of plain first, every-keep xs of plains rest)

      some-keep :
          (xs : FilterExprs fl.F64)
          → IsRowOf
          → PlainFilters xs
          → row_some native_cmp row xs ≡ some (some true)
          → any_may_match fl lossy leaves rg xs ≡ true
      some-keep nil of plain h = cc
      some-keep (cons x xs) of (plain, plains) h =
          elim (either-true (row_truth native_cmp row x) (row_some native_cmp row xs) h) [
            | inl first ↦ rw (filter-keep x of plain first)
            | inr rest ↦
                or-right (row_group_may_match fl lossy leaves rg x)
                  (any_may_match fl lossy leaves rg xs) (some-keep xs of plains rest)
          ]

-- If a filter is true at a row of a row group, the row group is kept: pruning by statistics never
-- loses a row that the filter selects. The row's cells are of the types that the leaves found for their
-- columns store and, where a leaf has both a least and a greatest value, stand between them, float cells
-- being neither NaN nor a negative zero there. Nor are the filter's float literals, also when rounded to
-- 32 bits.
pub row_group_may_match_sound :
    {fl : Floats} {native_cmp : Cmp → Native fl → Native fl → Bool} (laws : CmpLaws fl native_cmp)
    (lossy : Text → Text) (leaves : List (Leaf fl lossy)) (rg : RowGroup fl lossy) (row : Row fl)
    (e : FilterExpr fl.F64)
    → IsRowOf laws lossy leaves rg row
    → PlainFilter laws lossy e
    → row_truth native_cmp row e ≡ some (some true)
    → row_group_may_match fl lossy leaves rg e ≡ true
row_group_may_match_sound laws lossy leaves rg row e of plain h =
    filter-keep laws lossy leaves rg row e of plain h
