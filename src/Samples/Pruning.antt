-- ===== src/Samples/Pruning.antt =====
-- A file of two row groups with one column `p`: 1 to 3, and 4 to 9. The filter `p > 3` skips the first.
use mathlib.Core.Option
use mathlib.Core.Option.{some-injective}
use ex_arrow.Prelude.{
  ℕ, zero, suc, ℤ, pos, true, none, some, [], ◌∷◌, ◌≡◌, refl, sym, ap, subst, if◌then◌else◌,
  Bool-cases, inl, inr, ok, arith,
}
use ex_arrow.Beam.{Text, text_eq}
use ex_arrow.Arrow.{DataType, int64, int_value, Native}
use ex_arrow.Parquet.{FilterExpr, gt, int, ReadOpts}
use ex_arrow.Parquet.Filter.{make_scalar, validate_filter_types, collect_filter_columns}
use ex_arrow.Parquet.Rows.{Row, row_truth}
use ex_arrow.Parquet.Prune.{
  Statistics, int64_stats, RowGroup, parquet_leaf_index, row_group_may_match,
}
use ex_arrow.Parquet.Prune.Order.{CmpLaws, ints-IsOrder}
use ex_arrow.Parquet.Prune.Sound.{IsRowOf, row_group_may_match_sound}
use ex_arrow.Parquet.Prune.Stats.{stored_as, Bounds}
use ex_arrow.Parquet.Plan.{Footer, Plan, apply_read_opts}
use ex_arrow.Parquet.Plan.Kept.{has_index, apply_read_opts-keeps}
use ex_arrow.Samples.Decoders.{integral}
use ex_arrow.Samples.Tables.{native_cmp}
use ex_arrow.Samples.Filters.{p}

abbrev pub lossy : Text → Text
lossy s = s

integral_cmp : CmpLaws integral native_cmp
integral_cmp = record {
  IsPlain = λ f. Unit;
  cmp-int = λ c a b. refl;
  cmp-bool = λ c a b. refl;
  cmp-utf8 = λ c a b. refl;
  cmp-f64 = λ c a b _ _. refl;
  cmp-f32 = λ c a b _ _. refl;
  floats-IsOrder = ints-IsOrder;
  eq_f64-le = λ a b h. (ground arith, ground arith);
}

abbrev filter : FilterExpr ℤ
filter = gt p (int (pos 3))

abbrev group : ℕ → ℕ → RowGroup integral lossy
group mn mx = some (int64_stats (some (pos mn)) (some (pos mx))) ∷ []

abbrev footer : Footer integral lossy
footer = record {
  field_type = λ col. if text_eq p col then some int64 else none;
  leaves = (p, p) ∷ [];
  groups = group 1 3 ∷ group 4 9 ∷ [];
}

abbrev opts : ReadOpts ℤ
opts = record { columns = none; row_groups = none; filter = some filter }

abbrev plan : Plan integral lossy
plan = record {
  row_groups = 1 ∷ [];
  projection = none;
  predicate = some (p ∷ [], filter);
  total = 2;
  selected = 1;
  skipped = 1;
}

planned : apply_read_opts integral lossy footer opts ≡ ok plan
unfolding apply_read_opts validate_filter_types make_scalar row_group_may_match parquet_leaf_index
    collect_filter_columns
planned = refl

-- The row of the second group at which `p` is 5.
abbrev row : Row integral
row col = if text_eq p col then some (int64, some (int_value (pos 5))) else none

entry-is :
    (col : Text) (dt : DataType) (x : Native integral)
    → row col ≡ some (dt, some x)
    → (int64 ≡ dt) × (int_value (pos 5) ≡ x)
entry-is col dt x h = elim (Bool-cases (text_eq p col)) [
  | inl e ↦
      let same = some-injective _ _ (rw e at h) in
      (ap (λ t. t.0) same, some-injective _ _ (ap (λ t. t.1) same))
  | inr e ↦ absurd (let none_there = rw e at h in cc)
]

abbrev Within : Statistics integral → DataType → Native integral → Type 0
Within stats dt x = (stored_as dt stats ≡ true) × Bounds integral_cmp lossy stats x

row-IsRowOf : IsRowOf integral_cmp lossy footer.leaves (group 4 9) row
row-IsRowOf col zero stats dt x leaf chunk entry =
    let is : int64_stats (some (pos 4)) (some (pos 9)) ≡ stats =
      some-injective _ _ (some-injective _ _ chunk) in
    let (typed, valued) = entry-is col dt x entry in
    subst (λ st. Within st dt x) is
      (subst (λ t. Within (int64_stats (some (pos 4)) (some (pos 9))) t x) typed
        (refl, (pos 5, sym valued, refl, refl)))
row-IsRowOf col (suc i) stats dt x leaf chunk entry = cc

row-true : row_truth native_cmp row filter ≡ some (some true)
unfolding row_truth make_scalar Option.bind
row-true = refl

row_group_may_match_sound_example :
    row_group_may_match integral lossy footer.leaves (group 4 9) filter ≡ true
row_group_may_match_sound_example =
    row_group_may_match_sound integral_cmp lossy footer.leaves (group 4 9) row filter row-IsRowOf tt
      row-true

apply_read_opts-keeps_example : has_index (1 ∷ []) 1 ≡ true
apply_read_opts-keeps_example =
    apply_read_opts-keeps integral_cmp lossy footer opts plan 1 filter (group 4 9) row planned refl
      (omega arith) refl row-IsRowOf tt row-true
