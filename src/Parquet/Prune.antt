-- ===== src/Parquet/Prune.antt =====
-- parquet.rs: `row_group_may_match` and the tests of a comparison against the least and the
-- greatest value of a column chunk.
pub mod Order
pub mod Stats
pub mod Sound
use mathlib.Core.Option
use ex_arrow.Prelude.{
  ℕ, ℤ, pos, Bool, true, false, Option, none, some, List, [], ◌∷◌, ◌&&◌, ◌||◌, ltb, ◌==◌, ltb_ℤ,
  leb_ℤ, get_elem?, when_some, suc, if◌then◌else◌,
}
use ex_arrow.Beam.{Text, text_eq}
use ex_arrow.Arrow.{Floats}
use ex_arrow.Parquet.{
  FilterValue, int, float, utf8, bool, FilterExpr, FilterExprs, eq, ne, gt, gte, lt, lte, and, or,
  nil, cons,
}

-- `parquet::file::statistics::Statistics`, each with its `min_opt` and `max_opt`; `other_stats` for the
-- physical types that the source does not read.
pub data Statistics (fl : Floats) : Type 0 where
  int32_stats int64_stats : (min max : Option ℤ) → Statistics fl
  float_stats : (min max : Option fl.F32) → Statistics fl
  double_stats : (min max : Option fl.F64) → Statistics fl
  boolean_stats : (min max : Option Bool) → Statistics fl
  byte_array_stats : (min max : Option Text) → Statistics fl
  other_stats : Statistics fl

-- `let (Some(min), Some(max)) = .. else { return true; }`
abbrev pub with_range {ℓ} : {A : Type ℓ} → Option A → Option A → (A → A → Bool) → Bool
with_range (some min) (some max) f = f min max
with_range _ _ f = true

-- The order of Rust's `str`: that of the bytes.
abbrev pub ltb_text : Text → Text → Bool
ltb_text s [] = false
ltb_text [] (b ∷ t) = true
ltb_text (a ∷ s) (b ∷ t) = ltb a b || ((a == b) && ltb_text s t)

abbrev pub leb_text : Text → Text → Bool
leb_text [] t = true
leb_text (a ∷ s) [] = false
leb_text (a ∷ s) (b ∷ t) = ltb a b || ((a == b) && leb_text s t)

unfoldable pub int_range_may_match : {F : Type 0} → FilterExpr F → ℤ → ℤ → ℤ → Bool
int_range_may_match (eq c v) min max val = leb_ℤ min val && leb_ℤ val max
int_range_may_match (ne c v) min max val = true
int_range_may_match (gt c v) min max val = ltb_ℤ val max
int_range_may_match (gte c v) min max val = leb_ℤ val max
int_range_may_match (lt c v) min max val = ltb_ℤ min val
int_range_may_match (lte c v) min max val = leb_ℤ min val
int_range_may_match _ min max val = true

unfoldable pub str_range_may_match : {F : Type 0} → FilterExpr F → Text → Text → Text → Bool
str_range_may_match (eq c v) min max val = leb_text min val && leb_text val max
str_range_may_match (ne c v) min max val = true
str_range_may_match (gt c v) min max val = ltb_text val max
str_range_may_match (gte c v) min max val = leb_text val max
str_range_may_match (lt c v) min max val = ltb_text min val
str_range_may_match (lte c v) min max val = leb_text min val
str_range_may_match _ min max val = true

-- `i64::from(bool)`
abbrev pub i64_of_bool : Bool → ℤ
i64_of_bool true = pos 1
i64_of_bool false = pos 0

module _ (fl : Floats) where
  open fl use {F64, F32, f64_of_f32, lt_f64, le_f64}

  unfoldable pub float_range_may_match : FilterExpr F64 → F64 → F64 → F64 → Bool
  float_range_may_match (eq c v) min max val = le_f64 min val && le_f64 val max
  float_range_may_match (ne c v) min max val = true
  float_range_may_match (gt c v) min max val = lt_f64 val max
  float_range_may_match (gte c v) min max val = le_f64 val max
  float_range_may_match (lt c v) min max val = lt_f64 min val
  float_range_may_match (lte c v) min max val = le_f64 min val
  float_range_may_match _ min max val = true

  module _ (lossy : Text → Text) where
    -- `lossy` is `String::from_utf8_lossy`.
    unfoldable pub stats_may_match : Statistics fl → FilterExpr F64 → FilterValue F64 → Bool
    unfolding int_range_may_match float_range_may_match str_range_may_match
    stats_may_match (int64_stats mn mx) e (int val) =
        with_range mn mx (λ min max. int_range_may_match e min max val)
    stats_may_match (int32_stats mn mx) e (int val) =
        with_range mn mx (λ min max. int_range_may_match e min max val)
    stats_may_match (double_stats mn mx) e (float val) =
        with_range mn mx (λ min max. float_range_may_match e min max val)
    stats_may_match (float_stats mn mx) e (float val) =
        with_range mn mx (λ min max. float_range_may_match e (f64_of_f32 min) (f64_of_f32 max) val)
    stats_may_match (boolean_stats mn mx) e (bool val) =
        with_range mn mx
          (λ min max. int_range_may_match e (i64_of_bool min) (i64_of_bool max) (i64_of_bool val))
    stats_may_match (byte_array_stats mn mx) e (utf8 val) =
        with_range mn mx (λ min max. str_range_may_match e (lossy min) (lossy max) val)
    stats_may_match _ e v = true

    -- A leaf of the file's schema: its name, and its dotted path.
    abbrev pub Leaf : Type 0
    Leaf = Text × Text

    -- The first leaf of that name or path.
    unfoldable pub parquet_leaf_index : List Leaf → Text → Option ℕ
    parquet_leaf_index [] name = none
    parquet_leaf_index (leaf ∷ leaves) name =
        let rest = parquet_leaf_index leaves name in
        if text_eq leaf.0 name || text_eq leaf.1 name then some 0 else Option.map suc rest

    -- A row group: the statistics of each column chunk, where there are any.
    abbrev pub RowGroup : Type 0
    RowGroup = List (Option (Statistics fl))

    -- The leaf, its chunk and its statistics; each that is missing keeps the group.
    chunk_may_match : List Leaf → RowGroup → FilterExpr F64 → Text → FilterValue F64 → Bool
    unfolding parquet_leaf_index stats_may_match
    chunk_may_match leaves rg e col v =
        when_some (parquet_leaf_index leaves col)
          (λ i.
            when_some (get_elem? rg i)
              (λ chunk. when_some chunk (λ stats. stats_may_match stats e v) true) true)
          true

    unfoldable mutual
      unfolding chunk_may_match

      pub row_group_may_match : List Leaf → RowGroup → FilterExpr F64 → Bool
      row_group_may_match leaves rg (and xs) = all_may_match leaves rg xs
      row_group_may_match leaves rg (or xs) = any_may_match leaves rg xs
      row_group_may_match leaves rg (eq col v) = chunk_may_match leaves rg (eq col v) col v
      row_group_may_match leaves rg (ne col v) = chunk_may_match leaves rg (ne col v) col v
      row_group_may_match leaves rg (gt col v) = chunk_may_match leaves rg (gt col v) col v
      row_group_may_match leaves rg (gte col v) = chunk_may_match leaves rg (gte col v) col v
      row_group_may_match leaves rg (lt col v) = chunk_may_match leaves rg (lt col v) col v
      row_group_may_match leaves rg (lte col v) = chunk_may_match leaves rg (lte col v) col v

      pub all_may_match : List Leaf → RowGroup → FilterExprs F64 → Bool
      all_may_match leaves rg nil = true
      all_may_match leaves rg (cons x xs) =
          row_group_may_match leaves rg x && all_may_match leaves rg xs

      pub any_may_match : List Leaf → RowGroup → FilterExprs F64 → Bool
      any_may_match leaves rg nil = false
      any_may_match leaves rg (cons x xs) =
          row_group_may_match leaves rg x || any_may_match leaves rg xs
