-- ===== src/Parquet/Prune/Stats.antt =====
-- The statistics of a column chunk against one cell of it: a cell that meets the filter makes the
-- test of the statistics succeed.
use ex_arrow.Prelude.{
  ℤ, Bool, true, false, ◌≡◌, refl, sym, ap₂, ◌∙◌, subst, some, ok, inl, inr, ltb_ℤ, leb_ℤ,
}
use ex_arrow.Beam.{Text}
use ex_arrow.Arrow.{
  DataType, Floats, Native, bool_value, int_value, f32_value, f64_value, utf8_value, float32,
  float64,
}
use ex_arrow.Arrow.Kernels.{Cmp}
use ex_arrow.Parquet.{FilterValue, int, float, utf8, bool, FilterExpr}
use ex_arrow.Parquet.Filter.{make_scalar}
use ex_arrow.Parquet.Filter.Literals.{
  make_scalar-int, make_scalar-float, make_scalar-utf8, make_scalar-bool,
}
use ex_arrow.Parquet.Prune.{
  Statistics, int32_stats, int64_stats, float_stats, double_stats, boolean_stats, byte_array_stats,
  other_stats, ltb_text, leb_text, int_range_may_match, str_range_may_match, i64_of_bool,
  float_range_may_match, stats_may_match,
}
use ex_arrow.Parquet.Prune.Order.{
  order_cmp, range_cmp, range_cmp-order_cmp, range_cmp-equal, ints-IsOrder, texts-IsOrder, CmpLaws,
}

-- The columns of floats are stored as floats of their width; integers never stand in them.
abbrev pub stored_as : {fl : Floats} → DataType → Statistics fl → Bool
stored_as float64 (double_stats mn mx) = true
stored_as float64 other_stats = true
stored_as float64 _ = false
stored_as float32 (float_stats mn mx) = true
stored_as float32 other_stats = true
stored_as float32 _ = false
stored_as _ stats = true

-- The three tests of a comparison are those of its range.
pub record Tests (fl : Floats) (e : FilterExpr fl.F64) (c : Cmp) : Type 0 where
  pub ints :
      (min max val : ℤ) → int_range_may_match e min max val ≡ range_cmp ltb_ℤ leb_ℤ c min max val
  pub texts :
      (min max val : Text)
      → str_range_may_match e min max val ≡ range_cmp ltb_text leb_text c min max val
  pub floats :
      (min max val : fl.F64)
      → float_range_may_match fl e min max val ≡ range_cmp fl.lt_f64 fl.le_f64 c min max val

module _ {fl : Floats} {native_cmp : Cmp → Native fl → Native fl → Bool}
    (laws : CmpLaws fl native_cmp) (lossy : Text → Text) where
  open laws use {IsPlain}

  -- A cell stands between the least and the greatest value, where the chunk has both; one that is a float
  -- is plain.
  abbrev pub Bounds : Statistics fl → Native fl → Type 0
  Bounds (int32_stats (some mn) (some mx)) x =
      (z : ℤ) × (x ≡ int_value z) × (leb_ℤ mn z ≡ true) × (leb_ℤ z mx ≡ true)
  Bounds (int64_stats (some mn) (some mx)) x =
      (z : ℤ) × (x ≡ int_value z) × (leb_ℤ mn z ≡ true) × (leb_ℤ z mx ≡ true)
  Bounds (boolean_stats (some mn) (some mx)) x =
      (b : Bool) × (x ≡ bool_value b)
      × (leb_ℤ (i64_of_bool mn) (i64_of_bool b) ≡ true)
      × (leb_ℤ (i64_of_bool b) (i64_of_bool mx) ≡ true)
  Bounds (byte_array_stats (some mn) (some mx)) x =
      (s : Text) × (x ≡ utf8_value s)
      × (leb_text (lossy mn) s ≡ true)
      × (leb_text s (lossy mx) ≡ true)
  Bounds (double_stats (some mn) (some mx)) x =
      (d : fl.F64) × (x ≡ f64_value d)
      × IsPlain d
      × (fl.le_f64 mn d ≡ true)
      × (fl.le_f64 d mx ≡ true)
  Bounds (float_stats (some mn) (some mx)) x =
      (d : fl.F32) × (x ≡ f32_value d)
      × IsPlain (fl.f64_of_f32 d)
      × (fl.le_f64 (fl.f64_of_f32 mn) (fl.f64_of_f32 d) ≡ true)
      × (fl.le_f64 (fl.f64_of_f32 d) (fl.f64_of_f32 mx) ≡ true)
  Bounds _ x = Unit

  -- A float literal is plain, and as a 32-bit float too: a tiny one is rounded to a zero.
  abbrev pub PlainValue : FilterValue fl.F64 → Type 0
  PlainValue (float f) = IsPlain f × IsPlain (fl.f64_of_f32 (fl.f32_of_f64 f))
  PlainValue v = Unit

  module _ (e : FilterExpr fl.F64) (c : Cmp) (tests : Tests fl e c) where
    ints-keep :
        (mn mx z val : ℤ) (dt : DataType) (x w : Native fl) (stats : Statistics fl)
        → stored_as float64 stats ≡ false
        → stored_as dt stats ≡ true
        → x ≡ int_value z
        → leb_ℤ mn z ≡ true
        → leb_ℤ z mx ≡ true
        → make_scalar fl (int val) dt ≡ ok w
        → native_cmp c x w ≡ true
        → int_range_may_match e mn mx val ≡ true
    ints-keep mn mx z val dt x w stats never stored is lo hi made h =
        elim (make_scalar-int val dt w made) [
          | inl reads ↦
              let holds : order_cmp ltb_ℤ leb_ℤ c z val ≡ true =
                sym (laws.cmp-int c z val) ∙ ap₂ (native_cmp c) (sym is) (sym reads) ∙ h in
              tests.ints mn mx val
              ∙ range_cmp-order_cmp ltb_ℤ leb_ℤ c mn mx z val ints-IsOrder lo hi holds
          | inr is_float ↦ absurd (
              let clash : stored_as float64 stats ≡ true =
                subst (λ t. stored_as t stats ≡ true) is_float stored in
              cc)
        ]

    pub stats-keep :
        (stats : Statistics fl) (v : FilterValue fl.F64) (dt : DataType) (x w : Native fl)
        → stored_as dt stats ≡ true
        → Bounds stats x
        → PlainValue v
        → make_scalar fl v dt ≡ ok w
        → native_cmp c x w ≡ true
        → stats_may_match fl lossy stats e v ≡ true
    unfolding stats_may_match
    stats-keep (int64_stats (some mn) (some mx)) (int val) dt x w stored (z, is, lo, hi) plain made
          h =
        ints-keep mn mx z val dt x w (int64_stats (some mn) (some mx)) refl stored is lo hi made h
    stats-keep (int32_stats (some mn) (some mx)) (int val) dt x w stored (z, is, lo, hi) plain made
          h =
        ints-keep mn mx z val dt x w (int32_stats (some mn) (some mx)) refl stored is lo hi made h
    stats-keep (boolean_stats (some mn) (some mx)) (bool val) dt x w stored (b, is, lo, hi) plain
          made h =
        let holds : order_cmp ltb_ℤ leb_ℤ c (i64_of_bool b) (i64_of_bool val) ≡ true =
          sym (laws.cmp-bool c b val)
          ∙ ap₂ (native_cmp c) (sym is) (sym (make_scalar-bool val dt w made))
          ∙ h in
        tests.ints (i64_of_bool mn) (i64_of_bool mx) (i64_of_bool val)
        ∙ range_cmp-order_cmp ltb_ℤ leb_ℤ c (i64_of_bool mn) (i64_of_bool mx) (i64_of_bool b)
            (i64_of_bool val) ints-IsOrder lo hi holds
    stats-keep (byte_array_stats (some mn) (some mx)) (utf8 val) dt x w stored (s, is, lo, hi) plain
          made h =
        let holds : order_cmp ltb_text leb_text c s val ≡ true =
          sym (laws.cmp-utf8 c s val)
          ∙ ap₂ (native_cmp c) (sym is) (sym (make_scalar-utf8 val dt w made))
          ∙ h in
        tests.texts (lossy mn) (lossy mx) val
        ∙ range_cmp-order_cmp ltb_text leb_text c (lossy mn) (lossy mx) s val texts-IsOrder lo hi
            holds
    stats-keep (double_stats (some mn) (some mx)) (float val) dt x w stored
          (d, is, ordinary, lo, hi) plain made h =
        let stats : Statistics fl = double_stats (some mn) (some mx) in
        elim (make_scalar-float val dt w made) [
          | inl (is_f64, reads) ↦
              let holds : order_cmp fl.lt_f64 fl.le_f64 c d val ≡ true =
                sym (laws.cmp-f64 c d val ordinary plain.0)
                ∙ ap₂ (native_cmp c) (sym is) (sym reads)
                ∙ h in
              tests.floats mn mx val
              ∙ range_cmp-order_cmp fl.lt_f64 fl.le_f64 c mn mx d val laws.floats-IsOrder lo hi
                  holds
          | inr (is_f32, reads, same) ↦ absurd (
              let clash : stored_as float32 stats ≡ true =
                subst (λ t. stored_as t stats ≡ true) is_f32 stored in
              cc)
        ]
    stats-keep (float_stats (some mn) (some mx)) (float val) dt x w stored (d, is, ordinary, lo, hi)
          plain made h =
        let stats : Statistics fl = float_stats (some mn) (some mx) in
        let near = fl.f64_of_f32 (fl.f32_of_f64 val) in
        let min = fl.f64_of_f32 mn in
        let max = fl.f64_of_f32 mx in
        let at = fl.f64_of_f32 d in
        elim (make_scalar-float val dt w made) [
          | inl (is_f64, reads) ↦ absurd (
              let clash : stored_as float64 stats ≡ true =
                subst (λ t. stored_as t stats ≡ true) is_f64 stored in
              cc)
          | inr (is_f32, reads, same) ↦
              let holds : order_cmp fl.lt_f64 fl.le_f64 c at near ≡ true =
                sym (laws.cmp-f32 c d (fl.f32_of_f64 val) ordinary plain.1)
                ∙ ap₂ (native_cmp c) (sym is) (sym reads)
                ∙ h in
              let (up, down) = laws.eq_f64-le near val same in
              tests.floats min max val
              ∙ range_cmp-equal fl.lt_f64 fl.le_f64 c min max near val laws.floats-IsOrder up down (
                  range_cmp-order_cmp fl.lt_f64 fl.le_f64 c min max at near laws.floats-IsOrder lo
                    hi holds)
        ]
    stats-keep _ (int val) dt x w stored b plain made h = refl
    stats-keep _ (float val) dt x w stored b plain made h = refl
    stats-keep _ (utf8 val) dt x w stored b plain made h = refl
    stats-keep _ (bool val) dt x w stored b plain made h = refl
