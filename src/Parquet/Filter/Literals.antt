-- ===== src/Parquet/Filter/Literals.antt =====
-- What `make_scalar` returns, by the literal.
use ex_arrow.Prelude.{ℤ, Bool, true, ◌≡◌, refl, ok, ◌⊎◌, inl, inr, arith}
use ex_arrow.Beam.{Text}
use ex_arrow.Arrow.{
  DataType, Floats, Native, bool_value, int_value, f32_value, f64_value, utf8_value, float32,
  float64,
}
use ex_arrow.Parquet.{int, float, utf8, bool}
use ex_arrow.Parquet.Filter.{make_scalar}

module _ {fl : Floats} where
  pub make_scalar-int :
      (v : ℤ) (dt : DataType) (w : Native fl)
      → make_scalar fl (int v) dt ≡ ok w
      → (w ≡ int_value v) ⊎ (dt ≡ float64)
  unfolding make_scalar
  make_scalar-int v float64 w h = inr refl
  make_scalar-int v DataType.int64 w h = inl (cc)
  make_scalar-int v DataType.int32 w h = inl (ground arith)
  make_scalar-int v _ w h = cc

  pub make_scalar-float :
      (v : fl.F64) (dt : DataType) (w : Native fl)
      → make_scalar fl (float v) dt ≡ ok w
      → ((dt ≡ float64) × (w ≡ f64_value v))
        ⊎ ((dt ≡ float32)
            × (w ≡ f32_value (fl.f32_of_f64 v))
            × (fl.eq_f64 (fl.f64_of_f32 (fl.f32_of_f64 v)) v ≡ true))
  unfolding make_scalar
  make_scalar-float v float64 w h = inl (refl, cc)
  make_scalar-float v float32 w h = inr (refl, ground arith, ground arith)
  make_scalar-float v _ w h = cc

  pub make_scalar-utf8 :
      (s : Text) (dt : DataType) (w : Native fl)
      → make_scalar fl (utf8 s) dt ≡ ok w
      → w ≡ utf8_value s
  unfolding make_scalar
  make_scalar-utf8 s DataType.utf8 w h = cc
  make_scalar-utf8 s _ w h = cc

  pub make_scalar-bool :
      (b : Bool) (dt : DataType) (w : Native fl)
      → make_scalar fl (bool b) dt ≡ ok w
      → w ≡ bool_value b
  unfolding make_scalar
  make_scalar-bool b DataType.boolean w h = cc
  make_scalar-bool b _ w h = cc
