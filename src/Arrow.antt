-- ===== src/Arrow.antt =====
-- The names that the NIFs take from the Arrow crates. `DataType` and `TimeUnit` list the
-- constructors that the sources name, `other` for the rest; arguments that no source reads
-- (children of lists and structs, widths of decimals) are left out.
-- Floating point is a parameter, `Floats`: the types `f64` and `f32`, Rust's `as` casts between
-- them and the integers, and the comparisons of `f64`.
pub mod Kernels
pub mod Laws
use ex_arrow.Prelude.{ℤ, Bool, Option, ◌≡◌}
use ex_arrow.Beam.{Text}

pub data TimeUnit : Type 0 where
  second millisecond microsecond nanosecond : TimeUnit

pub data DataType : Type 0 where
  null boolean : DataType
  int8 int16 int32 int64 : DataType
  uint8 uint16 uint32 uint64 : DataType
  float16 float32 float64 : DataType
  utf8 large_utf8 binary large_binary : DataType
  list large_list struct : DataType
  timestamp : TimeUnit → Option Text → DataType
  date32 date64 : DataType
  time32 time64 : TimeUnit → DataType
  duration : TimeUnit → DataType
  decimal128 decimal256 dictionary : DataType
  other : DataType

pub record Floats : Type 1 where
  pub F64 : Type 0
  pub F32 : Type 0
  pub f64_of_i64 : ℤ → F64
  pub i128_of_f64 : F64 → ℤ
  pub f32_of_i64 : ℤ → F32
  pub i64_of_f32 : F32 → ℤ
  pub f32_of_f64 : F64 → F32
  pub f64_of_f32 : F32 → F64
  pub eq_f64 : F64 → F64 → Bool
  pub lt_f64 : F64 → F64 → Bool
  pub le_f64 : F64 → F64 → Bool

-- One value of an Arrow array: what a typed array constructor is given.
pub data Native (fl : Floats) : Type 0 where
  bool_value : Bool → Native fl
  int_value : ℤ → Native fl
  f32_value : fl.F32 → Native fl
  f64_value : fl.F64 → Native fl
  utf8_value : Text → Native fl
