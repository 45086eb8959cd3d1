-- ===== src/Compute/Scalar.antt =====
-- compute.rs: `make_scalar_array`, `make_timestamp_scalar`, `micros_to_unit`,
-- `timestamp_array_from_ticks` and `infer_lit_compare_type`.
-- Each arm of `make_scalar_array` builds an array of one value at the type that it matched, so the
-- model returns that value; `Kernels.one` makes the array of it.
pub mod Exact
pub mod Ranges
pub mod Unpanicked
use ex_arrow.Prelude.{
  ℕ, ℤ, pos, negsuc, Bool, true, false, not, Option, none, some, ◌^◌, scale, quot, rem, is_zero,
  is_negative, fits_signed, fits_unsigned, fits_i64, eqb_ℤ, if◌then◌else◌, Result, ok, err, ◌>>=◌,
  ok_or,
}
use ex_arrow.Beam.{Text}
use ex_arrow.Arrow.{
  DataType, TimeUnit, Floats, Native, bool_value, int_value, f32_value, f64_value, utf8_value,
  second, millisecond, microsecond, nanosecond, boolean, int8, int16, int32, int64, uint8, uint16,
  uint32, uint64, float32, float64, large_utf8, timestamp,
}
use ex_arrow.Compute.{
  ScalarValue, bool, int, float, timestamp_micros, timestamp_millis, timestamp_seconds,
  timestamp_nanos, Error, type_mismatch, incomparable, out_of_range, inexact_int, inexact_float,
  inexact_date, inexact_nanos, inexact_micros, overflow,
}

-- `v.checked_mul(k)` of an `i64` and a positive constant
unfoldable pub checked_mul : ℕ → ℤ → Option ℤ
checked_mul k v = if fits_i64 (scale k v) then some (scale k v) else none

module _ {F : Type 0} where
  unfoldable pub micros_to_unit : ℤ → TimeUnit → Result (Error F) ℤ
  unfolding checked_mul
  micros_to_unit micros microsecond = ok micros
  micros_to_unit micros millisecond =
      if is_zero (rem micros 1000)
      then ok (quot micros 1000)
      else err (inexact_micros micros millisecond)
  micros_to_unit micros second =
      if is_zero (rem micros 1000000)
      then ok (quot micros 1000000)
      else err (inexact_micros micros second)
  micros_to_unit micros nanosecond = ok_or (checked_mul 1000 micros) (overflow micros)

  -- The `match original` of `make_timestamp_scalar`; its arm for bare integers returns early and
  -- is a clause of `make_timestamp_scalar` below.
  micros_of : ScalarValue F → ℤ → Result (Error F) ℤ
  unfolding checked_mul
  micros_of (timestamp_micros v) raw = ok v
  micros_of (timestamp_millis v) raw = ok_or (checked_mul 1000 v) (overflow v)
  micros_of (timestamp_seconds v) raw = ok_or (checked_mul 1000000 v) (overflow v)
  micros_of (timestamp_nanos v) raw =
      if is_zero (rem v 1000) then ok (quot v 1000) else err (inexact_nanos v)
  micros_of _ raw = ok raw

  -- The ticks of the timestamp that is built, at the unit of the column.
  unfoldable pub make_timestamp_scalar : ScalarValue F → ℤ → TimeUnit → Result (Error F) ℤ
  unfolding micros_of micros_to_unit
  make_timestamp_scalar (int v) raw unit = ok v
  make_timestamp_scalar original raw unit = do
    micros ← micros_of original raw
    micros_to_unit micros unit

  unfoldable pub infer_lit_compare_type : ScalarValue F → ScalarValue F → Result (Error F) DataType
  infer_lit_compare_type (bool _) (bool _) = ok boolean
  infer_lit_compare_type (int _) (int _) = ok int64
  infer_lit_compare_type (float _) (float _) = ok float64
  infer_lit_compare_type (int _) (float _) = ok float64
  infer_lit_compare_type (float _) (int _) = ok float64
  infer_lit_compare_type (ScalarValue.utf8 _) (ScalarValue.utf8 _) = ok DataType.utf8
  infer_lit_compare_type (ScalarValue.date32 _) (ScalarValue.date32 _) = ok DataType.date32
  infer_lit_compare_type (ScalarValue.date64 _) (ScalarValue.date64 _) = ok DataType.date64
  infer_lit_compare_type (ScalarValue.date32 _) (ScalarValue.date64 _) = ok DataType.date64
  infer_lit_compare_type (ScalarValue.date64 _) (ScalarValue.date32 _) = ok DataType.date64
  infer_lit_compare_type (timestamp_micros _) _ = ok (timestamp microsecond none)
  infer_lit_compare_type _ (timestamp_micros _) = ok (timestamp microsecond none)
  infer_lit_compare_type (timestamp_millis _) _ = ok (timestamp millisecond none)
  infer_lit_compare_type _ (timestamp_millis _) = ok (timestamp millisecond none)
  infer_lit_compare_type (timestamp_seconds _) _ = ok (timestamp second none)
  infer_lit_compare_type _ (timestamp_seconds _) = ok (timestamp second none)
  infer_lit_compare_type (timestamp_nanos _) _ = ok (timestamp nanosecond none)
  infer_lit_compare_type _ (timestamp_nanos _) = ok (timestamp nanosecond none)
  infer_lit_compare_type l r = err (incomparable l r)

module _ (fl : Floats) where
  open fl use {F64, f64_of_i64, i128_of_f64, f32_of_i64, i64_of_f32, f32_of_f64, f64_of_f32, eq_f64}

  abbrev Made : Type 0
  Made = Result (Error F64) (Native fl)

  -- An integer that is kept if it is in range.
  when_fits : Bool → ℤ → DataType → Made
  when_fits fits v dt = if fits then ok (int_value v) else err (out_of_range v dt)

  unfoldable pub int_scalar : ℤ → DataType → Made
  unfolding when_fits make_timestamp_scalar
  int_scalar v int64 = ok (int_value v)
  int_scalar v int32 = when_fits (fits_signed (2 ^ 31) v) v int32
  int_scalar v int16 = when_fits (fits_signed (2 ^ 15) v) v int16
  int_scalar v int8 = when_fits (fits_signed (2 ^ 7) v) v int8
  int_scalar v uint64 = when_fits (not (is_negative v)) v uint64
  int_scalar v uint32 = when_fits (fits_unsigned (2 ^ 32) v) v uint32
  int_scalar v uint16 = when_fits (fits_unsigned (2 ^ 16) v) v uint16
  int_scalar v uint8 = when_fits (fits_unsigned (2 ^ 8) v) v uint8
  int_scalar v float64 =
      if eqb_ℤ (i128_of_f64 (f64_of_i64 v)) v
      then ok (f64_value (f64_of_i64 v))
      else err (inexact_int v float64)
  int_scalar v float32 =
      if eqb_ℤ (i64_of_f32 (f32_of_i64 v)) v
      then ok (f32_value (f32_of_i64 v))
      else err (inexact_int v float32)
  int_scalar v DataType.date32 = when_fits (fits_signed (2 ^ 31) v) v DataType.date32
  int_scalar v DataType.date64 = ok (int_value v)
  int_scalar v (timestamp unit tz) = do
    ticks ← make_timestamp_scalar (int v) v unit
    ok (int_value ticks)
  int_scalar v dt = err (type_mismatch (int v) dt)

  float_scalar : F64 → DataType → Made
  float_scalar v float64 = ok (f64_value v)
  float_scalar v float32 =
      if eq_f64 (f64_of_f32 (f32_of_f64 v)) v
      then ok (f32_value (f32_of_f64 v))
      else err (inexact_float v float32)
  float_scalar v dt = err (type_mismatch (float v) dt)

  date32_scalar : ℤ → DataType → Made
  unfolding checked_mul
  date32_scalar d DataType.date32 = ok (int_value d)
  date32_scalar d DataType.date64 = do
    millis ← ok_or (checked_mul 86400000 d) (overflow d)
    ok (int_value millis)
  date32_scalar d dt = err (type_mismatch (ScalarValue.date32 d) dt)

  date64_scalar : ℤ → DataType → Made
  date64_scalar d DataType.date64 = ok (int_value d)
  date64_scalar d DataType.date32 =
      if is_zero (rem d 86400000)
      then (if fits_signed (2 ^ 31) (quot d 86400000)
          then ok (int_value (quot d 86400000))
          else err (out_of_range d DataType.date32))
      else err (inexact_date d)
  date64_scalar d dt = err (type_mismatch (ScalarValue.date64 d) dt)

  timestamp_scalar : ScalarValue F64 → ℤ → DataType → Made
  unfolding make_timestamp_scalar
  timestamp_scalar original v (timestamp unit tz) = do
    ticks ← make_timestamp_scalar original v unit
    ok (int_value ticks)
  timestamp_scalar original v dt = err (type_mismatch original dt)

  utf8_scalar : Text → DataType → Made
  utf8_scalar s DataType.utf8 = ok (utf8_value s)
  utf8_scalar s large_utf8 = ok (utf8_value s)
  utf8_scalar s dt = err (type_mismatch (ScalarValue.utf8 s) dt)

  bool_scalar : Bool → DataType → Made
  bool_scalar b boolean = ok (bool_value b)
  bool_scalar b dt = err (type_mismatch (bool b) dt)

  unfoldable pub make_scalar_array : ScalarValue F64 → DataType → Made
  unfolding int_scalar float_scalar date32_scalar date64_scalar timestamp_scalar utf8_scalar
      bool_scalar
  make_scalar_array (int v) dt = int_scalar v dt
  make_scalar_array (float v) dt = float_scalar v dt
  make_scalar_array (ScalarValue.utf8 s) dt = utf8_scalar s dt
  make_scalar_array (bool b) dt = bool_scalar b dt
  make_scalar_array (ScalarValue.date32 d) dt = date32_scalar d dt
  make_scalar_array (ScalarValue.date64 d) dt = date64_scalar d dt
  make_scalar_array (timestamp_micros v) dt = timestamp_scalar (timestamp_micros v) v dt
  make_scalar_array (timestamp_millis v) dt = timestamp_scalar (timestamp_millis v) v dt
  make_scalar_array (timestamp_seconds v) dt = timestamp_scalar (timestamp_seconds v) v dt
  make_scalar_array (timestamp_nanos v) dt = timestamp_scalar (timestamp_nanos v) v dt
