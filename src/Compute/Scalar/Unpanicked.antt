-- ===== src/Compute/Scalar/Unpanicked.antt =====
-- A literal that is refused is refused with a message.
use ex_arrow.Prelude.{ℤ, refl, Bool, none}
use ex_arrow.Beam.{Text}
use ex_arrow.Arrow.{
  Floats, DataType, TimeUnit, second, millisecond, microsecond, nanosecond, timestamp, int_value,
  boolean, int8, int16, int32, int64, uint8, uint16, uint32, uint64, float32, float64, large_utf8,
}
use ex_arrow.Compute.{
  ScalarValue, bool, int, float, timestamp_micros, timestamp_millis, timestamp_seconds,
  timestamp_nanos, incomparable,
}
use ex_arrow.Compute.Scalar.{
  micros_to_unit, micros_of, make_timestamp_scalar, int_scalar, float_scalar, date32_scalar,
  date64_scalar, timestamp_scalar, utf8_scalar, bool_scalar, make_scalar_array,
  infer_lit_compare_type, when_fits,
}
use ex_arrow.Compute.Panics.{Safe, Safe-ok, Safe-err, Safe-bind, safe_rules}

module _ {F : Type 0} where
  micros_to_unit-Safe : (m : ℤ) (unit : TimeUnit) → Safe (micros_to_unit {F = F} m unit)
  unfolding micros_to_unit
  micros_to_unit-Safe m second = search safe_rules
  micros_to_unit-Safe m millisecond = search safe_rules
  micros_to_unit-Safe m microsecond = search safe_rules
  micros_to_unit-Safe m nanosecond = search safe_rules

  micros_of-Safe : (s : ScalarValue F) (raw : ℤ) → Safe (micros_of s raw)
  unfolding micros_of
  micros_of-Safe (timestamp_micros v) raw = search safe_rules
  micros_of-Safe (timestamp_millis v) raw = search safe_rules
  micros_of-Safe (timestamp_seconds v) raw = search safe_rules
  micros_of-Safe (timestamp_nanos v) raw = search safe_rules
  micros_of-Safe _ raw = search safe_rules

  make_timestamp_scalar-Safe :
      (s : ScalarValue F) (raw : ℤ) (unit : TimeUnit) → Safe (make_timestamp_scalar s raw unit)
  unfolding make_timestamp_scalar
  make_timestamp_scalar-Safe (int v) raw unit = Safe-ok v
  make_timestamp_scalar-Safe s raw unit =
      Safe-bind (micros_of s raw) (micros_of-Safe s raw) (λ m _. micros_to_unit-Safe m unit)

  pub infer-Safe : (l r : ScalarValue F) → Safe (infer_lit_compare_type l r)
  unfolding infer_lit_compare_type
  infer-Safe (bool _) (bool _) = Safe-ok boolean
  infer-Safe (int _) (int _) = Safe-ok int64
  infer-Safe (float _) (float _) = Safe-ok float64
  infer-Safe (int _) (float _) = Safe-ok float64
  infer-Safe (float _) (int _) = Safe-ok float64
  infer-Safe (ScalarValue.utf8 _) (ScalarValue.utf8 _) = Safe-ok DataType.utf8
  infer-Safe (ScalarValue.date32 _) (ScalarValue.date32 _) = Safe-ok DataType.date32
  infer-Safe (ScalarValue.date64 _) (ScalarValue.date64 _) = Safe-ok DataType.date64
  infer-Safe (ScalarValue.date32 _) (ScalarValue.date64 _) = Safe-ok DataType.date64
  infer-Safe (ScalarValue.date64 _) (ScalarValue.date32 _) = Safe-ok DataType.date64
  infer-Safe (timestamp_micros _) _ = Safe-ok (timestamp microsecond none)
  infer-Safe _ (timestamp_micros _) = Safe-ok (timestamp microsecond none)
  infer-Safe (timestamp_millis _) _ = Safe-ok (timestamp millisecond none)
  infer-Safe _ (timestamp_millis _) = Safe-ok (timestamp millisecond none)
  infer-Safe (timestamp_seconds _) _ = Safe-ok (timestamp second none)
  infer-Safe _ (timestamp_seconds _) = Safe-ok (timestamp second none)
  infer-Safe (timestamp_nanos _) _ = Safe-ok (timestamp nanosecond none)
  infer-Safe _ (timestamp_nanos _) = Safe-ok (timestamp nanosecond none)
  infer-Safe l r = Safe-err (incomparable l r) refl

module _ (fl : Floats) where
  int_scalar-Safe : (v : ℤ) (dt : DataType) → Safe (int_scalar fl v dt)
  unfolding int_scalar when_fits make_timestamp_scalar
  int_scalar-Safe v int64 = search safe_rules
  int_scalar-Safe v int32 = search safe_rules
  int_scalar-Safe v int16 = search safe_rules
  int_scalar-Safe v int8 = search safe_rules
  int_scalar-Safe v uint64 = search safe_rules
  int_scalar-Safe v uint32 = search safe_rules
  int_scalar-Safe v uint16 = search safe_rules
  int_scalar-Safe v uint8 = search safe_rules
  int_scalar-Safe v float64 = search safe_rules
  int_scalar-Safe v float32 = search safe_rules
  int_scalar-Safe v DataType.date32 = search safe_rules
  int_scalar-Safe v DataType.date64 = search safe_rules
  int_scalar-Safe v (timestamp unit tz) =
      Safe-bind (make_timestamp_scalar (int v) v unit) (make_timestamp_scalar-Safe (int v) v unit)
        (λ t _. Safe-ok (int_value t))
  int_scalar-Safe v _ = search safe_rules

  temporal-Safe :
      (s : ScalarValue fl.F64) (v : ℤ) (dt : DataType) → Safe (timestamp_scalar fl s v dt)
  unfolding timestamp_scalar
  temporal-Safe s v (timestamp unit tz) =
      Safe-bind (make_timestamp_scalar s v unit) (make_timestamp_scalar-Safe s v unit)
        (λ t _. Safe-ok (int_value t))
  temporal-Safe s v _ = search safe_rules

  date32_scalar-Safe : (d : ℤ) (dt : DataType) → Safe (date32_scalar fl d dt)
  unfolding date32_scalar
  date32_scalar-Safe d DataType.date32 = search safe_rules
  date32_scalar-Safe d DataType.date64 = search safe_rules
  date32_scalar-Safe d _ = search safe_rules

  date64_scalar-Safe : (d : ℤ) (dt : DataType) → Safe (date64_scalar fl d dt)
  unfolding date64_scalar
  date64_scalar-Safe d DataType.date32 = search safe_rules
  date64_scalar-Safe d DataType.date64 = search safe_rules
  date64_scalar-Safe d _ = search safe_rules

  float_scalar-Safe : (f : fl.F64) (dt : DataType) → Safe (float_scalar fl f dt)
  unfolding float_scalar
  float_scalar-Safe f float64 = search safe_rules
  float_scalar-Safe f float32 = search safe_rules
  float_scalar-Safe f _ = search safe_rules

  utf8_scalar-Safe : (s : Text) (dt : DataType) → Safe (utf8_scalar fl s dt)
  unfolding utf8_scalar
  utf8_scalar-Safe s DataType.utf8 = search safe_rules
  utf8_scalar-Safe s large_utf8 = search safe_rules
  utf8_scalar-Safe s _ = search safe_rules

  bool_scalar-Safe : (b : Bool) (dt : DataType) → Safe (bool_scalar fl b dt)
  unfolding bool_scalar
  bool_scalar-Safe b boolean = search safe_rules
  bool_scalar-Safe b _ = search safe_rules

  pub make_scalar_array-Safe :
      (s : ScalarValue fl.F64) (dt : DataType) → Safe (make_scalar_array fl s dt)
  unfolding make_scalar_array
  make_scalar_array-Safe (int v) dt = int_scalar-Safe v dt
  make_scalar_array-Safe (float v) dt = float_scalar-Safe v dt
  make_scalar_array-Safe (ScalarValue.utf8 s) dt = utf8_scalar-Safe s dt
  make_scalar_array-Safe (bool b) dt = bool_scalar-Safe b dt
  make_scalar_array-Safe (ScalarValue.date32 d) dt = date32_scalar-Safe d dt
  make_scalar_array-Safe (ScalarValue.date64 d) dt = date64_scalar-Safe d dt
  make_scalar_array-Safe (timestamp_micros v) dt = temporal-Safe (timestamp_micros v) v dt
  make_scalar_array-Safe (timestamp_millis v) dt = temporal-Safe (timestamp_millis v) v dt
  make_scalar_array-Safe (timestamp_seconds v) dt = temporal-Safe (timestamp_seconds v) v dt
  make_scalar_array-Safe (timestamp_nanos v) dt = temporal-Safe (timestamp_nanos v) v dt
