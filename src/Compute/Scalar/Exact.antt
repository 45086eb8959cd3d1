-- ===== src/Compute/Scalar/Exact.antt =====
-- The instants that temporal literals and temporal columns stand for.
use ex_arrow.Prelude.{
  ℕ, ◌*◌, ℤ, Option, none, some, ◌≡◌, refl, sym, subst, ap, ◌∙◌, ◌^◌, scale, quot, rem, is_zero,
  scale-scale, scale-quot, fits_signed, ok, ◌>>=◌, ok_or, Yields, Yields-ok, Yields-err, Yields-if,
  Yields-bind, Yields-ok_or, ok_or-eq-ok, arith,
}
use mathlib.Core.Option.{some-injective}
use ex_arrow.Arrow.{
  DataType, TimeUnit, Floats, Native, int_value, second, millisecond, microsecond, nanosecond,
  timestamp, date32, date64,
}
use ex_arrow.Compute.{
  ScalarValue, timestamp_micros, timestamp_millis, timestamp_seconds, timestamp_nanos,
  inexact_micros, inexact_nanos, inexact_date, overflow, out_of_range,
}
use ex_arrow.Compute.Scalar.{
  checked_mul, micros_of, micros_to_unit, make_timestamp_scalar, date32_scalar, date64_scalar,
  timestamp_scalar, make_scalar_array,
}

-- Nanoseconds since the epoch.
abbrev pub ticks_ns : TimeUnit → ℤ → ℤ
ticks_ns second t = scale 1000000000 t
ticks_ns millisecond t = scale 1000000 t
ticks_ns microsecond t = scale 1000 t
ticks_ns nanosecond t = t

abbrev pub scalar_ns : {F : Type 0} → ScalarValue F → Option ℤ
scalar_ns (ScalarValue.date32 d) = some (scale 86400000000000 d)
scalar_ns (ScalarValue.date64 d) = some (scale 1000000 d)
scalar_ns (timestamp_micros t) = some (ticks_ns microsecond t)
scalar_ns (timestamp_millis t) = some (ticks_ns millisecond t)
scalar_ns (timestamp_seconds t) = some (ticks_ns second t)
scalar_ns (timestamp_nanos t) = some (ticks_ns nanosecond t)
scalar_ns _ = none

abbrev pub cell_ns : DataType → ℤ → Option ℤ
cell_ns date32 d = some (scale 86400000000000 d)
cell_ns date64 d = some (scale 1000000 d)
cell_ns (timestamp unit tz) t = some (ticks_ns unit t)
cell_ns _ t = none

checked_mul-eq-some : (k : ℕ) (v p : ℤ) → checked_mul k v ≡ some p → scale k v ≡ p
unfolding checked_mul
checked_mul-eq-some k v p h = ground arith

abbrev Micros : ℤ → ℤ → Type 0
Micros n m = scale 1000 m ≡ n

abbrev Ticks : TimeUnit → ℤ → ℤ → Type 0
Ticks unit m t = ticks_ns unit t ≡ scale 1000 m

product : (j k : ℕ) (v p : ℤ) → checked_mul k v ≡ some p → scale j p ≡ scale (j * k) v
product j k v p h = ap (scale j) (sym (checked_mul-eq-some k v p h)) ∙ scale-scale j k v

module _ {F : Type 0} where
  micros_to_unit-exact :
      (m : ℤ) (unit : TimeUnit) → Yields (Ticks unit m) (micros_to_unit {F = F} m unit)
  unfolding micros_to_unit
  micros_to_unit-exact m microsecond = Yields-ok m refl
  micros_to_unit-exact m millisecond =
      Yields-if (is_zero (rem m 1000))
        (λ h.
          Yields-ok (quot m 1000)
            (sym (scale-scale 1000 1000 (quot m 1000)) ∙ ap (scale 1000) (scale-quot 1000 m h)))
        (λ _. Yields-err (inexact_micros m millisecond))
  micros_to_unit-exact m second =
      Yields-if (is_zero (rem m 1000000))
        (λ h. Yields-ok (quot m 1000000) (
          sym (scale-scale 1000 1000000 (quot m 1000000))
          ∙ ap (scale 1000) (scale-quot 1000000 m h)))
        (λ _. Yields-err (inexact_micros m second))
  micros_to_unit-exact m nanosecond =
      Yields-ok_or (checked_mul 1000 m) (overflow m) (λ p h. sym (checked_mul-eq-some 1000 m p h))

  micros_of-millis :
      (v : ℤ) → Yields (Micros (ticks_ns millisecond v)) (micros_of {F = F} (timestamp_millis v) v)
  unfolding micros_of
  micros_of-millis v = Yields-ok_or (checked_mul 1000 v) (overflow v) (product 1000 1000 v)

  micros_of-seconds :
      (v : ℤ) → Yields (Micros (ticks_ns second v)) (micros_of {F = F} (timestamp_seconds v) v)
  unfolding micros_of
  micros_of-seconds v = Yields-ok_or (checked_mul 1000000 v) (overflow v) (product 1000 1000000 v)

  micros_of-nanos : (v : ℤ) → Yields (Micros v) (micros_of {F = F} (timestamp_nanos v) v)
  unfolding micros_of
  micros_of-nanos v =
      Yields-if (is_zero (rem v 1000)) (λ h. Yields-ok (quot v 1000) (scale-quot 1000 v h))
        (λ _. Yields-err (inexact_nanos v))

  -- The two conversions in a row.
  through-Micros :
      (s : ScalarValue F) (v n : ℤ) (unit : TimeUnit)
      → Yields (Micros n) (micros_of s v)
      → Yields (λ t. ticks_ns unit t ≡ n) (micros_of s v >>= λ m. micros_to_unit m unit)
  through-Micros s v n unit first =
      Yields-bind (micros_of s v)
        λ m h. record { at = λ t k. (micros_to_unit-exact m unit).at t k ∙ first.at m h }

-- An array of one value stands for an instant.
abbrev pub Stands : (fl : Floats) → ℤ → DataType → Native fl → Type 0
Stands fl n dt v = (t : ℤ) × (v ≡ int_value t) × (cell_ns dt t ≡ some n)

module _ (fl : Floats) where
  date32-Stands :
      (d : ℤ) (dt : DataType)
      → Yields (Stands fl (scale 86400000000000 d) dt) (date32_scalar fl d dt)
  unfolding date32_scalar
  date32-Stands d date32 = Yields-ok (int_value d) (d, refl, refl)
  date32-Stands d date64 = Yields-bind (ok_or (checked_mul 86400000 d) (overflow d)) λ p h.
      Yields-ok (int_value p) (
        p,
        refl,
        ap some
            (product 1000000 86400000 d p (ok_or-eq-ok (checked_mul 86400000 d) (overflow d) h)),
      )
  date32-Stands d _ = Yields-err _

  date64-Stands :
      (d : ℤ) (dt : DataType) → Yields (Stands fl (scale 1000000 d) dt) (date64_scalar fl d dt)
  unfolding date64_scalar
  date64-Stands d date64 = Yields-ok (int_value d) (d, refl, refl)
  date64-Stands d date32 =
      let days = quot d 86400000 in
      Yields-if (is_zero (rem d 86400000))
        (λ h.
          Yields-if (fits_signed (2 ^ 31) days)
            (λ _. Yields-ok (int_value days) (
              days,
              refl,
              ap some (
                  sym (scale-scale 1000000 86400000 days)
                  ∙ ap (scale 1000000) (scale-quot 86400000 d h)),
            ))
            (λ _. Yields-err (out_of_range d date32)))
        (λ _. Yields-err (inexact_date d))
  date64-Stands d _ = Yields-err _

  timestamp-Stands :
      (s : ScalarValue fl.F64) (v n : ℤ)
      → ((unit : TimeUnit) → Yields (λ t. ticks_ns unit t ≡ n) (make_timestamp_scalar s v unit))
      → (dt : DataType) → Yields (Stands fl n dt) (timestamp_scalar fl s v dt)
  unfolding timestamp_scalar
  timestamp-Stands s v n each (timestamp unit tz) =
      Yields-bind (make_timestamp_scalar s v unit)
        λ t h. Yields-ok (int_value t) (t, refl, ap some ((each unit).at t h))
  timestamp-Stands s v n each _ = Yields-err _

  micros-Stands :
      (v : ℤ) (unit : TimeUnit)
      → Yields
          (λ t. ticks_ns unit t ≡ scale 1000 v)
          (make_timestamp_scalar {F = fl.F64} (timestamp_micros v) v unit)
  unfolding make_timestamp_scalar
  micros-Stands v unit =
      through-Micros (timestamp_micros v) v (scale 1000 v) unit (Yields-ok v refl)

  millis-Stands :
      (v : ℤ) (unit : TimeUnit)
      → Yields
          (λ t. ticks_ns unit t ≡ scale 1000000 v)
          (make_timestamp_scalar {F = fl.F64} (timestamp_millis v) v unit)
  unfolding make_timestamp_scalar
  millis-Stands v unit =
      through-Micros (timestamp_millis v) v (scale 1000000 v) unit (micros_of-millis v)

  seconds-Stands :
      (v : ℤ) (unit : TimeUnit)
      → Yields
          (λ t. ticks_ns unit t ≡ scale 1000000000 v)
          (make_timestamp_scalar {F = fl.F64} (timestamp_seconds v) v unit)
  unfolding make_timestamp_scalar
  seconds-Stands v unit =
      through-Micros (timestamp_seconds v) v (scale 1000000000 v) unit (micros_of-seconds v)

  nanos-Stands :
      (v : ℤ) (unit : TimeUnit)
      → Yields
          (λ t. ticks_ns unit t ≡ v)
          (make_timestamp_scalar {F = fl.F64} (timestamp_nanos v) v unit)
  unfolding make_timestamp_scalar
  nanos-Stands v unit = through-Micros (timestamp_nanos v) v v unit (micros_of-nanos v)

  abbrev Reads : DataType → ScalarValue fl.F64 → ℤ → Type 0
  Reads dt s n = Yields (Stands fl n dt) (make_scalar_array fl s dt)

  temporal-Stands :
      (s : ScalarValue fl.F64) (dt : DataType) (n : ℤ) → scalar_ns s ≡ some n → Reads dt s n
  unfolding make_scalar_array
  temporal-Stands (ScalarValue.date32 d) dt n h =
      subst (Reads dt (ScalarValue.date32 d)) (some-injective _ _ h) (date32-Stands d dt)
  temporal-Stands (ScalarValue.date64 d) dt n h =
      subst (Reads dt (ScalarValue.date64 d)) (some-injective _ _ h) (date64-Stands d dt)
  temporal-Stands (timestamp_micros v) dt n h =
      subst (Reads dt (timestamp_micros v)) (some-injective _ _ h)
        (timestamp-Stands (timestamp_micros v) v (scale 1000 v) (micros-Stands v) dt)
  temporal-Stands (timestamp_millis v) dt n h =
      subst (Reads dt (timestamp_millis v)) (some-injective _ _ h)
        (timestamp-Stands (timestamp_millis v) v (scale 1000000 v) (millis-Stands v) dt)
  temporal-Stands (timestamp_seconds v) dt n h =
      subst (Reads dt (timestamp_seconds v)) (some-injective _ _ h)
        (timestamp-Stands (timestamp_seconds v) v (scale 1000000000 v) (seconds-Stands v) dt)
  temporal-Stands (timestamp_nanos v) dt n h =
      subst (Reads dt (timestamp_nanos v)) (some-injective _ _ h)
        (timestamp-Stands (timestamp_nanos v) v v (nanos-Stands v) dt)
  temporal-Stands _ dt n h = cc

-- A date or timestamp literal that is accepted for a column stands, as an integer at the unit of
-- the column, for exactly the instant that the literal names, whatever the two units are.
pub make_scalar_array-exact :
    (fl : Floats) (s : ScalarValue fl.F64) (dt : DataType) (n : ℤ) (v : Native fl)
    → scalar_ns s ≡ some n
    → make_scalar_array fl s dt ≡ ok v
    → (t : ℤ) × (v ≡ int_value t) × (cell_ns dt t ≡ some n)
make_scalar_array-exact fl s dt n v named made = (temporal-Stands fl s dt n named).at v made
