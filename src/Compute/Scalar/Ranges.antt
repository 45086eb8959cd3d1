-- ===== src/Compute/Scalar/Ranges.antt =====
-- The integers that an integer column accepts.
use ex_arrow.Prelude.{
  ℤ, pos, negsuc, true, ◌&&◌, Option, none, some, ◌≡◌, leb_ℤ, fits_i64, if◌then◌else◌, ok, err,
  arith,
}
use ex_arrow.Arrow.{
  DataType, Floats, int_value, int8, int16, int32, int64, uint8, uint16, uint32, uint64, date32,
}
use ex_arrow.Compute.{int, out_of_range}
use ex_arrow.Compute.Scalar.{make_scalar_array}

-- The least and the greatest value of the integer types; `date32` counts days in 32 bits.
abbrev pub int_bounds : DataType → Option (ℤ × ℤ)
int_bounds int8 = some (negsuc 127, pos 127)
int_bounds int16 = some (negsuc 32767, pos 32767)
int_bounds int32 = some (negsuc 2147483647, pos 2147483647)
int_bounds int64 = some (negsuc 9223372036854775807, pos 9223372036854775807)
int_bounds uint8 = some (pos 0, pos 255)
int_bounds uint16 = some (pos 0, pos 65535)
int_bounds uint32 = some (pos 0, pos 4294967295)
int_bounds uint64 = some (pos 0, pos 18446744073709551615)
int_bounds date32 = some (negsuc 2147483647, pos 2147483647)
int_bounds _ = none

-- An `i64` literal is accepted for an integer column, unchanged, exactly when it lies between the
-- least and the greatest value of the column's type, and is otherwise refused as out of range.
pub make_scalar_array-int :
    (fl : Floats) (v : ℤ) (dt : DataType) (lo hi : ℤ)
    → fits_i64 v ≡ true
    → int_bounds dt ≡ some (lo, hi)
    → make_scalar_array fl (int v) dt
      ≡ (if leb_ℤ lo v && leb_ℤ v hi then ok (int_value v) else err (out_of_range v dt))
unfolding make_scalar_array
make_scalar_array-int fl (pos n) int8 lo hi f h = ground arith
make_scalar_array-int fl (negsuc n) int8 lo hi f h = ground arith
make_scalar_array-int fl (pos n) _ lo hi f h = ground arith
make_scalar_array-int fl (negsuc n) _ lo hi f h = ground arith
