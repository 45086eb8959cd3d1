-- ===== src/Samples/Literals.antt =====
-- Literals at the types of columns.
use ex_arrow.Prelude.{ℤ, pos, negsuc, none, some, ◌≡◌, refl, ◌&&◌, leb_ℤ, if◌then◌else◌, ok, err}
use ex_arrow.Arrow.{timestamp, second, int8, int_value, Native}
use ex_arrow.Compute.{int, timestamp_nanos, out_of_range}
use ex_arrow.Compute.Scalar.{make_scalar_array}
use ex_arrow.Compute.Scalar.Exact.{make_scalar_array-exact, cell_ns}
use ex_arrow.Compute.Scalar.Ranges.{make_scalar_array-int}
use ex_arrow.Samples.Decoders.{integral}

abbrev instant : ℤ
instant = negsuc 1999999999

abbrev cell : Native integral
cell = int_value (negsuc 1)

instant-made :
    make_scalar_array integral (timestamp_nanos instant) (timestamp second none) ≡ ok cell
unfolding make_scalar_array
instant-made = refl

make_scalar_array-exact_example :
    (t : ℤ) × (cell ≡ int_value t) × (cell_ns (timestamp second none) t ≡ some instant)
make_scalar_array-exact_example =
    make_scalar_array-exact integral (timestamp_nanos instant) (timestamp second none) instant cell
      refl instant-made

make_scalar_array-int_example : make_scalar_array integral (int (pos 200)) int8 ≡ (
    if leb_ℤ (negsuc 127) (pos 200) && leb_ℤ (pos 200) (pos 127)
    then ok (int_value (pos 200))
    else err (out_of_range (pos 200) int8))
make_scalar_array-int_example =
    make_scalar_array-int integral (pos 200) int8 (negsuc 127) (pos 127) refl refl
