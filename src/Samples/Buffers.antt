-- ===== src/Samples/Buffers.antt =====
-- Columns of two 16-bit integers, and of two texts.
use text.Mathlib.Text.{◌==◌ as str_eq}
use ex_arrow.Prelude.{Bool, ℕ, ◌≡◌, refl, true, String, Option, none, List, [], ◌∷◌, ok, arith}
use ex_arrow.Beam.{Text}
use ex_arrow.Arrow.{DataType, int16}
use ex_arrow.Ipc.Columns.{Column, fixed, texts, build_column_array, extract_primitive_buffer}
use ex_arrow.Ipc.Columns.Extracted.{extract_primitive_buffer-build_column_array}

abbrev accepts : DataType → ℕ → List ℕ → Option Text
accepts dt len buffer = none

abbrev utf8 : List ℕ → Option Text
utf8 s = none

abbrev all_granted : ℕ → Bool
all_granted n = true

abbrev shorts : List ℕ
shorts = 1 ∷ 0 ∷ 255 ∷ 255 ∷ []

shorts-built : build_column_array accepts utf8 shorts "s16" 2 ≡ ok (int16, fixed int16 0 2 shorts)
unfolding build_column_array
shorts-built = refl

extract_primitive_buffer-build_column_array_example :
    (name : String) × (str_eq "s16" name ≡ true)
    × (extract_primitive_buffer all_granted (fixed int16 0 2 shorts) ≡ ok (shorts, name, 2))
extract_primitive_buffer-build_column_array_example =
    extract_primitive_buffer-build_column_array all_granted accepts utf8 shorts "s16" 2 int16
      (fixed int16 0 2 shorts) (omega arith) shorts-built refl

abbrev frames : List ℕ
frames = 1 ∷ 0 ∷ 0 ∷ 0 ∷ b'a' ∷ 0 ∷ 0 ∷ 0 ∷ 0 ∷ []

abbrev words : Column
words = texts ((b'a' ∷ []) ∷ [] ∷ [])
