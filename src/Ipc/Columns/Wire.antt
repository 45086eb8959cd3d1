-- ===== src/Ipc/Columns/Wire.antt =====
-- What the built columns hold.
use mathlib.Core.Option.{some-injective}
use text.Mathlib.Text.{◌==◌ as str_eq}
use ex_arrow.Prelude.{
  Bool, true, ◌&&◌, Bool-cases, inl, inr, sym, ℕ, ◌*◌, ◌%◌, ◌^◌, ◌≡◌, refl, ap, ◌∙◌, String, Option,
  some, List, [], ◌∷◌, map, length, ◌==◌, arith,
}
use ex_arrow.Beam.{Text}
use ex_arrow.Arrow.{int8, uint8, int16, uint16, int32, uint32, float32, date32, DataType}
use ex_arrow.Ipc.Varlen.Frames.{pack_cells}
use ex_arrow.Ipc.Columns.{
  Column, fixed, booleans, texts, large_texts, binaries, large_binaries, fixed_arms, find_arm,
  nonzero,
}

abbrev pub column_len : Column → ℕ
column_len (fixed dt offset len bytes) = len
column_len (booleans bits) = length bits
column_len (texts elems) = length elems
column_len (large_texts elems) = length elems
column_len (binaries elems) = length elems
column_len (large_binaries elems) = length elems

-- The bytes of one element of a fixed-width type.
abbrev pub width_of : DataType → ℕ
width_of int8 = 1
width_of uint8 = 1
width_of int16 = 2
width_of uint16 = 2
width_of int32 = 4
width_of uint32 = 4
width_of float32 = 4
width_of date32 = 4
width_of _ = 8

-- The bytes stand for the column: a fixed-width column is its whole buffer, which has the bytes of as many
-- elements, counted by a `usize`, a boolean is a byte that is zero
-- for false, and elements of variable length are their frames.
abbrev pub Represents : List ℕ → Column → Type 0
Represents bytes (fixed dt offset len buffer) =
    (offset ≡ 0) × (buffer ≡ bytes) × (length buffer ≡ (len * width_of dt) % 2 ^ 64)
Represents bytes (booleans bits) = bits ≡ map (λ b. some (nonzero b)) bytes
Represents bytes (texts elems) = bytes ≡ pack_cells elems
Represents bytes (large_texts elems) = bytes ≡ pack_cells elems
Represents bytes (binaries elems) = bytes ≡ pack_cells elems
Represents bytes (large_binaries elems) = bytes ≡ pack_cells elems

-- The macro's arguments are the widths of the types.
abbrev are_widths : List (String × ℕ × DataType) → Bool
are_widths [] = true
are_widths (arm ∷ arms) = (width_of arm.2 == arm.1) && are_widths arms

fixed_arms-are_widths : are_widths fixed_arms ≡ true
fixed_arms-are_widths = refl

pub find_arm-width_of :
    (dtype : String) (arms : List (String × ℕ × DataType)) (size : ℕ) (dt : DataType)
    → are_widths arms ≡ true
    → find_arm dtype arms ≡ some (size, dt)
    → width_of dt ≡ size
find_arm-width_of dtype [] size dt widths found = cc
find_arm-width_of dtype (arm ∷ arms) size dt widths found = elim (Bool-cases (str_eq dtype arm.0)) [
  | inl e ↦
      let same = some-injective _ _ (rw e at found) in
      let typed : arm.2 ≡ dt = ap (λ t. t.1) same in
      let sized : arm.1 ≡ size = ap (λ t. t.0) same in
      let first : width_of arm.2 ≡ arm.1 = ground arith in ap width_of (sym typed) ∙ first ∙ sized
  | inr e ↦ find_arm-width_of dtype arms size dt (ground arith) (rw e at found)
]

pub fixed_arms-width_of :
    (dtype : String) (size : ℕ) (dt : DataType)
    → find_arm dtype fixed_arms ≡ some (size, dt)
    → width_of dt ≡ size
fixed_arms-width_of dtype size dt found =
    find_arm-width_of dtype fixed_arms size dt fixed_arms-are_widths found

module _ (build : DataType → ℕ → List ℕ → Option Text) (from_utf8 : List ℕ → Option Text)
    (bytes : List ℕ) (len : ℕ) where
  abbrev Holds : DataType × Column → Type 0
  Holds (dt, column) = (column_len column ≡ len) × Represents bytes column
