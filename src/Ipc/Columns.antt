-- ===== src/Ipc/Columns.antt =====
-- native/ex_arrow_native/src/ipc.rs: `build_column_array` and `extract_primitive_buffer`, the raw
-- buffers that Nx and the Elixir columns are made from, with the NIFs that call them.
-- An array is what its constructor is given. The arms of the `match` on `dtype_str` that call
-- `build_fixed_col!` are a table of the macro's arguments; a product of two `usize` wraps at 2 ^ 64.
-- `ArrayData::builder(..).build()`, `RecordBatch::try_new` and `str::from_utf8` are parameters.
pub mod Wire
pub mod Extracted
use text.Mathlib.Text.{◌==◌ as str_eq}
use ex_arrow.Prelude.{
  ◌+◌, ◌-◌, ◌/◌, leb, take, drop, ℕ, ◌*◌, ◌%◌, ◌^◌, Bool, true, false, not, ◌&&◌, ◌||◌, String,
  Option, none, some, List, [], ◌∷◌, ◌++◌, map, length, ◌==◌, if◌then◌else◌, Result, ok, err, ◌>>=◌,
  ◌>>◌, ensure, ok_or, map_err, when_some,
}
use ex_arrow.Beam.{Text}
use ex_arrow.Arrow.{
  DataType, TimeUnit, second, millisecond, microsecond, nanosecond, boolean, int8, int16, int32,
  int64, uint8, uint16, uint32, uint64, float32, float64, large_utf8, large_binary, timestamp,
  date32, date64, duration,
}
use ex_arrow.Ipc.Varlen.{VarlenError, decode_varlen_records}

pub data Column : Type 0 where
  -- `offset` and `len` count elements; `buffer` is the bytes of `values()`.
  fixed : DataType → (offset len : ℕ) → (buffer : List ℕ) → Column
  booleans : List (Option Bool) → Column
  texts large_texts binaries large_binaries : List (List ℕ) → Column

pub data Error : Type 0 where
  length_mismatch : (expected length size actual : ℕ) → Error
  bool_mismatch : (length actual : ℕ) → Error
  framing : VarlenError → Error
  invalid_utf8 : Text → Error
  unknown_dtype : String → Error
  unsupported : DataType → Error
  column_not_found : Text → Error
  lists_differ no_columns binary_alloc : Error
  -- A slice that is out of range is a panic.
  slice_index : Error
  arrow : Text → Error

-- The name, the size of an element and the type of each fixed-width column.
abbrev pub fixed_arms : List (String × ℕ × DataType)
fixed_arms =
    ("s8", 1, int8)
    ∷ ("s16", 2, int16)
    ∷ ("s32", 4, int32)
    ∷ ("s64", 8, int64)
    ∷ ("u8", 1, uint8)
    ∷ ("u16", 2, uint16)
    ∷ ("u32", 4, uint32)
    ∷ ("u64", 8, uint64)
    ∷ ("f32", 4, float32)
    ∷ ("f64", 8, float64)
    ∷ ("date32", 4, date32)
    ∷ ("date64", 8, date64)
    ∷ ("timestamp_seconds", 8, timestamp second none)
    ∷ ("timestamp_millis", 8, timestamp millisecond none)
    ∷ ("timestamp_micros", 8, timestamp microsecond none)
    ∷ ("timestamp_nanos", 8, timestamp nanosecond none)
    ∷ ("duration_seconds", 8, duration second)
    ∷ ("duration_millis", 8, duration millisecond)
    ∷ ("duration_micros", 8, duration microsecond)
    ∷ ("duration_nanos", 8, duration nanosecond)
    ∷ []

abbrev pub find_arm : String → List (String × ℕ × DataType) → Option (ℕ × DataType)
find_arm dtype [] = none
find_arm dtype (arm ∷ arms) =
    let rest = find_arm dtype arms in if str_eq dtype arm.0 then some (arm.1, arm.2) else rest

-- `b != 0`
abbrev pub nonzero : ℕ → Bool
nonzero b = not (b == 0)

module _ (build : DataType → ℕ → List ℕ → Option Text) (from_utf8 : List ℕ → Option Text) where
  -- `build_fixed_col!`
  build_fixed : List ℕ → ℕ → ℕ → DataType → Result Error (DataType × Column)
  build_fixed bytes len size dt =
      if length bytes == (len * size) % 2 ^ 64
      then when_some (build dt len bytes) (λ e. err (arrow e)) (ok (dt, fixed dt 0 len bytes))
      else err (length_mismatch ((len * size) % 2 ^ 64) len size (length bytes))

  build_bool : List ℕ → ℕ → Result Error (DataType × Column)
  build_bool bytes len =
      if length bytes == len
      then ok (boolean, booleans (map (λ b. some (nonzero b)) bytes))
      else err (bool_mismatch len (length bytes))

  -- `str::from_utf8` of each element; the first that is invalid ends it.
  check_utf8 : List (List ℕ) → Result Error (Unit {0})
  check_utf8 [] = ok tt
  check_utf8 (s ∷ elems) =
      let rest = check_utf8 elems in when_some (from_utf8 s) (λ e. err (invalid_utf8 e)) rest

  build_varlen : List ℕ → String → ℕ → Result Error (DataType × Column)
  unfolding check_utf8
  build_varlen bytes dtype len =
      if str_eq dtype "utf8"
      then (do
        elems ← map_err framing (decode_varlen_records bytes len "utf8")
        check_utf8 elems
        ok (DataType.utf8, texts elems))
      else if str_eq dtype "large_utf8"
      then (do
        elems ← map_err framing (decode_varlen_records bytes len "large_utf8")
        check_utf8 elems
        ok (large_utf8, large_texts elems))
      else if str_eq dtype "binary"
      then (do
        elems ← map_err framing (decode_varlen_records bytes len "binary")
        ok (DataType.binary, binaries elems))
      else if str_eq dtype "large_binary"
      then (do
        elems ← map_err framing (decode_varlen_records bytes len "large_binary")
        ok (large_binary, large_binaries elems))
      else err (unknown_dtype dtype)

  unfoldable pub build_column_array : List ℕ → String → ℕ → Result Error (DataType × Column)
  unfolding build_fixed build_bool build_varlen
  build_column_array bytes dtype len =
      when_some (find_arm dtype fixed_arms) (λ arm. build_fixed bytes len arm.0 arm.1)
        (if str_eq dtype "bool" then build_bool bytes len else build_varlen bytes dtype len)

  -- The fields are not nullable; `try_new` is given the names, the types and the arrays.
  module _ {Batch : Type 0} (try_new : List (Text × DataType × Column) → Result Text Batch) where
    unfoldable pub record_batch_from_column_binary : Text → List ℕ → String → ℕ → Result Error Batch
    unfolding build_column_array
    record_batch_from_column_binary name bytes dtype len = do
      (dt, column) ← build_column_array bytes dtype len
      map_err arrow (try_new ((name, dt, column) ∷ []))

    -- The `for` loop over the three lists, zipped.
    build_all :
        List Text → List (List ℕ) → List String → ℕ → Result Error (List (Text × DataType × Column))
    build_all (name ∷ names) (bytes ∷ binaries') (dtype ∷ dtypes) len = do
      (dt, column) ← build_column_array bytes dtype len
      rest ← build_all names binaries' dtypes len
      ok ((name, dt, column) ∷ rest)
    build_all _ _ _ len = ok []

    unfoldable pub record_batch_from_column_binaries :
        List Text → List (List ℕ) → List String → ℕ → Result Error Batch
    unfolding build_all
    record_batch_from_column_binaries names binaries' dtypes len = do
      ensure ((length names == length binaries') && (length names == length dtypes)) lists_differ
      ensure (not (length names == 0)) no_columns
      columns ← build_all names binaries' dtypes len
      map_err arrow (try_new columns)

-- The string and the size of an element in the arms of `extract_primitive_buffer`.
abbrev pub nx_arm : DataType → Option (String × ℕ)
nx_arm int8 = some ("s8", 1)
nx_arm int16 = some ("s16", 2)
nx_arm int32 = some ("s32", 4)
nx_arm int64 = some ("s64", 8)
nx_arm uint8 = some ("u8", 1)
nx_arm uint16 = some ("u16", 2)
nx_arm uint32 = some ("u32", 4)
nx_arm uint64 = some ("u64", 8)
nx_arm float32 = some ("f32", 4)
nx_arm float64 = some ("f64", 8)
nx_arm _ = none

-- A null and a false both leave the zero of the buffer.
abbrev pub bool_byte : Option Bool → ℕ
bool_byte (some true) = 1
bool_byte _ = 0

abbrev column_type : Column → DataType
column_type (fixed dt offset len bytes) = dt
column_type (booleans bits) = boolean
column_type (texts elems) = DataType.utf8
column_type (large_texts elems) = large_utf8
column_type (binaries elems) = DataType.binary
column_type (large_binaries elems) = large_binary

-- The bytes of `&values[start..end]`, for elements of this size.
value_slice : (size start end : ℕ) → List ℕ → Result Error (List ℕ)
value_slice size start end buffer =
    if leb start end && leb end (length buffer / size)
    then ok (take ((end - start) * size) (drop (start * size) buffer))
    else err slice_index

-- `grants`: whether `OwnedBinary::new` gives a binary of a size.
module _ (grants : ℕ → Bool) where
  -- `primitive_buffer!`
  primitive_buffer : String × ℕ → (offset len : ℕ) → List ℕ → Result Error (List ℕ × String × ℕ)
  unfolding value_slice
  primitive_buffer (name, size) offset len buffer = do
    bytes ← value_slice size offset ((offset + len) % 2 ^ 64) buffer
    ensure (grants (length bytes)) binary_alloc
    ok (bytes, name, len)

  unfoldable pub extract_primitive_buffer : Column → Result Error (List ℕ × String × ℕ)
  unfolding primitive_buffer
  extract_primitive_buffer (fixed dt offset len buffer) = do
    arm ← ok_or (nx_arm dt) (unsupported dt)
    primitive_buffer arm offset len buffer
  extract_primitive_buffer (booleans bits) = do
    ensure (grants (length bits)) binary_alloc
    ok (map bool_byte bits, "bool", length bits)
  extract_primitive_buffer column = err (unsupported (column_type column))

-- `column_named` is `schema.index_of(name)` and the column at that index.
unfoldable pub record_batch_column_buffer :
    {Batch : Type 0}
    → (ℕ → Bool)
    → (Batch → Text → Option Column)
    → Batch
    → Text
    → Result Error (List ℕ × String × ℕ)
unfolding extract_primitive_buffer
record_batch_column_buffer grants column_named batch name = do
  column ← ok_or (column_named batch name) (column_not_found name)
  extract_primitive_buffer grants column
