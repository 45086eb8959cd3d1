-- ===== src/Ipc/Columns/Extracted.antt =====
-- Extraction gives back what a column of numbers was built of.
use native.Mathlib.Nat.{mul-div_cancel, mul-le-mul_left, mod-eq_of_lt}
use mathlib.Core.Option.{some-injective}
use text.Mathlib.Text.{◌==◌ as str_eq}
use text.Mathlib.TextEquality.{eq_iff}
use ex_arrow.Prelude.{
  ap₂, ◌-◌, err, Result, ◌<◌, ◌≤◌, ◌/◌, ◌+◌, take, ltb, leb, ◌&&◌, if◌then◌else◌, arith, none, ℕ,
  ◌*◌, ◌%◌, ◌^◌, ◌≡◌, refl, sym, ap, ◌∙◌, subst, Bool, true, false, String, Option, some, List, [],
  ◌∷◌, map, length, ◌==◌, Bool-cases, inl, inr, ok, map_err, when_some, Yields, Yields-ok,
  Yields-err, Yields-if, Yields-bind, Yields-when_some,
}
use ex_arrow.Beam.{Text}
use ex_arrow.Arrow.{
  int8, int16, int32, int64, uint8, uint16, uint32, uint64, float32, float64, DataType, boolean,
  large_utf8, large_binary,
}
use ex_arrow.Ipc.Varlen.{decode_varlen_records}
use ex_arrow.Ipc.Columns.{
  Column, fixed, booleans, texts, large_texts, binaries, large_binaries, framing, arrow,
  bool_mismatch, unknown_dtype, fixed_arms, find_arm, nonzero, build_fixed, build_bool, check_utf8,
  build_varlen, build_column_array, nx_arm, extract_primitive_buffer, Error, binary_alloc,
  value_slice, primitive_buffer,
}

and-true : (a b : Bool) → (a && b) ≡ true → (a ≡ true) × (b ≡ true)
and-true a b h = ground arith

abbrev pub is_number : DataType → Bool
is_number dt = when_some (nx_arm dt) (λ name. true) false

-- What the macros build_fixed_col! and primitive_buffer! are given for a type of numbers is the same.
abbrev agree : List (String × ℕ × DataType) → Bool
agree [] = true
agree (arm ∷ arms) =
    when_some (nx_arm arm.2) (λ a. str_eq a.0 arm.0 && (a.1 == arm.1)) true && agree arms

fixed_arms-agree : agree fixed_arms ≡ true
fixed_arms-agree = refl

agreed :
    (found : Option (String × ℕ)) (name : String) (size : ℕ)
    → when_some found (λ a. str_eq a.0 name && (a.1 == size)) true ≡ true
    → when_some found (λ a. true) false ≡ true
    → found ≡ some (name, size)
agreed none name size same number = cc
agreed (some (n, w)) name size same number =
    let named : str_eq n name ≡ true = ground arith in
    let sized : w ≡ size = ground arith in ap₂ (λ a b. some (a, b)) ((eq_iff n name).0 named) sized

find_arm-agree :
    (dtype : String) (arms : List (String × ℕ × DataType)) (size : ℕ) (dt : DataType)
    → agree arms ≡ true
    → find_arm dtype arms ≡ some (size, dt)
    → is_number dt ≡ true
    → (name : String) × (str_eq dtype name ≡ true) × (nx_arm dt ≡ some (name, size))
find_arm-agree dtype [] size dt same h number = cc
find_arm-agree dtype (arm ∷ arms) size dt same h number =
    let (here, there) =
      and-true (when_some (nx_arm arm.2) (λ a. str_eq a.0 arm.0 && (a.1 == arm.1)) true)
        (agree arms) same in
    elim (Bool-cases (str_eq dtype arm.0)) [
      | inl e ↦
          let is = some-injective _ _ (rw e at h) in
          let typed : arm.2 ≡ dt = ap (λ t. t.1) is in
          let sized : arm.1 ≡ size = ap (λ t. t.0) is in
          let numbered = subst (λ t. is_number t ≡ true) (sym typed) number in
          (
            arm.0,
            e,
            ap nx_arm (sym typed)
                ∙ agreed (nx_arm arm.2) arm.0 arm.1 here numbered
                ∙ ap (λ n. some (arm.0, n)) sized,
          )
      | inr e ↦ find_arm-agree dtype arms size dt there (rw e at h) number
    ]

-- The sizes of numbers.
abbrev is_small : Option (String × ℕ) → Bool
is_small none = true
is_small (some (name, size)) = ltb 0 size && leb size 8

nx_arm-is_small : (dt : DataType) → is_small (nx_arm dt) ≡ true
nx_arm-is_small int8 = refl
nx_arm-is_small int16 = refl
nx_arm-is_small int32 = refl
nx_arm-is_small int64 = refl
nx_arm-is_small uint8 = refl
nx_arm-is_small uint16 = refl
nx_arm-is_small uint32 = refl
nx_arm-is_small uint64 = refl
nx_arm-is_small float32 = refl
nx_arm-is_small float64 = refl
nx_arm-is_small _ = refl

take_all : (bytes : List ℕ) → take (length bytes) bytes ≡ bytes
take_all [] = refl
take_all (b ∷ bytes) = ap (λ l. b ∷ l) (take_all bytes)

-- All of a buffer that has the bytes of as many elements.
value_slice-all :
    (size len : ℕ) (bytes : List ℕ)
    → 0 < size
    → length bytes ≡ len * size
    → value_slice size 0 len bytes ≡ ok bytes
unfolding value_slice
value_slice-all size len bytes some_size h =
    let fits : leb len (length bytes / size) ≡ true =
      ap (λ n. leb len (n / size)) h
      ∙ ap (leb len) (mul-div_cancel len some_size)
      ∙ (let own : leb len len ≡ true = ground arith in own) in
    let least : leb 0 len ≡ true = ground arith in
    let all : len - 0 ≡ len = omega arith in
    let none_before : 0 * size ≡ 0 = omega arith in
    rw (least, fits, all, none_before) (ap ok (ap (λ n. take n bytes) (sym h) ∙ take_all bytes))

-- A binary of these bytes, if the BEAM grants one.
abbrev pub sent : (ℕ → Bool) → List ℕ → String → ℕ → Result Error (List ℕ × String × ℕ)
sent grants bytes name len =
    if grants (length bytes) then ok (bytes, name, len) else err binary_alloc

primitive_buffer-all :
    (grants : ℕ → Bool) (name : String) (size len : ℕ) (bytes : List ℕ)
    → (ltb 0 size && leb size 8) ≡ true
    → len * 8 < 2 ^ 64
    → length bytes ≡ (len * size) % 2 ^ 64
    → primitive_buffer grants (name, size) 0 len bytes ≡ sent grants bytes name len
unfolding primitive_buffer
primitive_buffer-all grants name size len bytes small few h =
    let some_size : 0 < size = ground arith in
    let at_most : size ≤ 8 = ground arith in
    let product : len * size ≤ len * 8 = mul-le-mul_left len at_most in
    let counted : length bytes ≡ len * size = h ∙ mod-eq_of_lt (omega (arith, product, few)) in
    let end : (0 + len) % 2 ^ 64 ≡ len = omega (arith, few) in
    rw (end, value_slice-all size len bytes some_size counted)
      (elim (Bool-cases (grants (length bytes))) [
        | inl granted ↦ rw granted refl
        | inr refused ↦ rw refused refl
      ])

module _ (grants : ℕ → Bool) (build : DataType → ℕ → List ℕ → Option Text)
    (from_utf8 : List ℕ → Option Text) (bytes : List ℕ) (dtype : String) (len : ℕ)
    (few : len * 8 < 2 ^ 64) where
  -- What extraction answers for a column of numbers.
  abbrev Returns : DataType × Column → Type 0
  Returns (dt, column) =
      is_number dt ≡ true
      → (name : String) × (str_eq dtype name ≡ true)
        × (extract_primitive_buffer grants column ≡ sent grants bytes name len)

  fixed-Returns :
      (size : ℕ) (dt : DataType)
      → find_arm dtype fixed_arms ≡ some (size, dt)
      → Yields Returns (build_fixed build from_utf8 bytes len size dt)
  unfolding build_fixed extract_primitive_buffer
  fixed-Returns size dt found =
      Yields-if (length bytes == (len * size) % 2 ^ 64)
        (λ h.
          Yields-when_some (build dt len bytes) (λ e _. Yields-err (arrow e))
            (Yields-ok (dt, fixed dt 0 len bytes)
              (λ number.
                let (name, same, called) =
                  find_arm-agree dtype fixed_arms size dt fixed_arms-agree found number in
                let small : is_small (some (name, size)) ≡ true =
                  subst (λ o. is_small o ≡ true) called (nx_arm-is_small dt) in
                let counted : length bytes ≡ (len * size) % 2 ^ 64 = ground arith in
                (
                  name,
                  same,
                  rw called (primitive_buffer-all grants name size len bytes small few counted),
                ))))
        (λ _. Yields-err _)

  bool-Returns : Yields Returns (build_bool build from_utf8 bytes len)
  unfolding build_bool
  bool-Returns =
      Yields-if (length bytes == len)
        (λ _. Yields-ok (boolean, booleans (map (λ b. some (nonzero b)) bytes)) (λ number. cc))
        (λ _. Yields-err (bool_mismatch len (length bytes)))

  varlen-Returns : Yields Returns (build_varlen build from_utf8 bytes dtype len)
  unfolding build_varlen
  varlen-Returns =
      Yields-if (str_eq dtype "utf8")
        (λ _. Yields-bind (map_err framing (decode_varlen_records bytes len "utf8")) λ elems h.
          Yields-bind (check_utf8 build from_utf8 elems)
            λ u _. Yields-ok (DataType.utf8, texts elems) (λ number. cc))
        (λ _.
          Yields-if (str_eq dtype "large_utf8")
            (λ _.
              Yields-bind (map_err framing (decode_varlen_records bytes len "large_utf8"))
                λ elems h.
                  Yields-bind (check_utf8 build from_utf8 elems)
                    λ u _. Yields-ok (large_utf8, large_texts elems) (λ number. cc))
            (λ _.
              Yields-if (str_eq dtype "binary")
                (λ _.
                  Yields-bind (map_err framing (decode_varlen_records bytes len "binary"))
                    λ elems h. Yields-ok (DataType.binary, binaries elems) (λ number. cc))
                (λ _.
                  Yields-if (str_eq dtype "large_binary")
                    (λ _.
                      Yields-bind (map_err framing (decode_varlen_records bytes len "large_binary"))
                        λ elems h. Yields-ok (large_binary, large_binaries elems) (λ number. cc))
                    (λ _. Yields-err (unknown_dtype dtype)))))

  column-Returns : Yields Returns (build_column_array build from_utf8 bytes dtype len)
  unfolding build_column_array
  column-Returns =
      Yields-when_some (find_arm dtype fixed_arms) (λ arm found. fixed-Returns arm.0 arm.1 found)
        (Yields-if (str_eq dtype "bool") (λ _. bool-Returns) (λ _. varlen-Returns))

-- The buffer extracted from a column of numbers that was built of bytes is those bytes, with the name and
-- the length that it was built with, unless the BEAM grants no binary of their number, which is an error.
-- The elements are fewer than 2 ^ 61.
pub extract_primitive_buffer-build_column_array :
    (grants : ℕ → Bool) (build : DataType → ℕ → List ℕ → Option Text)
    (from_utf8 : List ℕ → Option Text) (bytes : List ℕ) (dtype : String) (len : ℕ) (dt : DataType)
    (column : Column)
    → len * 8 < 2 ^ 64
    → build_column_array build from_utf8 bytes dtype len ≡ ok (dt, column)
    → is_number dt ≡ true
    → (name : String) × (str_eq dtype name ≡ true)
      × (extract_primitive_buffer grants column ≡ sent grants bytes name len)
extract_primitive_buffer-build_column_array grants build from_utf8 bytes dtype len dt column few h
      number =
    (column-Returns grants build from_utf8 bytes dtype len few).at (dt, column) h number
