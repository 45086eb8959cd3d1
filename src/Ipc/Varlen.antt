-- ===== src/Ipc/Varlen.antt =====
-- native/ex_arrow_native/src/ipc.rs: `decode_varlen_records`, the framing of the variable-length
-- columns, beside the Elixir code that writes the frames.
-- A byte is a number below 256. The slice is indexed as in the source, from an offset; `usize` is
-- 64 bits wide, which no offset into a slice exceeds.
pub mod Frames
pub mod RoundTrip
pub mod Sound
use ex_arrow.Prelude.{
  ℕ, zero, suc, ◌+◌, ◌-◌, ◌*◌, ◌/◌, ◌%◌, String, Bool, List, [], ◌∷◌, ◌++◌, length, take, drop, ltb,
  ◌==◌, if◌then◌else◌, Result, ok, err, ◌>>=◌,
}

-- The three messages, with the values that they print.
pub data VarlenError : Type 0 where
  missing_prefix : (dtype : String) (element offset total : ℕ) → VarlenError
  truncated : (dtype : String) (element declared remain : ℕ) → VarlenError
  trailing : (dtype : String) (extra elements : ℕ) → VarlenError

-- `bytes[i]`; the guards of the loop keep `i` in range, so the default is never read.
abbrev pub byte_at : List ℕ → ℕ → ℕ
byte_at [] i = 0
byte_at (b ∷ bs) zero = b
byte_at (b ∷ bs) (suc i) = byte_at bs i

-- `u32::from_le_bytes`
abbrev pub from_le_bytes : ℕ → ℕ → ℕ → ℕ → ℕ
from_le_bytes a b c d = a + 256 * b + 65536 * c + 16777216 * d

abbrev pub prefix_at : List ℕ → ℕ → ℕ
prefix_at bytes offset =
    from_le_bytes (byte_at bytes offset) (byte_at bytes (offset + 1)) (byte_at bytes (offset + 2))
      (byte_at bytes (offset + 3))

-- `&bytes[offset..offset + len]`
abbrev pub slice : List ℕ → ℕ → ℕ → List ℕ
slice bytes offset len = take len (drop offset bytes)

module _ (dtype : String) (bytes : List ℕ) where
  -- The `for` loop, from element `i` with `left` elements to go: the elements and the offset.
  varlen_loop : (left i offset : ℕ) → List (List ℕ) → Result VarlenError (List (List ℕ) × ℕ)
  varlen_loop zero i offset elems = ok (elems, offset)
  varlen_loop (suc left) i offset elems =
      let len = prefix_at bytes offset in
      let start = offset + 4 in
      let rest = varlen_loop left (suc i) (start + len) (elems ++ slice bytes start len ∷ []) in
      if ltb (length bytes) (offset + 4)
      then err (missing_prefix dtype i offset (length bytes))
      else if ltb (length bytes) (start + len)
      then err (truncated dtype i len (length bytes - start))
      else rest

  -- The check that follows the loop.
  varlen_finish : ℕ → List (List ℕ) × ℕ → Result VarlenError (List (List ℕ))
  varlen_finish count (elems, offset) =
      if offset == length bytes
      then ok elems
      else err (trailing dtype (length bytes - offset) count)

unfoldable pub decode_varlen_records : List ℕ → ℕ → String → Result VarlenError (List (List ℕ))
unfolding varlen_loop varlen_finish
decode_varlen_records bytes count dtype =
    varlen_loop dtype bytes count 0 0 [] >>= varlen_finish dtype bytes count
