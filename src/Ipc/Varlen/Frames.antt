-- ===== src/Ipc/Varlen/Frames.antt =====
-- The frames that lib/ex_arrow/record_batch.ex writes (`pack_cell`) and their bytes.
use ex_arrow.Prelude.{
  ℕ, suc, ◌+◌, ◌/◌, ◌%◌, ◌<◌, ◌≡◌, refl, ap, ◌∙◌, List, [], ◌∷◌, ◌++◌, zero, length, drop, arith,
}
use ex_arrow.Ipc.Varlen.{byte_at, from_le_bytes, prefix_at}

-- `<<n::little-unsigned-32>>`
abbrev pub u32_le : ℕ → List ℕ
u32_le n = n % 256 ∷ n / 256 % 256 ∷ n / 65536 % 256 ∷ n / 16777216 % 256 ∷ []

-- `<<byte_size(v)::little-unsigned-32, v::binary>>`
unfoldable pub pack_cell : List ℕ → List ℕ
pack_cell v = u32_le (length v) ++ v

unfoldable pub pack_cells : List (List ℕ) → List ℕ
pack_cells [] = []
pack_cells (v ∷ vs) = pack_cell v ++ pack_cells vs

-- Every cell is short enough for its 32-bit prefix.
abbrev pub AllShort : List (List ℕ) → Type 0
AllShort [] = Unit
AllShort (v ∷ vs) = (length v < 4294967296) × AllShort vs

abbrev pub AllBytes : List ℕ → Type 0
AllBytes [] = Unit
AllBytes (b ∷ bs) = (b < 256) × AllBytes bs

pub from_le_bytes-u32_le :
    (n : ℕ)
    → n < 4294967296
    → from_le_bytes (n % 256) (n / 256 % 256) (n / 65536 % 256) (n / 16777216 % 256) ≡ n
from_le_bytes-u32_le n h = omega arith

pub length-pack_cell : (v : List ℕ) → length (pack_cell v) ≡ 4 + length v
unfolding pack_cell
length-pack_cell v = omega arith

-- Reading from an offset is reading the rest of the slice.
pub byte_at-drop : (xs : List ℕ) (n k : ℕ) → byte_at xs (n + k) ≡ byte_at (drop n xs) k
byte_at-drop xs zero k = ap (byte_at xs) (omega arith)
byte_at-drop [] (suc n) k = refl
byte_at-drop (x ∷ xs) (suc n) k =
    let e : suc n + k ≡ suc (n + k) = omega arith in rw e (byte_at-drop xs n k)

pub drop-add : (xs : List ℕ) (n k : ℕ) → drop (n + k) xs ≡ drop k (drop n xs)
drop-add xs zero k = let e : zero + k ≡ k = omega arith in rw e
drop-add [] (suc n) zero = let e : suc n + zero ≡ suc n = omega arith in rw e
drop-add [] (suc n) (suc k) = let e : suc n + suc k ≡ suc (n + suc k) = omega arith in rw e
drop-add (x ∷ xs) (suc n) k =
    let e : suc n + k ≡ suc (n + k) = omega arith in rw e (drop-add xs n k)

-- The prefix at an offset, as the first four bytes of the rest.
pub prefix_at-drop : (xs : List ℕ) (n : ℕ) → prefix_at xs n ≡ prefix_at (drop n xs) 0
prefix_at-drop xs n =
    let first : byte_at xs n ≡ byte_at (drop n xs) 0 =
      ap (byte_at xs) (omega arith) ∙ byte_at-drop xs n 0 in
    omega (arith, first, byte_at-drop xs n 1, byte_at-drop xs n 2, byte_at-drop xs n 3)
