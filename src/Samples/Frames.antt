-- ===== src/Samples/Frames.antt =====
-- The frames of three cells, one of them empty.
use ex_arrow.Prelude.{ℕ, List, [], ◌∷◌, ◌≡◌, refl, length, ok, arith}
use ex_arrow.Ipc.Varlen.{decode_varlen_records}
use ex_arrow.Ipc.Varlen.Frames.{pack_cell, pack_cells, AllShort, AllBytes}
use ex_arrow.Ipc.Varlen.RoundTrip.{decode-pack_cells}
use ex_arrow.Ipc.Varlen.Sound.{decode-eq-ok}

abbrev cells : List (List ℕ)
cells = (b'a' ∷ b'b' ∷ []) ∷ [] ∷ (b'c' ∷ []) ∷ []

abbrev bytes : List ℕ
bytes = 2 ∷ 0 ∷ 0 ∷ 0 ∷ b'a' ∷ b'b' ∷ 0 ∷ 0 ∷ 0 ∷ 0 ∷ 1 ∷ 0 ∷ 0 ∷ 0 ∷ b'c' ∷ []

bytes-packed : pack_cells cells ≡ bytes
unfolding pack_cells pack_cell
bytes-packed = refl

bytes-decoded : decode_varlen_records bytes 3 "utf8" ≡ ok cells
unfolding decode_varlen_records
bytes-decoded = refl

decode-pack_cells_example :
    decode_varlen_records (pack_cells cells) (length cells) "utf8" ≡ ok cells
decode-pack_cells_example =
    decode-pack_cells cells "utf8" (omega arith, (omega arith, (omega arith, tt)))

bytes-AllBytes : AllBytes bytes
bytes-AllBytes = ground arith

decode-eq-ok_example : (bytes ≡ pack_cells cells) × (length cells ≡ 3) × AllShort cells
decode-eq-ok_example = decode-eq-ok bytes 3 "utf8" cells bytes-AllBytes bytes-decoded
