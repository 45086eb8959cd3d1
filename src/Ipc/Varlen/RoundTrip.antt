-- ===== src/Ipc/Varlen/RoundTrip.antt =====
-- Decoding what `pack_cell` has framed.
use ex_arrow.Prelude.{
  ℕ, suc, ◌+◌, ◌<◌, ◌≤◌, ◌≡◌, refl, ap, ◌∙◌, String, List, [], ◌∷◌, ◌++◌, length, take, drop,
  length-append, take-append_length, drop-append_length, arith, ok,
}
use mathlib.Core.List.{append_assoc, append-nil}
use ex_arrow.Ipc.Varlen.{prefix_at, slice, varlen_loop, decode_varlen_records}
use ex_arrow.Ipc.Varlen.Frames.{
  pack_cell, pack_cells, AllShort, from_le_bytes-u32_le, length-pack_cell, prefix_at-drop, drop-add,
}

module _ (bytes : List ℕ) (offset : ℕ) (v : List ℕ) (rest : List ℕ)
    (here : drop offset bytes ≡ pack_cell v ++ rest) where
  prefix_at-cell : length v < 4294967296 → prefix_at bytes offset ≡ length v
  unfolding pack_cell
  prefix_at-cell short =
      prefix_at-drop bytes offset
      ∙ ap (λ t. prefix_at t 0) here
      ∙ from_le_bytes-u32_le (length v) short

  drop-prefix : drop (offset + 4) bytes ≡ v ++ rest
  unfolding pack_cell
  drop-prefix = drop-add bytes offset 4 ∙ ap (λ t. drop 4 t) here

  slice-cell : slice bytes (offset + 4) (length v) ≡ v
  slice-cell = ap (λ t. take (length v) t) drop-prefix ∙ take-append_length v rest

  drop-cell : drop (offset + 4 + length v) bytes ≡ rest
  drop-cell =
      drop-add bytes (offset + 4) (length v)
      ∙ ap (λ t. drop (length v) t) drop-prefix
      ∙ drop-append_length v rest

module _ (dtype : String) (bytes : List ℕ) where
  -- A round of the loop whose two guards let it pass.
  loop-step :
      (left i offset : ℕ) (elems : List (List ℕ))
      → offset + 4 + prefix_at bytes offset ≤ length bytes
      → varlen_loop dtype bytes (suc left) i offset elems
        ≡ varlen_loop dtype bytes left
            (suc i)
            (offset + 4 + prefix_at bytes offset)
            (elems ++ slice bytes (offset + 4) (prefix_at bytes offset) ∷ [])
  unfolding varlen_loop
  loop-step left i offset elems h = ground arith

  loop-pack_cells :
      (vs : List (List ℕ)) (i offset : ℕ) (elems : List (List ℕ))
      → AllShort vs
      → drop offset bytes ≡ pack_cells vs
      → offset + length (pack_cells vs) ≡ length bytes
      → varlen_loop dtype bytes (length vs) i offset elems ≡ ok (elems ++ vs, length bytes)
  loop-pack_cells [] i offset elems short e total =
      let end : offset ≡ length bytes = unfold pack_cells in omega arith in
      unfold varlen_loop in cc (append-nil elems)
  loop-pack_cells (v ∷ vs) i offset elems short e total =
      let here : drop offset bytes ≡ pack_cell v ++ pack_cells vs = unfold pack_cells in e in
      let len = prefix_at-cell bytes offset v (pack_cells vs) here short.0 in
      let fits : offset + 4 + length v + length (pack_cells vs) ≡ length bytes =
        unfold pack_cells in
        omega (arith, length-append (pack_cell v) (pack_cells vs), length-pack_cell v) in
      loop-step (length vs) i offset elems (omega (arith, len))
      ∙ rw (len, slice-cell bytes offset v (pack_cells vs) here)
          (loop-pack_cells vs (suc i) (offset + 4 + length v) (elems ++ v ∷ []) short.1
              (drop-cell bytes offset v (pack_cells vs) here) fits
            ∙ ap (λ t. ok (t, length bytes)) (append_assoc elems (v ∷ []) vs))

-- Decoding the frames of any cells, each shorter than 2 ^ 32 bytes, gives those cells back, for
-- the number of cells that there are.
pub decode-pack_cells :
    (vs : List (List ℕ)) (dtype : String)
    → AllShort vs
    → decode_varlen_records (pack_cells vs) (length vs) dtype ≡ ok vs
unfolding decode_varlen_records
decode-pack_cells vs dtype short =
    rw (loop-pack_cells dtype (pack_cells vs) vs 0 0 [] short refl (omega arith)) (ground arith)
