-- ===== src/Ipc/Varlen/Sound.antt =====
-- What a successful decoding says of its input.
use ex_arrow.Prelude.{
  ℕ, zero, suc, ◌+◌, ◌/◌, ◌%◌, ◌<◌, ◌≤◌, ◌≡◌, refl, sym, subst, ap, ap₂, ◌∙◌, String, List, [], ◌∷◌,
  ◌++◌, length, drop, length-drop, length-take, take-append-drop, arith, ok, >>=-eq-ok,
}
use mathlib.Core.List.{append_assoc, append-nil}
use ex_arrow.Ipc.Varlen.{
  prefix_at, from_le_bytes, slice, varlen_loop, varlen_finish, decode_varlen_records,
}
use ex_arrow.Ipc.Varlen.Frames.{
  u32_le, pack_cell, pack_cells, AllShort, AllBytes, prefix_at-drop, drop-add,
}

-- The four bytes of a number below 2 ^ 32 determine it.
u32_le-from_le_bytes :
    (a b c d : ℕ)
    → a < 256
    → b < 256
    → c < 256
    → d < 256
    → u32_le (from_le_bytes a b c d) ≡ a ∷ b ∷ c ∷ d ∷ []
u32_le-from_le_bytes a b c d ha hb hc hd =
    let n = from_le_bytes a b c d in
    let ea : n % 256 ≡ a = omega arith in
    let eb : n / 256 % 256 ≡ b = omega arith in
    let ec : n / 65536 % 256 ≡ c = omega arith in
    let ed : n / 16777216 % 256 ≡ d = omega arith in cc (ea, eb, ec, ed)

u32_le-prefix_at :
    (xs : List ℕ)
    → AllBytes xs
    → 4 ≤ length xs
    → (u32_le (prefix_at xs 0) ++ drop 4 xs ≡ xs) × (prefix_at xs 0 < 4294967296)
u32_le-prefix_at (a ∷ b ∷ c ∷ d ∷ xs) h len =
    (ap (λ t. t ++ xs) (u32_le-from_le_bytes a b c d h.0 h.1.0 h.1.1.0 h.1.1.1.0), omega arith)
u32_le-prefix_at _ h len = absurd (omega arith)

AllBytes-drop : (n : ℕ) (xs : List ℕ) → AllBytes xs → AllBytes (drop n xs)
AllBytes-drop zero xs h = h
AllBytes-drop (suc n) [] h = tt
AllBytes-drop (suc n) (x ∷ xs) h = AllBytes-drop n xs h.1

-- A cell, its prefix read back from the slice, and what follows it.
module _ (bytes : List ℕ) (offset : ℕ) (valid : AllBytes bytes) where
  abbrev cell : List ℕ
  cell = slice bytes (offset + 4) (prefix_at bytes offset)

  length-cell :
      offset + 4 + prefix_at bytes offset ≤ length bytes → length cell ≡ prefix_at bytes offset
  length-cell fits = omega (
    arith,
    length-take (prefix_at bytes offset) (drop (offset + 4) bytes),
    length-drop (offset + 4) bytes,
  )

  drop-eq-pack_cell :
      offset + 4 + prefix_at bytes offset ≤ length bytes
      → (drop offset bytes ≡ pack_cell cell ++ drop (offset + 4 + prefix_at bytes offset) bytes)
        × (length cell < 4294967296)
  unfolding pack_cell
  drop-eq-pack_cell fits =
      let rest = drop offset bytes in
      let len = prefix_at bytes offset in
      let (head, small) =
        u32_le-prefix_at rest (AllBytes-drop offset bytes valid)
          (omega (arith, length-drop offset bytes)) in
      let size : prefix_at rest 0 ≡ length cell =
        sym (prefix_at-drop bytes offset) ∙ sym (length-cell fits) in
      let tail : drop 4 rest ≡ cell ++ drop (offset + 4 + len) bytes =
        sym (drop-add bytes offset 4)
        ∙ sym (take-append-drop len (drop (offset + 4) bytes))
        ∙ ap (λ t. cell ++ t) (sym (drop-add bytes (offset + 4) len)) in
      (sym head ∙ ap₂ (λ n t. u32_le n ++ t) size tail, omega (arith, size))

module _ (dtype : String) (bytes : List ℕ) (valid : AllBytes bytes) where
  -- A round that does not end in an error passes both guards.
  loop-eq-ok :
      (left i offset : ℕ) (elems : List (List ℕ)) {r : List (List ℕ) × ℕ}
      → varlen_loop dtype bytes (suc left) i offset elems ≡ ok r
      → (offset + 4 + prefix_at bytes offset ≤ length bytes)
        × (varlen_loop dtype bytes left
              (suc i)
              (offset + 4 + prefix_at bytes offset)
              (elems ++ cell bytes offset valid ∷ [])
            ≡ ok r)
  unfolding varlen_loop
  loop-eq-ok left i offset elems h = ground arith

  abbrev Framed : ℕ → ℕ → List (List ℕ) → List (List ℕ) × ℕ → Type 0
  Framed left offset elems r =
      (vs : List (List ℕ)) × (r.0 ≡ elems ++ vs)
      × (length vs ≡ left)
      × AllShort vs
      × (drop offset bytes ≡ pack_cells vs ++ drop r.1 bytes)

  loop-Framed :
      (left i offset : ℕ) (elems : List (List ℕ)) (r : List (List ℕ) × ℕ)
      → varlen_loop dtype bytes left i offset elems ≡ ok r
      → Framed left offset elems r
  unfolding pack_cells
  loop-Framed zero i offset elems (out, end) h =
      let done : (out ≡ elems) × (end ≡ offset) = unfold varlen_loop in ground arith in
      ([], done.0 ∙ sym (append-nil elems), refl, tt, ap (λ t. drop t bytes) (sym done.1))
  loop-Framed (suc left) i offset elems r h =
      let (fits, more) = loop-eq-ok left i offset elems h in
      let (vs, outs, count, short, framed) = loop-Framed left (suc i) _ _ r more in
      let v = cell bytes offset valid in
      let (first, small) = drop-eq-pack_cell bytes offset valid fits in
      (
        v ∷ vs,
        outs ∙ append_assoc elems (v ∷ []) vs,
        ap suc count,
        (small, short),
        first
            ∙ ap (λ t. pack_cell v ++ t) framed
            ∙ sym (append_assoc (pack_cell v) (pack_cells vs) (drop r.1 bytes)),
      )

drop-length : (xs : List ℕ) → drop (length xs) xs ≡ []
drop-length [] = refl
drop-length (x ∷ xs) = drop-length xs

-- A slice that decodes to `elems` is exactly the frames of `elems`: nothing of it is skipped or
-- left over, there are `count` elements, and each is shorter than 2 ^ 32 bytes.
pub decode-eq-ok :
    (bytes : List ℕ) (count : ℕ) (dtype : String) (elems : List (List ℕ))
    → AllBytes bytes
    → decode_varlen_records bytes count dtype ≡ ok elems
    → (bytes ≡ pack_cells elems) × (length elems ≡ count) × AllShort elems
decode-eq-ok bytes count dtype elems valid h =
    let ((out, end), looped, finished) =
      >>=-eq-ok (varlen_loop dtype bytes count 0 0 []) (varlen_finish dtype bytes count)
        {out = elems} (unfold decode_varlen_records in h) in
    let (vs, outs, len, short, framed) =
      loop-Framed dtype bytes valid count 0 0 [] (out, end) looped in
    let done : (end ≡ length bytes) × (out ≡ elems) = unfold varlen_finish in ground arith in
    let same : vs ≡ elems = sym outs ∙ done.1 in
    let spent : drop end bytes ≡ [] = ap (λ t. drop t bytes) done.0 ∙ drop-length bytes in
    (
      framed ∙ ap₂ (λ a b. pack_cells a ++ b) same spent ∙ append-nil (pack_cells elems),
      ap length (sym same) ∙ len,
      subst AllShort same short,
    )
