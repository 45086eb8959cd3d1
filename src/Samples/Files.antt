-- ===== src/Samples/Files.antt =====
-- A reader of a file that is a list of batches.
use ex_arrow.Prelude.{
  ℕ, ◌+◌, ◌<◌, ◌≤◌, ◌≡◌, refl, ap, true, false, ltb, List, [], ◌∷◌, length, get_elem?,
  if◌then◌else◌, Result, ok, err, arith,
}
use ex_arrow.Beam.{Text}
use ex_arrow.Ipc.Files.{FileReader, FileReaderLaws}

abbrev pub Reading : Type 0
Reading = List (Result Text ℕ) × ℕ

abbrev pub refusal : Text
refusal = 73 ∷ []

abbrev pub seek : Reading → ℕ → Result Text Reading
seek r i = if ltb i (length r.0) then ok (r.0, i) else err refusal

abbrev pub list_reader : FileReader ℕ
list_reader = record {
  Reader = Reading;
  num_batches = λ r. length r.0;
  set_index = seek;
  next = λ r. (get_elem? r.0 r.1, (r.0, r.1 + 1));
}

pub seek-in : (r : Reading) (i : ℕ) → i < length r.0 → seek r i ≡ ok (r.0, i)
seek-in r i below =
    let t : ltb i (length r.0) ≡ true = ground arith in
    ap (λ b. if b then ok (r.0, i) else err refusal) t

pub seek-out : (r : Reading) (i : ℕ) → length r.0 ≤ i → seek r i ≡ err refusal
seek-out r i above =
    let t : ltb i (length r.0) ≡ false = ground arith in
    ap (λ b. if b then ok (r.0, i) else err refusal) t

abbrev pub list_laws : FileReaderLaws list_reader
list_laws = record {
  blocks = λ r. r.0;
  num_batches-blocks = λ r. refl;
  set_index-in = λ r i below. ((r.0, i), seek-in r i below, refl, refl);
  set_index-out = λ r i above. (refusal, seek-out r i above);
}
