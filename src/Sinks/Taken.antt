-- ===== src/Sinks/Taken.antt =====
-- When a writing succeeds: the writer takes each batch in turn and finishes.
use ex_arrow.Prelude.{◌≡◌, refl, ◌∙◌, ap, List, [], ◌∷◌, Result, ok, err}
use ex_arrow.Beam.{Text}
use ex_arrow.Sinks.{write_batches}

module _ {Writer Batch : Type 0} (write : Writer → Batch → Result Text Writer × Text)
    (finish : Writer → Result Text (Unit {0}) × Text) where
  -- The writer takes these batches, each in the state that the one before it leaves, and then finishes
  -- with these bytes written.
  pub data Takes (bytes : Text) : Writer → List Batch → Type 0 where
    finished : (w : Writer) → finish w ≡ (ok tt, bytes) → Takes bytes w []
    took :
        (w next : Writer) (b : Batch) (bs : List Batch)
        → (write w b).0 ≡ ok next
        → Takes bytes next bs
        → Takes bytes w (b ∷ bs)

  pub Takes-write_batches :
      (bytes : Text) (start : Result Text Writer × Text) (w : Writer) (bs : List Batch)
      → start.0 ≡ ok w
      → Takes bytes w bs
      → write_batches write finish start bs ≡ (ok tt, bytes)
  unfolding write_batches
  Takes-write_batches bytes (err e, out) w bs is h = absurd (cc is)
  Takes-write_batches bytes (ok v, out) _ _ is (finished w ends) =
      let same : v ≡ w = cc is in ap finish same ∙ ends
  Takes-write_batches bytes (ok v, out) _ _ is (took w next b bs wrote rest) =
      let same : v ≡ w = cc is in
      Takes-write_batches bytes (write v b) next bs (ap (λ x. (write x b).0) same ∙ wrote) rest

  pub write_batches-Takes :
      (bytes : Text) (start : Result Text Writer × Text) (bs : List Batch)
      → write_batches write finish start bs ≡ (ok tt, bytes)
      → (w : Writer) × (start.0 ≡ ok w) × Takes bytes w bs
  unfolding write_batches
  write_batches-Takes bytes (err e, out) bs h = absurd (cc (ap (λ t. t.0) h))
  write_batches-Takes bytes (ok w, out) [] h = (w, refl, finished w h)
  write_batches-Takes bytes (ok w, out) (b ∷ bs) h =
      let (next, wrote, rest) = write_batches-Takes bytes (write w b) bs h in
      (w, refl, took w next b bs wrote rest)
