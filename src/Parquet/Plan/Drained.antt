-- ===== src/Parquet/Plan/Drained.antt =====
-- What a client that calls `parquet_stream_next` again and again gets.
use ex_arrow.Prelude.{
  suc, ok, ◌∙◌, answers, Gives, answers-Gives, sym, subst, ℕ, ◌+◌, ◌≡◌, refl, ap, false, List, [],
  ◌∷◌, ◌++◌, map, length, replicate, Result,
}
use ex_arrow.Beam.{Text}
use ex_arrow.Arrow.{Floats}
use ex_arrow.Parquet.Plan.{Stream, Reply, done, batch, reply_of, next_item, parquet_stream_next}

module _ (fl : Floats) (lossy : Text → Text) (Batch Schema : Type 0) where
  abbrev Calls : Type 0
  Calls = Stream fl lossy Batch Schema

  -- The replies of a number of calls in a row.
  abbrev pub replies : ℕ → Calls → List (Reply fl lossy Batch Schema)
  replies n stream = answers (parquet_stream_next fl lossy Batch Schema) n stream

  -- A stream with a sound lock that has these to give.
  abbrev Has : List (Result Text Batch) → Calls → Type 0
  Has items stream = (stream.poisoned ≡ false) × (stream.reader ≡ items)

  next-cons :
      (stream : Calls) (item : Result Text Batch) (rest : List (Result Text Batch))
      → Has (item ∷ rest) stream
      → parquet_stream_next fl lossy Batch Schema stream
        ≡ (reply_of fl lossy Batch Schema item, record stream { reader = rest })
  unfolding parquet_stream_next next_item
  next-cons stream item rest (sound, has) = rw (sound, has)

  next-nil :
      (stream : Calls)
      → Has [] stream
      → parquet_stream_next fl lossy Batch Schema stream ≡ (done, record stream { reader = [] })
  unfolding parquet_stream_next next_item
  next-nil stream (sound, has) = rw (sound, has)

  parquet_stream_next-Gives :
      Gives (parquet_stream_next fl lossy Batch Schema) (reply_of fl lossy Batch Schema) done Has
  parquet_stream_next-Gives = record {
    call-nil = λ stream has.
        let step = next-nil stream has in
        (ap (λ t. t.0) step, subst (λ t. Has [] t.1) (sym step) (has.0, refl));
    call-cons = λ item rest stream has.
        let step = next-cons stream item rest has in
        (ap (λ t. t.0) step, subst (λ t. Has rest t.1) (sym step) (has.0, refl));
  }

  map-reply_of : (bs : List Batch) → map (reply_of fl lossy Batch Schema) (map ok bs) ≡ map batch bs
  map-reply_of [] = refl
  map-reply_of (b ∷ bs) = ap (λ l. batch b ∷ l) (map-reply_of bs)

  length-map_ok : (bs : List Batch) → length {A = Result Text Batch} (map ok bs) ≡ length bs
  length-map_ok [] = refl
  length-map_ok (b ∷ bs) = ap suc (length-map_ok bs)

  -- The batches that are left, and then `done`.
  pub parquet_stream_next-batches :
      (stream : Calls) (bs : List Batch) (extra : ℕ)
      → stream.poisoned ≡ false
      → stream.reader ≡ map ok bs
      → replies (length bs + extra) stream ≡ map batch bs ++ replicate extra done
  parquet_stream_next-batches stream bs extra sound has =
      ap (λ n. replies (n + extra) stream) (sym (length-map_ok bs))
      ∙ answers-Gives (parquet_stream_next fl lossy Batch Schema) (reply_of fl lossy Batch Schema)
          done Has parquet_stream_next-Gives (map ok bs) extra stream (sound, has)
      ∙ ap (λ l. l ++ replicate extra done) (map-reply_of bs)
