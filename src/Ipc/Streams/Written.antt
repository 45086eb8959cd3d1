-- ===== src/Ipc/Streams/Written.antt =====
-- A stream that is written to memory is read again.
use ex_arrow.Prelude.{
  true, ℕ, suc, ◌+◌, ◌≡◌, refl, sym, ◌∙◌, ap, subst, Bool, false, List, [], ◌∷◌, ◌++◌, map, length,
  replicate, Result, ok, map_err-eq-ok, answers, Gives, answers-Gives,
}
use ex_arrow.Beam.{Text}
use ex_arrow.Sinks.{write_batches, binary_of}
use ex_arrow.Sinks.Kept.{AllFit, Finished, write_batches-Finished, binary_of-eq-ok}
use ex_arrow.Ipc.Files.{Backing, binary}
use ex_arrow.Ipc.Streams.{
  IpcFormats, Format, stream_format, Sink, memory, IpcStream, done, batch, reply_of, stream_of,
  ipc_reader_from_binary, ipc_stream_schema, next_item, ipc_stream_next, message,
  ipc_writer_to_binary,
}

-- What is known of a writer, by the schema and the batches that it was given.
pub record WriterLaws (lib : IpcFormats) : Type 0 where
  pub sink_of : lib.Writer → Sink
  pub format_of : lib.Writer → Format
  pub schema_of : lib.Writer → lib.Schema
  pub written : lib.Writer → List lib.Batch
  pub start-eq-ok :
      (sink : Sink) (format : Format) (s : lib.Schema) (w : lib.Writer)
      → (lib.start sink format s).0 ≡ ok w
      → (sink_of w ≡ sink) × (format_of w ≡ format) × (schema_of w ≡ s) × (written w ≡ [])
  pub write-eq-ok :
      (w w' : lib.Writer) (b : lib.Batch)
      → lib.batch_schema b ≡ schema_of w
      → (lib.write w b).0 ≡ ok w'
      → (sink_of w' ≡ sink_of w)
        × (format_of w' ≡ format_of w)
        × (schema_of w' ≡ schema_of w)
        × (written w' ≡ written w ++ b ∷ [])
  pub read_stream-finish :
      (w : lib.Writer)
      → format_of w ≡ stream_format
      → (lib.finish w).0 ≡ ok tt
      → lib.read_stream (lib.finish w).1 ≡ ok (schema_of w, map ok (written w))

module _ (lib : IpcFormats) (laws : WriterLaws lib) where
  open laws use {sink_of, format_of, schema_of, written}

  -- Batches of this schema.
  abbrev pub AllOf : lib.Schema → List lib.Batch → Type 0
  AllOf s bs = AllFit (λ b. lib.batch_schema b ≡ s) bs

  pub record Holds (sink : Sink) (format : Format) (s : lib.Schema) (bs : List lib.Batch)
      (w : lib.Writer) : Type 0 where
    pub sunk : sink_of w ≡ sink
    pub formed : format_of w ≡ format
    pub given : schema_of w ≡ s
    pub has : written w ≡ bs

  write-Holds :
      (sink : Sink) (format : Format) (s : lib.Schema) (before : List lib.Batch) (w w' : lib.Writer)
      (b : lib.Batch)
      → Holds sink format s before w
      → lib.batch_schema b ≡ s
      → (lib.write w b).0 ≡ ok w'
      → Holds sink format s (before ++ b ∷ []) w'
  write-Holds sink format s before w w' b h fits wrote =
      let (same_sink, same_format, same_schema, grew) =
        laws.write-eq-ok w w' b (fits ∙ sym h.given) wrote in
      record {
        sunk = same_sink ∙ h.sunk;
        formed = same_format ∙ h.formed;
        given = same_schema ∙ h.given;
        has = grew ∙ ap (λ l. l ++ b ∷ []) h.has;
      }

  started :
      (sink : Sink) (format : Format) (s : lib.Schema) (w : lib.Writer)
      → (lib.start sink format s).0 ≡ ok w
      → Holds sink format s [] w
  started sink format s w e =
      let (sunk, formed, given, empty) = laws.start-eq-ok sink format s w e in
      record { sunk = sunk; formed = formed; given = given; has = empty }

  abbrev pub writing : Sink → Format → lib.Schema → List lib.Batch → Result Text (Unit {0}) × Text
  writing sink format s bs = write_batches lib.write lib.finish (lib.start sink format s) bs

  abbrev pub Wrote :
      Sink → Format → lib.Schema → List lib.Batch → Result Text (Unit {0}) × Text → Type 0
  Wrote sink format s bs answer = Finished lib.write lib.finish (Holds sink format s) bs answer

  -- What a writing that succeeds has written.
  pub writing-Wrote :
      (sink : Sink) (format : Format) (s : lib.Schema) (bs : List lib.Batch)
      → AllOf s bs
      → (writing sink format s bs).0 ≡ ok tt
      → Wrote sink format s bs (writing sink format s bs)
  writing-Wrote sink format s bs fit wrote =
      write_batches-Finished lib.write lib.finish (Holds sink format s)
        (λ b. lib.batch_schema b ≡ s) (write-Holds sink format s) [] bs (lib.start sink format s)
        (started sink format s) fit wrote

  -- A stream that is read of what was written.
  pub read_back :
      (sink : Sink) (s : lib.Schema) (bs : List lib.Batch) (answer : Result Text (Unit {0}) × Text)
      → Wrote sink stream_format s bs answer
      → answer.0 ≡ ok tt
      → lib.read_stream answer.1 ≡ ok (s, map ok bs)
  read_back sink s bs answer f wrote =
      ap (λ t. lib.read_stream t.1) f.is
      ∙ laws.read_stream-finish f.writer f.holds.formed (sym (ap (λ t. t.0) f.is) ∙ wrote)
      ∙ ap ok (
          ap (λ x. (x, map ok (written f.writer))) f.holds.given
          ∙ ap (λ l. (s, map ok l)) f.holds.has)

  -- A stream with a sound lock that has these to give.
  abbrev pub Has : List (Result Text lib.Batch) → IpcStream lib → Type 0
  Has items stream = (stream.poisoned ≡ false) × (stream.reader ≡ items)

  next-cons :
      (stream : IpcStream lib) (item : Result Text lib.Batch) (rest : List (Result Text lib.Batch))
      → Has (item ∷ rest) stream
      → ipc_stream_next lib stream ≡ (reply_of lib item, record stream { reader = rest })
  unfolding ipc_stream_next next_item
  next-cons stream item rest (sound, has) = rw (sound, has)

  next-nil :
      (stream : IpcStream lib)
      → Has [] stream
      → ipc_stream_next lib stream ≡ (done, record stream { reader = [] })
  unfolding ipc_stream_next next_item
  next-nil stream (sound, has) = rw (sound, has)

  pub ipc_stream_next-Gives : Gives (ipc_stream_next lib) (reply_of lib) done Has
  ipc_stream_next-Gives = record {
    call-nil = λ stream has.
        let step = next-nil stream has in
        (ap (λ t. t.0) step, subst (λ t. Has [] t.1) (sym step) (has.0, refl));
    call-cons = λ item rest stream has.
        let step = next-cons stream item rest has in
        (ap (λ t. t.0) step, subst (λ t. Has rest t.1) (sym step) (has.0, refl));
  }

  map-reply_of : (bs : List lib.Batch) → map (reply_of lib) (map ok bs) ≡ map batch bs
  map-reply_of [] = refl
  map-reply_of (b ∷ bs) = ap (λ l. batch b ∷ l) (map-reply_of bs)

  pub length-map_ok :
      (bs : List lib.Batch) → length {A = Result Text lib.Batch} (map ok bs) ≡ length bs
  length-map_ok [] = refl
  length-map_ok (b ∷ bs) = ap suc (length-map_ok bs)

  -- The stream is open on this schema, and calls in a row give these batches, each once, and are done.
  pub record Replays (s : lib.Schema) (bs : List lib.Batch) (stream : IpcStream lib) : Type 0 where
    pub schema : ipc_stream_schema lib stream ≡ ok s
    pub replies :
        (extra : ℕ)
        → answers (ipc_stream_next lib) (length bs + extra) stream
          ≡ map batch bs ++ replicate extra done

  pub opened-Replays :
      (s : lib.Schema) (bs : List lib.Batch) (stream : IpcStream lib)
      → stream.poisoned ≡ false
      → stream.schema ≡ s
      → stream.reader ≡ map ok bs
      → Replays s bs stream
  unfolding ipc_stream_schema
  opened-Replays s bs stream sound same has = record {
    schema = rw (sound, same) refl;
    replies = λ extra.
        ap (λ n. answers (ipc_stream_next lib) (n + extra) stream) (sym (length-map_ok bs))
        ∙ answers-Gives (ipc_stream_next lib) (reply_of lib) done Has ipc_stream_next-Gives
            (map ok bs) extra stream (sound, has)
        ∙ ap (λ l. l ++ replicate extra done) (map-reply_of bs);
  }

  pub stream_of-Replays :
      (backing : Backing) (s : lib.Schema) (bs : List lib.Batch) (bytes : Text)
      → lib.read_stream bytes ≡ ok (s, map ok bs)
      → (stream : IpcStream lib) × (stream_of lib backing bytes ≡ ok stream) × Replays s bs stream
  unfolding stream_of
  stream_of-Replays backing s bs bytes reads =
      let stream : IpcStream lib = record {
        backing = backing;
        schema = s;
        reader = map ok bs;
        poisoned = false;
      } in
      (stream, rw reads refl, opened-Replays s bs stream refl refl refl)

-- A binary that batches of one schema were written to as a stream, without an error, has a size that the BEAM
-- grants, and is read as a stream of that schema, of which calls in a row give these batches, each once and in
-- order, and then say that it is done, as often as it is asked.
pub ipc_reader_from_binary-ipc_writer_to_binary :
    (lib : IpcFormats) (laws : WriterLaws lib) (grants : ℕ → Bool) (s : lib.Schema)
    (bs : List lib.Batch) (bytes : Text)
    → AllOf lib laws s bs
    → ipc_writer_to_binary lib grants s bs ≡ ok bytes
    → (grants (length bytes) ≡ true)
      × (stream : IpcStream lib) × (ipc_reader_from_binary lib bytes ≡ ok stream)
      × Replays lib laws s bs stream
unfolding ipc_writer_to_binary ipc_reader_from_binary
ipc_reader_from_binary-ipc_writer_to_binary lib laws grants s bs bytes fit writes =
    let answer = writing lib laws memory stream_format s bs in
    let (wrote, same, granted) =
      binary_of-eq-ok grants answer bytes
        (map_err-eq-ok message (binary_of grants answer) bytes writes) in
    let fin = writing-Wrote lib laws memory stream_format s bs fit wrote in
    let back = read_back lib laws memory s bs answer fin wrote in
    let (stream, opens, replays) =
      stream_of-Replays lib laws binary s bs bytes (sym (ap lib.read_stream same) ∙ back) in
    (granted, stream, opens, replays)
