-- ===== src/Parquet/Nifs/Written.antt =====
-- What is written as Parquet is read again.
use mathlib.Core.List.{append-nil, append_assoc}
use ex_arrow.Prelude.{
  ℕ, Bool, ◌+◌, length, replicate, ℤ, ◌≡◌, refl, sym, ◌∙◌, ap, subst, Option, none, Option-cases,
  inl, inr, List, [], ◌∷◌, ◌++◌, map, Result, ok, ◌>>=◌, >>=-eq-ok, map_err-eq-ok,
}
use ex_arrow.Beam.{Text, Term, Rustler, RustlerLaws, list, nil}
use ex_arrow.Arrow.{Floats}
use ex_arrow.Sinks.{write_batches, binary_of}
use ex_arrow.Sinks.Kept.{AllFit, Finished, write_batches-Finished, binary_of-eq-ok}
use ex_arrow.Parquet.{kernel}
use ex_arrow.Parquet.Options.{
  default_read_opts, is_nil, items, read_options, decode_read_opts, decode_write_opts,
}
use ex_arrow.Parquet.Plan.{Footer, Plan, batch, done}
use ex_arrow.Parquet.Plan.Drained.{replies, parquet_stream_next-batches}
use ex_arrow.Parquet.Plan.Whole.{whole, opened, build_stream-whole, whole-skipped}
use ex_arrow.Parquet.Nifs.{
  ParquetLib, WriterProperties, build_writer_props, ParquetStream, parquet_stream_schema,
  parquet_stream_read_stats, reader_of, parquet_reader_from_binary, parquet_writer_to_binary,
}

-- The rows of a list of batches.
abbrev pub rows_of : {Batch Row : Type 0} → (Batch → List Row) → List Batch → List Row
rows_of rows [] = []
rows_of rows (b ∷ bs) = rows b ++ rows_of rows bs

rows_of-append :
    {Batch Row : Type 0} (rows : Batch → List Row) (bs cs : List Batch)
    → rows_of rows (bs ++ cs) ≡ rows_of rows bs ++ rows_of rows cs
rows_of-append rows [] cs = refl
rows_of-append rows (b ∷ bs) cs =
    ap (λ l. rows b ++ l) (rows_of-append rows bs cs)
    ∙ sym (append_assoc (rows b) (rows_of rows bs) (rows_of rows cs))

module _ {fl : Floats} {lossy : Text → Text} (lib : ParquetLib fl lossy) where
  -- What a plan of the whole file gives: all of the rows, in batches of the reader's own size.
  pub record Reopens {Row : Type 0} (rows : lib.Batch → List Row) (names : lib.Schema → List Text)
      (bytes : Text) (columns : List Text) (all : List Row) : Type 0 where
    pub footer : Footer fl lossy
    pub build : Plan fl lossy → Result Text (lib.Schema × List (Result Text lib.Batch))
    pub batches : List lib.Batch
    pub opens : lib.open_builder bytes ≡ ok (footer, build)
    pub schema : lib.Schema
    pub builds : build (whole fl lossy footer) ≡ ok (schema, map ok batches)
    pub same_names : names schema ≡ columns
    pub all_rows : rows_of rows batches ≡ all

  pub record ParquetLaws : Type 1 where
    pub Row : Type 0
    pub rows : lib.Batch → List Row
    -- The names of the columns. The metadata of a schema is not read again.
    pub names : lib.Schema → List Text
    pub schema_of : lib.Writer → lib.Schema
    pub written : lib.Writer → List Row
    pub start-eq-ok :
        (s : lib.Schema) (props : WriterProperties) (w : lib.Writer)
        → (lib.start s props).0 ≡ ok w
        → (schema_of w ≡ s) × (written w ≡ [])
    pub write-eq-ok :
        (w w' : lib.Writer) (b : lib.Batch)
        → lib.batch_schema b ≡ schema_of w
        → (lib.write w b).0 ≡ ok w'
        → (schema_of w' ≡ schema_of w) × (written w' ≡ written w ++ rows b)
    pub open_builder-close :
        (w : lib.Writer)
        → (lib.close w).0 ≡ ok tt
        → Reopens rows names (lib.close w).1 (names (schema_of w)) (written w)

  module _ (laws : ParquetLaws) where
    open laws use {Row, rows, names, schema_of, written}

    record Holds (s : lib.Schema) (bs : List lib.Batch) (w : lib.Writer) : Type 0 where
      schema : schema_of w ≡ s
      has : written w ≡ rows_of rows bs

    started :
        (s : lib.Schema) (props : WriterProperties) (w : lib.Writer)
        → (lib.start s props).0 ≡ ok w
        → Holds s [] w
    started s props w e =
        let (schema, empty) = laws.start-eq-ok s props w e in
        record { schema = schema; has = empty }

    write-Holds :
        (s : lib.Schema) (before : List lib.Batch) (w w' : lib.Writer) (b : lib.Batch)
        → Holds s before w
        → lib.batch_schema b ≡ s
        → (lib.write w b).0 ≡ ok w'
        → Holds s (before ++ b ∷ []) w'
    write-Holds s before w w' b h fits wrote =
        let (same, grew) = laws.write-eq-ok w w' b (fits ∙ sym h.schema) wrote in
        record {
          schema = same ∙ h.schema;
          has =
              grew
              ∙ ap (λ l. l ++ rows b) h.has
              ∙ ap (λ l. rows_of rows before ++ l) (sym (append-nil (rows b)))
              ∙ sym (rows_of-append rows before (b ∷ []));
        }

    -- What was written is opened again.
    reopened :
        (s : lib.Schema) (bs : List lib.Batch) (answer : Result Text (Unit {0}) × Text)
        → Finished lib.write lib.close (Holds s) bs answer
        → answer.0 ≡ ok tt
        → Reopens rows names answer.1 (names s) (rows_of rows bs)
    reopened s bs answer f wrote =
        let o = laws.open_builder-close f.writer (sym (ap (λ t. t.0) f.is) ∙ wrote) in
        record {
          footer = o.footer;
          build = o.build;
          batches = o.batches;
          opens = ap (λ t. lib.open_builder t.1) f.is ∙ o.opens;
          schema = o.schema;
          builds = o.builds;
          same_names = o.same_names ∙ ap names f.holds.schema;
          all_rows = o.all_rows ∙ f.holds.has;
        }

    -- A stream with these columns, of which calls in a row give batches of all of these rows and are done
    -- then, and which skipped no row group.
    pub record ReadsAll (columns : List Text) (all : List Row) (stream : ParquetStream fl lossy lib)
        : Type 0 where
      pub has_names : names (parquet_stream_schema fl lossy lib stream) ≡ columns
      pub batches : List lib.Batch
      pub gives :
          (extra : ℕ)
          → replies fl lossy lib.Batch lib.Schema (length batches + extra) stream
            ≡ map batch batches ++ replicate extra done
      pub all_rows : rows_of rows batches ≡ all
      pub none_skipped : (parquet_stream_read_stats fl lossy lib stream).row_groups_skipped ≡ 0

    opened-ReadsAll :
        (columns : List Text) (all : List Row) (bytes : Text)
        (o : Reopens rows names bytes columns all)
        → ReadsAll columns all (opened fl lossy o.footer o.schema (map ok o.batches))
    unfolding parquet_stream_schema parquet_stream_read_stats
    opened-ReadsAll columns all bytes o = record {
      has_names = o.same_names;
      batches = o.batches;
      gives = λ extra.
          parquet_stream_next-batches fl lossy lib.Batch lib.Schema
            (opened fl lossy o.footer o.schema (map ok o.batches)) o.batches extra refl refl;
      all_rows = o.all_rows;
      none_skipped = whole-skipped fl lossy o.footer;
    }

    reader_of-opened :
        (columns : List Text) (all : List Row) (bytes : Text)
        (o : Reopens rows names bytes columns all)
        → reader_of fl lossy lib bytes (record { columns = none; row_groups = none; filter = none })
          ≡ ok (opened fl lossy o.footer o.schema (map ok o.batches))
    unfolding reader_of
    reader_of-opened columns all bytes o =
        rw o.opens
          (build_stream-whole fl lossy o.build o.footer o.schema (map ok o.batches) o.builds)

-- `[]` is read as no options.
decode_read_opts-nil :
    {F : Type 0} (r : Rustler F) (laws : RustlerLaws r)
    → decode_read_opts r (list nil) ≡ ok (default_read_opts r)
unfolding decode_read_opts is_nil items read_options
decode_read_opts-nil r laws = elim (Option-cases (r.atom_of (list nil))) [
  | inl n ↦ rw n refl
  | inr (a, h) ↦ absurd (cc (laws.atom_of-eq-some (list nil) a h))
]

-- A binary that batches were written to as Parquet, with any options that are accepted, is read with no
-- options as a stream with columns of the same names. Calls in a row on it give all of the rows, in order,
-- though in batches of its own, and are done then, and it has skipped no row group. The batches have the
-- schema.
pub parquet_reader_from_binary-parquet_writer_to_binary :
    {fl : Floats} {lossy : Text → Text} (lib : ParquetLib fl lossy) (laws : ParquetLaws lib)
    (r : Rustler fl.F64) (terms : RustlerLaws r) (zstd_level : ℤ → Option Text) (grants : ℕ → Bool)
    (s : lib.Schema) (bs : List lib.Batch) (t : Term fl.F64) (bytes : Text)
    → AllFit (λ b. lib.batch_schema b ≡ s) bs
    → parquet_writer_to_binary fl lossy lib r zstd_level grants s bs t ≡ ok bytes
    → (stream : ParquetStream fl lossy lib) × (parquet_reader_from_binary fl lossy lib r bytes
          (list nil)
        ≡ ok stream)
      × ReadsAll lib laws (laws.names s) (rows_of laws.rows bs) stream
unfolding parquet_writer_to_binary parquet_reader_from_binary
parquet_reader_from_binary-parquet_writer_to_binary {fl} {lossy} lib laws r terms zstd_level grants
      s bs t bytes fit writes =
    let (opts, decoded, written) = >>=-eq-ok (decode_write_opts r zstd_level t) _ writes in
    let props = build_writer_props opts in
    let answer = write_batches lib.write lib.close (lib.start s props) bs in
    let (wrote, same, granted) =
      binary_of-eq-ok grants answer bytes
        (map_err-eq-ok kernel (binary_of grants answer) bytes written) in
    let fin =
      write_batches-Finished lib.write lib.close (Holds lib laws s) (λ b. lib.batch_schema b ≡ s)
        (write-Holds lib laws s) [] bs (lib.start s props) (started lib laws s props) fit wrote in
    let all = rows_of laws.rows bs in
    let o =
      subst (λ x. Reopens lib laws.rows laws.names x (laws.names s) all) same
        (reopened lib laws s bs answer fin wrote) in
    (
      opened fl lossy o.footer o.schema (map ok o.batches),
      ap (λ x. x >>= reader_of fl lossy lib bytes) (decode_read_opts-nil r terms)
          ∙ reader_of-opened lib laws (laws.names s) all bytes o,
      opened-ReadsAll lib laws (laws.names s) all bytes o,
    )
