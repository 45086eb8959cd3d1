-- ===== src/Samples/Rows.antt =====
-- Parquet of rows that are numbers, at a small input.
use mathlib.Core.List.{append-nil}
use ex_arrow.Prelude.{ℕ, ℤ, ◌≡◌, refl, true, none, List, [], ◌∷◌, ◌++◌, Result, ok}
use ex_arrow.Beam.{Text, Term, atom, tuple, list, nil, cons}
use ex_arrow.Sinks.{write_batches, binary_of}
use ex_arrow.Parquet.Options.{decode_write_opts}
use ex_arrow.Parquet.Nifs.{
  ParquetLib, ParquetStream, parquet_reader_from_binary, parquet_writer_to_binary,
}
use ex_arrow.Parquet.Nifs.Written.{
  ParquetLaws, ReadsAll, parquet_reader_from_binary-parquet_writer_to_binary,
}
use ex_arrow.Samples.Decoders.{integral, ascii, ascii_laws}
use ex_arrow.Samples.Pruning.{lossy}

-- A batch is its rows, and is written as they are. A reader gives all of them at once.
abbrev one_batch : ParquetLib integral lossy
one_batch = record {
  Schema = Unit {0};
  Batch = List ℕ;
  Writer = List ℕ;
  batch_schema = λ b. tt;
  start = λ s props. (ok [], []);
  write = λ w b. (ok (w ++ b), w ++ b);
  close = λ w. (ok tt, w);
  open_builder = λ bytes. ok (
    record { field_type = λ name. none; leaves = []; groups = [] },
    λ plan. ok (tt, ok bytes ∷ []),
  );
}

given : (a b : List ℕ) → ◌≡◌ {A = Result Text (List ℕ)} (ok a) (ok b) → b ≡ a
given a b h = cc h

abbrev one_batch_laws : ParquetLaws one_batch
one_batch_laws = record {
  Row = ℕ;
  rows = λ b. b;
  names = λ s. [];
  schema_of = λ w. tt;
  written = λ w. w;
  start-eq-ok = λ s props w h. (refl, given [] w h);
  write-eq-ok = λ w w' b fits h. (refl, given (w ++ b) w' h);
  open_builder-close = λ w h. record {
    footer = record { field_type = λ name. none; leaves = []; groups = [] };
    build = λ plan. ok (tt, ok w ∷ []);
    batches = w ∷ [];
    opens = refl;
    schema = tt;
    builds = refl;
    same_names = refl;
    all_rows = append-nil w;
  };
}

abbrev snappy_opts : Term ℤ
snappy_opts = list (cons (tuple (cons (atom "compression") (cons (atom "snappy") nil))) nil)

rows-written :
    parquet_writer_to_binary integral lossy one_batch ascii
      (λ l. none)
      (λ n. true)
      tt
      ((1 ∷ 2 ∷ []) ∷ (3 ∷ []) ∷ [])
      snappy_opts
    ≡ ok (1 ∷ 2 ∷ 3 ∷ [])
unfolding parquet_writer_to_binary decode_write_opts write_batches binary_of
rows-written = refl

parquet_reader_from_binary-parquet_writer_to_binary_example :
    (stream : ParquetStream integral lossy one_batch) × (parquet_reader_from_binary integral lossy
        one_batch ascii
        (1 ∷ 2 ∷ 3 ∷ [])
        (list nil)
      ≡ ok stream)
    × ReadsAll one_batch one_batch_laws [] (1 ∷ 2 ∷ 3 ∷ []) stream
parquet_reader_from_binary-parquet_writer_to_binary_example =
    parquet_reader_from_binary-parquet_writer_to_binary one_batch one_batch_laws ascii ascii_laws
      (λ l. none) (λ n. true) tt ((1 ∷ 2 ∷ []) ∷ (3 ∷ []) ∷ []) snappy_opts (1 ∷ 2 ∷ 3 ∷ [])
      (refl, (refl, tt)) rows-written
