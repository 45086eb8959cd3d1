-- ===== src/Parquet/Nifs.antt =====
-- parquet.rs: the NIFs that open readers and that write, with `build_writer_props`.
-- The reader and the writer of the Parquet crate are parameters. `open_builder` reads a footer, and makes
-- the batches of a plan.
pub mod Written
use ex_arrow.Prelude.{
  ℕ, ℤ, Bool, Option, none, some, List, [], ◌∷◌, Result, ok, err, ◌>>=◌, map_err, when_some,
}
use ex_arrow.Beam.{Text, Term, Rustler}
use ex_arrow.Arrow.{Floats}
use ex_arrow.Sinks.{Disk, write_batches, write_file, binary_of, answered}
use ex_arrow.Parquet.{Compression, ReadOpts, WriteOpts, Error, kernel}
use ex_arrow.Parquet.Options.{decode_read_opts, decode_write_opts}
use ex_arrow.Parquet.Plan.{Footer, Plan, Stream, build_stream}

-- `WriterProperties`, by what was set of its builder.
pub record WriterProperties : Type 0 where
  pub compression : Option Compression
  pub max_row_group_row_count : Option ℕ
  pub dictionary_enabled : Option Bool

abbrev pub builder : WriterProperties
builder = record { compression = none; max_row_group_row_count = none; dictionary_enabled = none }

unfoldable pub build_writer_props : WriteOpts → WriterProperties
build_writer_props opts =
    let b₁ = when_some opts.compression (λ c. record builder { compression = some c }) builder in
    let b₂ =
      when_some opts.row_group_size (λ n. record b₁ { max_row_group_row_count = some n }) b₁ in
    when_some opts.dictionary (λ d. record b₂ { dictionary_enabled = some d }) b₂

pub record ParquetLib (fl : Floats) (lossy : Text → Text) : Type 1 where
  pub Schema : Type 0
  pub Batch : Type 0
  pub Writer : Type 0
  pub batch_schema : Batch → Schema
  pub start : Schema → WriterProperties → Result Text Writer × Text
  pub write : Writer → Batch → Result Text Writer × Text
  pub close : Writer → Result Text (Unit {0}) × Text
  pub open_builder :
      Text
      → Result Text
          (Footer fl lossy × (Plan fl lossy → Result Text (Schema × List (Result Text Batch))))

pub record ReadStats : Type 0 where
  pub row_groups_total : ℕ
  pub row_groups_selected : ℕ
  pub row_groups_skipped : ℕ

module _ (fl : Floats) (lossy : Text → Text) (lib : ParquetLib fl lossy) where
  open lib use {Schema, Batch}

  abbrev pub ParquetStream : Type 0
  ParquetStream = Stream fl lossy Batch Schema

  unfoldable pub parquet_stream_schema : ParquetStream → Schema
  parquet_stream_schema stream = stream.schema

  unfoldable pub parquet_stream_read_stats : ParquetStream → ReadStats
  parquet_stream_read_stats stream = record {
    row_groups_total = stream.row_groups_total;
    row_groups_selected = stream.row_groups_selected;
    row_groups_skipped = stream.row_groups_skipped;
  }

  -- From the builder on.
  unfoldable pub reader_of : Text → ReadOpts fl.F64 → Result (Error fl.F64) ParquetStream
  reader_of bytes opts = do
    (footer, build) ← map_err kernel (lib.open_builder bytes)
    build_stream fl lossy Batch Schema build footer opts

  module _ (r : Rustler fl.F64) where
    unfoldable pub parquet_reader_from_binary :
        Text → Term fl.F64 → Result (Error fl.F64) ParquetStream
    unfolding reader_of
    parquet_reader_from_binary bytes t = do opts ← decode_read_opts r t; reader_of bytes opts

    unfoldable pub parquet_reader_from_file :
        (disk : Disk) → disk.Files → Text → Term fl.F64 → Result (Error fl.F64) ParquetStream
    unfolding reader_of
    parquet_reader_from_file disk fs path t = do
      opts ← decode_read_opts r t
      bytes ← map_err kernel (disk.open_file fs path)
      reader_of bytes opts

    module _ (zstd_level : ℤ → Option Text) where
      -- `grants`: whether `OwnedBinary::new` gives a binary of a size.
      unfoldable pub parquet_writer_to_binary :
          (ℕ → Bool) → Schema → List Batch → Term fl.F64 → Result (Error fl.F64) Text
      unfolding build_writer_props write_batches binary_of
      parquet_writer_to_binary grants schema bs t = do
        opts ← decode_write_opts r zstd_level t
        map_err kernel (
            binary_of grants
              (write_batches lib.write lib.close (lib.start schema (build_writer_props opts)) bs))

      -- No file is created where the options are refused.
      write_with :
          (disk : Disk)
          → Text
          → Schema
          → List Batch
          → Result (Error fl.F64) WriteOpts
          → disk.Files
          → Result (Error fl.F64) (Unit {0}) × disk.Files
      unfolding build_writer_props write_file
      write_with disk path schema bs (err e) fs = (err e, fs)
      write_with disk path schema bs (ok opts) fs = answered kernel (
          write_file lib.write lib.close disk (lib.start schema (build_writer_props opts)) bs path
            fs)

      unfoldable pub parquet_writer_to_file :
          (disk : Disk)
          → Text
          → Schema
          → List Batch
          → Term fl.F64
          → disk.Files
          → Result (Error fl.F64) (Unit {0}) × disk.Files
      unfolding write_with
      parquet_writer_to_file disk path schema bs t fs =
          write_with disk path schema bs (decode_write_opts r zstd_level t) fs
