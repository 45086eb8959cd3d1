-- ===== src/Parquet.antt =====
-- native/ex_arrow_native/src/parquet.rs: the filters and options of readers and writers.
-- The children follow the file: `Decode` and `Options` (terms to filters and options), `Filter`
-- (filters on a batch), `Prune` (row groups skipped by their statistics), `Plan` (what a reader
-- is told to read), `Nifs` (readers and writers), `Metadata` (what is said of a footer).
pub mod Decode
pub mod Options
pub mod Filter
pub mod Rows
pub mod Prune
pub mod Plan
pub mod Nifs
pub mod Metadata
use ex_arrow.Prelude.{ℕ, ℤ, Bool, String, Option, List}
use ex_arrow.Beam.{Text}
use ex_arrow.Arrow.{DataType}

pub data FilterValue (F : Type 0) : Type 0 where
  int : ℤ → FilterValue F
  float : F → FilterValue F
  utf8 : Text → FilterValue F
  bool : Bool → FilterValue F

mutual
  pub data FilterExpr (F : Type 0) : Type 0 where
    eq ne gt gte lt lte : Text → FilterValue F → FilterExpr F
    and or : FilterExprs F → FilterExpr F

  pub data FilterExprs (F : Type 0) : Type 0 where
    nil : FilterExprs F
    cons : FilterExpr F → FilterExprs F → FilterExprs F

pub record ReadOpts (F : Type 0) : Type 0 where
  pub columns : Option (List Text)
  pub row_groups : Option (List ℕ)
  pub filter : Option (FilterExpr F)

-- `parquet::basic::Compression`, as far as the options reach it; `none` is the default level.
pub data Compression : Type 0 where
  uncompressed snappy lz4_raw gzip : Compression
  zstd : Option ℤ → Compression

pub record WriteOpts : Type 0 where
  pub compression : Option Compression
  pub row_group_size : Option ℕ
  pub dictionary : Option Bool

-- One constructor for each message, with the values that it prints; `kernel` is an `ArrowError`.
pub data Error (F : Type 0) : Type 0 where
  -- `improper_list`: the panic of a `ListIterator` at the end of an improper list.
  opts_not_list improper_list opt_not_pair opt_len opt_key : Error F
  unknown_option : String → Error F
  columns_not_list column_not_string row_groups_not_list row_group_not_integer row_group_negative :
      Error F
  filter_not_tuple filter_empty filter_op junction_len junction_not_list junction_empty : Error F
  comparison_len filter_column filter_value unsupported_op : Error F
  row_group_size_type row_group_size_positive dictionary_type : Error F
  compression_tag zstd_level_type compression_tuple compression_type unsupported_compression :
      Error F
  zstd_level_range : ℤ → Error F
  zstd_level_invalid : Text → Error F
  out_of_range : ℤ → Error F
  inexact : F → Error F
  incomparable : FilterValue F → DataType → Error F
  column_not_found : Text → Error F
  not_in_schema : Text → Error F
  empty_and empty_or : Error F
  unknown_op : String → Error F
  row_group_range : ℕ → ℕ → Error F
  kernel : Text → Error F
