-- ===== src/Parquet/Metadata.antt =====
-- parquet.rs: `encode_metadata` and the NIFs that read a footer alone.
-- What the Parquet crate reads of a footer, and what numbers are printed as, are parameters. A map that is
-- given to Elixir is a record; `none` is `nil` there.
use mathlib.Core.Option
use ex_arrow.Prelude.{
  ℕ, suc, ℤ, Bool, true, false, Option, none, some, List, [], ◌∷◌, map, length, Result, ok, ◌>>=◌,
}
use ex_arrow.Beam.{Text, codes}
use ex_arrow.Arrow.{Floats}
use ex_arrow.Sinks.{Disk}
use ex_arrow.Parquet.Prune.{
  Statistics, int32_stats, int64_stats, float_stats, double_stats, boolean_stats, byte_array_stats,
  other_stats,
}

-- `ParquetMetaData`, `RowGroupMetaData` and `ColumnChunkMetaData`
module _ (fl : Floats) where
  pub record ColumnChunk : Type 0 where
    pub column_path : Text
    -- `format!("{}", col.compression())`, `format!("{e:?}")` of each encoding
    pub compression : Text
    pub encodings : List Text
    pub num_values : ℤ
    pub statistics : Option (Statistics fl)

  pub record GroupInfo : Type 0 where
    pub num_rows : ℤ
    pub total_byte_size : ℤ
    pub columns : List ColumnChunk

  pub record FileInfo : Type 0 where
    pub num_rows : ℤ
    pub created_by : Option Text
    pub key_value_metadata : Option (List (Text × Option Text))
    pub row_groups : List GroupInfo

-- `to_string()` of the numbers of statistics
pub record Printer (fl : Floats) : Type 0 where
  pub int_text : ℤ → Text
  pub f32_text : fl.F32 → Text
  pub f64_text : fl.F64 → Text

pub record ColumnMap : Type 0 where
  pub path : Text
  pub compression : Text
  pub encodings : List Text
  pub num_values : ℤ
  pub min : Option Text
  pub max : Option Text

pub record GroupMap : Type 0 where
  pub index : ℕ
  pub num_rows : ℤ
  pub total_byte_size : ℤ
  pub columns : List ColumnMap

pub record FileMap : Type 0 where
  pub num_rows : ℤ
  pub num_row_groups : ℕ
  pub created_by : Text
  pub row_groups : List GroupMap
  pub key_value_metadata : List (Text × Text)

abbrev bool_text : Bool → Text
bool_text true = codes "true"
bool_text false = codes "false"

-- `unwrap_or_default()`, `unwrap_or("")`
abbrev text_or_empty : Option Text → Text
text_or_empty none = []
text_or_empty (some s) = s

-- `pair.value.clone().unwrap_or_default()`
abbrev pairs_of : Option (List (Text × Option Text)) → List (Text × Text)
pairs_of none = []
pairs_of (some pairs) = map (λ p. (p.0, text_or_empty p.1)) pairs

module _ {fl : Floats} (print : Printer fl) (lossy : Text → Text) where
  open print use {int_text, f32_text, f64_text}

  -- `(min_s, max_s)`
  bounds_of : Option (Statistics fl) → Option Text × Option Text
  bounds_of (some (int64_stats lo hi)) = (Option.map int_text lo, Option.map int_text hi)
  bounds_of (some (int32_stats lo hi)) = (Option.map int_text lo, Option.map int_text hi)
  bounds_of (some (double_stats lo hi)) = (Option.map f64_text lo, Option.map f64_text hi)
  bounds_of (some (float_stats lo hi)) = (Option.map f32_text lo, Option.map f32_text hi)
  bounds_of (some (byte_array_stats lo hi)) = (Option.map lossy lo, Option.map lossy hi)
  bounds_of (some (boolean_stats lo hi)) = (Option.map bool_text lo, Option.map bool_text hi)
  bounds_of (some other_stats) = (none, none)
  bounds_of none = (none, none)

  column_map : ColumnChunk fl → ColumnMap
  unfolding bounds_of
  column_map col = record {
    path = col.column_path;
    compression = col.compression;
    encodings = col.encodings;
    num_values = col.num_values;
    min = (bounds_of col.statistics).0;
    max = (bounds_of col.statistics).1;
  }

  group_map : ℕ → GroupInfo fl → GroupMap
  unfolding column_map
  group_map i rg = record {
    index = i;
    num_rows = rg.num_rows;
    total_byte_size = rg.total_byte_size;
    columns = map column_map rg.columns;
  }

  -- `for i in 0..metadata.num_row_groups()`
  group_maps : ℕ → List (GroupInfo fl) → List GroupMap
  unfolding group_map
  group_maps i [] = []
  group_maps i (rg ∷ rest) = group_map i rg ∷ group_maps (suc i) rest

  unfoldable pub encode_metadata : FileInfo fl → FileMap
  unfolding group_maps
  encode_metadata metadata = record {
    num_rows = metadata.num_rows;
    num_row_groups = length metadata.row_groups;
    created_by = text_or_empty metadata.created_by;
    row_groups = group_maps 0 metadata.row_groups;
    key_value_metadata = pairs_of metadata.key_value_metadata;
  }

  -- `read` is `ParquetMetaDataReader::parse_and_finish`.
  module _ (read : Text → Result Text (FileInfo fl)) where
    unfoldable pub parquet_metadata_from_binary : Text → Result Text FileMap
    unfolding encode_metadata
    parquet_metadata_from_binary bytes = do metadata ← read bytes; ok (encode_metadata metadata)

    unfoldable pub parquet_metadata_from_file :
        (disk : Disk) → disk.Files → Text → Result Text FileMap
    unfolding encode_metadata
    parquet_metadata_from_file disk fs path = do
      bytes ← disk.open_file fs path
      metadata ← read bytes
      ok (encode_metadata metadata)
