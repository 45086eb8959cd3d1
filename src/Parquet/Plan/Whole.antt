-- ===== src/Parquet/Plan/Whole.antt =====
-- A file that is read with no options is read whole.
use ex_arrow.Prelude.{
  ℕ, zero, suc, ◌-◌, ◌≡◌, refl, ap, false, none, List, length, Result, ok, arith,
}
use ex_arrow.Beam.{Text}
use ex_arrow.Arrow.{Floats}
use ex_arrow.Parquet.Plan.{
  range_from, Footer, Plan, requested, validate, prune, apply_read_opts, Stream, build_stream,
}

length-range_from : (start n : ℕ) → length (range_from start n) ≡ n
length-range_from start zero = refl
length-range_from start (suc n) = ap suc (length-range_from (suc start) n)

module _ (fl : Floats) (lossy : Text → Text) where
  -- Every row group and every column, and no filter.
  abbrev pub whole : Footer fl lossy → Plan fl lossy
  whole footer = record {
    row_groups = range_from 0 (length footer.groups);
    projection = none;
    predicate = none;
    total = length footer.groups;
    selected = length (range_from 0 (length footer.groups));
    skipped = length footer.groups - length (range_from 0 (length footer.groups));
  }

  -- The stream of these items.
  abbrev pub opened :
      {Batch Schema : Type 0}
      → Footer fl lossy
      → Schema
      → List (Result Text Batch)
      → Stream fl lossy Batch Schema
  opened footer schema reader = record {
    schema = schema;
    reader = reader;
    poisoned = false;
    row_groups_total = (whole footer).total;
    row_groups_selected = (whole footer).selected;
    row_groups_skipped = (whole footer).skipped;
  }

  pub build_stream-whole :
      {Batch Schema : Type 0}
      (build : Plan fl lossy → Result Text (Schema × List (Result Text Batch)))
      (footer : Footer fl lossy) (schema : Schema) (reader : List (Result Text Batch))
      → build (whole footer) ≡ ok (schema, reader)
      → build_stream fl lossy Batch Schema build footer
          (record { columns = none; row_groups = none; filter = none })
        ≡ ok (opened footer schema reader)
  unfolding build_stream apply_read_opts requested validate prune
  build_stream-whole build footer schema reader builds = rw builds refl

  pub whole-skipped : (footer : Footer fl lossy) → (whole footer).skipped ≡ 0
  whole-skipped footer = omega (arith, length-range_from 0 (length footer.groups))
