-- ===== src/Parquet/Plan.antt =====
-- parquet.rs: `apply_read_opts`, `build_stream` and the accessors of the stream that it makes.
-- What the builder is told (`with_row_groups`, `with_projection`, `with_row_filter`) is a record, and the
-- batches that the built reader gives are a parameter of it: an iterator is the list that it goes through.
pub mod Kept
pub mod Drained
pub mod Whole
use mathlib.Core.Option
use ex_arrow.Prelude.{
  ℕ, zero, suc, ◌-◌, Bool, true, false, Option, none, some, List, [], ◌∷◌, ◌++◌, length, get_elem?,
  ltb, ◌==◌, if◌then◌else◌, Result, ok, err, ◌>>=◌, ◌>>◌, ensure, map_err, when_some,
}
use ex_arrow.Beam.{Text}
use ex_arrow.Arrow.{Floats, DataType}
use ex_arrow.Parquet.{FilterExpr, ReadOpts, Error, row_group_range, kernel}
use ex_arrow.Parquet.Filter.{validate_filter_types, collect_filter_columns}
use ex_arrow.Parquet.Prune.{Leaf, RowGroup, row_group_may_match}

-- `0..total`
abbrev pub range_from : ℕ → ℕ → List ℕ
range_from start zero = []
range_from start (suc n) = start ∷ range_from (suc start) n

-- `selected.retain(p)`
abbrev pub retain : (ℕ → Bool) → List ℕ → List ℕ
retain p [] = []
retain p (i ∷ is) = let rest = retain p is in if p i then i ∷ rest else rest

module _ (fl : Floats) (lossy : Text → Text) where
  -- What is read of a file's footer: the Arrow schema, the leaves and the row groups.
  pub record Footer : Type 0 where
    pub field_type : Text → Option DataType
    pub leaves : List (Leaf fl lossy)
    pub groups : List (RowGroup fl lossy)

  pub record Plan : Type 0 where
    pub row_groups : List ℕ
    pub projection : Option (List Text)
    pub predicate : Option (List Text × FilterExpr fl.F64)
    pub total : ℕ
    pub selected : ℕ
    pub skipped : ℕ

  -- `for &i in rg { if i >= total { return Err(..) } }`
  check_range : List ℕ → ℕ → Result (Error fl.F64) (Unit {0})
  check_range [] total = ok tt
  check_range (i ∷ is) total = do
    ensure (ltb i total) (row_group_range i total)
    check_range is total

  requested : Option (List ℕ) → ℕ → Result (Error fl.F64) (List ℕ)
  unfolding check_range
  requested none total = ok (range_from 0 total)
  requested (some rg) total = do check_range rg total; ok rg

  -- `metadata.row_group(i)`: every index that is tested is in range.
  group_may_match : Footer → FilterExpr fl.F64 → ℕ → Bool
  group_may_match footer filter i =
      when_some (get_elem? footer.groups i)
        (λ rg. row_group_may_match fl lossy footer.leaves rg filter) true

  validate : Footer → Option (FilterExpr fl.F64) → Result (Error fl.F64) (Unit {0})
  validate footer none = ok tt
  validate footer (some filter) = validate_filter_types fl footer.field_type filter

  prune : Footer → Option (FilterExpr fl.F64) → List ℕ → List ℕ
  unfolding group_may_match
  prune footer none is = is
  prune footer (some filter) is = retain (group_may_match footer filter) is

  unfoldable pub apply_read_opts : Footer → ReadOpts fl.F64 → Result (Error fl.F64) Plan
  unfolding requested validate prune
  apply_read_opts footer opts = do
    validate footer opts.filter
    wanted ← requested opts.row_groups (length footer.groups)
    let kept = prune footer opts.filter wanted
    ok (record {
      row_groups = kept;
      projection = opts.columns;
      predicate = Option.map (λ f. (collect_filter_columns f [], f)) opts.filter;
      total = length footer.groups;
      selected = length kept;
      skipped = length footer.groups - length kept;
    })

  -- `ExArrowParquetStream`, with what the reader has still to give.
  module _ (Batch Schema : Type 0) where
    pub record Stream : Type 0 where
      pub schema : Schema
      pub reader : List (Result Text Batch)
      -- A panic while the lock is held poisons it.
      pub poisoned : Bool
      pub row_groups_total : ℕ
      pub row_groups_selected : ℕ
      pub row_groups_skipped : ℕ

    -- `build` is the builder's: the schema after projection, and the batches.
    unfoldable pub build_stream :
        (Plan → Result Text (Schema × List (Result Text Batch)))
        → Footer
        → ReadOpts fl.F64
        → Result (Error fl.F64) Stream
    unfolding apply_read_opts
    build_stream build footer opts = do
      plan ← apply_read_opts footer opts
      (schema, reader) ← map_err kernel (build plan)
      ok (record {
        schema = schema;
        reader = reader;
        poisoned = false;
        row_groups_total = plan.total;
        row_groups_selected = plan.selected;
        row_groups_skipped = plan.skipped;
      })

    pub data Reply : Type 0 where
      done lock_poisoned : Reply
      batch : Batch → Reply
      failed : Text → Reply

    abbrev pub reply_of : Result Text Batch → Reply
    reply_of (ok b) = batch b
    reply_of (err e) = failed e

    -- `guard.next()`: the reply, and what is left of the reader.
    next_item : List (Result Text Batch) → Reply × List (Result Text Batch)
    next_item [] = (done, [])
    next_item (item ∷ rest) = (reply_of item, rest)

    -- The reply, and the stream after it.
    unfoldable pub parquet_stream_next : Stream → Reply × Stream
    unfolding next_item
    parquet_stream_next stream =
        if stream.poisoned
        then (lock_poisoned, stream)
        else (let (reply, rest) = next_item stream.reader in
            (reply, record stream { reader = rest }))
