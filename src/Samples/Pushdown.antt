-- ===== src/Samples/Pushdown.antt =====
-- A Parquet filter, `p > 2 or s = true`, as a term, against a schema, and on a batch.
use ex_arrow.Prelude.{
  arith, ℤ, pos, true, false, Option, none, some, [], ◌∷◌, ◌≡◌, refl, if◌then◌else◌, Bool-cases,
  inl, inr, ok,
}
use mathlib.Core.Option.{some-injective}
use ex_arrow.Beam.{Text, text_eq}
use ex_arrow.Arrow.{DataType, boolean, int64}
use ex_arrow.Parquet.{FilterExpr, gt, eq, or, nil, cons, int, bool}
use ex_arrow.Parquet.Decode.{decode_filter_expr, decode_filter_value}
use ex_arrow.Parquet.Decode.RoundTrip.{encode_filter, IsSendable, decode_filter_expr-encode_filter}
use ex_arrow.Parquet.Filter.{make_scalar, validate_filter_types, eval_filter_on_batch}
use ex_arrow.Parquet.Filter.Correct.{row_at, eval_filter_on_batch-rows}
use ex_arrow.Parquet.Filter.Typed.{Total, Conforms, validate_filter_types-total}
use ex_arrow.Parquet.Rows.{row_truth}
use ex_arrow.Samples.Decoders.{ascii, ascii_laws, integral}
use ex_arrow.Samples.Tables.{Bits, tables}
use ex_arrow.Samples.Library.Laws.{table_laws}
use ex_arrow.Samples.Filters.{p, s, prices, stale, batch}

abbrev filter : FilterExpr ℤ
filter = or (cons (gt p (int (pos 2))) (cons (eq s (bool true)) nil))

abbrev mask : Bits
mask = some false ∷ some true ∷ none ∷ some true ∷ []

filter-IsSendable : IsSendable ascii filter
filter-IsSendable = (refl, ((refl, refl), ((refl, tt), tt)))

decode_filter_expr-encode_filter_example :
    decode_filter_expr ascii (encode_filter filter) ≡ ok filter
decode_filter_expr-encode_filter_example =
    decode_filter_expr-encode_filter ascii ascii_laws filter filter-IsSendable

filter-decoded : decode_filter_expr ascii (encode_filter filter) ≡ ok filter
unfolding decode_filter_expr decode_filter_value
filter-decoded = refl

filter-evaluated : eval_filter_on_batch tables batch filter ≡ ok mask
unfolding eval_filter_on_batch make_scalar
filter-evaluated = refl

eval_filter_on_batch-rows_example :
    (tables.mask_len mask ≡ tables.num_rows batch)
    × (row_truth table_laws.native_cmp (row_at table_laws batch 2) filter
        ≡ some (table_laws.bit mask 2))
eval_filter_on_batch-rows_example =
    eval_filter_on_batch-rows table_laws batch filter mask 2 filter-evaluated (omega arith)

tables-Total : Total tables
tables-Total = record {
  compare-ok = λ c a v w made. (_, refl);
  and_masks-ok = λ m n same. (_, refl);
  or_masks-ok = λ m n same. (_, refl);
}

abbrev schema : Text → Option DataType
schema col = if text_eq p col then some int64 else if text_eq s col then some boolean else none

batch-Conforms : Conforms table_laws tables-Total batch schema
batch-Conforms col dt h = elim (Bool-cases (text_eq p col)) [
  | inl e ↦ (prices, rw e, some-injective _ _ (rw e at h))
  | inr e ↦ elim (Bool-cases (text_eq s col)) [
    | inl e' ↦ (stale, rw (e, e'), some-injective _ _ (rw (e, e') at h))
    | inr e' ↦ absurd (let none_there = rw (e, e') at h in cc)
  ]
]

filter-valid : validate_filter_types integral schema filter ≡ ok tt
unfolding validate_filter_types make_scalar
filter-valid = refl

validate_filter_types-total_example : (m : Bits) × (eval_filter_on_batch tables batch filter ≡ ok m)
validate_filter_types-total_example =
    validate_filter_types-total table_laws tables-Total batch schema filter batch-Conforms refl
      filter-valid
