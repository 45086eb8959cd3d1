-- ===== src/Samples/Filters.antt =====
-- A batch of a nullable integer column `p` and a boolean column `s`, filtered by
-- `p > 2 and not s`, projected, and sorted.
use ex_arrow.Prelude.{
  arith, ℕ, ℤ, pos, Bool, true, false, not, none, some, [], ◌∷◌, ◌≡◌, refl, map, ok, err,
}
use ex_arrow.Beam.{Text}
use ex_arrow.Arrow.{boolean, int64, bool_value, int_value}
use ex_arrow.Arrow.Laws.{keep_rows}
use ex_arrow.Compute.{Op, gt, and, Expr, field, scalar, call, nil, cons, int, column_not_found}
use ex_arrow.Compute.Decode.{decode_expr, decode_scalar, decode_op}
use ex_arrow.Compute.Decode.Encode.{encode_node, IsWellFormed}
use ex_arrow.Compute.Decode.RoundTrip.{decode_expr-encode_node}
use ex_arrow.Compute.Decode.Checked.{decode_expr-IsWellFormed}
use ex_arrow.Compute.Scalar.{make_scalar_array}
use ex_arrow.Compute.Eval.{eval_to_bool}
use ex_arrow.Compute.Eval.Rows.{row_truth}
use ex_arrow.Compute.Eval.Correct.{eval_to_bool-rows}
use ex_arrow.Compute.Panics.{is_panic}
use ex_arrow.Compute.Nifs.{compute_filter, compute_filter_expr, compute_project, compute_sort}
use ex_arrow.Compute.Nifs.Filtered.{compute_filter_expr-is_panic, verdict, compute_filter_expr-rows}
use ex_arrow.Compute.Nifs.Columns.{compute_project-columns, compute_sort-rows}
use ex_arrow.Samples.Decoders.{ascii, ascii_laws}
use ex_arrow.Samples.Tables.{Cell, Column, Bits, Table, tables, column_by_name, sort_to_indices}
use ex_arrow.Samples.Library.Laws.{table_laws}

abbrev pub p : Text
p = b'p' ∷ []

abbrev pub s : Text
s = b's' ∷ []

abbrev expr : Expr ℤ
expr = call and (
    cons (call gt (cons (field p) (cons (scalar (int (pos 2))) nil)))
      (cons (call Op.not (cons (field s) nil)) nil))

abbrev pub number : ℕ → Cell
number n = some (int_value (pos n))

abbrev pub flag : Bool → Cell
flag b = some (bool_value b)

abbrev pub prices : Column
prices = record { type = int64; cells = number 1 ∷ number 3 ∷ none ∷ number 5 ∷ [] }

abbrev pub stale : Column
stale = record { type = boolean; cells = flag false ∷ flag true ∷ flag false ∷ flag false ∷ [] }

abbrev pub batch : Table
batch = record { names = p ∷ s ∷ []; cols = prices ∷ stale ∷ []; count = 4; sized = refl }

abbrev filtered : Table
filtered = record {
  names = p ∷ s ∷ [];
  cols =
      record { type = int64; cells = number 5 ∷ [] }
      ∷ record { type = boolean; cells = flag false ∷ [] }
      ∷ [];
  count = 1;
  sized = refl;
}

expr-IsWellFormed : IsWellFormed ascii expr
expr-IsWellFormed = (refl, ((refl, (refl, (refl, tt))), ((refl, (refl, tt)), tt)))

decode_expr-encode_node_example : decode_expr ascii (encode_node expr) ≡ ok expr
decode_expr-encode_node_example = decode_expr-encode_node ascii ascii_laws expr expr-IsWellFormed

expr-decoded : decode_expr ascii (encode_node expr) ≡ ok expr
unfolding decode_expr decode_scalar decode_op
expr-decoded = refl

decode_expr-IsWellFormed_example : IsWellFormed ascii expr
decode_expr-IsWellFormed_example =
    decode_expr-IsWellFormed ascii ascii_laws (encode_node expr) expr expr-decoded

abbrev mask : Bits
mask = some false ∷ some false ∷ none ∷ some true ∷ []

expr-evaluated : eval_to_bool tables batch expr ≡ ok mask
unfolding eval_to_bool make_scalar_array
expr-evaluated = refl

eval_to_bool-rows_example :
    (tables.mask_len mask ≡ tables.num_rows batch)
    × (row_truth table_laws batch 3 expr ≡ some (table_laws.bit mask 3))
eval_to_bool-rows_example =
    eval_to_bool-rows table_laws batch expr mask 3 expr-evaluated (omega arith)

batch-filtered : compute_filter_expr tables ascii batch (encode_node expr) ≡ ok filtered
unfolding compute_filter_expr decode_expr eval_to_bool decode_scalar decode_op make_scalar_array
batch-filtered = refl

compute_filter_expr-rows_example :
    (e : Expr ℤ) × (decode_expr ascii (encode_node expr) ≡ ok e)
    × (table_laws.rows filtered
        ≡ keep_rows (table_laws.rows batch) (λ i. verdict (row_truth table_laws batch i e)))
compute_filter_expr-rows_example =
    compute_filter_expr-rows table_laws ascii batch filtered (encode_node expr) batch-filtered

abbrev projected : Table
projected = record { names = s ∷ p ∷ []; cols = stale ∷ prices ∷ []; count = 4; sized = refl }

batch-projected : compute_project tables batch (s ∷ p ∷ []) ≡ ok projected
unfolding compute_project
batch-projected = refl

compute_project-columns_example : map some projected.cols ≡ map (column_by_name batch) (s ∷ p ∷ [])
compute_project-columns_example =
    compute_project-columns table_laws batch projected (s ∷ p ∷ []) batch-projected

abbrev sorted : Table
sorted = record {
  names = p ∷ s ∷ [];
  cols =
      record { type = int64; cells = none ∷ number 5 ∷ number 3 ∷ number 1 ∷ [] }
      ∷ record { type = boolean; cells = flag false ∷ flag false ∷ flag true ∷ flag false ∷ [] }
      ∷ [];
  count = 4;
  sized = refl;
}

batch-sorted : compute_sort tables batch p false ≡ ok sorted
unfolding compute_sort
batch-sorted = refl

compute_sort-rows_example :
    (column indices : Column) × (column_by_name batch p ≡ some column)
    × (sort_to_indices column (not false) true ≡ ok indices)
    × (map (λ a. table_laws.cell a 1) sorted.cols
        ≡ map (λ a. table_laws.cell a (table_laws.position indices 1)) batch.cols)
compute_sort-rows_example =
    compute_sort-rows table_laws batch sorted p false 1 batch-sorted (omega arith)

abbrev missing : Text
missing = b'q' ∷ []

field-refused :
    compute_filter_expr tables ascii batch (encode_node (field missing))
    ≡ err (column_not_found missing)
unfolding compute_filter_expr decode_expr eval_to_bool
field-refused = refl

compute_filter_expr-is_panic_example : is_panic {F = ℤ} (column_not_found missing) ≡ false
compute_filter_expr-is_panic_example =
    compute_filter_expr-is_panic tables ascii ascii_laws batch (encode_node (field missing))
      (column_not_found missing) (tt, (tt, tt)) field-refused

abbrev predicate : Table
predicate = record { names = s ∷ []; cols = stale ∷ []; count = 4; sized = refl }

abbrev stale_rows : Table
stale_rows = record {
  names = p ∷ s ∷ [];
  cols =
      record { type = int64; cells = number 3 ∷ [] }
      ∷ record { type = boolean; cells = flag true ∷ [] }
      ∷ [];
  count = 1;
  sized = refl;
}

abbrev stale_bits : Bits
stale_bits = some false ∷ some true ∷ some false ∷ some false ∷ []

predicate-filtered : compute_filter tables batch predicate ≡ ok stale_rows
unfolding compute_filter
predicate-filtered = refl
