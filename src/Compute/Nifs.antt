-- ===== src/Compute/Nifs.antt =====
-- compute.rs: the NIFs `compute_filter`, `compute_filter_expr`, `compute_project` and
-- `compute_sort`. A batch is an immutable handle, so a NIF returns the new batch; `ok_encode` and
-- `err_encode` are `ok` and `err`.
pub mod Filtered
pub mod Columns
use ex_arrow.Prelude.{
  ℕ, Bool, true, not, Option, none, some, List, [], ◌∷◌, get_elem?, Result, ok, err, ◌>>=◌, ok_or,
  map_err,
}
use ex_arrow.Beam.{Text, Term, Rustler}
use ex_arrow.Arrow.{Floats}
use ex_arrow.Arrow.Kernels.{Kernels}
use ex_arrow.Compute.{
  Error, no_predicate, predicate_not_boolean, column_not_found, kernel, index_panic,
}
use ex_arrow.Compute.Decode.{decode_expr}
use ex_arrow.Compute.Eval.{Eval, eval_to_bool}

-- `iter().map(f).collect::<Result<Vec<_>, _>>()`: the first error ends it.
unfoldable pub collect {ℓ} : {E A B : Type ℓ} → (A → Result E B) → List A → Result E (List B)
collect f [] = ok []
collect f (a ∷ rest) = do b ← f a; bs ← collect f rest; ok (b ∷ bs)

module _ {fl : Floats} (k : Kernels fl) where
  open k use {
    Array, Mask, Batch, as_boolean, columns, index_of, filter_record_batch, project,
    sort_to_indices, take_rows, try_new,
  }

  filter_first : Batch → List Array → Eval k Batch
  filter_first batch [] = err no_predicate
  filter_first batch (column ∷ _) = do
    mask ← ok_or (as_boolean column) predicate_not_boolean
    map_err kernel (filter_record_batch batch mask)

  unfoldable pub compute_filter : Batch → Batch → Eval k Batch
  unfolding filter_first
  compute_filter batch predicate = filter_first batch (columns predicate)

  unfoldable pub compute_filter_expr : Rustler fl.F64 → Batch → Term fl.F64 → Eval k Batch
  compute_filter_expr r batch encoded = do
    e ← decode_expr r encoded
    mask ← eval_to_bool k batch e
    map_err kernel (filter_record_batch batch mask)

  abbrev pub resolve : Batch → Text → Eval k ℕ
  resolve batch name = ok_or (index_of batch name) (column_not_found name)

  unfoldable pub compute_project : Batch → List Text → Eval k Batch
  unfolding collect
  compute_project batch names = do
    indices ← collect (resolve batch) names
    map_err kernel (project batch indices)

  -- `descending: !ascending, nulls_first: true`
  unfoldable pub compute_sort : Batch → Text → Bool → Eval k Batch
  unfolding collect
  compute_sort batch name ascending = do
    i ← resolve batch name
    column ← ok_or (get_elem? (columns batch) i) index_panic
    indices ← map_err kernel (sort_to_indices column (not ascending) true)
    sorted ← collect (λ c. map_err kernel (take_rows c indices)) (columns batch)
    map_err kernel (try_new batch sorted)
