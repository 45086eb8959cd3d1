-- ===== src/Arrow/Kernels.antt =====
-- The arrays, masks and record batches of the Arrow crates, with the kernels that the NIFs call.
-- None of it is in the repository: `Kernels` is a parameter of the model, and `KernelLaws` states
-- the documented behaviour that the theorems rely on.
use ex_arrow.Prelude.{ℕ, Bool, Option, none, some, List, Result}
use ex_arrow.Beam.{Text}
use ex_arrow.Arrow.{Floats, Native, DataType}

-- `arrow_array::Datum`: an array, or `Scalar::new` of an array of one value.
pub data Datum (A : Type 0) : Type 0 where
  whole : A → Datum A
  scalar : A → Datum A

-- The six functions of `arrow_ord::cmp`.
pub data Cmp : Type 0 where
  eq neq gt gt_eq lt lt_eq : Cmp

-- Errors are the text of the `ArrowError`.
pub record Kernels (fl : Floats) : Type 1 where
  pub Array : Type 0
  -- `BooleanArray`
  pub Mask : Type 0
  -- `RecordBatch`
  pub Batch : Type 0
  pub data_type : Array → DataType
  pub array_len : Array → ℕ
  -- `Int64Array::from(vec![v])` and the like, by the type of the array
  pub one : DataType → Native fl → Array
  -- `as_any().downcast_ref::<BooleanArray>()` and `Arc::new(mask) as ArrayRef`
  pub as_boolean : Array → Option Mask
  pub of_boolean : Mask → Array
  pub mask_len : Mask → ℕ
  -- `mask.value(i)`
  pub mask_value : Mask → ℕ → Bool
  -- `BooleanArray::from(vec![b; len])`
  pub fill : Bool → ℕ → Mask
  pub compare : Cmp → Datum Array → Datum Array → Result Text Mask
  -- `arrow_arith::boolean`
  pub and_masks : Mask → Mask → Result Text Mask
  pub or_masks : Mask → Mask → Result Text Mask
  pub not_mask : Mask → Result Text Mask
  pub num_rows : Batch → ℕ
  pub columns : Batch → List Array
  pub column_by_name : Batch → Text → Option Array
  -- `schema.index_of(name)`
  pub index_of : Batch → Text → Option ℕ
  pub filter_record_batch : Batch → Mask → Result Text Batch
  pub project : Batch → List ℕ → Result Text Batch
  -- `sort_to_indices` with its `descending` and `nulls_first`
  pub sort_to_indices : Array → Bool → Bool → Result Text Array
  pub take_rows : Array → Array → Result Text Array
  -- `RecordBatch::try_new(batch.schema(), columns)`
  pub try_new : Batch → List Array → Result Text Batch

-- Booleans with nulls: a null operand makes the result null.
abbrev pub lift₂ : {A B C : Type 0} → (A → B → C) → Option A → Option B → Option C
lift₂ f (some a) (some b) = some (f a b)
lift₂ f _ _ = none
