-- ===== src/Compute.antt =====
-- native/ex_arrow_native/src/compute.rs: the filter expressions and the values they are built of.
-- The children follow the file: `Decode` (terms to expressions), `Scalar` (a literal read at the
-- type of a column), `Eval` (column-at-a-time evaluation) and `Nifs` (filter, project, sort).
-- A `Debug`-printed message is a constructor of `Error` with the values that it prints; `index_panic`
-- is Rust's panic at `args[i]` out of range, `unreachable_op` is `unreachable!`,
-- `improper_list` is the panic of a `ListIterator` at the end of an improper list,
-- and `kernel` carries the text of an `ArrowError`.
pub mod Panics
pub mod Decode
pub mod Scalar
pub mod Eval
pub mod Nifs
use ex_arrow.Prelude.{ℕ, suc, ℤ, Bool}
use ex_arrow.Beam.{Text}
use ex_arrow.Arrow.{DataType, TimeUnit}

pub data Op : Type 0 where
  eq ne gt gte lt lte : Op
  and or not : Op

pub data ScalarValue (F : Type 0) : Type 0 where
  bool : Bool → ScalarValue F
  int : ℤ → ScalarValue F
  float : F → ScalarValue F
  utf8 : Text → ScalarValue F
  date32 date64 : ℤ → ScalarValue F
  timestamp_micros timestamp_millis timestamp_seconds timestamp_nanos : ℤ → ScalarValue F

mutual
  pub data Expr (F : Type 0) : Type 0 where
    field : Text → Expr F
    scalar : ScalarValue F → Expr F
    call : Op → Exprs F → Expr F

  pub data Exprs (F : Type 0) : Type 0 where
    nil : Exprs F
    cons : Expr F → Exprs F → Exprs F

abbrev pub args_len : {F : Type 0} → Exprs F → ℕ
args_len nil = 0
args_len (cons e es) = suc (args_len es)

pub data Error (F : Type 0) : Type 0 where
  not_a_tuple empty_tuple tag_not_atom field_len field_name scalar_len call_len : Error F
  args_not_list improper_list not_arity bad_tag op_not_atom bad_op : Error F
  arity : Op → Error F
  not_a_scalar temporal_len unit_not_atom value_not_integer bad_unit : Error F
  date32_range : ℤ → Error F
  column_not_found : Text → Error F
  not_boolean_column : DataType → Error F
  not_boolean_scalar : ScalarValue F → Error F
  mask_length : ℕ → ℕ → Error F
  array_lengths : ℕ → ℕ → Error F
  incomparable : ScalarValue F → ScalarValue F → Error F
  type_mismatch : ScalarValue F → DataType → Error F
  out_of_range : ℤ → DataType → Error F
  inexact_int : ℤ → DataType → Error F
  inexact_float : F → DataType → Error F
  inexact_date inexact_nanos : ℤ → Error F
  inexact_micros : ℤ → TimeUnit → Error F
  overflow : ℤ → Error F
  no_predicate predicate_not_boolean : Error F
  kernel : Text → Error F
  index_panic : Error F
  unreachable_op : Op → Error F
