-- ===== src/Compute/Decode/Encode.antt =====
-- lib/ex_arrow/compute/expression.ex: `encode_node` and `encode_scalar`, and the expressions that
-- they are given: operators with their number of arguments, numbers in range, UTF-8 texts.
use ex_arrow.Prelude.{ℕ, true, false, String, ◌≡◌, ◌^◌, fits_signed, fits_i64}
use ex_arrow.Beam.{Term, Terms, Rustler, atom, binary, tuple, list, nil, cons}
use ex_arrow.Compute.{
  Op, eq, ne, gt, gte, lt, lte, and, or, not, ScalarValue, bool, int, float, utf8, date32, date64,
  timestamp_micros, timestamp_millis, timestamp_seconds, timestamp_nanos, Expr, Exprs, field,
  scalar, call, args_len,
}

abbrev pub encode_op : Op → String
encode_op eq = "eq"
encode_op ne = "ne"
encode_op gt = "gt"
encode_op gte = "gte"
encode_op lt = "lt"
encode_op lte = "lte"
encode_op and = "and"
encode_op or = "or"
encode_op not = "not"

module _ {F : Type 0} where
  abbrev pair : String → Term F → Term F
  pair tag t = tuple (cons (atom tag) (cons t nil))

  abbrev pub encode_scalar : ScalarValue F → Term F
  encode_scalar (bool true) = atom "true"
  encode_scalar (bool false) = atom "false"
  encode_scalar (int z) = Term.int z
  encode_scalar (float f) = Term.float f
  encode_scalar (utf8 s) = binary s
  encode_scalar (date32 d) = pair "date32" (Term.int d)
  encode_scalar (date64 d) = pair "date64" (Term.int d)
  encode_scalar (timestamp_micros t) = pair "timestamp_micros" (Term.int t)
  encode_scalar (timestamp_millis t) = pair "timestamp_millis" (Term.int t)
  encode_scalar (timestamp_seconds t) = pair "timestamp_seconds" (Term.int t)
  encode_scalar (timestamp_nanos t) = pair "timestamp_nanos" (Term.int t)

  abbrev mutual
    pub encode_node : Expr F → Term F
    encode_node (field s) = pair "field" (binary s)
    encode_node (scalar s) = pair "scalar" (encode_scalar s)
    encode_node (call op es) =
        tuple (cons (atom "call") (cons (atom (encode_op op)) (cons (list (encode_each es)) nil)))

    pub encode_each : Exprs F → Terms F
    encode_each Exprs.nil = nil
    encode_each (Exprs.cons e es) = cons (encode_node e) (encode_each es)

abbrev pub op_arity : Op → ℕ
op_arity not = 1
op_arity _ = 2

module _ {F : Type 0} (r : Rustler F) where
  abbrev pub IsValidScalar : ScalarValue F → Type 0
  IsValidScalar (bool b) = Unit
  IsValidScalar (int z) = fits_i64 z ≡ true
  IsValidScalar (float f) = Unit
  IsValidScalar (utf8 s) = r.is_utf8 s ≡ true
  IsValidScalar (date32 d) = fits_signed (2 ^ 31) d ≡ true
  IsValidScalar (date64 d) = fits_i64 d ≡ true
  IsValidScalar (timestamp_micros t) = fits_i64 t ≡ true
  IsValidScalar (timestamp_millis t) = fits_i64 t ≡ true
  IsValidScalar (timestamp_seconds t) = fits_i64 t ≡ true
  IsValidScalar (timestamp_nanos t) = fits_i64 t ≡ true

  abbrev mutual
    pub IsWellFormed : Expr F → Type 0
    IsWellFormed (field s) = r.is_utf8 s ≡ true
    IsWellFormed (scalar s) = IsValidScalar s
    IsWellFormed (call op es) = (args_len es ≡ op_arity op) × AllWellFormed es

    pub AllWellFormed : Exprs F → Type 0
    AllWellFormed Exprs.nil = Unit
    AllWellFormed (Exprs.cons e es) = IsWellFormed e × AllWellFormed es
