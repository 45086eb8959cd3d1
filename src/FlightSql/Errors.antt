-- ===== src/FlightSql/Errors.antt =====
-- flight_sql.rs: what an error of the Flight client is shown to Elixir as. The `arrow-flight` crate hides
-- most gRPC errors in a text, from which the code reads them again.
-- The text is bytes: the characters that it is searched for are ASCII, which no other character contains.
pub mod Quoted
pub mod Recovered
use mathlib.Core.List.{reverse}
use ex_arrow.Prelude.{
  ℕ, Bool, true, false, Option, none, some, List, [], ◌∷◌, ◌++◌, ◌==◌, ◌&&◌, ◌||◌, leb, map, length,
  drop, if◌then◌else◌, when_some,
}
use ex_arrow.Beam.{Text, text_eq, codes}

-- `tonic::Code`, which has these variants and no others.
pub data Code : Type 0 where
  ok cancelled unknown invalid_argument deadline_exceeded not_found already_exists : Code
  permission_denied resource_exhausted failed_precondition aborted out_of_range unimplemented : Code
  internal unavailable data_loss unauthenticated : Code

-- The atoms for the errors.
pub data SqlAtom : Type 0 where
  ok transport_error server_error unimplemented unauthenticated permission_denied not_found :
      SqlAtom
  invalid_argument protocol_error multi_endpoint : SqlAtom

-- `{:error, {code, grpc_status, message}}`
pub record SqlError : Type 0 where
  pub code : SqlAtom
  pub grpc_status : ℕ
  pub message : Text

unfoldable pub tonic_code_to_atom : Code → SqlAtom × ℕ
tonic_code_to_atom Code.cancelled = (transport_error, 1)
tonic_code_to_atom Code.unavailable = (transport_error, 14)
tonic_code_to_atom Code.deadline_exceeded = (transport_error, 4)
tonic_code_to_atom Code.unauthenticated = (SqlAtom.unauthenticated, 16)
tonic_code_to_atom Code.permission_denied = (SqlAtom.permission_denied, 7)
tonic_code_to_atom Code.not_found = (SqlAtom.not_found, 5)
tonic_code_to_atom Code.invalid_argument = (SqlAtom.invalid_argument, 3)
tonic_code_to_atom Code.out_of_range = (SqlAtom.invalid_argument, 11)
tonic_code_to_atom Code.unimplemented = (SqlAtom.unimplemented, 12)
tonic_code_to_atom Code.internal = (server_error, 13)
tonic_code_to_atom Code.unknown = (server_error, 2)
tonic_code_to_atom Code.resource_exhausted = (server_error, 8)
tonic_code_to_atom Code.failed_precondition = (server_error, 9)
tonic_code_to_atom Code.aborted = (server_error, 10)
tonic_code_to_atom Code.already_exists = (server_error, 6)
tonic_code_to_atom Code.data_loss = (server_error, 15)
tonic_code_to_atom Code.ok = (server_error, 0)

-- The arms of `match name`, in order.
abbrev code_names : List (Text × SqlAtom × ℕ)
code_names =
    (codes "Ok", SqlAtom.ok, 0)
    ∷ (codes "Cancelled", transport_error, 1)
    ∷ (codes "Unknown", server_error, 2)
    ∷ (codes "InvalidArgument", SqlAtom.invalid_argument, 3)
    ∷ (codes "DeadlineExceeded", transport_error, 4)
    ∷ (codes "NotFound", SqlAtom.not_found, 5)
    ∷ (codes "AlreadyExists", server_error, 6)
    ∷ (codes "PermissionDenied", SqlAtom.permission_denied, 7)
    ∷ (codes "ResourceExhausted", server_error, 8)
    ∷ (codes "FailedPrecondition", server_error, 9)
    ∷ (codes "Aborted", server_error, 10)
    ∷ (codes "OutOfRange", SqlAtom.invalid_argument, 11)
    ∷ (codes "Unimplemented", SqlAtom.unimplemented, 12)
    ∷ (codes "Internal", server_error, 13)
    ∷ (codes "Unavailable", transport_error, 14)
    ∷ (codes "DataLoss", server_error, 15)
    ∷ (codes "Unauthenticated", SqlAtom.unauthenticated, 16)
    ∷ []

find_name : Text → List (Text × SqlAtom × ℕ) → SqlAtom × ℕ
find_name name [] = (server_error, 2)
find_name name ((n, a, i) ∷ arms) = if text_eq name n then (a, i) else find_name name arms

unfoldable pub tonic_code_name_to_atom : Text → SqlAtom × ℕ
unfolding find_name
tonic_code_name_to_atom name = find_name name code_names

-- `s.starts_with(prefix)`
abbrev starts_with : Text → Text → Bool
starts_with s [] = true
starts_with [] (p ∷ ps) = false
starts_with (c ∷ s) (p ∷ ps) = (c == p) && starts_with s ps

-- `&s[s.find(prefix)? + prefix.len()..]`
after_first : Text → Text → Option Text
after_first prefix [] = if starts_with [] prefix then some [] else none
after_first prefix (c ∷ s) =
    if starts_with (c ∷ s) prefix then some (drop (length prefix) (c ∷ s)) else after_first prefix s

-- `&s[..s.find(suffix)?]`
before_first : Text → Text → Option Text
before_first suffix [] = if starts_with [] suffix then some [] else none
before_first suffix (c ∷ s) =
    if starts_with (c ∷ s) suffix
    then some []
    else when_some (before_first suffix s) (λ t. some (c ∷ t)) none

unfoldable pub extract_field : Text → Text → Text → Option Text
unfolding after_first before_first
extract_field s prefix suffix = when_some (after_first prefix s) (before_first suffix) none

-- What `\c` stands for.
unescaped : ℕ → Text
unescaped c =
    if c == b'"'
    then b'"' ∷ []
    else if c == b'n'
    then 10 ∷ []
    else if c == b't'
    then 9 ∷ []
    else if c == b'\\'
    then b'\\' ∷ []
    else b'\\' ∷ c ∷ []

-- The loop, to the closing quote; a text that ends before it has no value.
mutual
  unfolding unescaped

  pub quoted : Text → Option Text
  quoted [] = none
  quoted (c ∷ s) =
      let escape = quoted_escape s in
      let rest = when_some (quoted s) (λ t. some (c ∷ t)) none in
      if c == b'"' then some [] else if c == b'\\' then escape else rest

  quoted_escape : Text → Option Text
  quoted_escape [] = none
  quoted_escape (c ∷ s) = when_some (quoted s) (λ t. some (unescaped c ++ t)) none

unfoldable pub extract_quoted_field : Text → Text → Option Text
unfolding after_first quoted
extract_quoted_field s prefix = when_some (after_first prefix s) quoted none

-- `trim()`, of the white space that is ASCII.
is_space : ℕ → Bool
is_space c = c == b' ' || (leb 9 c && leb c 13)

drop_spaces : Text → Text
unfolding is_space
drop_spaces [] = []
drop_spaces (c ∷ s) = if is_space c then drop_spaces s else c ∷ s

trim : Text → Text
unfolding drop_spaces
trim s = reverse (drop_spaces (reverse (drop_spaces s)))

abbrev or_empty : Option Text → Text
or_empty none = []
or_empty (some s) = s

unfoldable pub parse_tonic_status_debug : Text → Option SqlError
unfolding tonic_code_name_to_atom extract_field extract_quoted_field trim
parse_tonic_status_debug s =
    if starts_with s (codes "Status {")
    then when_some (extract_field s (codes "code: ") (codes ","))
        (λ name.
          let (atom, grpc_int) = tonic_code_name_to_atom (trim name) in
          some (record {
            code = atom;
            grpc_status = grpc_int;
            message = or_empty (extract_quoted_field s (codes "message: \""));
          }))
        none
    else none

-- `arrow::error::ArrowError`: the variant that hides a status, and the text of any other.
pub data ArrowError : Type 0 where
  ipc_error : Text → ArrowError
  other_arrow : Text → ArrowError

-- `ArrowError::to_string`, with what it writes before the text of an IPC error.
abbrev pub arrow_text : ArrowError → Text
arrow_text (ipc_error s) = codes "Ipc error: " ++ s
arrow_text (other_arrow s) = s

-- `arrow_flight::error::FlightError`
pub data FlightError : Type 0 where
  tonic : Code → Text → FlightError
  arrow : ArrowError → FlightError
  decode_error protocol other : Text → FlightError

transport : Text → SqlError
transport s = record { code = transport_error; grpc_status = 0; message = s }

unfoldable pub arrow_error_to_term : ArrowError → SqlError
unfolding transport parse_tonic_status_debug
arrow_error_to_term (ipc_error s) =
    when_some (parse_tonic_status_debug s) (λ e. e) (transport (arrow_text (ipc_error s)))
arrow_error_to_term (other_arrow s) = transport s

unfoldable pub flight_error_to_term : FlightError → SqlError
unfolding tonic_code_to_atom arrow_error_to_term transport
flight_error_to_term (tonic code msg) = record {
  code = (tonic_code_to_atom code).0;
  grpc_status = (tonic_code_to_atom code).1;
  message = msg;
}
flight_error_to_term (arrow e) = arrow_error_to_term e
flight_error_to_term (decode_error msg) = record {
  code = protocol_error;
  grpc_status = 0;
  message = msg;
}
flight_error_to_term (protocol msg) = record {
  code = protocol_error;
  grpc_status = 0;
  message = msg;
}
flight_error_to_term (other msg) = transport msg
