-- ===== src/FlightSql/Errors/Recovered.antt =====
-- An error that was hidden in a text is shown as it is without it.
use ex_arrow.Prelude.{ℕ, ◌≡◌, refl, ◌∙◌, Bool, true, false, if_else, some, ◌∷◌, ◌++◌, if◌then◌else◌}
use ex_arrow.Beam.{Text, codes}
use ex_arrow.FlightSql.Errors.Quoted.{escape_debug, IsPlain, quoted-escape_debug}
use ex_arrow.FlightSql.Errors.{
  Code, SqlAtom, tonic_code_to_atom, tonic_code_name_to_atom, find_name, starts_with, after_first,
  before_first, extract_field, quoted, extract_quoted_field, is_space, drop_spaces, trim,
  parse_tonic_status_debug, ipc_error, tonic, arrow, arrow_error_to_term, flight_error_to_term,
}

-- The name of a variant, as `{:?}` writes it.
abbrev pub name_of : Code → Text
name_of Code.ok = codes "Ok"
name_of Code.cancelled = codes "Cancelled"
name_of Code.unknown = codes "Unknown"
name_of Code.invalid_argument = codes "InvalidArgument"
name_of Code.deadline_exceeded = codes "DeadlineExceeded"
name_of Code.not_found = codes "NotFound"
name_of Code.already_exists = codes "AlreadyExists"
name_of Code.permission_denied = codes "PermissionDenied"
name_of Code.resource_exhausted = codes "ResourceExhausted"
name_of Code.failed_precondition = codes "FailedPrecondition"
name_of Code.aborted = codes "Aborted"
name_of Code.out_of_range = codes "OutOfRange"
name_of Code.unimplemented = codes "Unimplemented"
name_of Code.internal = codes "Internal"
name_of Code.unavailable = codes "Unavailable"
name_of Code.data_loss = codes "DataLoss"
name_of Code.unauthenticated = codes "Unauthenticated"

-- `format!("{status:?}")`: the code, the message, and the rest.
abbrev pub status_debug : Code → Text → Text → Text
status_debug code msg rest =
    codes "Status { code: "
    ++ (name_of code ++ (codes ", message: \"" ++ (escape_debug msg ++ (b'"' ∷ rest))))

-- `Code::Ok`, which is no error.
abbrev pub is_ok : Code → Bool
is_ok Code.ok = true
is_ok _ = false

-- The text with anything after the quote that opens the message.
abbrev headed : Code → Text → Text
headed code tail = codes "Status { code: " ++ (name_of code ++ (codes ", message: \"" ++ tail))

-- What is read before the message, whatever the message is.
record HasHead (code : Code) (tail : Text) : Type 0 where
  starts : starts_with (headed code tail) (codes "Status {") ≡ true
  field : extract_field (headed code tail) (codes "code: ") (codes ",") ≡ some (name_of code)
  opens : after_first (codes "message: \"") (headed code tail) ≡ some tail
  named :
      tonic_code_name_to_atom (trim (name_of code))
      ≡ (if is_ok code then (SqlAtom.ok, 0) else tonic_code_to_atom code)

headed-HasHead : (code : Code) (tail : Text) → HasHead code tail
unfolding extract_field after_first before_first tonic_code_name_to_atom find_name
    tonic_code_to_atom trim drop_spaces is_space
headed-HasHead Code.ok tail = record { starts = refl; field = refl; opens = refl; named = refl }
headed-HasHead Code.cancelled tail = record {
  starts = refl;
  field = refl;
  opens = refl;
  named = refl;
}
headed-HasHead Code.unknown tail = record {
  starts = refl;
  field = refl;
  opens = refl;
  named = refl;
}
headed-HasHead Code.invalid_argument tail = record {
  starts = refl;
  field = refl;
  opens = refl;
  named = refl;
}
headed-HasHead Code.deadline_exceeded tail = record {
  starts = refl;
  field = refl;
  opens = refl;
  named = refl;
}
headed-HasHead Code.not_found tail = record {
  starts = refl;
  field = refl;
  opens = refl;
  named = refl;
}
headed-HasHead Code.already_exists tail = record {
  starts = refl;
  field = refl;
  opens = refl;
  named = refl;
}
headed-HasHead Code.permission_denied tail = record {
  starts = refl;
  field = refl;
  opens = refl;
  named = refl;
}
headed-HasHead Code.resource_exhausted tail = record {
  starts = refl;
  field = refl;
  opens = refl;
  named = refl;
}
headed-HasHead Code.failed_precondition tail = record {
  starts = refl;
  field = refl;
  opens = refl;
  named = refl;
}
headed-HasHead Code.aborted tail = record {
  starts = refl;
  field = refl;
  opens = refl;
  named = refl;
}
headed-HasHead Code.out_of_range tail = record {
  starts = refl;
  field = refl;
  opens = refl;
  named = refl;
}
headed-HasHead Code.unimplemented tail = record {
  starts = refl;
  field = refl;
  opens = refl;
  named = refl;
}
headed-HasHead Code.internal tail = record {
  starts = refl;
  field = refl;
  opens = refl;
  named = refl;
}
headed-HasHead Code.unavailable tail = record {
  starts = refl;
  field = refl;
  opens = refl;
  named = refl;
}
headed-HasHead Code.data_loss tail = record {
  starts = refl;
  field = refl;
  opens = refl;
  named = refl;
}
headed-HasHead Code.unauthenticated tail = record {
  starts = refl;
  field = refl;
  opens = refl;
  named = refl;
}

-- What is recovered of a text in which the three parts are found.
parsed :
    (s name msg : Text) (atom : SqlAtom) (grpc : ℕ)
    → starts_with s (codes "Status {") ≡ true
    → extract_field s (codes "code: ") (codes ",") ≡ some name
    → extract_quoted_field s (codes "message: \"") ≡ some msg
    → tonic_code_name_to_atom (trim name) ≡ (atom, grpc)
    → parse_tonic_status_debug s ≡ some (record { code = atom; grpc_status = grpc; message = msg })
unfolding parse_tonic_status_debug
parsed s name msg atom grpc starts field quote named = rw (starts, field, quote, named) refl

message_of :
    (s tail msg : Text)
    → after_first (codes "message: \"") s ≡ some tail
    → quoted tail ≡ some msg
    → extract_quoted_field s (codes "message: \"") ≡ some msg
unfolding extract_quoted_field
message_of s tail msg opens reads = rw (opens, reads) refl

recovered :
    (code : Code) (msg rest : Text)
    → IsPlain msg
    → is_ok code ≡ false
    → parse_tonic_status_debug (status_debug code msg rest)
      ≡ some (record {
        code = (tonic_code_to_atom code).0;
        grpc_status = (tonic_code_to_atom code).1;
        message = msg;
      })
recovered code msg rest plain error =
    let tail = escape_debug msg ++ (b'"' ∷ rest) in
    let h = headed-HasHead code tail in
    parsed (headed code tail) (name_of code) msg (tonic_code_to_atom code).0
      (tonic_code_to_atom code).1 h.starts h.field
      (message_of (headed code tail) tail msg h.opens (quoted-escape_debug msg rest plain))
      (h.named ∙ if_else (λ t. t ≡ tonic_code_to_atom code) (is_ok code) _ _ error refl)

-- An error of the server is shown to Elixir with the same code, number and message whether the crate gives
-- it as a status or as an IPC error whose text is the status as Rust writes it for debugging, whatever
-- follows the message there. The message is of characters that are printed, new lines and tabs, and the
-- code is not that of success.
pub flight_error_to_term-status_debug :
    (code : Code) (msg rest : Text)
    → IsPlain msg
    → is_ok code ≡ false
    → flight_error_to_term (arrow (ipc_error (status_debug code msg rest)))
      ≡ flight_error_to_term (tonic code msg)
unfolding flight_error_to_term arrow_error_to_term
flight_error_to_term-status_debug code msg rest plain error =
    rw (recovered code msg rest plain error)
