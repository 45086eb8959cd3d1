-- ===== src/Flight/Descriptor.antt =====
-- flight.rs: descriptors and flight infos between Elixir and the wire.
pub mod Shown
use text.Mathlib.Text.{◌==◌ as str_eq}
use mathlib.Core.Option
use ex_arrow.Prelude.{
  ℕ, ℤ, Bool, true, false, String, Option, none, some, List, [], ◌∷◌, ◌++◌, length, pos, eqb_ℤ,
  if◌then◌else◌, Result, ok, err, ◌>>=◌, ok_or, when_some,
}
use ex_arrow.Beam.{
  Text, Term, Terms, Rustler, atom, int, binary, tuple, list, improper, nil, cons, binaries,
}
use ex_arrow.Flight.{FlightDescriptor, descriptor_cmd, descriptor_path, FlightEndpoint, FlightInfo}

pub data DescriptorError : Type 0 where
  not_tuple not_pair tag_not_atom cmd_not_binary path_not_strings unknown_tag : DescriptorError
  -- The panic at the end of an improper list.
  improper_list : DescriptorError

abbrev pub cmd_descriptor : Text → FlightDescriptor
cmd_descriptor bytes = record { kind = descriptor_cmd; cmd = bytes; path = [] }

abbrev pub path_descriptor : List Text → FlightDescriptor
path_descriptor segments = record { kind = descriptor_path; cmd = []; path = segments }

module _ {F : Type 0} (r : Rustler F) where
  open r use {atom_of, binary_of, strings_of}

  -- `decode::<Vec<String>>()`
  segments_of : Term F → Result DescriptorError (List Text)
  segments_of (improper t ts tail) = do
    segments ← ok_or (strings_of (list (cons t ts))) path_not_strings
    err improper_list
  segments_of t = ok_or (strings_of t) path_not_strings

  -- The lines after the tag is decoded.
  descriptor_of : String → Term F → Result DescriptorError FlightDescriptor
  unfolding segments_of
  descriptor_of tag t =
      if str_eq tag "cmd"
      then (do bytes ← ok_or (binary_of t) cmd_not_binary; ok (cmd_descriptor bytes))
      else if str_eq tag "path"
      then (do segments ← segments_of t; ok (path_descriptor segments))
      else err unknown_tag

  unfoldable pub decode_descriptor : Term F → Result DescriptorError FlightDescriptor
  unfolding descriptor_of
  decode_descriptor (tuple (cons tag (cons t nil))) = do
    a ← ok_or (atom_of tag) tag_not_atom
    descriptor_of a t
  decode_descriptor (tuple _) = err not_pair
  decode_descriptor _ = err not_tuple

-- `ep.ticket.map(..).unwrap_or_default()`
abbrev pub ticket_bytes : Option Text → Text
ticket_bytes none = []
ticket_bytes (some bytes) = bytes

-- Whether the BEAM grants a binary of a size: an allocation is refused or granted by its size.
module _ {F : Type 0} (grants : ℕ → Bool) where
  unfoldable pub try_encode_binary : Text → Option (Term F)
  try_encode_binary bytes = if grants (length bytes) then some (binary bytes) else none

  unfoldable pub encode_descriptor : Option FlightDescriptor → Option (Term F)
  unfolding try_encode_binary
  encode_descriptor none = some (atom "nil")
  encode_descriptor (some d) =
      if eqb_ℤ d.kind descriptor_cmd
      then Option.map (λ t. tuple (cons (atom "cmd") (cons t nil))) (try_encode_binary d.cmd)
      else if eqb_ℤ d.kind descriptor_path
      then some (tuple (cons (atom "path") (cons (list (binaries d.path)) nil)))
      else some (atom "nil")

  encode_endpoint : FlightEndpoint → Option (Term F)
  unfolding try_encode_binary
  encode_endpoint ep =
      Option.map (λ t. tuple (cons t (cons (list (binaries ep.location)) nil)))
        (try_encode_binary (ticket_bytes ep.ticket))

  -- `.collect::<Option<Vec<_>>>()`
  encode_endpoints : List FlightEndpoint → Option (Terms F)
  unfolding encode_endpoint
  encode_endpoints [] = some nil
  encode_endpoints (ep ∷ eps) =
      when_some (encode_endpoint ep) (λ t. Option.map (cons t) (encode_endpoints eps)) none

  unfoldable pub encode_flight_info : FlightInfo → Option (Term F)
  unfolding try_encode_binary encode_descriptor encode_endpoints
  encode_flight_info info =
      when_some (try_encode_binary info.schema)
        (λ schema.
          when_some (encode_descriptor info.flight_descriptor)
            (λ descriptor.
              when_some (encode_endpoints info.endpoint)
                (λ endpoints. some (
                  tuple (
                    cons schema (
                      cons descriptor (
                        cons (list endpoints)
                          (cons (int info.total_records) (cons (int info.total_bytes) nil)))))))
                none)
            none)
        none

-- `segments.join("/")`
abbrev pub join_path : List Text → Text
join_path [] = []
join_path (s ∷ []) = s
join_path (s ∷ t ∷ ss) = s ++ (b'/' ∷ join_path (t ∷ ss))

-- `lossy` is `String::from_utf8_lossy`.
unfoldable pub descriptor_to_key : (Text → Text) → FlightDescriptor → Option Text
descriptor_to_key lossy d =
    if eqb_ℤ d.kind descriptor_cmd
    then some (lossy d.cmd)
    else if eqb_ℤ d.kind descriptor_path
    then some (join_path d.path)
    else none
