-- ===== src/Flight/Tls.antt =====
-- flight.rs: `parse_tls_mode` and `parse_server_tls`, which read the security of a connection.
pub mod Exact
use text.Mathlib.Text.{◌==◌ as str_eq}
use ex_arrow.Prelude.{
  Bool, true, false, String, Option, none, some, if◌then◌else◌, Result, ok, err, ◌>>=◌, ok_or,
  when_some,
}
use ex_arrow.Beam.{Text, Term, Terms, Rustler, atom, binary, tuple, nil, cons}

pub data TlsMode : Type 0 where
  plaintext system_certs : TlsMode
  custom_ca : Text → TlsMode

pub data ServerTlsMode : Type 0 where
  plaintext : ServerTlsMode
  tls : Text → Text → ServerTlsMode
  mtls : Text → Text → Text → ServerTlsMode

-- The messages of the two functions.
pub data TlsError : Type 0 where
  unknown_atom not_tuple payload_not_binary invalid : TlsError
  server_atom server_not_tuple cert_not_binary key_not_binary ca_not_binary server_invalid :
      TlsError

module _ {F : Type 0} (r : Rustler F) where
  open r use {atom_of, binary_of}

  tls_atom : String → Result TlsError TlsMode
  tls_atom a =
      if str_eq a "plaintext"
      then ok TlsMode.plaintext
      else if str_eq a "system_certs"
      then ok system_certs
      else err unknown_atom

  -- The lines from `get_tuple` on.
  tls_tuple : Term F → Result TlsError TlsMode
  tls_tuple (tuple (cons tag (cons pem nil))) =
      when_some (atom_of tag)
        (λ a.
          if str_eq a "custom_ca"
          then (do bytes ← ok_or (binary_of pem) payload_not_binary; ok (custom_ca bytes))
          else err invalid)
        (err invalid)
  tls_tuple (tuple _) = err invalid
  tls_tuple _ = err not_tuple

  unfoldable pub parse_tls_mode : Term F → Result TlsError TlsMode
  unfolding tls_atom tls_tuple
  parse_tls_mode t = when_some (atom_of t) tls_atom (tls_tuple t)

  server_atom_mode : String → Result TlsError ServerTlsMode
  server_atom_mode a = if str_eq a "plaintext" then ok ServerTlsMode.plaintext else err server_atom

  one_way : Term F → Term F → Result TlsError ServerTlsMode
  one_way cert key = do
    c ← ok_or (binary_of cert) cert_not_binary
    k ← ok_or (binary_of key) key_not_binary
    ok (tls c k)

  mutual_tls : Term F → Term F → Term F → Result TlsError ServerTlsMode
  mutual_tls cert key ca = do
    c ← ok_or (binary_of cert) cert_not_binary
    k ← ok_or (binary_of key) key_not_binary
    a ← ok_or (binary_of ca) ca_not_binary
    ok (mtls c k a)

  server_tuple : Term F → Result TlsError ServerTlsMode
  unfolding one_way mutual_tls
  server_tuple (tuple (cons tag (cons cert (cons key nil)))) =
      when_some (atom_of tag) (λ a. if str_eq a "tls" then one_way cert key else err server_invalid)
        (err server_invalid)
  server_tuple (tuple (cons tag (cons cert (cons key (cons ca nil))))) =
      when_some (atom_of tag)
        (λ a. if str_eq a "mtls" then mutual_tls cert key ca else err server_invalid)
        (err server_invalid)
  server_tuple (tuple _) = err server_invalid
  server_tuple _ = err server_not_tuple

  unfoldable pub parse_server_tls : Term F → Result TlsError ServerTlsMode
  unfolding server_atom_mode server_tuple
  parse_server_tls t = when_some (atom_of t) server_atom_mode (server_tuple t)
