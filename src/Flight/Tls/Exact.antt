-- ===== src/Flight/Tls/Exact.antt =====
-- What is accepted as a mode of TLS: the terms that Elixir writes for a mode, and no other.
use text.Mathlib.Text.{◌==◌ as str_eq}
use ex_arrow.Prelude.{
  ◌≡◌, ◌∙◌, ap, ◌↔◌, ok, ok_or, ok_or-eq-ok, Yields, Yields-ok, Yields-err, Yields-if, Yields-bind,
  Yields-when_some,
}
use ex_arrow.Beam.{Text, Term, Rustler, RustlerLaws, named, atom, binary, tuple, nil, cons}
use ex_arrow.Flight.Tls.{
  TlsMode, ServerTlsMode, TlsError, system_certs, custom_ca, tls, mtls, tls_atom, tls_tuple,
  parse_tls_mode, server_atom_mode, one_way, mutual_tls, server_tuple, parse_server_tls,
}

-- `ExArrow.Flight.Client.connect/3` sends these.
abbrev pub tls_term : {F : Type 0} → TlsMode → Term F
tls_term TlsMode.plaintext = atom "plaintext"
tls_term system_certs = atom "system_certs"
tls_term (custom_ca pem) = tuple (cons (atom "custom_ca") (cons (binary pem) nil))

abbrev pub server_tls_term : {F : Type 0} → ServerTlsMode → Term F
server_tls_term ServerTlsMode.plaintext = atom "plaintext"
server_tls_term (tls cert key) =
    tuple (cons (atom "tls") (cons (binary cert) (cons (binary key) nil)))
server_tls_term (mtls cert key ca) =
    tuple (cons (atom "mtls") (cons (binary cert) (cons (binary key) (cons (binary ca) nil))))

module _ {F : Type 0} (r : Rustler F) (laws : RustlerLaws r) where
  open r use {atom_of, binary_of}
  open laws use {atom_of-atom, atom_of-eq-some, atom_of-tuple, binary_of-binary, binary_of-eq-some}

  -- A binary that the code asks for.
  bytes_of : (t : Term F) (e : TlsError) {s : Text} → ok_or (binary_of t) e ≡ ok s → t ≡ binary s
  bytes_of t e {s} h = binary_of-eq-some t s (ok_or-eq-ok (binary_of t) e h)

  tls_tuple-Yields : (t : Term F) → Yields (λ m. t ≡ tls_term m) (tls_tuple r t)
  unfolding tls_tuple
  tls_tuple-Yields (tuple (cons tag (cons pem nil))) =
      Yields-when_some (atom_of tag)
        (λ a has.
          Yields-if (str_eq a "custom_ca")
            (λ e. Yields-bind (ok_or (binary_of pem) TlsError.payload_not_binary) (λ bytes got.
              Yields-ok (custom_ca bytes)
                (cc (named r laws tag a "custom_ca" has e, bytes_of pem _ got))))
            (λ e. Yields-err TlsError.invalid))
        (Yields-err TlsError.invalid)
  tls_tuple-Yields (tuple nil) = Yields-err TlsError.invalid
  tls_tuple-Yields (tuple (cons a nil)) = Yields-err TlsError.invalid
  tls_tuple-Yields (tuple (cons a (cons b (cons c ts)))) = Yields-err TlsError.invalid
  tls_tuple-Yields (atom a) = Yields-err TlsError.not_tuple
  tls_tuple-Yields _ = Yields-err TlsError.not_tuple

  parse_tls_mode-Yields : (t : Term F) → Yields (λ m. t ≡ tls_term m) (parse_tls_mode r t)
  unfolding parse_tls_mode tls_atom
  parse_tls_mode-Yields t =
      Yields-when_some (atom_of t)
        (λ a has.
          Yields-if (str_eq a "plaintext")
            (λ e. Yields-ok TlsMode.plaintext (named r laws t a "plaintext" has e))
            (λ _.
              Yields-if (str_eq a "system_certs")
                (λ e. Yields-ok system_certs (named r laws t a "system_certs" has e))
                (λ _. Yields-err TlsError.unknown_atom)))
        (tls_tuple-Yields t)

  parse_tls_mode-tls_term : (m : TlsMode) → parse_tls_mode r (tls_term m) ≡ ok m
  unfolding parse_tls_mode tls_atom tls_tuple
  parse_tls_mode-tls_term TlsMode.plaintext = rw (atom_of-atom "plaintext")
  parse_tls_mode-tls_term system_certs = rw (atom_of-atom "system_certs")
  parse_tls_mode-tls_term (custom_ca pem) =
      rw (atom_of-tuple, atom_of-atom "custom_ca", binary_of-binary pem)

  server_tuple-Yields : (t : Term F) → Yields (λ m. t ≡ server_tls_term m) (server_tuple r t)
  unfolding server_tuple one_way mutual_tls
  server_tuple-Yields (tuple (cons tag (cons cert (cons key nil)))) =
      Yields-when_some (atom_of tag)
        (λ a has.
          Yields-if (str_eq a "tls")
            (λ e. Yields-bind (ok_or (binary_of cert) TlsError.cert_not_binary) (λ c hc.
              Yields-bind (ok_or (binary_of key) TlsError.key_not_binary) (λ k hk.
                Yields-ok (tls c k)
                  (cc (named r laws tag a "tls" has e, bytes_of cert _ hc, bytes_of key _ hk)))))
            (λ e. Yields-err TlsError.server_invalid))
        (Yields-err TlsError.server_invalid)
  server_tuple-Yields (tuple (cons tag (cons cert (cons key (cons ca nil))))) =
      Yields-when_some (atom_of tag)
        (λ a has.
          Yields-if (str_eq a "mtls")
            (λ e. Yields-bind (ok_or (binary_of cert) TlsError.cert_not_binary) (λ c hc.
              Yields-bind (ok_or (binary_of key) TlsError.key_not_binary) (λ k hk.
                Yields-bind (ok_or (binary_of ca) TlsError.ca_not_binary) (λ b hb.
                  Yields-ok (mtls c k b) (
                    cc (
                      named r laws tag a "mtls" has e,
                      bytes_of cert _ hc,
                      bytes_of key _ hk,
                      bytes_of ca _ hb,
                    ))))))
            (λ e. Yields-err TlsError.server_invalid))
        (Yields-err TlsError.server_invalid)
  server_tuple-Yields (tuple nil) = Yields-err TlsError.server_invalid
  server_tuple-Yields (tuple (cons a nil)) = Yields-err TlsError.server_invalid
  server_tuple-Yields (tuple (cons a (cons b nil))) = Yields-err TlsError.server_invalid
  server_tuple-Yields (tuple (cons a (cons b (cons c (cons d (cons e ts)))))) =
      Yields-err TlsError.server_invalid
  server_tuple-Yields (atom a) = Yields-err TlsError.server_not_tuple
  server_tuple-Yields _ = Yields-err TlsError.server_not_tuple

  parse_server_tls-Yields :
      (t : Term F) → Yields (λ m. t ≡ server_tls_term m) (parse_server_tls r t)
  unfolding parse_server_tls server_atom_mode
  parse_server_tls-Yields t =
      Yields-when_some (atom_of t)
        (λ a has.
          Yields-if (str_eq a "plaintext")
            (λ e. Yields-ok ServerTlsMode.plaintext (named r laws t a "plaintext" has e))
            (λ _. Yields-err TlsError.server_atom))
        (server_tuple-Yields t)

  parse_server_tls-server_tls_term :
      (m : ServerTlsMode) → parse_server_tls r (server_tls_term m) ≡ ok m
  unfolding parse_server_tls server_atom_mode server_tuple one_way mutual_tls
  parse_server_tls-server_tls_term ServerTlsMode.plaintext = rw (atom_of-atom "plaintext")
  parse_server_tls-server_tls_term (tls cert key) =
      rw (atom_of-tuple, atom_of-atom "tls", binary_of-binary cert, binary_of-binary key)
  parse_server_tls-server_tls_term (mtls cert key ca) = rw (
    atom_of-tuple,
    atom_of-atom "mtls",
    binary_of-binary cert,
    binary_of-binary key,
    binary_of-binary ca,
  )

-- A term is accepted as a mode of TLS for a client exactly if it is the term for that mode: no atom,
-- tuple or payload is taken for another mode, and in particular none but `:plaintext` for no TLS.
pub parse_tls_mode-eq-ok :
    {F : Type 0} (r : Rustler F) (laws : RustlerLaws r) (t : Term F) (m : TlsMode)
    → (parse_tls_mode r t ≡ ok m) ↔ (t ≡ tls_term m)
parse_tls_mode-eq-ok r laws t m = (
  (parse_tls_mode-Yields r laws t).at m,
  λ e. ap (parse_tls_mode r) e ∙ parse_tls_mode-tls_term r laws m,
)

-- A term is accepted as a mode of TLS for a server exactly if it is the term for that mode, with its
-- certificate, key and client authority each in its place.
pub parse_server_tls-eq-ok :
    {F : Type 0} (r : Rustler F) (laws : RustlerLaws r) (t : Term F) (m : ServerTlsMode)
    → (parse_server_tls r t ≡ ok m) ↔ (t ≡ server_tls_term m)
parse_server_tls-eq-ok r laws t m = (
  (parse_server_tls-Yields r laws t).at m,
  λ e. ap (parse_server_tls r) e ∙ parse_server_tls-server_tls_term r laws m,
)
