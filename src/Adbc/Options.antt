-- ===== src/Adbc/Options.antt =====
-- The options that a database is opened with, by what Elixir sends.
use text.Mathlib.Text.{◌==◌ as str_eq}
use text.Mathlib.TextEquality.{eq_iff}
use ex_arrow.Prelude.{
  ◌≡◌, refl, ◌∙◌, inl, inr, true, Bool-cases, String, Option, none, some, List, [], ◌∷◌,
  if◌then◌else◌, Result, ok, err, Option-cases,
}
use ex_arrow.Beam.{Text, Term, Terms, Rustler, RustlerLaws, atom, binary, tuple, list, nil, cons}
use ex_arrow.Adbc.{
  AdbcError, no_driver, DriverSpec, by_path, by_name, Found, nothing, set_opt, take_opt, take_opts,
  spec_of, decode_opts, decode_driver_spec,
}

-- `[{key, value}, ...]`
abbrev pub opt_terms : {F : Type 0} → List (String × Text) → Terms F
opt_terms [] = nil
opt_terms ((k, v) ∷ opts) = cons (tuple (cons (atom k) (cons (binary v) nil))) (opt_terms opts)

-- The last value of a key, or what was there before.
abbrev pub last_from : String → Option Text → List (String × Text) → Option Text
last_from key before [] = before
last_from key before ((k, v) ∷ opts) = last_from key (if str_eq k key then some v else before) opts

abbrev pub last_of : String → List (String × Text) → Option Text
last_of key opts = last_from key none opts

-- What a database is opened with: a driver with a path, with what else there is, before one with a name.
pub data Chooses (opts : List (String × Text)) : Result AdbcError DriverSpec → Type 0 where
  at_path :
      (p : Text)
      → last_of "driver_path" opts ≡ some p
      → Chooses opts
          (ok (by_path p (last_of "uri" opts) (last_of "path" opts) (last_of "entrypoint" opts)))
  with_name :
      (n : Text)
      → last_of "driver_path" opts ≡ none
      → last_of "driver_name" opts ≡ some n
      → Chooses opts (ok (by_name n (last_of "uri" opts)))
  neither :
      last_of "driver_path" opts ≡ none
      → last_of "driver_name" opts ≡ none
      → Chooses opts (err no_driver)

-- What the loop finds of these.
abbrev found_of : List (String × Text) → Found
found_of opts = record {
  driver_path = last_of "driver_path" opts;
  driver_name = last_of "driver_name" opts;
  uri = last_of "uri" opts;
  db_path = last_of "path" opts;
  entrypoint = last_of "entrypoint" opts;
}

spec_of-Chooses : (opts : List (String × Text)) → Chooses opts (spec_of (found_of opts))
unfolding spec_of
spec_of-Chooses opts = elim (Option-cases (last_of "driver_path" opts)) [
  | inl no_path ↦ elim (Option-cases (last_of "driver_name" opts)) [
    | inl no_name ↦ rw (no_path, no_name) (neither no_path no_name)
    | inr (n, named) ↦ rw (no_path, named) (with_name n no_path named)
  ]
  | inr (p, placed) ↦ rw placed (at_path p placed)
]

module _ {F : Type 0} (r : Rustler F) where
  abbrev pub AllUtf8 : List (String × Text) → Type 0
  AllUtf8 [] = Unit
  AllUtf8 ((k, v) ∷ opts) = (r.is_utf8 v ≡ true) × AllUtf8 opts

  -- What is found after one more option.
  abbrev put : Found → String → Text → Found
  put found k v = record {
    driver_path = if str_eq k "driver_path" then some v else found.driver_path;
    driver_name = if str_eq k "driver_name" then some v else found.driver_name;
    uri = if str_eq k "uri" then some v else found.uri;
    db_path = if str_eq k "path" then some v else found.db_path;
    entrypoint = if str_eq k "entrypoint" then some v else found.entrypoint;
  }

  -- The key that is tested for is the only one that a test holds of.
  set_opt-put :
      (found : Found) (k : String) (t : Term F) (v : Text)
      → r.string_of t ≡ some v
      → set_opt r found k t ≡ ok (put found k v)
  unfolding set_opt
  set_opt-put found k t v reads = elim (Bool-cases (str_eq k "driver_path")) [
    | inl e ↦ rw ((eq_iff k "driver_path").0 e, reads)
    | inr e₁ ↦ elim (Bool-cases (str_eq k "driver_name")) [
      | inl e ↦ rw ((eq_iff k "driver_name").0 e, reads)
      | inr e₂ ↦ elim (Bool-cases (str_eq k "uri")) [
        | inl e ↦ rw ((eq_iff k "uri").0 e, reads)
        | inr e₃ ↦ elim (Bool-cases (str_eq k "path")) [
          | inl e ↦ rw ((eq_iff k "path").0 e, reads)
          | inr e₄ ↦ elim (Bool-cases (str_eq k "entrypoint")) [
            | inl e ↦ rw ((eq_iff k "entrypoint").0 e, reads)
            | inr e₅ ↦ rw (e₁, e₂, e₃, e₄, e₅)
          ]
        ]
      ]
    ]
  ]

  module _ (laws : RustlerLaws r) where
    open laws use {atom_of-atom, string_of-binary, string_of-list}

    read_utf8 : (v : Text) → r.is_utf8 v ≡ true → r.string_of (binary v) ≡ some v
    read_utf8 v h = string_of-binary v ∙ rw h

    take_opts-last_from :
        (found : Found) (opts : List (String × Text))
        → AllUtf8 opts
        → take_opts r found (opt_terms opts)
          ≡ ok (record {
            driver_path = last_from "driver_path" found.driver_path opts;
            driver_name = last_from "driver_name" found.driver_name opts;
            uri = last_from "uri" found.uri opts;
            db_path = last_from "path" found.db_path opts;
            entrypoint = last_from "entrypoint" found.entrypoint opts;
          })
    unfolding take_opts take_opt
    take_opts-last_from found [] h = refl
    take_opts-last_from found ((k, v) ∷ opts) h =
        rw (atom_of-atom k, set_opt-put found k (binary v) v (read_utf8 v h.0))
          (take_opts-last_from (put found k v) opts h.1)

-- The options that a database is opened with are the last values of their keys, whatever stands between,
-- and other keys make no difference: the driver is the one with the path, with the uri, the database's path
-- and the entry point, or else the one with the name, with the uri, and it is an error that there is neither. The values are UTF-8.
pub decode_driver_spec-opt_terms :
    {F : Type 0} (r : Rustler F) (laws : RustlerLaws r) (opts : List (String × Text))
    → AllUtf8 r opts
    → Chooses opts (decode_driver_spec r (list (opt_terms opts)))
unfolding decode_driver_spec decode_opts
decode_driver_spec-opt_terms r laws opts h =
    rw (laws.string_of-list (opt_terms opts), take_opts-last_from r laws nothing opts h)
      (spec_of-Chooses opts)
