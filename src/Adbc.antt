-- ===== src/Adbc.antt =====
-- native/ex_arrow_native/src/adbc.rs: the errors, and what is read of the terms that a database is opened
-- with and of the depth of a listing.
-- The driver manager is a parameter; a call on a connection or a statement also gives what it is after it.
pub mod Options
pub mod Handles
pub mod Stream
use text.Mathlib.Text.{◌==◌ as str_eq}
use ex_arrow.Prelude.{
  ℕ, Bool, true, false, String, Option, none, some, List, [], ◌∷◌, if◌then◌else◌, Result, ok, err,
  ◌>>=◌, ok_or, map_err, when_some, try_collect,
}
use ex_arrow.Beam.{Text, text_eq, Term, Terms, Rustler, tuple, list, improper, nil, cons}

pub data ObjectDepth : Type 0 where
  all catalogs schemas tables columns : ObjectDepth

-- `OptionDatabase::Uri` and `OptionDatabase::Other("path")`
pub data OptionDatabase : Type 0 where
  uri other_path : OptionDatabase

pub data DriverSpec : Type 0 where
  by_path : Text → Option Text → Option Text → Option Text → DriverSpec
  by_name : Text → Option Text → DriverSpec

pub data AdbcError : Type 0 where
  -- `improper_list`: the panic of a `ListIterator` at the end of an improper list.
  opts_not_list improper_list opt_not_tuple key_not_atom path_not_string name_not_string
        uri_not_string :
      AdbcError
  db_path_not_string entrypoint_not_string no_driver : AdbcError
  connection_lock statement_lock stream_lock stream_index_lock : AdbcError
  table_name_not_string depth_not_string : AdbcError
  bad_depth : Text → AdbcError
  message : Text → AdbcError

-- `adbc_driver_manager`
pub record AdbcLib : Type 1 where
  pub Driver : Type 0
  pub Database : Type 0
  pub Connection : Type 0
  pub Statement : Type 0
  pub Schema : Type 0
  pub Batch : Type 0
  pub load_dynamic_from_filename : Text → Option Text → Result Text Driver
  pub load_dynamic_from_name : Text → Result Text Driver
  pub new_database : Driver → Result Text Database
  pub new_database_with_opts : Driver → List (OptionDatabase × Text) → Result Text Database
  pub new_connection : Database → Result Text Connection
  pub new_statement : Connection → Result Text Statement × Connection
  pub set_sql_query : Statement → Text → Result Text (Unit {0}) × Statement
  pub bind : Statement → Batch → Result Text (Unit {0}) × Statement
  -- A reader is its schema and what it has to give.
  pub execute : Statement → Result Text (Schema × List (Result Text Batch)) × Statement
  pub get_table_types : Connection → Result Text (Schema × List (Result Text Batch))
  pub get_table_schema : Connection → Option Text → Option Text → Text → Result Text Schema
  pub get_objects :
      Connection
      → ObjectDepth
      → Option Text
      → Option Text
      → Option Text
      → Option Text
      → Result Text (Schema × List (Result Text Batch))

-- What the loop over the options has found.
pub record Found : Type 0 where
  pub driver_path : Option Text
  pub driver_name : Option Text
  pub uri : Option Text
  pub db_path : Option Text
  pub entrypoint : Option Text

abbrev pub nothing : Found
nothing = record {
  driver_path = none;
  driver_name = none;
  uri = none;
  db_path = none;
  entrypoint = none;
}

-- The lines after the loop.
unfoldable pub spec_of : Found → Result AdbcError DriverSpec
spec_of found =
    when_some found.driver_path (λ p. ok (by_path p found.uri found.db_path found.entrypoint))
      (when_some found.driver_name (λ n. ok (by_name n found.uri)) (err no_driver))

module _ {F : Type 0} (r : Rustler F) where
  open r use {atom_of, string_of}

  -- The chain of tests of the key of an option.
  unfoldable pub set_opt : Found → String → Term F → Result AdbcError Found
  set_opt found key value =
      if str_eq key "driver_path"
      then (do
        v ← ok_or (string_of value) path_not_string
        ok (record found { driver_path = some v }))
      else if str_eq key "driver_name"
      then (do
        v ← ok_or (string_of value) name_not_string
        ok (record found { driver_name = some v }))
      else if str_eq key "uri"
      then (do v ← ok_or (string_of value) uri_not_string; ok (record found { uri = some v }))
      else if str_eq key "path"
      then (do
        v ← ok_or (string_of value) db_path_not_string
        ok (record found { db_path = some v }))
      else if str_eq key "entrypoint"
      then (do
        v ← ok_or (string_of value) entrypoint_not_string
        ok (record found { entrypoint = some v }))
      else ok found

  -- An option that is no pair is passed over.
  take_opt : Found → Term F → Result AdbcError Found
  unfolding set_opt
  take_opt found (tuple (cons key (cons value nil))) = do
    k ← ok_or (atom_of key) key_not_atom
    set_opt found k value
  take_opt found (tuple ts) = ok found
  take_opt found _ = err opt_not_tuple

  -- `for item in list`
  take_opts : Found → Terms F → Result AdbcError Found
  unfolding take_opt
  take_opts found nil = ok found
  take_opts found (cons t ts) = do next ← take_opt found t; take_opts next ts

  decode_opts : Term F → Result AdbcError DriverSpec
  unfolding take_opts spec_of
  decode_opts (list ts) = do found ← take_opts nothing ts; spec_of found
  decode_opts (improper t ts tail) = do found ← take_opts nothing (cons t ts); err improper_list
  decode_opts _ = err opts_not_list

  unfoldable pub decode_driver_spec : Term F → Result AdbcError DriverSpec
  unfolding decode_opts
  decode_driver_spec t =
      when_some (string_of t) (λ path. ok (by_path path none none none)) (decode_opts t)

  unfoldable pub decode_optional_string : Term F → Option Text
  decode_optional_string t = string_of t

-- The texts that `decode_object_depth` knows.
abbrev pub all_text : Text
all_text = b'a' ∷ b'l' ∷ b'l' ∷ []

abbrev pub catalogs_text : Text
catalogs_text = b'c' ∷ b'a' ∷ b't' ∷ b'a' ∷ b'l' ∷ b'o' ∷ b'g' ∷ b's' ∷ []

abbrev pub schemas_text : Text
schemas_text = b's' ∷ b'c' ∷ b'h' ∷ b'e' ∷ b'm' ∷ b'a' ∷ b's' ∷ []

abbrev pub tables_text : Text
tables_text = b't' ∷ b'a' ∷ b'b' ∷ b'l' ∷ b'e' ∷ b's' ∷ []

abbrev pub columns_text : Text
columns_text = b'c' ∷ b'o' ∷ b'l' ∷ b'u' ∷ b'm' ∷ b'n' ∷ b's' ∷ []

unfoldable pub decode_object_depth : Text → Result AdbcError ObjectDepth
decode_object_depth s =
    if text_eq s all_text
    then ok all
    else if text_eq s catalogs_text
    then ok catalogs
    else if text_eq s schemas_text
    then ok schemas
    else if text_eq s tables_text
    then ok tables
    else if text_eq s columns_text
    then ok columns
    else err (bad_depth s)
