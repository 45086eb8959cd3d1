-- ===== src/Adbc/Handles.antt =====
-- adbc.rs: the handles of databases, connections, statements and result streams, and the NIFs on them.
use ex_arrow.Prelude.{
  ℕ, Bool, false, Option, none, some, List, [], ◌∷◌, if◌then◌else◌, Result, ok, err, ◌>>=◌, ok_or,
  map_err, try_collect,
}
use ex_arrow.Beam.{Text, Term, Rustler}
use ex_arrow.Adbc.{
  OptionDatabase, uri, other_path, DriverSpec, by_path, by_name, AdbcError, connection_lock,
  statement_lock, table_name_not_string, depth_not_string, message, AdbcLib, decode_driver_spec,
  decode_optional_string, decode_object_depth,
}

module _ (lib : AdbcLib) where
  open lib use {Driver, Database, Connection, Statement, Schema, Batch}

  pub record AdbcDatabase : Type 0 where
    pub driver : Driver
    pub database : Database

  -- The connection, or the statement, behind its lock.
  pub record AdbcConnection : Type 0 where
    pub connection : Connection
    pub poisoned : Bool

  pub record AdbcStatement : Type 0 where
    pub statement : Statement
    pub poisoned : Bool

  -- Two locks, one for the batches and one for the index.
  pub record AdbcResultStream : Type 0 where
    pub schema : Schema
    pub batches : List Batch
    pub index : ℕ
    pub batches_poisoned : Bool
    pub index_poisoned : Bool

  abbrev options_of : Option Text → Option Text → List (OptionDatabase × Text)
  options_of none none = []
  options_of none (some p) = (other_path, p) ∷ []
  options_of (some u) none = (uri, u) ∷ []
  options_of (some u) (some p) = (uri, u) ∷ (other_path, p) ∷ []

  -- `if db_opts.is_empty()`
  database_with : Driver → List (OptionDatabase × Text) → Result Text Database
  database_with d [] = lib.new_database d
  database_with d (o ∷ os) = lib.new_database_with_opts d (o ∷ os)

  opened : DriverSpec → Result Text AdbcDatabase
  unfolding database_with
  opened (by_path path url db_path entrypoint) = do
    d ← lib.load_dynamic_from_filename path entrypoint
    db ← database_with d (options_of url db_path)
    ok (record { driver = d; database = db })
  opened (by_name name url) = do
    d ← lib.load_dynamic_from_name name
    db ← database_with d (options_of url none)
    ok (record { driver = d; database = db })

  unfoldable pub adbc_connection_open : AdbcDatabase → Result AdbcError AdbcConnection
  adbc_connection_open database = do
    conn ← map_err message (lib.new_connection database.database)
    ok (record { connection = conn; poisoned = false })

  unfoldable pub adbc_statement_new :
      AdbcConnection → Result AdbcError AdbcStatement × AdbcConnection
  adbc_statement_new connection =
      if connection.poisoned
      then (err connection_lock, connection)
      else (let (made, after) = lib.new_statement connection.connection in
          (
            do stmt ← map_err message made; ok (record { statement = stmt; poisoned = false }),
            record connection { connection = after },
          ))

  unfoldable pub adbc_statement_set_sql :
      AdbcStatement → Text → Result AdbcError (Unit {0}) × AdbcStatement
  adbc_statement_set_sql statement sql =
      if statement.poisoned
      then (err statement_lock, statement)
      else (let (set, after) = lib.set_sql_query statement.statement sql in
          (map_err message set, record statement { statement = after }))

  unfoldable pub adbc_statement_bind :
      AdbcStatement → Batch → Result AdbcError (Unit {0}) × AdbcStatement
  adbc_statement_bind statement batch =
      if statement.poisoned
      then (err statement_lock, statement)
      else (let (set, after) = lib.bind statement.statement batch in
          (map_err message set, record statement { statement = after }))

  -- A reader is collected before anything of it is given out.
  unfoldable pub collected :
      Result Text (Schema × List (Result Text Batch)) → Result AdbcError AdbcResultStream
  collected reader = do
    (schema, items) ← map_err message reader
    batches ← map_err message (try_collect items)
    ok (record {
      schema = schema;
      batches = batches;
      index = 0;
      batches_poisoned = false;
      index_poisoned = false;
    })

  unfoldable pub adbc_statement_execute :
      AdbcStatement → Result AdbcError AdbcResultStream × AdbcStatement
  unfolding collected
  adbc_statement_execute statement =
      if statement.poisoned
      then (err statement_lock, statement)
      else (let (reader, after) = lib.execute statement.statement in
          (collected reader, record statement { statement = after }))

  unfoldable pub adbc_stream_schema : AdbcResultStream → Schema
  adbc_stream_schema stream = stream.schema

  unfoldable pub adbc_connection_get_table_types :
      AdbcConnection → Result AdbcError AdbcResultStream
  unfolding collected
  adbc_connection_get_table_types connection =
      if connection.poisoned
      then err connection_lock
      else collected (lib.get_table_types connection.connection)

  module _ {F : Type 0} (r : Rustler F) where
    open r use {string_of}

    unfoldable pub adbc_database_open : Term F → Result AdbcError AdbcDatabase
    unfolding decode_driver_spec opened
    adbc_database_open t = do spec ← decode_driver_spec r t; map_err message (opened spec)

    unfoldable pub adbc_connection_get_table_schema :
        AdbcConnection → Term F → Term F → Term F → Result AdbcError Schema
    unfolding decode_optional_string
    adbc_connection_get_table_schema connection catalog db_schema table_name = do
      table ← ok_or (string_of table_name) table_name_not_string
      if connection.poisoned
          then err connection_lock
          else map_err message (
              lib.get_table_schema connection.connection (decode_optional_string r catalog)
                (decode_optional_string r db_schema) table)

    unfoldable pub adbc_connection_get_objects :
        AdbcConnection
        → Term F
        → Term F
        → Term F
        → Term F
        → Term F
        → Result AdbcError AdbcResultStream
    unfolding decode_object_depth decode_optional_string collected
    adbc_connection_get_objects connection depth catalog db_schema table_name column_name = do
      depth_str ← ok_or (string_of depth) depth_not_string
      depth_val ← decode_object_depth depth_str
      if connection.poisoned
          then err connection_lock
          else collected (
              lib.get_objects connection.connection depth_val (decode_optional_string r catalog)
                (decode_optional_string r db_schema) (decode_optional_string r table_name)
                (decode_optional_string r column_name))
