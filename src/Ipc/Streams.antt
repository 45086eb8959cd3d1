-- ===== src/Ipc/Streams.antt =====
-- ipc.rs: schemas, the readers of IPC streams and files, and the writers of both formats.
-- The readers and writers of the Arrow crates and the disk are parameters. A file does not change while a stream reads it.
pub mod Written
pub mod Stored
pub mod Accepted
use ex_arrow.Prelude.{
  ℕ, Bool, true, false, String, Option, none, some, List, [], ◌∷◌, if◌then◌else◌, Result, ok, err,
  ◌>>=◌, map_err,
}
use ex_arrow.Beam.{Text}
use ex_arrow.Arrow as Arrow
use ex_arrow.Sinks.{Disk, write_batches, write_file, binary_of, answered}
use ex_arrow.Ipc.Files.{FileReader, Backing, file, binary, IpcFile}

-- `arrow_schema::Field`
pub record Field : Type 0 where
  pub name : Text
  pub data_type : Arrow.DataType
  pub is_nullable : Bool

unfoldable pub data_type_to_atom : Arrow.DataType → String
data_type_to_atom Arrow.null = "null"
data_type_to_atom Arrow.boolean = "boolean"
data_type_to_atom Arrow.int8 = "int8"
data_type_to_atom Arrow.int16 = "int16"
data_type_to_atom Arrow.int32 = "int32"
data_type_to_atom Arrow.int64 = "int64"
data_type_to_atom Arrow.uint8 = "uint8"
data_type_to_atom Arrow.uint16 = "uint16"
data_type_to_atom Arrow.uint32 = "uint32"
data_type_to_atom Arrow.uint64 = "uint64"
data_type_to_atom Arrow.float16 = "float16"
data_type_to_atom Arrow.float32 = "float32"
data_type_to_atom Arrow.float64 = "float64"
data_type_to_atom Arrow.utf8 = "utf8"
data_type_to_atom Arrow.large_utf8 = "large_utf8"
data_type_to_atom Arrow.binary = "binary"
data_type_to_atom Arrow.large_binary = "large_binary"
data_type_to_atom Arrow.list = "list"
data_type_to_atom Arrow.large_list = "large_list"
data_type_to_atom Arrow.struct = "struct"
data_type_to_atom (Arrow.timestamp unit tz) = "timestamp"
data_type_to_atom Arrow.date32 = "date32"
data_type_to_atom Arrow.date64 = "date64"
data_type_to_atom (Arrow.time32 unit) = "time32"
data_type_to_atom (Arrow.time64 unit) = "time64"
data_type_to_atom (Arrow.duration unit) = "duration"
data_type_to_atom Arrow.decimal128 = "decimal128"
data_type_to_atom Arrow.decimal256 = "decimal256"
data_type_to_atom Arrow.dictionary = "dictionary"
data_type_to_atom Arrow.other = "unknown"

-- `[{name, type_atom, nullable}, ...]`
unfoldable pub schema_fields : List Field → List (Text × String × Bool)
unfolding data_type_to_atom
schema_fields [] = []
schema_fields (f ∷ fs) = (f.name, data_type_to_atom f.data_type, f.is_nullable) ∷ schema_fields fs

pub data Format : Type 0 where
  stream_format file_format : Format

-- A buffer in memory, or a file.
pub data Sink : Type 0 where
  memory on_disk : Sink

-- `arrow_ipc::reader::StreamReader`, `arrow_ipc::writer`
pub record IpcFormats : Type 1 where
  pub Schema : Type 0
  pub Batch : Type 0
  pub Writer : Type 0
  pub batch_schema : Batch → Schema
  pub num_rows : Batch → ℕ
  pub concat_batches : Schema → List Batch → Result Text Batch
  pub start : Sink → Format → Schema → Result Text Writer × Text
  pub write : Writer → Batch → Result Text Writer × Text
  pub finish : Writer → Result Text (Unit {0}) × Text
  -- A stream reader is its schema and what it has to give.
  pub read_stream : Text → Result Text (Schema × List (Result Text Batch))

pub data IpcError : Type 0 where
  stream_lock file_lock no_batches : IpcError
  message : Text → IpcError

module _ (lib : IpcFormats) where
  open lib use {Schema, Batch, Writer}

  -- `ExArrowIpcStream`
  pub record IpcStream : Type 0 where
    pub backing : Backing
    pub schema : Schema
    pub reader : List (Result Text Batch)
    pub poisoned : Bool

  pub data Reply : Type 0 where
    done : Reply
    batch : Batch → Reply
    failed : IpcError → Reply

  abbrev pub reply_of : Result Text Batch → Reply
  reply_of (ok b) = batch b
  reply_of (err e) = failed (message e)

  unfoldable pub record_batch_schema : Batch → Schema
  record_batch_schema b = lib.batch_schema b

  unfoldable pub record_batch_num_rows : Batch → ℕ
  record_batch_num_rows b = lib.num_rows b

  unfoldable pub record_batch_concat : List Batch → Result IpcError Batch
  record_batch_concat [] = err no_batches
  record_batch_concat (first ∷ rest) =
      map_err message (lib.concat_batches (lib.batch_schema first) (first ∷ rest))

  pub stream_of : Backing → Text → Result IpcError IpcStream
  stream_of backing bytes = do
    (schema, reader) ← map_err message (lib.read_stream bytes)
    ok (record { backing = backing; schema = schema; reader = reader; poisoned = false })

  unfoldable pub ipc_reader_from_binary : Text → Result IpcError IpcStream
  unfolding stream_of
  ipc_reader_from_binary bytes = stream_of binary bytes

  unfoldable pub ipc_stream_schema : IpcStream → Result IpcError Schema
  ipc_stream_schema stream = if stream.poisoned then err stream_lock else ok stream.schema

  -- `guard.next()`
  next_item : List (Result Text Batch) → Reply × List (Result Text Batch)
  next_item [] = (done, [])
  next_item (item ∷ rest) = (reply_of item, rest)

  unfoldable pub ipc_stream_next : IpcStream → Reply × IpcStream
  unfolding next_item
  ipc_stream_next stream =
      if stream.poisoned
      then (failed stream_lock, stream)
      else (let (reply, rest) = next_item stream.reader in (reply, record stream { reader = rest }))

  -- `grants`: whether `OwnedBinary::new` gives a binary of a size.
  unfoldable pub ipc_writer_to_binary : (ℕ → Bool) → Schema → List Batch → Result IpcError Text
  unfolding write_batches binary_of
  ipc_writer_to_binary grants schema bs = map_err message (
      binary_of grants
        (write_batches lib.write lib.finish (lib.start memory stream_format schema) bs))

  module _ (disk : Disk) where
    open disk use {Files, open_file}

    unfoldable pub ipc_reader_from_file : Files → Text → Result IpcError IpcStream
    unfolding stream_of
    ipc_reader_from_file fs path = do
      bytes ← map_err message (open_file fs path)
      stream_of file bytes

    unfoldable pub ipc_writer_to_file :
        Text → Schema → List Batch → Files → Result IpcError (Unit {0}) × Files
    unfolding write_file
    ipc_writer_to_file path schema bs fs =
        answered message
          (write_file lib.write lib.finish disk (lib.start on_disk stream_format schema) bs path fs)

    unfoldable pub ipc_file_writer_to_file :
        Text → Schema → List Batch → Files → Result IpcError (Unit {0}) × Files
    unfolding write_file
    ipc_file_writer_to_file path schema bs fs =
        answered message
          (write_file lib.write lib.finish disk (lib.start on_disk file_format schema) bs path fs)

  -- `FileReader::try_new`, and the schema of a reader.
  module _ (f : FileReader Batch) (read_file : Text → Result Text f.Reader)
      (schema_of : f.Reader → Schema) where
    file_of : Backing → Text → Result IpcError (IpcFile f)
    file_of backing bytes = do
      reader ← map_err message (read_file bytes)
      ok (record { backing = backing; reader = reader; poisoned = false })

    unfoldable pub ipc_file_open_from_binary : Text → Result IpcError (IpcFile f)
    unfolding file_of
    ipc_file_open_from_binary bytes = file_of binary bytes

    unfoldable pub ipc_file_open : (disk : Disk) → disk.Files → Text → Result IpcError (IpcFile f)
    unfolding file_of
    ipc_file_open disk fs path = do
      bytes ← map_err message (disk.open_file fs path)
      file_of file bytes

    unfoldable pub ipc_file_schema : IpcFile f → Result IpcError Schema
    ipc_file_schema handle = if handle.poisoned then err file_lock else ok (schema_of handle.reader)
