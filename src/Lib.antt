-- ===== src/Lib.antt =====
-- ExArrow's native code: the NIFs of native/ex_arrow_native/src, which give Elixir the record
-- batches, files and streams of Apache Arrow.
--
-- A NIF decodes the Elixir terms that it is given, runs kernels of the Arrow crates on immutable
-- batches behind handles, and answers `{:ok, _}` or `{:error, message}`; the models return `ok` and
-- `err`. A message is a constructor with the values that it prints; so is a panic that a NIF can meet, such as
-- that of a `ListIterator` at the end of an improper list.
--
-- Parameters. What is not in the repository is an argument of the definitions that use it: the
-- decoders of rustler (`Rustler`, with `RustlerLaws`), the floats of Rust (`Floats`), and the Arrow
-- kernels on arrays, masks and batches (`Kernels`, with `KernelLaws`), whose laws are stated through
-- the cells, bits and rows of an array, a mask and a batch; the readers and writers of IPC and of
-- Parquet (`IpcFormats`, `FileReader`, `ParquetLib`) and the disk (`Disk`); the FFI of the Arrow crates
-- (`Ffi`), the driver manager (`AdbcLib`), the client of Flight SQL (`SqlLib`), and the transport and the
-- encoders of Flight. Samples/ has concrete values, and the proofs that the laws hold of them.
--
-- Files.
--   Prelude   tests, lists over native numbers, integers with the bounds of Rust's types, `Result`.
--   Beam      Elixir terms and their decoders.
--   Arrow     data types, values, kernels; `Arrow/Laws` has the kernels' documented behaviour.
--   Ipc       ipc.rs. `Varlen`: `decode_varlen_records`, with the frames that
--             lib/ex_arrow/record_batch.ex writes in `Varlen/Frames`.
--             `Columns`: `build_column_array`, `extract_primitive_buffer` and the NIFs that build
--             batches of raw buffers. `Files`: `ipc_file_num_batches`, `ipc_file_get_batch`.
--             `Streams`: the other readers, the writers, and the fields of a schema.
--   Compute   compute.rs. `Decode`: `decode_expr`, `decode_op`, `decode_scalar`, with the wire format
--             in `Decode/Encode`. `Scalar`: `make_scalar_array` and the timestamp conversions.
--             `Eval`: `eval_to_bool`, `eval_value`, `eval_cmp`, with the row-at-a-time evaluation
--             that specifies them in `Eval/Rows`. `Panics` and the `Unpanicked` beside each part say which
--             errors are panics and where they cannot come from. `Nifs`: `compute_filter`, `compute_filter_expr`,
--             `compute_project`, `compute_sort`.
--   Parquet   parquet.rs. `Decode` and `Options`: `decode_filter_expr`, `decode_read_opts`,
--             `decode_write_opts`. `Filter`: `make_scalar`, `eval_filter_on_batch`,
--             `validate_filter_types`, `collect_filter_columns`, with the truth of a filter at one row
--             in `Rows`. `Prune`: `row_group_may_match` and the tests of statistics. `Plan`:
--             `apply_read_opts`, `build_stream`, `parquet_stream_next`. `Nifs`: the readers
--             and writers. `Metadata`: `encode_metadata`.
--   Sinks     the writing of batches to a buffer or to a file of a disk, which ipc.rs and parquet.rs
--             share.
--   Interleaving  calls at the same time on something shared, by the steps of each, for cdi.rs and
--             adbc.rs.
--   HashMap   Rust's map from strings, as the list of its entries.
--   Flight    flight.rs. `Tls`: `parse_tls_mode`, `parse_server_tls`. `Descriptor`: `decode_descriptor`,
--             `encode_descriptor`, `encode_flight_info`, `descriptor_to_key`. `Server`: the handlers of
--             `EchoFlightService` on its state, with the requests of a history in `Requests`. `Client`:
--             the NIFs of a client. `Host`: `flight_server_start`, `flight_server_stop`.
--   Cdi       cdi.rs, with the memory of the two structs of a handle. `Handed` is about calls in a row,
--             `Shared` about calls at the same time, by their atomic steps, and `Raced` about two imports.
--   Adbc      adbc.rs. `Options`: what `decode_driver_spec` makes of the options. `Handles`: the NIFs
--             on databases, connections and statements. `Stream`:
--             `adbc_stream_next`, by the locks that it takes.
--   FlightSql flight_sql.rs. `Errors`: `flight_error_to_term` and the reading of a status from a text.
--             `Client`: connections, queries, metadata, streams. `Statement`: prepared statements, with
--             what lib/ex_arrow/flight_sql/statement.ex makes of their answers in `Statement/Wrapped`.
--   Samples   concrete parameters, inputs, tests.
--
-- Bounds and fuel. No definition runs on fuel: each loop recurses on a list, a term or a count, such as
-- the 80 attempts to reach a server that is started. An `i64` is an integer with the test `fits_i64`
-- where the source checks one; `usize` is 64 bits, and no offset into a slice reaches its bound.
--
-- Not modelled. The test fixtures of ipc.rs; the allocation of buffers, but for the binaries that are handed to
-- Elixir, of which a parameter says which sizes are granted; the memory layout of arrays;
-- the registration of the NIFs in lib.rs; the handles in resources.rs but for those of IPC.
pub mod Prelude
pub mod Ipc
pub mod Beam
pub mod HashMap
pub mod Interleaving
pub mod Sinks
pub mod Arrow
pub mod Compute
pub mod Parquet
pub mod Flight
pub mod Cdi
pub mod Adbc
pub mod FlightSql
mod Samples
