-- ===== src/Ipc.antt =====
-- native/ex_arrow_native/src/ipc.rs: the columns that Elixir sends and receives as bytes, and the streams
-- and files of batches.
pub mod Varlen
pub mod Columns
pub mod Files
pub mod Streams
