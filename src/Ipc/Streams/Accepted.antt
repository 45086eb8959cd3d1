-- ===== src/Ipc/Streams/Accepted.antt =====
-- When a stream can be written to a binary.
use ex_arrow.Prelude.{ℕ, ◌≡◌, ◌↔◌, Bool, true, List, length, Result, ok, map_err-eq-ok}
use ex_arrow.Beam.{Text}
use ex_arrow.Sinks.{write_batches, binary_of}
use ex_arrow.Sinks.Kept.{binary_of-eq-ok}
use ex_arrow.Sinks.Taken.{Takes, Takes-write_batches, write_batches-Takes}
use ex_arrow.Ipc.Streams.{IpcFormats, stream_format, memory, message, ipc_writer_to_binary}

-- The writer that was started for this schema takes these batches, and the BEAM grants a binary of what it
-- has written when it finishes.
pub record Accepts (lib : IpcFormats) (grants : ℕ → Bool) (s : lib.Schema) (bs : List lib.Batch)
    (bytes : Text) : Type 0 where
  pub writer : lib.Writer
  pub started : (lib.start memory stream_format s).0 ≡ ok writer
  pub takes : Takes lib.write lib.finish bytes writer bs
  pub granted : grants (length bytes) ≡ true

ends-with :
    (answer : Result Text (Unit {0}) × Text) (bytes : Text)
    → answer.0 ≡ ok tt
    → answer.1 ≡ bytes
    → answer ≡ (ok tt, bytes)
ends-with answer bytes wrote same = cc (wrote, same)

-- A stream is written to a binary exactly if the writer starts, takes each of the batches in turn and
-- finishes, and the BEAM grants a binary of the size of what is written then; the binary is that.
pub ipc_writer_to_binary-eq-ok :
    (lib : IpcFormats) (grants : ℕ → Bool) (s : lib.Schema) (bs : List lib.Batch) (bytes : Text)
    → (ipc_writer_to_binary lib grants s bs ≡ ok bytes) ↔ Accepts lib grants s bs bytes
unfolding ipc_writer_to_binary binary_of
ipc_writer_to_binary-eq-ok lib grants s bs bytes = (
  λ writes.
      let start = lib.start memory stream_format s in
      let answer = write_batches lib.write lib.finish start bs in
      let (wrote, same, granted) =
        binary_of-eq-ok grants answer bytes
          (map_err-eq-ok message (binary_of grants answer) bytes writes) in
      let (w, started, takes) =
        write_batches-Takes lib.write lib.finish bytes start bs
          (ends-with answer bytes wrote same) in
      record { writer = w; started = started; takes = takes; granted = granted },
  λ a. rw (
    Takes-write_batches lib.write lib.finish bytes (lib.start memory stream_format s) a.writer bs
        a.started a.takes,
    a.granted,
  ),
)
