-- ===== src/Sinks.antt =====
-- What the writers of ipc.rs and parquet.rs have in common: batches are written one after the other to a
-- buffer or to a file that was created, and the writer is finished.
-- The disk is a parameter. A call of a writer gives, with its result, the bytes that its sink has after it,
-- so a call that fails leaves what was written.
pub mod Kept
pub mod Taken
use ex_arrow.Prelude.{ℕ, Bool, List, [], ◌∷◌, length, if◌then◌else◌, Result, ok, err, map_err}
use ex_arrow.Beam.{Text, codes}

-- The bytes of a file, a file that is made or emptied, and the bytes that are written to it then.
pub record Disk : Type 1 where
  pub Files : Type 0
  pub open_file : Files → Text → Result Text Text
  pub create : Files → Text → Result Text Files
  pub save : Files → Text → Text → Files

module _ {Writer Batch : Type 0} (write : Writer → Batch → Result Text Writer × Text)
    (finish : Writer → Result Text (Unit {0}) × Text) where
  -- `for batch_ref in &batches { writer.write(..)? }`, then `writer.finish()?`
  unfoldable pub write_batches :
      Result Text Writer × Text → List Batch → Result Text (Unit {0}) × Text
  write_batches (err e, sink) bs = (err e, sink)
  write_batches (ok w, sink) [] = finish w
  write_batches (ok w, sink) (b ∷ bs) = write_batches (write w b) bs

  -- From `File::create` on.
  unfoldable pub write_created :
      (disk : Disk)
      → Result Text Writer × Text
      → List Batch
      → Text
      → Result Text disk.Files
      → disk.Files
      → Result Text (Unit {0}) × disk.Files
  unfolding write_batches
  write_created disk start bs path (err e) fs = (err e, fs)
  write_created disk start bs path (ok created) fs =
      let (answer, sink) = write_batches start bs in (answer, disk.save created path sink)

  unfoldable pub write_file :
      (disk : Disk)
      → Result Text Writer × Text
      → List Batch
      → Text
      → disk.Files
      → Result Text (Unit {0}) × disk.Files
  unfolding write_created
  write_file disk start bs path fs = write_created disk start bs path (disk.create fs path) fs

-- The bytes of a writing that went well, in a new binary: `grants` says of which sizes the BEAM grants one.
unfoldable pub binary_of : (ℕ → Bool) → Result Text (Unit {0}) × Text → Result Text Text
binary_of grants (err e, sink) = err e
binary_of grants (ok u, sink) = if grants (length sink) then ok sink else err (codes "binary alloc")

-- What a NIF answers, and the disk after it.
abbrev pub answered :
    {E Files : Type 0} → (Text → E) → Result Text (Unit {0}) × Files → Result E (Unit {0}) × Files
answered message (answer, fs) = (map_err message answer, fs)
