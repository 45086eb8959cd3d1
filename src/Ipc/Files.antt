-- ===== src/Ipc/Files.antt =====
-- native/ex_arrow_native/src/ipc.rs: random access to the batches of an IPC file, `ipc_file_num_batches`
-- and `ipc_file_get_batch`.
-- `arrow_ipc::FileReader` is a parameter: a call of `set_index` or `next` returns the reader after it,
-- and `set_index` leaves the reader as it was where it fails. The two backings differ only in what the
-- reader reads from.
pub mod Random
use ex_arrow.Prelude.{
  ℕ, ◌<◌, ◌≤◌, ◌≡◌, Bool, true, false, Option, none, some, List, length, get_elem?, if◌then◌else◌,
  Result, ok, err,
}
use ex_arrow.Beam.{Text}

pub record FileReader (Batch : Type 0) : Type 1 where
  pub Reader : Type 0
  pub num_batches : Reader → ℕ
  pub set_index : Reader → ℕ → Result Text Reader
  pub next : Reader → Option (Result Text Batch) × Reader

-- A reader has the batches of its file, each read or refused, and gives the one that it was set to.
pub record FileReaderLaws {Batch : Type 0} (f : FileReader Batch) : Type 0 where
  pub blocks : f.Reader → List (Result Text Batch)
  pub num_batches-blocks : (r : f.Reader) → f.num_batches r ≡ length (blocks r)
  pub set_index-in :
      (r : f.Reader) (i : ℕ)
      → i < length (blocks r)
      → (r' : f.Reader) × (f.set_index r i ≡ ok r')
        × ((f.next r').0 ≡ get_elem? (blocks r) i)
        × (blocks (f.next r').1 ≡ blocks r)
  pub set_index-out :
      (r : f.Reader) (i : ℕ) → length (blocks r) ≤ i → (e : Text) × (f.set_index r i ≡ err e)

pub data Backing : Type 0 where
  file binary : Backing

module _ {Batch : Type 0} (f : FileReader Batch) where
  open f use {Reader, num_batches, set_index, next}

  -- `ExArrowIpcFile`: the reader behind its lock.
  pub record IpcFile : Type 0 where
    pub backing : Backing
    pub reader : Reader
    pub poisoned : Bool

  pub data Reply : Type 0 where
    batch : Batch → Reply
    failed : Text → Reply
    file_lock out_of_range : Reply

  abbrev pub reply_of : Option (Result Text Batch) → Reply
  reply_of none = out_of_range
  reply_of (some (err e)) = failed e
  reply_of (some (ok b)) = batch b

  -- `Err(_) => 0` where the lock is poisoned
  unfoldable pub ipc_file_num_batches : IpcFile → ℕ
  ipc_file_num_batches handle = if handle.poisoned then 0 else num_batches handle.reader

  -- From `guard.set_index(index)` on.
  read_at : IpcFile → Result Text Reader → Reply × IpcFile
  read_at handle (err e) = (failed e, handle)
  read_at handle (ok r) = (reply_of (next r).0, record handle { reader = (next r).1 })

  unfoldable pub ipc_file_get_batch : IpcFile → ℕ → Reply × IpcFile
  unfolding read_at
  ipc_file_get_batch handle index =
      if handle.poisoned
      then (file_lock, handle)
      else read_at handle (set_index handle.reader index)
