-- ===== src/Ipc/Files/Random.antt =====
-- Access is random: what was read before does not matter.
use ex_arrow.Prelude.{
  ℕ, ◌<◌, ◌≡◌, refl, sym, ap, ◌∙◌, subst, false, ltb, List, [], ◌∷◌, length, get_elem?,
  if◌then◌else◌, Bool-cases, inl, inr, Result, arith,
}
use ex_arrow.Beam.{Text}
use ex_arrow.Ipc.Files.{
  FileReader, FileReaderLaws, IpcFile, Reply, reply_of, read_at, ipc_file_num_batches,
  ipc_file_get_batch,
}

module _ {Batch : Type 0} (f : FileReader Batch) (laws : FileReaderLaws f) where
  open laws use {blocks}

  -- The file after a number of reads.
  abbrev pub after : List ℕ → IpcFile f → IpcFile f
  after [] handle = handle
  after (i ∷ is) handle = after is (ipc_file_get_batch f handle i).1

  -- The lock is sound and the file has these batches.
  abbrev Stores : List (Result Text Batch) → IpcFile f → Type 0
  Stores bs handle = (handle.poisoned ≡ false) × (blocks handle.reader ≡ bs)

  unlocked :
      (handle : IpcFile f) (i : ℕ)
      → handle.poisoned ≡ false
      → ipc_file_get_batch f handle i ≡ read_at f handle (f.set_index handle.reader i)
  unfolding ipc_file_get_batch
  unlocked handle i sound =
      ap
        (λ b.
          if b then (Reply.file_lock, handle) else read_at f handle (f.set_index handle.reader i))
        sound

  read-Stores :
      (bs : List (Result Text Batch)) (handle : IpcFile f) (i : ℕ)
      → Stores bs handle
      → Stores bs (ipc_file_get_batch f handle i).1
  unfolding ipc_file_get_batch read_at
  read-Stores bs handle i (sound, has) = elim (Bool-cases (ltb i (length (blocks handle.reader)))) [
    | inl below ↦
        let (r', set, given, kept) = laws.set_index-in handle.reader i (ground arith) in
        subst (λ t. Stores bs t.1) (sym (unlocked handle i sound ∙ ap (read_at f handle) set))
          (sound, kept ∙ has)
    | inr above ↦
        let (e, refused) = laws.set_index-out handle.reader i (ground arith) in
        subst (λ t. Stores bs t.1) (sym (unlocked handle i sound ∙ ap (read_at f handle) refused))
          (sound, has)
  ]

  after-Stores :
      (bs : List (Result Text Batch)) (is : List ℕ) (handle : IpcFile f)
      → Stores bs handle
      → Stores bs (after is handle)
  after-Stores bs [] handle h = h
  after-Stores bs (i ∷ is) handle h =
      after-Stores bs is (ipc_file_get_batch f handle i).1 (read-Stores bs handle i h)

  reads :
      (bs : List (Result Text Batch)) (handle : IpcFile f) (i : ℕ)
      → Stores bs handle
      → i < length bs
      → (ipc_file_get_batch f handle i).0 ≡ reply_of f (get_elem? bs i)
  unfolding ipc_file_get_batch read_at
  reads bs handle i (sound, has) below =
      let inside : i < length (blocks handle.reader) = subst (λ b. i < length b) (sym has) below in
      let (r', set, given, kept) = laws.set_index-in handle.reader i inside in
      ap (λ t. t.0) (unlocked handle i sound ∙ ap (read_at f handle) set)
      ∙ ap (reply_of f) (given ∙ ap (λ b. get_elem? b i) has)

-- After reads of any indices, in range or not, in any order, the batch at an index below the number of
-- batches is the batch of the file at that index, or the error with which it cannot be read.
pub ipc_file_get_batch-after :
    {Batch : Type 0} (f : FileReader Batch) (laws : FileReaderLaws f) (handle : IpcFile f)
    (is : List ℕ) (i : ℕ)
    → handle.poisoned ≡ false
    → i < ipc_file_num_batches f handle
    → (ipc_file_get_batch f (after f laws is handle) i).0
      ≡ reply_of f (get_elem? (laws.blocks handle.reader) i)
unfolding ipc_file_num_batches
ipc_file_get_batch-after f laws handle is i sound below =
    let bs = laws.blocks handle.reader in
    let count : i < f.num_batches handle.reader = rw sound at below in
    reads f laws bs (after f laws is handle) i (after-Stores f laws bs is handle (sound, refl))
      (subst (λ n. i < n) (laws.num_batches-blocks handle.reader) count)
