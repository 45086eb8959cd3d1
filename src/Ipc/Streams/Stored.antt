-- ===== src/Ipc/Streams/Stored.antt =====
-- Streams and files that are written to a disk are read again.
use ex_arrow.Prelude.{
  ℕ, zero, suc, ◌<◌, ◌≡◌, refl, sym, ◌∙◌, ap, subst, false, some, List, [], ◌∷◌, map, length,
  get_elem?, get_elem?-map, Result, ok, ◌>>=◌, map_err, arith,
}
use ex_arrow.Beam.{Text}
use ex_arrow.Sinks.{Disk}
use ex_arrow.Sinks.Kept.{DiskLaws, write_file-Saved, saved_bytes, answered-ok}
use ex_arrow.Ipc.Files.{
  FileReader, FileReaderLaws, file, IpcFile, batch, reply_of, ipc_file_num_batches,
  ipc_file_get_batch,
}
use ex_arrow.Ipc.Files.Random.{after, ipc_file_get_batch-after}
use ex_arrow.Ipc.Streams.{
  IpcFormats, stream_format, file_format, on_disk, message, IpcStream, stream_of,
  ipc_writer_to_file, ipc_reader_from_file, ipc_file_writer_to_file, file_of, ipc_file_open,
  ipc_file_schema,
}
use ex_arrow.Ipc.Streams.Written.{
  WriterLaws, AllOf, writing, writing-Wrote, read_back, Replays, stream_of-Replays, length-map_ok,
}

-- The file that was finished is read as its batches.
pub record FooterLaws {lib : IpcFormats} (laws : WriterLaws lib) {f : FileReader lib.Batch}
    (reads : FileReaderLaws f) (read_file : Text → Result Text f.Reader)
    (schema_of : f.Reader → lib.Schema) : Type 0 where
  pub read_file-finish :
      (w : lib.Writer)
      → laws.format_of w ≡ file_format
      → (lib.finish w).0 ≡ ok tt
      → (r : f.Reader) × (read_file (lib.finish w).1 ≡ ok r)
        × (schema_of r ≡ laws.schema_of w)
        × (reads.blocks r ≡ map ok (laws.written w))

lt-get_elem? {ℓ} :
    {A : Type ℓ} (xs : List A) (i : ℕ) (a : A) → get_elem? xs i ≡ some a → i < length xs
lt-get_elem? [] i a h = cc
lt-get_elem? (x ∷ xs) zero a h = omega arith
lt-get_elem? (x ∷ xs) (suc i) a h = omega (arith, lt-get_elem? xs i a h)

-- A stream that was written to a file, without an error, is read from it as a stream of that schema, of
-- which calls in a row give the batches, each once and in order, and are done then. The batches
-- have the schema.
pub ipc_reader_from_file-ipc_writer_to_file :
    (lib : IpcFormats) (laws : WriterLaws lib) (disk : Disk) (kept : DiskLaws disk) (path : Text)
    (s : lib.Schema) (bs : List lib.Batch) (fs fs' : disk.Files)
    → AllOf lib laws s bs
    → ipc_writer_to_file lib disk path s bs fs ≡ (ok tt, fs')
    → (stream : IpcStream lib) × (ipc_reader_from_file lib disk fs' path ≡ ok stream)
      × Replays lib laws s bs stream
unfolding ipc_writer_to_file ipc_reader_from_file
ipc_reader_from_file-ipc_writer_to_file lib laws disk kept path s bs fs fs' fit done =
    let start = lib.start on_disk stream_format s in
    let h =
      write_file-Saved lib.write lib.finish disk start bs path fs fs'
        (answered-ok message _ fs' done) in
    let answer = writing lib laws on_disk stream_format s bs in
    let fin = writing-Wrote lib laws on_disk stream_format s bs fit h.wrote in
    let back = read_back lib laws on_disk s bs answer fin h.wrote in
    let (stream, opens, replays) = stream_of-Replays lib laws file s bs answer.1 back in
    let bytes = saved_bytes lib.write lib.finish disk kept start bs path fs fs' h in
    (stream, ap (λ r. map_err message r >>= stream_of lib file) bytes ∙ opens, replays)

-- A file that was written in the format for random access, without an error, is opened with that schema
-- and the number of the batches, and whatever was read of it before, the batch at an index is the one
-- that was written at that index. The batches have the schema.
pub ipc_file_get_batch-ipc_file_writer_to_file :
    (lib : IpcFormats) (laws : WriterLaws lib) (disk : Disk) (kept : DiskLaws disk)
    (f : FileReader lib.Batch) (reads : FileReaderLaws f) (read_file : Text → Result Text f.Reader)
    (schema_of : f.Reader → lib.Schema) (footer : FooterLaws laws reads read_file schema_of)
    (path : Text) (s : lib.Schema) (bs : List lib.Batch) (fs fs' : disk.Files) (is : List ℕ) (i : ℕ)
    (b : lib.Batch)
    → AllOf lib laws s bs
    → ipc_file_writer_to_file lib disk path s bs fs ≡ (ok tt, fs')
    → get_elem? bs i ≡ some b
    → (handle : IpcFile f) × (ipc_file_open lib f read_file schema_of disk fs' path ≡ ok handle)
      × (ipc_file_schema lib f read_file schema_of handle ≡ ok s)
      × (ipc_file_num_batches f handle ≡ length bs)
      × ((ipc_file_get_batch f (after f reads is handle) i).0 ≡ batch b)
unfolding ipc_file_writer_to_file ipc_file_open ipc_file_schema ipc_file_num_batches file_of
ipc_file_get_batch-ipc_file_writer_to_file lib laws disk kept f reads read_file schema_of footer
      path s bs fs fs' is i b fit done at =
    let start = lib.start on_disk file_format s in
    let h =
      write_file-Saved lib.write lib.finish disk start bs path fs fs'
        (answered-ok message _ fs' done) in
    let fin = writing-Wrote lib laws on_disk file_format s bs fit h.wrote in
    let finished = sym (ap (λ t. t.0) fin.is) ∙ h.wrote in
    let (r, opens, same, has) = footer.read_file-finish fin.writer fin.holds.formed finished in
    let handle : IpcFile f = record { backing = file; reader = r; poisoned = false } in
    let blocks = has ∙ ap (λ l. map ok l) fin.holds.has in
    let bytes =
      saved_bytes lib.write lib.finish disk kept start bs path fs fs' h ∙ ap (λ t. ok t.1) fin.is in
    let count : f.num_batches r ≡ length bs =
      reads.num_batches-blocks r ∙ ap length blocks ∙ length-map_ok lib laws bs in
    (
      handle,
      ap (λ x. map_err message x >>= file_of lib f read_file schema_of file) bytes
          ∙ ap
              (λ x.
                map_err message x
                >>= (λ y. ok (record { backing = file; reader = y; poisoned = false })))
              opens,
      ap ok (same ∙ fin.holds.given),
      count,
      ipc_file_get_batch-after f reads handle is i refl
            (subst (λ n. i < n) (sym count) (lt-get_elem? bs i b at))
          ∙ ap (λ l. reply_of f (get_elem? l i)) blocks
          ∙ ap (reply_of f) (get_elem?-map ok bs i b at),
    )
