-- ===== src/Samples/Streams.antt =====
-- A disk, and streams and files of numbers, at small inputs.
use ex_arrow.Prelude.{
  ◌↔◌, ℕ, ◌≡◌, refl, sym, ◌∙◌, ap, Bool, true, some, List, [], ◌∷◌, ◌++◌, map, if◌then◌else◌,
  Result, ok, ok_or,
}
use ex_arrow.Beam.{Text, text_eq_refl}
use ex_arrow.HashMap.{get, insert, get-insert}
use ex_arrow.Sinks.{Disk, write_batches, binary_of, write_created, write_file}
use ex_arrow.Sinks.Kept.{DiskLaws}
use ex_arrow.Ipc.Files.{IpcFile, Reply, ipc_file_num_batches, ipc_file_get_batch}
use ex_arrow.Ipc.Files.Random.{after}
use ex_arrow.Ipc.Streams.{
  IpcFormats, Format, Sink, IpcStream, ipc_writer_to_binary, ipc_reader_from_binary,
  ipc_writer_to_file, ipc_reader_from_file, ipc_file_writer_to_file, ipc_file_open, ipc_file_schema,
}
use ex_arrow.Ipc.Streams.Accepted.{Accepts, ipc_writer_to_binary-eq-ok}
use ex_arrow.Ipc.Streams.Written.{WriterLaws, Replays, ipc_reader_from_binary-ipc_writer_to_binary}
use ex_arrow.Ipc.Streams.Stored.{
  FooterLaws, ipc_reader_from_file-ipc_writer_to_file, ipc_file_get_batch-ipc_file_writer_to_file,
}
use ex_arrow.Samples.Files.{Reading, list_reader, list_laws}

-- A batch is a number, and is written as it is.
abbrev plain : IpcFormats
plain = record {
  Schema = Unit {0};
  Batch = ℕ;
  Writer = Sink × Format × List ℕ;
  batch_schema = λ b. tt;
  num_rows = λ b. 1;
  concat_batches = λ s bs. ok 0;
  start = λ sink format s. (ok (sink, format, []), []);
  write = λ w b. (ok (w.0, w.1, w.2 ++ b ∷ []), w.2 ++ b ∷ []);
  finish = λ w. (ok tt, w.2);
  read_stream = λ bytes. ok (tt, map ok bytes);
}

abbrev Writing : Type 0
Writing = Sink × Format × List ℕ

-- What a call gives, if it is ok.
given : (a b : Writing) → ◌≡◌ {A = Result Text Writing} (ok a) (ok b) → a ≡ b
given a b h = cc h

abbrev plain_laws : WriterLaws plain
plain_laws = record {
  sink_of = λ w. w.0;
  format_of = λ w. w.1;
  schema_of = λ w. tt;
  written = λ w. w.2;
  start-eq-ok = λ sink format s w h.
      let e = sym (given (sink, format, []) w h) in
      (ap (λ t. t.0) e, ap (λ t. t.1) e, refl, ap (λ t. t.2) e);
  write-eq-ok = λ w w' b fits h.
      let e = sym (given (w.0, w.1, w.2 ++ b ∷ []) w' h) in
      (ap (λ t. t.0) e, ap (λ t. t.1) e, refl, ap (λ t. t.2) e);
  read_stream-finish = λ w formed wrote. refl;
}

abbrev all_granted : ℕ → Bool
all_granted n = true

numbers-written : ipc_writer_to_binary plain all_granted tt (4 ∷ 5 ∷ []) ≡ ok (4 ∷ 5 ∷ [])
unfolding ipc_writer_to_binary write_batches binary_of
numbers-written = refl

ipc_reader_from_binary-ipc_writer_to_binary_example :
    (all_granted 2 ≡ true)
    × (stream : IpcStream plain) × (ipc_reader_from_binary plain (4 ∷ 5 ∷ []) ≡ ok stream)
    × Replays plain plain_laws tt (4 ∷ 5 ∷ []) stream
ipc_reader_from_binary-ipc_writer_to_binary_example =
    ipc_reader_from_binary-ipc_writer_to_binary plain plain_laws all_granted tt (4 ∷ 5 ∷ [])
      (4 ∷ 5 ∷ []) (refl, (refl, tt)) numbers-written

ipc_writer_to_binary-eq-ok_example :
    (ipc_writer_to_binary plain all_granted tt (4 ∷ 5 ∷ []) ≡ ok (4 ∷ 5 ∷ []))
    ↔ Accepts plain all_granted tt (4 ∷ 5 ∷ []) (4 ∷ 5 ∷ [])
ipc_writer_to_binary-eq-ok_example =
    ipc_writer_to_binary-eq-ok plain all_granted tt (4 ∷ 5 ∷ []) (4 ∷ 5 ∷ [])

abbrev Stored : Type 0
Stored = List (Text × Text)

abbrev shelf : Disk
shelf = record {
  Files = Stored;
  open_file = λ fs path. ok_or (get path fs) [];
  create = λ fs path. ok (insert path [] fs);
  save = λ fs path bytes. insert path bytes fs;
}

abbrev shelf_laws : DiskLaws shelf
shelf_laws = record {
  open-save = λ fs created path bytes h.
      ap (λ o. ok_or o [])
        (get-insert path path bytes created
          ∙ ap (λ b. if b then some bytes else get path created) (text_eq_refl path));
}

abbrev a_path : Text
a_path = b'a' ∷ []

abbrev other_path : Text
other_path = b'z' ∷ []

abbrev before : Stored
before = (other_path, 1 ∷ []) ∷ []

abbrev saved : Stored
saved = (other_path, 1 ∷ []) ∷ (a_path, 4 ∷ 5 ∷ []) ∷ []

stream-saved : ipc_writer_to_file plain shelf a_path tt (4 ∷ 5 ∷ []) before ≡ (ok tt, saved)
unfolding ipc_writer_to_file write_file write_created write_batches insert
stream-saved = refl

ipc_reader_from_file-ipc_writer_to_file_example :
    (stream : IpcStream plain) × (ipc_reader_from_file plain shelf saved a_path ≡ ok stream)
    × Replays plain plain_laws tt (4 ∷ 5 ∷ []) stream
ipc_reader_from_file-ipc_writer_to_file_example =
    ipc_reader_from_file-ipc_writer_to_file plain plain_laws shelf shelf_laws a_path tt (4 ∷ 5 ∷ [])
      before saved (refl, (refl, tt)) stream-saved

file-saved : ipc_file_writer_to_file plain shelf a_path tt (4 ∷ 5 ∷ []) before ≡ (ok tt, saved)
unfolding ipc_file_writer_to_file write_file write_created write_batches insert
file-saved = refl

abbrev read_numbers : Text → Result Text Reading
read_numbers bytes = ok (map ok bytes, 0)

abbrev no_schema : Reading → Unit {0}
no_schema r = tt

abbrev footer_laws : FooterLaws plain_laws list_laws read_numbers no_schema
footer_laws = record { read_file-finish = λ w formed wrote. ((map ok w.2, 0), refl, refl, refl) }

ipc_file_get_batch-ipc_file_writer_to_file_example :
    (handle : IpcFile list_reader) × (ipc_file_open plain list_reader read_numbers no_schema shelf
        saved a_path
      ≡ ok handle)
    × (ipc_file_schema plain list_reader read_numbers no_schema handle ≡ ok tt)
    × (ipc_file_num_batches list_reader handle ≡ 2)
    × ((ipc_file_get_batch list_reader (after list_reader list_laws (0 ∷ 9 ∷ []) handle) 1).0
        ≡ Reply.batch 5)
ipc_file_get_batch-ipc_file_writer_to_file_example =
    ipc_file_get_batch-ipc_file_writer_to_file plain plain_laws shelf shelf_laws list_reader
      list_laws read_numbers no_schema footer_laws a_path tt (4 ∷ 5 ∷ []) before saved (0 ∷ 9 ∷ [])
      1 5 (refl, (refl, tt)) file-saved refl
