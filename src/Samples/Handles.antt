-- ===== src/Samples/Handles.antt =====
-- Handles that are imported, and streams of a driver, at small inputs.
use ex_arrow.Prelude.{ℕ, ◌≡◌, refl, sym, true, false, String, List, [], ◌∷◌, replicate, ok}
use ex_arrow.Beam.{Text, list, codes}
use ex_arrow.Cdi.{
  Ffi, already_consumed, import, mark_consumed, dropped, Handle, boxed, imported, refused, done,
  cdi_export, swap_schema,
}
use ex_arrow.Cdi.Handed.{FfiLaws, calls, spent, calls-cdi_export}
use ex_arrow.Interleaving.{step, Reach, here, next}
use ex_arrow.Cdi.Shared.{ready, has_schema, advance, Calls, about, IsConserved, Reach-about}
use ex_arrow.Cdi.Raced.{BothRefused, Reach-BothRefused}
use ex_arrow.Adbc.{AdbcLib, decode_driver_spec}
use ex_arrow.Adbc.Handles.{AdbcStatement, AdbcResultStream, adbc_statement_execute, collected}
use ex_arrow.Adbc.Options.{opt_terms, Chooses, decode_driver_spec-opt_terms}
use ex_arrow.Adbc.Stream as Stream
use ex_arrow.Adbc.Stream.Shared.{IsShared, adbc_stream_next-IsShared}
use ex_arrow.Samples.Decoders.{ascii, ascii_laws}

-- A batch is a number and the metadata of its schema, which a struct array does not have.
abbrev ffi_numbers : Ffi
ffi_numbers = record {
  Batch = ℕ × ℕ;
  StructArray = ℕ;
  Structs = ℕ;
  into_struct = λ b. b.0;
  of_struct = λ a. (a, 0);
  to_ffi = λ b. ok b;
  from_ffi = λ s. ok s;
  schema_addr = λ s. 16;
  array_addr = λ s. 32;
}

abbrev ffi_numbers_laws : FfiLaws ffi_numbers
ffi_numbers_laws = record {
  Columns = ℕ;
  columns = λ b. b.0;
  children = λ a. a;
  children-into_struct = λ b. refl;
  columns-of_struct = λ a. refl;
  from_ffi-to_ffi = λ array structs h. (structs, refl, cc (sym h));
}

abbrev five : Handle ffi_numbers
five = record {
  structs = 5;
  schema_ptr = true;
  array_ptr = true;
  schema_frees = 0;
  array_frees = 0;
}

five-exported : cdi_export ffi_numbers (5, 7) ≡ ok five
unfolding cdi_export boxed
five-exported = refl

calls-cdi_export_example :
    (back : ℕ × ℕ) × (back.0 ≡ 5)
    × (calls ffi_numbers (import ∷ import ∷ mark_consumed ∷ dropped ∷ []) five
        ≡ (imported back ∷ refused already_consumed ∷ done ∷ done ∷ [], spent ffi_numbers five))
calls-cdi_export_example =
    calls-cdi_export ffi_numbers ffi_numbers_laws (5, 7) five import
      (import ∷ mark_consumed ∷ dropped ∷ []) five-exported

-- An import has swapped the pointer to the schema when the handle is dropped.
abbrev half_taken : Calls ffi_numbers
half_taken = record {
  shared = record {
    structs = 5;
    schema_ptr = false;
    array_ptr = true;
    schema_frees = 0;
    array_frees = 0;
  };
  threads = has_schema import true ∷ has_schema dropped false ∷ [];
}

half_taken-reached :
    Reach (advance ffi_numbers) (about ffi_numbers five (import ∷ dropped ∷ [])) half_taken
unfolding advance swap_schema
half_taken-reached =
    next (next here (step [] (ready import) (ready dropped ∷ []) refl refl))
      (step (has_schema import true ∷ []) (ready dropped) [] refl refl)

Reach-about_example : IsConserved ffi_numbers half_taken
Reach-about_example =
    Reach-about ffi_numbers (5, 7) five (import ∷ dropped ∷ []) half_taken five-exported
      half_taken-reached

Reach-BothRefused_example :
    (s : Calls ffi_numbers) × Reach
      (advance ffi_numbers)
      (about ffi_numbers five (import ∷ import ∷ []))
      s
    × BothRefused ffi_numbers s
Reach-BothRefused_example = Reach-BothRefused ffi_numbers (5, 7) five five-exported

abbrev opts : List (String × Text)
opts = ("driver_name", codes "duck") ∷ ("uri", codes "a") ∷ ("uri", codes "b") ∷ []

decode_driver_spec-opt_terms_example :
    Chooses opts (decode_driver_spec ascii (list (opt_terms opts)))
decode_driver_spec-opt_terms_example =
    decode_driver_spec-opt_terms ascii ascii_laws opts (refl, (refl, (refl, tt)))

-- A driver whose every statement gives two batches.
abbrev two_batches : AdbcLib
two_batches = record {
  Driver = Unit {0};
  Database = Unit {0};
  Connection = Unit {0};
  Statement = Unit {0};
  Schema = Unit {0};
  Batch = ℕ;
  load_dynamic_from_filename = λ path entrypoint. ok tt;
  load_dynamic_from_name = λ name. ok tt;
  new_database = λ d. ok tt;
  new_database_with_opts = λ d os. ok tt;
  new_connection = λ db. ok tt;
  new_statement = λ c. (ok tt, c);
  set_sql_query = λ s q. (ok tt, s);
  bind = λ s b. (ok tt, s);
  execute = λ s. (ok (tt, ok 4 ∷ ok 5 ∷ []), s);
  get_table_types = λ c. ok (tt, []);
  get_table_schema = λ c catalog db_schema table. ok tt;
  get_objects = λ c depth catalog db_schema table column. ok (tt, []);
}

abbrev select : AdbcStatement two_batches
select = record { statement = tt; poisoned = false }

abbrev selected : ℕ → AdbcResultStream two_batches
selected i = record {
  schema = tt;
  batches = 4 ∷ 5 ∷ [];
  index = i;
  batches_poisoned = false;
  index_poisoned = false;
}

select-executed : (adbc_statement_execute two_batches select).0 ≡ ok (selected 0)
unfolding adbc_statement_execute collected
select-executed = refl

-- Both calls have counted the batches, and the second has taken the first index.
abbrev overtaken : Stream.Calls two_batches
overtaken = record { shared = selected 1; threads = Stream.counted 2 ∷ Stream.indexed 0 ∷ [] }

overtaken-reached :
    Reach
      (Stream.advance two_batches)
      (record { shared = selected 0; threads = replicate 2 Stream.ready })
      overtaken
unfolding Stream.advance Stream.count Stream.take_index
overtaken-reached =
    next
      (next (next here (step [] Stream.ready (Stream.ready ∷ []) refl refl))
        (step (Stream.counted 2 ∷ []) Stream.ready [] refl refl))
      (step (Stream.counted 2 ∷ []) (Stream.counted 2) [] refl refl)

adbc_stream_next-IsShared_example : IsShared two_batches (4 ∷ 5 ∷ []) overtaken
adbc_stream_next-IsShared_example =
    adbc_stream_next-IsShared two_batches select (selected 0) 2 overtaken select-executed
      overtaken-reached
