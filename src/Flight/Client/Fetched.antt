-- ===== src/Flight/Client/Fetched.antt =====
-- What a client makes of the batches that it fetches.
use mathlib.Core.List.{append-nil, append_assoc}
use ex_arrow.Prelude.{
  try_collect, ◌≡◌, refl, sym, ◌∙◌, ap, subst, false, if_else, List, [], ◌∷◌, ◌++◌, map, Result, ok,
  err, map_err,
}
use ex_arrow.Beam.{Text}
use ex_arrow.Flight.Server.{FlightLib}
use ex_arrow.Flight.Client.{
  FlightClient, IpcLib, IpcStream, Failure, empty_stream, message, FlightClientHandle, write_rest,
  rewrite, collected, got, flight_client_do_get,
}

-- Batches of a schema that the format has every type of are written to memory, if they have the schema of
-- the writer, and read back.
pub record IpcLaws {fl : FlightLib} (ipc : IpcLib fl) : Type 1 where
  pub IsWritable : fl.Schema → Type 0
  pub schema_of : ipc.Writer → fl.Schema
  pub written : ipc.Writer → List fl.Batch
  pub new_writer-ok :
      (s : fl.Schema)
      → IsWritable s
      → (w : ipc.Writer) × (ipc.new_writer s ≡ ok w) × (schema_of w ≡ s) × (written w ≡ [])
  pub write-ok :
      (w : ipc.Writer) (b : fl.Batch)
      → IsWritable (schema_of w)
      → fl.batch_schema b ≡ schema_of w
      → (w' : ipc.Writer) × (ipc.write w b ≡ ok w')
        × (schema_of w' ≡ schema_of w)
        × (written w' ≡ written w ++ b ∷ [])
  pub finish-ok :
      (w : ipc.Writer)
      → (buf : Text) × (ipc.finish w ≡ ok buf) × (ipc.new_reader buf ≡ ok (map ok (written w)))

module _ (fl : FlightLib) where
  -- The batches of a stream have this schema.
  abbrev pub AllHave : fl.Schema → List (Result Text fl.Batch) → Type 0
  AllHave s [] = Unit
  AllHave s (err e ∷ rest) = AllHave s rest
  AllHave s (ok b ∷ rest) = (fl.batch_schema b ≡ s) × AllHave s rest

module _ {fl : FlightLib} (cl : FlightClient fl) (ipc : IpcLib fl) (laws : IpcLaws ipc) where
  open laws use {IsWritable, schema_of, written, new_writer-ok, write-ok, finish-ok}

  -- What a stream that is collected is given to Elixir as.
  abbrev pub forwarded : Result Text (List fl.Batch) → Result Failure (IpcStream cl ipc)
  forwarded (err e) = err (message e)
  forwarded (ok []) = err empty_stream
  forwarded (ok (b ∷ bs)) = ok (record { reader = map ok (b ∷ bs) })

  -- Writing a stream ends with its first error, or with all of its batches written.
  data Written (w : ipc.Writer) (items : List (Result Text fl.Batch)) : Type 0 where
    stopped :
        (e : Text) → try_collect items ≡ err e → write_rest cl ipc w items ≡ err e → Written w items
    filled :
        (bs : List fl.Batch) (w' : ipc.Writer)
        → try_collect items ≡ ok bs
        → write_rest cl ipc w items ≡ ok w'
        → written w' ≡ written w ++ bs
        → Written w items

  write-Written :
      (w next : ipc.Writer) (b : fl.Batch) (items : List (Result Text fl.Batch))
      → ipc.write w b ≡ ok next
      → written next ≡ written w ++ b ∷ []
      → Written next items
      → Written w (ok b ∷ items)
  unfolding write_rest
  write-Written w next b items wrote grew (stopped e c r) = stopped e (rw c) (rw wrote r)
  write-Written w next b items wrote grew (filled bs w' c r total) =
      filled (b ∷ bs) w' (rw c) (rw wrote r)
        (total ∙ ap (λ l. l ++ bs) grew ∙ append_assoc (written w) (b ∷ []) bs)

  all-Written :
      (w : ipc.Writer) (items : List (Result Text fl.Batch))
      → IsWritable (schema_of w)
      → AllHave fl (schema_of w) items
      → Written w items
  unfolding write_rest
  all-Written w [] writable h = filled [] w refl refl (sym (append-nil (written w)))
  all-Written w (err e ∷ items) writable h = stopped e refl refl
  all-Written w (ok b ∷ items) writable h =
      let (next, wrote, same, grew) = write-ok w b writable h.0 in
      write-Written w next b items wrote grew (
        all-Written next items (subst IsWritable (sym same) writable)
          (subst (λ s. AllHave fl s items) (sym same) h.1))

  -- From the writer of the first batch on.
  rewrite-Written :
      (b : fl.Batch) (items : List (Result Text fl.Batch)) (w next : ipc.Writer)
      → ipc.new_writer (fl.batch_schema b) ≡ ok w
      → ipc.write w b ≡ ok next
      → written next ≡ b ∷ []
      → Written next items
      → map_err message (rewrite cl ipc b items) ≡ forwarded (try_collect (ok b ∷ items))
  unfolding rewrite
  rewrite-Written b items w next new wrote one (stopped e c r) = rw (new, wrote, r, c)
  rewrite-Written b items w next new wrote one (filled bs w' c r total) =
      let (buf, finished, reads) = finish-ok w' in
      let has : written w' ≡ b ∷ bs = total ∙ ap (λ l. l ++ bs) one in
      rw (new, wrote, r, finished, reads, has, c)

  collected-forwarded :
      (s : fl.Schema) (items : List (Result Text fl.Batch))
      → IsWritable s
      → AllHave fl s items
      → collected cl ipc items ≡ forwarded (try_collect items)
  unfolding collected
  collected-forwarded s [] writable h = refl
  collected-forwarded s (err e ∷ items) writable h = refl
  collected-forwarded s (ok b ∷ items) writable h =
      let own = subst IsWritable (sym h.0) writable in
      let (w, new, has, none_yet) = new_writer-ok (fl.batch_schema b) own in
      let (next, wrote, same, grew) = write-ok w b (subst IsWritable (sym has) own) (sym has) in
      let rest : AllHave fl (schema_of next) items =
        subst (λ t. AllHave fl t items) (sym (same ∙ has ∙ h.0)) h.1 in
      rewrite-Written b items w next new wrote (grew ∙ ap (λ l. l ++ b ∷ []) none_yet)
        (all-Written next items (subst IsWritable (sym (same ∙ has)) own) rest)

-- A client that fetches a ticket gives Elixir a stream of exactly the batches that the server sends, in
-- order, if there is one and none is an error: it gives the first error, whatever was written before it,
-- and an error of its own for no batch at all. The batches of the server's stream have one schema, which
-- can be written.
pub flight_client_do_get-forwarded :
    {fl : FlightLib} (cl : FlightClient fl) (ipc : IpcLib fl) (laws : IpcLaws ipc)
    (handle : FlightClientHandle cl) (ticket : Text) (schema : fl.Schema)
    (items : List (Result Text fl.Batch))
    → handle.poisoned ≡ false
    → (cl.do_get handle.client ticket).0 ≡ ok items
    → laws.IsWritable schema
    → AllHave fl schema items
    → (flight_client_do_get cl ipc handle ticket).0 ≡ forwarded cl ipc laws (try_collect items)
unfolding flight_client_do_get got
flight_client_do_get-forwarded cl ipc laws handle ticket schema items sound sent writable uniform =
    if_else
      (λ (t : Result Failure (IpcStream cl ipc) × FlightClientHandle cl).
        t.0 ≡ forwarded cl ipc laws (try_collect items))
      handle.poisoned _ _ sound
      (ap (got cl ipc) sent ∙ collected-forwarded cl ipc laws schema items writable uniform)
