-- ===== src/Flight/Client/Echoed.antt =====
-- A client and a server together: what is uploaded and then fetched.
use ex_arrow.Prelude.{
  try_collect, ◌≡◌, ◌≢◌, refl, sym, ◌∙◌, ap, subst, true, false, if_else, Option, none, some, List,
  [], ◌∷◌, map, if◌then◌else◌, Result, ok, map_err,
}
use ex_arrow.Beam.{Text, Term, Rustler, text_eq_refl, text_eq}
use ex_arrow.HashMap
use ex_arrow.HashMap.{insert, get-insert}
use ex_arrow.Flight.{FlightDescriptor}
use ex_arrow.Flight.Server.{FlightData, FlightLib, Status, internal, Dataset, EchoState, put_key}
use ex_arrow.Flight.Server.History.{looked_up, kept_state, do_put-kept}
use ex_arrow.Flight.Server
use ex_arrow.Flight.Client.{
  FlightClient, IpcLib, Failure, FlightClientHandle, put_descriptor, put_batches, drained,
  flight_client_do_put, flight_client_do_get,
}
use ex_arrow.Flight.Client.Fetched.{IpcLaws, AllHave, forwarded, flight_client_do_get-forwarded}
use ex_arrow.Flight.Client.Link.{
  AllSmall, AllArrive, CodecLaws, Loopback, StandsFor, put_key-StandsFor,
}

try_collect-map_ok : {A : Type 0} (xs : List A) → try_collect {Err = Text} (map ok xs) ≡ ok xs
try_collect-map_ok [] = refl
try_collect-map_ok (x ∷ xs) = rw (try_collect-map_ok xs)

map-map_ok :
    (fl : FlightLib) (messages : List (FlightData fl.Payload))
    → map (map_err internal) (map ok messages) ≡ map ok messages
map-map_ok fl [] = refl
map-map_ok fl (m ∷ ms) = ap (λ l. ok m ∷ l) (map-map_ok fl ms)

module _ {fl : FlightLib} (codec : CodecLaws fl) (cl : FlightClient fl) (loop : Loopback cl) where
  open codec use {HasNoDictionary, rows, rows-nil, encode-first, decode-encode}
  open loop use {is_small, server, do_put-served, do_get-served}

  -- No use of the map's order is made here.
  abbrev as_is : Server.Datasets fl → Server.Datasets fl
  as_is m = m

  -- An upload that the server has kept.
  record Uploaded (c : cl.Conn) (d : Option FlightDescriptor) (s : fl.Schema) (bs : List fl.Batch)
      : Type 0 where
    b : fl.Batch
    more : List fl.Batch
    results : List (Result Text (Unit {0}))
    answered : (cl.do_put c (fl.encode d s bs)).0 ≡ ok results
    state : server (cl.do_put c (fl.encode d s bs)).1 ≡ kept_state fl as_is (server c) d b more
    uniform : AllHave fl s (map ok (b ∷ more))
    same_rows : rows (b ∷ more) ≡ rows bs
    decoded : fl.decode (fl.encode d s bs) ≡ ok (b ∷ more)

  upload_stored :
      (c : cl.Conn) (d : Option FlightDescriptor) (s : fl.Schema) (bs : List fl.Batch)
      (first : FlightData fl.Payload) (rest : List (FlightData fl.Payload)) (stored : List fl.Batch)
      → (server c).poisoned ≡ false
      → fl.encode d s bs ≡ map ok (first ∷ rest)
      → first.flight_descriptor ≡ d
      → fl.decode (fl.encode d s bs) ≡ ok stored
      → AllHave fl s (map ok stored)
      → rows stored ≡ rows bs
      → rows bs ≢ []
      → AllSmall is_small (first ∷ rest)
      → Uploaded c d s bs
  upload_stored c d s bs first rest [] sound coded carries decoded uniform same some_row small =
      absurd (some_row (sym same ∙ rows-nil))
  upload_stored c d s bs first rest (b ∷ more) sound coded carries decoded uniform same some_row
        small =
      let decoded' = subst (λ l. fl.decode l ≡ ok (b ∷ more)) coded decoded in
      let kept =
        do_put-kept fl as_is (server c) d first (map ok rest) b more sound carries decoded' in
      let (results, answered, state) =
        do_put-served c (first ∷ rest) (kept_state fl as_is (server c) d b more) small kept in
      record {
        b = b;
        more = more;
        results = results;
        answered = ap (λ l. (cl.do_put c l).0) coded ∙ answered;
        state = ap (λ l. server (cl.do_put c l).1) coded ∙ state;
        uniform = uniform;
        same_rows = same;
        decoded = decoded;
      }

  uploaded :
      (c : cl.Conn) (d : Option FlightDescriptor) (s : fl.Schema) (bs : List fl.Batch)
      → (server c).poisoned ≡ false
      → HasNoDictionary s
      → AllHave fl s (map ok bs)
      → rows bs ≢ []
      → AllArrive loop d s bs
      → Uploaded c d s bs
  uploaded c d s bs sound flat uniform some_row arrive =
      let (first, rest, coded, carries) = encode-first d s bs flat uniform in
      let (stored, decoded, same_schema, same) = decode-encode d s bs flat uniform in
      upload_stored c d s bs first rest stored sound coded carries decoded same_schema same some_row
        (arrive.up (first ∷ rest) coded)

  -- What the server sends for a ticket that stands for some batches.
  sent :
      (c : cl.Conn) (ticket : Text) (s : fl.Schema) (bs : List fl.Batch)
      → (server c).poisoned ≡ false
      → HashMap.get (fl.lossy ticket) (server c).datasets
        ≡ some (record { schema = s; batches = bs })
      → HasNoDictionary s
      → AllHave fl s (map ok bs)
      → ((messages : List (FlightData fl.Payload))
          → fl.encode none s bs ≡ map ok messages
          → AllSmall is_small messages)
      → (fetched : List fl.Batch) × ((cl.do_get c ticket).0 ≡ ok (map ok fetched))
        × AllHave fl s (map ok fetched)
        × (rows fetched ≡ rows bs)
  sent c ticket s bs sound found flat uniform small =
      let (first, rest, coded, bare) = encode-first none s bs flat uniform in
      let (fetched, decoded, same_schema, same) = decode-encode none s bs flat uniform in
      let answers =
        looked_up fl as_is (server c) ticket (some (record { schema = s; batches = bs })) sound
          found
        ∙ ap ok (ap (map (map_err internal)) coded ∙ map-map_ok fl (first ∷ rest)) in
      (
        fetched,
        do_get-served c ticket (first ∷ rest) fetched (small (first ∷ rest) coded) answers
            (subst (λ l. fl.decode l ≡ ok fetched) coded decoded),
        same_schema,
        same,
      )

  forwarded-fetched :
      (ipc : IpcLib fl) (ipc_laws : IpcLaws ipc) (fetched : List fl.Batch)
      → rows fetched ≢ []
      → forwarded cl ipc ipc_laws (try_collect (map ok fetched))
        ≡ ok (record { reader = map ok fetched })
  forwarded-fetched ipc ipc_laws [] some_row = absurd (some_row rows-nil)
  forwarded-fetched ipc ipc_laws (b ∷ bs) some_row =
      ap (forwarded cl ipc ipc_laws) (try_collect-map_ok (b ∷ bs))

  -- What is fetched after an upload.
  pub record Fetched (ipc : IpcLib fl) (handle : FlightClientHandle cl) (ticket : Text)
      (bs : List fl.Batch) : Type 0 where
    pub fetched : List fl.Batch
    pub gives :
        (flight_client_do_get cl ipc handle ticket).0 ≡ ok (record { reader = map ok fetched })
    pub same_rows : rows fetched ≡ rows bs

  fetch-Uploaded :
      (ipc : IpcLib fl) (ipc_laws : IpcLaws ipc) (handle : FlightClientHandle cl)
      (d : Option FlightDescriptor) (s : fl.Schema) (bs : List fl.Batch) (ticket : Text)
      → handle.poisoned ≡ false
      → (server handle.client).poisoned ≡ false
      → fl.lossy ticket ≡ put_key fl d
      → rows bs ≢ []
      → HasNoDictionary s
      → ipc_laws.IsWritable s
      → AllArrive loop d s bs
      → Uploaded handle.client d s bs
      → Fetched ipc
          (record handle { client = (cl.do_put handle.client (fl.encode d s bs)).1 })
          ticket
          bs
  fetch-Uploaded ipc ipc_laws handle d s bs ticket unlocked sound key some_row flat writable arrive
        up =
      let c' = (cl.do_put handle.client (fl.encode d s bs)).1 in
      let set : Dataset fl = record { schema = fl.batch_schema up.b; batches = up.b ∷ up.more } in
      let hit : text_eq (put_key fl d) (fl.lossy ticket) ≡ true =
        subst (λ t. text_eq (put_key fl d) t ≡ true) (sym key) (text_eq_refl (put_key fl d)) in
      let found : HashMap.get (fl.lossy ticket) (server c').datasets ≡ some set =
        ap (λ st. HashMap.get (fl.lossy ticket) st.datasets) up.state
        ∙ get-insert (put_key fl d) (fl.lossy ticket) set (server handle.client).datasets
        ∙ ap
            (λ b.
              if b then some set else HashMap.get (fl.lossy ticket) (server handle.client).datasets)
            hit in
      let stays : (server c').poisoned ≡ false = ap (λ st. st.poisoned) up.state ∙ sound in
      let own : AllHave fl (fl.batch_schema up.b) (map ok (up.b ∷ up.more)) =
        subst (λ t. AllHave fl t (map ok (up.b ∷ up.more))) (sym up.uniform.0) up.uniform in
      let (fetched, sends, uniform, same) =
        sent c' ticket (fl.batch_schema up.b) (up.b ∷ up.more) stays found
          (subst HasNoDictionary (sym up.uniform.0) flat) own
          (λ ms coded.
            arrive.down (up.b ∷ up.more) ms up.decoded
              (subst (λ t. fl.encode none t (up.b ∷ up.more) ≡ map ok ms) up.uniform.0 coded)) in
      let handle' = record handle { client = c' } in
      let same_rows = same ∙ up.same_rows in
      record {
        fetched = fetched;
        gives =
            flight_client_do_get-forwarded cl ipc ipc_laws handle' ticket (fl.batch_schema up.b)
              (map ok fetched) unlocked sends
              (subst ipc_laws.IsWritable (sym up.uniform.0) writable) uniform
            ∙ forwarded-fetched ipc ipc_laws fetched (λ e. some_row (sym same_rows ∙ e));
        same_rows = same_rows;
      }

  -- An upload through the NIF, and the fetch that follows it.
  abbrev Echoes :
      (ipc : IpcLib fl)
      → Text
      → List fl.Batch
      → Result Failure (Unit {0}) × FlightClientHandle cl
      → Type 0
  Echoes ipc ticket bs t = (t.0 ≡ ok tt) × Fetched ipc t.1 ticket bs

  put_batches-Echoes :
      {F : Type 0} (r : Rustler F) (ipc : IpcLib fl) (ipc_laws : IpcLaws ipc)
      (handle : FlightClientHandle cl) (s : fl.Schema) (bs : List fl.Batch)
      (d : Option FlightDescriptor) (ticket : Text)
      → handle.poisoned ≡ false
      → (server handle.client).poisoned ≡ false
      → HasNoDictionary s
      → ipc_laws.IsWritable s
      → AllHave fl s (map ok bs)
      → rows bs ≢ []
      → fl.lossy ticket ≡ put_key fl d
      → AllArrive loop d s bs
      → Echoes ipc ticket bs (put_batches cl r handle s bs (ok d))
  unfolding put_batches
  put_batches-Echoes r ipc ipc_laws handle s bs d ticket unlocked sound flat writable uniform
        some_row key arrive =
      let up = uploaded handle.client d s bs sound flat uniform some_row arrive in
      if_else (Echoes ipc ticket bs) handle.poisoned _ _ unlocked (
        ap (drained cl r) up.answered,
        fetch-Uploaded ipc ipc_laws handle d s bs ticket unlocked sound key some_row flat writable
            arrive up,
      )

-- Batches with some row that a client uploads to the server are accepted, and fetching a ticket that stands
-- for their descriptor (its command, its path with slashes, or "echo" without one) gives Elixir a stream of
-- batches with the same rows in the same order. The schema has no dictionary and is one that the client can write, the messages that are sent are
-- small enough for the transport, the client's and the server's locks are sound and nothing else is served
-- between the two calls; the encoder may cut batches into others.
pub flight_client_do_get-flight_client_do_put :
    {fl : FlightLib} (codec : CodecLaws fl) (cl : FlightClient fl) (loop : Loopback cl) {F : Type 0}
    (r : Rustler F) (ipc : IpcLib fl) (ipc_laws : IpcLaws ipc) (handle : FlightClientHandle cl)
    (schema : fl.Schema) (batches : List fl.Batch) (descriptor : Term F)
    (d : Option FlightDescriptor) (ticket : Text)
    → handle.poisoned ≡ false
    → (loop.server handle.client).poisoned ≡ false
    → codec.HasNoDictionary schema
    → ipc_laws.IsWritable schema
    → AllHave fl schema (map ok batches)
    → codec.rows batches ≢ []
    → put_descriptor cl r descriptor ≡ ok d
    → StandsFor fl.lossy ticket d
    → AllArrive loop d schema batches
    → ((flight_client_do_put cl r handle schema batches descriptor).0 ≡ ok tt)
      × Fetched codec cl loop ipc
          (flight_client_do_put cl r handle schema batches descriptor).1
          ticket
          batches
unfolding flight_client_do_put
flight_client_do_get-flight_client_do_put {fl} codec cl loop r ipc ipc_laws handle schema batches
      descriptor d ticket unlocked sound flat writable uniform some_row reads stands arrive =
    subst (λ x. Echoes codec cl loop ipc ticket batches (put_batches cl r handle schema batches x))
      (sym reads)
      (put_batches-Echoes codec cl loop r ipc ipc_laws handle schema batches d ticket unlocked sound
        flat writable uniform some_row (put_key-StandsFor fl ticket d stands) arrive)
