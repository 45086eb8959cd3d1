-- ===== src/Flight/Server/Listed.antt =====
-- The flights that a server lists are those that it has.
use ex_arrow.Prelude.{
  of_get_elem?-map, get_elem?-map, ℕ, ◌≡◌, sym, ◌∙◌, ap, subst, true, false, some, List, [], ◌∷◌,
  map, get_elem?, Result, ok, >>=-eq-ok,
}
use ex_arrow.Beam.{Text}
use ex_arrow.HashMap
use ex_arrow.HashMap.{IsKeyed, get_of_elem, elem_of_get, Entries, Entries_at}
use ex_arrow.Flight.{FlightInfo}
use ex_arrow.Flight.Descriptor.{cmd_descriptor, descriptor_to_key}
use ex_arrow.Flight.Server.Requests.{Request, AllTyped, after}
use ex_arrow.Flight.Server.Keys.{Utf8Laws, IsServable, after-IsServable}
use ex_arrow.Flight.Server.History.{latest, answer, after-poisoned, get-after, do_get-after}
use ex_arrow.Flight.Server.{
  FlightLib, Status, Dataset, Datasets, EchoState, flight_info, listed, list_flights,
  get_flight_info, schema_ipc_bytes, do_get, wrap_i64, count_rows,
}

-- An iteration over a map goes through its entries, and through all of them.
pub record Iterates {fl : FlightLib} (iter : Datasets fl → Datasets fl) : Type 0 where
  pub visits :
      (m : Datasets fl) (i : ℕ) (k : Text) (set : Dataset fl)
      → get_elem? (iter m) i ≡ some (k, set)
      → (j : ℕ) × (get_elem? m j ≡ some (k, set))
  pub reaches :
      (m : Datasets fl) (j : ℕ) (k : Text) (set : Dataset fl)
      → get_elem? m j ≡ some (k, set)
      → (i : ℕ) × (get_elem? (iter m) i ≡ some (k, set))

module _ (fl : FlightLib) (laws : Utf8Laws fl) where
  -- Asking for the flight of a ticket that stands for a dataset.
  asked :
      (st : EchoState fl) (k : Text) (set : Dataset fl)
      → st.poisoned ≡ false
      → fl.is_utf8 k ≡ true
      → HashMap.get k st.datasets ≡ some set
      → get_flight_info fl st (cmd_descriptor k) ≡ listed fl (k, set)
  unfolding get_flight_info descriptor_to_key listed
  asked st k set sound text found = rw (laws.lossy-utf8 k text, sound, found)

  -- What a flight that is listed says of a ticket.
  pub record Describes (st : EchoState fl) (history : List (Request fl)) (info : FlightInfo)
      : Type 0 where
    pub ticket : Text
    pub set : Dataset fl
    pub stored : latest fl ticket history ≡ some set
    pub fetched : do_get fl st ticket ≡ answer fl ticket (some set)
    pub same : get_flight_info fl st (cmd_descriptor ticket) ≡ ok info
    pub endpoint : info.endpoint ≡ record { ticket = some ticket; location = [] } ∷ []
    pub records : info.total_records ≡ wrap_i64 (count_rows fl set.batches)

  flight_info-eq-ok :
      (k : Text) (set : Dataset fl) (info : FlightInfo)
      → listed fl (k, set) ≡ ok info
      → (info.endpoint ≡ record { ticket = some k; location = [] } ∷ [])
        × (info.total_records ≡ wrap_i64 (count_rows fl set.batches))
  unfolding listed flight_info
  flight_info-eq-ok k set info h =
      let (bytes, encoded, built) = >>=-eq-ok (schema_ipc_bytes fl set.schema) _ h in
      (cc built, cc built)

  entry-Describes :
      (iter : Datasets fl → Datasets fl) (history : List (Request fl)) (j : ℕ) (k : Text)
      (set : Dataset fl) (info : FlightInfo)
      → IsServable fl (after fl iter history)
      → get_elem? (after fl iter history).datasets j ≡ some (k, set)
      → listed fl (k, set) ≡ ok info
      → Describes (after fl iter history) history info
  entry-Describes iter history j k set info h at made =
      let st = after fl iter history in
      let text = Entries_at (λ t s. fl.is_utf8 t ≡ true) st.datasets j k set h.strings at in
      let found = get_of_elem st.datasets j k set h.keyed at in
      let stored : latest fl k history ≡ some set = sym (get-after fl iter k history) ∙ found in
      let (endpoint, records) = flight_info-eq-ok k set info made in
      record {
        ticket = k;
        set = set;
        stored = stored;
        fetched =
            subst (λ t. do_get fl st k ≡ answer fl t (latest fl t history)) (laws.lossy-utf8 k text)
              (do_get-after fl iter history k)
            ∙ ap (answer fl k) stored;
        same = asked st k set (after-poisoned fl iter history) text found ∙ made;
        endpoint = endpoint;
        records = records;
      }

  lists_all :
      (iter : Datasets fl → Datasets fl) (st : EchoState fl)
      → st.poisoned ≡ false
      → list_flights fl iter st ≡ ok (map (listed fl) (iter st.datasets))
  unfolding list_flights
  lists_all iter st sound = rw sound

  -- The flights that are listed, where the list is known.
  all_of :
      (iter : Datasets fl → Datasets fl) (history : List (Request fl))
      (infos : List (Result Status FlightInfo))
      → list_flights fl iter (after fl iter history) ≡ ok infos
      → map (listed fl) (iter (after fl iter history).datasets) ≡ infos
  all_of iter history infos lists =
      cc (lists_all iter (after fl iter history) (after-poisoned fl iter history), lists)

-- Every flight that a server lists is that of a ticket with a dataset: its endpoint is the ticket, its
-- count of records is the number of rows of the dataset as an `i64`, fetching the ticket gives that
-- dataset, and asking for the flight of the ticket gives the same flight. This holds after any requests
-- whose descriptors have strings for segments, in whatever order the map is gone through.
pub list_flights-Describes :
    (fl : FlightLib) (laws : Utf8Laws fl) (iter : Datasets fl → Datasets fl) (goes : Iterates iter)
    (history : List (Request fl)) (infos : List (Result Status FlightInfo)) (i : ℕ)
    (info : FlightInfo)
    → AllTyped fl iter history
    → list_flights fl iter (after fl iter history) ≡ ok infos
    → get_elem? infos i ≡ some (ok info)
    → Describes fl laws (after fl iter history) history info
list_flights-Describes fl laws iter goes history infos i info typed lists at =
    let st = after fl iter history in
    let ((k, set), here, made) =
      of_get_elem?-map (listed fl) (iter st.datasets) i (ok info)
        (ap (λ l. get_elem? l i) (all_of fl laws iter history infos lists) ∙ at) in
    let (j, stands) = goes.visits st.datasets i k set here in
    entry-Describes fl laws iter history j k set info (after-IsServable fl laws iter history typed)
      stands made

-- Every ticket with a dataset is listed, with the flight that is the answer to asking for it.
pub list_flights-reaches :
    (fl : FlightLib) (laws : Utf8Laws fl) (iter : Datasets fl → Datasets fl) (goes : Iterates iter)
    (history : List (Request fl)) (infos : List (Result Status FlightInfo)) (ticket : Text)
    (set : Dataset fl)
    → AllTyped fl iter history
    → list_flights fl iter (after fl iter history) ≡ ok infos
    → latest fl ticket history ≡ some set
    → (i : ℕ) × (get_elem? infos i
        ≡ some (get_flight_info fl (after fl iter history) (cmd_descriptor ticket)))
list_flights-reaches fl laws iter goes history infos ticket set typed lists stored =
    let st = after fl iter history in
    let found = get-after fl iter ticket history ∙ stored in
    let (j, stands) = elem_of_get st.datasets ticket set found in
    let (i, here) = goes.reaches st.datasets j ticket set stands in
    let h = after-IsServable fl laws iter history typed in
    let text = Entries_at (λ t s. fl.is_utf8 t ≡ true) st.datasets j ticket set h.strings stands in
    (
      i,
      ap (λ l. get_elem? l i) (sym (all_of fl laws iter history infos lists))
          ∙ get_elem?-map (listed fl) (iter st.datasets) i (ticket, set) here
          ∙ ap some (sym (asked fl laws st ticket set (after-poisoned fl iter history) text found)),
    )
