-- ===== src/Flight/Server/History.antt =====
-- What a server gives for a ticket, by what it was sent.
use text.Mathlib.Text.{◌==◌ as str_eq}
use text.Mathlib.TextEquality.{eq_iff}
use ex_arrow.Prelude.{
  ◌≡◌, refl, ◌∙◌, ap, inl, inr, false, Bool-cases, if_intro, if_else, String, Option, none, some,
  List, [], ◌∷◌, map, if◌then◌else◌, Result, ok, err, map_err,
}
use ex_arrow.Beam.{Text, text_eq}
use ex_arrow.HashMap
use ex_arrow.HashMap.{insert, get-insert}
use ex_arrow.Flight.{FlightDescriptor}
use ex_arrow.Flight.Server.Requests.{Request, put, get, action, after}
use ex_arrow.Flight.Server.{
  FlightData, FlightLib, Status, unknown_ticket, internal, Dataset, Datasets, EchoState, Messages,
  initial, put_key, receive, dataset_of, store, stored_or_refused, do_put, clear, do_action, do_get,
}

module _ (fl : FlightLib) where
  -- An upload that is received is kept for its ticket.
  abbrev pub kept :
      Text → Result Status (Text × Dataset fl) → Option (Dataset fl) → Option (Dataset fl)
  kept k (err e) before = before
  kept k (ok (j, set)) before = if text_eq j k then some set else before

  -- The last upload for a ticket since the server was last cleared, in a history with its end first.
  abbrev pub latest : Text → List (Request fl) → Option (Dataset fl)
  latest k [] = none
  latest k (put messages ∷ older) = kept k (receive fl messages) (latest k older)
  latest k (action kind ∷ older) = if str_eq kind "clear" then none else latest k older
  latest k (get t ∷ older) = latest k older
  latest k (_ ∷ older) = latest k older

  -- The answer to a request for a ticket with this dataset.
  abbrev pub answer :
      Text → Option (Dataset fl) → Result Status (List (Result Status (FlightData fl.Payload)))
  answer k none = err (unknown_ticket k)
  answer k (some set) = ok (map (map_err internal) (fl.encode none set.schema set.batches))

  module _ (iter : Datasets fl → Datasets fl) where
    abbrev Sound : {A : Type 0} → A × EchoState fl → Type 0
    Sound t = t.1.poisoned ≡ false

    -- What stands for a ticket after an answer.
    abbrev Gives : {A : Type 0} → Text → Option (Dataset fl) → A × EchoState fl → Type 0
    Gives k found t = HashMap.get k t.1.datasets ≡ found

    stored-poisoned :
        (st : EchoState fl) (received : Result Status (Text × Dataset fl))
        → st.poisoned ≡ false
        → (stored_or_refused fl st received).1.poisoned ≡ false
    unfolding stored_or_refused store
    stored-poisoned st (err e) h = h
    stored-poisoned st (ok (k, set)) h = if_intro Sound st.poisoned h h

    action-poisoned :
        (st : EchoState fl) (kind : String)
        → st.poisoned ≡ false
        → (do_action fl iter st kind).1.poisoned ≡ false
    unfolding do_action clear
    action-poisoned st kind h = if_intro Sound (str_eq kind "ping") h (
        if_intro Sound (str_eq kind "clear") (if_intro Sound st.poisoned h h)
          (if_intro Sound (str_eq kind "list_tickets") h h))

    -- No handler panics under the lock.
    pub after-poisoned : (history : List (Request fl)) → (after fl iter history).poisoned ≡ false
    unfolding initial do_put
    after-poisoned [] = refl
    after-poisoned (put messages ∷ older) =
        stored-poisoned (after fl iter older) (receive fl messages) (after-poisoned older)
    after-poisoned (action kind ∷ older) =
        action-poisoned (after fl iter older) kind (after-poisoned older)
    after-poisoned (get t ∷ older) = after-poisoned older
    after-poisoned (_ ∷ older) = after-poisoned older

    get-stored :
        (k : Text) (st : EchoState fl) (received : Result Status (Text × Dataset fl))
        → st.poisoned ≡ false
        → HashMap.get k (stored_or_refused fl st received).1.datasets
          ≡ kept k received (HashMap.get k st.datasets)
    unfolding stored_or_refused store
    get-stored k st (err e) h = refl
    get-stored k st (ok (j, set)) h =
        if_else (Gives k (if text_eq j k then some set else HashMap.get k st.datasets)) st.poisoned
          _ _ h (get-insert j k set st.datasets)

    get-clear : (k : Text) (st : EchoState fl) → st.poisoned ≡ false → Gives k none (clear fl st)
    unfolding clear
    get-clear k st h = if_else (Gives k none) st.poisoned _ _ h refl

    get-action :
        (k : Text) (st : EchoState fl) (kind : String)
        → st.poisoned ≡ false
        → HashMap.get k (do_action fl iter st kind).1.datasets
          ≡ (if str_eq kind "clear" then none else HashMap.get k st.datasets)
    unfolding do_action clear
    get-action k st kind h = elim (Bool-cases (str_eq kind "ping")) [
      | inl e ↦ rw ((eq_iff kind "ping").0 e) refl
      | inr e ↦ rw e (elim (Bool-cases (str_eq kind "clear")) [
        | inl f ↦ rw f (get-clear k st h)
        | inr f ↦
            rw f (
              if_intro (Gives k (HashMap.get k st.datasets)) (str_eq kind "list_tickets") refl refl)
      ])
    ]

    pub get-after :
        (k : Text) (history : List (Request fl))
        → HashMap.get k (after fl iter history).datasets ≡ latest k history
    unfolding initial do_put
    get-after k [] = refl
    get-after k (put messages ∷ older) =
        get-stored k (after fl iter older) (receive fl messages) (after-poisoned older)
        ∙ ap (kept k (receive fl messages)) (get-after k older)
    get-after k (action kind ∷ older) =
        get-action k (after fl iter older) kind (after-poisoned older)
        ∙ ap (λ o. if str_eq kind "clear" then none else o) (get-after k older)
    get-after k (get t ∷ older) = get-after k older
    get-after k (_ ∷ older) = get-after k older

    pub looked_up :
        (st : EchoState fl) (t : Text) (found : Option (Dataset fl))
        → st.poisoned ≡ false
        → HashMap.get (fl.lossy t) st.datasets ≡ found
        → do_get fl st t ≡ answer (fl.lossy t) found
    unfolding do_get
    looked_up st t none sound h = rw (sound, h)
    looked_up st t (some set) sound h = rw (sound, h)

    receive-decoded :
        (d : Option FlightDescriptor) (first : FlightData fl.Payload) (rest : Messages fl)
        (b : fl.Batch) (bs : List fl.Batch)
        → first.flight_descriptor ≡ d
        → fl.decode (ok first ∷ rest) ≡ ok (b ∷ bs)
        → receive fl (ok first ∷ rest)
          ≡ ok (put_key fl d, record { schema = fl.batch_schema b; batches = b ∷ bs })
    unfolding receive dataset_of
    receive-decoded d first rest b bs carries decoded = rw (decoded, carries)

    -- The state with these batches as the dataset of the ticket of an upload.
    abbrev pub kept_state :
        EchoState fl → Option FlightDescriptor → fl.Batch → List fl.Batch → EchoState fl
    kept_state st d b bs = record st {
      datasets =
          insert (put_key fl d) (record { schema = fl.batch_schema b; batches = b ∷ bs })
            st.datasets;
    }

    abbrev Becomes : EchoState fl → Result Status (Unit {0}) × EchoState fl → Type 0
    Becomes after_it t = t ≡ (ok tt, after_it)

    -- An upload that is decoded to some batch is kept.
    pub do_put-kept :
        (st : EchoState fl) (d : Option FlightDescriptor) (first : FlightData fl.Payload)
        (rest : Messages fl) (b : fl.Batch) (bs : List fl.Batch)
        → st.poisoned ≡ false
        → first.flight_descriptor ≡ d
        → fl.decode (ok first ∷ rest) ≡ ok (b ∷ bs)
        → do_put fl st (ok first ∷ rest) ≡ (ok tt, kept_state st d b bs)
    unfolding do_put stored_or_refused store
    do_put-kept st d first rest b bs sound carries decoded =
        ap (stored_or_refused fl st) (receive-decoded d first rest b bs carries decoded)
        ∙ if_else (Becomes (kept_state st d b bs)) st.poisoned _ _ sound refl

-- A server answers a request for a ticket with the last upload that it received under that ticket since
-- it was last cleared, and with the error that the ticket is unknown if there is none, whatever other
-- requests it was sent before, in between and since.
pub do_get-after :
    (fl : FlightLib) (iter : Datasets fl → Datasets fl) (history : List (Request fl))
    (ticket : Text)
    → do_get fl (after fl iter history) ticket
      ≡ answer fl (fl.lossy ticket) (latest fl (fl.lossy ticket) history)
do_get-after fl iter history ticket =
    looked_up fl iter (after fl iter history) ticket (latest fl (fl.lossy ticket) history)
      (after-poisoned fl iter history) (get-after fl iter (fl.lossy ticket) history)
