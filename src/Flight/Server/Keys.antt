-- ===== src/Flight/Server/Keys.antt =====
-- What holds of the datasets of a server whatever is asked of it.
use text.Mathlib.Text.{◌==◌ as str_eq}
use ex_arrow.Prelude.{
  ◌≡◌, refl, subst, inl, inr, Bool, true, false, Bool-cases, if_intro, String, Option, none, some,
  Option-cases, List, [], ◌∷◌, ◌++◌, eqb_ℤ, Result, ok, err, map_err, Yields, Yields-ok, Yields-err,
  Yields-bind, arith,
}
use ex_arrow.Beam.{Text}
use ex_arrow.HashMap.{IsKeyed, insert-IsKeyed, Entries, insert-Entries}
use ex_arrow.Flight.{FlightDescriptor, descriptor_cmd}
use ex_arrow.Flight.Descriptor.{join_path, descriptor_to_key}
use ex_arrow.Flight.Server.Requests.{
  Request, put, get, action, AllStrings, HasStrings, IsTypedPut, IsTyped, AllTyped, served, after,
}
use ex_arrow.Flight.Server.{
  FlightLib, Status, Dataset, Datasets, EchoState, Messages, initial, put_key, receive, dataset_of,
  store, stored_or_refused, do_put, clear, do_action, echo_ticket,
}

-- What is documented of UTF-8: the lossy reading of a string is the string, and joining keeps it.
pub record Utf8Laws (fl : FlightLib) : Type 0 where
  pub lossy-utf8 : (t : Text) → fl.is_utf8 t ≡ true → fl.lossy t ≡ t
  pub is_utf8-lossy : (t : Text) → fl.is_utf8 (fl.lossy t) ≡ true
  pub is_utf8-nil : fl.is_utf8 [] ≡ true
  pub is_utf8-append :
      (s t : Text) → fl.is_utf8 s ≡ true → fl.is_utf8 t ≡ true → fl.is_utf8 (s ++ t) ≡ true
  pub is_utf8-slash : (t : Text) → fl.is_utf8 t ≡ true → fl.is_utf8 (b'/' ∷ t) ≡ true

module _ (fl : FlightLib) where
  open fl use {is_utf8, lossy}

  -- A dataset has a batch, and the schema of its first.
  abbrev pub IsWhole : Dataset fl → Type 0
  IsWhole set =
      (b : fl.Batch) × (bs : List fl.Batch) × (set.batches ≡ b ∷ bs)
      × (set.schema ≡ fl.batch_schema b)

  pub record IsServable (st : EchoState fl) : Type 0 where
    pub keyed : IsKeyed st.datasets
    pub strings : Entries (λ k set. is_utf8 k ≡ true) st.datasets
    pub whole : Entries (λ k set. IsWhole set) st.datasets

  module _ (laws : Utf8Laws fl) where
    open laws use {is_utf8-lossy, is_utf8-nil, is_utf8-append, is_utf8-slash}

    is_utf8-join_path : (ss : List Text) → AllStrings fl ss → is_utf8 (join_path ss) ≡ true
    is_utf8-join_path [] h = is_utf8-nil
    is_utf8-join_path (s ∷ []) h = h.0
    is_utf8-join_path (s ∷ t ∷ ss) h =
        is_utf8-append s (b'/' ∷ join_path (t ∷ ss)) h.0
          (is_utf8-slash (join_path (t ∷ ss)) (is_utf8-join_path (t ∷ ss) h.1))

    is_utf8-descriptor_to_key :
        (d : FlightDescriptor) (key : Text)
        → AllStrings fl d.path
        → descriptor_to_key lossy d ≡ some key
        → is_utf8 key ≡ true
    unfolding descriptor_to_key
    is_utf8-descriptor_to_key d key h e = elim (Bool-cases (eqb_ℤ d.kind descriptor_cmd)) [
      | inl cmd ↦
          let whole : lossy d.cmd ≡ key = ground arith in
          subst (λ t. is_utf8 t ≡ true) whole (is_utf8-lossy d.cmd)
      | inr other ↦
          let whole : join_path d.path ≡ key = ground arith in
          subst (λ t. is_utf8 t ≡ true) whole (is_utf8-join_path d.path h)
    ]

    is_utf8-put_key :
        (d : Option FlightDescriptor) → HasStrings fl d → is_utf8 (put_key fl d) ≡ true
    is_utf8-put_key none h = is_utf8-lossy echo_ticket
    is_utf8-put_key (some d) h = elim (Option-cases (descriptor_to_key lossy d)) [
      | inl e ↦ rw e (is_utf8-lossy echo_ticket)
      | inr (key, e) ↦ rw e (is_utf8-descriptor_to_key d key h e)
    ]

    dataset_of-Yields : (batches : List fl.Batch) → Yields IsWhole (dataset_of fl batches)
    unfolding dataset_of
    dataset_of-Yields [] = Yields-err Status.no_batches
    dataset_of-Yields (b ∷ bs) =
        Yields-ok (record { schema = fl.batch_schema b; batches = b ∷ bs }) (b, bs, refl, refl)

    receive-Yields :
        (messages : Messages fl)
        → IsTypedPut fl messages
        → Yields (λ sent. (is_utf8 sent.0 ≡ true) × IsWhole sent.1) (receive fl messages)
    unfolding receive
    receive-Yields [] h = Yields-err Status.empty_stream
    receive-Yields (err e ∷ rest) h = Yields-err (Status.internal e)
    receive-Yields (ok first ∷ rest) h =
        Yields-bind (map_err Status.internal (fl.decode (ok first ∷ rest))) (λ batches decoded.
          Yields-bind (dataset_of fl batches) (λ set made.
            Yields-ok (put_key fl first.flight_descriptor, set)
              (is_utf8-put_key first.flight_descriptor h, (dataset_of-Yields batches).at set made)))

    -- An answer with a state after it that is servable.
    abbrev Stays : {A : Type 0} → A × EchoState fl → Type 0
    Stays t = IsServable t.1

    store-IsServable :
        (st : EchoState fl) (key : Text) (set : Dataset fl)
        → is_utf8 key ≡ true
        → IsWhole set
        → IsServable st
        → IsServable (store fl st (key, set)).1
    unfolding store
    store-IsServable st key set text whole h = if_intro Stays st.poisoned h (record {
      keyed = insert-IsKeyed key set st.datasets h.keyed;
      strings = insert-Entries (λ k s. is_utf8 k ≡ true) key set st.datasets text h.strings;
      whole = insert-Entries (λ k s. IsWhole s) key set st.datasets whole h.whole;
    })

    stored-IsServable :
        (st : EchoState fl) (received : Result Status (Text × Dataset fl))
        → Yields (λ sent. (is_utf8 sent.0 ≡ true) × IsWhole sent.1) received
        → IsServable st
        → IsServable (stored_or_refused fl st received).1
    unfolding stored_or_refused
    stored-IsServable st (err e) y h = h
    stored-IsServable st (ok (key, set)) y h =
        let (text, whole) = y.at (key, set) refl in store-IsServable st key set text whole h

    empty-IsServable :
        (poisoned : Bool) → IsServable (record { datasets = []; poisoned = poisoned })
    empty-IsServable poisoned = record { keyed = tt; strings = tt; whole = tt }

    action-IsServable :
        (iter : Datasets fl → Datasets fl) (st : EchoState fl) (kind : String)
        → IsServable st
        → IsServable (do_action fl iter st kind).1
    unfolding do_action clear
    action-IsServable iter st kind h = if_intro Stays (str_eq kind "ping") h (
        if_intro Stays (str_eq kind "clear")
          (if_intro Stays st.poisoned h (empty-IsServable st.poisoned))
          (if_intro Stays (str_eq kind "list_tickets") h h))

    served-IsServable :
        (iter : Datasets fl → Datasets fl) (st : EchoState fl) (request : Request fl)
        → IsTyped fl request
        → IsServable st
        → IsServable (served fl iter st request)
    unfolding do_put
    served-IsServable iter st (put messages) typed h =
        stored-IsServable st (receive fl messages) (receive-Yields messages typed) h
    served-IsServable iter st (action kind) typed h = action-IsServable iter st kind h
    served-IsServable iter st (get t) typed h = h
    served-IsServable iter st _ typed h = h

-- Whatever requests are served, in whatever order, no ticket stands for two datasets, every ticket is a
-- string, and every dataset has a batch and the schema of its first batch.
pub after-IsServable :
    (fl : FlightLib) (laws : Utf8Laws fl) (iter : Datasets fl → Datasets fl)
    (history : List (Request fl))
    → AllTyped fl iter history
    → IsServable fl (after fl iter history)
unfolding initial
after-IsServable fl laws iter [] typed = empty-IsServable fl laws false
after-IsServable fl laws iter (request ∷ older) typed =
    served-IsServable fl laws iter (after fl iter older) request typed.0
      (after-IsServable fl laws iter older typed.1)
