-- ===== src/Flight/Server/Requests.antt =====
-- The requests that a server is sent, and its state after them.
use ex_arrow.Prelude.{◌≡◌, true, String, Option, none, some, List, [], ◌∷◌, ok, err}
use ex_arrow.Beam.{Text}
use ex_arrow.Flight.{FlightDescriptor}
use ex_arrow.Flight.Server.{FlightLib, Datasets, EchoState, Messages, initial, do_put, do_action}

pub data Request (fl : FlightLib) : Type 0 where
  handshake flights actions exchange : Request fl
  info schema poll : FlightDescriptor → Request fl
  get : Text → Request fl
  put : Messages fl → Request fl
  action : String → Request fl

module _ (fl : FlightLib) where
  -- The segments of a path are strings.
  abbrev pub AllStrings : List Text → Type 0
  AllStrings [] = Unit
  AllStrings (s ∷ ss) = (fl.is_utf8 s ≡ true) × AllStrings ss

  abbrev pub HasStrings : Option FlightDescriptor → Type 0
  HasStrings none = Unit
  HasStrings (some d) = AllStrings d.path

  abbrev pub IsTypedPut : Messages fl → Type 0
  IsTypedPut [] = Unit
  IsTypedPut (err e ∷ rest) = Unit
  IsTypedPut (ok first ∷ rest) = HasStrings first.flight_descriptor

  -- The segments of the descriptor of an upload are strings, as the wire format says.
  abbrev pub IsTyped : Request fl → Type 0
  IsTyped (put messages) = IsTypedPut messages
  IsTyped (get t) = Unit
  IsTyped _ = Unit

  module _ (iter : Datasets fl → Datasets fl) where
    -- The state after a request. Those that read leave it as it is.
    abbrev pub served : EchoState fl → Request fl → EchoState fl
    served st (put messages) = (do_put fl st messages).1
    served st (action kind) = (do_action fl iter st kind).1
    served st (get t) = st
    served st _ = st

    -- The state of a server after requests, the last of them first.
    abbrev pub after : List (Request fl) → EchoState fl
    after [] = initial fl
    after (request ∷ older) = served (after older) request

    abbrev pub AllTyped : List (Request fl) → Type 0
    AllTyped [] = Unit
    AllTyped (request ∷ older) = IsTyped request × AllTyped older
