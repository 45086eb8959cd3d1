-- ===== src/Flight/Client/Link.antt =====
-- What is assumed of the encoder and of a connection to the server, and which tickets stand for a descriptor.
use ex_arrow.Prelude.{
  Bool, eqb_ℤ→≡, pos, ◌++◌, eqb_ℤ, Bool-cases, inl, inr, ◌≡◌, ◌≢◌, refl, sym, ◌∙◌, ap, true, Option,
  none, some, List, [], ◌∷◌, map, Result, ok,
}
use ex_arrow.Flight.Descriptor.{descriptor_to_key, join_path}
use ex_arrow.Beam.{codes, Text}
use ex_arrow.Flight.{FlightDescriptor}
use ex_arrow.Flight.Server.{FlightData, FlightLib, Status, internal, Dataset, EchoState, put_key}
use ex_arrow.Flight.Server
use ex_arrow.Flight.Client.{FlightClient}
use ex_arrow.Flight.Client.Fetched.{AllHave}

-- What is documented of the encoder and the decoder of batches of a schema without dictionaries, which the
-- encoder would send as the values that they stand for, in another schema. The encoder may cut a batch into
-- several, and may leave out one that has no rows: the rows are what is kept.
pub record CodecLaws (fl : FlightLib) : Type 1 where
  pub Row : Type 0
  pub rows : List fl.Batch → List Row
  pub rows-nil : rows [] ≡ []
  -- No field of the schema is a dictionary, at any depth.
  pub HasNoDictionary : fl.Schema → Type 0
  pub encode-first :
      (d : Option FlightDescriptor) (s : fl.Schema) (bs : List fl.Batch)
      → HasNoDictionary s
      → AllHave fl s (map ok bs)
      → (first : FlightData fl.Payload) × (rest : List (FlightData fl.Payload)) × (fl.encode d s bs
          ≡ map ok (first ∷ rest))
        × (first.flight_descriptor ≡ d)
  pub decode-encode :
      (d : Option FlightDescriptor) (s : fl.Schema) (bs : List fl.Batch)
      → HasNoDictionary s
      → AllHave fl s (map ok bs)
      → (bs' : List fl.Batch) × (fl.decode (fl.encode d s bs) ≡ ok bs')
        × AllHave fl s (map ok bs')
        × (rows bs' ≡ rows bs)

abbrev pub AllSmall : {Message : Type 0} → (Message → Bool) → List Message → Type 0
AllSmall is_small [] = Unit
AllSmall is_small (m ∷ ms) = (is_small m ≡ true) × AllSmall is_small ms

-- A connection to the server of this repository: messages that are no errors and no larger than the
-- transport takes (4 MB, where no other limit is set) arrive, the server's handler answers them, and the
-- batches of its answer are decoded.
pub record Loopback {fl : FlightLib} (cl : FlightClient fl) : Type 0 where
  pub server : cl.Conn → EchoState fl
  pub is_small : FlightData fl.Payload → Bool
  pub do_put-served :
      (c : cl.Conn) (messages : List (FlightData fl.Payload)) (st : EchoState fl)
      → AllSmall is_small messages
      → Server.do_put fl (server c) (map ok messages) ≡ (ok tt, st)
      → (results : List (Result Text (Unit {0}))) × ((cl.do_put c (map ok messages)).0 ≡ ok results)
        × (server (cl.do_put c (map ok messages)).1 ≡ st)
  pub do_get-served :
      (c : cl.Conn) (ticket : Text) (messages : List (FlightData fl.Payload)) (bs : List fl.Batch)
      → AllSmall is_small messages
      → Server.do_get fl (server c) ticket ≡ ok (map ok messages)
      → fl.decode (map ok messages) ≡ ok bs
      → (cl.do_get c ticket).0 ≡ ok (map ok bs)

-- What the messages of an upload, and of a fetch of what the server has decoded of them, are encoded as is
-- small enough to be sent.
pub record AllArrive {fl : FlightLib} {cl : FlightClient fl} (loop : Loopback cl)
    (d : Option FlightDescriptor) (s : fl.Schema) (bs : List fl.Batch) : Type 0 where
  pub up :
      (messages : List (FlightData fl.Payload))
      → fl.encode d s bs ≡ map ok messages
      → AllSmall loop.is_small messages
  pub down :
      (stored : List fl.Batch) (messages : List (FlightData fl.Payload))
      → fl.decode (fl.encode d s bs) ≡ ok stored
      → fl.encode none s stored ≡ map ok messages
      → AllSmall loop.is_small messages

-- The segments of a path with a slash between each two.
abbrev pub slashed : List Text → Text
slashed [] = []
slashed (s ∷ []) = s
slashed (s ∷ t ∷ ss) = s ++ (codes "/" ++ slashed (t ∷ ss))

-- The tickets that stand for a descriptor, as texts: the command of one of type 2, the path of one of type 1,
-- and "echo" for none and for one of another type.
pub data StandsFor (lossy : Text → Text) (ticket : Text) : Option FlightDescriptor → Type 0 where
  no_descriptor : lossy ticket ≡ lossy (codes "echo") → StandsFor lossy ticket none
  command :
      (d : FlightDescriptor)
      → d.kind ≡ pos 2
      → lossy ticket ≡ lossy d.cmd
      → StandsFor lossy ticket (some d)
  path :
      (d : FlightDescriptor)
      → d.kind ≡ pos 1
      → lossy ticket ≡ slashed d.path
      → StandsFor lossy ticket (some d)
  unknown_type :
      (d : FlightDescriptor)
      → d.kind ≢ pos 1
      → d.kind ≢ pos 2
      → lossy ticket ≡ lossy (codes "echo")
      → StandsFor lossy ticket (some d)

join_path-slashed : (ss : List Text) → join_path ss ≡ slashed ss
join_path-slashed [] = refl
join_path-slashed (s ∷ []) = refl
join_path-slashed (s ∷ t ∷ ss) = ap (λ l. s ++ b'/' ∷ l) (join_path-slashed (t ∷ ss))

-- What the server stores an upload under is what such a ticket is looked up by.
pub put_key-StandsFor :
    (fl : FlightLib) (ticket : Text) (d : Option FlightDescriptor)
    → StandsFor fl.lossy ticket d
    → fl.lossy ticket ≡ put_key fl d
unfolding descriptor_to_key
put_key-StandsFor fl ticket _ (no_descriptor h) = h
put_key-StandsFor fl ticket _ (command d is h) = rw is h
put_key-StandsFor fl ticket _ (path d is h) = rw is (h ∙ sym (join_path-slashed d.path))
put_key-StandsFor fl ticket _ (unknown_type d no_path no_cmd h) =
    elim (Bool-cases (eqb_ℤ d.kind (pos 2))) [
      | inl e ↦ absurd (no_cmd (eqb_ℤ→≡ d.kind (pos 2) e))
      | inr e ↦ elim (Bool-cases (eqb_ℤ d.kind (pos 1))) [
        | inl e' ↦ absurd (no_path (eqb_ℤ→≡ d.kind (pos 1) e'))
        | inr e' ↦ rw (e, e') h
      ]
    ]
