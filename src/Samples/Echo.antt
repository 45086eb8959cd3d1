-- ===== src/Samples/Echo.antt =====
-- A library of batches that are one number each, a connection to a server in the same program, and a
-- machine on which a server is reached at the third attempt: values at which the documented laws hold.
use ex_arrow.Prelude.{
  Bool, when_some, ℕ, ◌≡◌, refl, ◌∙◌, ap, ap₂, true, leb, ltb, if◌then◌else◌, Option, none, some,
  List, [], ◌∷◌, ◌++◌, map, Result, ok, err, ◌>>=◌, map_err, arith,
}
use ex_arrow.Beam.{Text}
use ex_arrow.Flight.{FlightDescriptor}
use ex_arrow.Flight.Server
use ex_arrow.Flight.Server.{FlightData, FlightLib, Status, EchoState, Datasets}
use ex_arrow.Flight.Server.Keys.{Utf8Laws}
use ex_arrow.Flight.Server.Listed.{Iterates}
use ex_arrow.Flight.Client.{FlightClient, IpcLib}
use ex_arrow.Flight.Client.Fetched.{IpcLaws}
use ex_arrow.Flight.Client.Link.{AllSmall, CodecLaws, Loopback}
use ex_arrow.Flight.Host.{Machine}
use ex_arrow.Samples.Decoders.{is_ascii}

abbrev asciify : Text → Text
asciify [] = []
asciify (c ∷ s) = (if ltb c 128 then c else b'?') ∷ asciify s

abbrev pub Message : Type 0
Message = FlightData (Option ℕ)

abbrev batch_message : ℕ → Result Text Message
batch_message b = ok (record { flight_descriptor = none; payload = some b })

abbrev pub schema_message : Option FlightDescriptor → Result Text Message
schema_message d = ok (record { flight_descriptor = d; payload = none })

abbrev decode_batch : Option ℕ → Result Text (List ℕ) → Result Text (List ℕ)
decode_batch none rest = err []
decode_batch (some b) rest = do bs ← rest; ok (b ∷ bs)

abbrev decode_batches : List (Result Text Message) → Result Text (List ℕ)
decode_batches [] = ok []
decode_batches (err e ∷ rest) = err e
decode_batches (ok m ∷ rest) = decode_batch m.payload (decode_batches rest)

abbrev decode_messages : List (Result Text Message) → Result Text (List ℕ)
decode_messages [] = ok []
decode_messages (err e ∷ rest) = err e
decode_messages (ok m ∷ rest) = decode_batches rest

abbrev pub numbers : FlightLib
numbers = record {
  Schema = Unit {0};
  Batch = ℕ;
  Payload = Option ℕ;
  batch_schema = λ b. tt;
  num_rows = λ b. 1;
  schema_message = λ s. ok (7 ∷ []);
  lossy = asciify;
  is_utf8 = is_ascii;
  encode = λ d s bs. schema_message d ∷ map batch_message bs;
  decode = decode_messages;
}

asciify-is_ascii : (t : Text) → is_ascii t ≡ true → asciify t ≡ t
asciify-is_ascii [] h = refl
asciify-is_ascii (c ∷ s) h = ground (arith, asciify-is_ascii s)

is_ascii-asciify : (t : Text) → is_ascii (asciify t) ≡ true
is_ascii-asciify [] = refl
is_ascii-asciify (c ∷ s) = ground (arith, is_ascii-asciify s)

is_ascii-append : (s t : Text) → is_ascii s ≡ true → is_ascii t ≡ true → is_ascii (s ++ t) ≡ true
is_ascii-append [] t hs ht = ht
is_ascii-append (c ∷ s) t hs ht = ground (arith, is_ascii-append s t)

pub numbers_utf8 : Utf8Laws numbers
numbers_utf8 = record {
  lossy-utf8 = asciify-is_ascii;
  is_utf8-lossy = is_ascii-asciify;
  is_utf8-nil = refl;
  is_utf8-append = is_ascii-append;
  is_utf8-slash = λ t h. h;
}

abbrev pub as_is : Datasets numbers → Datasets numbers
as_is m = m

pub as_is-Iterates : Iterates {fl = numbers} as_is
as_is-Iterates = record { visits = λ m i k set h. (i, h); reaches = λ m j k set h. (j, h) }

pub decode_batches-map : (bs : List ℕ) → decode_batches (map batch_message bs) ≡ ok bs
decode_batches-map [] = refl
decode_batches-map (b ∷ bs) = rw (decode_batches-map bs)

unfoldable pub messages_of : List ℕ → List Message
messages_of [] = []
messages_of (b ∷ bs) = record { flight_descriptor = none; payload = some b } ∷ messages_of bs

pub map-batch_message : (bs : List ℕ) → map batch_message bs ≡ map ok (messages_of bs)
unfolding messages_of
map-batch_message [] = refl
map-batch_message (b ∷ bs) = ap (λ l. batch_message b ∷ l) (map-batch_message bs)

ok-injective : {E A : Type 0} (x y : A) → ◌≡◌ {A = Result E A} (ok x) (ok y) → x ≡ y
ok-injective x y h = cc h

pub map_ok-injective :
    (xs ys : List Message) → ◌≡◌ {A = List (Result Text Message)} (map ok xs) (map ok ys) → xs ≡ ys
map_ok-injective [] [] h = refl
map_ok-injective [] (y ∷ ys) h = cc
map_ok-injective (x ∷ xs) [] h = cc
map_ok-injective (x ∷ xs) (y ∷ ys) h =
    let heads : ◌≡◌ {A = Result Text Message} (ok x) (ok y) = cc h in
    let tails : ◌≡◌ {A = List (Result Text Message)} (map ok xs) (map ok ys) = cc h in
    ap₂ (λ a l. a ∷ l) (ok-injective x y heads) (map_ok-injective xs ys tails)

abbrev pub numbers_codec : CodecLaws numbers
numbers_codec = record {
  Row = ℕ;
  rows = λ bs. bs;
  rows-nil = refl;
  HasNoDictionary = λ s. Unit;
  encode-first = λ d s bs flat h. (
    record { flight_descriptor = d; payload = none },
    messages_of bs,
    ap (λ l. schema_message d ∷ l) (map-batch_message bs),
    refl,
  );
  decode-encode = λ d s bs flat h. (bs, decode_batches-map bs, h, refl);
}

abbrev pub in_memory : IpcLib numbers
in_memory = record {
  Writer = List ℕ;
  new_writer = λ s. ok [];
  write = λ w b. ok (w ++ b ∷ []);
  finish = λ w. ok w;
  new_reader = λ buf. ok (map ok buf);
}

abbrev pub in_memory_laws : IpcLaws in_memory
in_memory_laws = record {
  IsWritable = λ s. Unit;
  schema_of = λ w. tt;
  written = λ w. w;
  new_writer-ok = λ s writable. ([], refl, refl, refl);
  write-ok = λ w b writable h. (w ++ b ∷ [], refl, refl, refl);
  finish-ok = λ w. (w, refl, refl);
}

abbrev put_answer : Result Status (Unit {0}) → Result Text (List (Result Text (Unit {0})))
put_answer (ok u) = ok (ok u ∷ [])
put_answer (err e) = err []

abbrev text_of : Status → Text
text_of s = []

abbrev decoded : Result Status (List (Result Status Message)) → Result Text (List (Result Text ℕ))
decoded (err e) = err []
decoded (ok messages) = do bs ← decode_messages (map (map_err text_of) messages); ok (map ok bs)

abbrev pub local_client : FlightClient numbers
local_client = record {
  Conn = EchoState numbers;
  do_put = λ c messages.
      (put_answer (Server.do_put numbers c messages).0, (Server.do_put numbers c messages).1);
  do_get = λ c ticket. (decoded (Server.do_get numbers c ticket), c);
  list_flights = λ c criteria. (record { result = err []; millis = 0 }, c);
  get_flight_info = λ c d. (record { result = err []; millis = 0 }, c);
  get_schema = λ c d. (record { result = err []; millis = 0 }, c);
  list_actions = λ c. (record { result = err []; millis = 0 }, c);
  do_action = λ c a. (record { result = err []; millis = 0 }, c);
}

map_err-map_ok :
    (messages : List Message) → map (map_err text_of) (map ok messages) ≡ map ok messages
map_err-map_ok [] = refl
map_err-map_ok (m ∷ ms) = ap (λ l. ok m ∷ l) (map_err-map_ok ms)

-- A message is small whose number is a byte.
abbrev pub is_byte : Message → Bool
is_byte m = when_some m.payload (λ b. ltb b 256) true

pub served_put :
    (c : EchoState numbers) (messages : List Message) (st : EchoState numbers)
    → AllSmall is_byte messages
    → Server.do_put numbers c (map ok messages) ≡ (ok tt, st)
    → (results : List (Result Text (Unit {0}))) × ((local_client.do_put c (map ok messages)).0
        ≡ ok results)
      × ((local_client.do_put c (map ok messages)).1 ≡ st)
served_put c messages st small h = (ok tt ∷ [], ap (λ t. put_answer t.0) h, ap (λ t. t.1) h)

pub served_get :
    (c : EchoState numbers) (ticket : Text) (messages : List Message) (bs : List ℕ)
    → AllSmall is_byte messages
    → Server.do_get numbers c ticket ≡ ok (map ok messages)
    → decode_messages (map ok messages) ≡ ok bs
    → (local_client.do_get c ticket).0 ≡ ok (map ok bs)
served_get c ticket messages bs small answers decodes =
    ap decoded answers ∙ rw (map_err-map_ok messages, decodes)

abbrev pub local_loop : Loopback local_client
local_loop = record {
  server = λ c. c;
  is_small = is_byte;
  do_put-served = served_put;
  do_get-served = served_get;
}

abbrev pub small_machine : Machine
small_machine = record {
  Addr = Text × ℕ;
  Listener = Text × ℕ;
  runtime = ok tt;
  parse_addr = λ host port. ok (host, port);
  bind = λ addr. ok (addr.0, 41000);
  local_addr = λ l. some l;
  port_of = λ a. a.1;
  ip_of = λ a. a.0;
  tls_config = λ mode. ok tt;
  connects = λ ip port i. leb 2 i;
}
