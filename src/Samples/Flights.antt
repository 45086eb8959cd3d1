-- ===== src/Samples/Flights.antt =====
-- Descriptors, modes of TLS, a history of requests and a server that is started.
use ex_arrow.Prelude.{
  Option, map, sym, ◌∙◌, subst, ap, ℕ, ℤ, pos, ◌≡◌, ◌↔◌, refl, true, false, negsuc, none, some,
  List, [], ◌∷◌, ok, arith,
}
use ex_arrow.Beam.{Text, Term, atom, binary, tuple, nil, cons}
use ex_arrow.HashMap.{insert}
use ex_arrow.Flight.{FlightInfo, FlightDescriptor}
use ex_arrow.Flight.Tls.{tls, parse_server_tls}
use ex_arrow.Flight.Tls.Exact.{server_tls_term, parse_server_tls-eq-ok}
use ex_arrow.Flight.Descriptor.{
  cmd_descriptor, decode_descriptor, encode_descriptor, descriptor_to_key,
}
use ex_arrow.Flight.Descriptor.Shown.{encode_descriptor-decode_descriptor}
use ex_arrow.Flight.Server.{initial, receive, do_put, do_action, do_get, list_flights}
use ex_arrow.Flight.Server.Requests.{Request, put, action, flights, after}
use ex_arrow.Flight.Server.Keys.{IsServable, after-IsServable}
use ex_arrow.Flight.Server.History.{answer, latest, do_get-after}
use ex_arrow.Flight.Server.Listed.{Describes, list_flights-Describes}
use ex_arrow.Flight.Client.{FlightClientHandle, put_descriptor, flight_client_do_put}
use ex_arrow.Flight.Client.Link.{AllSmall, AllArrive, command}
use ex_arrow.Flight.Client.Echoed.{Fetched, flight_client_do_get-flight_client_do_put}
use ex_arrow.Flight.Host.{FlightServerHandle, signalled, joined, flight_server_start}
use ex_arrow.Flight.Host.Ready.{Reached, flight_server_start-eq-ok}
use ex_arrow.Flight.Host.Stopped.{stops, stops-flight_server_start}
use ex_arrow.Samples.Decoders.{ascii, ascii_laws}
use ex_arrow.Samples.Echo.{
  numbers, numbers_utf8, as_is, as_is-Iterates, numbers_codec, in_memory, in_memory_laws,
  map_ok-injective, Message, schema_message, messages_of, map-batch_message, is_byte, local_client,
  local_loop, small_machine,
}

abbrev pem : Text
pem = b'p' ∷ b'e' ∷ b'm' ∷ []

parse_server_tls-eq-ok_example :
    (parse_server_tls ascii (server_tls_term (tls pem pem)) ≡ ok (tls pem pem))
    ↔ (◌≡◌ {A = Term ℤ} (server_tls_term (tls pem pem)) (server_tls_term (tls pem pem)))
parse_server_tls-eq-ok_example =
    parse_server_tls-eq-ok ascii ascii_laws (server_tls_term (tls pem pem)) (tls pem pem)

abbrev sales : Text
sales = b's' ∷ b'a' ∷ b'l' ∷ b'e' ∷ b's' ∷ []

abbrev sales_term : Term ℤ
sales_term = tuple (cons (atom "cmd") (cons (binary sales) nil))

sales-read : decode_descriptor ascii sales_term ≡ ok (cmd_descriptor sales)
unfolding decode_descriptor
sales-read = refl

encode_descriptor-decode_descriptor_example :
    encode_descriptor (λ n. true) (some (cmd_descriptor sales)) ≡ some sales_term
encode_descriptor-decode_descriptor_example =
    encode_descriptor-decode_descriptor ascii ascii_laws (λ n. true) sales_term
      (cmd_descriptor sales) sales-read refl

-- An upload of a batch to a ticket.
abbrev upload : Text → ℕ → Request numbers
upload ticket b = put (
    ok (record { flight_descriptor = some (cmd_descriptor ticket); payload = none })
    ∷ ok (record { flight_descriptor = none; payload = some b })
    ∷ [])

-- Its end first: the tickets are cleared before the last two uploads.
abbrev history : List (Request numbers)
history = flights ∷ upload sales 30 ∷ upload sales 20 ∷ action "clear" ∷ upload pem 10 ∷ []

after-IsServable_example : IsServable numbers (after numbers as_is history)
after-IsServable_example = after-IsServable numbers numbers_utf8 as_is history (omega arith)

sales-latest : latest numbers sales history ≡ some (record { schema = tt; batches = 30 ∷ [] })
unfolding receive descriptor_to_key
sales-latest = refl

do_get-after_example :
    do_get numbers (after numbers as_is history) sales
    ≡ answer numbers sales (latest numbers sales history)
do_get-after_example = do_get-after numbers as_is history sales

abbrev sales_info : FlightInfo
sales_info = record {
  schema = 7 ∷ [];
  flight_descriptor = some (cmd_descriptor sales);
  endpoint = record { ticket = some sales; location = [] } ∷ [];
  total_records = pos 1;
  total_bytes = negsuc 0;
}

flights-listed : list_flights numbers as_is (after numbers as_is history) ≡ ok (ok sales_info ∷ [])
unfolding list_flights initial do_put receive do_action descriptor_to_key insert
flights-listed = refl

list_flights-Describes_example :
    Describes numbers numbers_utf8 (after numbers as_is history) history sales_info
list_flights-Describes_example =
    list_flights-Describes numbers numbers_utf8 as_is as_is-Iterates history (ok sales_info ∷ []) 0
      sales_info (omega arith) flights-listed refl

-- A client whose server has one dataset.
abbrev connected : FlightClientHandle local_client
connected = record {
  client = record {
    datasets = (sales, record { schema = tt; batches = 3 ∷ 4 ∷ [] }) ∷ [];
    poisoned = false;
  };
  poisoned = false;
}

sales-sent : (local_client.do_get connected.client sales).0 ≡ ok (ok 3 ∷ ok 4 ∷ [])
unfolding do_get
sales-sent = refl

sales-described : put_descriptor local_client ascii sales_term ≡ ok (some (cmd_descriptor sales))
unfolding put_descriptor decode_descriptor
sales-described = refl

numbers-small :
    (d : Option FlightDescriptor) (bs : List ℕ) (ms : List Message)
    → AllSmall is_byte (messages_of bs)
    → numbers.encode d tt bs ≡ map ok ms
    → AllSmall is_byte ms
numbers-small d bs ms small coded =
    let same : record { flight_descriptor = d; payload = none } ∷ messages_of bs ≡ ms =
      map_ok-injective _ _ (ap (λ l. schema_message d ∷ l) (sym (map-batch_message bs)) ∙ coded) in
    subst (AllSmall is_byte) same (refl, small)

sales-arrive :
    AllArrive {fl = numbers} {cl = local_client} local_loop
      (some (cmd_descriptor sales))
      tt
      (5 ∷ 6 ∷ [])
unfolding messages_of
sales-arrive = record {
  up = λ ms coded.
      numbers-small (some (cmd_descriptor sales)) (5 ∷ 6 ∷ []) ms (refl, (refl, tt)) coded;
  down = λ stored ms decoded coded.
      let same : 5 ∷ 6 ∷ [] ≡ stored = cc decoded in
      numbers-small none stored ms
        (subst (λ bs. AllSmall is_byte (messages_of bs)) same (refl, (refl, tt))) coded;
}

flight_client_do_get-flight_client_do_put_example :
    ((flight_client_do_put local_client ascii connected tt (5 ∷ 6 ∷ []) sales_term).0 ≡ ok tt)
    × Fetched numbers_codec local_client local_loop in_memory
        (flight_client_do_put local_client ascii connected tt (5 ∷ 6 ∷ []) sales_term).1
        sales
        (5 ∷ 6 ∷ [])
flight_client_do_get-flight_client_do_put_example =
    flight_client_do_get-flight_client_do_put numbers_codec local_client local_loop ascii in_memory
      in_memory_laws connected tt (5 ∷ 6 ∷ []) sales_term (some (cmd_descriptor sales)) sales refl
      refl tt tt (refl, (refl, tt)) (λ e. cc e) sales-described
      (command (cmd_descriptor sales) refl refl) sales-arrive

abbrev started : FlightServerHandle
started = record {
  join = some tt;
  join_poisoned = false;
  host = pem;
  port = 41000;
  shutdown = some tt;
  shutdown_poisoned = false;
}

server-started :
    flight_server_start small_machine ascii pem 0 (server_tls_term (tls pem pem)) ≡ ok started
unfolding flight_server_start parse_server_tls
server-started = refl

flight_server_start-eq-ok_example :
    (flight_server_start small_machine ascii pem 0 (server_tls_term (tls pem pem)) ≡ ok started)
    ↔ Reached small_machine ascii pem 0 (server_tls_term (tls pem pem)) started
flight_server_start-eq-ok_example =
    flight_server_start-eq-ok small_machine ascii pem 0 (server_tls_term (tls pem pem)) started

stops-flight_server_start_example : stops 3 started ≡ signalled ∷ joined ∷ []
stops-flight_server_start_example =
    stops-flight_server_start small_machine ascii pem 0 (server_tls_term (tls pem pem)) started 2
      server-started
