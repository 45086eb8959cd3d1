-- ===== src/Flight/Host/Stopped.antt =====
-- A server is stopped once, however often it is asked to stop.
use ex_arrow.Prelude.{sym, ℕ, zero, suc, ◌≡◌, refl, ◌∙◌, ap, none, List, [], ◌∷◌, ◌++◌, ok}
use ex_arrow.Beam.{Text, Term, Rustler}
use ex_arrow.Flight.Host.Ready.{handle_of-is, flight_server_start-eq-ok}
use ex_arrow.Flight.Host.{
  Machine, FlightServerHandle, Effect, signalled, joined, taken, handle_of, flight_server_start,
  flight_server_stop,
}

-- What stops in a row do.
abbrev pub stops : ℕ → FlightServerHandle → List Effect
stops zero handle = []
stops (suc n) handle = (flight_server_stop handle).0 ++ stops n (flight_server_stop handle).1

-- The handle once it is stopped.
abbrev spent : FlightServerHandle → FlightServerHandle
spent handle = record handle { shutdown = none; join = none }

stop-spent : (handle : FlightServerHandle) → flight_server_stop (spent handle) ≡ ([], spent handle)
unfolding flight_server_stop taken
stop-spent handle = refl

stops-spent : (n : ℕ) (handle : FlightServerHandle) → stops n (spent handle) ≡ []
stops-spent zero handle = refl
stops-spent (suc n) handle = ap (λ t. t.0 ++ stops n t.1) (stop-spent handle) ∙ stops-spent n handle

stops-handle_of :
    (m : Machine) (addr : m.Addr) (extra : ℕ)
    → stops (suc extra) (handle_of m addr) ≡ signalled ∷ joined ∷ []
unfolding flight_server_stop taken handle_of
stops-handle_of m addr extra =
    ap (λ l. signalled ∷ joined ∷ l) (stops-spent extra (handle_of m addr))

-- However often a server that was started is stopped, it is signalled to shut down once, and after that
-- its thread is joined once.
pub stops-flight_server_start :
    {F : Type 0} (m : Machine) (r : Rustler F) (host : Text) (port : ℕ) (server_tls : Term F)
    (handle : FlightServerHandle) (extra : ℕ)
    → flight_server_start m r host port server_tls ≡ ok handle
    → stops (suc extra) handle ≡ signalled ∷ joined ∷ []
stops-flight_server_start m r host port server_tls handle extra started =
    let w = (flight_server_start-eq-ok m r host port server_tls handle).0 started in
    ap (stops (suc extra)) (w.handed ∙ sym (handle_of-is m w.local))
    ∙ stops-handle_of m w.local extra
