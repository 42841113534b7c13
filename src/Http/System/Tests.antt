-- ===== src/Http/System/Tests.antt =====
-- The whole server with two clients.
use cpp_network_programming.Base.{◌≡◌, true, refl, false, some, none, [], ◌∷◌, length, All}
use cpp_network_programming.Http.Logic.{LogicSystem, logic_system}
use cpp_network_programming.Http.Logic.Tests.{as_listed, fresh_http}
use cpp_network_programming.Http.Connection
use cpp_network_programming.Http.Connection.{Conn}
use cpp_network_programming.Http.Connection.Steps.{read_failed}
use cpp_network_programming.Http.Server.{socket, throwing, start, on_accept}
use cpp_network_programming.Http.System.{
  System, new_connection, open_conns, accept, booted, accepted, stepped, signalled, on_signal,
  Reach, boot, next,
}
use cpp_network_programming.Http.System.Connections.{Kept, conns-Kept}
use cpp_network_programming.Http.System.Abort.{one_request_ends_all}
use cpp_network_programming.Http.System.Main.{Main, stops, refuses, aborts, returned, aborted}
use cpp_network_programming.Http.System.Silence.{Later, here, later, throwing_silences}

abbrev sys : LogicSystem
sys = logic_system as_listed

abbrev opened : Conn
opened = Connection.start (new_connection fresh_http)

abbrev two_clients : System
two_clients = accept (socket 8) fresh_http (accept (socket 7) fresh_http booted)

two_reach : Reach sys two_clients
unfolding accept booted start on_accept
two_reach =
    next (next boot (accepted (socket 7) fresh_http refl refl refl))
      (accepted (socket 8) fresh_http refl refl refl)

-- The first client goes away.
one_gone_reach :
    Reach sys (record two_clients { conns = record opened { reading = false } ∷ opened ∷ [] })
unfolding accept booted start on_accept open_conns Connection.start Connection.on_read
one_gone_reach = next two_reach (
    stepped [] (opened ∷ []) opened (record opened { reading = false }) refl refl
      (read_failed refl refl) refl)

conns-Kept_example :
    (length two_clients.conns ≡ length two_clients.server.connections)
    × All (Kept sys) two_clients.conns
conns-Kept_example = conns-Kept two_reach

abbrev one_gone : System
one_gone = record (accept (throwing 9) fresh_http two_clients) {
  conns = record opened { reading = false } ∷ opened ∷ [];
}

-- The third accept throws; then the first client goes away.
after_throwing : Later sys (accept (throwing 9) fresh_http two_clients) one_gone
unfolding accept booted start on_accept open_conns Connection.start Connection.on_read
after_throwing = later here (
    stepped [] (opened ∷ []) opened (record opened { reading = false }) refl refl
      (read_failed refl refl) refl)

throwing_silences_example :
    (one_gone.server.accepting ≡ false)
    × (one_gone.server.connections ≡ two_clients.server.connections)
    × (length one_gone.conns ≡ length two_clients.conns)
throwing_silences_example = throwing_silences 9 fresh_http two_clients one_gone after_throwing

-- Ctrl C, with two clients connected.
abbrev stopped : System
stopped = on_signal false two_clients

interrupted : Main sys true (some stopped) (returned 0)
unfolding accept booted on_signal
interrupted = stops stopped refl refl (next two_reach (signalled false refl refl refl)) refl refl

refused : Main sys false none (returned 0)
refused = refuses refl refl refl

crashed : Main sys true (some two_clients) aborted
unfolding accept booted open_conns on_accept start Connection.start
crashed =
    aborts two_clients refl refl two_reach
      (one_request_ends_all sys (opened ∷ []) [] opened two_clients refl refl refl) refl
