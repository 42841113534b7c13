-- ===== src/Http/System.antt =====
-- The whole HTTP server: CServer::Start of beast/http_server/src/cserver.cpp with the connections
-- that it starts, the routes that they share, and the signals that main.cpp waits for.
pub mod Connections
pub mod Abort
pub mod Silence
pub mod Main
pub mod Tests
use cpp_network_programming.Base.{
  ℕ, ◌≡◌, Bool, true, false, Option, none, some, List, [], ◌∷◌, ◌++◌,
}
use cpp_network_programming.Http.Message.{Request, HttpConnection}
use cpp_network_programming.Http.Logic.{LogicSystem}
use cpp_network_programming.Http.Connection
use cpp_network_programming.Http.Connection.{Conn, idle}
use cpp_network_programming.Http.Connection.Steps.{receive, Step}
use cpp_network_programming.Http.Server.{
  Accepted, failed, socket, throwing, Server, start, on_accept,
}

-- `running` is cleared by `ioc.stop()`; `waiting` says that the wait for the signals is pending.
pub record System : Type 0 where
  pub server : Server
  pub conns : List Conn
  pub running : Bool
  pub waiting : Bool

-- The constructor of HttpConnection; `http` is what the constructors of Beast give.
abbrev pub new_connection : HttpConnection → Conn
new_connection http = record {
  http = record http { get_params = [] };
  reading = false;
  writing = false;
  wait = idle;
  shut_send = false;
  closed = false;
  sent = [];
}

-- `std::make_shared<HttpConnection>(std::move(self->socket_))->Start()`, where the accept gave a
-- socket and nothing threw.
pub open_conns : Accepted → HttpConnection → List Conn → List Conn
open_conns failed http conns = conns
open_conns (socket fd) http conns = conns ++ Connection.start (new_connection http) ∷ []
open_conns (throwing fd) http conns = conns

pub accept : Accepted → HttpConnection → System → System
unfolding open_conns on_accept
accept e http s = record s {
  server = on_accept e (record (s.server) { accepting = false });
  conns = open_conns e http s.conns;
}

-- The callback of `signals.async_wait`.
pub on_signal : Bool → System → System
on_signal true s = record s { waiting = false }
on_signal false s = record s { running = false; waiting = false }

-- What `main` has made when it calls `ioc.run()`.
pub booted : System
unfolding start
booted = record {
  server = start (record { accepting = false; connections = [] });
  conns = [];
  running = true;
  waiting = true;
}

-- One callback of `ioc.run()`; `none` is a failed assertion, which ends the process.
pub data Event (sys : LogicSystem) (s : System) (r : Option System) : Type 0 where
  accepted :
      (e : Accepted) (http : HttpConnection)
      → s.running ≡ true
      → s.server.accepting ≡ true
      → r ≡ some (accept e http s)
      → Event sys s r
  stepped :
      (before after : List Conn) (c d : Conn)
      → s.running ≡ true
      → s.conns ≡ before ++ c ∷ after
      → Step sys c d
      → r ≡ some (record s { conns = before ++ d ∷ after })
      → Event sys s r
  asserted :
      (before after : List Conn) (c : Conn) (req : Request)
      → s.running ≡ true
      → s.conns ≡ before ++ c ∷ after
      → c.reading ≡ true
      → Connection.on_read sys false (receive req c) ≡ none
      → r ≡ none
      → Event sys s r
  signalled :
      (error : Bool)
      → s.running ≡ true
      → s.waiting ≡ true
      → r ≡ some (on_signal error s)
      → Event sys s r

pub data Reach (sys : LogicSystem) : System → Type 0 where
  boot : Reach sys booted
  next : {s t : System} → Reach sys s → Event sys s (some t) → Reach sys t
