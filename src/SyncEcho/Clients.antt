-- ===== src/SyncEcho/Clients.antt =====
-- The two clients: `main` of asio/sync/sync_client.cpp and of basic/blocking_tcp_echo_client.cpp.
-- What `connect` and `write` report, what is typed and what comes back are arguments.
pub mod Replies
pub mod Tests
use cpp_network_programming.Base.{
  ℕ, Bool, true, false, Option, none, some, List, [], ◌∷◌, Bytes, length, take, ◌==◌, if◌then◌else◌,
}
use cpp_network_programming.SyncEcho.{Sent, whole, broken, request, read_reply}

-- What a client puts on the terminal: the prompt, the reply, and the messages for what went wrong.
pub data Line : Type 0 where
  prompt usage exception : Line
  connect_failed : ℕ → Line
  reply : Bytes → Line

pub record Run : Type 0 where
  pub shown : List Line
  pub sent : Bytes
  pub code : ℕ

-- `read` throws when the stream ends before the reply is whole.
pub show_reply : Option Bytes → Line
show_reply none = exception
show_reply (some bytes) = reply bytes

-- What both do once they are connected.
pub talk : Bytes → Sent → Bytes → Run
talk input whole incoming = record {
  shown = prompt ∷ show_reply (read_reply (length (request input)) incoming) ∷ [];
  sent = request input;
  code = 0;
}
talk input (broken n) incoming = record {
  shown = prompt ∷ exception ∷ [];
  sent = take n (request input);
  code = 0;
}

-- `connect` gives an error's value, or none.
pub sync_client : Option ℕ → Bytes → Sent → Bytes → Run
sync_client (some error) input write incoming = record {
  shown = connect_failed error ∷ [];
  sent = [];
  code = 0;
}
sync_client none input write incoming = talk input write incoming

-- Whether `resolve` and `connect` succeed; they throw if not.
connected : Bool → Bytes → Sent → Bytes → Run
connected false input write incoming = record { shown = exception ∷ []; sent = []; code = 0 }
connected true input write incoming = talk input write incoming

pub blocking_client : ℕ → Bool → Bytes → Sent → Bytes → Run
blocking_client argc found input write incoming =
    if argc == 3
    then connected found input write incoming
    else record { shown = usage ∷ []; sent = []; code = 1 }
