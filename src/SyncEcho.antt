-- ===== src/SyncEcho.antt =====
-- The blocking echo programs: asio/sync/sync_server.cpp with its client sync_client.cpp, and
-- basic/blocking_tcp_echo_server.cpp with its client blocking_tcp_echo_client.cpp. A session is
-- the loop of one thread; what the socket gives to each round of it is an argument.
pub mod Clients
pub mod Loop
pub mod RoundTrip
pub mod Servers
pub mod Tests
use cpp_network_programming.Base.{
  ℕ, ◌-◌, Bool, true, false, Option, none, some, List, [], ◌∷◌, ◌++◌, Bytes, length, take,
  replicate, ◌==◌, leb, if◌then◌else◌, ◌>>=◌,
}

abbrev pub max_length : ℕ
max_length = 1024

-- What `write` does: all of it, or a part of it and then it throws.
pub data Sent : Type 0 where
  whole : Sent
  broken : ℕ → Sent

-- One round: the end of the stream, an error, or bytes; then whether the peer's address can still
-- be asked for, and what the write does.
pub data Round : Type 0 where
  eof failed : Round
  received : Bytes → Bool → Sent → Round

-- `waiting` is a thread that is in `read_some`; `exception` is one that was caught; `overread` is
-- undefined behaviour, the printing of a buffer in which no string ends.
pub data Ending : Type 0 where
  waiting closed exception overread : Ending

-- What has been written to the socket, and the messages that have been printed.
pub record Thread : Type 0 where
  pub ending : Ending
  pub written : Bytes
  pub printed : List Bytes

abbrev pub started : Thread
started = record { ending = waiting; written = []; printed = [] }

-- `data`, which was cleared, after `read_some`.
pub buffer : Bytes → Bytes
buffer bytes = bytes ++ replicate (max_length - length bytes) 0

-- The string that starts where the buffer does.
pub c_string : Bytes → Option Bytes
c_string [] = none
c_string (x ∷ xs) =
    let rest = c_string xs in if x == 0 then some [] else (rest >>= λ text. some (x ∷ text))

abbrev pub write : Bytes → Sent → Thread → Thread
write bytes whole t = record t { written = t.written ++ bytes }
write bytes (broken n) t = record t { written = t.written ++ take n bytes; ending = exception }

-- `cout << data`, and what follows it.
pub print_data : Option Bytes → (Thread → Thread) → Thread → Thread
print_data none more t = record t { ending = overread }
print_data (some text) more t = more (record t { printed = t.printed ++ text ∷ [] })

-- `CSession` of sync_server.cpp.
pub c_session : List Round → Thread → Thread
unfolding print_data
c_session [] t = t
c_session (eof ∷ rounds) t = record t { ending = closed }
c_session (failed ∷ rounds) t = record t { ending = exception }
c_session (received bytes false sent ∷ rounds) t = record t { ending = exception }
c_session (received bytes true (broken n) ∷ rounds) t =
    print_data (c_string (buffer bytes)) (write bytes (broken n)) t
c_session (received bytes true whole ∷ rounds) t =
    print_data (c_string (buffer bytes)) (λ t'. c_session rounds (write bytes whole t')) t

-- `session` of blocking_tcp_echo_server.cpp, which does not print and asks for no address.
pub session : List Round → Thread → Thread
session [] t = t
session (eof ∷ rounds) t = record t { ending = closed }
session (failed ∷ rounds) t = record t { ending = exception }
session (received bytes known (broken n) ∷ rounds) t = write bytes (broken n) t
session (received bytes known whole ∷ rounds) t = session rounds (write bytes whole t)

-- The bytes in front of the first `end`.
pub before : ℕ → Bytes → Bytes
before end [] = []
before end (x ∷ xs) = let rest = before end xs in if x == end then [] else x ∷ rest

-- The two clients: what they send for what is typed (`getline` and `strlen`), and the reply that
-- they read from what comes back before the stream ends.
pub request : Bytes → Bytes
request input = before 0 (take (max_length - 1) (before b'\n' input))

pub read_reply : ℕ → Bytes → Option Bytes
read_reply request_length incoming =
    if leb request_length (length incoming) then some (take request_length incoming) else none
