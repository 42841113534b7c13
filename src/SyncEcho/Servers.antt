-- ===== src/SyncEcho/Servers.antt =====
-- The blocking servers with a thread for each client: `CServer` and `main` of
-- asio/sync/sync_server.cpp, and `server` and `main` of basic/blocking_tcp_echo_server.cpp. They
-- differ in the loop that a thread runs and in what becomes of the threads.
pub mod Interleavings
pub mod Port
use cpp_network_programming.Base.{
  ℕ, zero, suc, ◌≡◌, true, false, List, [], ◌∷◌, ◌++◌, Bytes, length, IsPrefix, Bool, replicate,
  if◌then◌else◌,
}
use cpp_network_programming.SyncEcho.{
  Round, Ending, waiting, closed, exception, overread, Thread, started,
}
use cpp_network_programming.SyncEcho.Loop.{arrived}

-- How a process ends: `main` returns, or the destruction of a joinable thread calls std::terminate.
pub data Exit : Type 0 where
  returned : ℕ → Exit
  terminated : Exit

-- A `std::thread`: one that runs, or has finished and was not joined, is joinable.
pub data Handle : Type 0 where
  joinable joined detached : Handle

-- The loop of joins in `main` of sync_server.cpp.
join_all : List Handle → List Handle
join_all [] = []
join_all (thread ∷ threads) = joined ∷ join_all threads

-- What the `try` of that `main` leaves of `thread_set`: an exception of `CServer`, which returns in no
-- other way, goes past the joins.
unfoldable pub leave_try : Bool → List Handle → List Handle
unfolding join_all
leave_try threw threads = if threw then threads else join_all threads

-- The destructors run after `main`.
unfoldable pub destroy : List Handle → Exit
destroy [] = returned 0
destroy (joinable ∷ threads) = terminated
destroy (joined ∷ threads) = destroy threads
destroy (detached ∷ threads) = destroy threads

-- What one round of a waiting thread does to the bytes: it writes a beginning of what came, and all
-- of it if it goes on.
abbrev pub Echoes : (List Round → Thread → Thread) → Type 0
Echoes run =
    (r : Round) (t : Thread)
    → IsPrefix (run (r ∷ []) t).written (t.written ++ arrived (r ∷ []))
      × ((run (r ∷ []) t).ending ≡ waiting
          → (run (r ∷ []) t).written ≡ t.written ++ arrived (r ∷ []))

-- The loop of a thread; how the process ends when the accepting thread throws, by the number of
-- threads made; and whether the threads are put into a set.
pub record EchoServer : Type 0 where
  pub run : List Round → Thread → Thread
  pub leave : ℕ → Exit
  pub keeps_threads : Bool
  pub echoes : Echoes run

-- sync_server.cpp: the threads in `thread_set` are as they were made.
unfoldable pub leave_sync : ℕ → Exit
unfolding destroy leave_try
leave_sync threads = destroy (leave_try true (replicate threads joinable))

-- blocking_tcp_echo_server.cpp detaches each thread as it makes it.
unfoldable pub leave_blocking : ℕ → Exit
unfolding destroy
leave_blocking threads = destroy (replicate threads detached)

-- A thread, and the bytes that have come to its socket.
pub record Client : Type 0 where
  pub thread : Thread
  pub got : Bytes

-- `undefined` is a process in which a thread has printed beyond its buffer.
pub data Status : Type 0 where
  running undefined : Status
  left : Exit → Status

-- The process after a round of a thread.
unfoldable pub status_after : Ending → Status
status_after waiting = running
status_after closed = running
status_after exception = running
status_after overread = undefined

pub record System : Type 0 where
  pub clients : List Client
  pub status : Status

abbrev pub listening : System
listening = record { clients = []; status = running }

abbrev pub fresh_client : Client
fresh_client = record { thread = started; got = [] }

-- The scheduler runs the accepting thread, or one round of a client's. The accepting thread makes a
-- socket, accepts on it, makes a thread, and may put it into a set; each of these can throw, and a
-- thread that is lost on the way into the set is joinable when its pointer goes.
pub data Event (server : EchoServer) (s t : System) : Type 0 where
  accepted :
      s.status ≡ running
      → t ≡ record s { clients = s.clients ++ fresh_client ∷ [] }
      → Event server s t
  accept_failed :
      s.status ≡ running
      → t ≡ record s { status = left (server.leave (length s.clients)) }
      → Event server s t
  thread_failed :
      s.status ≡ running
      → t ≡ record s { status = left (server.leave (length s.clients)) }
      → Event server s t
  insert_failed :
      s.status ≡ running
      → server.keeps_threads ≡ true
      → t ≡ record { clients = s.clients ++ fresh_client ∷ []; status = left terminated }
      → Event server s t
  ran :
      (before after : List Client) (c : Client) (r : Round)
      → s.status ≡ running
      → s.clients ≡ before ++ c ∷ after
      → c.thread.ending ≡ waiting
      → t ≡ record {
        clients =
            before
            ++ record { thread = server.run (r ∷ []) c.thread; got = c.got ++ arrived (r ∷ []) }
              ∷ after;
        status = status_after (server.run (r ∷ []) c.thread).ending;
      }
      → Event server s t

pub data Reach (server : EchoServer) : System → Type 0 where
  boot : Reach server listening
  next : {s t : System} → Reach server s → Event server s t → Reach server t
