-- ===== src/SyncEcho/Servers/Interleavings.antt =====
-- Whatever the order in which the threads run, each client gets an echo of its own bytes.
use mathlib.Core.Path.{subst}
use cpp_network_programming.Base.{
  ℕ, ◌≡◌, refl, sym, ap, ◌∙◌, true, false, Option, none, some, List, [], ◌∷◌, ◌++◌, Bytes, All,
  All-append, middle_entry, IsPrefix, append-nil,
}
use cpp_network_programming.SyncEcho.{
  whole, broken, Round, eof, failed, received, waiting, Thread, buffer, c_string, write, print_data,
  c_session, session,
}
use cpp_network_programming.SyncEcho.Loop.{arrived, c_session-IsPrefix, session-IsPrefix}
use cpp_network_programming.SyncEcho.Servers.{
  Echoes, EchoServer, leave_sync, leave_blocking, Client, fresh_client, System, Event, accepted,
  accept_failed, thread_failed, insert_failed, ran, Reach, boot, next,
}

print_data-waiting :
    (o : Option Bytes) (bytes : Bytes) (t : Thread)
    → (print_data o (write bytes whole) t).ending ≡ waiting
    → (print_data o (write bytes whole) t).written ≡ t.written ++ bytes
unfolding print_data
print_data-waiting none bytes t e = cc
print_data-waiting (some text) bytes t e = refl

print_data-broken :
    (o : Option Bytes) (n : ℕ) (bytes : Bytes) (t : Thread)
    → ¬ ((print_data o (write bytes (broken n)) t).ending ≡ waiting)
unfolding print_data
print_data-broken none n bytes t e = cc
print_data-broken (some text) n bytes t e = cc

c_session_goes_on :
    (r : Round) (t : Thread)
    → (c_session (r ∷ []) t).ending ≡ waiting
    → (c_session (r ∷ []) t).written ≡ t.written ++ arrived (r ∷ [])
unfolding c_session
c_session_goes_on eof t e = cc
c_session_goes_on failed t e = cc
c_session_goes_on (received bytes false sent) t e = cc
c_session_goes_on (received bytes true (broken n)) t e =
    absurd (print_data-broken (c_string (buffer bytes)) n bytes t e)
c_session_goes_on (received bytes true whole) t e =
    print_data-waiting (c_string (buffer bytes)) bytes t e
    ∙ ap (λ xs. t.written ++ xs) (sym (append-nil bytes))

session_goes_on :
    (r : Round) (t : Thread)
    → (session (r ∷ []) t).ending ≡ waiting
    → (session (r ∷ []) t).written ≡ t.written ++ arrived (r ∷ [])
unfolding session
session_goes_on eof t e = cc
session_goes_on failed t e = cc
session_goes_on (received bytes known (broken n)) t e = cc
session_goes_on (received bytes known whole) t e =
    ap (λ xs. t.written ++ xs) (sym (append-nil bytes))

pub c_session-Echoes : Echoes c_session
c_session-Echoes r t = (c_session-IsPrefix (r ∷ []) t, c_session_goes_on r t)

pub session-Echoes : Echoes session
session-Echoes r t = (session-IsPrefix (r ∷ []) t, session_goes_on r t)

abbrev pub sync_server : EchoServer
sync_server = record {
  run = c_session;
  leave = leave_sync;
  keeps_threads = true;
  echoes = c_session-Echoes;
}

abbrev pub blocking_server : EchoServer
blocking_server = record {
  run = session;
  leave = leave_blocking;
  keeps_threads = false;
  echoes = session-Echoes;
}

-- What a client has been sent: a beginning of its own bytes, and all of them while its thread
-- waits for more.
pub record Echoed (c : Client) : Type 0 where
  pub began : IsPrefix c.thread.written c.got
  pub all : c.thread.ending ≡ waiting → c.thread.written ≡ c.got

ran-Echoed :
    (server : EchoServer) (c : Client) (r : Round)
    → c.thread.ending ≡ waiting
    → Echoed c
    → Echoed (record { thread = server.run (r ∷ []) c.thread; got = c.got ++ arrived (r ∷ []) })
ran-Echoed server c r waits v =
    let (began, on) = server.echoes r c.thread in
    let same = ap (λ xs. xs ++ arrived (r ∷ [])) (v.all waits) in
    record { began = (began.0, began.1 ∙ same); all = λ h. on h ∙ same }

accepted-Echoed : (cs : List Client) → All Echoed cs → All Echoed (cs ++ fresh_client ∷ [])
accepted-Echoed cs h = All-append Echoed cs _ h (record { began = ([], refl); all = λ w. refl }, tt)

Event-Echoed :
    {server : EchoServer} {s t : System}
    → Event server s t
    → All Echoed s.clients
    → All Echoed t.clients
Event-Echoed {server} {s} (accepted on e) h = rw e (accepted-Echoed s.clients h)
Event-Echoed (accept_failed on e) h = rw e h
Event-Echoed (thread_failed on e) h = rw e h
Event-Echoed {server} {s} (insert_failed on keeps e) h = rw e (accepted-Echoed s.clients h)
Event-Echoed {server} {s} (ran before after c r on at waits e) h =
    let (one, put) = middle_entry Echoed before c _ after (subst (All Echoed) at h) in
    rw e (put (ran-Echoed server c r waits one))

-- In whatever order the accepts and the rounds of the threads come, and however they fail: each
-- thread has written a beginning of what its own client sent, and all of it while it waits for more.
pub Reach-Echoed : {server : EchoServer} {s : System} → Reach server s → All Echoed s.clients
Reach-Echoed boot = tt
Reach-Echoed (next r e) = Event-Echoed e (Reach-Echoed r)
