-- ===== src/Http/Server.antt =====
-- CServer::Start (beast/http_server/src/cserver.cpp): the accept loop, callback after callback.
pub mod Tests
use cpp_network_programming.Base.{
  ℕ, ◌≡◌, refl, Bool, true, false, List, [], ◌∷◌, ◌++◌, arith, All, append-nil, append-snoc, sym,
  ◌∙◌, ap, if_true, if_false, if◌then◌else◌,
}

-- What `async_accept` reports: an error, or a socket, for which creating or starting the
-- HttpConnection throws or not.
pub data Accepted : Type 0 where
  failed : Accepted
  socket : ℕ → Accepted
  throwing : ℕ → Accepted

-- Whether an accept is under way, and the sockets whose connections were started, oldest first.
pub record Server : Type 0 where
  pub accepting : Bool
  pub connections : List ℕ

unfoldable pub start : Server → Server
start s = record s { accepting = true }

-- The callback: an exception is caught and forgotten, and then no further accept is started.
unfoldable pub on_accept : Accepted → Server → Server
unfolding start
on_accept failed s = start s
on_accept (socket fd) s = start (record s { connections = s.connections ++ fd ∷ [] })
on_accept (throwing fd) s = s

-- The events reach the server as long as an accept is under way.
pub run : List Accepted → Server → Server
run [] s = s
run (e ∷ es) s =
    let s' = run es (on_accept e (record s { accepting = false })) in if s.accepting then s' else s

abbrev DoesNotThrow : Accepted → Type 0
DoesNotThrow failed = Unit
DoesNotThrow (socket fd) = Unit
DoesNotThrow (throwing fd) = ⊥

pub sockets : List Accepted → List ℕ
sockets [] = []
sockets (failed ∷ es) = sockets es
sockets (socket fd ∷ es) = fd ∷ sockets es
sockets (throwing fd ∷ es) = sockets es

abbrev next : Accepted → Server → Server
next e s = on_accept e (record s { accepting = false })

run_step :
    (e : Accepted) (es : List Accepted) (s : Server)
    → run (e ∷ es) s ≡ (if s.accepting then run es (next e s) else s)
unfolding run
run_step e es s = refl

run_cons :
    (e : Accepted) (es : List Accepted) (s : Server)
    → s.accepting ≡ true
    → run (e ∷ es) s ≡ run es (next e s)
unfolding run
run_cons e es s a = if_true s.accepting _ s a

run_stopped : (es : List Accepted) (s : Server) → s.accepting ≡ false → run es s ≡ s
unfolding run
run_stopped [] s a = refl
run_stopped (e ∷ es) s a = if_false s.accepting _ s a

-- As long as no callback throws, the server goes on accepting, through every failed accept, and
-- starts a connection for each socket, in the order of arrival.
run_accepts :
    (es : List Accepted) (s : Server)
    → All DoesNotThrow es
    → s.accepting ≡ true
    → ((run es s).accepting ≡ true) × ((run es s).connections ≡ s.connections ++ sockets es)
unfolding on_accept sockets
run_accepts [] s h a = unfold run in (a, sym (append-nil s.connections))
run_accepts (failed ∷ es) s h a = rw (run_cons failed es s a) (run_accepts es _ h.1 refl)
run_accepts (socket fd ∷ es) s h a =
    let (on, all) = run_accepts es (next (socket fd) s) h.1 refl in
    rw (run_cons (socket fd) es s a) (on, all ∙ append-snoc s.connections fd (sockets es))
run_accepts (throwing fd ∷ es) s h a = absurd h.0

run_throwing_here :
    (later : List Accepted) (fd : ℕ) (s : Server)
    → run (throwing fd ∷ later) s ≡ (if s.accepting then record s { accepting = false } else s)
unfolding run on_accept
run_throwing_here later fd s = rw (run_stopped later (record s { accepting = false }) refl)

-- A callback that throws is the last: whatever arrives afterwards, nothing is accepted.
run_throwing :
    (es later : List Accepted) (fd : ℕ) (s : Server)
    → run (es ++ throwing fd ∷ later) s ≡ run (es ++ throwing fd ∷ []) s
run_throwing [] later fd s = run_throwing_here later fd s ∙ sym (run_throwing_here [] fd s)
run_throwing (e ∷ es) later fd s =
    run_step e (es ++ throwing fd ∷ later) s
    ∙ ap (λ s'. if s.accepting then s' else s) (run_throwing es later fd (next e s))
    ∙ sym (run_step e (es ++ throwing fd ∷ []) s)
