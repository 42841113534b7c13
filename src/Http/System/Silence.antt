-- ===== src/Http/System/Silence.antt =====
-- The whole server after an exception in the callback of an accept.
use mathlib.Core.Path.{subst}
use cpp_network_programming.Base.{
  ℕ, ◌≡◌, refl, sym, ap, ◌∙◌, true, false, some, some_inj, length, length_middle, Bool-clash,
}
use cpp_network_programming.Http.Message.{HttpConnection}
use cpp_network_programming.Http.Logic.{LogicSystem}
use cpp_network_programming.Http.Server.{Server, throwing, on_accept}
use cpp_network_programming.Http.System.{
  System, accept, open_conns, on_signal, Event, accepted, stepped, asserted, signalled,
}

-- The states that come after one.
pub data Later (sys : LogicSystem) (s : System) : System → Type 0 where
  here : Later sys s s
  later : {t u : System} → Later sys s t → Event sys t (some u) → Later sys s u

-- No accept is under way, and there are so many connections.
record Quiet (server : Server) (conns : ℕ) (s : System) : Type 0 where
  same_server : s.server ≡ server
  same_number : length s.conns ≡ conns

Event-Quiet :
    {sys : LogicSystem} {server : Server} {conns : ℕ} {s t : System}
    → server.accepting ≡ false
    → Event sys s (some t)
    → Quiet server conns s
    → Quiet server conns t
unfolding on_signal
Event-Quiet off (accepted e http on acc r) q =
    absurd (Bool-clash acc (ap (λ (v : Server). v.accepting) (q.same_server) ∙ off))
Event-Quiet {server} {conns} {s} off (stepped before after c d on at step r) q =
    subst (Quiet server conns) (sym (some_inj r)) (record {
      same_server = q.same_server;
      same_number = length_middle before c d after ∙ ap length (sym at) ∙ q.same_number;
    })
Event-Quiet off (asserted before after c req on at reading fails r) q = cc r
Event-Quiet {server} {conns} off (signalled true on wait r) q =
    subst (Quiet server conns) (sym (some_inj r))
      (record { same_server = q.same_server; same_number = q.same_number })
Event-Quiet {server} {conns} off (signalled false on wait r) q =
    subst (Quiet server conns) (sym (some_inj r))
      (record { same_server = q.same_server; same_number = q.same_number })

Later-Quiet :
    {sys : LogicSystem} {s t : System}
    → s.server.accepting ≡ false
    → Later sys s t
    → Quiet s.server (length s.conns) t
Later-Quiet off here = record { same_server = refl; same_number = refl }
Later-Quiet off (later l ev) = Event-Quiet off ev (Later-Quiet off l)

-- When making or starting a connection throws in the callback of an accept, nothing is accepted
-- from then on, however long the server goes on with the connections that it has: no socket and no
-- connection is added, and no accept is started again.
pub throwing_silences :
    {sys : LogicSystem} (fd : ℕ) (http : HttpConnection) (s t : System)
    → Later sys (accept (throwing fd) http s) t
    → (t.server.accepting ≡ false)
      × (t.server.connections ≡ s.server.connections)
      × (length t.conns ≡ length s.conns)
unfolding accept on_accept open_conns
throwing_silences fd http s t l =
    let q = Later-Quiet refl l in
    (
      ap (λ (v : Server). v.accepting) (q.same_server),
      ap (λ (v : Server). v.connections) (q.same_server),
      q.same_number,
    )
