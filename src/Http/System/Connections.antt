-- ===== src/Http/System/Connections.antt =====
-- What the connections of one server have to do with each other: nothing.
use mathlib.Core.Path.{subst}
use cpp_network_programming.Base.{
  ℕ, suc, ◌≤◌, ◌≡◌, refl, sym, ap, ◌∙◌, ◌⊎◌, true, false, some, some_inj, [], ◌∷◌, arith, length,
  length-append, All, All-append, All-map, middle_entry, length_middle,
}
use cpp_network_programming.Http.Message.{HttpConnection}
use cpp_network_programming.Http.Logic.{LogicSystem}
use cpp_network_programming.Http.Connection
use cpp_network_programming.Http.Connection.{Conn}
use cpp_network_programming.Http.Connection.Steps
use cpp_network_programming.Http.Connection.Steps.{Step, Run, IsFresh}
use cpp_network_programming.Http.Connection.Bounds.{IsReleased, Run_ends, sent_once}
use cpp_network_programming.Http.Connection.Responses.{IsFramed, sent-IsFramed}
use cpp_network_programming.Http.Server.{Accepted, failed, socket, throwing, start, on_accept}
use cpp_network_programming.Http.System.{
  System, new_connection, open_conns, accept, on_signal, booted, Event, accepted, stepped, asserted,
  signalled, Reach, boot, next,
}

-- A history of this connection alone.
pub record Alone (sys : LogicSystem) (c : Conn) : Type 0 where
  pub http : HttpConnection
  pub events : ℕ
  pub run : Run sys (Connection.start (new_connection http)) events c

-- The connections are those of the sockets that were accepted.
record Inv (sys : LogicSystem) (s : System) : Type 0 where
  alone : All (Alone sys) s.conns
  counted : length s.conns ≡ length s.server.connections

opened :
    (sys : LogicSystem) (http : HttpConnection) → Alone sys (Connection.start (new_connection http))
opened sys http = record { http = http; events = 0; run = Steps.here }

accept-Inv :
    (sys : LogicSystem) (e : Accepted) (http : HttpConnection) (s : System)
    → Inv sys s
    → Inv sys (accept e http s)
unfolding accept on_accept open_conns start
accept-Inv sys failed http s v = record { alone = v.alone; counted = v.counted }
accept-Inv sys (socket fd) http s v = record {
  alone = All-append (Alone sys) s.conns _ v.alone (opened sys http, tt);
  counted = omega (
    arith,
    v.counted,
    length-append s.conns (Connection.start (new_connection http) ∷ []),
    length-append s.server.connections (fd ∷ []),
  );
}
accept-Inv sys (throwing fd) http s v = record { alone = v.alone; counted = v.counted }

one_more : {sys : LogicSystem} {c d : Conn} → Step sys c d → Alone sys c → Alone sys d
one_more step a = record { http = a.http; events = suc a.events; run = Steps.next a.run step }

Event-Inv : {sys : LogicSystem} {s t : System} → Event sys s (some t) → Inv sys s → Inv sys t
Event-Inv {sys} {s} (accepted e http on acc r) v =
    subst (Inv sys) (sym (some_inj r)) (accept-Inv sys e http s v)
Event-Inv {sys} {s} (stepped before after c d on at step r) v =
    let (one, put) =
      middle_entry (Alone sys) before c d after (subst (All (Alone sys)) at v.alone) in
    subst (Inv sys) (sym (some_inj r)) (record {
      alone = put (one_more step one);
      counted = length_middle before c d after ∙ ap length (sym at) ∙ v.counted;
    })
Event-Inv (asserted before after c req on at reading aborts r) v = cc
Event-Inv {sys} {s} (signalled true on wait r) v =
    subst (Inv sys) (sym (some_inj r))
      (unfold on_signal in record { alone = v.alone; counted = v.counted })
Event-Inv {sys} {s} (signalled false on wait r) v =
    subst (Inv sys) (sym (some_inj r))
      (unfold on_signal in record { alone = v.alone; counted = v.counted })

Reach-Inv : {sys : LogicSystem} {s : System} → Reach sys s → Inv sys s
unfolding booted start
Reach-Inv boot = record { alone = tt; counted = refl }
Reach-Inv (next r e) = Event-Inv e (Reach-Inv r)

new-IsFresh : (http : HttpConnection) → IsFresh (new_connection http)
new-IsFresh http = record {
  not_reading = refl;
  not_writing = refl;
  no_wait = refl;
  not_closed = refl;
  nothing_sent = refl;
}

-- What holds of each connection of a server.
abbrev pub Kept : LogicSystem → Conn → Type 0
Kept sys c =
    Alone sys c
    × (length c.sent ≤ 1)
    × All IsFramed c.sent
    × (IsReleased c ⊎ ((d : Conn) × Step sys c d))

Alone-Kept : {sys : LogicSystem} (c : Conn) → Alone sys c → Kept sys c
Alone-Kept c a =
    let fresh = new-IsFresh a.http in
    (a, sent_once fresh a.run, sent-IsFramed fresh a.run, (Run_ends fresh a.run).1)

-- However accepts, the events of all connections and signals are interleaved: the server has one
-- connection for each socket that it took, and each has a history of its own, in which the others
-- have no part. So each has answered once at most, with a framed response, and is released or can
-- go on.
pub conns-Kept :
    {sys : LogicSystem} {s : System}
    → Reach sys s
    → (length s.conns ≡ length s.server.connections) × All (Kept sys) s.conns
conns-Kept {sys} {s} r = let v = Reach-Inv r in (v.counted, All-map Alone-Kept s.conns v.alone)
