-- ===== src/SessionApi/Memory.antt =====
-- Whose memory the pending writes of a CSession of asio/async/00_session_api read, and how long it
-- lives: a node as long as a member of the session or a callback points to it, a caller's text as
-- long as the caller pleases.
pub mod Places
pub mod Callbacks
pub mod Lives
pub mod Freed
pub mod Tests
use cpp_network_programming.Base.{
  ◌==◌, ◌||◌, false, Bool, ℕ, suc, ◌+◌, ◌-◌, ◌≤◌, ◌<◌, ◌≡◌, ◌≢◌, ◌⊎◌, inl, inr, refl, sym, ap, ◌∙◌,
  Bool, true, false, Option, none, some, some_inj, List, [], ◌∷◌, ◌++◌, arith, Bytes, length,
  length-append, drop, ltb, ◌==◌, if◌then◌else◌, if_true, if_false, Bool-cases, Bool-clash,
}
use cpp_network_programming.SessionApi.{
  write_node, write, MsgNode, WriteOp, WriteCallback, Session, session, start_write, send_next,
  write_front, write_callback, write_to_socket, write_all_to_socket, write_to_socket_err,
}
use cpp_network_programming.SessionApi.Writes.{run_callback}

-- What a pending write reads: the text of a call of the class, or a node, each by its number (a call
-- that sends makes both); and what its callback captures. A lambda that captures `this` keeps no
-- node; `std::bind(…, send_node_)` makes a callback that points to its node.
pub data Place : Type 0 where
  caller node bound : ℕ → Place

-- The session, the numbers of the nodes that `send_queue_` and `send_node_` point to, and the places
-- that the writes of `session.writes` read, in their order.
pub record Memory : Type 0 where
  pub session : Session
  pub queue_ids : List ℕ
  pub send_id : Option ℕ
  pub places : List Place
  pub next_id : ℕ

abbrev pub empty : Memory
empty = record { session = session; queue_ids = []; send_id = none; places = []; next_id = 0 }

-- A write that was started reads there.
abbrev place_if_started : Session → Session → Place → List Place → List Place
place_if_started s t p places =
    if ltb (length s.writes) (length t.writes) then places ++ p ∷ [] else places

-- WriteToSocket or WriteAllToSocket, which takes the session to `t`: the node goes into the queue, a
-- write takes the caller's text.
abbrev pub sent : Session → Memory → Memory
sent t m = record {
  session = t;
  queue_ids = m.queue_ids ++ m.next_id ∷ [];
  send_id = m.send_id;
  places = place_if_started m.session t (caller m.next_id) m.places;
  next_id = suc m.next_id;
}

abbrev pub submit : (Session → Session) → Memory → Memory
submit call m = sent (call m.session) m

-- WriteToSocketErr: the node takes the place of the last one.
abbrev pub submit_err : Bytes → Memory → Memory
submit_err buf m = record {
  session = write_to_socket_err buf m.session;
  queue_ids = m.queue_ids;
  send_id = some m.next_id;
  places = m.places ++ node m.next_id ∷ [];
  next_id = suc m.next_id;
}

-- What is left of the queue.
abbrev left_ids : Session → Session → List ℕ → List ℕ
left_ids s t ids = drop (length s.send_queue - length t.send_queue) ids

abbrev front_place : List ℕ → List Place
front_place [] = []
front_place (id ∷ ids) = node id ∷ []

abbrev bound_place : Option ℕ → List Place
bound_place none = []
bound_place (some id) = bound id ∷ []

-- A callback has taken the session from `s` to `t`: a write that it started reads the front node.
abbrev pub called_back : Session → Session → List Place → Memory → Memory
called_back s t places m =
    let ids = left_ids s t m.queue_ids in
    record m {
      session = t;
      queue_ids = ids;
      places =
          if ltb (length s.writes) (length t.writes) then places ++ front_place ids else places;
    }

-- WriteCallBackErr has taken the session from `s` to `t`: the write that it starts reads `send_node_`,
-- and `std::bind` gives its callback a pointer to that node.
abbrev pub err_called_back : Session → Session → List Place → Memory → Memory
err_called_back s t places m = record m {
  session = t;
  places =
      if ltb (length s.writes) (length t.writes) then places ++ bound_place m.send_id else places;
}

-- Texts are sent by the functions with a queue, and a pending write completes, with an error or
-- without.
pub data Step (a b : Memory) : Type 0 where
  sends : (buf : Bytes) → b ≡ submit (write_to_socket buf) a → Step a b
  sends_all : (buf : Bytes) → b ≡ submit (write_all_to_socket buf) a → Step a b
  completed :
      (before after : List WriteOp) (op : WriteOp) (places_before places_after : List Place)
      (p : Place) (ec n : ℕ) (t : Session)
      → a.session.writes ≡ before ++ op ∷ after
      → a.places ≡ places_before ++ p ∷ places_after
      → length places_before ≡ length before
      → run_callback op.callback ec n (record (a.session) { writes = before ++ after }) ≡ some t
      → b
        ≡ called_back
            (record (a.session) { writes = before ++ after })
            t
            (places_before ++ places_after)
            a
      → Step a b

pub data Reach : Memory → Type 0 where
  fresh : Reach empty
  next : {a b : Memory} → Reach a → Step a b → Reach b

has : ℕ → List ℕ → Bool
has id [] = false
has id (i ∷ ids) = i == id || has id ids

points_to : Option ℕ → ℕ → Bool
points_to none id = false
points_to (some i) id = i == id

-- The callback of a pending write points to the node.
captured : ℕ → List Place → Bool
captured id [] = false
captured id (caller k ∷ places) = captured id places
captured id (node i ∷ places) = captured id places
captured id (bound i ∷ places) = i == id || captured id places

-- A node lives as long as something points to it.
pub is_alive : ℕ → Memory → Bool
unfolding has points_to captured
is_alive id m = has id m.queue_ids || (points_to m.send_id id || captured id m.places)
