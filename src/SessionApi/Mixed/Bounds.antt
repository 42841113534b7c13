-- ===== src/SessionApi/Mixed/Bounds.antt =====
-- Where the reads of asio/async/00_session_api write to, and what a read that fails does.
use mathlib.Core.Path.{subst}
use cpp_network_programming.Base.{
  ℕ, ◌+◌, ◌-◌, ◌≤◌, ◌<◌, ◌≡◌, inl, inr, refl, sym, ap, ◌∙◌, true, false, some, some_inj, List, [],
  ◌∷◌, arith, Bytes, length, ltb, ltb→lt, if◌then◌else◌, if_true, if_false, Bool-cases,
  length-write_at,
}
use cpp_network_programming.SessionApi.{
  MsgNode, ReadOp, Session, session, recv_size, start_read, read_callback,
}
use cpp_network_programming.SessionApi.Reads.{
  store, next_read, node_with, after_part, after_part-reads,
}
use cpp_network_programming.SessionApi.Mixed.{
  Event, called, completed, Runs, fresh, next, Reading, Sides, called-Sides,
}

-- The one read that can be pending.
record Pending (op : ReadOp) (rest : List ReadOp) (node : MsgNode) : Type 0 where
  missing : node.cur_len < recv_size
  here : op ≡ record { offset = node.cur_len; size = recv_size - node.cur_len }
  only : rest ≡ []

next_read-cases :
    (cur : ℕ) (op : ReadOp) (rest : List ReadOp)
    → next_read recv_size cur ≡ op ∷ rest
    → (cur < recv_size) × (op ≡ record { offset = cur; size = recv_size - cur }) × (rest ≡ [])
next_read-cases cur op rest e = elim (Bool-cases (ltb cur recv_size)) [
  | inr full ↦ cc (sym (if_false _ _ _ full) ∙ e)
  | inl more ↦
      let same = sym (if_true _ _ _ more) ∙ e in (ltb→lt cur recv_size more, cc (same), cc (same))
]

Reading-Pending :
    (s : Session) (v : Reading s) (op : ReadOp) (rest : List ReadOp)
    → s.reads ≡ op ∷ rest
    → Pending op rest v.node
Reading-Pending s v op rest e =
    let (m, h, o) = next_read-cases v.node.cur_len op rest (sym v.reads ∙ e) in
    record { missing = m; here = h; only = o }

stored_part :
    (node : MsgNode) (size ec : ℕ) (d : Bytes) (s : Session)
    → s.recv_node ≡ some node
    → read_callback ec
        (length d)
        (store (record { offset = node.cur_len; size = size }) d (record s { reads = [] }))
      ≡ some (after_part node d s)
unfolding read_callback store
stored_part node size ec d s held = rw held refl

completed-after_part :
    (s : Session) (v : Reading s) (op : ReadOp) (rest : List ReadOp) (ec : ℕ) (d : Bytes)
    → s.reads ≡ op ∷ rest
    → read_callback ec (length d) (store op d (record s { reads = rest }))
      ≡ some (after_part v.node d s)
completed-after_part s v op rest ec d e =
    let p = Reading-Pending s v op rest e in
    ap (λ o. read_callback ec (length d) (store o d (record s { reads = rest }))) (p.here)
    ∙ ap
        (λ rs. read_callback ec (length d) (
          store (record { offset = v.node.cur_len; size = recv_size - v.node.cur_len }) d
            (record s { reads = rs })))
        (p.only)
    ∙ stored_part v.node (recv_size - v.node.cur_len) ec d s v.held

after_part-Reading :
    (s : Session) (v : Reading s) (d : Bytes)
    → v.node.cur_len + length d ≤ recv_size
    → Reading (after_part v.node d s)
unfolding start_read
after_part-Reading s v d room = record {
  node = node_with v.node d;
  held = ground arith;
  total = v.total;
  sized = length-write_at v.node.cur_len d v.node.msg (omega (arith, v.sized)) ∙ v.sized;
  fits = room;
  reads =
      after_part-reads v.node d s
      ∙ ap (λ total. next_read total (v.node.cur_len + length d)) v.total;
  pending = ground (arith, v.pending);
}

Event-Sides : {s t : Session} → Event s t → Sides s → Sides t
Event-Sides {s} {t} (called c own e) h = called-Sides c s t own e h
Event-Sides (completed op rest ec d e fits r) (inl (none_read, idle)) = cc (sym none_read ∙ e)
Event-Sides {s} (completed op rest ec d e fits r) (inr v) =
    let p = Reading-Pending s v op rest e in
    let room : length d ≤ recv_size - v.node.cur_len =
      subst (λ (o : ReadOp). length d ≤ o.size) (p.here) fits in
    inr (
      subst Reading (some_inj (sym (completed-after_part s v op rest ec d e) ∙ r))
        (after_part-Reading s v d (omega (arith, room, p.missing))))

Runs-Sides : {s : Session} → Runs s → Sides s
unfolding session
Runs-Sides fresh = inl (refl, refl)
Runs-Sides (next r ev) = Event-Sides ev (Runs-Sides r)

Runs-Reading :
    {s : Session} (op : ReadOp) (rest : List ReadOp) → Runs s → s.reads ≡ op ∷ rest → Reading s
Runs-Reading op rest r e = elim (Runs-Sides r) [
  | inl (none_read, idle) ↦ cc (sym none_read ∙ e)
  | inr v ↦ v
]

-- However messages are written and read, in whatever order the operations complete and with
-- whatever errors: one read at most is pending; it is for one byte at least and ends within the
-- array of the node that the session holds; and with any bytes that fit, its callback is defined.
pub reads_in_bounds :
    {s : Session} (op : ReadOp) (rest : List ReadOp) (ec : ℕ) (d : Bytes)
    → Runs s
    → s.reads ≡ op ∷ rest
    → (rest ≡ [])
      × ((node : MsgNode) × (s.recv_node ≡ some node)
          × (op.offset ≡ node.cur_len)
          × (0 < op.size)
          × (op.offset + op.size ≤ length node.msg))
      × ((t : Session) × (read_callback ec (length d) (store op d (record s { reads = rest }))
            ≡ some t))
reads_in_bounds {s} op rest ec d r e =
    let v = Runs-Reading op rest r e in
    let p = Reading-Pending s v op rest e in
    let offset = ap (λ (o : ReadOp). o.offset) (p.here) in
    let size = ap (λ (o : ReadOp). o.size) (p.here) in
    (
      p.only,
      (
        v.node,
        v.held,
        offset,
        omega (arith, p.missing, size),
        omega (arith, p.missing, size, offset, v.sized),
      ),
      (_, completed-after_part s v op rest ec d e),
    )

stepped_node :
    (node : MsgNode) (ec : ℕ) (s : Session)
    → s.recv_node ≡ some node
    → read_callback ec 0 (record s { reads = [] })
      ≡ some (
          let next = record node { cur_len = node.cur_len + 0 } in
          let s' = record s { recv_node = some next; reads = [] } in
          if ltb next.cur_len next.total_len
          then start_read next.cur_len (next.total_len - next.cur_len) s'
          else record s' { send_pending = false })
unfolding read_callback
stepped_node node ec s held = rw held refl

-- What a callback leaves when no byte came, in a session whose node is not full.
nothing_came :
    (node : MsgNode) (ec : ℕ) (s : Session)
    → s.recv_node ≡ some node
    → ltb node.cur_len node.total_len ≡ true
    → s.reads ≡ record { offset = node.cur_len; size = node.total_len - node.cur_len } ∷ []
    → read_callback ec 0 (record s { reads = [] }) ≡ some s
unfolding read_callback start_read
nothing_came node ec s held more one =
    let again = λ (k : ℕ). some (record s {
      recv_node = some (record node { cur_len = k });
      reads = record { offset = k; size = node.total_len - k } ∷ [];
    }) in
    let same : node.cur_len + 0 ≡ node.cur_len = omega arith in
    stepped_node node ec s held
    ∙ ap some (if_true _ _ _ (ap (λ k. ltb k node.total_len) same ∙ more))
    ∙ ap again same
    ∙ (λ i. some (record s { recv_node = sym held i; reads = sym one i }))

-- ReadCallBack does not look at the error: a read that fails with nothing delivered, as at the end
-- of the stream, leaves the session as it was, with the same read pending, and so without an end.
pub failed_read_spins :
    {s : Session} (op : ReadOp) (rest : List ReadOp) (ec : ℕ)
    → Runs s
    → s.reads ≡ op ∷ rest
    → read_callback ec 0 (record s { reads = rest }) ≡ some s
unfolding read_callback start_read
failed_read_spins {s} op rest ec r e =
    let v = Runs-Reading op rest r e in
    let p = Reading-Pending s v op rest e in
    let not_full : ltb v.node.cur_len recv_size ≡ true = ground (arith, p.missing) in
    let one =
      v.reads
      ∙ if_true _ _ _ (not_full)
      ∙ ap (λ total. record { offset = v.node.cur_len; size = total - v.node.cur_len } ∷ [])
          (sym v.total) in
    ap (λ rs. read_callback ec 0 (record s { reads = rs })) (p.only)
    ∙ nothing_came v.node ec s v.held (ap (ltb v.node.cur_len) v.total ∙ not_full) one
