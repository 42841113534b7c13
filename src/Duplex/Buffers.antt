-- ===== src/Duplex/Buffers.antt =====
-- What the writes of 03_full_duplex_server read from memory.
use cpp_network_programming.Base.{
  drop, ◌-◌, ℕ, zero, suc, ◌≤◌, ◌≡◌, refl, sym, ap, ◌∙◌, false, [], ◌∷◌, ◌++◌, arith, Bytes, take,
  replicate, ==_refl, if◌then◌else◌, if_true, if_false, Bool-cases, inl, inr, ◌↔◌, List, length,
  take_all, length-take,
}
use cpp_network_programming.Duplex.{
  max_length, MsgNode, msg_node, Session, Source, own_data, node_data, read, write, Server, put,
  pending, send, handle_read, ok, write_next, handle_write,
}

-- The bytes that a write of session `id` finds, if it reads them in state `s`.
pub source_bytes : Source → ℕ → Server → Bytes
source_bytes (own_data n) id s = take n (s.objects id).data_
source_bytes (node_data node) id s = take node.max_len node.data_

take-replicate : (n m : ℕ) → n ≤ m → take n (replicate {A = ℕ} m 0) ≡ replicate n 0
take-replicate zero m h = refl
take-replicate (suc n) zero h = absurd (omega arith)
take-replicate (suc n) (suc m) h = ap (◌∷◌ 0) (take-replicate n m (omega arith))

put_self : (id : ℕ) (session : Session) (s : Server) → (put id session s).objects id ≡ session
unfolding put
put_self id session s = if_true _ _ _ (==_refl id)

module _ (garbage n id : ℕ) (s : Server) where
  abbrev pub node_of : MsgNode
  node_of = msg_node garbage (s.objects id).data_ n

  abbrev session_with : Session
  session_with = record (s.objects id) { send_queue = (s.objects id).send_queue ++ node_of ∷ [] }

  -- What `Send` does to the sessions, and to the operations.
  pub send-objects : (send garbage n id s).objects ≡ (put id session_with s).objects
  unfolding send
  send-objects = elim (Bool-cases (pending (s.objects id).send_queue)) [
    | inl busy ↦ ap (λ (t : Server). t.objects) (if_true _ _ _ busy)
    | inr idle ↦ ap (λ (t : Server). t.objects) (if_false _ _ _ idle)
  ]

  pub send-ops :
      (send garbage n id s).ops
      ≡ (if pending (s.objects id).send_queue then s.ops else s.ops ++ write id (own_data n) ∷ [])
  unfolding send
  send-ops = elim (Bool-cases (pending (s.objects id).send_queue)) [
    | inl busy ↦ ap (λ (t : Server). t.ops) (if_true _ _ _ busy) ∙ sym (if_true _ _ _ busy)
    | inr idle ↦ ap (λ (t : Server). t.ops) (if_false _ _ _ idle) ∙ sym (if_false _ _ _ idle)
  ]

  pub send-sessions : (send garbage n id s).sessions ≡ s.sessions
  unfolding send
  send-sessions = elim (Bool-cases (pending (s.objects id).send_queue)) [
    | inl busy ↦ ap (λ (t : Server). t.sessions) (if_true _ _ _ busy)
    | inr idle ↦ ap (λ (t : Server). t.sessions) (if_false _ _ _ idle)
  ]

  pub send-next_id : (send garbage n id s).next_id ≡ s.next_id
  unfolding send
  send-next_id = elim (Bool-cases (pending (s.objects id).send_queue)) [
    | inl busy ↦ ap (λ (t : Server). t.next_id) (if_true _ _ _ busy)
    | inr idle ↦ ap (λ (t : Server). t.next_id) (if_false _ _ _ idle)
  ]

  pub send_queue-send :
      ((send garbage n id s).objects id).send_queue ≡ (s.objects id).send_queue ++ node_of ∷ []
  send_queue-send =
      ap (λ o. (o id).send_queue) send-objects ∙ ap (λ o. o.send_queue) (put_self id session_with s)

zeros-congr : (m n : ℕ) → m ≡ n → replicate {A = ℕ} m 0 ≡ replicate n 0
zeros-congr m n e = ap (λ k. replicate k 0) e

drop-replicate : (j n : ℕ) → drop j (replicate {A = ℕ} n 0) ≡ replicate (n - j) 0
drop-replicate zero n = zeros-congr n (n - 0) (omega arith)
drop-replicate (suc j) zero = zeros-congr 0 (0 - suc j) (omega arith)
drop-replicate (suc j) (suc n) =
    drop-replicate j n ∙ zeros-congr (n - j) (suc n - suc j) (omega arith)

-- The bytes that a write finds if it takes the first `j` of them in state `s`, and the others in
-- state `t`.
abbrev pub taken_apart : ℕ → Source → ℕ → Server → Server → Bytes
taken_apart j source id s t = take j (source_bytes source id s) ++ drop j (source_bytes source id t)

-- A message that finds the queue empty is written from the receive buffer, which the callback then
-- clears, and the copy that the queue holds is not used. If the system takes `j` bytes when the
-- write starts, all of them or none, and the others after the callback and before the next read
-- brings something, what is sent is `j` bytes of the message and zeros for the rest.
pub first_write_torn :
    (garbage n id j : ℕ) (s : Server)
    → (s.objects id).send_queue ≡ []
    → n ≤ max_length
    → let t = handle_read garbage false n id s in
      (t.ops ≡ (s.ops ++ write id (own_data n) ∷ []) ++ read id ∷ [])
      × (taken_apart j (own_data n) id (send garbage n id s) t
          ≡ take j (take n (s.objects id).data_) ++ replicate (n - j) 0)
      × ((t.objects id).send_queue ≡ msg_node garbage (s.objects id).data_ n ∷ [])
unfolding handle_read source_bytes
first_write_torn garbage n id j s idle fits =
    let sent = send garbage n id s in
    let cleared = put_self id (record (sent.objects id) { data_ = replicate max_length 0 }) sent in
    let at_start : source_bytes (own_data n) id sent ≡ take n (s.objects id).data_ =
      ap (λ o. take n (o id).data_) (send-objects garbage n id s)
      ∙ ap (λ o. take n o.data_) (put_self id (session_with garbage n id s) s) in
    let after : source_bytes (own_data n) id (handle_read garbage false n id s) ≡ replicate n 0 =
      ap (λ o. take n o.data_) cleared ∙ take-replicate n max_length fits in
    (
      ap (λ ops. ops ++ read id ∷ []) (send-ops garbage n id s ∙ if_false _ _ _ (ap pending idle)),
      (λ i. take j (at_start i) ++ drop j (after i))
          ∙ ap (λ zeros. take j (take n (s.objects id).data_) ++ zeros) (drop-replicate j n),
      ap (λ o. o.send_queue) cleared
          ∙ send_queue-send garbage n id s
          ∙ ap (λ q. q ++ msg_node garbage (s.objects id).data_ n ∷ []) idle,
    )

-- A message that waits behind another is written from its copy, with a length that was never set:
-- the write holds the message only if the memory that was not initialised happens to hold no
-- smaller number.
queued_write_size :
    (garbage n id : ℕ) (msg : Bytes) (sent : MsgNode) (queue : List MsgNode) (s : Server)
    → n ≤ length msg
    → (s.objects id).send_queue ≡ sent ∷ msg_node garbage msg n ∷ queue
    → (t : Server) × (handle_write false id s ≡ ok t)
      × (t.ops ≡ s.ops ++ write id (node_data (msg_node garbage msg n)) ∷ [])
      × ((source_bytes (node_data (msg_node garbage msg n)) id t ≡ take n msg) ↔ (n ≤ garbage))
unfolding handle_write source_bytes msg_node
queued_write_size garbage n id msg sent queue s fits e = (
  _,
  ap (λ q. write_next id q s) e,
  refl,
  (
    λ same. omega (arith, ap length same, length-take garbage (take n msg), length-take n msg),
    λ enough. take_all garbage (take n msg) (omega (arith, length-take n msg)),
  ),
)
