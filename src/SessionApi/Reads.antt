-- ===== src/SessionApi/Reads.antt =====
-- One read of `recv_size` bytes, in as many parts as the system delivers.
use mathlib.Core.Path.{subst}
use cpp_network_programming.Base.{
  ℕ, ◌+◌, ◌-◌, ◌≤◌, ◌≡◌, refl, sym, ap, ◌∙◌, true, false, Option, none, some, List, [], ◌∷◌, ◌++◌,
  arith, Bytes, length, length-append, take, take_all, ltb, if◌then◌else◌, ◌>>=◌, if_true, if_false,
  Bool-cases, inl, inr, write_at, take-write_at, length-write_at, append-nil, append_assoc,
}
use cpp_network_programming.SessionApi.{
  MsgNode, ReadOp, Session, recv_size, read_node, start_read, read_callback, read_from_socket,
}

-- The system writes `d` into the array of the read node, at the offset of the operation.
unfoldable pub store : ReadOp → Bytes → Session → Session
store op d s = elim s.recv_node [
  | none ↦ s
  | some node ↦ record s { recv_node = some (record node { msg = write_at op.offset d node.msg }) }
]

-- The parts are delivered one after the other; without a pending read nothing is.
pub receive : List Bytes → Session → Option Session
receive [] s = some s
receive (d ∷ ds) s = elim s.reads [
  | [] ↦ some s
  | op ∷ rest ↦
      read_callback 0 (length d) (store op d (record s { reads = rest })) >>= λ t. receive ds t
]

abbrev pub joined : List Bytes → Bytes
joined [] = []
joined (d ∷ ds) = d ++ joined ds

abbrev pub next_read : ℕ → ℕ → List ReadOp
next_read total cur = if ltb cur total then record { offset = cur; size = total - cur } ∷ [] else []

-- The node after `got` has been received, and the read that is pending then.
pub record Received (got : Bytes) (s : Session) : Type 0 where
  pub node : MsgNode
  pub held : s.recv_node ≡ some node
  pub total : node.total_len ≡ recv_size
  pub sized : length node.msg ≡ recv_size
  pub counted : node.cur_len ≡ length got
  pub fits : length got ≤ recv_size
  pub filled : take node.cur_len node.msg ≡ got
  pub pending : s.reads ≡ next_read recv_size (length got)

-- The session after one more part.
abbrev pub node_with : MsgNode → Bytes → MsgNode
node_with node d = record node {
  msg = write_at node.cur_len d node.msg;
  cur_len = node.cur_len + length d;
}

abbrev pub after_part : MsgNode → Bytes → Session → Session
after_part node d s =
    let next = node_with node d in
    let s' = record s { recv_node = some next; reads = [] } in
    if ltb next.cur_len next.total_len
    then start_read next.cur_len (next.total_len - next.cur_len) s'
    else record s' { send_pending = false }

receive_step :
    (node : MsgNode) (size : ℕ) (d : Bytes) (ds : List Bytes) (s : Session)
    → s.recv_node ≡ some node
    → s.reads ≡ record { offset = node.cur_len; size = size } ∷ []
    → receive (d ∷ ds) s ≡ receive ds (after_part node d s)
unfolding receive store read_callback
receive_step node size d ds s held one = rw (one, receive) (rw (held, store))

pub after_part-reads :
    (node : MsgNode) (d : Bytes) (s : Session)
    → (after_part node d s).reads ≡ next_read node.total_len (node.cur_len + length d)
unfolding start_read
after_part-reads node d s = elim (Bool-cases (ltb (node.cur_len + length d) node.total_len)) [
  | inl more ↦ rw more
  | inr last ↦ rw last
]

after_part-Received :
    (got d : Bytes) (s : Session) (r : Received got s)
    → length got + length d ≤ recv_size
    → Received (got ++ d) (after_part r.node d s)
unfolding start_read
after_part-Received got d s r room = record {
  node = node_with r.node d;
  held = ground arith;
  total = r.total;
  sized = length-write_at r.node.cur_len d r.node.msg (omega (arith, r.sized, r.counted)) ∙ r.sized;
  counted = omega (arith, r.counted, length-append got d);
  fits = omega (arith, length-append got d);
  filled =
      take-write_at r.node.cur_len d r.node.msg (omega (arith, r.sized, r.counted, r.fits))
      ∙ ap (λ xs. xs ++ d) r.filled;
  pending =
      after_part-reads r.node d s
      ∙ ap (λ total. next_read total (r.node.cur_len + length d)) r.total
      ∙ ap (next_read recv_size) (omega (arith, r.counted, length-append got d));
}

length_zero : (xs : Bytes) → length xs ≤ 0 → xs ≡ []
length_zero [] h = refl
length_zero (x ∷ xs) h = absurd (omega arith)

receive_idle :
    (d : Bytes) (ds : List Bytes) (s : Session) → s.reads ≡ [] → receive (d ∷ ds) s ≡ some s
unfolding receive
receive_idle d ds s h = ground arith

abbrev reading : Bytes → Session → Session
reading garbage s =
    start_read 0 recv_size
      (record s { recv_node = some (read_node garbage recv_size); recv_pending = true })

started :
    (garbage : Bytes) (s : Session)
    → s.recv_pending ≡ false
    → read_from_socket garbage s ≡ reading garbage s
unfolding read_from_socket
started garbage s idle = if_false _ _ _ idle

reading-Received :
    (garbage : Bytes) (s : Session)
    → s.reads ≡ []
    → length garbage ≡ recv_size
    → Received [] (reading garbage s)
unfolding start_read read_node
reading-Received garbage s no_reads sized = record {
  node = read_node garbage recv_size;
  held = refl;
  total = refl;
  sized = ap length (take_all recv_size garbage (omega arith)) ∙ sized;
  counted = refl;
  fits = omega arith;
  filled = refl;
  pending = ap (λ rs. rs ++ record { offset = 0; size = recv_size } ∷ []) no_reads;
}

receive-Received :
    (ds : List Bytes) (got : Bytes) (s : Session)
    → Received got s
    → length got + length (joined ds) ≤ recv_size
    → (t : Session) × (receive ds s ≡ some t) × Received (got ++ joined ds) t
receive-Received [] got s r room =
    (s, unfold receive in refl, subst (λ xs. Received xs s) (sym (append-nil got)) r)
receive-Received (d ∷ ds) got s r room = elim (Bool-cases (ltb (length got) recv_size)) [
  | inl more ↦
      let one =
        r.pending
        ∙ if_true _ _ _ more
        ∙ ap (λ k. record { offset = k; size = recv_size - length got } ∷ []) (sym r.counted) in
      let (t, et, rt) =
        receive-Received ds (got ++ d) (after_part r.node d s)
          (after_part-Received got d s r (omega (arith, length-append d (joined ds))))
          (omega (arith, length-append d (joined ds), length-append got d)) in
      (
        t,
        receive_step r.node (recv_size - length got) d ds s r.held one ∙ et,
        subst (λ xs. Received xs t) (append_assoc got d (joined ds)) rt,
      )
  | inr full ↦
      let none_left : d ++ joined ds ≡ [] = length_zero _ (ground (arith, r.fits)) in
      (
        s,
        receive_idle d ds s (r.pending ∙ if_false _ _ _ full),
        subst (λ xs. Received xs s) (sym (append-nil got) ∙ ap (λ xs. got ++ xs) (sym none_left)) r,
      )
]

-- However the system cuts what it delivers, a read that was started on a session with no read
-- pending gathers the bytes in the read node in their order, and goes on reading exactly as long as
-- the node is not full.
pub read_from_socket-Received :
    (ds : List Bytes) (garbage : Bytes) (s : Session)
    → s.recv_pending ≡ false
    → s.reads ≡ []
    → length garbage ≡ recv_size
    → length (joined ds) ≤ recv_size
    → (t : Session) × (receive ds (read_from_socket garbage s) ≡ some t) × Received (joined ds) t
read_from_socket-Received ds garbage s idle no_reads sized room =
    receive-Received ds [] (read_from_socket garbage s)
      (subst (Received []) (sym (started garbage s idle))
        (reading-Received garbage s no_reads sized))
      (omega arith)
