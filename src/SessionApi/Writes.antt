-- ===== src/SessionApi/Writes.antt =====
-- Messages that are submitted while the system completes the writes, in any order of the two.
use cpp_network_programming.Base.{
  ℕ, ◌≤◌, ◌≡◌, Bool, true, false, Option, some, List, [], ◌∷◌, ◌++◌, Bytes, length, take, drop, All,
}
use cpp_network_programming.SessionApi.{
  MsgNode, WriteOp, WriteCallback, write_err, write, Session, session, write_callback,
  write_callback_err, write_to_socket, write_all_to_socket,
}

-- The session, the bytes that the system took from it, and the messages submitted so far.
pub record Link : Type 0 where
  pub session : Session
  pub wire : Bytes
  pub submitted : Bytes

abbrev pub run_callback : WriteCallback → ℕ → ℕ → Session → Option Session
run_callback write_err ec n s = write_callback_err ec n s
run_callback write ec n s = write_callback ec n s

-- One of the pending writes succeeds with a part of its buffer.
pub data Step (a b : Link) : Type 0 where
  submit :
      (buf : Bytes)
      → b ≡ record a { session = write_to_socket buf a.session; submitted = a.submitted ++ buf }
      → Step a b
  submit_all :
      (buf : Bytes)
      → b ≡ record a { session = write_all_to_socket buf a.session; submitted = a.submitted ++ buf }
      → Step a b
  complete :
      (before after : List WriteOp) (op : WriteOp) (n : ℕ) (s : Session)
      → a.session.writes ≡ before ++ op ∷ after
      → n ≤ length op.buffer
      → run_callback op.callback 0 n (record (a.session) { writes = before ++ after }) ≡ some s
      → b ≡ record a { session = s; wire = a.wire ++ take n op.buffer }
      → Step a b

pub data Reach : Link → Type 0 where
  fresh : Reach (record { session = session; wire = []; submitted = [] })
  next : {a b : Link} → Reach a → Step a b → Reach b

-- What the nodes of the queue still have to send.
abbrev pub messages : List MsgNode → Bytes
messages [] = []
messages (node ∷ queue) = node.msg ++ messages queue

abbrev pub unsent : List MsgNode → Bytes
unsent [] = []
unsent (front ∷ queue) = drop front.cur_len front.msg ++ messages queue

abbrev pub IsWhole : MsgNode → Type 0
IsWhole node = (node.total_len ≡ length node.msg) × (node.cur_len ≡ 0)

abbrev pub write_op : Bytes → WriteOp
write_op buffer = record { buffer = buffer; callback = write }

-- The queue, the flag and the pending writes agree: one write, of what the front has left.
abbrev pub Shape : List MsgNode → Bool → List WriteOp → Type 0
Shape [] pending writes = (pending ≡ false) × (writes ≡ [])
Shape (front ∷ queue) pending writes =
    (pending ≡ true)
    × (writes ≡ write_op (drop front.cur_len front.msg) ∷ [])
    × (front.total_len ≡ length front.msg)
    × (front.cur_len ≤ length front.msg)
    × All IsWhole queue

abbrev pub InOrder : Session → Type 0
InOrder s = Shape s.send_queue s.send_pending s.writes

pub record Inv (a : Link) : Type 0 where
  pub in_order : InOrder a.session
  pub conserved : a.wire ++ unsent a.session.send_queue ≡ a.submitted
