-- ===== src/SessionApi.antt =====
-- CSession of asio/async/00_session_api: the queue of messages to send with its write callbacks,
-- and the read node with its read callbacks. An operation that was started and has not completed
-- is an entry of `writes` or `reads`. `none` is undefined behaviour: `front` of an empty queue, or
-- a node that is not there. An error code is its value, 0 for success; sizes stay below 2 ^ 31.
pub mod Writes
pub mod Delivery
pub mod Submission
pub mod Invariant
pub mod Reads
pub mod Failures
pub mod Mixed
pub mod Memory
pub mod Flaws
pub mod Tests
use cpp_network_programming.Base.{
  ℕ, zero, suc, ◌+◌, ◌-◌, Bool, true, false, Option, none, some, List, [], ◌∷◌, ◌++◌, Bytes, length,
  take, drop, ltb, ◌==◌, if◌then◌else◌,
}

pub record MsgNode : Type 0 where
  pub msg : Bytes
  pub total_len : ℕ
  pub cur_len : ℕ

-- `MsgNode(const char* msg, int total_len)`.
write_node : Bytes → ℕ → MsgNode
write_node msg total_len = record { msg = take total_len msg; total_len = total_len; cur_len = 0 }

-- `MsgNode(int total_len)`; `garbage` is what the new array holds.
pub read_node : Bytes → ℕ → MsgNode
read_node garbage total_len = record {
  msg = take total_len garbage;
  total_len = total_len;
  cur_len = 0;
}

abbrev pub recv_size : ℕ
recv_size = 1024

-- `buffer(node->msg_ + node->cur_len_, node->total_len_ - node->cur_len_)`.
pub rest_of : MsgNode → Bytes
rest_of node = take (node.total_len - node.cur_len) (drop node.cur_len node.msg)

-- `buffer(node->msg_, node->total_len_)`.
pub all_of : MsgNode → Bytes
all_of node = take node.total_len node.msg

pub data WriteCallback : Type 0 where
  write_err write : WriteCallback

pub record WriteOp : Type 0 where
  pub buffer : Bytes
  pub callback : WriteCallback

-- A read into the node's array, at an offset. Every read that is started calls `ReadCallBack`.
pub record ReadOp : Type 0 where
  pub offset : ℕ
  pub size : ℕ

pub record Session : Type 0 where
  pub send_node : Option MsgNode
  pub recv_node : Option MsgNode
  pub send_queue : List MsgNode
  pub send_pending : Bool
  pub recv_pending : Bool
  pub writes : List WriteOp
  pub reads : List ReadOp

-- The constructor.
pub session : Session
session = record {
  send_node = none;
  recv_node = none;
  send_queue = [];
  send_pending = false;
  recv_pending = false;
  writes = [];
  reads = [];
}

pub start_write : WriteCallback → Bytes → Session → Session
start_write callback buffer s = record s {
  writes = s.writes ++ record { buffer = buffer; callback = callback } ∷ [];
}

pub start_read : ℕ → ℕ → Session → Session
start_read offset size s = record s {
  reads = s.reads ++ record { offset = offset; size = size } ∷ [];
}

-- WriteCallBackErr. `cur_len_` is read and never set.
pub write_callback_err : ℕ → ℕ → Session → Option Session
unfolding start_write
write_callback_err ec bytes_transferred s =
    if ec == 0
    then elim s.send_node [
      | none ↦ none
      | some node ↦ some (
          if ltb (bytes_transferred + node.cur_len) node.total_len
          then start_write write_err (rest_of node) s
          else s)
    ]
    else some s

pub write_to_socket_err : Bytes → Session → Session
unfolding start_write write_node
write_to_socket_err buf s =
    let node = write_node buf (length buf) in
    start_write write_err (all_of node) (record s { send_node = some node })

-- What WriteCallBack does once the first message is sent, on the queue that is left.
pub send_next : List MsgNode → Session → Session
unfolding start_write
send_next [] s = record s { send_queue = []; send_pending = false }
send_next (node ∷ queue) s =
    start_write write (all_of node) (record s { send_queue = node ∷ queue })

pub write_front : ℕ → List MsgNode → Session → Option Session
unfolding start_write send_next
write_front bytes_transferred [] s = none
write_front bytes_transferred (front ∷ queue) s =
    let node = record front { cur_len = front.cur_len + bytes_transferred } in
    some (
      if ltb node.cur_len node.total_len
      then start_write write (rest_of node) (record s { send_queue = node ∷ queue })
      else send_next queue s)

pub write_callback : ℕ → ℕ → Session → Option Session
unfolding write_front
write_callback ec bytes_transferred s =
    if ec == 0 then write_front bytes_transferred s.send_queue s else some s

-- WriteToSocket and WriteAllToSocket: both start with the caller's text, and both call
-- WriteCallBack; the second by `async_send`.
pub write_to_socket : Bytes → Session → Session
unfolding start_write write_node
write_to_socket buf s =
    let s' = record s { send_queue = s.send_queue ++ write_node buf (length buf) ∷ [] } in
    if s.send_pending then s' else start_write write buf (record s' { send_pending = true })

pub write_all_to_socket : Bytes → Session → Session
unfolding start_write write_node
write_all_to_socket buf s =
    let s' = record s { send_queue = s.send_queue ++ write_node buf (length buf) ∷ [] } in
    if s.send_pending then s' else start_write write buf (record s' { send_pending = true })

-- WriteAllCallBack, which no operation of the class names as its callback. `pop` of an empty queue
-- is undefined.
pub write_all_callback : ℕ → ℕ → Session → Option Session
unfolding send_next
write_all_callback ec bytes_transferred s =
    if ec == 0
    then elim s.send_queue [ [] ↦ none | front ∷ queue ↦ some (send_next queue s) ]
    else some s

-- ReadCallBack, which does not look at the error.
pub read_callback : ℕ → ℕ → Session → Option Session
unfolding start_read
read_callback ec bytes_transferred s = elim s.recv_node [
  | none ↦ none
  | some before ↦
      let node = record before { cur_len = before.cur_len + bytes_transferred } in
      let s' = record s { recv_node = some node } in
      some (
        if ltb node.cur_len node.total_len
        then start_read node.cur_len (node.total_len - node.cur_len) s'
        else record s' { send_pending = false })
]

pub read_all_callback : ℕ → ℕ → Session → Option Session
read_all_callback ec bytes_transferred s = elim s.recv_node [
  | none ↦ none
  | some before ↦
      let node = record before { cur_len = before.cur_len + bytes_transferred } in
      some (record s { recv_node = some node; send_pending = false })
]

-- ReadFromSocket and ReadAllFromSocket, which differ in the call that reads.
pub read_from_socket : Bytes → Session → Session
unfolding start_read read_node
read_from_socket garbage s =
    if s.recv_pending
    then s
    else start_read 0 recv_size
        (record s { recv_node = some (read_node garbage recv_size); recv_pending = true })

pub read_all_from_socket : Bytes → Session → Session
unfolding start_read read_node
read_all_from_socket garbage s =
    if s.recv_pending
    then s
    else start_read 0 recv_size
        (record s { recv_node = some (read_node garbage recv_size); recv_pending = true })
