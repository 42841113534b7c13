-- ===== src/Duplex.antt =====
-- asio/async/03_full_duplex_server: CSession with its send queue, and CServer, which owns the
-- sessions. asio/async/04_sticky_packs has the same handlers over another MsgNode.
-- The callbacks of a session capture `this` alone, so a session lives as long as `sessions_` holds
-- it (or the accept that created it is pending), and a callback of one that is gone uses freed
-- memory. The bytes of memory that the code does not initialise, and the uuids, are arguments.
pub mod Buffers
pub mod Lifetime
pub mod Keys
pub mod Uuids
pub mod Accepting
pub mod Cleared
pub mod Disconnects
pub mod WriteErrors
pub mod Orderly
pub mod Callbacks
pub mod Written
pub mod Accepts
pub mod Faultless
pub mod Tests
use cpp_network_programming.Base.{
  ℕ, zero, suc, ◌+◌, Bool, true, false, ◌||◌, Option, none, some, List, [], ◌∷◌, ◌++◌, Bytes,
  length, take, drop, replicate, ◌==◌, str_eq, if◌then◌else◌,
}

abbrev pub max_length : ℕ
max_length = 1024

abbrev pub Uuid : Type 0
Uuid = Bytes

pub record MsgNode : Type 0 where
  pub data_ : Bytes
  pub max_len : ℕ

-- `MsgNode(char* msg, int max_len)` copies the message and leaves `max_len_` as it finds it.
unfoldable pub msg_node : ℕ → Bytes → ℕ → MsgNode
msg_node garbage msg max_len = record { data_ = take max_len msg; max_len = garbage }

-- The members of a CSession that its callbacks use.
pub record Session : Type 0 where
  pub uuid : Uuid
  pub data_ : Bytes
  pub send_queue : List MsgNode

-- The memory that an `async_write` reads: the receive buffer of the session, or a node's copy.
pub data Source : Type 0 where
  own_data : ℕ → Source
  node_data : MsgNode → Source

pub data Op : Type 0 where
  accept : ℕ → Op
  read : ℕ → Op
  write : ℕ → Source → Op

-- Sessions have numbers for addresses.
pub record Server : Type 0 where
  pub sessions : List (Uuid × ℕ)
  pub objects : ℕ → Session
  pub next_id : ℕ
  pub ops : List Op

-- Undefined behaviour is `use_after_free`, or `pop_empty` for `pop` of an empty queue.
pub data Result : Type 0 where
  ok : Server → Result
  use_after_free pop_empty : Result

-- `sessions_.erase(uuid)`.
unfoldable pub erase : Uuid → List (Uuid × ℕ) → List (Uuid × ℕ)
erase uuid [] = []
erase uuid ((u, id) ∷ m) = if str_eq u uuid then erase uuid m else (u, id) ∷ erase uuid m

unfoldable pub clear_session : Uuid → Server → Server
clear_session uuid s = record s { sessions = erase uuid s.sessions }

unfoldable pub add_op : Op → Server → Server
add_op op s = record s { ops = s.ops ++ op ∷ [] }

unfoldable pub put : ℕ → Session → Server → Server
put id session s = record s { objects = λ i. if i == id then session else s.objects i }

abbrev pub pending : List MsgNode → Bool
pending [] = false
pending (node ∷ queue) = true

-- `Send(data_, max_length)`, the one call of `Send`.
unfoldable pub send : ℕ → ℕ → ℕ → Server → Server
unfolding add_op put msg_node
send garbage max_len id s =
    let session = s.objects id in
    let node = msg_node garbage session.data_ max_len in
    let s' = put id (record session { send_queue = session.send_queue ++ node ∷ [] }) s in
    if pending session.send_queue then s' else add_op (write id (own_data max_len)) s'

-- `memset(data_, 0, max_length)`.
unfoldable pub clear_data : ℕ → Server → Server
unfolding put
clear_data id s = put id (record (s.objects id) { data_ = replicate max_length 0 }) s

unfoldable pub start : ℕ → Server → Server
unfolding add_op
start id s = add_op (read id) s

unfoldable pub handle_read : ℕ → Bool → ℕ → ℕ → Server → Server
unfolding send clear_data start clear_session
handle_read garbage true n id s = clear_session (s.objects id).uuid s
handle_read garbage false n id s = start id (clear_data id (send garbage n id s))

-- What is written once the first message has gone.
unfoldable pub write_next : ℕ → List MsgNode → Server → Result
unfolding add_op put
write_next id [] s = pop_empty
write_next id (sent ∷ []) s = ok (put id (record (s.objects id) { send_queue = [] }) s)
write_next id (sent ∷ node ∷ queue) s = ok (
    add_op (write id (node_data node))
      (put id (record (s.objects id) { send_queue = node ∷ queue }) s))

unfoldable pub handle_write : Bool → ℕ → Server → Result
unfolding write_next clear_session
handle_write true id s = ok (clear_session (s.objects id).uuid s)
handle_write false id s = write_next id (s.objects id).send_queue s

-- `std::make_shared<CSession>(ioc_, this)` and `async_accept` with its socket.
unfoldable pub start_accept : Uuid → Server → Server
unfolding add_op put
start_accept uuid s =
    let fresh : Session = record { uuid = uuid; data_ = replicate max_length 0; send_queue = [] } in
    let s' = add_op (accept s.next_id) (put s.next_id fresh s) in
    record s' { next_id = suc s.next_id }

-- `sessions_[new_session->uuid()] = new_session`: an old session with that uuid is dropped.
unfoldable pub assign : Uuid → ℕ → List (Uuid × ℕ) → List (Uuid × ℕ)
unfolding erase
assign uuid id m = (uuid, id) ∷ erase uuid m

-- `uuid` is that of the session for the next accept.
unfoldable pub handle_accept : Bool → Uuid → ℕ → Server → Server
unfolding start start_accept assign
handle_accept true uuid id s = start_accept uuid s
handle_accept false uuid id s =
    let s' = start id s in
    start_accept uuid (record s' { sessions = assign (s.objects id).uuid id s.sessions })

-- Whether something owns the session.
unfoldable pub held_by : ℕ → List (Uuid × ℕ) → Bool
held_by id [] = false
held_by id ((u, i) ∷ m) = i == id || held_by id m

unfoldable pub accepting : ℕ → List Op → Bool
accepting id [] = false
accepting id (accept i ∷ ops) = i == id || accepting id ops
accepting id (read i ∷ ops) = accepting id ops
accepting id (write i source ∷ ops) = accepting id ops

unfoldable pub is_alive : ℕ → Server → Bool
is_alive id s = held_by id s.sessions || accepting id s.ops

-- The callback of `async_read_some`, with the bytes that the system put into `data_`. That it prints
-- `data_` as a string, which is undefined if no zero byte is in it, is in AsyncMain.
unfoldable pub on_read : ℕ → Bool → Bytes → ℕ → Server → Result
unfolding put handle_read
on_read garbage error bytes id s =
    let filled = bytes ++ drop (length bytes) (s.objects id).data_ in
    let s' = put id (record (s.objects id) { data_ = filled }) s in
    if is_alive id s then ok (handle_read garbage error (length bytes) id s') else use_after_free

-- The callback of `async_write`.
unfoldable pub on_write : Bool → ℕ → Server → Result
unfolding handle_write
on_write error id s = if is_alive id s then handle_write error id s else use_after_free
