-- ===== src/StickyPacks/Server.antt =====
-- CSession and CServer of asio/async/04_sticky_packs. A session queues nodes that carry the length
-- in front; what it does besides is what 03_full_duplex_server does.
pub mod Projection
pub mod Refines
pub mod Simulates
pub mod Disconnects
pub mod Freed
pub mod Frames
pub mod Tests
use cpp_network_programming.Base.{
  ℕ, suc, Bool, true, false, ◌||◌, List, [], ◌∷◌, ◌++◌, Bytes, length, drop, replicate, ◌==◌,
  if◌then◌else◌,
}
use cpp_network_programming.Duplex.{Uuid, erase, held_by}
use cpp_network_programming.StickyPacks.{MsgNode, send_node}

abbrev pub max_length : ℕ
max_length = 1024

pub record Session : Type 0 where
  pub uuid : Uuid
  pub data_ : Bytes
  pub send_queue : List MsgNode

-- The memory that an `async_write` reads: so many bytes of the receive buffer, or a node's data, of
-- which `HandleWrite` names `max_len_` bytes, a member that MsgNode does not have.
pub data Source : Type 0 where
  own_data : ℕ → Source
  node_data : MsgNode → Source

pub data Op : Type 0 where
  accept read : ℕ → Op
  write : ℕ → Source → Op

pub record Server : Type 0 where
  pub sessions : List (Uuid × ℕ)
  pub objects : ℕ → Session
  pub next_id : ℕ
  pub ops : List Op

pub data Result : Type 0 where
  ok : Server → Result
  use_after_free pop_empty : Result

pub clear_session : Uuid → Server → Server
clear_session uuid s = record s { sessions = erase uuid s.sessions }

pub add_op : Op → Server → Server
add_op op s = record s { ops = s.ops ++ op ∷ [] }

pub put : ℕ → Session → Server → Server
put id session s = record s { objects = λ i. if i == id then session else s.objects i }

abbrev pub pending : List MsgNode → Bool
pending [] = false
pending (node ∷ queue) = true

-- `Send(data_, max_length)`.
pub send : ℕ → ℕ → Server → Server
send max_len id s =
    let session = s.objects id in
    let node = send_node session.data_ max_len in
    let s' = put id (record session { send_queue = session.send_queue ++ node ∷ [] }) s in
    if pending session.send_queue then s' else add_op (write id (own_data max_len)) s'

pub clear_data : ℕ → Server → Server
clear_data id s = put id (record (s.objects id) { data_ = replicate max_length 0 }) s

pub start : ℕ → Server → Server
start id s = add_op (read id) s

pub handle_read : Bool → ℕ → ℕ → Server → Server
handle_read true n id s = clear_session (s.objects id).uuid s
handle_read false n id s = start id (clear_data id (send n id s))

-- What is written once the first message has gone.
pub write_next : ℕ → List MsgNode → Server → Result
write_next id [] s = pop_empty
write_next id (sent ∷ []) s = ok (put id (record (s.objects id) { send_queue = [] }) s)
write_next id (sent ∷ node ∷ queue) s = ok (
    add_op (write id (node_data node))
      (put id (record (s.objects id) { send_queue = node ∷ queue }) s))

pub handle_write : Bool → ℕ → Server → Result
handle_write true id s = ok (clear_session (s.objects id).uuid s)
handle_write false id s = write_next id (s.objects id).send_queue s

pub start_accept : Uuid → Server → Server
start_accept uuid s =
    let fresh : Session = record { uuid = uuid; data_ = replicate max_length 0; send_queue = [] } in
    let s' = add_op (accept s.next_id) (put s.next_id fresh s) in
    record s' { next_id = suc s.next_id }

-- `uuid` is that of the session for the next accept.
pub handle_accept : Bool → Uuid → ℕ → Server → Server
handle_accept true uuid id s = start_accept uuid s
handle_accept false uuid id s =
    let own = (s.objects id).uuid in
    let s' = start id s in
    start_accept uuid (record s' { sessions = (own, id) ∷ erase own s.sessions })

pub accepting : ℕ → List Op → Bool
accepting id [] = false
accepting id (accept i ∷ ops) = i == id || accepting id ops
accepting id (read i ∷ ops) = accepting id ops
accepting id (write i source ∷ ops) = accepting id ops

pub is_alive : ℕ → Server → Bool
is_alive id s = held_by id s.sessions || accepting id s.ops

-- The callback of `async_read_some`, with the bytes that the system put into `data_`.
pub fill : ℕ → Bytes → Server → Server
fill id bytes s =
    put id (record (s.objects id) { data_ = bytes ++ drop (length bytes) (s.objects id).data_ }) s

-- That it prints `data_` as a string, which is undefined if no zero byte is in it, is in AsyncMain.
pub on_read : Bool → Bytes → ℕ → Server → Result
on_read error bytes id s =
    if is_alive id s
    then ok (handle_read error (length bytes) id (fill id bytes s))
    else use_after_free

-- The callback of `async_write`.
pub on_write : Bool → ℕ → Server → Result
on_write error id s = if is_alive id s then handle_write error id s else use_after_free
