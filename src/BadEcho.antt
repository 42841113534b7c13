-- ===== src/BadEcho.antt =====
-- asio/async/01_bad_echo_server: sessions on the heap that delete themselves. Each callback
-- captures `this` alone. Sessions have numbers for addresses; `alive` says which are allocated.
pub mod OneOperation
pub mod Accepting
pub mod Echo
pub mod Tests
use cpp_network_programming.Base.{
  ℕ, zero, suc, ◌+◌, Bool, true, false, List, [], ◌∷◌, ◌++◌, Bytes, length, drop, replicate, ◌==◌,
  if◌then◌else◌,
}

abbrev pub max_length : ℕ
max_length = 1024

-- What is under way: an accept into a session's socket, a read into its `data_`, a write of the
-- first bytes of `data_`.
pub data Op : Type 0 where
  accept : ℕ → Op
  read : ℕ → Op
  write : ℕ → ℕ → Op

pub record Server : Type 0 where
  pub alive : ℕ → Bool
  pub buffers : ℕ → Bytes
  pub next_id : ℕ
  pub ops : List Op

-- Undefined behaviour is the use of a session that was deleted, or its second deletion.
pub data Result : Type 0 where
  ok : Server → Result
  use_after_free double_delete : Result

pub update {ℓ} : {A : Type ℓ} → ℕ → A → (ℕ → A) → ℕ → A
update id a f i = if i == id then a else f i

pub add_op : Op → Server → Server
add_op op s = record s { ops = s.ops ++ op ∷ [] }

-- `delete this`.
pub delete_session : ℕ → Server → Result
unfolding update
delete_session id s =
    if s.alive id then ok (record s { alive = update id false s.alive }) else double_delete

pub start : ℕ → Server → Server
unfolding add_op
start id s = add_op (read id) s

handle_read : Bool → ℕ → ℕ → Server → Result
unfolding add_op delete_session
handle_read true bytes_transfered id s = delete_session id s
handle_read false bytes_transfered id s = ok (add_op (write id bytes_transfered) s)

handle_write : Bool → ℕ → Server → Result
unfolding add_op update delete_session
handle_write true id s = delete_session id s
handle_write false id s =
    ok (add_op (read id) (record s { buffers = update id (replicate max_length 0) s.buffers }))

-- `new CSession(ioc_)`, whose `data_` is initialised with zeros, and the accept into it.
pub start_accept : Server → Server
unfolding add_op update
start_accept s =
    let made = record s {
      alive = update s.next_id true s.alive;
      buffers = update s.next_id (replicate max_length 0) s.buffers;
      next_id = suc s.next_id;
    } in
    add_op (accept s.next_id) made

abbrev and_then : Result → (Server → Server) → Result
and_then (ok s) f = ok (f s)
and_then use_after_free f = use_after_free
and_then double_delete f = double_delete

pub handle_accept : Bool → ℕ → Server → Result
unfolding start start_accept delete_session
handle_accept true id s = and_then (delete_session id s) start_accept
handle_accept false id s = ok (start_accept (start id s))

-- The callbacks, which call the session only if it is there. A read has put its bytes into `data_`.
pub on_accept : Bool → ℕ → Server → Result
unfolding handle_accept
on_accept error id s = if s.alive id then handle_accept error id s else use_after_free

pub fill : ℕ → Bytes → Server → Server
unfolding update
fill id bytes s = record s {
  buffers = update id (bytes ++ drop (length bytes) (s.buffers id)) s.buffers;
}

-- It prints `data_` as a string, which is undefined if no zero byte is in it: AsyncMain has that apart.
pub on_read : Bool → Bytes → ℕ → Server → Result
unfolding handle_read fill
on_read error bytes id s =
    if s.alive id then handle_read error (length bytes) id (fill id bytes s) else use_after_free

pub on_write : Bool → ℕ → Server → Result
unfolding handle_write
on_write error id s = if s.alive id then handle_write error id s else use_after_free

-- The constructor of CServer.
pub boot : Server
unfolding start_accept
boot = start_accept (record { alive = λ i. false; buffers = λ i. []; next_id = 0; ops = [] })
