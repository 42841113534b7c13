-- ===== src/GoodEcho.antt =====
-- asio/async/02_good_echo_server: sessions in a map of shared pointers. The callback of a session's
-- first read captures `this` alone and asks for a shared pointer when it runs; the others hold one.
pub mod Reachable
pub mod NoEcho
pub mod Accepting
pub mod Tests
use cpp_network_programming.Base.{
  ℕ, suc, Bool, true, false, ◌||◌, List, [], ◌∷◌, ◌++◌, Bytes, length, drop, replicate, ◌==◌,
  if◌then◌else◌,
}
use cpp_network_programming.Duplex.{Uuid, erase, held_by}

abbrev max_length : ℕ
max_length = 1024

-- What is under way: an accept, the first read, a read or a write whose callback holds the session.
pub data Op : Type 0 where
  accept first_read read : ℕ → Op
  write : ℕ → ℕ → Op

pub record Session : Type 0 where
  pub uuid : Uuid
  pub data_ : Bytes

pub record Server : Type 0 where
  pub sessions : List (Uuid × ℕ)
  pub objects : ℕ → Session
  pub next_id : ℕ
  pub ops : List Op

-- `bad_weak_ptr` is the exception, which leaves `ioc.run()` and ends the program.
pub data Result : Type 0 where
  ok : Server → Result
  use_after_free bad_weak_ptr : Result

pub add_op : Op → Server → Server
add_op op s = record s { ops = s.ops ++ op ∷ [] }

pub put : ℕ → Session → Server → Server
put id session s = record s { objects = λ i. if i == id then session else s.objects i }

clear_session : Uuid → Server → Server
clear_session uuid s = record s { sessions = erase uuid s.sessions }

pub start : ℕ → Server → Server
unfolding add_op
start id s = add_op (first_read id) s

handle_read : Bool → ℕ → ℕ → Server → Server
unfolding add_op clear_session
handle_read true bytes_transfered id s = clear_session (s.objects id).uuid s
handle_read false bytes_transfered id s = add_op (write id bytes_transfered) s

handle_write : Bool → ℕ → Server → Server
unfolding add_op put clear_session
handle_write true id s = clear_session (s.objects id).uuid s
handle_write false id s =
    add_op (read id) (put id (record (s.objects id) { data_ = replicate max_length 0 }) s)

pub start_accept : Uuid → Server → Server
unfolding add_op put
start_accept uuid s =
    let fresh : Session = record { uuid = uuid; data_ = replicate max_length 0 } in
    let s' = add_op (accept s.next_id) (put s.next_id fresh s) in
    record s' { next_id = suc s.next_id }

-- `uuid` is that of the session for the next accept.
pub handle_accept : Bool → Uuid → ℕ → Server → Server
unfolding start start_accept
handle_accept true uuid id s = start_accept uuid s
handle_accept false uuid id s =
    let own = (s.objects id).uuid in
    let s' = start id s in
    start_accept uuid (record s' { sessions = (own, id) ∷ erase own s.sessions })

-- Whether a callback that has not run yet holds the session.
abbrev held_by_op : ℕ → List Op → Bool
held_by_op id [] = false
held_by_op id (accept i ∷ ops) = i == id || held_by_op id ops
held_by_op id (first_read i ∷ ops) = held_by_op id ops
held_by_op id (read i ∷ ops) = i == id || held_by_op id ops
held_by_op id (write i n ∷ ops) = i == id || held_by_op id ops

pub is_alive : ℕ → Server → Bool
is_alive id s = held_by id s.sessions || held_by_op id s.ops

fill : ℕ → Bytes → Server → Server
unfolding put
fill id bytes s =
    put id (record (s.objects id) { data_ = bytes ++ drop (length bytes) (s.objects id).data_ }) s

-- `shared_from_this()`, and what is done with the pointer. The base class is private, so that
-- std::make_shared cannot set the weak pointer up; then the call throws.
abbrev weak_is_set : Bool
weak_is_set = false

pub shared_from_this : Server → Result
shared_from_this s = if weak_is_set then ok s else bad_weak_ptr

abbrev and_then : Result → (Server → Server) → Result
and_then (ok s) f = ok (f s)
and_then use_after_free f = use_after_free
and_then bad_weak_ptr f = bad_weak_ptr

-- The callback that `Start` makes.
pub on_first_read : Bool → Bytes → ℕ → Server → Result
unfolding shared_from_this handle_read
on_first_read error bytes id s =
    if is_alive id s
    then and_then (shared_from_this (fill id bytes s)) (handle_read error (length bytes) id)
    else use_after_free

-- The callback that `HandleWrite` makes.
abbrev pub on_read : Bool → Bytes → ℕ → Server → Result
unfolding fill handle_read
on_read error bytes id s = ok (handle_read error (length bytes) id (fill id bytes s))

-- The callback that `HandleRead` makes.
abbrev pub on_write : Bool → ℕ → Server → Result
unfolding handle_write
on_write error id s = ok (handle_write error id s)
