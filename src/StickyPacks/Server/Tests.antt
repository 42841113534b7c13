-- ===== src/StickyPacks/Server/Tests.antt =====
-- The sticky packets server at concrete events.
use cpp_network_programming.Base.{
  Bool, List, sym, ℕ, ◌≡◌, refl, false, [], ◌∷◌, ◌++◌, Bytes, codes, map, count, true,
}
use cpp_network_programming.Duplex
use cpp_network_programming.Duplex.Disconnects as DuplexDisconnects
use cpp_network_programming.Duplex.Disconnects.{Sound}
use cpp_network_programming.Duplex.Accepting as Accepting
use cpp_network_programming.StickyPacks.{MsgNode}
use cpp_network_programming.StickyPacks.Server.{
  Session, own_data, accept, read, write, Server, ok, put, add_op, start, send, clear_data,
  handle_read, handle_accept, start_accept, on_read, on_write, is_alive, fill, Source, Op,
  use_after_free,
}
use cpp_network_programming.StickyPacks.Server.Projection.{server, result, op}
use cpp_network_programming.StickyPacks.Server.Refines.{without, accepted, received, booted}
use cpp_network_programming.StickyPacks.Server.Disconnects as Disconnects
use cpp_network_programming.StickyPacks.Server.Disconnects.{
  Event, History, succeeded, disconnected, Event-refines,
}
use cpp_network_programming.StickyPacks.Server.Simulates as Simulates
use cpp_network_programming.StickyPacks.Server.Simulates.{Completes-refines}
use cpp_network_programming.StickyPacks.Server.Freed.{freed_by_read, freed_by_write}

abbrev nobody : ℕ → Session
nobody i = record { uuid = []; data_ = []; send_queue = [] }

-- The member that MsgNode lacks, as the length of the node.
abbrev whole_node : MsgNode → ℕ
whole_node node = node.total_len

abbrev open_server : Server
open_server = handle_accept false (codes "u1") 0 (without (booted nobody (codes "u0")) [])

open_history : History open_server
unfolding start_accept add_op put Duplex.erase
open_history =
    Disconnects.next (Disconnects.boot nobody (codes "u0") (λ i. refl))
      (succeeded (accepted [] [] 0 (codes "u1") refl refl refl))

-- The client disconnects at once.
gone : Event open_server (on_read true [] 0 (without open_server (accept 1 ∷ [])))
unfolding handle_accept start start_accept add_op put
gone = disconnected [] (accept 1 ∷ []) 0 [] refl refl refl

Event-refines_example :
    let r = on_read true [] 0 (without open_server (accept 1 ∷ [])) in
    DuplexDisconnects.History (server whole_node open_server)
    × DuplexDisconnects.Event (server whole_node open_server) (result whole_node r)
    × ((t : Server) × ((r ≡ ok t) × Sound (server whole_node t)))
Event-refines_example = Event-refines whole_node open_history gone

open_runs : Simulates.Runs open_server
unfolding start_accept add_op put
open_runs =
    Simulates.next (Simulates.boot nobody (codes "u0"))
      (Simulates.accepted [] [] 0 false (codes "u1") refl refl)

hung_up : Simulates.Completes open_server (on_read true [] 0 (without open_server (accept 1 ∷ [])))
unfolding handle_accept start start_accept add_op put
hung_up = Simulates.received [] (accept 1 ∷ []) 0 true [] refl refl

Completes-refines_example :
    let r = on_read true [] 0 (without open_server (accept 1 ∷ [])) in
    Accepting.Runs (server whole_node open_server)
    × Accepting.Completes (server whole_node open_server) (result whole_node r)
    × (count Accepting.is_accept (map (op whole_node) open_server.ops) ≡ 1)
Completes-refines_example = Completes-refines whole_node open_runs hung_up

-- "hello" comes, and is being sent back.
got_hello :
    (t : Server) × (on_read false (codes "hello") 0 (without open_server (accept 1 ∷ [])) ≡ ok t)
unfolding on_read start_accept handle_accept is_alive Duplex.held_by add_op put
got_hello = (_, refl)

hello_history : History got_hello.0
unfolding start_accept handle_accept start add_op put
hello_history =
    Disconnects.next open_history
      (succeeded (received [] (accept 1 ∷ []) 0 (codes "hello") refl (sym got_hello.1)))

abbrev writing : List Op
writing = accept 1 ∷ write 0 (own_data 5) ∷ []

freed_by_read_example :
    (t : Server) × (on_read true [] 0 (without got_hello.0 writing) ≡ ok t)
    × ((before : List Op) × (after : List Op) × (source : Source) × (t.ops
          ≡ before ++ write 0 source ∷ after)
        × ((error : Bool) → on_write error 0 (without t (before ++ after)) ≡ use_after_free))
unfolding got_hello on_read handle_read send start clear_data add_op put fill start_accept
    handle_accept
freed_by_read_example = freed_by_read writing [] 0 [] hello_history refl refl

freed_by_write_example :
    (t : Server) × (on_write true 0 (without got_hello.0 (accept 1 ∷ read 0 ∷ [])) ≡ ok t)
    × ((before : List Op) × (after : List Op) × (t.ops ≡ before ++ read 0 ∷ after)
        × ((error : Bool) (bytes : Bytes)
            → on_read error bytes 0 (without t (before ++ after)) ≡ use_after_free))
unfolding got_hello on_read handle_read send start clear_data add_op put fill start_accept
    handle_accept
freed_by_write_example =
    freed_by_write (accept 1 ∷ []) (read 0 ∷ []) 0 (own_data 5) hello_history refl
