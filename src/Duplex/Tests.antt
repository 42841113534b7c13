-- ===== src/Duplex/Tests.antt =====
-- The full duplex server at concrete events.
use cpp_network_programming.Base.{
  ℕ, ◌≡◌, refl, sym, Bool, true, false, List, [], ◌∷◌, ◌++◌, arith, Bytes, take, ◌-◌, codes,
  replicate,
}
use cpp_network_programming.Duplex.{
  msg_node, Session, Op, Source, send, accept, read, write, own_data, Server, ok, use_after_free,
  erase, handle_read, start_accept, handle_accept, held_by, is_alive, on_read, on_write,
}
use cpp_network_programming.Duplex.Accepting as Accepting
use cpp_network_programming.Duplex.Buffers.{taken_apart, first_write_torn}
use cpp_network_programming.Duplex.Orderly.{without, accepted, received, booted}
use cpp_network_programming.Duplex.WriteErrors.{write_error_fatal}
use cpp_network_programming.Duplex.Disconnects.{
  succeeded, disconnected, History, boot, next, Sound, History-safe, disconnect_busy,
}

abbrev nobody : ℕ → Session
nobody i = record { uuid = []; data_ = []; send_queue = [] }

-- One client: session 0 is accepted, and session 1 waits for the next.
abbrev first : Server
first = booted nobody (codes "u0")

abbrev open_server : Server
open_server = handle_accept false (codes "u1") 0 (without first [])

open_history : History open_server
unfolding start_accept handle_accept erase
open_history =
    next (boot nobody (codes "u0") (λ i. refl))
      (succeeded (accepted [] [] 0 (codes "u1") refl refl refl))

-- "hello" comes, and is being sent back.
got_hello :
    (t : Server) × (on_read 7 false (codes "hello") 0 (without open_server (accept 1 ∷ [])) ≡ ok t)
unfolding on_read start_accept handle_accept is_alive held_by
got_hello = (_, refl)

hello_history : History got_hello.0
unfolding start_accept handle_accept
hello_history =
    next open_history
      (succeeded (received [] (accept 1 ∷ []) 7 0 (codes "hello") refl (sym got_hello.1)))

-- The client goes away before it has sent anything.
History-safe_example :
    (t : Server) × (on_read 7 true [] 0 (without open_server (accept 1 ∷ [])) ≡ ok t) × Sound t
unfolding start_accept handle_accept
History-safe_example =
    History-safe open_history (disconnected [] (accept 1 ∷ []) 7 0 [] refl refl refl)

abbrev writing : List Op
writing = accept 1 ∷ write 0 (own_data 5) ∷ []

disconnect_busy_example :
    (t : Server) × (on_read 7 true [] 0 (without got_hello.0 writing) ≡ ok t)
    × ((before : List Op) × (after : List Op) × (source : Source) × (t.ops
          ≡ before ++ write 0 source ∷ after)
        × ((error : Bool) → on_write error 0 (without t (before ++ after)) ≡ use_after_free))
unfolding got_hello on_read handle_read send start_accept handle_accept
disconnect_busy_example = disconnect_busy writing [] 7 0 [] hello_history refl refl

write_error_fatal_example :
    (t : Server) × (on_write true 0 (without got_hello.0 (accept 1 ∷ read 0 ∷ [])) ≡ ok t)
    × (held_by 0 t.sessions ≡ false)
    × ((before : List Op) × (after : List Op) × (t.ops ≡ before ++ read 0 ∷ after)
        × ((garbage : ℕ) (error : Bool) (bytes : Bytes)
            → on_read garbage error bytes 0 (without t (before ++ after)) ≡ use_after_free))
unfolding got_hello on_read handle_read send start_accept handle_accept
write_error_fatal_example =
    write_error_fatal (accept 1 ∷ []) (read 0 ∷ []) 0 (own_data 5) hello_history refl

-- Two of the five bytes go out before the buffer is cleared.
first_write_torn_example :
    let t = handle_read 7 false 5 0 open_server in
    (t.ops ≡ (open_server.ops ++ write 0 (own_data 5) ∷ []) ++ read 0 ∷ [])
    × (taken_apart 2 (own_data 5) 0 (send 7 5 0 open_server) t
        ≡ take 2 (take 5 (open_server.objects 0).data_) ++ replicate (5 - 2) 0)
    × ((t.objects 0).send_queue ≡ msg_node 7 (open_server.objects 0).data_ 5 ∷ [])
unfolding start_accept handle_accept
first_write_torn_example = first_write_torn 7 5 0 2 open_server refl (omega arith)

-- The server runs on to the callback of the write.
hello_runs : Accepting.Runs got_hello.0
unfolding start_accept handle_accept
hello_runs =
    Accepting.next
      (Accepting.next (Accepting.boot nobody (codes "u0"))
        (Accepting.accepted [] [] 0 false (codes "u1") refl refl))
      (Accepting.received [] (accept 1 ∷ []) 7 0 false (codes "hello") refl (sym got_hello.1))

pub used_after_free : (t : Server) × Accepting.Runs t × Accepting.Completes t use_after_free
unfolding got_hello on_read handle_read send start_accept handle_accept
used_after_free =
    let (t, e, (before, after, source, at_write, freed)) =
      disconnect_busy writing [] 7 0 [] hello_history refl refl in
    (
      t,
      Accepting.next hello_runs (Accepting.received writing [] 7 0 true [] refl (sym e)),
      Accepting.written before after 0 source false at_write (sym (freed false)),
    )
