-- ===== src/SessionApi/Memory/Tests.antt =====
-- The memory of a session at concrete texts.
use cpp_network_programming.Base.{
  ◌≡◌, ◌≤◌, refl, some, [], ◌∷◌, ◌++◌, codes, length, All, true, false, arith,
}
use cpp_network_programming.SessionApi.{
  write, Session, session, write_callback, write_callback_err, write_to_socket, write_to_socket_err,
}
use cpp_network_programming.SessionApi.Memory.{
  caller, node, Memory, empty, submit, submit_err, is_alive, Reach, fresh, next, sends, completed,
}
use cpp_network_programming.SessionApi.Memory.Lives.{IsFront, places_live}
use cpp_network_programming.SessionApi.Memory.Freed.{err_node_freed, err_completed}

abbrev hello_sent : Memory
hello_sent = submit (write_to_socket (codes "hello")) empty

-- The first write reads the caller's text.
from_caller : hello_sent.places ≡ caller 0 ∷ []
unfolding write_to_socket session
from_caller = refl

-- The system takes two bytes: what is left is read from the node.
two_taken : (m : Memory) × Reach m × (m.places ≡ node 0 ∷ [])
unfolding write_to_socket session write_callback
two_taken = (
  _,
  next (next fresh (sends (codes "hello") refl)) (
      completed [] [] (record { buffer = codes "hello"; callback = write }) [] [] (caller 0) 0 2 _
        refl refl refl refl refl),
  refl,
)

places_live_example :
    (length two_taken.0.queue_ids ≡ length two_taken.0.session.send_queue)
    × (length two_taken.0.places ≡ length two_taken.0.session.writes)
    × (length two_taken.0.places ≤ 1)
    × All (IsFront two_taken.0) two_taken.0.places
places_live_example = places_live two_taken.1

err_node_freed_example :
    let t = submit_err (codes "world") (submit_err (codes "hello") empty) in
    (t.places ≡ ([] ++ node 0 ∷ []) ++ node 1 ∷ [])
    × (length t.places ≡ length t.session.writes)
    × (is_alive 0 (submit_err (codes "hello") empty) ≡ true)
    × (is_alive 0 t ≡ false)
    × (is_alive 1 t ≡ true)
    × ((s : Session) × (write_callback_err 0 2
            (record (write_to_socket_err (codes "hello") session) { writes = session.writes })
          ≡ some s)
        × (is_alive 0 (submit_err (codes "world") (err_completed (codes "hello") empty s)) ≡ true))
err_node_freed_example = err_node_freed (codes "hello") (codes "world") 2 fresh (omega arith)
