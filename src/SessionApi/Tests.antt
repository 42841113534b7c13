-- ===== src/SessionApi/Tests.antt =====
-- A session of asio/async/00_session_api at concrete messages and completions.
use cpp_network_programming.Base.{
  ℕ, ◌+◌, ◌≤◌, ◌≡◌, refl, true, false, some, [], ◌∷◌, ◌++◌, arith, Bytes, codes, length, replicate,
  length-replicate, IsPrefix, ltb, if◌then◌else◌,
}
use cpp_network_programming.SessionApi.{
  MsgNode, write, Session, recv_size, session, write_callback, write_callback_err, write_to_socket,
  write_to_socket_err, read_callback, read_from_socket, read_all_from_socket,
}
use cpp_network_programming.SessionApi.Writes.{
  Link, run_callback, submit, complete, Reach, fresh, next, unsent,
}
use cpp_network_programming.SessionApi.Invariant.{delivery}
use cpp_network_programming.SessionApi.Failures.{History, succeed, fail, wire-IsPrefix}
use cpp_network_programming.SessionApi.Reads.{joined, receive, Received, read_from_socket-Received}
use cpp_network_programming.SessionApi.Flaws.{
  got, call, calls, reads_only_once, read_breaks_write, write_err_mixes, err_op,
}

abbrev hello : Bytes
hello = codes "hello"

-- Two messages are submitted, and the first two bytes are taken.
abbrev link1 : Link
link1 = record { session = write_to_socket hello session; wire = []; submitted = hello }

abbrev link2 : Link
link2 = record {
  session = write_to_socket (codes "!") link1.session;
  wire = [];
  submitted = hello ++ codes "!";
}

reach2 : Reach link2
reach2 = next (next fresh (submit hello refl)) (submit (codes "!") refl)

two_written :
    (s : Session) × (run_callback write 0 2 (record (link2.session) { writes = [] }) ≡ some s)
unfolding write_to_socket session write_callback
two_written = (_, refl)

abbrev link3 : Link
link3 = record link2 { session = two_written.0; wire = codes "he" }

reach3 : Reach link3
unfolding write_to_socket session
reach3 = next reach2 (
    complete [] [] (record { buffer = hello; callback = write }) 2 two_written.0 refl (omega arith)
      two_written.1 refl)

delivery_example :
    (codes "he" ++ unsent link3.session.send_queue ≡ hello ++ codes "!")
    × (length link3.session.writes ≤ 1)
    × (link3.session.send_pending ≡ true → length link3.session.writes ≡ 1)
    × (link3.session.send_pending ≡ false → codes "he" ≡ hello ++ codes "!")
delivery_example = delivery reach3

garbage : Bytes
garbage = replicate recv_size 0

garbage-length : length garbage ≡ recv_size
unfolding garbage
garbage-length = length-replicate {A = ℕ} recv_size 0

read_from_socket-Received_example :
    (t : Session) × (receive (codes "ab" ∷ codes "c" ∷ []) (read_from_socket garbage session)
      ≡ some t)
    × Received (joined (codes "ab" ∷ codes "c" ∷ [])) t
unfolding session
read_from_socket-Received_example =
    read_from_socket-Received (codes "ab" ∷ codes "c" ∷ []) garbage session refl refl garbage-length
      (omega arith)

-- A read of one byte has come in whole while the message "hello" is being sent.
abbrev almost_read : MsgNode
almost_read = record { msg = codes "x"; total_len = 1; cur_len = 0 }

abbrev both_ways : Session
both_ways = record (write_to_socket hello session) {
  recv_node = some almost_read;
  recv_pending = true;
}

abbrev read_over : Session
read_over = record both_ways {
  recv_node = some (record almost_read { cur_len = 0 + 1 });
  send_pending = false;
}

read_breaks_write_example :
    (write_to_socket (codes "!") read_over).writes
    ≡ record { buffer = hello; callback = write }
      ∷ record { buffer = codes "!"; callback = write }
      ∷ []
unfolding write_to_socket session read_callback
read_breaks_write_example =
    read_breaks_write both_ways read_over (record { buffer = hello; callback = write }) almost_read
      0 1 (codes "!") refl refl (omega arith) refl

reads_only_once_example :
    (read_over.recv_pending ≡ true)
    × (read_from_socket garbage read_over ≡ read_over)
    × (read_all_from_socket garbage read_over ≡ read_over)
unfolding write_to_socket session read_callback calls call
reads_only_once_example = reads_only_once (got 0 1 ∷ []) both_ways read_over garbage refl refl

-- The write of "hello" fails with error 104.
abbrev broken : Session
broken = record (write_to_socket hello session) { writes = [] }

write_err_mixes_example :
    let t = write_to_socket_err (codes "!") (write_to_socket_err hello session) in
    (t.writes ≡ err_op hello ∷ err_op (codes "!") ∷ [])
    × ((u : Session) × ((write_callback_err 0 2 (record t { writes = err_op (codes "!") ∷ [] })
            ≡ some u)
          × (u.writes
              ≡ err_op (codes "!")
                ∷ (if ltb 2 (length (codes "!")) then err_op (codes "!") ∷ [] else []))))
unfolding session
write_err_mixes_example = write_err_mixes hello (codes "!") 2 session refl

-- The write of the first message fails after two bytes.
abbrev stuck : Link
stuck = record link1 { session = record (link1.session) { writes = [] }; wire = codes "he" }

stuck_history : History stuck
unfolding write_to_socket session write_callback
stuck_history = History.next (History.next History.fresh (succeed (submit hello refl))) (
    fail [] [] (record { buffer = hello; callback = write }) 104 2 (stuck.session)
      (λ e. absurd (omega (arith, e))) refl (omega arith) refl refl)

wire-IsPrefix_example : IsPrefix (codes "he") hello × (length stuck.session.writes ≤ 1)
wire-IsPrefix_example = wire-IsPrefix stuck_history
