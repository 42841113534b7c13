-- ===== src/SessionApi/Mixed/Tests.antt =====
-- A session that reads while it writes.
use cpp_network_programming.Base.{
  ℕ, ◌+◌, ◌≤◌, ◌<◌, ◌≡◌, refl, some, List, [], Bytes, codes, length, replicate, length-replicate,
}
use cpp_network_programming.SessionApi.{
  MsgNode, ReadOp, Session, recv_size, read_callback, session, write_to_socket, read_from_socket,
}
use cpp_network_programming.SessionApi.Reads.{store}
use cpp_network_programming.SessionApi.Flaws.{sends, reads_some, call}
use cpp_network_programming.SessionApi.Mixed.{called, Runs, fresh, next}
use cpp_network_programming.SessionApi.Mixed.Bounds.{reads_in_bounds, failed_read_spins}

garbage : Bytes
garbage = replicate recv_size 0

abbrev both : Session
both = read_from_socket garbage (write_to_socket (codes "hello") session)

abbrev whole_read : ReadOp
whole_read = record { offset = 0; size = recv_size }

both_runs : Runs both
unfolding garbage call
both_runs =
    next (next fresh (called (sends (codes "hello")) tt refl))
      (called (reads_some garbage) (length-replicate {A = ℕ} recv_size 0) refl)

reads_in_bounds_example :
    (◌≡◌ {A = List ReadOp} [] [])
    × ((node : MsgNode) × (both.recv_node ≡ some node)
        × (0 ≡ node.cur_len)
        × (0 < recv_size)
        × (0 + recv_size ≤ length node.msg))
    × ((t : Session) × (read_callback 0 2
            (store whole_read (codes "ab") (record both { reads = [] }))
          ≡ some t))
unfolding write_to_socket read_from_socket session
reads_in_bounds_example = reads_in_bounds whole_read [] 0 (codes "ab") both_runs refl

-- The peer closes the connection: error 2.
failed_read_spins_example : read_callback 2 0 (record both { reads = [] }) ≡ some both
unfolding write_to_socket read_from_socket session
failed_read_spins_example = failed_read_spins whole_read [] 2 both_runs refl
