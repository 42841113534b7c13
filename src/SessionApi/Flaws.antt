-- ===== src/SessionApi/Flaws.antt =====
-- What the callbacks of asio/async/00_session_api leave undone: flags that the wrong callback
-- clears, or none does, and the write that starts over.
use cpp_network_programming.Base.{
  ℕ, ◌+◌, ◌-◌, ◌≤◌, ◌≡◌, ◌≢◌, refl, sym, ap, ◌∙◌, true, Option, some, List, [], ◌∷◌, ◌++◌, arith,
  if-ap, if◌then◌else◌, Bytes, length, take, take_all, ltb, ◌>>=◌, if_true, some_inj, >>=-eq-some,
  ◌<◌,
}
use cpp_network_programming.SessionApi.{
  MsgNode, WriteOp, write_err, write, Session, rest_of, start_write, all_of, write_node, send_next,
  write_front, write_callback, write_callback_err, write_to_socket, write_to_socket_err,
  write_all_to_socket, write_all_callback, read_callback, read_all_callback, read_from_socket,
  read_all_from_socket,
}

-- Every operation of the class, with what the system or the caller gives it.
pub data Call : Type 0 where
  sends sends_all sends_err : Bytes → Call
  wrote wrote_all wrote_err got got_all : ℕ → ℕ → Call
  reads_some reads_all : Bytes → Call

unfoldable pub call : Call → Session → Option Session
call (sends buf) s = some (write_to_socket buf s)
call (sends_all buf) s = some (write_all_to_socket buf s)
call (sends_err buf) s = some (write_to_socket_err buf s)
call (wrote ec n) s = write_callback ec n s
call (wrote_all ec n) s = write_all_callback ec n s
call (wrote_err ec n) s = write_callback_err ec n s
call (got ec n) s = read_callback ec n s
call (got_all ec n) s = read_all_callback ec n s
call (reads_some garbage) s = some (read_from_socket garbage s)
call (reads_all garbage) s = some (read_all_from_socket garbage s)

unfoldable pub calls : List Call → Session → Option Session
calls [] s = some s
calls (c ∷ cs) s = call c s >>= λ t. calls cs t

send_next-recv :
    (queue : List MsgNode) (s : Session) → (send_next queue s).recv_pending ≡ s.recv_pending
unfolding send_next
send_next-recv [] s = refl
send_next-recv (node ∷ queue) s = refl

write_front-recv :
    (n : ℕ) (queue : List MsgNode) (s t : Session)
    → write_front n queue s ≡ some t
    → t.recv_pending ≡ s.recv_pending
unfolding write_front
write_front-recv n [] s t e = cc
write_front-recv n (front ∷ queue) s t e = ground (arith, send_next-recv queue s)

write_all_callback-recv :
    (ec n : ℕ) (s t : Session)
    → write_all_callback ec n s ≡ some t
    → t.recv_pending ≡ s.recv_pending
unfolding write_all_callback
write_all_callback-recv ec n s t e = grind (arith, send_next-recv)

call-recv :
    (c : Call) (s t : Session) → call c s ≡ some t → s.recv_pending ≡ true → t.recv_pending ≡ true
unfolding call write_to_socket write_all_to_socket write_to_socket_err read_from_socket
    read_all_from_socket write_callback write_all_callback write_callback_err read_callback
    read_all_callback
call-recv (sends buf) s t e h = ground arith
call-recv (sends_all buf) s t e h = ground arith
call-recv (sends_err buf) s t e h = ground arith
call-recv (wrote ec n) s t e h = ground (arith, write_front-recv n s.send_queue s t)
call-recv (wrote_all ec n) s t e h = write_all_callback-recv ec n s t e ∙ h
call-recv (wrote_err ec n) s t e h = ground arith
call-recv (got ec n) s t e h = ground arith
call-recv (got_all ec n) s t e h = ground arith
call-recv (reads_some g) s t e h = ground arith
call-recv (reads_all g) s t e h = ground arith

-- Once a read has been started no other ever is: no operation clears `recv_pending_`, not even the
-- callback of a read that is complete, and both functions that read return at once.
pub reads_only_once :
    (cs : List Call) (s t : Session) (garbage : Bytes)
    → s.recv_pending ≡ true
    → calls cs s ≡ some t
    → (t.recv_pending ≡ true)
      × (read_from_socket garbage t ≡ t)
      × (read_all_from_socket garbage t ≡ t)
unfolding calls
reads_only_once [] s t garbage h e =
    let ht : t.recv_pending ≡ true = ap (λ u. u.recv_pending) (sym (some_inj e)) ∙ h in
    (
      ht,
      unfold read_from_socket in if_true _ _ _ ht,
      unfold read_all_from_socket in if_true _ _ _ ht,
    )
reads_only_once (c ∷ cs) s t garbage h e =
    let (u, eu, e') = >>=-eq-some (call c s) _ e in
    reads_only_once cs u t garbage (call-recv c s u eu h) e'

-- A read that completes while a message is being sent clears `send_pending_`, and the next message
-- is written beside the one that is under way: two writes are pending on one socket.
pub read_breaks_write :
    (s t : Session) (op : WriteOp) (node : MsgNode) (ec n : ℕ) (buf : Bytes)
    → s.writes ≡ op ∷ []
    → s.recv_node ≡ some node
    → node.total_len ≤ node.cur_len + n
    → read_callback ec n s ≡ some t
    → (write_to_socket buf t).writes ≡ op ∷ record { buffer = buf; callback = write } ∷ []
unfolding read_callback write_to_socket
read_breaks_write s t op node ec n buf w r done e = ground arith

-- The messages that are submitted, one after the other.
pub send_all : List Bytes → Session → Session
send_all [] s = s
send_all (buf ∷ bufs) s = send_all bufs (write_to_socket buf s)

send_all_stuck :
    (bufs : List Bytes) (s : Session)
    → s.send_pending ≡ true
    → s.writes ≡ []
    → (send_all bufs s).writes ≡ []
unfolding send_all write_to_socket
send_all_stuck [] s p w = w
send_all_stuck (buf ∷ bufs) s p w =
    send_all_stuck bufs (write_to_socket buf s) (ground arith) (ground arith)

-- The callback of a write that failed clears no flag and starts nothing, so that no message is ever
-- written again, however many are submitted.
write_error_sticks :
    (bufs : List Bytes) (s t : Session) (ec n : ℕ)
    → ec ≢ 0
    → s.send_pending ≡ true
    → s.writes ≡ []
    → write_callback ec n s ≡ some t
    → (send_all bufs t).writes ≡ []
unfolding write_callback
write_error_sticks bufs s t ec n failed p w e = send_all_stuck bufs t (ground arith) (ground arith)

-- A write that WriteToSocketErr started and that takes a part of the text only is followed by a
-- write of the whole text, not of what is left.
write_err_repeats :
    (buf : Bytes) (n : ℕ) (s : Session)
    → n < length buf
    → s.writes ≡ []
    → (t : Session) × (write_callback_err 0 n (record (write_to_socket_err buf s) { writes = [] })
        ≡ some t)
      × (t.writes ≡ record { buffer = buf; callback = write_err } ∷ [])
unfolding write_callback_err write_to_socket_err rest_of
write_err_repeats buf n s partial w =
    let shorter : ltb (n + 0) (length buf) ≡ true = ground arith in
    let copied : take (length buf) buf ≡ buf = take_all (length buf) buf (omega arith) in
    let whole : take (length buf - 0) buf ≡ buf = take_all (length buf - 0) buf (omega arith) in
    (
      _,
      ap some (if_true _ _ _ shorter),
      ap (λ b. record { buffer = b; callback = write_err } ∷ [])
          (ap (take (length buf - 0)) copied ∙ whole),
    )

abbrev pub err_op : Bytes → WriteOp
err_op buf = record { buffer = buf; callback = write_err }

write_to_socket_err-writes :
    (buf : Bytes) (s : Session) → (write_to_socket_err buf s).writes ≡ s.writes ++ err_op buf ∷ []
unfolding write_to_socket_err start_write all_of write_node
write_to_socket_err-writes buf s =
    let copied : take (length buf) buf ≡ buf = take_all (length buf) buf (omega arith) in
    ap (λ b. s.writes ++ err_op b ∷ []) (ap (take (length buf)) copied ∙ copied)

-- Two texts that are given to WriteToSocketErr one after the other: when the first write has taken
-- `n` bytes, the callback looks at the second text, and writes that once more if it is longer than
-- `n`. What is left of the first text is in no write.
pub write_err_mixes :
    (buf buf' : Bytes) (n : ℕ) (s : Session)
    → s.writes ≡ []
    → let t = write_to_socket_err buf' (write_to_socket_err buf s) in
      (t.writes ≡ err_op buf ∷ err_op buf' ∷ [])
      × ((u : Session) × ((write_callback_err 0 n (record t { writes = err_op buf' ∷ [] }) ≡ some u)
            × (u.writes ≡ err_op buf' ∷ (if ltb n (length buf') then err_op buf' ∷ [] else []))))
unfolding write_callback_err write_to_socket_err write_node rest_of start_write
write_err_mixes buf buf' n s w =
    let size = length buf' in
    let t = write_to_socket_err buf' (write_to_socket_err buf s) in
    let again = λ (b : Bytes). err_op buf' ∷ err_op b ∷ [] in
    let copied : take size buf' ≡ buf' = take_all size buf' (omega arith) in
    let whole : take (size - 0) buf' ≡ buf' = take_all (size - 0) buf' (omega arith) in
    (
      write_to_socket_err-writes buf' (write_to_socket_err buf s)
          ∙ ap (λ ws. ws ++ err_op buf' ∷ []) (write_to_socket_err-writes buf s)
          ∙ ap (λ ws. (ws ++ err_op buf ∷ []) ++ err_op buf' ∷ []) w,
      (
        _,
        (
          refl,
          if-ap (λ (u : Session). u.writes) (ltb (n + 0) size) _
                (record t { writes = err_op buf' ∷ [] })
              ∙ ap (λ b. if ltb (n + 0) size then again b else err_op buf' ∷ [])
                  (ap (take (size - 0)) copied ∙ whole)
              ∙ ap (λ k. if ltb k size then again buf' else err_op buf' ∷ [])
                  (let e : n + 0 ≡ n = omega arith in e)
              ∙ sym (if-ap (λ ws. err_op buf' ∷ ws) (ltb n size) (err_op buf' ∷ []) []),
        ),
      ),
    )
