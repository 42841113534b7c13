-- ===== src/SessionApi/Memory/Callbacks.antt =====
-- Where the pending write of a session of asio/async/00_session_api reads, after a callback.
use mathlib.Core.Path.{subst}
use cpp_network_programming.Base.{
  ℕ, suc, ◌+◌, ◌-◌, ◌≤◌, ◌≡◌, inl, inr, refl, sym, ap, ◌∙◌, true, some, some_inj, List, [], ◌∷◌,
  arith, length, length-drop, drop, ltb, ◌==◌, if_true, if_false, Bool-cases, Bool-clash,
}
use cpp_network_programming.SessionApi.{
  MsgNode, WriteOp, write, rest_of, all_of, Session, start_write, send_next, write_front,
  write_callback,
}
use cpp_network_programming.SessionApi.Memory.{node, Memory, left_ids, front_place, called_back}
use cpp_network_programming.SessionApi.Memory.Places.{Pending, Inv, no_ids, some_id, zero_diff}

-- The session without its write, whose callback runs.
unfoldable pub taken_out : Memory → Session
taken_out m = record (m.session) { writes = [] }

-- A callback that starts the write of the front node.
started-Inv :
    (m : Memory) (t : Session) (op : WriteOp) (id : ℕ) (ids : List ℕ)
    → t.writes ≡ op ∷ []
    → op.callback ≡ write
    → t.send_pending ≡ true
    → left_ids (taken_out m) t m.queue_ids ≡ id ∷ ids
    → suc (length ids) ≡ length t.send_queue
    → Inv (called_back (taken_out m) t [] m)
unfolding taken_out
started-Inv m t op id ids one own busy left same =
    let started : ltb 0 (length t.writes) ≡ true =
      ap (λ (ws : List WriteOp). ltb 0 (length ws)) one in
    record {
      numbered = ap length left ∙ same;
      idle = λ quiet. absurd (Bool-clash busy quiet);
      shape = inr (record {
        op = op;
        id = id;
        ids = ids;
        place = node id;
        writes = one;
        callback = own;
        flag = busy;
        queued = left;
        at = if_true _ _ _ started ∙ ap front_place left;
        front = inl refl;
      });
    }

none_left : (k : ℕ) (ids : List ℕ) → length ids ≤ k → drop k ids ≡ []
none_left k ids h = no_ids (drop k ids) (omega (arith, h, length-drop k ids))

failed-Inv :
    (m : Memory)
    → m.session.send_pending ≡ true
    → Inv m
    → Inv (called_back (taken_out m) (taken_out m) [] m)
unfolding taken_out
failed-Inv m busy v =
    let all = ap (λ k. drop k m.queue_ids) (zero_diff (length m.session.send_queue)) in
    record {
      numbered = ap length all ∙ v.numbered;
      idle = λ quiet. absurd (Bool-clash busy quiet);
      shape = inl (refl, refl);
    }

more-Inv :
    (m : Memory) (front : MsgNode) (queue : List MsgNode) (front' : MsgNode) (p : Pending m)
    → Inv m
    → m.session.send_queue ≡ front ∷ queue
    → Inv (
        called_back
          (taken_out m)
          (start_write write
            (rest_of front')
            (record (taken_out m) { send_queue = front' ∷ queue }))
          []
          m)
unfolding taken_out start_write
more-Inv m front queue front' p v q =
    started-Inv m _ (record { buffer = rest_of front'; callback = write }) p.id p.ids refl refl
      p.flag
      (ap (λ k. drop k m.queue_ids)
          (ap (λ (xs : List MsgNode). length xs - suc (length queue)) q
            ∙ zero_diff (suc (length queue)))
        ∙ p.queued)
      (sym (ap length p.queued) ∙ v.numbered ∙ ap length q)

last-Inv :
    (m : Memory) (front : MsgNode) (queue : List MsgNode) (p : Pending m)
    → Inv m
    → m.session.send_queue ≡ front ∷ queue
    → Inv (called_back (taken_out m) (send_next queue (taken_out m)) [] m)
unfolding taken_out send_next start_write
last-Inv m front [] p v q = record {
  numbered =
      ap length
        (none_left (length m.session.send_queue - 0) m.queue_ids (omega (arith, v.numbered)));
  idle = λ quiet. (refl, refl);
  shape = inl (refl, refl);
}
last-Inv m front (behind ∷ queue) p v q =
    let count : length p.ids ≡ suc (length queue) =
      omega (arith, v.numbered, ap length p.queued, ap length q) in
    let (id, ids, more) = some_id p.ids (length queue) count in
    let one_less : length m.session.send_queue - suc (length queue) ≡ 1 =
      omega (arith, ap length q) in
    started-Inv m _ (record { buffer = all_of behind; callback = write }) id ids refl refl p.flag
      (ap (λ k. drop k m.queue_ids) one_less ∙ ap (drop 1) p.queued ∙ more)
      (sym (ap length more) ∙ count)

front-Inv :
    (n : ℕ) (queue : List MsgNode) (m : Memory) (t : Session) (p : Pending m)
    → Inv m
    → m.session.send_queue ≡ queue
    → write_front n queue (taken_out m) ≡ some t
    → Inv (called_back (taken_out m) t [] m)
unfolding write_front
front-Inv n [] m t p v q e = cc
front-Inv n (front ∷ queue) m t p v q e =
    subst (λ u. Inv (called_back (taken_out m) u [] m)) (some_inj e)
      (elim (Bool-cases (ltb (front.cur_len + n) front.total_len)) [
        | inl more ↦
            subst (λ u. Inv (called_back (taken_out m) u [] m)) (sym (if_true _ _ _ more))
              (more-Inv m front queue (record front { cur_len = front.cur_len + n }) p v q)
        | inr last ↦
            subst (λ u. Inv (called_back (taken_out m) u [] m)) (sym (if_false _ _ _ last))
              (last-Inv m front queue p v q)
      ])

pub callback-Inv :
    (ec n : ℕ) (m : Memory) (t : Session) (p : Pending m)
    → Inv m
    → write_callback ec n (taken_out m) ≡ some t
    → Inv (called_back (taken_out m) t [] m)
unfolding write_callback taken_out
callback-Inv ec n m t p v e = elim (Bool-cases (ec == 0)) [
  | inl fine ↦ front-Inv n m.session.send_queue m t p v refl (sym (if_true _ _ _ fine) ∙ e)
  | inr failed ↦
      subst (λ u. Inv (called_back (taken_out m) u [] m))
        (some_inj (sym (if_false _ _ _ failed) ∙ e)) (failed-Inv m p.flag v)
]
