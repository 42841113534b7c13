-- ===== src/SessionApi/Invariant.antt =====
-- Every event keeps the queue, the flag and the pending write in agreement, and loses no byte.
use mathlib.Core.Path.{subst}
use cpp_network_programming.Base.{
  ℕ, ◌+◌, ◌≤◌, ◌≡◌, refl, sym, ap, ◌∙◌, Bool, true, false, some, List, [], ◌∷◌, ◌++◌, arith, length,
  length-drop, take, drop, append-nil, append_assoc, Bool-clash,
}
use cpp_network_programming.SessionApi.{
  MsgNode, WriteOp, Session, session, write_front, write_callback, write_to_socket,
  write_all_to_socket,
}
use cpp_network_programming.SessionApi.Writes.{
  Link, run_callback, Step, submit, submit_all, complete, Reach, fresh, next, unsent, Shape, Inv,
}
use cpp_network_programming.SessionApi.Submission.{submit-Inv}
use cpp_network_programming.SessionApi.Delivery.{singleton_split, write_front-Moves}

pub nil_split {ℓ} : {A : Type ℓ} (y : A) (before after : List A) → ¬ ([] ≡ before ++ y ∷ after)
nil_split y [] after e = cc
nil_split y (b ∷ before) after e = cc

complete-Inv :
    (queue : List MsgNode) (before after : List WriteOp) (op : WriteOp) (n : ℕ) (a : Link)
    (s : Session)
    → a.session.send_queue ≡ queue
    → Inv a
    → a.session.writes ≡ before ++ op ∷ after
    → n ≤ length op.buffer
    → run_callback op.callback 0 n (record (a.session) { writes = before ++ after }) ≡ some s
    → Inv (record a { session = s; wire = a.wire ++ take n op.buffer })
unfolding write_callback
complete-Inv [] before after op n a s eq v ew le e =
    let sh = subst (λ q. Shape q a.session.send_pending a.session.writes) eq v.in_order in
    absurd (nil_split op before after (sym sh.1 ∙ ew))
complete-Inv (front ∷ queue) before after op n a s eq v ew le e =
    let sh = subst (λ q. Shape q a.session.send_pending a.session.writes) eq v.in_order in
    let (eb, eo, ea) = singleton_split _ op before after (sym sh.1 ∙ ew) in
    let rest = record (a.session) { writes = before ++ after } in
    let called = subst (λ o. run_callback o.callback 0 n rest ≡ some s) eo e in
    let buffer : op.buffer ≡ drop front.cur_len front.msg = ap (λ o. o.buffer) eo in
    let fits : front.cur_len + n ≤ length front.msg =
      omega (arith, ap length buffer, length-drop front.cur_len front.msg, sh.3) in
    let (ordered, moved) =
      write_front-Moves n front queue rest sh.0 (rw (eb, ea)) sh.2 fits sh.4 s
        (ap (λ q. write_front n q rest) (sym eq) ∙ called) in
    record {
      in_order = ordered;
      conserved =
          append_assoc a.wire (take n op.buffer) (unsent s.send_queue)
          ∙ ap (λ b. a.wire ++ (take n b ++ unsent s.send_queue)) buffer
          ∙ ap (λ xs. a.wire ++ xs) moved
          ∙ ap (λ q. a.wire ++ unsent q) (sym eq)
          ∙ v.conserved;
    }

pub Step-Inv : {a b : Link} → Step a b → Inv a → Inv b
unfolding write_to_socket write_all_to_socket
Step-Inv {a} (submit buf e) v = rw e (submit-Inv buf a _ v refl)
Step-Inv {a} (submit_all buf e) v = rw e (submit-Inv buf a _ v refl)
Step-Inv {a} (complete before after op n s ew le called e) v =
    rw e (complete-Inv a.session.send_queue before after op n a s refl v ew le called)

Reach-Inv : {a : Link} → Reach a → Inv a
unfolding session
Reach-Inv fresh = record { in_order = (refl, refl); conserved = refl }
Reach-Inv (next r st) = Step-Inv st (Reach-Inv r)

Shape-writes :
    (queue : List MsgNode) (pending : Bool) (writes : List WriteOp)
    → Shape queue pending writes
    → (length writes ≤ 1)
      × (pending ≡ true → length writes ≡ 1)
      × (pending ≡ false → unsent queue ≡ [])
Shape-writes [] pending writes h =
    (omega (arith, ap length h.1), λ p. absurd (Bool-clash p h.0), λ p. refl)
Shape-writes (front ∷ queue) pending writes h =
    (omega (arith, ap length h.1), λ p. ap length h.1, λ p. absurd (Bool-clash h.0 p))

-- As long as no write fails, however the system cuts and delays the writes, what it has taken is
-- the beginning of what was submitted, and the queue holds the rest, in order. One write at most
-- is pending, and one is as long as `send_pending_` is set; once it is cleared everything has been
-- taken.
pub delivery :
    {a : Link}
    → Reach a
    → (a.wire ++ unsent a.session.send_queue ≡ a.submitted)
      × (length a.session.writes ≤ 1)
      × (a.session.send_pending ≡ true → length a.session.writes ≡ 1)
      × (a.session.send_pending ≡ false → a.wire ≡ a.submitted)
delivery {a} r =
    let v = Reach-Inv r in
    let (one, busy, idle) =
      Shape-writes a.session.send_queue a.session.send_pending a.session.writes v.in_order in
    (
      v.conserved,
      one,
      busy,
      λ p. sym (append-nil a.wire) ∙ ap (λ xs. a.wire ++ xs) (sym (idle p)) ∙ v.conserved,
    )

callback_defined :
    (queue : List MsgNode) (a : Link) (before after : List WriteOp) (op : WriteOp) (n : ℕ)
    → a.session.send_queue ≡ queue
    → Inv a
    → a.session.writes ≡ before ++ op ∷ after
    → (s : Session) × (run_callback op.callback 0 n
          (record (a.session) { writes = before ++ after })
        ≡ some s)
unfolding write_callback write_front
callback_defined [] a before after op n eq v ew =
    let sh = subst (λ q. Shape q a.session.send_pending a.session.writes) eq v.in_order in
    absurd (nil_split op before after (sym sh.1 ∙ ew))
callback_defined (front ∷ queue) a before after op n eq v ew =
    let sh = subst (λ q. Shape q a.session.send_pending a.session.writes) eq v.in_order in
    let (eb, eo, ea) = singleton_split _ op before after (sym sh.1 ∙ ew) in
    let rest = record (a.session) { writes = before ++ after } in
    (_, ap (λ o. run_callback o.callback 0 n rest) eo ∙ ap (λ q. write_front n q rest) eq)

-- As long as no write fails, whatever was submitted and completed before, the callback of a
-- successful write finds the queue that it needs: `front` is never called on an empty queue.
Reach-callback_defined :
    {a : Link} (before after : List WriteOp) (op : WriteOp) (n : ℕ)
    → Reach a
    → a.session.writes ≡ before ++ op ∷ after
    → (s : Session) × (run_callback op.callback 0 n
          (record (a.session) { writes = before ++ after })
        ≡ some s)
Reach-callback_defined {a} before after op n r ew =
    callback_defined a.session.send_queue a before after op n refl (Reach-Inv r) ew
