-- ===== src/SessionApi/Failures.antt =====
-- Histories in which writes fail.
use mathlib.Core.Path.{subst}
use cpp_network_programming.Base.{
  ℕ, ◌≤◌, ◌≡◌, ◌≢◌, ◌⊎◌, inl, inr, refl, sym, ap, ◌∙◌, true, Bool, some, some_inj, List, [], ◌∷◌,
  ◌++◌, arith, Bytes, length, take, drop, append_assoc, IsPrefix, ◌==◌, ==_iff, if_false,
  Bool-cases,
}
use cpp_network_programming.SessionApi.{
  MsgNode, WriteOp, Session, session, write_callback, write_to_socket, write_all_to_socket,
}
use cpp_network_programming.SessionApi.Writes.{
  Link, run_callback, Step, submit, submit_all, complete, messages, unsent, Shape, Inv,
}
use cpp_network_programming.SessionApi.Delivery.{singleton_split, split_at}
use cpp_network_programming.SessionApi.Invariant.{nil_split, Step-Inv}

-- A pending write may also fail, and the system may have taken a part of its buffer by then.
pub data Event (a b : Link) : Type 0 where
  succeed : Step a b → Event a b
  fail :
      (before after : List WriteOp) (op : WriteOp) (ec n : ℕ) (s : Session)
      → ec ≢ 0
      → a.session.writes ≡ before ++ op ∷ after
      → n ≤ length op.buffer
      → run_callback op.callback ec n (record (a.session) { writes = before ++ after }) ≡ some s
      → b ≡ record a { session = s; wire = a.wire ++ take n op.buffer }
      → Event a b

pub data History : Link → Type 0 where
  fresh : History (record { session = session; wire = []; submitted = [] })
  next : {a b : Link} → History a → Event a b → History b

-- After a failure: nothing is being written, and the flag keeps everything from being written.
record Stuck (a : Link) : Type 0 where
  pending : a.session.send_pending ≡ true
  idle : a.session.writes ≡ []
  began : IsPrefix a.wire a.submitted

IsPrefix-append : (xs ys zs : Bytes) → IsPrefix xs ys → IsPrefix xs (ys ++ zs)
IsPrefix-append xs ys zs h = (h.0 ++ zs, sym (append_assoc xs h.0 zs) ∙ ap (λ a. a ++ zs) h.1)

callback_failed : (ec n : ℕ) (s t : Session) → ec ≢ 0 → write_callback ec n s ≡ some t → t ≡ s
unfolding write_callback
callback_failed ec n s t failed e = elim (Bool-cases (ec == 0)) [
  | inl zero ↦ absurd (failed ((==_iff ec 0).0 zero))
  | inr other ↦ some_inj (sym e ∙ if_false _ _ _ other)
]

submit-Stuck :
    (buf : Bytes) (a : Link) (s : Session)
    → Stuck a
    → s.send_pending ≡ true
    → s.writes ≡ []
    → Stuck (record a { session = s; submitted = a.submitted ++ buf })
submit-Stuck buf a s v pending idle = record {
  pending = pending;
  idle = idle;
  began = IsPrefix-append a.wire a.submitted buf v.began;
}

Step-Stuck : {a b : Link} → Step a b → Stuck a → Stuck b
unfolding write_to_socket write_all_to_socket
Step-Stuck {a} (submit buf e) v =
    subst Stuck (sym e)
      (submit-Stuck buf a _ v (ground (arith, v.pending)) (ground (arith, v.pending, v.idle)))
Step-Stuck {a} (submit_all buf e) v =
    subst Stuck (sym e)
      (submit-Stuck buf a _ v (ground (arith, v.pending)) (ground (arith, v.pending, v.idle)))
Step-Stuck {a} (complete before after op n s ew le called e) v =
    absurd (nil_split op before after (sym v.idle ∙ ew))

fail-Stuck :
    (queue : List MsgNode) (before after : List WriteOp) (op : WriteOp) (ec n : ℕ) (a : Link)
    (s : Session)
    → a.session.send_queue ≡ queue
    → Inv a
    → ec ≢ 0
    → a.session.writes ≡ before ++ op ∷ after
    → run_callback op.callback ec n (record (a.session) { writes = before ++ after }) ≡ some s
    → Stuck (record a { session = s; wire = a.wire ++ take n op.buffer })
fail-Stuck [] before after op ec n a s eq v failed ew called =
    let sh = subst (λ q. Shape q a.session.send_pending a.session.writes) eq v.in_order in
    absurd (nil_split op before after (sym sh.1 ∙ ew))
fail-Stuck (front ∷ queue) before after op ec n a s eq v failed ew called =
    let sh = subst (λ q. Shape q a.session.send_pending a.session.writes) eq v.in_order in
    let (eb, eo, ea) = singleton_split _ op before after (sym sh.1 ∙ ew) in
    let rest = record (a.session) { writes = before ++ after } in
    let same =
      callback_failed ec n rest s failed
        (subst (λ o. run_callback o.callback ec n rest ≡ some s) eo called) in
    let taken = take n (drop front.cur_len front.msg) in
    let left = drop n (drop front.cur_len front.msg) ++ messages queue in
    subst (λ s'. Stuck (record a { session = s'; wire = a.wire ++ take n op.buffer })) (sym same)
      (record {
        pending = sh.0;
        idle = rw (eb, ea) refl;
        began = (
          left,
          ap (λ (o : WriteOp). (a.wire ++ take n o.buffer) ++ left) eo
              ∙ append_assoc a.wire taken left
              ∙ ap (λ xs. a.wire ++ xs) (split_at n (drop front.cur_len front.msg) (messages queue))
              ∙ ap (λ q. a.wire ++ unsent q) (sym eq)
              ∙ v.conserved,
        );
      })

-- Either nothing has failed, or the session is stuck.
abbrev Either : Link → Type 0
Either a = Inv a ⊎ Stuck a

Event-Either : {a b : Link} → Event a b → Either a → Either b
Event-Either (succeed step) (inl v) = inl (Step-Inv step v)
Event-Either (succeed step) (inr v) = inr (Step-Stuck step v)
Event-Either {a} (fail before after op ec n s failed ew le called e) (inl v) = inr (
    subst Stuck (sym e)
      (fail-Stuck a.session.send_queue before after op ec n a s refl v failed ew called))
Event-Either (fail before after op ec n s failed ew le called e) (inr v) =
    absurd (nil_split op before after (sym v.idle ∙ ew))

History-Either : {a : Link} → History a → Either a
unfolding session
History-Either fresh = inl (record { in_order = (refl, refl); conserved = refl })
History-Either (next h e) = Event-Either e (History-Either h)

Shape-writes :
    (queue : List MsgNode) (pending : Bool) (writes : List WriteOp)
    → Shape queue pending writes
    → length writes ≤ 1
Shape-writes [] pending writes h = omega (arith, ap length h.1)
Shape-writes (front ∷ queue) pending writes h = omega (arith, ap length h.1)

-- Whatever writes fail, and after however many bytes, and whatever is submitted before and after:
-- what the system has taken is the beginning of what was submitted, and one write at most is
-- pending, so that no byte is lost in the middle, doubled or out of its order.
pub wire-IsPrefix :
    {a : Link} → History a → IsPrefix a.wire a.submitted × (length a.session.writes ≤ 1)
wire-IsPrefix {a} h = elim (History-Either h) [
  | inl v ↦ (
    (unsent a.session.send_queue, v.conserved),
    Shape-writes a.session.send_queue a.session.send_pending a.session.writes v.in_order,
  )
  | inr v ↦ (v.began, omega (arith, ap length v.idle))
]
