-- ===== src/SessionApi/Memory/Lives.antt =====
-- Which memory the writes of a session of asio/async/00_session_api may read.
use mathlib.Core.Path.{subst}
use cpp_network_programming.Base.{
  ℕ, ◌≤◌, ◌≡◌, ◌⊎◌, inl, inr, refl, sym, ap, ◌∙◌, some, List, [], ◌∷◌, ◌++◌, arith, length, All,
}
use cpp_network_programming.SessionApi.{WriteOp, Session, session}
use cpp_network_programming.SessionApi.Writes.{run_callback}
use cpp_network_programming.SessionApi.Delivery.{singleton_split}
use cpp_network_programming.SessionApi.Invariant.{nil_split}
use cpp_network_programming.SessionApi.Memory.{
  Place, caller, node, Memory, called_back, Step, sends, sends_all, completed, Reach, fresh, next,
}
use cpp_network_programming.SessionApi.Memory.Places.{Pending, Inv, submit-Inv, submit_all-Inv}
use cpp_network_programming.SessionApi.Memory.Callbacks.{taken_out, callback-Inv}

completed-Inv :
    (m b : Memory) (before after : List WriteOp) (op : WriteOp)
    (places_before places_after : List Place) (p : Place) (ec n : ℕ) (t : Session)
    → m.session.writes ≡ before ++ op ∷ after
    → m.places ≡ places_before ++ p ∷ places_after
    → run_callback op.callback ec n (record (m.session) { writes = before ++ after }) ≡ some t
    → b
      ≡ called_back
          (record (m.session) { writes = before ++ after })
          t
          (places_before ++ places_after)
          m
    → Inv m
    → Inv b
unfolding taken_out
completed-Inv m b before after op pb pa p ec n t e at r same v = elim (v.shape) [
  | inl (no_write, no_place) ↦ absurd (nil_split op before after (sym no_write ∙ e))
  | inr q ↦
      let (no_before, this, no_after) = singleton_split q.op op before after (sym q.writes ∙ e) in
      let (no_pb, _, no_pa) = singleton_split q.place p pb pa (sym q.at ∙ at) in
      let left : before ++ after ≡ [] = (λ i. no_before i ++ no_after i) in
      let nowhere : pb ++ pa ≡ [] = (λ i. no_pb i ++ no_pa i) in
      let session_left : record (m.session) { writes = before ++ after } ≡ taken_out m =
        ap (λ ws. record (m.session) { writes = ws }) left in
      let ran =
        sym (λ i. run_callback (ap (λ (o : WriteOp). o.callback) this i) ec n (session_left i))
        ∙ r in
      let ran' = sym (ap (λ c. run_callback c ec n (taken_out m)) q.callback) ∙ ran in
      subst Inv (sym (same ∙ (λ i. called_back (session_left i) t (nowhere i) m)))
        (callback-Inv ec n m t q v ran')
]

Step-Inv : {a b : Memory} → Step a b → Inv a → Inv b
Step-Inv {a} (sends buf e) v = subst Inv (sym e) (submit-Inv buf a v)
Step-Inv {a} (sends_all buf e) v = subst Inv (sym e) (submit_all-Inv buf a v)
Step-Inv {a} {b} (completed before after op pb pa p ec n t e at same_length r same) v =
    completed-Inv a b before after op pb pa p ec n t e at r same v

Reach-Inv : {m : Memory} → Reach m → Inv m
unfolding session
Reach-Inv fresh = record { numbered = refl; idle = λ quiet. (refl, refl); shape = inl (refl, refl) }
Reach-Inv (next r step) = Step-Inv step (Reach-Inv r)

abbrev pub IsFront : Memory → Place → Type 0
IsFront m p =
    (id : ℕ) × (ids : List ℕ) × (m.queue_ids ≡ id ∷ ids) × ((p ≡ node id) ⊎ (p ≡ caller id))

Pending-IsFront :
    (m : Memory) (q : Pending m)
    → (length m.places ≡ length m.session.writes) × (length m.places ≤ 1) × All (IsFront m) m.places
Pending-IsFront m q = (
  ap length q.at ∙ sym (ap length q.writes),
  omega (arith, ap length q.at),
  subst (All (IsFront m)) (sym q.at) ((q.id, q.ids, q.queued, q.front), tt),
)

-- Texts are sent by WriteToSocket and WriteAllToSocket, and writes complete, with errors or
-- without: one write at most is pending, and it reads from the node at the front of the queue,
-- which is alive, or from the text that the caller gave for that very node.
pub places_live :
    {m : Memory}
    → Reach m
    → (length m.queue_ids ≡ length m.session.send_queue)
      × (length m.places ≡ length m.session.writes)
      × (length m.places ≤ 1)
      × All (IsFront m) m.places
places_live {m} r =
    let v = Reach-Inv r in
    elim (v.shape) [
      | inl (no_write, no_place) ↦ (
        v.numbered,
        ap length no_place ∙ sym (ap length no_write),
        omega (arith, ap length no_place),
        subst (All (IsFront m)) (sym no_place) tt,
      )
      | inr q ↦ let (same, one, all) = Pending-IsFront m q in (v.numbered, same, one, all)
    ]
