-- ===== src/SessionApi/Submission.antt =====
-- Submitting a text keeps the queue, the flag and the pending write in agreement.
use mathlib.Core.Path.{subst}
use cpp_network_programming.Base.{
  ◌≡◌, refl, sym, ap, ◌∙◌, Bool, true, false, List, [], ◌∷◌, ◌++◌, arith, Bytes, length, take,
  take_all, drop, All-append, append-nil, append_assoc, if◌then◌else◌, if_true, if_false,
  Bool-cases, inl, inr,
}
use cpp_network_programming.SessionApi.{MsgNode, WriteOp, write, Session, start_write}
use cpp_network_programming.SessionApi.Writes.{
  Link, messages, unsent, IsWhole, Shape, Inv, write_op,
}

abbrev node_of : Bytes → MsgNode
node_of buf = record { msg = take (length buf) buf; total_len = length buf; cur_len = 0 }

node_of-msg : (buf : Bytes) → take (length buf) buf ≡ buf
node_of-msg buf = take_all (length buf) buf (omega arith)

node_of-IsWhole : (buf : Bytes) → IsWhole (node_of buf)
node_of-IsWhole buf = (sym (ap length (node_of-msg buf)), refl)

messages-append :
    (queue : List MsgNode) (node : MsgNode)
    → messages (queue ++ node ∷ []) ≡ messages queue ++ node.msg
messages-append [] node = append-nil node.msg
messages-append (n ∷ queue) node =
    ap (λ xs. n.msg ++ xs) (messages-append queue node)
    ∙ sym (append_assoc n.msg (messages queue) node.msg)

unsent-append :
    (queue : List MsgNode) (buf : Bytes) → unsent (queue ++ node_of buf ∷ []) ≡ unsent queue ++ buf
unsent-append [] buf = append-nil _ ∙ node_of-msg buf
unsent-append (front ∷ queue) buf =
    let before = drop front.cur_len front.msg in
    ap (λ xs. before ++ xs) (messages-append queue (node_of buf))
    ∙ sym (append_assoc before (messages queue) (take (length buf) buf))
    ∙ ap (λ xs. (before ++ messages queue) ++ xs) (node_of-msg buf)

abbrev queued : Bytes → Session → Session
queued buf s = record s { send_queue = s.send_queue ++ node_of buf ∷ [] }

abbrev sending : Bytes → Session → Session
sending buf s = start_write write buf (record (queued buf s) { send_pending = true })

queued-conserved :
    (buf : Bytes) (a : Link)
    → Inv a
    → a.wire ++ unsent (a.session.send_queue ++ node_of buf ∷ []) ≡ a.submitted ++ buf
queued-conserved buf a v =
    ap (λ xs. a.wire ++ xs) (unsent-append a.session.send_queue buf)
    ∙ sym (append_assoc a.wire (unsent a.session.send_queue) buf)
    ∙ ap (λ xs. xs ++ buf) v.conserved

queued-InOrder :
    (queue : List MsgNode) (buf : Bytes) (writes : List WriteOp)
    → Shape queue true writes
    → Shape (queue ++ node_of buf ∷ []) true writes
queued-InOrder [] buf writes h = cc (h.0)
queued-InOrder (front ∷ queue) buf writes h =
    (h.0, h.1, h.2, h.3, All-append IsWhole queue (node_of buf ∷ []) h.4 (node_of-IsWhole buf, tt))

sending-InOrder :
    (queue : List MsgNode) (buf : Bytes) (writes : List WriteOp)
    → Shape queue false writes
    → Shape (queue ++ node_of buf ∷ []) true (writes ++ write_op buf ∷ [])
sending-InOrder [] buf writes h = (
  refl,
  ap (λ ws. ws ++ write_op buf ∷ []) h.1 ∙ ap (λ b. write_op b ∷ []) (sym (node_of-msg buf)),
  (node_of-IsWhole buf).0,
  omega arith,
  tt,
)
sending-InOrder (front ∷ queue) buf writes h = cc (h.0)

-- A text that is submitted is queued, and its write is started if none is pending.
pub submit-Inv :
    (buf : Bytes) (a : Link) (s : Session)
    → Inv a
    → s ≡ (if a.session.send_pending then queued buf a.session else sending buf a.session)
    → Inv (record a { session = s; submitted = a.submitted ++ buf })
unfolding start_write
submit-Inv buf a s v e =
    let q = a.session.send_queue in
    let at = λ (b : Bool). Shape q b a.session.writes in
    elim (Bool-cases a.session.send_pending) [
      | inl busy ↦
          subst (λ s'. Inv (record a { session = s'; submitted = a.submitted ++ buf }))
            (sym (e ∙ if_true _ _ _ busy))
            (record {
              in_order =
                  subst (λ b. Shape (q ++ node_of buf ∷ []) b a.session.writes) (sym busy)
                    (queued-InOrder q buf a.session.writes (subst at busy v.in_order));
              conserved = queued-conserved buf a v;
            })
      | inr idle ↦
          subst (λ s'. Inv (record a { session = s'; submitted = a.submitted ++ buf }))
            (sym (e ∙ if_false _ _ _ idle))
            (record {
              in_order = sending-InOrder q buf a.session.writes (subst at idle v.in_order);
              conserved = queued-conserved buf a v;
            })
    ]
