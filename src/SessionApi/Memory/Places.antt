-- ===== src/SessionApi/Memory/Places.antt =====
-- Where the pending write of a session of asio/async/00_session_api reads, as texts are sent.
use mathlib.Core.Path.{subst}
use cpp_network_programming.Base.{
  ℕ, suc, ◌-◌, ◌≡◌, ◌⊎◌, inl, inr, refl, sym, ap, ◌∙◌, true, false, List, [], ◌∷◌, ◌++◌, arith,
  Bytes, length, length-append, ltb, if_true, if_false, Bool-cases, Bool-clash,
}
use cpp_network_programming.SessionApi.{
  WriteOp, write, write_node, Session, start_write, write_to_socket, write_all_to_socket,
}
use cpp_network_programming.SessionApi.Memory.{Place, caller, node, Memory, sent, submit}

-- The one write that can be pending reads the node at the front of the queue, or the text that the
-- caller gave for that node.
pub record Pending (m : Memory) : Type 0 where
  pub op : WriteOp
  pub id : ℕ
  pub ids : List ℕ
  pub place : Place
  pub writes : m.session.writes ≡ op ∷ []
  pub callback : op.callback ≡ write
  pub flag : m.session.send_pending ≡ true
  pub queued : m.queue_ids ≡ id ∷ ids
  pub at : m.places ≡ place ∷ []
  pub front : (place ≡ node id) ⊎ (place ≡ caller id)

pub record Inv (m : Memory) : Type 0 where
  pub numbered : length m.queue_ids ≡ length m.session.send_queue
  pub idle : m.session.send_pending ≡ false → (m.session.send_queue ≡ []) × (m.session.writes ≡ [])
  pub shape : ((m.session.writes ≡ []) × (m.places ≡ [])) ⊎ Pending m

pub no_ids : (ids : List ℕ) → length ids ≡ 0 → ids ≡ []
no_ids [] h = refl
no_ids (id ∷ ids) h = absurd (omega (arith, h))

pub some_id :
    (ids : List ℕ) (k : ℕ) → length ids ≡ suc k → (id : ℕ) × (rest : List ℕ) × (ids ≡ id ∷ rest)
some_id [] k h = absurd (omega (arith, h))
some_id (id ∷ ids) k h = (id, ids, refl)

pub zero_diff : (k : ℕ) → k - k ≡ 0
zero_diff k = omega arith

pushed : Bytes → Session → Session
pushed buf s = record s { send_queue = s.send_queue ++ write_node buf (length buf) ∷ [] }

sent_busy :
    (buf : Bytes) (s : Session) → s.send_pending ≡ true → write_to_socket buf s ≡ pushed buf s
unfolding write_to_socket pushed
sent_busy buf s busy = if_true _ _ _ busy

sent_idle :
    (buf : Bytes) (s : Session)
    → s.send_pending ≡ false
    → write_to_socket buf s ≡ start_write write buf (record (pushed buf s) { send_pending = true })
unfolding write_to_socket pushed
sent_idle buf s quiet = if_false _ _ _ quiet

busy-Inv :
    (buf : Bytes) (m : Memory)
    → m.session.send_pending ≡ true
    → Inv m
    → Inv (sent (pushed buf m.session) m)
unfolding pushed
busy-Inv buf m busy v =
    let same : ltb (length m.session.writes) (length m.session.writes) ≡ false = ground arith in
    let places : (sent (pushed buf m.session) m).places ≡ m.places = if_false _ _ _ same in
    record {
      numbered = omega (
        arith,
        v.numbered,
        length-append m.queue_ids (m.next_id ∷ []),
        length-append m.session.send_queue (write_node buf (length buf) ∷ []),
      );
      idle = λ quiet. absurd (Bool-clash busy quiet);
      shape = elim (v.shape) [
        | inl (no_write, no_place) ↦ inl (no_write, places ∙ no_place)
        | inr p ↦ inr (record {
          op = p.op;
          id = p.id;
          ids = p.ids ++ m.next_id ∷ [];
          place = p.place;
          writes = p.writes;
          callback = p.callback;
          flag = p.flag;
          queued = ap (λ ids. ids ++ m.next_id ∷ []) p.queued;
          at = places ∙ p.at;
          front = p.front;
        })
      ];
    }

idle-Inv :
    (buf : Bytes) (m : Memory)
    → m.session.send_pending ≡ false
    → Inv m
    → Inv (sent (start_write write buf (record (pushed buf m.session) { send_pending = true })) m)
unfolding pushed start_write
idle-Inv buf m quiet v =
    let (no_queue, no_write) = v.idle quiet in
    let no_id = no_ids m.queue_ids (v.numbered ∙ ap length no_queue) in
    let no_place : m.places ≡ [] = elim (v.shape) [
      | inl (_, none_there) ↦ none_there
      | inr p ↦ absurd (Bool-clash p.flag quiet)
    ] in
    let longer : ltb (length m.session.writes)
          (length (m.session.writes ++ record { buffer = buf; callback = write } ∷ []))
        ≡ true =
      ground
        (arith, length-append m.session.writes (record { buffer = buf; callback = write } ∷ [])) in
    record {
      numbered = omega (
        arith,
        v.numbered,
        length-append m.queue_ids (m.next_id ∷ []),
        length-append m.session.send_queue (write_node buf (length buf) ∷ []),
      );
      idle = λ e. cc;
      shape = inr (record {
        op = record { buffer = buf; callback = write };
        id = m.next_id;
        ids = [];
        place = caller m.next_id;
        writes = ap (λ ws. ws ++ record { buffer = buf; callback = write } ∷ []) no_write;
        callback = refl;
        flag = refl;
        queued = ap (λ ids. ids ++ m.next_id ∷ []) no_id;
        at = if_true _ _ _ longer ∙ ap (λ ps. ps ++ caller m.next_id ∷ []) no_place;
        front = inr refl;
      });
    }

pub submit-Inv : (buf : Bytes) (m : Memory) → Inv m → Inv (submit (write_to_socket buf) m)
submit-Inv buf m v = elim (Bool-cases m.session.send_pending) [
  | inl busy ↦
      subst (λ t. Inv (sent t m)) (sym (sent_busy buf m.session busy)) (busy-Inv buf m busy v)
  | inr quiet ↦
      subst (λ t. Inv (sent t m)) (sym (sent_idle buf m.session quiet)) (idle-Inv buf m quiet v)
]

pub submit_all-Inv : (buf : Bytes) (m : Memory) → Inv m → Inv (submit (write_all_to_socket buf) m)
unfolding write_to_socket write_all_to_socket
submit_all-Inv buf m v = submit-Inv buf m v
