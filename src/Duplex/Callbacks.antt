-- ===== src/Duplex/Callbacks.antt =====
-- Every callback keeps the operations and the sessions of 03_full_duplex_server in agreement.
use mathlib.Core.Path.{subst}
use cpp_network_programming.Base.{
  count, count-append, count_middle, ℕ, ◌+◌, ◌≤◌, ◌≡◌, refl, sym, ap, ◌∙◌, Bool, true, false, List,
  [], ◌∷◌, ◌++◌, arith, Bytes, length, drop, ◌==◌, ==_refl, ==_iff, if◌then◌else◌, if_true,
  if_false, Bool-cases, inl, inr,
}
use cpp_network_programming.Duplex.{
  MsgNode, Session, Op, read, write, own_data, Server, ok, pending, put, send, handle_read, held_by,
  is_alive, on_read,
}
use cpp_network_programming.Duplex.Buffers.{
  send-objects, send-ops, send-sessions, send-next_id, send_queue-send, node_of,
}
use cpp_network_programming.Duplex.Orderly.{
  bit, reads_of, writes_of, accepts_of, busy, Orderly, without,
}

pub bit-false : (b : Bool) → bit b ≤ 0 → b ≡ false
bit-false true h = absurd (omega arith)
bit-false false h = refl

pub bit-le : (b : Bool) → bit b ≤ 1
bit-le true = omega arith
bit-le false = omega arith

abbrev pub queue_of : Session → Bool
queue_of o = pending o.send_queue

pending-snoc : (queue : List MsgNode) (node : MsgNode) → pending (queue ++ node ∷ []) ≡ true
pending-snoc [] node = refl
pending-snoc (n ∷ queue) node = refl

module _ (garbage n id : ℕ) (s : Server) where
  handle_read-busy :
      (i : ℕ) → busy (handle_read garbage false n id s) i ≡ (if i == id then true else busy s i)
  unfolding handle_read
  handle_read-busy i = elim (Bool-cases (i == id)) [
    | inl same ↦
        ap queue_of (if_true _ _ _ same)
        ∙ ap pending (send_queue-send garbage n id s)
        ∙ pending-snoc (s.objects id).send_queue (node_of garbage n id s)
        ∙ sym (if_true _ _ _ same)
    | inr other ↦
        ap queue_of (if_false _ _ _ other)
        ∙ ap (λ o. queue_of (o i)) (send-objects garbage n id s)
        ∙ ap queue_of (if_false _ _ _ other)
        ∙ sym (if_false _ _ _ other)
  ]

  send-count :
      (f : Op → ℕ)
      → count f (send garbage n id s).ops
        ≡ count f s.ops + (if busy s id then 0 else f (write id (own_data n)))
  send-count f = elim (Bool-cases (busy s id)) [
    | inl b ↦ ap (count f) (send-ops garbage n id s ∙ if_true _ _ _ b) ∙ rw b (omega arith)
    | inr nb ↦
        ap (count f) (send-ops garbage n id s ∙ if_false _ _ _ nb)
        ∙ count-append f s.ops (write id (own_data n) ∷ [])
        ∙ rw nb (omega arith)
  ]

  pub handle_read-count :
      (f : Op → ℕ)
      → count f (handle_read garbage false n id s).ops
        ≡ count f s.ops + (if busy s id then 0 else f (write id (own_data n))) + f (read id)
  unfolding handle_read
  handle_read-count f =
      count-append f (send garbage n id s).ops (read id ∷ []) ∙ omega (arith, send-count f)

  handle_read-held :
      (i : ℕ) → held_by i (handle_read garbage false n id s).sessions ≡ held_by i s.sessions
  unfolding handle_read
  handle_read-held i = ap (held_by i) (send-sessions garbage n id s)

  handle_read-next_id : (handle_read garbage false n id s).next_id ≡ s.next_id
  unfolding handle_read
  handle_read-next_id = send-next_id garbage n id s

-- A busy session is alive.
pub is_alive_held : (id : ℕ) (s : Server) → held_by id s.sessions ≡ true → is_alive id s ≡ true
unfolding is_alive
is_alive_held id s h = rw h

pub bit-true : (b : Bool) → 1 ≤ bit b → b ≡ true
bit-true true h = refl
bit-true false h = absurd (omega arith)

pub busy-filled :
    (id i : ℕ) (bytes : Bytes) (s : Server)
    → busy (put id (record (s.objects id) { data_ = bytes }) s) i ≡ busy s i
unfolding put
busy-filled id i bytes s = elim (Bool-cases (i == id)) [
  | inl same ↦ ap queue_of (if_true _ _ _ same) ∙ ap (busy s) (sym ((==_iff i id).0 same))
  | inr other ↦ ap queue_of (if_false _ _ _ other)
]

-- The read is started again, and the message is queued, or written if none was.
module _ (garbage n id : ℕ) (u s : Server) (v : Orderly s) (sessions : u.sessions ≡ s.sessions)
    (next_id : u.next_id ≡ s.next_id) (same_busy : (i : ℕ) → busy u i ≡ busy s i)
    (at : (f : Op → ℕ) → count f s.ops ≡ f (read id) + count f u.ops)
    (held : held_by id s.sessions ≡ true) where
  abbrev t : Server
  t = handle_read garbage false n id u

  t-held : (i : ℕ) → held_by i t.sessions ≡ held_by i s.sessions
  t-held i = handle_read-held garbage n id u i ∙ ap (held_by i) sessions

  t-busy : (i : ℕ) → busy t i ≡ (if i == id then true else busy s i)
  t-busy i = handle_read-busy garbage n id u i ∙ ap (λ b. if i == id then true else b) (same_busy i)

  t-count :
      (f : Op → ℕ)
      → count f t.ops ≡ count f s.ops + (if busy s id then 0 else f (write id (own_data n)))
  t-count f = omega (
    arith,
    handle_read-count garbage n id u f,
    ap (λ b. if b then 0 else f (write id (own_data n))) (same_busy id),
    at f,
  )

  t-write_self :
      bit (busy s id) + (if busy s id then 0 else bit (id == id))
      ≡ bit (if id == id then true else busy s id)
  t-write_self = elim (Bool-cases (busy s id)) [
    | inl b ↦ rw (==_refl id, b)
    | inr nb ↦ rw (==_refl id, nb)
  ]

  t-held_if_busy : (i : ℕ) → bit (busy t i) ≤ bit (held_by i t.sessions)
  t-held_if_busy i = elim (Bool-cases (i == id)) [
    | inl same ↦
        let at_id = t-held i ∙ ap (λ k. held_by k s.sessions) ((==_iff i id).0 same) ∙ held in
        rw at_id (bit-le (busy t i))
    | inr other ↦
        let quiet = t-busy i ∙ if_false _ _ _ other in
        omega (arith, ap bit quiet, ap bit (t-held i), v.held_if_busy i)
  ]

  t-write :
      (i : ℕ)
      → bit (busy s i) + (if busy s id then 0 else bit (id == i))
        ≡ bit (if i == id then true else busy s i)
  t-write i = elim (Bool-cases (i == id)) [
    | inl same ↦
        subst
          (λ k.
            bit (busy s k) + (if busy s id then 0 else bit (id == k))
            ≡ bit (if k == id then true else busy s k))
          (sym ((==_iff i id).0 same)) t-write_self
    | inr other ↦ ground arith
  ]

  handle_read-Orderly : Orderly t
  handle_read-Orderly = record {
    one_read = λ i. ground (arith, t-count (reads_of i), v.one_read i, t-held i);
    one_write =
        λ i. t-count (writes_of i) ∙ omega (arith, v.one_write i, t-write i, ap bit (t-busy i));
    held_if_busy = t-held_if_busy;
    one_owner = λ i. ground (arith, t-count (accepts_of i), v.one_owner i, t-held i);
    unused = λ i h.
        ground
          (arith, t-count (accepts_of i), v.unused i, t-held i, handle_read-next_id garbage n id u);
  }

module _ (before after : List Op) (id : ℕ) (s : Server) (v : Orderly s) where
  filled : Bytes → Server
  unfolding put
  filled bytes =
      put id (record (s.objects id) { data_ = bytes ++ drop (length bytes) (s.objects id).data_ })
        (without s (before ++ after))

  pub received-Orderly :
      (garbage : ℕ) (bytes : Bytes)
      → s.ops ≡ before ++ read id ∷ after
      → (t : Server) × (on_read garbage false bytes id (without s (before ++ after)) ≡ ok t)
        × Orderly t
  unfolding on_read filled
  received-Orderly garbage bytes e =
      let at = λ (f : Op → ℕ). ap (count f) e ∙ count_middle f before after (read id) in
      let held : held_by id s.sessions ≡ true =
        bit-true _ (omega (arith, at (reads_of id), v.one_read id, ap bit (==_refl id))) in
      (
        handle_read garbage false (length bytes) id (filled bytes),
        if_true _ _ _ (is_alive_held id (without s (before ++ after)) held),
        handle_read-Orderly garbage (length bytes) id (filled bytes) s v refl refl
            (λ i. busy-filled id i _ (without s (before ++ after))) at held,
      )
