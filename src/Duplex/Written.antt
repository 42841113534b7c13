-- ===== src/Duplex/Written.antt =====
-- The callback of a write keeps the operations and the sessions in agreement.
use mathlib.Core.Path.{subst}
use cpp_network_programming.Base.{
  count, count-append, count_middle, ℕ, ◌+◌, ◌≤◌, ◌≡◌, refl, sym, ap, ◌∙◌, true, false, List, [],
  ◌∷◌, ◌++◌, arith, ◌==◌, ==_refl, ==_iff, if◌then◌else◌, if_true, if_false, Bool-cases, Bool-clash,
  inl, inr,
}
use cpp_network_programming.Duplex.{
  MsgNode, Op, write, Source, node_data, Server, ok, pending, put, write_next, held_by, on_write,
}
use cpp_network_programming.Duplex.Orderly.{
  bit, reads_of, writes_of, accepts_of, busy, Orderly, without,
}
use cpp_network_programming.Duplex.Callbacks.{queue_of, bit-true, bit-le, is_alive_held}

-- The front of the queue is gone, and another write is under way if something is left.
module _ (id : ℕ) (source source' : Source) (rest : List MsgNode) (s t : Server) (v : Orderly s)
    (sessions : t.sessions ≡ s.sessions) (next_id : t.next_id ≡ s.next_id)
    (t-busy : (i : ℕ) → busy t i ≡ (if i == id then pending rest else busy s i))
    (t-count : (f : Op → ℕ)
      → count f t.ops + f (write id source)
        ≡ count f s.ops + (if pending rest then f (write id source') else 0))
    (was_busy : busy s id ≡ true) where
  t-held : (i : ℕ) → held_by i t.sessions ≡ held_by i s.sessions
  t-held i = ap (held_by i) sessions

  t-held_if_busy : (i : ℕ) → bit (busy t i) ≤ bit (held_by i t.sessions)
  t-held_if_busy i = elim (Bool-cases (i == id)) [
    | inl same ↦
        let e = (==_iff i id).0 same in
        omega (
          arith,
          bit-le (busy t i),
          ap bit (t-held i),
          ap (λ k. bit (held_by k s.sessions)) e,
          v.held_if_busy id,
          ap bit was_busy,
        )
    | inr other ↦
        omega (arith, ap bit (t-busy i ∙ if_false _ _ _ other), ap bit (t-held i), v.held_if_busy i)
  ]

  t-one_write : (i : ℕ) → count (writes_of i) t.ops ≡ bit (busy t i)
  t-one_write i = elim (Bool-cases (i == id)) [
    | inl same ↦
        subst (λ k. count (writes_of k) t.ops ≡ bit (busy t k)) (sym ((==_iff i id).0 same))
          (ground (arith, t-count (writes_of id), v.one_write id, was_busy, ==_refl id, t-busy id))
    | inr other ↦ ground (arith, t-count (writes_of i), v.one_write i, t-busy i)
  ]

  written-Orderly_facts : Orderly t
  written-Orderly_facts = record {
    one_read = λ i. ground (arith, t-count (reads_of i), v.one_read i, t-held i);
    one_write = t-one_write;
    held_if_busy = t-held_if_busy;
    one_owner = λ i. ground (arith, t-count (accepts_of i), v.one_owner i, t-held i);
    unused = λ i h. ground (arith, t-count (accepts_of i), v.unused i, t-held i, next_id);
  }

busy-put :
    (id i : ℕ) (rest : List MsgNode) (s : Server)
    → busy (put id (record (s.objects id) { send_queue = rest }) s) i
      ≡ (if i == id then pending rest else busy s i)
unfolding put
busy-put id i rest s = elim (Bool-cases (i == id)) [
  | inl same ↦ ap queue_of (if_true _ _ _ same) ∙ sym (if_true _ _ _ same)
  | inr other ↦ ap queue_of (if_false _ _ _ other) ∙ sym (if_false _ _ _ other)
]

module _ (before after : List Op) (id : ℕ) (source : Source) (s : Server) (v : Orderly s)
    (e : s.ops ≡ before ++ write id source ∷ after) where
  at : (f : Op → ℕ) → count f s.ops ≡ f (write id source) + count f (before ++ after)
  at f = ap (count f) e ∙ count_middle f before after (write id source)

  was_busy : busy s id ≡ true
  was_busy = bit-true _ (omega (arith, at (writes_of id), v.one_write id, ap bit (==_refl id)))

  held : held_by id s.sessions ≡ true
  held = bit-true _ (omega (arith, v.held_if_busy id, ap bit was_busy))

  write_next-Orderly :
      (queue : List MsgNode)
      → (s.objects id).send_queue ≡ queue
      → (t : Server) × (write_next id queue (without s (before ++ after)) ≡ ok t) × Orderly t
  unfolding write_next
  write_next-Orderly [] empty = absurd (Bool-clash was_busy (ap pending empty))
  write_next-Orderly (sent ∷ []) one = (
    _,
    refl,
    written-Orderly_facts id source source [] s _ v refl refl
        (λ i. busy-put id i [] (without s (before ++ after))) (λ f. omega (arith, at f)) was_busy,
  )
  write_next-Orderly (sent ∷ node ∷ queue) more = (
    _,
    refl,
    written-Orderly_facts id source (node_data node) (node ∷ queue) s _ v refl refl
        (λ i. busy-put id i (node ∷ queue) (without s (before ++ after)))
        (λ f.
          omega (arith, at f, count-append f (before ++ after) (write id (node_data node) ∷ [])))
        was_busy,
  )

  -- The callback of a write that succeeded finds its session alive and a queue that is not empty.
  pub written-Orderly :
      (t : Server) × (on_write false id (without s (before ++ after)) ≡ ok t) × Orderly t
  unfolding on_write
  written-Orderly =
      let (t, et, vt) = write_next-Orderly (s.objects id).send_queue refl in
      (t, if_true _ _ _ (is_alive_held id (without s (before ++ after)) held) ∙ et, vt)
