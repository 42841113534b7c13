-- ===== src/Duplex/Cleared.antt =====
-- A session of 03_full_duplex_server whose read fails, and that ClearSession drops from the map.
use cpp_network_programming.Base.{
  count, count_middle, ℕ, ◌+◌, ◌≤◌, ◌≡◌, refl, sym, ap, ◌∙◌, true, false, List, [], ◌∷◌, ◌++◌,
  arith, Bytes, length, drop, ◌==◌, ==_refl, ==_iff, if◌then◌else◌, if_true, Bool-cases, inl, inr,
}
use cpp_network_programming.Duplex.{
  Op, accept, read, write, Source, Server, ok, put, handle_read, held_by, accepting, is_alive,
  on_read,
}
use cpp_network_programming.Duplex.Orderly.{
  bit, reads_of, writes_of, accepts_of, busy, Orderly, without,
}
use cpp_network_programming.Duplex.Callbacks.{bit-true, is_alive_held, busy-filled}
use cpp_network_programming.Duplex.Keys.{Keyed, Keyed-agree, Keyed-erase, Keyed-held_by}
use cpp_network_programming.Duplex.Uuids.{put-uuid}
use cpp_network_programming.Duplex.Lifetime.{on_read_error-sessions, destroyed}

-- An operation of a kind that is under way can be taken out.
pub write_under_way :
    (i : ℕ) (ops : List Op)
    → 1 ≤ count (writes_of i) ops
    → (before : List Op) × (after : List Op) × (source : Source) × (ops
        ≡ before ++ write i source ∷ after)
write_under_way i [] h = absurd (omega (arith, h))
write_under_way i (accept j ∷ ops) h =
    let (before, after, source, e) = write_under_way i ops (omega (arith, h)) in
    (accept j ∷ before, after, source, ap (◌∷◌ (accept j)) e)
write_under_way i (read j ∷ ops) h =
    let (before, after, source, e) = write_under_way i ops (omega (arith, h)) in
    (read j ∷ before, after, source, ap (◌∷◌ (read j)) e)
write_under_way i (write j source ∷ ops) h = elim (Bool-cases (j == i)) [
  | inl same ↦ ([], ops, source, ap (λ n. write n source ∷ ops) ((==_iff j i).0 same))
  | inr other ↦
      let (before, after, source', e) = write_under_way i ops (ground (arith, h, other)) in
      (write j source ∷ before, after, source', ap (◌∷◌ (write j source)) e)
]

pub read_under_way :
    (i : ℕ) (ops : List Op)
    → 1 ≤ count (reads_of i) ops
    → (before : List Op) × (after : List Op) × (ops ≡ before ++ read i ∷ after)
read_under_way i [] h = absurd (omega (arith, h))
read_under_way i (accept j ∷ ops) h =
    let (before, after, e) = read_under_way i ops (omega (arith, h)) in
    (accept j ∷ before, after, ap (◌∷◌ (accept j)) e)
read_under_way i (write j source ∷ ops) h =
    let (before, after, e) = read_under_way i ops (omega (arith, h)) in
    (write j source ∷ before, after, ap (◌∷◌ (write j source)) e)
read_under_way i (read j ∷ ops) h = elim (Bool-cases (j == i)) [
  | inl same ↦ ([], ops, ap (λ n. read n ∷ ops) ((==_iff j i).0 same))
  | inr other ↦
      let (before, after, e) = read_under_way i ops (ground (arith, h, other)) in
      (read j ∷ before, after, ap (◌∷◌ (read j)) e)
]

pub accepting-count :
    (i : ℕ) (ops : List Op) → count (accepts_of i) ops ≡ 0 → accepting i ops ≡ false
unfolding accepting
accepting-count i [] h = refl
accepting-count i (accept j ∷ ops) h = ground (arith, accepting-count i ops)
accepting-count i (read j ∷ ops) h = accepting-count i ops (omega (arith, h))
accepting-count i (write j source ∷ ops) h = accepting-count i ops (omega (arith, h))

module _ (before after : List Op) (id : ℕ) (s : Server) (v : Orderly s)
    (k : Keyed s.objects s.sessions) (e : s.ops ≡ before ++ read id ∷ after) where
  at : (f : Op → ℕ) → count f s.ops ≡ f (read id) + count f (before ++ after)
  at f = ap (count f) e ∙ count_middle f before after (read id)

  held : held_by id s.sessions ≡ true
  held = bit-true _ (omega (arith, at (reads_of id), v.one_read id, ap bit (==_refl id)))

  held_at : (i : ℕ) → (id == i) ≡ true → held_by i s.sessions ≡ true
  held_at i same = ap (λ n. held_by n s.sessions) (sym ((==_iff id i).0 same)) ∙ held

  pub loaded : Bytes → Server
  unfolding put
  loaded bytes =
      put id (record (s.objects id) { data_ = bytes ++ drop (length bytes) (s.objects id).data_ })
        (without s (before ++ after))

  -- The session is gone from the map; its write stays, if it has one.
  module _ (garbage : ℕ) (bytes : Bytes) where
    abbrev pub left : Server
    left = handle_read garbage true (length bytes) id (loaded bytes)

    pub left_result : on_read garbage true bytes id (without s (before ++ after)) ≡ ok left
    unfolding on_read loaded
    left_result = if_true _ _ _ (is_alive_held id (without s (before ++ after)) held)

    left-held :
        (i : ℕ) → held_by i left.sessions ≡ (if id == i then false else held_by i s.sessions)
    left-held i =
        ap (held_by i)
          (on_read_error-sessions garbage id bytes (without s (before ++ after)) left left_result)
        ∙ Keyed-held_by s.objects id s.sessions k held i

    left-busy : (i : ℕ) → busy left i ≡ busy s i
    unfolding handle_read loaded
    left-busy i = busy-filled id i _ (without s (before ++ after))

    left-ops : left.ops ≡ before ++ after
    unfolding handle_read loaded
    left-ops = refl

    left-next_id : left.next_id ≡ s.next_id
    unfolding handle_read loaded
    left-next_id = refl

    pub left-count : (f : Op → ℕ) → count f left.ops + f (read id) ≡ count f s.ops
    left-count f = omega (arith, at f, ap (count f) left-ops)

    idle_at : busy s id ≡ false → (i : ℕ) → (id == i) ≡ true → busy s i ≡ false
    idle_at idle i same = ap (busy s) (sym ((==_iff id i).0 same)) ∙ idle

    pub left-Orderly : busy s id ≡ false → Orderly left
    left-Orderly idle = record {
      one_read = λ i. ground (arith, left-count (reads_of i), v.one_read i, left-held i, held_at i);
      one_write = λ i. omega (arith, left-count (writes_of i), v.one_write i, ap bit (left-busy i));
      held_if_busy =
          λ i. ground (arith, left-busy i, left-held i, v.held_if_busy i, idle_at idle i);
      one_owner = λ i. ground (arith, left-count (accepts_of i), v.one_owner i, left-held i);
      unused =
          λ i h. ground (arith, left-count (accepts_of i), v.unused i, left-held i, left-next_id);
    }

    pub left-Keyed : Keyed left.objects left.sessions
    unfolding handle_read loaded put
    left-Keyed = Keyed-erase (loaded bytes).objects _ s.sessions (
        Keyed-agree s.objects (loaded bytes).objects s.sessions
          (λ i there. put-uuid id _ (without s (before ++ after)) refl i) k)

    -- Once its write is taken out, nothing keeps the session alive.
    pub left-dead :
        (before' after' : List Op) (source : Source)
        → left.ops ≡ before' ++ write id source ∷ after'
        → is_alive id (without left (before' ++ after')) ≡ false
    left-dead before' after' source at_write =
        let none_accepts : count (accepts_of id) (before' ++ after') ≡ 0 = omega (
          arith,
          left-count (accepts_of id),
          v.one_owner id,
          ap bit held,
          ap (count (accepts_of id)) at_write,
          count_middle (accepts_of id) before' after' (write id source),
        ) in
        destroyed id (without left (before' ++ after')) (left-held id ∙ if_true _ _ _ (==_refl id))
          (accepting-count id (before' ++ after') none_accepts)
