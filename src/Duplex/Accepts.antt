-- ===== src/Duplex/Accepts.antt =====
-- The callback of an accept keeps the operations and the sessions in agreement.
use cpp_network_programming.Base.{
  count, count-append, count_middle, ℕ, suc, ◌+◌, ◌<◌, ◌≡◌, refl, sym, ap, ◌∙◌, true, false, ◌||◌,
  List, [], ◌∷◌, ◌++◌, arith, ◌==◌, ==_refl, ==_iff, if_true, if_false, Bool-cases, inl, inr, ltb,
  ltb→lt,
}
use cpp_network_programming.Duplex.{
  Uuid, Op, accept, read, Server, erase, start_accept, handle_accept, held_by,
}
use cpp_network_programming.Duplex.Orderly.{
  bit, reads_of, writes_of, accepts_of, busy, Orderly, without,
}
use cpp_network_programming.Duplex.Callbacks.{queue_of, bit-false}

-- `start_accept` in a state in which the next number is unused.
start_accept-count :
    (f : Op → ℕ) (uuid : Uuid) (u : Server)
    → count f (start_accept uuid u).ops ≡ count f u.ops + f (accept u.next_id)
unfolding start_accept
start_accept-count f uuid u = count-append f u.ops (accept u.next_id ∷ []) ∙ omega arith

start_accept-busy :
    (uuid : Uuid) (u : Server) (i : ℕ)
    → busy u u.next_id ≡ false
    → busy (start_accept uuid u) i ≡ busy u i
unfolding start_accept
start_accept-busy uuid u i quiet = elim (Bool-cases (i == u.next_id)) [
  | inl same ↦
      ap queue_of (if_true _ _ _ same) ∙ sym (ap (busy u) ((==_iff i u.next_id).0 same) ∙ quiet)
  | inr other ↦ ap queue_of (if_false _ _ _ other)
]

module _ (before after : List Op) (id : ℕ) (uuid : Uuid) (s : Server) (v : Orderly s)
    (e : s.ops ≡ before ++ accept id ∷ after) where
  at : (f : Op → ℕ) → count f s.ops ≡ f (accept id) + count f (before ++ after)
  at f = ap (count f) e ∙ count_middle f before after (accept id)

  unheld : bit (held_by id s.sessions) ≡ 0
  unheld = omega (arith, at (accepts_of id), v.one_owner id, ap bit (==_refl id))

  pub id-lt : id < s.next_id
  id-lt = elim (Bool-cases (ltb id s.next_id)) [
    | inl below ↦ ltb→lt id s.next_id below
    | inr above ↦ absurd (ground (arith, at (accepts_of id), v.unused id, ==_refl id))
  ]

  next_idle : busy s s.next_id ≡ false
  next_idle =
      bit-false _ (omega (arith, v.held_if_busy s.next_id, v.unused s.next_id (omega arith)))

  unheld_at : (i : ℕ) → (id == i) ≡ true → bit (held_by i s.sessions) ≡ 0
  unheld_at i same = ap (λ k. bit (held_by k s.sessions)) (sym ((==_iff id i).0 same)) ∙ unheld

  -- The session of an accept that failed is dropped.
  pub accept_failed-Orderly : Orderly (handle_accept true uuid id (without s (before ++ after)))
  unfolding handle_accept start_accept
  accept_failed-Orderly =
      let u = without s (before ++ after) in
      record {
        one_read = λ i.
            omega (arith, start_accept-count (reads_of i) uuid u, at (reads_of i), v.one_read i);
        one_write = λ i. omega (
          arith,
          start_accept-count (writes_of i) uuid u,
          at (writes_of i),
          v.one_write i,
          ap bit (start_accept-busy uuid u i next_idle),
        );
        held_if_busy = λ i. rw (start_accept-busy uuid u i next_idle) (v.held_if_busy i);
        one_owner = λ i. ground (
          arith,
          start_accept-count (accepts_of i) uuid u,
          at (accepts_of i),
          v.one_owner i,
          v.unused i,
        );
        unused = λ i h.
            ground (arith, start_accept-count (accepts_of i) uuid u, at (accepts_of i), v.unused i);
      }

  module _ (clean : erase (s.objects id).uuid s.sessions ≡ s.sessions) where
    abbrev t : Server
    t = handle_accept false uuid id (without s (before ++ after))

    t-held : (i : ℕ) → held_by i t.sessions ≡ (id == i || held_by i s.sessions)
    unfolding handle_accept start_accept held_by
    t-held i = ap (λ m. id == i || held_by i m) clean

    t-count :
        (f : Op → ℕ)
        → count f t.ops + f (accept id) ≡ count f s.ops + f (read id) + f (accept s.next_id)
    unfolding handle_accept
    t-count f = omega (
      arith,
      at f,
      count-append f (before ++ after) (read id ∷ []),
      count-append f ((before ++ after) ++ read id ∷ []) (accept s.next_id ∷ []),
    )

    t-busy : (i : ℕ) → busy t i ≡ busy s i
    unfolding handle_accept
    t-busy i = start_accept-busy uuid s i next_idle

    t-next_id : t.next_id ≡ suc s.next_id
    unfolding handle_accept start_accept
    t-next_id = refl

    -- The session that was accepted is in the map, and reads.
    pub accepted-Orderly : Orderly t
    accepted-Orderly = record {
      one_read = λ i. ground (arith, t-count (reads_of i), v.one_read i, t-held i, unheld_at i);
      one_write = λ i. omega (arith, t-count (writes_of i), v.one_write i, ap bit (t-busy i));
      held_if_busy = λ i. ground (arith, t-busy i, t-held i, v.held_if_busy i);
      one_owner = λ i.
          ground (
            arith,
            t-count (accepts_of i),
            v.one_owner i,
            t-held i,
            unheld_at i,
            v.unused i,
            id-lt,
          );
      unused =
          λ i h. ground (arith, t-count (accepts_of i), t-held i, v.unused i, id-lt, t-next_id);
    }
