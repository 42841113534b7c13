-- ===== src/Duplex/Uuids.antt =====
-- The callbacks of 03_full_duplex_server leave the uuids of the sessions alone.
use mathlib.Core.Path.{subst}
use cpp_network_programming.Base.{
  ℕ, ◌<◌, ◌≡◌, refl, sym, ap, ◌∙◌, true, false, List, [], ◌∷◌, ◌++◌, arith, Bytes, length, drop,
  ◌==◌, ltb, ltb→lt, ==_iff, if_true, if_false, Bool-cases, inl, inr,
}
use cpp_network_programming.Duplex.{
  Uuid, MsgNode, Session, Server, ok, put, send, handle_read, write_next, start, assign,
  start_accept, handle_accept, held_by, is_alive, on_read, on_write,
}
use cpp_network_programming.Duplex.Buffers.{send-objects, send-sessions}
use cpp_network_programming.Duplex.Orderly.{
  Orderly, Step, accepted, accept_failed, received, written, without, ok_inj,
}
use cpp_network_programming.Duplex.Accepts.{id-lt}
use cpp_network_programming.Duplex.Keys.{Keyed, Keyed-agree, Keyed-insert}

abbrev pub uuid_of : Server → ℕ → Uuid
uuid_of s i = (s.objects i).uuid

-- The same map, and the same uuids.
record SameKeys (s t : Server) : Type 0 where
  sessions : t.sessions ≡ s.sessions
  uuids : (i : ℕ) → uuid_of t i ≡ uuid_of s i

pub put-uuid :
    (id : ℕ) (o : Session) (s : Server)
    → o.uuid ≡ uuid_of s id
    → (i : ℕ) → uuid_of (put id o s) i ≡ uuid_of s i
unfolding put
put-uuid id o s same i = elim (Bool-cases (i == id)) [
  | inl here ↦
      ap (λ (p : Session). p.uuid) (if_true _ _ _ here)
      ∙ same
      ∙ ap (uuid_of s) (sym ((==_iff i id).0 here))
  | inr other ↦ ap (λ (p : Session). p.uuid) (if_false _ _ _ other)
]

put-sessions : (id : ℕ) (o : Session) (s : Server) → (put id o s).sessions ≡ s.sessions
unfolding put
put-sessions id o s = refl

handle_read-SameKeys :
    (garbage n id : ℕ) (s : Server) → SameKeys s (handle_read garbage false n id s)
unfolding handle_read
handle_read-SameKeys garbage n id s = record {
  sessions = send-sessions garbage n id s;
  uuids = λ i.
      put-uuid id _ (send garbage n id s) refl i
      ∙ ap (λ o. (o i).uuid) (send-objects garbage n id s)
      ∙ put-uuid id _ s refl i;
}

write_next-SameKeys :
    (id : ℕ) (queue : List MsgNode) (s t : Server) → write_next id queue s ≡ ok t → SameKeys s t
unfolding write_next
write_next-SameKeys id [] s t e = cc
write_next-SameKeys id (sent ∷ []) s t e =
    subst (SameKeys s) (ok_inj e) (record { sessions = refl; uuids = put-uuid id _ s refl })
write_next-SameKeys id (sent ∷ node ∷ queue) s t e =
    subst (SameKeys s) (ok_inj e) (record { sessions = refl; uuids = put-uuid id _ s refl })

on_read-SameKeys :
    (garbage id : ℕ) (bytes : Bytes) (s t : Server)
    → on_read garbage false bytes id s ≡ ok t
    → SameKeys s t
unfolding on_read
on_read-SameKeys garbage id bytes s t e = elim (Bool-cases (is_alive id s)) [
  | inr dead ↦ cc (sym (if_false _ _ _ dead) ∙ e)
  | inl alive ↦
      let read_into : Session = record (s.objects id) {
        data_ = bytes ++ drop (length bytes) (s.objects id).data_;
      } in
      let filled = put id read_into s in
      let same = handle_read-SameKeys garbage (length bytes) id filled in
      subst (SameKeys s) (ok_inj (sym (if_true _ _ _ alive) ∙ e)) (record {
        sessions = same.sessions ∙ put-sessions id read_into s;
        uuids = λ i. same.uuids i ∙ put-uuid id _ s refl i;
      })
]

on_write-SameKeys : (id : ℕ) (s t : Server) → on_write false id s ≡ ok t → SameKeys s t
unfolding on_write
on_write-SameKeys id s t e = elim (Bool-cases (is_alive id s)) [
  | inr dead ↦ cc (sym (if_false _ _ _ dead) ∙ e)
  | inl alive ↦ write_next-SameKeys id (s.objects id).send_queue s t (sym (if_true _ _ _ alive) ∙ e)
]

SameKeys-Keyed :
    {s t : Server} → SameKeys s t → Keyed s.objects s.sessions → Keyed t.objects t.sessions
SameKeys-Keyed {s} {t} same k =
    rw (same.sessions) (Keyed-agree s.objects t.objects s.sessions (λ i held. same.uuids i) k)

-- The number that the next session gets is not in the map yet.
start_accept-uuid :
    (uuid : Uuid) (s : Server) (i : ℕ)
    → i < s.next_id
    → uuid_of (start_accept uuid s) i ≡ uuid_of s i
unfolding start_accept
start_accept-uuid uuid s i below =
    ap (λ (p : Session). p.uuid) (if_false (i == s.next_id) _ _ (ground arith))

held-lt : (s : Server) → Orderly s → (i : ℕ) → held_by i s.sessions ≡ true → i < s.next_id
held-lt s v i held = elim (Bool-cases (ltb i s.next_id)) [
  | inl below ↦ ltb→lt i s.next_id below
  | inr above ↦ absurd (ground (arith, v.unused i, held))
]

inserted-lt :
    (s : Server)
    → Orderly s
    → (id : ℕ) → id < s.next_id
    → (i : ℕ) → held_by i ((uuid_of s id, id) ∷ s.sessions) ≡ true
    → i < s.next_id
unfolding held_by
inserted-lt s v id below i held = elim (Bool-cases (id == i)) [
  | inl same ↦ ground (arith, same, below)
  | inr other ↦ held-lt s v i (ground (arith, held, other))
]

-- A step without a failure leaves the sessions in the map with uuids of their own.
pub Step-Keyed :
    {s t : Server}
    → Orderly s
    → Step s (ok t)
    → Keyed s.objects s.sessions
    → Keyed t.objects t.sessions
unfolding handle_accept start_accept assign
Step-Keyed {s} {t} v (accepted before after id uuid e clean er) k =
    let started = start id (without s (before ++ after)) in
    let below = λ (i : ℕ) (held : held_by i ((uuid_of s id, id) ∷ s.sessions) ≡ true).
      inserted-lt s v id (id-lt before after id uuid s v e) i held in
    subst (λ (u : Server). Keyed u.objects u.sessions) (sym (ok_inj er))
      (subst (Keyed (start_accept uuid started).objects) (ap (◌∷◌ (uuid_of s id, id)) (sym clean)) (
        Keyed-agree s.objects _ ((uuid_of s id, id) ∷ s.sessions)
          (λ i held. start_accept-uuid uuid started i (below i held))
          (Keyed-insert s.objects id s.sessions clean k)))
Step-Keyed {s} {t} v (accept_failed before after id uuid e er) k =
    subst (λ (u : Server). Keyed u.objects u.sessions) (sym (ok_inj er))
      (Keyed-agree s.objects _ s.sessions
        (λ i held. start_accept-uuid uuid (without s (before ++ after)) i (held-lt s v i held)) k)
Step-Keyed {s} v (received before after garbage id bytes e er) k =
    SameKeys-Keyed (on_read-SameKeys garbage id bytes (without s (before ++ after)) _ (sym er)) k
Step-Keyed {s} v (written before after id source e er) k =
    SameKeys-Keyed (on_write-SameKeys id (without s (before ++ after)) _ (sym er)) k
