-- ===== src/Duplex/Faultless.antt =====
-- As long as nothing fails, no callback of 03_full_duplex_server finds its session gone.
use cpp_network_programming.Base.{
  count, ℕ, ◌≡◌, ap, ◌∙◌, false, arith, ◌==◌, if_true, if_false, Bool-cases, inl, inr,
}
use cpp_network_programming.Duplex.{
  Uuid, Session, Server, Result, ok, pending, start_accept, held_by,
}
use cpp_network_programming.Duplex.Orderly.{
  bit, reads_of, writes_of, busy, Orderly, Step, accepted, accept_failed, received, written, booted,
  Reach, boot, next, ok_inj,
}
use cpp_network_programming.Duplex.Callbacks.{queue_of, received-Orderly}
use cpp_network_programming.Duplex.Written.{written-Orderly}
use cpp_network_programming.Duplex.Accepts.{accept_failed-Orderly, accepted-Orderly}

booted-busy :
    (objects : ℕ → Session) (uuid : Uuid)
    → ((i : ℕ) → pending (objects i).send_queue ≡ false)
    → (i : ℕ) → busy (booted objects uuid) i ≡ false
unfolding start_accept
booted-busy objects uuid quiet i = elim (Bool-cases (i == 0)) [
  | inl same ↦ ap queue_of (if_true _ _ _ same)
  | inr other ↦ ap queue_of (if_false _ _ _ other) ∙ quiet i
]

pub booted-Orderly :
    (objects : ℕ → Session) (uuid : Uuid)
    → ((i : ℕ) → pending (objects i).send_queue ≡ false)
    → Orderly (booted objects uuid)
unfolding start_accept held_by
booted-Orderly objects uuid quiet = record {
  one_read = λ i. omega arith;
  one_write = λ i. ground (arith, booted-busy objects uuid quiet i);
  held_if_busy = λ i. ground (arith, booted-busy objects uuid quiet i);
  one_owner = λ i. ground arith;
  unused = λ i h. ground arith;
}

pub Step-Orderly :
    {s : Server} {r : Result} → Orderly s → Step s r → (t : Server) × (r ≡ ok t) × Orderly t
Step-Orderly {s} v (accepted before after id uuid e clean er) =
    (_, er, accepted-Orderly before after id uuid s v e clean)
Step-Orderly {s} v (accept_failed before after id uuid e er) =
    (_, er, accept_failed-Orderly before after id uuid s v e)
Step-Orderly {s} v (received before after garbage id bytes e er) =
    let (t, et, vt) = received-Orderly before after id s v garbage bytes e in (t, er ∙ et, vt)
Step-Orderly {s} v (written before after id source e er) =
    let (t, et, vt) = written-Orderly before after id source s v e in (t, er ∙ et, vt)

Reach-Orderly : {s : Server} → Reach s → Orderly s
Reach-Orderly (boot objects uuid quiet) = booted-Orderly objects uuid quiet
Reach-Orderly (next {t} r st) =
    let (t', e, v) = Step-Orderly (Reach-Orderly r) st in rw (ok_inj e) v

-- While nothing fails and no uuid is given twice, every callback finds its session alive and its
-- queue filled: the server goes on, and stays orderly.
Reach-faultless :
    {s : Server} {r : Result} → Reach s → Step s r → (t : Server) × (r ≡ ok t) × Orderly t
Reach-faultless r st = Step-Orderly (Reach-Orderly r) st

-- While nothing fails and no uuid is given twice, a session has one write under way at most, and
-- one exactly while its queue holds a message, so that messages cannot be mixed up on the socket;
-- it reads exactly while it is in the map.
one_write_at_a_time :
    {s : Server} (i : ℕ)
    → Reach s
    → (count (writes_of i) s.ops ≡ bit (busy s i))
      × (count (reads_of i) s.ops ≡ bit (held_by i s.sessions))
one_write_at_a_time i r = let v = Reach-Orderly r in (v.one_write i, v.one_read i)
