-- ===== src/Duplex/Disconnects.antt =====
-- Clients of 03_full_duplex_server that disconnect: a read that fails, while the session writes
-- nothing and while it does.
use mathlib.Core.Path.{subst}
use cpp_network_programming.Base.{
  ℕ, ◌≡◌, refl, ◌∙◌, Bool, true, false, List, [], ◌∷◌, ◌++◌, arith, Bytes, if_false, Bool-clash,
}
use cpp_network_programming.Duplex.{
  Uuid, Session, Op, read, write, Source, Server, Result, ok, use_after_free, pending, start_accept,
  held_by, on_read, on_write,
}
use cpp_network_programming.Duplex.Orderly.{writes_of, busy, Orderly, Step, without, booted, ok_inj}
use cpp_network_programming.Duplex.Faultless.{Step-Orderly, booted-Orderly}
use cpp_network_programming.Duplex.Keys.{Keyed}
use cpp_network_programming.Duplex.Uuids.{Step-Keyed}
use cpp_network_programming.Duplex.Cleared.{
  left, left_result, left-Orderly, left-Keyed, left-dead, left-count, write_under_way,
}

-- Besides what succeeds, a client may disconnect while its session has nothing to write.
pub data Event (s : Server) (r : Result) : Type 0 where
  succeeded : Step s r → Event s r
  disconnected :
      (before after : List Op) (garbage id : ℕ) (bytes : Bytes)
      → s.ops ≡ before ++ read id ∷ after
      → busy s id ≡ false
      → r ≡ on_read garbage true bytes id (without s (before ++ after))
      → Event s r

pub data History : Server → Type 0 where
  boot :
      (objects : ℕ → Session) (uuid : Uuid)
      → ((i : ℕ) → pending (objects i).send_queue ≡ false)
      → History (booted objects uuid)
  next : {s t : Server} → History s → Event s (ok t) → History t

-- The operations agree with the sessions, and no two sessions in the map have one uuid.
pub record Sound (s : Server) : Type 0 where
  pub orderly : Orderly s
  pub keyed : Keyed s.objects s.sessions

Event-Sound : {s : Server} {r : Result} → Sound s → Event s r → (t : Server) × (r ≡ ok t) × Sound t
Event-Sound {s} v (succeeded step) =
    let (t, e, o) = Step-Orderly v.orderly step in
    (t, e, record { orderly = o; keyed = Step-Keyed v.orderly (subst (Step s) e step) v.keyed })
Event-Sound {s} v (disconnected before after garbage id bytes e idle er) = (
  _,
  er ∙ left_result before after id s v.orderly v.keyed e garbage bytes,
  record {
    orderly = left-Orderly before after id s v.orderly v.keyed e garbage bytes idle;
    keyed = left-Keyed before after id s v.orderly v.keyed e garbage bytes;
  },
)

booted-Keyed : (objects : ℕ → Session) (uuid : Uuid) → Keyed (booted objects uuid).objects []
unfolding held_by
booted-Keyed objects uuid = record { own = tt; unique = λ i j hi hj e. absurd (Bool-clash hi refl) }

pub History-Sound : {s : Server} → History s → Sound s
unfolding start_accept
History-Sound (boot objects uuid quiet) = record {
  orderly = booted-Orderly objects uuid quiet;
  keyed = booted-Keyed objects uuid;
}
History-Sound (next h ev) = let (t', e, v) = Event-Sound (History-Sound h) ev in rw (ok_inj e) v

-- While writes succeed, no uuid is given twice, and clients disconnect only when their session has
-- nothing to write: every callback finds its session alive and its queue filled, the server goes
-- on, and what is under way agrees with the sessions again.
pub History-safe :
    {s : Server} {r : Result} → History s → Event s r → (t : Server) × (r ≡ ok t) × Sound t
History-safe h ev = Event-Sound (History-Sound h) ev

-- After a history in which writes succeed, no uuid is given twice and clients disconnect only when
-- their session has nothing to write: if a client now disconnects while its session writes, the
-- session is destroyed at once, its write is still under way, and the callback of that write,
-- whether it succeeds or not, calls a session that is gone.
pub disconnect_busy :
    {s : Server} (before after : List Op) (garbage id : ℕ) (bytes : Bytes)
    → History s
    → s.ops ≡ before ++ read id ∷ after
    → busy s id ≡ true
    → (t : Server) × (on_read garbage true bytes id (without s (before ++ after)) ≡ ok t)
      × ((before' : List Op) × (after' : List Op) × (source : Source) × (t.ops
            ≡ before' ++ write id source ∷ after')
          × ((error : Bool) → on_write error id (without t (before' ++ after')) ≡ use_after_free))
disconnect_busy {s} before after garbage id bytes h e writing =
    let v = History-Sound h in
    let t = left before after id s v.orderly v.keyed e garbage bytes in
    let (before', after', source, at_write) = write_under_way id t.ops (
      ground (
        arith,
        left-count before after id s v.orderly v.keyed e garbage bytes (writes_of id),
        v.orderly.one_write id,
        writing,
      )) in
    let dead =
      left-dead before after id s v.orderly v.keyed e garbage bytes before' after' source
        at_write in
    (
      t,
      left_result before after id s v.orderly v.keyed e garbage bytes,
      (before', after', source, at_write, λ error. unfold on_write in if_false _ _ _ dead),
    )
