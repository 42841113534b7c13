-- ===== src/GoodEcho/NoEcho.antt =====
-- The server of 02_good_echo_server never echoes.
use mathlib.Core.Path.{subst}
use cpp_network_programming.Base.{
  ℕ, ◌≡◌, refl, sym, ◌∙◌, arith, All-map, Bool, true, false, List, [], ◌∷◌, ◌++◌, Bytes, All,
  All-append, inl, inr, ◌⊎◌,
}
use cpp_network_programming.Duplex.{Uuid, erase, held_by}
use cpp_network_programming.GoodEcho.{
  Op, accept, first_read, read, write, Server, Result, ok, bad_weak_ptr, add_op, put, start,
  handle_accept, start_accept, shared_from_this, is_alive, on_first_read,
}
use cpp_network_programming.GoodEcho.Reachable.{
  without, Step, accepted, received_first, received, written, Reach, boot, next,
}

-- The operations of a server that has not got a byte yet: accepts, and first reads of the sessions
-- in the map.
abbrev IsInitial : List (Uuid × ℕ) → Op → Type 0
IsInitial sessions (accept id) = Unit
IsInitial sessions (first_read id) = held_by id sessions ≡ true
IsInitial sessions (read id) = ⊥
IsInitial sessions (write id n) = ⊥

abbrev pub Initial : Server → Type 0
Initial s = All (IsInitial s.sessions) s.ops

split-All :
    (m : List (Uuid × ℕ)) (before : List Op) (op : Op) (after : List Op)
    → All (IsInitial m) (before ++ op ∷ after)
    → IsInitial m op × All (IsInitial m) (before ++ after)
split-All m [] op after h = h
split-All m (b ∷ before) op after h =
    let (one, rest) = split-All m before op after h.1 in (one, (h.0, rest))

-- A session more in the map.
held_more :
    (u : Uuid) (i : ℕ) (m : List (Uuid × ℕ)) (op : Op) → IsInitial m op → IsInitial ((u, i) ∷ m) op
unfolding held_by
held_more u i m (accept id) h = tt
held_more u i m (first_read id) h = ground (arith, h)
held_more u i m (read id) h = h
held_more u i m (write id n) h = h

held_new : (u : Uuid) (i : ℕ) (m : List (Uuid × ℕ)) → held_by i ((u, i) ∷ m) ≡ true
unfolding held_by
held_new u i m = ground arith

on_first_read-fails :
    (error : Bool) (bytes : Bytes) (id : ℕ) (s : Server)
    → held_by id s.sessions ≡ true
    → on_first_read error bytes id s ≡ bad_weak_ptr
unfolding on_first_read shared_from_this is_alive
on_first_read-fails error bytes id s held = rw held refl

start_accept-Initial : (uuid : Uuid) (s : Server) → Initial s → Initial (start_accept uuid s)
unfolding start_accept add_op put
start_accept-Initial uuid s h =
    All-append (IsInitial s.sessions) s.ops (accept s.next_id ∷ []) h (tt, tt)

handle_accept-Initial :
    (error : Bool) (uuid : Uuid) (id : ℕ) (s : Server)
    → erase (s.objects id).uuid s.sessions ≡ s.sessions
    → Initial s
    → Initial (handle_accept error uuid id s)
unfolding handle_accept start add_op
handle_accept-Initial true uuid id s new h = start_accept-Initial uuid s h
handle_accept-Initial false uuid id s new h =
    let own = (s.objects id).uuid in
    let more = (own, id) ∷ s.sessions in
    let opened =
      All-append (IsInitial more) s.ops (first_read id ∷ [])
        (All-map (held_more own id s.sessions) s.ops h) (held_new own id s.sessions, tt) in
    start_accept-Initial uuid (record (start id s) { sessions = (own, id) ∷ erase own s.sessions })
      (subst (λ m. All (IsInitial ((own, id) ∷ m)) (s.ops ++ first_read id ∷ [])) (sym new) opened)

-- What a callback can leave: a server that has not echoed, or the end.
abbrev pub Outcome : Result → Type 0
Outcome r = ((t : Server) × ((r ≡ ok t) × Initial t)) ⊎ (r ≡ bad_weak_ptr)

Step-Outcome : {s : Server} {r : Result} → Step s r → Initial s → Outcome r
Step-Outcome {s} (accepted before after id error uuid e new c) h =
    let (one, rest) =
      split-All s.sessions before (accept id) after (subst (All (IsInitial s.sessions)) e h) in
    inl (_, (c, handle_accept-Initial error uuid id (without s (before ++ after)) new rest))
Step-Outcome {s} (received_first before after id error bytes e c) h =
    let (held, rest) =
      split-All s.sessions before (first_read id) after (subst (All (IsInitial s.sessions)) e h) in
    inr (c ∙ on_first_read-fails error bytes id (without s (before ++ after)) held)
Step-Outcome {s} (received before after id error bytes e c) h =
    absurd (split-All s.sessions before (read id) after (subst (All (IsInitial s.sessions)) e h)).0
Step-Outcome {s} (written before after id n error e c) h =
    absurd
      (split-All s.sessions before (write id n) after (subst (All (IsInitial s.sessions)) e h)).0

ok-Outcome : (t : Server) → Outcome (ok t) → Initial t
ok-Outcome t (inl u) = let same : t ≡ u.0 = cc (u.1.0) in subst Initial (sym same) u.1.1
ok-Outcome t (inr e) = cc

Reach-Initial : {s : Server} → Reach s → Initial s
unfolding start_accept add_op put
Reach-Initial (boot objects uuid) = (tt, tt)
Reach-Initial (next r st) = ok-Outcome _ (Step-Outcome st (Reach-Initial r))

-- As long as no uuid is given twice: whatever completes, with an error or without, the server has
-- started accepts, and the first reads of sessions that are in its map, and nothing else, no write
-- in particular; and so it stays, or the exception bad_weak_ptr ends it.
pub Reach-never_echoes : {s : Server} {r : Result} → Reach s → Step s r → Initial s × Outcome r
Reach-never_echoes r st = (Reach-Initial r, Step-Outcome st (Reach-Initial r))

-- No read of which the session was asked for a shared pointer is ever under way.
pub no_later_read :
    {s : Server} (before after : List Op) (id : ℕ) → Reach s → ¬ (s.ops ≡ before ++ read id ∷ after)
no_later_read {s} before after id r e =
    (split-All s.sessions before (read id) after
      (subst (All (IsInitial s.sessions)) e (Reach-Initial r))).0

-- As long as no uuid is given twice, the first read that completes ends the server by the exception
-- bad_weak_ptr, whether it failed or not and whatever it brought; it never finds its session gone.
pub first_read_throws :
    {s : Server} (id : ℕ) (error : Bool) (bytes : Bytes) (before after : List Op)
    → Reach s
    → s.ops ≡ before ++ first_read id ∷ after
    → on_first_read error bytes id (without s (before ++ after)) ≡ bad_weak_ptr
first_read_throws {s} id error bytes before after r e =
    on_first_read-fails error bytes id (without s (before ++ after))
      (split-All s.sessions before (first_read id) after
        (subst (All (IsInitial s.sessions)) e (Reach-Initial r))).0
