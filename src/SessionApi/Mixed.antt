-- ===== src/SessionApi/Mixed.antt =====
-- Sessions of asio/async/00_session_api that are written and read in any order of the operations.
pub mod Bounds
pub mod Tests
use mathlib.Core.Path.{subst}
use cpp_network_programming.Base.{
  ℕ, ◌+◌, ◌-◌, ◌≤◌, ◌<◌, ◌≡◌, ◌⊎◌, inl, inr, refl, sym, ap, ◌∙◌, Bool, true, false, Option, none,
  some, some_inj, List, [], ◌∷◌, ◌++◌, arith, Bytes, length, take_all, ltb, ltb→lt, if◌then◌else◌,
  if_true, if_false, ◌==◌, Bool-cases, Bool-clash, length-write_at,
}
use cpp_network_programming.SessionApi.{
  MsgNode, ReadOp, Session, session, recv_size, read_node, start_read, start_write, send_next,
  write_front, write_callback, write_callback_err, write_to_socket, write_to_socket_err,
  write_all_to_socket, write_all_callback, read_callback, read_from_socket, read_all_from_socket,
}
use cpp_network_programming.SessionApi.Reads.{store, next_read}
use cpp_network_programming.SessionApi.Flaws.{
  Call, sends, sends_all, sends_err, wrote, wrote_all, wrote_err, got, got_all, reads_some,
  reads_all, call,
}

-- What the caller does, and the callbacks of writes; the memory of a new node has its size.
abbrev pub IsOwn : Call → Type 0
IsOwn (got ec n) = ⊥
IsOwn (got_all ec n) = ⊥
IsOwn (reads_some garbage) = length garbage ≡ recv_size
IsOwn (reads_all garbage) = length garbage ≡ recv_size
IsOwn (sends buf) = Unit
IsOwn (sends_all buf) = Unit
IsOwn (sends_err buf) = Unit
IsOwn (wrote ec n) = Unit
IsOwn (wrote_all ec n) = Unit
IsOwn (wrote_err ec n) = Unit

-- A read completes, with an error or without, when the system has put `d` into the node. Its
-- callback is ReadCallBack, whichever function has started it.
pub data Event (s t : Session) : Type 0 where
  called : (c : Call) → IsOwn c → call c s ≡ some t → Event s t
  completed :
      (op : ReadOp) (rest : List ReadOp) (ec : ℕ) (d : Bytes)
      → s.reads ≡ op ∷ rest
      → length d ≤ op.size
      → read_callback ec (length d) (store op d (record s { reads = rest })) ≡ some t
      → Event s t

pub data Runs : Session → Type 0 where
  fresh : Runs session
  next : {s t : Session} → Runs s → Event s t → Runs t

-- The side of a session that reads.
record SameReads (s t : Session) : Type 0 where
  node : t.recv_node ≡ s.recv_node
  pending : t.recv_pending ≡ s.recv_pending
  reads : t.reads ≡ s.reads

send_next-SameReads : (queue : List MsgNode) (s : Session) → SameReads s (send_next queue s)
unfolding send_next start_write
send_next-SameReads [] s = record { node = refl; pending = refl; reads = refl }
send_next-SameReads (node ∷ queue) s = record { node = refl; pending = refl; reads = refl }

write_front-SameReads :
    (n : ℕ) (queue : List MsgNode) (s t : Session) → write_front n queue s ≡ some t → SameReads s t
unfolding write_front start_write
write_front-SameReads n [] s t e = cc
write_front-SameReads n (front ∷ queue) s t e =
    subst (SameReads s) (some_inj e) (elim (Bool-cases (ltb (front.cur_len + n) front.total_len)) [
      | inl more ↦
          subst (SameReads s) (sym (if_true _ _ _ more))
            (record { node = refl; pending = refl; reads = refl })
      | inr last ↦ subst (SameReads s) (sym (if_false _ _ _ last)) (send_next-SameReads queue s)
    ])

write_to_socket-SameReads : (buf : Bytes) (s : Session) → SameReads s (write_to_socket buf s)
unfolding write_to_socket start_write
write_to_socket-SameReads buf s = record {
  node = ground arith;
  pending = ground arith;
  reads = ground arith;
}

write_all_to_socket-SameReads :
    (buf : Bytes) (s : Session) → SameReads s (write_all_to_socket buf s)
unfolding write_all_to_socket start_write
write_all_to_socket-SameReads buf s = record {
  node = ground arith;
  pending = ground arith;
  reads = ground arith;
}

write_callback-SameReads :
    (ec n : ℕ) (s t : Session) → write_callback ec n s ≡ some t → SameReads s t
unfolding write_callback
write_callback-SameReads ec n s t e = elim (Bool-cases (ec == 0)) [
  | inl fine ↦ write_front-SameReads n s.send_queue s t (sym (if_true _ _ _ fine) ∙ e)
  | inr failed ↦
      subst (SameReads s) (some_inj (sym (if_false _ _ _ failed) ∙ e))
        (record { node = refl; pending = refl; reads = refl })
]

popped-SameReads :
    (queue : List MsgNode) (s t : Session)
    → elim queue as (λ q. Option Session) [ [] ↦ none | front ∷ rest ↦ some (send_next rest s) ]
      ≡ some t
    → SameReads s t
popped-SameReads [] s t e = cc
popped-SameReads (front ∷ rest) s t e =
    subst (SameReads s) (some_inj e) (send_next-SameReads rest s)

write_all_callback-SameReads :
    (ec n : ℕ) (s t : Session) → write_all_callback ec n s ≡ some t → SameReads s t
unfolding write_all_callback
write_all_callback-SameReads ec n s t e = elim (Bool-cases (ec == 0)) [
  | inl fine ↦ popped-SameReads s.send_queue s t (sym (if_true _ _ _ fine) ∙ e)
  | inr failed ↦
      subst (SameReads s) (some_inj (sym (if_false _ _ _ failed) ∙ e))
        (record { node = refl; pending = refl; reads = refl })
]

write_callback_err-SameReads :
    (ec n : ℕ) (s t : Session) → write_callback_err ec n s ≡ some t → SameReads s t
unfolding write_callback_err start_write
write_callback_err-SameReads ec n s t e = record {
  node = ground arith;
  pending = ground arith;
  reads = ground arith;
}

-- A read was started: its node has the full size, and the pending read is for what is missing.
pub record Reading (s : Session) : Type 0 where
  pub node : MsgNode
  pub held : s.recv_node ≡ some node
  pub total : node.total_len ≡ recv_size
  pub sized : length node.msg ≡ recv_size
  pub fits : node.cur_len ≤ recv_size
  pub reads : s.reads ≡ next_read recv_size node.cur_len
  pub pending : s.recv_pending ≡ true

-- No read was started, or one was.
abbrev Sides : Session → Type 0
Sides s = ((s.reads ≡ []) × (s.recv_pending ≡ false)) ⊎ Reading s

SameReads-Sides : {s t : Session} → SameReads s t → Sides s → Sides t
SameReads-Sides h (inl (none_read, idle)) = inl (h.reads ∙ none_read, h.pending ∙ idle)
SameReads-Sides h (inr v) = inr (record {
  node = v.node;
  held = h.node ∙ v.held;
  total = v.total;
  sized = v.sized;
  fits = v.fits;
  reads = h.reads ∙ v.reads;
  pending = h.pending ∙ v.pending;
})

started-Reading :
    (garbage : Bytes) (s : Session)
    → length garbage ≡ recv_size
    → s.reads ≡ []
    → Reading (
        start_read 0 recv_size
          (record s { recv_node = some (read_node garbage recv_size); recv_pending = true }))
unfolding start_read read_node
started-Reading garbage s sized none_read = record {
  node = read_node garbage recv_size;
  held = refl;
  total = refl;
  sized = ap length (take_all recv_size garbage (omega arith)) ∙ sized;
  fits = omega arith;
  reads = ap (λ rs. rs ++ record { offset = 0; size = recv_size } ∷ []) none_read;
  pending = refl;
}

started-Sides :
    (garbage : Bytes) (s : Session)
    → length garbage ≡ recv_size
    → Sides s
    → Sides (read_from_socket garbage s)
unfolding read_from_socket
started-Sides garbage s sized (inl (none_read, idle)) =
    inr (subst Reading (sym (if_false _ _ _ idle)) (started-Reading garbage s sized none_read))
started-Sides garbage s sized (inr v) = inr (subst Reading (sym (if_true _ _ _ v.pending)) v)

started_all-Sides :
    (garbage : Bytes) (s : Session)
    → length garbage ≡ recv_size
    → Sides s
    → Sides (read_all_from_socket garbage s)
unfolding read_all_from_socket
started_all-Sides garbage s sized (inl (none_read, idle)) =
    inr (subst Reading (sym (if_false _ _ _ idle)) (started-Reading garbage s sized none_read))
started_all-Sides garbage s sized (inr v) = inr (subst Reading (sym (if_true _ _ _ v.pending)) v)

pub called-Sides : (c : Call) (s t : Session) → IsOwn c → call c s ≡ some t → Sides s → Sides t
unfolding call write_to_socket_err start_write
called-Sides (sends buf) s t own e h =
    subst Sides (some_inj e) (SameReads-Sides (write_to_socket-SameReads buf s) h)
called-Sides (sends_all buf) s t own e h =
    subst Sides (some_inj e) (SameReads-Sides (write_all_to_socket-SameReads buf s) h)
called-Sides (sends_err buf) s t own e h =
    subst Sides (some_inj e)
      (SameReads-Sides (record { node = refl; pending = refl; reads = refl }) h)
called-Sides (wrote ec n) s t own e h = SameReads-Sides (write_callback-SameReads ec n s t e) h
called-Sides (wrote_all ec n) s t own e h =
    SameReads-Sides (write_all_callback-SameReads ec n s t e) h
called-Sides (wrote_err ec n) s t own e h =
    SameReads-Sides (write_callback_err-SameReads ec n s t e) h
called-Sides (got ec n) s t own e h = absurd own
called-Sides (got_all ec n) s t own e h = absurd own
called-Sides (reads_some garbage) s t own e h =
    subst Sides (some_inj e) (started-Sides garbage s own h)
called-Sides (reads_all garbage) s t own e h =
    subst Sides (some_inj e) (started_all-Sides garbage s own h)
