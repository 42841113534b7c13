-- ===== src/Duplex/Orderly.antt =====
-- Histories of 03_full_duplex_server in which nothing fails: the operations that are under way, and
-- how they agree with the sessions.
use cpp_network_programming.Base.{
  count, ℕ, ◌+◌, ◌≤◌, ◌≡◌, Bool, true, false, List, [], ◌∷◌, ◌++◌, Bytes, ◌==◌,
}
use cpp_network_programming.Duplex.{
  Uuid, Session, Op, accept, read, write, Source, Server, Result, ok, erase, pending, handle_accept,
  start_accept, held_by, on_read, on_write,
}

abbrev pub bit : Bool → ℕ
bit true = 1
bit false = 0

abbrev pub reads_of : ℕ → Op → ℕ
reads_of i (accept j) = 0
reads_of i (read j) = bit (j == i)
reads_of i (write j source) = 0

abbrev pub writes_of : ℕ → Op → ℕ
writes_of i (accept j) = 0
writes_of i (read j) = 0
writes_of i (write j source) = bit (j == i)

abbrev pub accepts_of : ℕ → Op → ℕ
accepts_of i (accept j) = bit (j == i)
accepts_of i (read j) = 0
accepts_of i (write j source) = 0

abbrev pub busy : Server → ℕ → Bool
busy s i = pending (s.objects i).send_queue

-- Each session in the map reads, and writes exactly while its queue holds a message; a session that
-- is being accepted, or that no number has been given to yet, does neither.
pub record Orderly (s : Server) : Type 0 where
  pub one_read : (i : ℕ) → count (reads_of i) s.ops ≡ bit (held_by i s.sessions)
  pub one_write : (i : ℕ) → count (writes_of i) s.ops ≡ bit (busy s i)
  pub held_if_busy : (i : ℕ) → bit (busy s i) ≤ bit (held_by i s.sessions)
  pub one_owner : (i : ℕ) → bit (held_by i s.sessions) + count (accepts_of i) s.ops ≤ 1
  pub unused : (i : ℕ) → s.next_id ≤ i → bit (held_by i s.sessions) + count (accepts_of i) s.ops ≡ 0

abbrev pub without : Server → List Op → Server
without s ops = record s { ops = ops }

-- An operation succeeds, and the callback has a result. A new uuid is one that no session has.
pub data Step (s : Server) (r : Result) : Type 0 where
  accepted :
      (before after : List Op) (id : ℕ) (uuid : Uuid)
      → s.ops ≡ before ++ accept id ∷ after
      → erase (s.objects id).uuid s.sessions ≡ s.sessions
      → r ≡ ok (handle_accept false uuid id (without s (before ++ after)))
      → Step s r
  accept_failed :
      (before after : List Op) (id : ℕ) (uuid : Uuid)
      → s.ops ≡ before ++ accept id ∷ after
      → r ≡ ok (handle_accept true uuid id (without s (before ++ after)))
      → Step s r
  received :
      (before after : List Op) (garbage id : ℕ) (bytes : Bytes)
      → s.ops ≡ before ++ read id ∷ after
      → r ≡ on_read garbage false bytes id (without s (before ++ after))
      → Step s r
  written :
      (before after : List Op) (id : ℕ) (source : Source)
      → s.ops ≡ before ++ write id source ∷ after
      → r ≡ on_write false id (without s (before ++ after))
      → Step s r

pub ok_inj : {s t : Server} → ok s ≡ ok t → s ≡ t
ok_inj e = cc

-- The constructor of CServer starts the first accept.
abbrev pub booted : (ℕ → Session) → Uuid → Server
booted objects uuid =
    start_accept uuid (record { sessions = []; objects = objects; next_id = 0; ops = [] })

pub data Reach : Server → Type 0 where
  boot :
      (objects : ℕ → Session) (uuid : Uuid)
      → ((i : ℕ) → pending (objects i).send_queue ≡ false)
      → Reach (booted objects uuid)
  next : {s t : Server} → Reach s → Step s (ok t) → Reach t
