-- ===== src/GoodEcho/Reachable.antt =====
-- Histories of 02_good_echo_server.
use cpp_network_programming.Base.{ℕ, ◌≡◌, Bool, List, [], ◌∷◌, ◌++◌, Bytes}
use cpp_network_programming.Duplex.{Uuid, erase}
use cpp_network_programming.GoodEcho.{
  Op, accept, first_read, read, write, Session, Server, Result, ok, handle_accept, start_accept,
  on_first_read, on_read, on_write,
}

abbrev pub without : Server → List Op → Server
without s ops = record s { ops = ops }

-- An operation completes, with an error or without; only what was started does. A new
-- uuid is one that no session in the map has.
pub data Step (s : Server) (r : Result) : Type 0 where
  accepted :
      (before after : List Op) (id : ℕ) (error : Bool) (uuid : Uuid)
      → s.ops ≡ before ++ accept id ∷ after
      → erase (s.objects id).uuid s.sessions ≡ s.sessions
      → r ≡ ok (handle_accept error uuid id (without s (before ++ after)))
      → Step s r
  received_first :
      (before after : List Op) (id : ℕ) (error : Bool) (bytes : Bytes)
      → s.ops ≡ before ++ first_read id ∷ after
      → r ≡ on_first_read error bytes id (without s (before ++ after))
      → Step s r
  received :
      (before after : List Op) (id : ℕ) (error : Bool) (bytes : Bytes)
      → s.ops ≡ before ++ read id ∷ after
      → r ≡ on_read error bytes id (without s (before ++ after))
      → Step s r
  written :
      (before after : List Op) (id n : ℕ) (error : Bool)
      → s.ops ≡ before ++ write id n ∷ after
      → r ≡ on_write error id (without s (before ++ after))
      → Step s r

-- The constructor of CServer starts the first accept.
abbrev pub booted : (ℕ → Session) → Uuid → Server
booted objects uuid =
    start_accept uuid (record { sessions = []; objects = objects; next_id = 0; ops = [] })

pub data Reach : Server → Type 0 where
  boot : (objects : ℕ → Session) (uuid : Uuid) → Reach (booted objects uuid)
  next : {s t : Server} → Reach s → Step s (ok t) → Reach t
