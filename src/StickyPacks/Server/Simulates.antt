-- ===== src/StickyPacks/Server/Simulates.antt =====
-- 04_sticky_packs with operations that fail, and its accepts, against 03_full_duplex_server.
use mathlib.Core.Path.{subst}
use cpp_network_programming.Base.{
  ℕ, ◌≡◌, sym, ap, ◌∙◌, Bool, List, ◌∷◌, ◌++◌, map, Bytes, length, drop, count, refl, [], false,
  replicate,
}
use cpp_network_programming.Duplex
use cpp_network_programming.Duplex.Accepting as Accepting
use cpp_network_programming.StickyPacks.{MsgNode}
use cpp_network_programming.StickyPacks.Server.{
  add_op, max_length, put, start, start_accept, Session, Source, Op, accept, read, write, Server,
  Result, ok, handle_accept, on_read, on_write,
}
use cpp_network_programming.StickyPacks.Server.Projection.{
  node, session, op, server, result, found, server-handle_accept, server-start_accept,
  result-on_read, result-on_write,
}
use cpp_network_programming.StickyPacks.Server.Refines.{without, booted, middle, server-without}

-- An operation completes, with an error or without; only what was started does.
pub data Completes (s : Server) (r : Result) : Type 0 where
  accepted :
      (before after : List Op) (id : ℕ) (error : Bool) (uuid : Duplex.Uuid)
      → s.ops ≡ before ++ accept id ∷ after
      → r ≡ ok (handle_accept error uuid id (without s (before ++ after)))
      → Completes s r
  received :
      (before after : List Op) (id : ℕ) (error : Bool) (bytes : Bytes)
      → s.ops ≡ before ++ read id ∷ after
      → r ≡ on_read error bytes id (without s (before ++ after))
      → Completes s r
  written :
      (before after : List Op) (id : ℕ) (source : Source) (error : Bool)
      → s.ops ≡ before ++ write id source ∷ after
      → r ≡ on_write error id (without s (before ++ after))
      → Completes s r

pub data Runs : Server → Type 0 where
  boot : (objects : ℕ → Session) (uuid : Duplex.Uuid) → Runs (booted objects uuid)
  next : {s t : Server} → Runs s → Completes s (ok t) → Runs t

module _ (max_len_ : MsgNode → ℕ) where
  wrote :
      (s : Server) (r : Result) (before after : List Op) (id : ℕ) (error : Bool)
      → r ≡ on_write error id (without s (before ++ after))
      → result max_len_ r
        ≡ Duplex.on_write error id (record (server max_len_ s) {
          ops = map (op max_len_) before ++ map (op max_len_) after;
        })
  wrote s r before after id error c =
      ap (result max_len_) c
      ∙ result-on_write max_len_ error id (without s (before ++ after))
      ∙ ap (Duplex.on_write error id) (server-without max_len_ s before after)

  pub Completes-server :
      (s : Server) (r : Result)
      → Completes s r
      → Accepting.Completes (server max_len_ s) (result max_len_ r)
  Completes-server s r (accepted before after id error uuid e c) =
      Accepting.accepted _ _ id error uuid (middle max_len_ s before after (accept id) e) (
        ap (result max_len_) c
        ∙ ap Duplex.ok (
            server-handle_accept max_len_ error uuid id _
            ∙ ap (Duplex.handle_accept error uuid id) (server-without max_len_ s before after)))
  Completes-server s r (received before after id error bytes e c) =
      let garbage =
        found max_len_ (length bytes) (bytes ++ drop (length bytes) (s.objects id).data_) in
      Accepting.received _ _ garbage id error bytes (middle max_len_ s before after (read id) e) (
        ap (result max_len_) c
        ∙ result-on_read max_len_ error bytes id (without s (before ++ after))
        ∙ ap (Duplex.on_read garbage error bytes id) (server-without max_len_ s before after))
  Completes-server s r (written before after id (Source.own_data n) error e c) =
      Accepting.written _ _ id (Duplex.own_data n) error
        (middle max_len_ s before after (write id (Source.own_data n)) e)
        (wrote s r before after id error c)
  Completes-server s r (written before after id (Source.node_data m) error e c) =
      Accepting.written _ _ id (Duplex.node_data (node max_len_ m)) error
        (middle max_len_ s before after (write id (Source.node_data m)) e)
        (wrote s r before after id error c)

  pub Runs-server : {s : Server} → Runs s → Accepting.Runs (server max_len_ s)
  Runs-server (boot objects uuid) =
      subst Accepting.Runs (sym (server-start_accept max_len_ uuid _))
        (Accepting.boot (λ i. session max_len_ (objects i)) uuid)
  Runs-server (next {s} {t} r step) =
      Accepting.next (Runs-server r) (Completes-server s (ok t) step)

  -- Whatever operations fail, in whatever order they complete: each callback of 04_sticky_packs is
  -- one that 03_full_duplex_server may run on the server without the lengths, with the same
  -- outcome, undefined or not, whatever the missing `max_len_` were; and one accept is under way.
  pub Completes-refines :
      {s : Server} {r : Result}
      → Runs s
      → Completes s r
      → Accepting.Runs (server max_len_ s)
        × Accepting.Completes (server max_len_ s) (result max_len_ r)
        × (count Accepting.is_accept (map (op max_len_) s.ops) ≡ 1)
  Completes-refines {s} {r} runs step =
      let runs' = Runs-server runs in
      (runs', Completes-server s r step, Accepting.Runs-accepts runs')

-- One client has been accepted.
pub first_client :
    (s : Server) × Runs s
    × (s.ops ≡ read 0 ∷ accept 1 ∷ [])
    × ((s.objects 0).data_ ≡ replicate max_length 0)
unfolding start start_accept handle_accept add_op put
first_client =
    let nobody : ℕ → Session = λ i. record { uuid = []; data_ = []; send_queue = [] } in
    (
      handle_accept false [] 0 (without (booted nobody []) []),
      next (boot nobody []) (accepted [] [] 0 false [] refl refl),
      refl,
      refl,
    )
