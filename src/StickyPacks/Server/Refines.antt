-- ===== src/StickyPacks/Server/Refines.antt =====
-- The steps of 04_sticky_packs in which nothing fails are steps of 03_full_duplex_server.
use cpp_network_programming.Base.{
  ℕ, ◌≡◌, refl, ap, ◌∙◌, false, true, List, [], ◌∷◌, ◌++◌, map, map-append, Bytes, length, drop,
}
use cpp_network_programming.Duplex
use cpp_network_programming.Duplex.Orderly
use cpp_network_programming.Duplex.Orderly.{Orderly, bit, busy, reads_of, writes_of}
use cpp_network_programming.StickyPacks.{MsgNode}
use cpp_network_programming.StickyPacks.Server.{
  Session, Source, Op, accept, read, write, Server, Result, ok, use_after_free, pop_empty,
  handle_accept, start_accept, on_read, on_write,
}
use cpp_network_programming.StickyPacks.Server.Projection.{
  node, op, server, result, found, server-handle_accept, result-on_read, result-on_write,
}

abbrev pub without : Server → List Op → Server
without s ops = record s { ops = ops }

-- An operation succeeds. A new uuid is one that no session has.
pub data Step (s : Server) (r : Result) : Type 0 where
  accepted :
      (before after : List Op) (id : ℕ) (uuid : Duplex.Uuid)
      → s.ops ≡ before ++ accept id ∷ after
      → Duplex.erase (s.objects id).uuid s.sessions ≡ s.sessions
      → r ≡ ok (handle_accept false uuid id (without s (before ++ after)))
      → Step s r
  accept_failed :
      (before after : List Op) (id : ℕ) (uuid : Duplex.Uuid)
      → s.ops ≡ before ++ accept id ∷ after
      → r ≡ ok (handle_accept true uuid id (without s (before ++ after)))
      → Step s r
  received :
      (before after : List Op) (id : ℕ) (bytes : Bytes)
      → s.ops ≡ before ++ read id ∷ after
      → r ≡ on_read false bytes id (without s (before ++ after))
      → Step s r
  written :
      (before after : List Op) (id : ℕ) (source : Source)
      → s.ops ≡ before ++ write id source ∷ after
      → r ≡ on_write false id (without s (before ++ after))
      → Step s r

-- The constructor of CServer starts the first accept.
abbrev pub booted : (ℕ → Session) → Duplex.Uuid → Server
booted objects uuid =
    start_accept uuid (record { sessions = []; objects = objects; next_id = 0; ops = [] })

module _ (max_len_ : MsgNode → ℕ) where
  pub middle :
      (s : Server) (before after : List Op) (o : Op)
      → s.ops ≡ before ++ o ∷ after
      → map (op max_len_) s.ops
        ≡ map (op max_len_) before ++ op max_len_ o ∷ map (op max_len_) after
  middle s before after o e = ap (map (op max_len_)) e ∙ map-append (op max_len_) before (o ∷ after)

  pub server-without :
      (s : Server) (before after : List Op)
      → server max_len_ (without s (before ++ after))
        ≡ Orderly.without (server max_len_ s) (map (op max_len_) before ++ map (op max_len_) after)
  server-without s before after =
      ap (λ ops. record (server max_len_ s) { ops = ops }) (map-append (op max_len_) before after)

  pub Step-server :
      (s : Server) (r : Result) → Step s r → Orderly.Step (server max_len_ s) (result max_len_ r)
  Step-server s r (accepted before after id uuid e new c) =
      Orderly.accepted _ _ id uuid (middle s before after (accept id) e) new (
        ap (result max_len_) c
        ∙ ap Duplex.ok (
            server-handle_accept max_len_ false uuid id _
            ∙ ap (Duplex.handle_accept false uuid id) (server-without s before after)))
  Step-server s r (accept_failed before after id uuid e c) =
      Orderly.accept_failed _ _ id uuid (middle s before after (accept id) e) (
        ap (result max_len_) c
        ∙ ap Duplex.ok (
            server-handle_accept max_len_ true uuid id _
            ∙ ap (Duplex.handle_accept true uuid id) (server-without s before after)))
  Step-server s r (received before after id bytes e c) =
      let garbage =
        found max_len_ (length bytes) (bytes ++ drop (length bytes) (s.objects id).data_) in
      Orderly.received _ _ garbage id bytes (middle s before after (read id) e) (
        ap (result max_len_) c
        ∙ result-on_read max_len_ false bytes id (without s (before ++ after))
        ∙ ap (Duplex.on_read garbage false bytes id) (server-without s before after))
  Step-server s r (written before after id (Source.own_data n) e c) =
      Orderly.written _ _ id (Duplex.own_data n)
        (middle s before after (write id (Source.own_data n)) e)
        (ap (result max_len_) c
          ∙ result-on_write max_len_ false id (without s (before ++ after))
          ∙ ap (Duplex.on_write false id) (server-without s before after))
  Step-server s r (written before after id (Source.node_data m) e c) =
      Orderly.written _ _ id (Duplex.node_data (node max_len_ m))
        (middle s before after (write id (Source.node_data m)) e)
        (ap (result max_len_) c
          ∙ result-on_write max_len_ false id (without s (before ++ after))
          ∙ ap (Duplex.on_write false id) (server-without s before after))

  pub result-ok :
      (r : Result) (t' : Duplex.Server)
      → result max_len_ r ≡ Duplex.ok t'
      → (t : Server) × (r ≡ ok t) × (server max_len_ t ≡ t')
  result-ok (ok t) t' e = (t, refl, cc)
  result-ok use_after_free t' e = cc
  result-ok pop_empty t' e = cc
