-- ===== src/StickyPacks/Server/Freed.antt =====
-- Sessions of 04_sticky_packs that are destroyed while an operation of theirs is under way.
use cpp_network_programming.Base.{
  ℕ, ◌≡◌, refl, sym, ap, ◌∙◌, Bool, true, List, ◌∷◌, ◌++◌, map, Bytes,
}
use cpp_network_programming.Duplex
use cpp_network_programming.Duplex.Orderly as Orderly
use cpp_network_programming.Duplex.Disconnects as DuplexDisconnects
use cpp_network_programming.Duplex.WriteErrors as DuplexWriteErrors
use cpp_network_programming.StickyPacks.{MsgNode}
use cpp_network_programming.StickyPacks.Server.{
  Source, Op, accept, read, write, Server, Result, ok, use_after_free, pop_empty, pending, on_read,
  on_write,
}
use cpp_network_programming.StickyPacks.Server.Projection.{
  op, server, result, result-on_read, result-on_write, pending-node,
}
use cpp_network_programming.StickyPacks.Server.Refines.{without, middle, server-without, result-ok}
use cpp_network_programming.StickyPacks.Server.Disconnects.{History, map_middle, History-server}

-- What is undefined does not depend on the lengths: any `max_len_` serves.
abbrev no_length : MsgNode → ℕ
no_length node = 0

result-freed : (r : Result) → result no_length r ≡ Duplex.use_after_free → r ≡ use_after_free
result-freed (ok t) e = cc
result-freed use_after_free e = refl
result-freed pop_empty e = cc

op-write :
    (id : ℕ) (source' : Duplex.Source) (o : Op)
    → op no_length o ≡ Duplex.write id source'
    → (source : Source) × (o ≡ write id source)
op-write id source' (accept i) e = cc
op-write id source' (read i) e = cc
op-write id source' (write i (Source.own_data n)) e = (Source.own_data n, cc)
op-write id source' (write i (Source.node_data m)) e = (Source.node_data m, cc)

op-written :
    (id : ℕ) (source : Source)
    → (source' : Duplex.Source) × (op no_length (write id source) ≡ Duplex.write id source')
op-written id (Source.own_data n) = (_, refl)
op-written id (Source.node_data m) = (_, refl)

op-read : (id : ℕ) (o : Op) → op no_length o ≡ Duplex.read id → o ≡ read id
op-read id (accept i) e = cc
op-read id (read i) e = cc
op-read id (write i (Source.own_data n)) e = cc
op-read id (write i (Source.node_data m)) e = cc

-- The server of 03, with some operations taken out.
abbrev image : Server → List Op → List Op → Duplex.Server
image s before after =
    Orderly.without (server no_length s) (map (op no_length) before ++ map (op no_length) after)

wrote :
    (error : Bool) (id : ℕ) (s : Server) (before after : List Op)
    → result no_length (on_write error id (without s (before ++ after)))
      ≡ Duplex.on_write error id (image s before after)
wrote error id s before after =
    result-on_write no_length error id (without s (before ++ after))
    ∙ ap (Duplex.on_write error id) (server-without no_length s before after)

got :
    (error : Bool) (bytes : Bytes) (id : ℕ) (s : Server) (before after : List Op)
    → (garbage : ℕ) × (result no_length (on_read error bytes id (without s (before ++ after)))
        ≡ Duplex.on_read garbage error bytes id (image s before after))
got error bytes id s before after = (
  _,
  result-on_read no_length error bytes id (without s (before ++ after))
      ∙ ap (Duplex.on_read _ error bytes id) (server-without no_length s before after),
)

-- The same two parts of the operations, in 04 and in 03.
image-same :
    (t : Server) (t' : Duplex.Server) (before after : List Op) (before' after' : List Duplex.Op)
    → server no_length t ≡ t'
    → map (op no_length) before ≡ before'
    → map (op no_length) after ≡ after'
    → image t before after ≡ Orderly.without t' (before' ++ after')
image-same t t' before after before' after' same b a i = Orderly.without (same i) (b i ++ a i)

-- After a history in which writes succeed, no uuid is given twice and clients disconnect only when
-- their session has nothing to write: if a client of 04_sticky_packs now disconnects while its
-- session writes, the session is destroyed at once, its write is still under way, and the callback
-- of that write, whether it succeeds or not, calls a session that is gone.
pub freed_by_read :
    {s : Server} (before after : List Op) (id : ℕ) (bytes : Bytes)
    → History s
    → s.ops ≡ before ++ read id ∷ after
    → pending (s.objects id).send_queue ≡ true
    → (t : Server) × (on_read true bytes id (without s (before ++ after)) ≡ ok t)
      × ((before' : List Op) × (after' : List Op) × (source : Source) × (t.ops
            ≡ before' ++ write id source ∷ after')
          × ((error : Bool) → on_write error id (without t (before' ++ after')) ≡ use_after_free))
freed_by_read {s} before after id bytes h e writing =
    let (garbage, reads) = got true bytes id s before after in
    let (t', done, (b', a', source', at', freed)) =
      DuplexDisconnects.disconnect_busy _ _ garbage id bytes (History-server no_length h)
        (middle no_length s before after (read id) e)
        (sym (pending-node no_length (s.objects id).send_queue) ∙ writing) in
    let (t, ok_t, same) = result-ok no_length _ t' (reads ∙ done) in
    let (before', after', o, at, b, a, is_o) =
      map_middle (op no_length) t.ops b' a' _ (ap (λ (u : Duplex.Server). u.ops) same ∙ at') in
    let (source, is_write) = op-write id source' o is_o in
    (
      t,
      ok_t,
      (
        before',
        after',
        source,
        at ∙ ap (λ x. before' ++ x ∷ after') is_write,
        λ error. result-freed _ (
            wrote error id t before' after'
            ∙ ap (Duplex.on_write error id) (image-same t t' before' after' b' a' same b a)
            ∙ freed error),
      ),
    )

-- After a history in which writes succeed, no uuid is given twice and clients disconnect only when
-- their session has nothing to write: a write of 04_sticky_packs that fails destroys its session at
-- once, while the read of that session is still under way; and the callback of that read, whatever came and whether it fails or
-- not, calls a session that is gone.
pub freed_by_write :
    {s : Server} (before after : List Op) (id : ℕ) (source : Source)
    → History s
    → s.ops ≡ before ++ write id source ∷ after
    → (t : Server) × (on_write true id (without s (before ++ after)) ≡ ok t)
      × ((before' : List Op) × (after' : List Op) × (t.ops ≡ before' ++ read id ∷ after')
          × ((error : Bool) (bytes : Bytes)
              → on_read error bytes id (without t (before' ++ after')) ≡ use_after_free))
freed_by_write {s} before after id source h e =
    let (source', is_write) = op-written id source in
    let (t', done, _, (b', a', at', freed)) =
      DuplexWriteErrors.write_error_fatal _ _ id source' (History-server no_length h) (
        middle no_length s before after (write id source) e
        ∙ ap (λ x. map (op no_length) before ++ x ∷ map (op no_length) after) is_write) in
    let (t, ok_t, same) = result-ok no_length _ t' (wrote true id s before after ∙ done) in
    let (before', after', o, at, b, a, is_o) =
      map_middle (op no_length) t.ops b' a' _ (ap (λ (u : Duplex.Server). u.ops) same ∙ at') in
    (
      t,
      ok_t,
      (
        before',
        after',
        at ∙ ap (λ x. before' ++ x ∷ after') (op-read id o is_o),
        λ error bytes.
            let (garbage, reads) = got error bytes id t before' after' in
            result-freed _ (
              reads
              ∙ ap (Duplex.on_read garbage error bytes id)
                  (image-same t t' before' after' b' a' same b a)
              ∙ freed garbage error bytes),
      ),
    )
