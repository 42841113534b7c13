-- ===== src/StickyPacks/Server/Disconnects.antt =====
-- Clients of 04_sticky_packs that disconnect.
use mathlib.Core.Path.{subst}
use cpp_network_programming.Base.{
  ℕ, ◌≡◌, refl, sym, ap, ◌∙◌, true, false, List, [], ◌∷◌, ◌++◌, map, Bytes, length, drop,
}
use cpp_network_programming.Duplex
use cpp_network_programming.Duplex.Orderly as Orderly
use cpp_network_programming.Duplex.Disconnects as DuplexDisconnects
use cpp_network_programming.Duplex.Disconnects.{Sound}
use cpp_network_programming.StickyPacks.{MsgNode}
use cpp_network_programming.StickyPacks.Server.{
  Session, Op, read, Server, Result, ok, pending, on_read,
}
use cpp_network_programming.StickyPacks.Server.Projection.{
  session, op, server, result, found, server-start_accept, result-on_read, pending-node,
}
use cpp_network_programming.StickyPacks.Server.Refines.{
  without, Step, booted, middle, server-without, Step-server, result-ok,
}

-- Besides what succeeds, a client may disconnect while its session has nothing to write.
pub data Event (s : Server) (r : Result) : Type 0 where
  succeeded : Step s r → Event s r
  disconnected :
      (before after : List Op) (id : ℕ) (bytes : Bytes)
      → s.ops ≡ before ++ read id ∷ after
      → pending (s.objects id).send_queue ≡ false
      → r ≡ on_read true bytes id (without s (before ++ after))
      → Event s r

pub data History : Server → Type 0 where
  boot :
      (objects : ℕ → Session) (uuid : Duplex.Uuid)
      → ((i : ℕ) → pending (objects i).send_queue ≡ false)
      → History (booted objects uuid)
  next : {s t : Server} → History s → Event s (ok t) → History t

-- An entry of a list that `map` gave comes from one.
pub map_middle :
    {A B : Type 0} (f : A → B) (xs : List A) (ys zs : List B) (z : B)
    → map f xs ≡ ys ++ z ∷ zs
    → (before : List A) × (after : List A) × (x : A) × (xs ≡ before ++ x ∷ after)
      × (map f before ≡ ys)
      × (map f after ≡ zs)
      × (f x ≡ z)
map_middle f [] [] zs z e = cc
map_middle f [] (y ∷ ys) zs z e = cc
map_middle f (x ∷ xs) [] zs z e = ([], xs, x, refl, refl, cc, cc)
map_middle f (x ∷ xs) (y ∷ ys) zs z e =
    let (before, after, w, at, b, a, same) = map_middle f xs ys zs z (cc) in
    (x ∷ before, after, w, ap (◌∷◌ x) at, cc, a, same)

module _ (max_len_ : MsgNode → ℕ) where
  read_result :
      (s : Server) (r : Result) (before after : List Op) (id : ℕ) (bytes : Bytes)
      → r ≡ on_read true bytes id (without s (before ++ after))
      → result max_len_ r
        ≡ Duplex.on_read
            (found max_len_ (length bytes) (bytes ++ drop (length bytes) (s.objects id).data_))
            true
            bytes
            id
            (Orderly.without
              (server max_len_ s)
              (map (op max_len_) before ++ map (op max_len_) after))
  read_result s r before after id bytes c =
      let garbage =
        found max_len_ (length bytes) (bytes ++ drop (length bytes) (s.objects id).data_) in
      ap (result max_len_) c
      ∙ result-on_read max_len_ true bytes id (without s (before ++ after))
      ∙ ap (Duplex.on_read garbage true bytes id) (server-without max_len_ s before after)

  Event-server :
      (s : Server) (r : Result)
      → Event s r
      → DuplexDisconnects.Event (server max_len_ s) (result max_len_ r)
  Event-server s r (succeeded step) = DuplexDisconnects.succeeded (Step-server max_len_ s r step)
  Event-server s r (disconnected before after id bytes e idle c) =
      DuplexDisconnects.disconnected _ _ _ id bytes (middle max_len_ s before after (read id) e)
        (sym (pending-node max_len_ (s.objects id).send_queue) ∙ idle)
        (read_result s r before after id bytes c)

  pub History-server : {s : Server} → History s → DuplexDisconnects.History (server max_len_ s)
  History-server (boot objects uuid quiet) =
      subst DuplexDisconnects.History (sym (server-start_accept max_len_ uuid _)) (
        DuplexDisconnects.boot (λ i. session max_len_ (objects i)) uuid
          (λ i. sym (pending-node max_len_ (objects i).send_queue) ∙ quiet i))
  History-server (next {s} {t} h ev) =
      DuplexDisconnects.next (History-server h) (Event-server s (ok t) ev)

  -- While writes succeed, no uuid is given twice, and clients disconnect only when their session has
  -- nothing to write: each event of a server of 04_sticky_packs is one of 03_full_duplex_server on
  -- the server without the lengths, whatever the missing `max_len_` were. So it too finds the
  -- session alive and the queue filled, and leaves a server in which each session reads, and
  -- writes exactly while its queue holds a message, and no two sessions have one uuid.
  pub Event-refines :
      {s : Server} {r : Result}
      → History s
      → Event s r
      → DuplexDisconnects.History (server max_len_ s)
        × DuplexDisconnects.Event (server max_len_ s) (result max_len_ r)
        × ((t : Server) × ((r ≡ ok t) × Sound (server max_len_ t)))
  Event-refines {s} {r} h ev =
      let h' = History-server h in
      let ev' = Event-server s r ev in
      let (t', e, v) = DuplexDisconnects.History-safe h' ev' in
      let (t, e', same) = result-ok max_len_ r t' e in
      (h', ev', (t, (e', subst Sound (sym same) v)))
