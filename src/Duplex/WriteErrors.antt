-- ===== src/Duplex/WriteErrors.antt =====
-- A write of 03_full_duplex_server that fails.
use cpp_network_programming.Base.{
  count, count_middle, ℕ, ◌+◌, ◌≤◌, ◌≡◌, ap, ◌∙◌, Bool, true, false, List, ◌∷◌, ◌++◌, arith, Bytes,
  ==_refl, if_true, if_false,
}
use cpp_network_programming.Duplex.{
  Op, read, write, Source, Server, ok, use_after_free, clear_session, held_by, is_alive, on_read,
  on_write, handle_write,
}
use cpp_network_programming.Duplex.Orderly.{bit, reads_of, writes_of, accepts_of, without}
use cpp_network_programming.Duplex.Callbacks.{bit-true, is_alive_held}
use cpp_network_programming.Duplex.Keys.{held_by-erase}
use cpp_network_programming.Duplex.Lifetime.{destroyed}
use cpp_network_programming.Duplex.Cleared.{accepting-count, read_under_way}
use cpp_network_programming.Duplex.Disconnects.{History, Sound, History-Sound}

module _ (before after : List Op) (id : ℕ) (source : Source) (s : Server) (v : Sound s)
    (e : s.ops ≡ before ++ write id source ∷ after) where
  at : (f : Op → ℕ) → count f s.ops ≡ f (write id source) + count f (before ++ after)
  at f = ap (count f) e ∙ count_middle f before after (write id source)

  held : held_by id s.sessions ≡ true
  held = bit-true _ (
      omega (
        arith,
        at (writes_of id),
        v.orderly.one_write id,
        v.orderly.held_if_busy id,
        ap bit (==_refl id),
      ))

  abbrev cleared : Server
  cleared = clear_session (s.objects id).uuid (without s (before ++ after))

  cleared_result : on_write true id (without s (before ++ after)) ≡ ok cleared
  unfolding on_write handle_write
  cleared_result = if_true _ _ _ (is_alive_held id (without s (before ++ after)) held)

  still_reads : 1 ≤ count (reads_of id) (before ++ after)
  still_reads = omega (arith, at (reads_of id), v.orderly.one_read id, ap bit held)

  -- Once its read is taken out, nothing keeps the session alive.
  cleared-dead :
      (before' after' : List Op)
      → before ++ after ≡ before' ++ read id ∷ after'
      → is_alive id (without cleared (before' ++ after')) ≡ false
  unfolding clear_session
  cleared-dead before' after' at_read =
      let none_accepts : count (accepts_of id) (before' ++ after') ≡ 0 = omega (
        arith,
        at (accepts_of id),
        v.orderly.one_owner id,
        ap bit held,
        ap (count (accepts_of id)) at_read,
        count_middle (accepts_of id) before' after' (read id),
      ) in
      destroyed id (without cleared (before' ++ after'))
        (held_by-erase s.objects id s.sessions v.keyed.own)
        (accepting-count id (before' ++ after') none_accepts)

-- After a history in which writes succeed, no uuid is given twice and clients disconnect only when
-- their session has nothing to write: a write that fails destroys its session at once, while the
-- read of that session is still under way; and the callback of that read, whatever came and whether
-- it fails or not, calls a session that is gone.
pub write_error_fatal :
    {s : Server} (before after : List Op) (id : ℕ) (source : Source)
    → History s
    → s.ops ≡ before ++ write id source ∷ after
    → (t : Server) × (on_write true id (without s (before ++ after)) ≡ ok t)
      × (held_by id t.sessions ≡ false)
      × ((before' : List Op) × (after' : List Op) × (t.ops ≡ before' ++ read id ∷ after')
          × ((garbage : ℕ) (error : Bool) (bytes : Bytes)
              → on_read garbage error bytes id (without t (before' ++ after')) ≡ use_after_free))
unfolding clear_session
write_error_fatal {s} before after id source h e =
    let v = History-Sound h in
    let (before', after', at_read) =
      read_under_way id (before ++ after) (still_reads before after id source s v e) in
    let dead = cleared-dead before after id source s v e before' after' at_read in
    (
      cleared before after id source s v e,
      cleared_result before after id source s v e,
      held_by-erase s.objects id s.sessions v.keyed.own,
      (before', after', at_read, λ garbage error bytes. unfold on_read in if_false _ _ _ dead),
    )
