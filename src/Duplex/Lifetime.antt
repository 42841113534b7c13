-- ===== src/Duplex/Lifetime.antt =====
-- When a session of 03_full_duplex_server is destroyed, and what still calls it.
use cpp_network_programming.Base.{
  ℕ, ◌≡◌, sym, ap, ◌∙◌, Bool, true, false, List, ◌++◌, Bytes, length, drop, ==_refl, if_true,
  if_false, Bool-cases, inl, inr,
}
use cpp_network_programming.Duplex.Orderly.{ok_inj}
use cpp_network_programming.Duplex.Keys.{OwnUuid, held_by-erase}
use cpp_network_programming.Duplex.{
  Session, Op, Server, ok, use_after_free, erase, put, held_by, accepting, is_alive, on_read,
  on_write,
}

pub on_read_error-sessions :
    (garbage id : ℕ) (bytes : Bytes) (s t : Server)
    → on_read garbage true bytes id s ≡ ok t
    → t.sessions ≡ erase (s.objects id).uuid s.sessions
unfolding on_read
on_read_error-sessions garbage id bytes s t e = elim (Bool-cases (is_alive id s)) [
  | inr dead ↦ cc (sym (if_false _ _ _ dead) ∙ e)
  | inl alive ↦
      let filled = record (s.objects id) {
        data_ = bytes ++ drop (length bytes) (s.objects id).data_;
      } in
      let same : ((put id filled s).objects id).uuid ≡ (s.objects id).uuid =
        ap (λ (o : Session). o.uuid) (if_true _ _ _ (==_refl id)) in
      ap (λ (u : Server). u.sessions) (sym (ok_inj (sym (if_true _ _ _ alive) ∙ e)))
      ∙ ap (λ u. erase u s.sessions) same
]

pub destroyed :
    (id : ℕ) (s : Server)
    → held_by id s.sessions ≡ false
    → accepting id s.ops ≡ false
    → is_alive id s ≡ false
unfolding is_alive
destroyed id s h a = rw (h, a)

-- A read that fails erases the session from the map, which destroys it: whatever operation of it
-- completes next, of those that were not cancelled in time, calls a session that is gone.
pub read_error_destroys :
    (garbage garbage' id : ℕ) (bytes bytes' : Bytes) (error : Bool) (later : List Op) (s t : Server)
    → OwnUuid s.objects s.sessions
    → on_read garbage true bytes id s ≡ ok t
    → accepting id later ≡ false
    → (on_write error id (record t { ops = later }) ≡ use_after_free)
      × (on_read garbage' error bytes' id (record t { ops = later }) ≡ use_after_free)
read_error_destroys garbage garbage' id bytes bytes' error later s t own e quiet =
    let gone =
      ap (held_by id) (on_read_error-sessions garbage id bytes s t e)
      ∙ held_by-erase s.objects id s.sessions own in
    let dead = destroyed id (record t { ops = later }) gone quiet in
    (unfold on_write in if_false _ _ _ dead, unfold on_read in if_false _ _ _ dead)
