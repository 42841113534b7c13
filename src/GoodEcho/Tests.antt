-- ===== src/GoodEcho/Tests.antt =====
-- The server at its first client.
use cpp_network_programming.Base.{ℕ, refl, sym, false, [], ◌∷◌, codes}
use cpp_network_programming.Duplex.{erase}
use cpp_network_programming.GoodEcho.{
  accept, Session, Server, bad_weak_ptr, add_op, put, start, handle_accept, start_accept,
  on_first_read,
}
use cpp_network_programming.GoodEcho.Reachable.{
  without, Step, accepted, received_first, Reach, boot, next, booted,
}
use cpp_network_programming.GoodEcho.NoEcho.{
  Initial, Outcome, Reach-never_echoes, first_read_throws,
}

abbrev pub nobody : ℕ → Session
nobody i = record { uuid = []; data_ = [] }

abbrev pub open_server : Server
open_server = handle_accept false (codes "u1") 0 (without (booted nobody (codes "u0")) [])

pub open_reach : Reach open_server
unfolding start_accept add_op put erase
open_reach = next (boot nobody (codes "u0")) (accepted [] [] 0 false (codes "u1") refl refl refl)

got_hi : Step open_server (on_first_read false (codes "hi") 0 (without open_server (accept 1 ∷ [])))
unfolding handle_accept start start_accept add_op put
got_hi = received_first [] (accept 1 ∷ []) 0 false (codes "hi") refl refl

pub hi_throws : Step open_server bad_weak_ptr
unfolding handle_accept start start_accept add_op put
hi_throws =
    received_first [] (accept 1 ∷ []) 0 false (codes "hi") refl
      (sym (first_read_throws 0 false (codes "hi") [] (accept 1 ∷ []) open_reach refl))

Reach-never_echoes_example :
    Initial open_server
    × Outcome (on_first_read false (codes "hi") 0 (without open_server (accept 1 ∷ [])))
Reach-never_echoes_example = Reach-never_echoes open_reach got_hi
