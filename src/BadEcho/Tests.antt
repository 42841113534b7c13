-- ===== src/BadEcho/Tests.antt =====
-- The echo server at concrete events.
use cpp_network_programming.Base.{ℕ, ◌≡◌, refl, true, false, [], ◌∷◌}
use cpp_network_programming.BadEcho.{
  accept, Server, ok, start, start_accept, handle_accept, on_accept, on_read, boot,
}
use cpp_network_programming.BadEcho.OneOperation.{
  bit, count, without, Step, accepted, received, Reach, booted, next, Reach-never_deleted_twice,
}

-- One client is accepted, and session 1 waits for the next.
abbrev open_server : Server
open_server = start_accept (start 0 (without boot []))

open_reach : Reach open_server
unfolding boot start_accept on_accept handle_accept
open_reach = next booted (accepted [] [] 0 false refl refl)

read_failed : Step open_server (on_read true [] 0 (without open_server (accept 1 ∷ [])))
unfolding boot start start_accept
read_failed = received [] (accept 1 ∷ []) 0 true [] refl refl

Reach-never_deleted_twice_example :
    (t : Server) × ((on_read true [] 0 (without open_server (accept 1 ∷ [])) ≡ ok t)
      × ((i : ℕ) → count i t.ops ≡ bit (t.alive i)))
Reach-never_deleted_twice_example = Reach-never_deleted_twice open_reach read_failed
