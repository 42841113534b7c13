-- ===== src/AsyncMain/Tests.antt =====
-- The mains at concrete events.
use cpp_network_programming.Base.{◌≡◌, ◌↔◌, ◌⊎◌, refl, true, false, inl}
use cpp_network_programming.GoodEcho.Tests.{open_server, open_reach, hi_throws}
use cpp_network_programming.Duplex.Tests.{used_after_free}
use cpp_network_programming.AsyncMain.{
  caught, broken, Main, throws, breaks, bad_server, good_server, duplex_server, sticky_server,
  BadOverreads,
}
use cpp_network_programming.AsyncMain.Ends.{mains_end}
use cpp_network_programming.BadEcho
use cpp_network_programming.BadEcho.OneOperation

-- The first bytes of a client end the program.
good_main : Main good_server true caught
good_main = throws open_server refl open_reach (inl hi_throws)

-- A client that disconnects while its message is being sent back breaks the server of 03.
duplex_main : Main duplex_server true broken
duplex_main = let (s, runs, step) = used_after_free in breaks s refl runs (inl (inl step))

mains_end_example :
    (Main good_server false caught ↔ (caught ≡ caught))
    × (Main bad_server true caught ↔ ((caught ≡ caught) ⊎ (caught ≡ broken)))
    × (Main good_server true caught ↔ (caught ≡ caught))
    × (Main duplex_server true caught ↔ ((caught ≡ caught) ⊎ (caught ≡ broken)))
    × (Main sticky_server true caught ↔ ((caught ≡ caught) ⊎ (caught ≡ broken)))
    × (bad_server.Breaks BadEcho.boot → BadOverreads BadEcho.boot)
mains_end_example = mains_end good_server caught OneOperation.booted
