-- ===== src/SyncEcho/Servers/Port/Tests.antt =====
-- The command line of the blocking echo server.
use cpp_network_programming.Base.{◌≡◌, ◌%◌, refl, [], ◌∷◌, arith, Bytes, codes}
use cpp_network_programming.Http.Logic.{to_string}
use cpp_network_programming.SyncEcho.Servers.Port.{
  usage, serves, undefined, blocking_main, blocking_main-to_string,
}

abbrev name : Bytes
name = codes "./blocking_tcp_echo_server"

no_port : blocking_main (name ∷ []) ≡ usage
unfolding blocking_main
no_port = refl

spaced : blocking_main (name ∷ codes " +80x" ∷ []) ≡ serves 80
unfolding blocking_main
spaced = refl

negative : blocking_main (name ∷ codes "-1" ∷ []) ≡ serves 65535
unfolding blocking_main
negative = refl

no_number : blocking_main (name ∷ codes "http" ∷ []) ≡ serves 0
unfolding blocking_main
no_number = refl

too_long : blocking_main (name ∷ codes "2147483648" ∷ []) ≡ undefined
unfolding blocking_main
too_long = refl

blocking_main-to_string_example :
    blocking_main (name ∷ to_string 73616 ∷ []) ≡ serves (73616 % 65536)
blocking_main-to_string_example = blocking_main-to_string name 73616 (omega arith)
