-- ===== src/Http/System/Abort.antt =====
-- One request that ends the server for all of its clients.
use cpp_network_programming.Base.{
  ◌≡◌, refl, true, false, none, List, ◌∷◌, ◌++◌, arith, Bytes, codes,
}
use cpp_network_programming.Http.Message.{Request}
use cpp_network_programming.Http.Logic.{LogicSystem}
use cpp_network_programming.Http.Url.{url_decode, decode_loop, decode_char, decode_hex}
use cpp_network_programming.Http.Url.Decodes.{Decodes, url_decode-Decodes}
use cpp_network_programming.Http.Connection
use cpp_network_programming.Http.Connection.{Conn}
use cpp_network_programming.Http.Connection.Steps.{receive}
use cpp_network_programming.Http.Connection.EndToEnd.{on_read_malformed}
use cpp_network_programming.Http.System.{System, Event, asserted}

abbrev bad_request : Request
bad_request = record { version = 11; is_get = true; target = codes "/?k=%" }

no_digits : (t : Bytes) → ¬ Decodes 26 (codes "%") t
unfolding url_decode decode_loop decode_char decode_hex
no_digits t d = cc ((url_decode-Decodes (codes "%") t).1 d)

bad_request_aborts :
    (sys : LogicSystem) (c : Conn) → Connection.on_read sys false (receive bad_request c) ≡ none
unfolding receive
bad_request_aborts sys c =
    on_read_malformed sys (codes "/") (codes "k") (codes "%") (receive bad_request c) refl refl
      (omega arith) (omega arith) (omega arith) (omega arith) no_digits

-- As long as the server runs, any connection that has not sent its request yet can end the process,
-- and with it every other connection, whatever their states are.
pub one_request_ends_all :
    (sys : LogicSystem) (before after : List Conn) (c : Conn) (s : System)
    → s.running ≡ true
    → s.conns ≡ before ++ c ∷ after
    → c.reading ≡ true
    → Event sys s none
one_request_ends_all sys before after c s on at reading =
    asserted before after c bad_request on at reading (bad_request_aborts sys c) refl
