-- ===== src/Http/Connection/Tests.antt =====
-- A connection at concrete requests and events.
use cpp_network_programming.Base.{
  ◌≤◌, ◌≡◌, ◌⊎◌, refl, true, false, none, some, List, [], ◌∷◌, ◌++◌, arith, Bytes, codes,
}
use cpp_network_programming.Http.Url.Decodes.{Decodes, url_decode-Decodes}
use cpp_network_programming.Http.Url.{url_decode, decode_loop, decode_char, decode_hex}
use cpp_network_programming.Http.Query.RoundTrip.{render_query, assign_all}
use cpp_network_programming.Http.Message.{Request}
use cpp_network_programming.Http.Logic.{LogicSystem, logic_system}
use cpp_network_programming.Http.Logic.Tests.{as_listed, fresh_http}
use cpp_network_programming.Http.Connection.{
  Conn, idle, waiting, due, start, on_read, check_deadline, on_deadline,
}
use cpp_network_programming.Http.Connection.Steps.{
  receive, Step, read, expired, waited, Run, here, next, IsFresh,
}
use cpp_network_programming.Http.Connection.Bounds.{IsReleased, Run_ends, refused, on_read_other}
use cpp_network_programming.Http.Connection.Responses.{expected}
use cpp_network_programming.Http.Connection.Unanswered.{Stage, other_unanswered}
use cpp_network_programming.Http.Connection.EndToEnd.{on_read-render, on_read_malformed}

abbrev fresh : Conn
fresh = record {
  http = fresh_http;
  reading = false;
  writing = false;
  wait = idle;
  shut_send = false;
  closed = false;
  sent = [];
}

fresh-IsFresh : IsFresh fresh
fresh-IsFresh = record {
  not_reading = refl;
  not_writing = refl;
  no_wait = refl;
  not_closed = refl;
  nothing_sent = refl;
}

abbrev sys : LogicSystem
sys = logic_system as_listed

abbrev post : Request
post = record { version = 11; is_get = false; target = codes "/get_test" }

abbrev query : List (Bytes × Bytes)
query = (codes "name", codes "a b") ∷ []

abbrev get_request : Request
get_request = record {
  version = 11;
  is_get = true;
  target = codes "/get_test" ++ b'?' ∷ render_query true query;
}

abbrev bad_request : Request
bad_request = record { version = 11; is_get = true; target = codes "/?k=%" }

-- The connection whose read is about to complete with a request.
abbrev asked : Request → Conn
asked req = receive req (record fresh { reading = true })

abbrev expired_conn : Conn
expired_conn = record (refused (asked post)) { wait = due false }

abbrev timed_out : Conn
timed_out = on_deadline false expired_conn

-- A POST is read, nothing is answered, and the deadline closes the socket.
silent_run : Run sys (start fresh) 3 timed_out
unfolding start receive check_deadline
silent_run =
    next
      (next (next here (read post refl (on_read_other sys (asked post) refl))) (expired refl refl))
      (waited false refl refl)

-- What follows the callback of the read.
passed_run : Run sys (refused (asked post)) 2 timed_out
unfolding check_deadline receive start
passed_run = next (next here (expired refl refl)) (waited false refl refl)

-- A GET is read and answered.
answer :
    (d : Conn) × (on_read sys false (asked get_request) ≡ some d)
    × (d.sent
        ≡ []
          ++ expected as_listed (asked get_request).http (codes "/get_test") (assign_all query [])
            ∷ [])
    × (d.writing ≡ true)
    × (d.wait ≡ waiting)
unfolding receive
answer =
    on_read-render as_listed true (codes "/get_test") query (asked get_request) refl refl
      (omega arith) (omega arith)

waiting_run : Run sys (start fresh) 0 (start fresh)
waiting_run = here

no_digits : (t : Bytes) → ¬ Decodes 26 (codes "%") t
unfolding url_decode decode_loop decode_char decode_hex
no_digits t d = cc ((url_decode-Decodes (codes "%") t).1 d)

on_read-render_example :
    (d : Conn) × (on_read sys false (asked get_request) ≡ some d)
    × (d.sent
        ≡ []
          ++ expected as_listed (asked get_request).http (codes "/get_test") (assign_all query [])
            ∷ [])
    × (d.writing ≡ true)
    × (d.wait ≡ waiting)
unfolding receive
on_read-render_example =
    on_read-render as_listed true (codes "/get_test") query (asked get_request) refl refl
      (omega arith) (omega arith)

other_unanswered_example :
    (timed_out.sent ≡ (asked post).sent) × (timed_out.writing ≡ false) × Stage 2 timed_out
unfolding receive
other_unanswered_example =
    other_unanswered (asked post) refl refl (on_read_other sys (asked post) refl) passed_run

on_read_malformed_example : on_read sys false (asked bad_request) ≡ none
unfolding receive
on_read_malformed_example =
    on_read_malformed sys (codes "/") (codes "k") (codes "%") (asked bad_request) refl refl
      (omega arith) (omega arith) (omega arith) (omega arith) no_digits

Run_ends_example : (3 ≤ 4) × (IsReleased timed_out ⊎ ((e : Conn) × Step sys timed_out e))
Run_ends_example = Run_ends fresh-IsFresh silent_run
