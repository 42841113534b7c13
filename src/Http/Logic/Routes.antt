-- ===== src/Http/Logic/Routes.antt =====
-- Registering and looking up handlers.
use cpp_network_programming.Base.{
  ◌≡◌, refl, true, false, Option, none, some, arith, Bytes, str_eq, str_eq_iff, if◌then◌else◌,
}
use cpp_network_programming.Http.Query.Params.{ParamMap}
use cpp_network_programming.Http.Message.{HttpConnection}
use cpp_network_programming.Http.Logic.{
  HttpHandler, HandlerMap, LogicSystem, find_handler, insert, reg_get, reg_post, handle_get,
  get_test, get_test_url, logic_system,
}

abbrev or_else : Option HttpHandler → Option HttpHandler → Option HttpHandler
or_else none b = b
or_else (some h) b = some h

find_handler_eq :
    (url path : Bytes) (handlers : HandlerMap)
    → str_eq url path ≡ true
    → find_handler url handlers ≡ find_handler path handlers
find_handler_eq url path handlers e = rw ((str_eq_iff url path).0 e)

find_handler-insert :
    (url path : Bytes) (handler : HttpHandler) (handlers : HandlerMap)
    → find_handler path (insert url handler handlers)
      ≡ or_else (find_handler path handlers) (if str_eq url path then some handler else none)
unfolding insert find_handler
find_handler-insert url path handler handlers = ground (arith, find_handler_eq url path handlers)

-- Registering a handler makes it its path's handler only if the path has none yet; no other path
-- is touched, and registering a handler for POST changes nothing for GET.
pub handle_get-reg :
    (url path : Bytes) (handler : HttpHandler) (conn : HttpConnection) (sys : LogicSystem)
    → (handle_get path conn (reg_get url handler sys) ≡ elim (find_handler path sys.get_handlers) [
      | some old ↦ (old conn, true)
      | none ↦ if str_eq url path then (handler conn, true) else (conn, false)
    ])
      × (handle_get path conn (reg_post url handler sys) ≡ handle_get path conn sys)
unfolding handle_get reg_get reg_post
handle_get-reg url path handler conn sys =
    (ground (arith, find_handler-insert url path handler sys.get_handlers), refl)

-- With the handlers that the constructor registers, `HandleGet` calls the one of "/get_test", and
-- refuses every other path and leaves the connection alone.
pub handle_get-logic_system :
    (walk : ParamMap → ParamMap) (path : Bytes) (conn : HttpConnection)
    → handle_get path conn (logic_system walk)
      ≡ (if str_eq get_test_url path then (get_test walk conn, true) else (conn, false))
unfolding handle_get logic_system find_handler
handle_get-logic_system walk path conn = ground arith
