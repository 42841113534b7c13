-- ===== src/Http/Logic.antt =====
-- LogicSystem (beast/http_server/src/logic_system.cpp): the handlers by path, and the one handler
-- that the constructor registers. The order in which a std::unordered_map is walked is an argument.
pub mod Routes
pub mod GetTest
pub mod Decimal
pub mod Tests
use cpp_network_programming.Base.{
  ℕ, zero, suc, ◌+◌, ◌/◌, ◌%◌, Bool, true, false, Option, none, some, List, [], ◌∷◌, ◌++◌, Bytes,
  codes, ltb, str_eq, if◌then◌else◌,
}
use cpp_network_programming.Http.Query.Params.{ParamMap}
use cpp_network_programming.Http.Message.{HttpConnection}

-- std::function<void(std::shared_ptr<HttpConnection>)>: what it does to the connection.
abbrev pub HttpHandler : Type 0
HttpHandler = HttpConnection → HttpConnection

abbrev pub HandlerMap : Type 0
HandlerMap = List (Bytes × HttpHandler)

pub record LogicSystem : Type 0 where
  pub post_handlers : HandlerMap
  pub get_handlers : HandlerMap

pub find_handler : Bytes → HandlerMap → Option HttpHandler
find_handler path [] = none
find_handler path ((url, handler) ∷ handlers) =
    if str_eq url path then some handler else find_handler path handlers

-- `unordered_map::insert`, which leaves an entry that is there.
pub insert : Bytes → HttpHandler → HandlerMap → HandlerMap
insert url handler handlers = elim (find_handler url handlers) [
  | none ↦ (url, handler) ∷ handlers
  | some old ↦ handlers
]

pub reg_get : Bytes → HttpHandler → LogicSystem → LogicSystem
reg_get url handler sys = record sys { get_handlers = insert url handler sys.get_handlers }

pub reg_post : Bytes → HttpHandler → LogicSystem → LogicSystem
reg_post url handler sys = record sys { post_handlers = insert url handler sys.post_handlers }

-- The connection after the call, and the result.
pub handle_get : Bytes → HttpConnection → LogicSystem → HttpConnection × Bool
handle_get path conn sys = elim (find_handler path sys.get_handlers) [
  | none ↦ (conn, false)
  | some handler ↦ (handler conn, true)
]

-- `beast::ostream(connection->response_.body()) << text`.
unfoldable pub print : Bytes → HttpConnection → HttpConnection
print text conn = record conn {
  response = record (conn.response) { body = conn.response.body ++ text };
}

-- The decimal digits of an int that is not negative; `suc n` rounds are enough.
pub decimal : ℕ → ℕ → Bytes → Bytes
decimal zero n out = out
decimal (suc fuel) n out =
    let more = decimal fuel (n / 10) ((b'0' + n % 10) ∷ out) in
    if ltb n 10 then (b'0' + n) ∷ out else more

pub to_string : ℕ → Bytes
unfolding decimal
to_string n = decimal (suc n) n []

pub param_line : ℕ → Bytes → Bytes → Bytes
param_line i key val =
    codes "param"
    ++ (to_string i ++ (codes " key is " ++ (key ++ (codes " value is " ++ (val ++ codes "\n")))))

-- `for (auto const& [key, val] : connection->get_params_)`, with the counter `i`.
pub print_params : ℕ → ParamMap → HttpConnection → HttpConnection
print_params i [] conn = conn
print_params i ((key, val) ∷ params) conn =
    let j = suc i in print_params j params (print (param_line j key val) conn)

abbrev pub get_test_url : Bytes
get_test_url = codes "/get_test"

module _ (walk : ParamMap → ParamMap) where
  pub get_test : HttpHandler
  unfolding print_params print
  get_test conn =
      print_params 0 (walk conn.get_params) (print (codes "receive get_test req\n") conn)

  -- The constructor.
  pub logic_system : LogicSystem
  unfolding reg_get insert
  logic_system = reg_get get_test_url get_test (record { post_handlers = []; get_handlers = [] })
