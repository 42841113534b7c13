-- ===== src/Http/Connection.antt =====
-- HttpConnection (beast/http_server/src/http_connection.cpp): Start, HandleReq, WriteResponse and
-- CheckDeadline, with their callbacks, over the operations that the connection has under way.
-- The callbacks share the connection, so it lives as long as one of the operations is pending.
pub mod Steps
pub mod Bounds
pub mod Responses
pub mod Unanswered
pub mod EndToEnd
pub mod Tests
use cpp_network_programming.Base.{
  ℕ, zero, suc, ◌+◌, Bool, true, false, Option, none, some, List, [], ◌∷◌, ◌++◌, Bytes, codes,
  length, if◌then◌else◌, ◌>>=◌,
}
use cpp_network_programming.Http.Query.{pre_parse_get_param}
use cpp_network_programming.Http.Message.{Request, Response, HttpConnection}
use cpp_network_programming.Http.Logic.{LogicSystem, handle_get, print}

-- `deadline_.async_wait`: not called, waiting, or about to call back, with the error set where the
-- wait was cancelled.
pub data Wait : Type 0 where
  idle : Wait
  waiting : Wait
  due : Bool → Wait

pub record Conn : Type 0 where
  pub http : HttpConnection
  pub reading : Bool
  pub writing : Bool
  pub wait : Wait
  pub shut_send : Bool
  pub closed : Bool
  -- What was handed to http::async_write, oldest first.
  pub sent : List Response

unfoldable pub start : Conn → Conn
start c = record c { reading = true }

pub write_response : Conn → Conn
write_response c =
    let r = record (c.http.response) { content_length = some (length c.http.response.body) } in
    record c { http = record (c.http) { response = r }; writing = true; sent = c.sent ++ r ∷ [] }

-- `response_.version(request_.version()); response_.keep_alive(false);`
pub prepare : HttpConnection → HttpConnection
prepare h = record h {
  response = record (h.response) { version = h.request.version; keep_alive = false };
}

-- What follows the call of `HandleGet`, by its result.
pub set_status : HttpConnection × Bool → HttpConnection
unfolding print
set_status (h, true) = record h {
  response = record (h.response) { result = 200; server = some (codes "GateServer") };
}
set_status (h, false) = print (codes "url not found\n") (record h {
  response = record (h.response) { result = 404; content_type = some (codes "text/plain") };
})

-- The branch for GET: `none` is a failed assertion in `UrlDecode`.
pub answer_get : LogicSystem → HttpConnection → Option HttpConnection
answer_get sys h = do
  (url, params) ← pre_parse_get_param h.request.target h.get_params
  some (set_status (handle_get url (record h { get_url = url; get_params = params }) sys))

-- A request of another method gets no response.
pub handle_req : LogicSystem → Conn → Option Conn
unfolding prepare answer_get
handle_req sys c =
    let h = prepare c.http in
    if h.request.is_get
    then (answer_get sys h >>= λ h'. some (write_response (record c { http = h' })))
    else some (record c { http = h })

pub check_deadline : Conn → Conn
check_deadline c = record c { wait = waiting }

-- The callback of `async_read`.
unfoldable pub on_read : LogicSystem → Bool → Conn → Option Conn
on_read sys true c = some (record c { reading = false })
on_read sys false c = do
  c' ← handle_req sys (record c { reading = false })
  some (check_deadline c')

-- `deadline_.cancel()`: a wait that has not called back yet is to do so with an error.
cancel : Wait → Wait
cancel idle = idle
cancel waiting = due true
cancel (due aborted) = due aborted

-- The callback of `async_write`, whatever its error.
pub on_write : Conn → Conn
unfolding cancel
on_write c = record c { writing = false; shut_send = true; wait = cancel c.wait }

-- The callback of `async_wait`.
pub on_deadline : Bool → Conn → Conn
on_deadline true c = record c { wait = idle }
on_deadline false c = record c { wait = idle; closed = true }
