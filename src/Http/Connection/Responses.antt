-- ===== src/Http/Connection/Responses.antt =====
-- What a connection sends.
use cpp_network_programming.Base.{
  ℕ, ◌≡◌, refl, ◌∙◌, inl, inr, true, false, Option, some, [], ◌∷◌, ◌++◌, arith, Bytes, codes,
  length, All, All-append, str_eq, if◌then◌else◌, Bool-cases,
}
use cpp_network_programming.Http.Query.{pre_parse_get_param}
use cpp_network_programming.Http.Query.Params.{ParamMap}
use cpp_network_programming.Http.Message.{Request, Response, HttpConnection}
use cpp_network_programming.Http.Logic.{LogicSystem, handle_get, print, get_test_url, logic_system}
use cpp_network_programming.Http.Logic.Routes.{handle_get-logic_system}
use cpp_network_programming.Http.Logic.GetTest.{param_lines, get_test-print}
use cpp_network_programming.Http.Connection.{
  Conn, start, write_response, prepare, set_status, answer_get, check_deadline, on_read, on_write,
  on_deadline,
}
use cpp_network_programming.Http.Connection.Steps.{
  receive, Step, read_failed, read, wrote, expired, waited, Run, here, next, IsFresh,
}
use cpp_network_programming.Http.Connection.Bounds.{on_read_cases, on_read_get, replied}

-- The length that a response announces is that of its body.
abbrev pub IsFramed : Response → Type 0
IsFramed r = r.content_length ≡ some (length r.body)

Step-IsFramed :
    {sys : LogicSystem} {c d : Conn} → Step sys c d → All IsFramed c.sent → All IsFramed d.sent
unfolding on_read write_response check_deadline on_write on_deadline receive
Step-IsFramed (read_failed r e) a = ground arith
Step-IsFramed {sys} {c} {d} (read req r e) a = elim (on_read_cases sys (receive req c) d e) [
  | inl ed ↦ rw ed a
  | inr (h, ed) ↦ rw ed (All-append IsFramed c.sent _ a (refl, tt))
]
Step-IsFramed (wrote w e) a = rw e a
Step-IsFramed (expired w e) a = rw e a
Step-IsFramed (waited true w e) a = rw e a
Step-IsFramed (waited false w e) a = rw e a

-- Every response that a connection sends announces the length of its body.
pub sent-IsFramed :
    {sys : LogicSystem} {c d : Conn} {n : ℕ}
    → IsFresh c
    → Run sys (start c) n d
    → All IsFramed d.sent
unfolding start
sent-IsFramed f here = rw f.nothing_sent tt
sent-IsFramed f (next r s) = Step-IsFramed s (sent-IsFramed f r)

abbrev complete : Request → ℕ → Option Bytes → Option Bytes → Bytes → Response
complete request result content_type server body = record {
  version = request.version;
  keep_alive = false;
  result = result;
  content_type = content_type;
  server = server;
  content_length = some (length body);
  body = body;
}

module _ (walk : ParamMap → ParamMap) where
  -- The response that the server owes a GET for `path` with `params`.
  pub expected : HttpConnection → Bytes → ParamMap → Response
  expected h path params =
      if str_eq get_test_url path
      then complete h.request 200 h.response.content_type (some (codes "GateServer"))
          (h.response.body ++ (codes "receive get_test req\n" ++ param_lines 0 (walk params)))
      else complete h.request 404 (some (codes "text/plain")) h.response.server
          (h.response.body ++ codes "url not found\n")

  pub answered : HttpConnection → Bytes → ParamMap → HttpConnection
  answered h path params = set_status (
      handle_get path (record (prepare h) { get_url = path; get_params = params })
        (logic_system walk))

  pub sent-answered :
      (c : Conn) (path : Bytes) (params : ParamMap)
      → (replied c (answered c.http path params)).sent ≡ c.sent ++ expected c.http path params ∷ []
  unfolding answered expected write_response check_deadline
  sent-answered c path params = elim (Bool-cases (str_eq get_test_url path)) [
    | inl hit ↦
        rw (handle_get-logic_system walk path, hit)
          (rw (get_test-print walk) (unfold set_status prepare print in refl))
    | inr miss ↦
        rw (handle_get-logic_system walk path, miss) (unfold set_status prepare print in refl)
  ]

  -- A GET whose target parses is answered with the response that is owed, and with no other.
  pub on_read-expected :
      (c : Conn) (path : Bytes) (params : ParamMap)
      → c.http.request.is_get ≡ true
      → pre_parse_get_param c.http.request.target c.http.get_params ≡ some (path, params)
      → on_read (logic_system walk) false c ≡ some (replied c (answered c.http path params))
  unfolding answered answer_get prepare
  on_read-expected c path params is_get parsed =
      on_read_get (logic_system walk) c is_get ∙ rw (parsed, answer_get)
