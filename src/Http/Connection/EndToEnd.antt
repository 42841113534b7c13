-- ===== src/Http/Connection/EndToEnd.antt =====
-- From the bytes of a target to the response, through every part of the server's handling of it.
use cpp_network_programming.Base.{
  ◌≡◌, refl, ◌∙◌, ap, Bool, true, false, none, some, List, [], ◌∷◌, ◌++◌, Bytes, All,
}
use cpp_network_programming.Http.Url.Decodes.{Decodes}
use cpp_network_programming.Http.Query.{pre_parse_get_param}
use cpp_network_programming.Http.Query.Params.{ParamMap}
use cpp_network_programming.Http.Query.RoundTrip.{
  Lacks, IsPlainPair, render_query, assign_all, pre_parse_get_param-render,
}
use cpp_network_programming.Http.Query.Abort.{pre_parse_get_param_malformed}
use cpp_network_programming.Http.Logic.{LogicSystem, logic_system}
use cpp_network_programming.Http.Connection.{
  Conn, waiting, prepare, answer_get, check_deadline, write_response, on_read,
}
use cpp_network_programming.Http.Connection.Bounds.{on_read_get, replied}
use cpp_network_programming.Http.Connection.Responses.{
  expected, answered, sent-answered, on_read-expected,
}

-- A GET for a path without '?' and pairs that the client encoded by UrlEncode (ASCII, or any bytes
-- where `char` is unsigned) is answered by exactly one response: the lines for those pairs if the
-- path is "/get_test", and otherwise the refusal; then a write and the deadline are under way.
pub on_read-render :
    (walk : ParamMap → ParamMap) (signed : Bool) (path : Bytes) (ps : List (Bytes × Bytes))
    (c : Conn)
    → c.http.request.is_get ≡ true
    → c.http.request.target ≡ path ++ b'?' ∷ render_query signed ps
    → Lacks b'?' path
    → All (IsPlainPair signed) ps
    → (d : Conn) × (on_read (logic_system walk) false c ≡ some d)
      × (d.sent ≡ c.sent ++ expected walk c.http path (assign_all ps c.http.get_params) ∷ [])
      × (d.writing ≡ true)
      × (d.wait ≡ waiting)
unfolding check_deadline write_response
on_read-render walk signed path ps c is_get target no_query plain =
    let params = assign_all ps c.http.get_params in
    let parsed =
      ap (λ uri. pre_parse_get_param uri c.http.get_params) target
      ∙ pre_parse_get_param-render signed path ps c.http.get_params no_query plain in
    (
      replied c (answered walk c.http path params),
      on_read-expected walk c path params is_get parsed,
      sent-answered walk c path params,
      refl,
      refl,
    )

-- A GET with one pair whose value does not decode, such as "/?a=%", fails an assertion, which ends
-- the process, whatever the path, the key and the registered handlers are.
pub on_read_malformed :
    (sys : LogicSystem) (path k v : Bytes) (c : Conn)
    → c.http.request.is_get ≡ true
    → c.http.request.target ≡ path ++ b'?' ∷ (k ++ b'=' ∷ v)
    → Lacks b'?' path
    → Lacks b'=' k
    → Lacks b'&' k
    → Lacks b'&' v
    → ((t : Bytes) → ¬ Decodes 26 v t)
    → on_read sys false c ≡ none
unfolding answer_get prepare
on_read_malformed sys path k v c is_get target hp hk ka va malformed =
    let aborts =
      ap (λ uri. pre_parse_get_param uri c.http.get_params) target
      ∙ pre_parse_get_param_malformed path k v c.http.get_params hp hk ka va malformed in
    on_read_get sys c is_get ∙ rw (aborts, answer_get)
