-- ===== src/Http/Logic/GetTest.antt =====
-- The body that the handler of "/get_test" writes.
use cpp_network_programming.Base.{
  ℕ, suc, ◌≡◌, ◌∙◌, [], ◌∷◌, ◌++◌, Bytes, codes, append_assoc, append-nil,
}
use cpp_network_programming.Http.Query.Params.{ParamMap}
use cpp_network_programming.Http.Message.{HttpConnection}
use cpp_network_programming.Http.Logic.{param_line, print, print_params, get_test}

-- The lines for the parameters, numbered from `i + 1`.
pub param_lines : ℕ → ParamMap → Bytes
param_lines i [] = []
param_lines i ((key, val) ∷ params) = param_line (suc i) key val ++ param_lines (suc i) params

print-print : (a b : Bytes) (conn : HttpConnection) → print b (print a conn) ≡ print (a ++ b) conn
unfolding print
print-print a b conn = rw append_assoc

print_params-param_lines :
    (i : ℕ) (params : ParamMap) (conn : HttpConnection)
    → print_params i params conn ≡ print (param_lines i params) conn
unfolding print_params print param_lines
print_params-param_lines i [] conn = rw append-nil
print_params-param_lines i ((key, val) ∷ params) conn =
    print_params-param_lines (suc i) params (print (param_line (suc i) key val) conn)
    ∙ print-print (param_line (suc i) key val) (param_lines (suc i) params) conn

-- The handler appends a greeting and one line for each parameter, numbered from 1 in the order in
-- which the map is walked, to the body, and changes nothing else.
pub get_test-print :
    (walk : ParamMap → ParamMap) (conn : HttpConnection)
    → get_test walk conn
      ≡ print (codes "receive get_test req\n" ++ param_lines 0 (walk conn.get_params)) conn
unfolding get_test
get_test-print walk conn =
    let greeting = codes "receive get_test req\n" in
    print_params-param_lines 0 (walk conn.get_params) (print greeting conn)
    ∙ print-print greeting (param_lines 0 (walk conn.get_params)) conn
