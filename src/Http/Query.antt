-- ===== src/Http/Query.antt =====
-- HttpConnection::PreParseGetParam of beast/http_server/src/http_connection.cpp.
pub mod Params
pub mod Split
pub mod RoundTrip
pub mod Table
pub mod Abort
pub mod Tests
use cpp_network_programming.Base.{
  ℕ, zero, suc, ◌+◌, Option, none, some, List, [], ◌∷◌, Bytes, length, take, drop, ◌==◌,
  if◌then◌else◌, ◌>>=◌,
}
use cpp_network_programming.Http.Url.{url_decode}
use Params.{ParamMap, assign}

-- `find(ch)`: the first position of `ch`; `none` is npos.
pub find : ℕ → Bytes → Option ℕ
find ch [] = none
find ch (x ∷ s) = if x == ch then some 0 else (find ch s >>= λ i. some (suc i))

-- The value that `key = ...; value = ...; get_params_[key] = value;` leaves in the map, for a pair
-- that holds a '='. Any other pair is skipped.
pub add_pair : Bytes → ParamMap → Option ParamMap
add_pair pair params = elim (find b'=' pair) [
  | none ↦ some params
  | some eq_pos ↦ do
    key ← url_decode (take eq_pos pair)
    value ← url_decode (drop (eq_pos + 1) pair)
    some (assign key value params)
]

-- The loop over the pairs that end in '&'. Each round erases a character at least, so the length
-- of the query is enough fuel. The result is the rest of the query and the map.
pub pair_loop : ℕ → Bytes → ParamMap → Option (Bytes × ParamMap)
pair_loop zero query_string params = some (query_string, params)
pair_loop (suc fuel) query_string params = elim (find b'&' query_string) [
  | none ↦ some (query_string, params)
  | some pos ↦ do
    params' ← add_pair (take pos query_string) params
    pair_loop fuel (drop (pos + 1) query_string) params'
]

-- The last pair, which no '&' follows.
pub add_last : Bytes → ParamMap → Option ParamMap
add_last [] params = some params
add_last (c ∷ s) params = add_pair (c ∷ s) params

pub parse_query : Bytes → ParamMap → Option ParamMap
parse_query query_string params = do
  (rest, params') ← pair_loop (length query_string) query_string params
  add_last rest params'

-- The fields `get_url_` and `get_params_` for the request's target; `none` is a failed assertion
-- in `UrlDecode`.
pub pre_parse_get_param : Bytes → ParamMap → Option (Bytes × ParamMap)
pre_parse_get_param uri params = elim (find b'?' uri) [
  | none ↦ some (uri, params)
  | some query_pos ↦ do
    params' ← parse_query (drop (query_pos + 1) uri) params
    some (take query_pos uri, params')
]
