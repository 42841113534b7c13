-- ===== src/Http/Message.antt =====
-- The data members of HttpConnection that its handlers read and write
-- (beast/http_server/include/http_server/http_connection.h).
use cpp_network_programming.Base.{ℕ, Bool, Option, Bytes}
use cpp_network_programming.Http.Query.Params.{ParamMap}

-- What the handlers read of an http::request.
pub record Request : Type 0 where
  pub version : ℕ
  pub is_get : Bool
  pub target : Bytes

-- What they set of an http::response; `none` is a field that is not set.
pub record Response : Type 0 where
  pub version : ℕ
  pub keep_alive : Bool
  pub result : ℕ
  pub content_type : Option Bytes
  pub server : Option Bytes
  pub content_length : Option ℕ
  pub body : Bytes

pub record HttpConnection : Type 0 where
  pub request : Request
  pub response : Response
  pub get_url : Bytes
  pub get_params : ParamMap
