-- ===== src/Http/Logic/Tests.antt =====
-- The route table and its one handler at concrete requests.
use cpp_network_programming.Base.{◌≡◌, refl, true, none, [], ◌∷◌, codes}
use cpp_network_programming.Http.Message.{HttpConnection}
use cpp_network_programming.Http.Query.Params.{ParamMap}
use cpp_network_programming.Http.Logic.{get_test, to_string, param_line}

abbrev pub as_listed : ParamMap → ParamMap
as_listed params = params

abbrev pub fresh_http : HttpConnection
fresh_http = record {
  request = record { version = 11; is_get = true; target = codes "/get_test?k=v" };
  response = record {
    version = 11;
    keep_alive = true;
    result = 200;
    content_type = none;
    server = none;
    content_length = none;
    body = [];
  };
  get_url = [];
  get_params = [];
}

abbrev parsed_http : HttpConnection
parsed_http = record fresh_http { get_params = (codes "k", codes "v") ∷ (codes "a", codes "") ∷ [] }

to_string_test : to_string 1024 ≡ codes "1024"
unfolding to_string
to_string_test = refl

get_test_test :
    (get_test as_listed parsed_http).response.body
    ≡ codes "receive get_test req\nparam1 key is k value is v\nparam2 key is a value is \n"
unfolding get_test param_line to_string
get_test_test = refl

abbrev greet : HttpConnection → HttpConnection
greet conn = record conn { get_url = codes "greeted" }
