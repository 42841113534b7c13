-- ===== src/Http/Query/Tests.antt =====
-- The query parser at concrete targets.
use cpp_network_programming.Base.{
  ◌≡◌, ◌≢◌, refl, true, some, List, [], ◌∷◌, ◌++◌, arith, Bytes, codes, str_eq,
}
use cpp_network_programming.Http.Url.{from_hex, decode_hex, decode_char, decode_loop, url_decode}
use cpp_network_programming.Http.Query.{
  find, add_pair, pair_loop, add_last, parse_query, pre_parse_get_param,
}
use cpp_network_programming.Http.Query.Params.{assign}
use cpp_network_programming.Http.Query.Split.{split, add_all, parse_query-add_all}
use cpp_network_programming.Http.Query.RoundTrip.{
  render_query, assign_all, pre_parse_get_param-render,
}
use cpp_network_programming.Http.Query.Table.{parsed, same, swapped, order_forgotten}

parse_test :
    pre_parse_get_param (codes "/p?a=1&b&a=%32&&c=") []
    ≡ some (codes "/p", (codes "a", codes "2") ∷ (codes "c", []) ∷ [])
unfolding pre_parse_get_param parse_query pair_loop add_last add_pair find url_decode decode_loop
    decode_char decode_hex from_hex assign str_eq
parse_test = refl

no_query_test : pre_parse_get_param (codes "/p") [] ≡ some (codes "/p", [])
unfolding pre_parse_get_param find
no_query_test = refl

abbrev pairs : List (Bytes × Bytes)
pairs = (codes "a", codes "x y") ∷ (codes "b&", codes "=") ∷ (codes "a", codes "2") ∷ []

parse_query-add_all_example :
    parse_query (codes "a=1&b=2") [] ≡ add_all (split b'&' (codes "a=1&b=2")) []
parse_query-add_all_example = parse_query-add_all (codes "a=1&b=2") []

pre_parse_get_param-render_example :
    pre_parse_get_param (codes "/get_test" ++ b'?' ∷ render_query true pairs) []
    ≡ some (codes "/get_test", assign_all pairs [])
pre_parse_get_param-render_example =
    pre_parse_get_param-render true (codes "/get_test") pairs [] (omega arith) (omega arith)

-- The pair "b&" goes behind both pairs "a".
abbrev other_order : List (Bytes × Bytes)
other_order = (codes "a", codes "x y") ∷ (codes "a", codes "2") ∷ (codes "b&", codes "=") ∷ []

a_ne_b : codes "b&" ≢ codes "a"
a_ne_b e = cc

order_forgotten_example :
    parsed (codes "/get_test" ++ b'?' ∷ render_query true pairs) []
    ≡ parsed (codes "/get_test" ++ b'?' ∷ render_query true other_order) []
order_forgotten_example =
    order_forgotten true (codes "/get_test") pairs other_order [] (omega arith) (omega arith) (
      swapped ((codes "a", codes "x y") ∷ []) [] (codes "b&", codes "=") (codes "a", codes "2") refl
        a_ne_b same)
