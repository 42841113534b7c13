-- ===== src/Http/Query/Abort.antt =====
-- Targets that make PreParseGetParam fail an assertion, and the values of keys given twice.
use cpp_network_programming.Base.{
  ◌≡◌, refl, Option, none, some, List, [], ◌∷◌, ◌++◌, Bytes, All-append, if◌then◌else◌, ◌>>=◌,
  Option-cases, inl, inr, str_eq, take-length-append, ◌∙◌, ap,
}
use cpp_network_programming.Http.Url.{url_decode}
use cpp_network_programming.Http.Url.Decodes.{Decodes, url_decode-Decodes}
use cpp_network_programming.Http.Query.{add_pair, pre_parse_get_param}
use cpp_network_programming.Http.Query.Params.{ParamMap, assign, lookup, lookup-assign}
use cpp_network_programming.Http.Query.Split.{split_absent, add_all, parse_query-add_all}
use cpp_network_programming.Http.Query.RoundTrip.{
  Lacks, find-append, find-Lacks, drop_behind, eq_ne_amp, assign_all,
}

-- No decoding at all is a failed assertion.
url_decode-none : (s : Bytes) → ((t : Bytes) → ¬ Decodes 26 s t) → url_decode s ≡ none
url_decode-none s malformed = elim (Option-cases (url_decode s)) [
  | inl e ↦ e
  | inr (t, e) ↦ absurd (malformed t ((url_decode-Decodes s t).0 e))
]

add_pair-none :
    (k v : Bytes) (params : ParamMap)
    → Lacks b'=' k
    → url_decode v ≡ none
    → add_pair (k ++ b'=' ∷ v) params ≡ none
unfolding add_pair
add_pair-none k v params hk e =
    rw (find-append b'=' k v hk, add_pair, take-length-append, drop_behind, e) (go (url_decode k))
  where
    go : (o : Option Bytes) → ◌≡◌ {A = Option ParamMap} (o >>= λ key. none) none
    go none = refl
    go (some key) = refl

-- A request whose one pair has a value that does not decode, as a '%' without two digits behind it,
-- fails an assertion in UrlDecode, whatever its path and key are.
pub pre_parse_get_param_malformed :
    (path k v : Bytes) (params : ParamMap)
    → Lacks b'?' path
    → Lacks b'=' k
    → Lacks b'&' k
    → Lacks b'&' v
    → ((t : Bytes) → ¬ Decodes 26 v t)
    → pre_parse_get_param (path ++ b'?' ∷ (k ++ b'=' ∷ v)) params ≡ none
unfolding pre_parse_get_param
pre_parse_get_param_malformed path k v params hp hk ka va malformed =
    let one_piece =
      split_absent b'&' (k ++ b'=' ∷ v)
        (find-Lacks b'&' _ (All-append _ k (b'=' ∷ v) ka (eq_ne_amp, va))) in
    let fails = add_pair-none k v params hk (url_decode-none v malformed) in
    rw
      (
        find-append b'?' path (k ++ b'=' ∷ v) hp,
        pre_parse_get_param,
        drop_behind,
        parse_query-add_all,
        one_piece,
      )
      (unfold add_all in rw (fails, add_all))

-- The value that a list of bindings gives a key, and what it had before where there is none.
last_bound : Bytes → List (Bytes × Bytes) → Option Bytes → Option Bytes
last_bound key [] old = old
last_bound key ((k, v) ∷ ps) old = last_bound key ps (if str_eq k key then some v else old)

-- Of several pairs with one key the last is the one that `get_params_` holds.
lookup-assign_all :
    (key : Bytes) (ps : List (Bytes × Bytes)) (params : ParamMap)
    → lookup key (assign_all ps params) ≡ last_bound key ps (lookup key params)
unfolding assign_all last_bound
lookup-assign_all key [] params = refl
lookup-assign_all key ((k, v) ∷ ps) params =
    lookup-assign_all key ps (assign k v params)
    ∙ ap (last_bound key ps) (lookup-assign k v key params)
