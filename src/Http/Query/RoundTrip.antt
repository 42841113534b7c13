-- ===== src/Http/Query/RoundTrip.antt =====
-- A client's query string, built with UrlEncode, and what PreParseGetParam makes of it.
use cpp_network_programming.Base.{
  ℕ, suc, ◌+◌, ◌≡◌, ◌≢◌, refl, ◌∙◌, ap, Bool, none, some, List, [], ◌∷◌, map, ◌++◌, arith, Bytes,
  length, drop, All, All-append, All-map, take-length-append,
}
use cpp_network_programming.Http.Url.{url_encode}
use cpp_network_programming.Http.Url.Alphabet.{url_encode-IsInert}
use cpp_network_programming.Http.Url.RoundTrip.{IsPlain, All-IsByte, url_decode-url_encode_plain}
use cpp_network_programming.Http.Query.{find, add_pair, parse_query, pre_parse_get_param}
use cpp_network_programming.Http.Query.Params.{ParamMap, assign}
use cpp_network_programming.Http.Query.Split.{
  split, split_found, split_absent, add_all, parse_query-add_all,
}

abbrev pub Lacks : ℕ → Bytes → Type 0
Lacks sep = All (λ c. c ≢ sep)

pub find-Lacks : (sep : ℕ) (p : Bytes) → Lacks sep p → find sep p ≡ none
unfolding find
find-Lacks sep [] h = refl
find-Lacks sep (c ∷ p) h = ground (arith, find-Lacks sep p h.1)

pub find-append : (sep : ℕ) (p s : Bytes) → Lacks sep p → find sep (p ++ sep ∷ s) ≡ some (length p)
unfolding find
find-append sep [] s h = ground arith
find-append sep (c ∷ p) s h = ground (arith, find-append sep p s h.1)

drop-suc : (sep : ℕ) (p s : Bytes) → drop (suc (length p)) (p ++ sep ∷ s) ≡ s
drop-suc sep [] s = refl
drop-suc sep (c ∷ p) s = drop-suc sep p s

pub drop_behind : (sep : ℕ) (p s : Bytes) → drop (length p + 1) (p ++ sep ∷ s) ≡ s
drop_behind sep p s =
    let next : length p + 1 ≡ suc (length p) = omega arith in rw next (drop-suc sep p s)

-- Binding after binding, so that the last one for a key wins.
unfoldable pub assign_all : List (Bytes × Bytes) → ParamMap → ParamMap
assign_all [] params = params
assign_all ((k, v) ∷ ps) params = assign_all ps (assign k v params)

pub eq_ne_amp : ◌≢◌ {A = ℕ} b'=' b'&'
eq_ne_amp = omega arith

module _ (signed : Bool) where
  abbrev pub IsPlainPair : Bytes × Bytes → Type 0
  IsPlainPair p = All (IsPlain signed) p.0 × All (IsPlain signed) p.1

  render_pair : Bytes × Bytes → Bytes
  render_pair (k, v) = url_encode signed k ++ b'=' ∷ url_encode signed v

  pub render_query : List (Bytes × Bytes) → Bytes
  render_query [] = []
  render_query (p ∷ []) = render_pair p
  render_query (p ∷ q ∷ ps) = render_pair p ++ b'&' ∷ render_query (q ∷ ps)

  url_encode-Lacks :
      (s : Bytes)
      → All (IsPlain signed) s
      → Lacks b'=' (url_encode signed s) × Lacks b'&' (url_encode signed s)
  url_encode-Lacks s h =
      let inert = url_encode-IsInert signed s (All-IsByte signed s h) in
      (All-map (λ c i. i.1) _ inert, All-map (λ c i. i.0) _ inert)

  render_pair-Lacks : (p : Bytes × Bytes) → IsPlainPair p → Lacks b'&' (render_pair p)
  unfolding render_pair
  render_pair-Lacks (k, v) h =
      All-append _ (url_encode signed k) (b'=' ∷ url_encode signed v) (url_encode-Lacks k h.0).1
        (eq_ne_amp, (url_encode-Lacks v h.1).1)

  add_pair-render_pair :
      (p : Bytes × Bytes) (params : ParamMap)
      → IsPlainPair p
      → add_pair (render_pair p) params ≡ some (assign p.0 p.1 params)
  unfolding render_pair add_pair
  add_pair-render_pair (k, v) params h =
      let found =
        find-append b'=' (url_encode signed k) (url_encode signed v) (url_encode-Lacks k h.0).0 in
      rw (found, add_pair, take-length-append, drop_behind)
        (rw (url_decode-url_encode_plain signed k h.0, url_decode-url_encode_plain signed v h.1))

  -- Rendered pairs come apart at the '&' again; no pair at all leaves one empty piece.
  split-render_query :
      (p : Bytes × Bytes) (ps : List (Bytes × Bytes))
      → All IsPlainPair (p ∷ ps)
      → split b'&' (render_query (p ∷ ps)) ≡ map render_pair (p ∷ ps)
  unfolding render_query
  split-render_query p [] h = split_absent b'&' _ (find-Lacks b'&' _ (render_pair-Lacks p h.0))
  split-render_query p (q ∷ ps) h =
      split_found b'&' _ (length (render_pair p))
        (find-append b'&' (render_pair p) (render_query (q ∷ ps)) (render_pair-Lacks p h.0))
      ∙ rw (take-length-append, drop-suc, split-render_query q ps h.1)

  add_all-map :
      (ps : List (Bytes × Bytes)) (params : ParamMap)
      → All IsPlainPair ps
      → add_all (map render_pair ps) params ≡ some (assign_all ps params)
  unfolding add_all assign_all
  add_all-map [] params h = refl
  add_all-map ((k, v) ∷ ps) params h =
      rw (add_pair-render_pair (k, v) params h.0) (add_all-map ps (assign k v params) h.1)

  parse_query-render_query :
      (ps : List (Bytes × Bytes)) (params : ParamMap)
      → All IsPlainPair ps
      → parse_query (render_query ps) params ≡ some (assign_all ps params)
  unfolding render_query
  parse_query-render_query [] params h =
      parse_query-add_all [] params ∙ unfold split add_all add_pair find assign_all in refl
  parse_query-render_query (p ∷ ps) params h =
      parse_query-add_all (render_query (p ∷ ps)) params
      ∙ ap (λ pieces. add_all pieces params) (split-render_query p ps h)
      ∙ add_all-map (p ∷ ps) params h

-- A target that a client builds from a path without '?' and from pairs encoded by UrlEncode is
-- taken apart into that path and those pairs, assigned in order, for ASCII keys and values, or any
-- where `char` is unsigned.
pub pre_parse_get_param-render :
    (signed : Bool) (path : Bytes) (ps : List (Bytes × Bytes)) (params : ParamMap)
    → Lacks b'?' path
    → All (IsPlainPair signed) ps
    → pre_parse_get_param (path ++ b'?' ∷ render_query signed ps) params
      ≡ some (path, assign_all ps params)
unfolding pre_parse_get_param
pre_parse_get_param-render signed path ps params h plain = rw (
  find-append b'?' path (render_query signed ps) h,
  pre_parse_get_param,
  drop_behind,
  take-length-append,
  parse_query-render_query signed ps params plain,
)

-- A target without '?' is the path, and the map is left alone.
pre_parse_get_param_path :
    (path : Bytes) (params : ParamMap)
    → Lacks b'?' path
    → pre_parse_get_param path params ≡ some (path, params)
unfolding pre_parse_get_param
pre_parse_get_param_path path params h = rw (find-Lacks b'?' path h, pre_parse_get_param)
