-- ===== src/Http/Query/Split.antt =====
-- The loop of PreParseGetParam against a reference: split the query at '&', add pair after pair.
use cpp_network_programming.Base.{
  ℕ, zero, suc, ◌+◌, ◌≤◌, ◌<◌, ◌≡◌, refl, sym, ◌∙◌, inl, inr, true, false, Option, none, some, List,
  [], ◌∷◌, arith, Bytes, length, length-drop, take, drop, ◌==◌, if◌then◌else◌, ◌>>=◌, >>=_assoc,
  >>=-some, >>=_congr, Bool-cases, Option-cases,
}
use cpp_network_programming.Http.Query.{find, add_pair, pair_loop, add_last, parse_query}
use cpp_network_programming.Http.Query.Params.{ParamMap}

abbrev cons_head : ℕ → List Bytes → List Bytes
cons_head c [] = (c ∷ []) ∷ []
cons_head c (p ∷ ps) = (c ∷ p) ∷ ps

-- The parts between the separators, at least one.
unfoldable pub split : ℕ → Bytes → List Bytes
split sep [] = [] ∷ []
split sep (c ∷ s) = if c == sep then [] ∷ split sep s else cons_head c (split sep s)

-- One pair after the other; the first that cannot be decoded ends it.
unfoldable pub add_all : List Bytes → ParamMap → Option ParamMap
add_all [] params = some params
add_all (pair ∷ pairs) params = add_pair pair params >>= λ params'. add_all pairs params'

find_lt : (sep : ℕ) (s : Bytes) (pos : ℕ) → find sep s ≡ some pos → pos < length s
unfolding find
find_lt sep [] pos e = cc
find_lt sep (c ∷ s) pos e = elim (Bool-cases (c == sep)) [
  | inl hit ↦ ground arith
  | inr miss ↦ elim (Option-cases (find sep s)) [
    | inl no_hit ↦ ground arith
    | inr (i, hit) ↦ ground (arith, find_lt sep s i hit)
  ]
]

find_here :
    (sep c : ℕ) (s : Bytes) (o : Option ℕ)
    → find sep s ≡ o
    → find sep (c ∷ s) ≡ some 0
    → (c == sep) ≡ true
unfolding find
find_here sep c s none eo e = ground arith
find_here sep c s (some i) eo e = ground arith

find_later :
    (sep c : ℕ) (s : Bytes) (pos : ℕ)
    → find sep (c ∷ s) ≡ some (suc pos)
    → ((c == sep) ≡ false) × (find sep s ≡ some pos)
unfolding find
find_later sep c s pos e = elim (Option-cases (find sep s)) [
  | inl absent ↦ ground arith
  | inr (i, hit) ↦ ground arith
]

pub split_found :
    (sep : ℕ) (s : Bytes) (pos : ℕ)
    → find sep s ≡ some pos
    → split sep s ≡ take pos s ∷ split sep (drop (suc pos) s)
unfolding find split
split_found sep [] pos e = cc
split_found sep (c ∷ s) zero e = rw (find_here sep c s (find sep s) refl e)
split_found sep (c ∷ s) (suc pos) e =
    let (miss, later) = find_later sep c s pos e in rw (miss, split_found sep s pos later)

pub split_absent : (sep : ℕ) (s : Bytes) → find sep s ≡ none → split sep s ≡ s ∷ []
unfolding find split
split_absent sep [] e = refl
split_absent sep (c ∷ s) e = ground (arith, split_absent sep s)

add_last-add_pair : (rest : Bytes) (params : ParamMap) → add_last rest params ≡ add_pair rest params
unfolding add_last add_pair find
add_last-add_pair [] params = refl
add_last-add_pair (c ∷ s) params = refl

parse_loop-add_all :
    (fuel : ℕ) (query : Bytes) (params : ParamMap)
    → length query ≤ fuel
    → (pair_loop fuel query params >>= λ r. add_last r.0 r.1) ≡ add_all (split b'&' query) params
unfolding pair_loop add_all
parse_loop-add_all zero [] params h =
    add_last-add_pair [] params ∙ sym (unfold split in >>=-some (add_pair [] params))
parse_loop-add_all zero (c ∷ s) params h = absurd (omega arith)
parse_loop-add_all (suc fuel) query params h = elim (Option-cases (find b'&' query)) [
  | inl absent ↦
      rw (absent, pair_loop, split_absent b'&' query absent)
        (add_last-add_pair query params ∙ sym (>>=-some (add_pair query params)))
  | inr (pos, found) ↦
      let next : pos + 1 ≡ suc pos = omega arith in
      let room : length (drop (suc pos) query) ≤ fuel =
        omega (arith, length-drop (suc pos) query, find_lt b'&' query pos found) in
      rw (found, pair_loop, split_found b'&' query pos found, next)
        (>>=_assoc (add_pair (take pos query) params) _ _
          ∙ >>=_congr (add_pair (take pos query) params)
              (λ params'. parse_loop-add_all fuel (drop (suc pos) query) params' room))
]

-- Parsing a query adds the pairs between the '&' in order, up to the first that does not decode.
pub parse_query-add_all :
    (query : Bytes) (params : ParamMap)
    → parse_query query params ≡ add_all (split b'&' query) params
unfolding parse_query
parse_query-add_all query params = parse_loop-add_all (length query) query params (omega arith)
