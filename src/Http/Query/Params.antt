-- ===== src/Http/Query/Params.antt =====
-- `get_params_`, a std::unordered_map<std::string, std::string>, as an association list.
use cpp_network_programming.Base.{
  ◌≡◌, refl, Option, none, some, List, [], ◌∷◌, arith, Bytes, str_eq, str_eq_refl, str_eq_iff,
  if◌then◌else◌,
}

abbrev pub ParamMap : Type 0
ParamMap = List (Bytes × Bytes)

-- `params[key] = value`.
unfoldable pub assign : Bytes → Bytes → ParamMap → ParamMap
assign key value [] = (key, value) ∷ []
assign key value ((k, v) ∷ params) =
    if str_eq k key then (k, value) ∷ params else (k, v) ∷ assign key value params

-- `params.find(key)`.
pub lookup : Bytes → ParamMap → Option Bytes
lookup key [] = none
lookup key ((k, v) ∷ params) = if str_eq k key then some v else lookup key params

pub lookup-assign :
    (key value other : Bytes) (params : ParamMap)
    → lookup other (assign key value params)
      ≡ (if str_eq key other then some value else lookup other params)
unfolding lookup assign
lookup-assign key value other [] = refl
lookup-assign key value other ((k, v) ∷ params) = ground (
  arith,
  str_eq_iff k key,
  str_eq_iff k other,
  str_eq_iff key other,
  str_eq_refl k,
  lookup-assign key value other params,
)
