-- ===== src/Http/Query/Table.antt =====
-- `get_params_` as what its keys find: a std::unordered_map has no order of its own.
use mathlib.Core.Path.{subst}
use mathlib.Core.Option
use mathlib.Core.Quot
use mathlib.Core.Quot.{Quot, Quot-set}
use cpp_network_programming.Base.{
  ◌≡◌, ◌≢◌, refl, sym, ap, ◌∙◌, Bool, Option, some, List, [], ◌∷◌, ◌++◌, arith, Bytes, All, str_eq,
  str_eq_iff, if◌then◌else◌,
}
use cpp_network_programming.Http.Query.{pre_parse_get_param}
use cpp_network_programming.Http.Query.Params.{ParamMap, assign, lookup, lookup-assign}
use cpp_network_programming.Http.Query.RoundTrip.{
  Lacks, IsPlainPair, render_query, assign_all, pre_parse_get_param-render,
}

abbrev pub SameLookup : ParamMap → ParamMap → Type 0
SameLookup ps qs = (key : Bytes) → lookup key ps ≡ lookup key qs

abbrev pub Table : Type 0
Table = Quot SameLookup

abbrev pub view : ParamMap → Table
view params = Quot.mk params

SameLookup-assign :
    (key value : Bytes) (ps qs : ParamMap)
    → SameLookup ps qs
    → SameLookup (assign key value ps) (assign key value qs)
SameLookup-assign key value ps qs h other =
    lookup-assign key value other ps
    ∙ ap (λ found. if str_eq key other then some value else found) (h other)
    ∙ sym (lookup-assign key value other qs)

-- `params[key] = value` on the table.
put : Bytes × Bytes → Table → Table
put (key, value) =
    Quot.lift Quot-set (λ ps. view (assign key value ps))
      (λ ps qs h. Quot.sound (SameLookup-assign key value ps qs h))

SameLookup-swap :
    (p q : Bytes × Bytes) (ps : ParamMap)
    → p.0 ≢ q.0
    → SameLookup (assign p.0 p.1 (assign q.0 q.1 ps)) (assign q.0 q.1 (assign p.0 p.1 ps))
SameLookup-swap p q ps ne other = ground (
  arith,
  lookup-assign p.0 p.1 other (assign q.0 q.1 ps),
  lookup-assign q.0 q.1 other (assign p.0 p.1 ps),
  lookup-assign p.0 p.1 other ps,
  lookup-assign q.0 q.1 other ps,
  str_eq_iff p.0 other,
  str_eq_iff q.0 other,
)

put_comm : (p q : Bytes × Bytes) (t : Table) → p.0 ≢ q.0 → put p (put q t) ≡ put q (put p t)
unfolding put
put_comm (k, v) (j, w) t ne =
    Quot.ind {β = λ u. put (k, v) (put (j, w) u) ≡ put (j, w) (put (k, v) u)} (λ u. Quot-set _ _)
      (λ ps. Quot.sound (SameLookup-swap (k, v) (j, w) ps ne)) t

put_all : List (Bytes × Bytes) → Table → Table
put_all [] t = t
put_all (p ∷ ps) t = put_all ps (put p t)

view-assign_all :
    (ps : List (Bytes × Bytes)) (params : ParamMap)
    → view (assign_all ps params) ≡ put_all ps (view params)
unfolding assign_all put_all put
view-assign_all [] params = refl
view-assign_all ((k, v) ∷ ps) params = view-assign_all ps (assign k v params)

put_all-swap :
    (before after : List (Bytes × Bytes)) (p q : Bytes × Bytes) (t : Table)
    → p.0 ≢ q.0
    → put_all (before ++ p ∷ q ∷ after) t ≡ put_all (before ++ q ∷ p ∷ after) t
unfolding put_all
put_all-swap [] after p q t ne = ap (put_all after) (put_comm q p t (λ e. ne (sym e)))
put_all-swap (b ∷ before) after p q t ne = put_all-swap before after p q (put b t) ne

-- Pairs in another order, where those with one key keep theirs.
pub data Reordered (qs : List (Bytes × Bytes)) : List (Bytes × Bytes) → Type 0 where
  same : Reordered qs qs
  swapped :
      {ps : List (Bytes × Bytes)} (before after : List (Bytes × Bytes)) (p q : Bytes × Bytes)
      → ps ≡ before ++ p ∷ q ∷ after
      → p.0 ≢ q.0
      → Reordered qs (before ++ q ∷ p ∷ after)
      → Reordered qs ps

put_all-Reordered :
    {qs ps : List (Bytes × Bytes)} (t : Table) → Reordered qs ps → put_all ps t ≡ put_all qs t
put_all-Reordered t same = refl
put_all-Reordered t (swapped before after p q e ne r) =
    ap (λ xs. put_all xs t) e ∙ put_all-swap before after p q t ne ∙ put_all-Reordered t r

All-swap :
    (P : Bytes × Bytes → Type 0) (before after : List (Bytes × Bytes)) (p q : Bytes × Bytes)
    → All P (before ++ p ∷ q ∷ after)
    → All P (before ++ q ∷ p ∷ after)
All-swap P [] after p q h = (h.1.0, (h.0, h.1.1))
All-swap P (b ∷ before) after p q h = (h.0, All-swap P before after p q h.1)

All-Reordered :
    (P : Bytes × Bytes → Type 0) {qs ps : List (Bytes × Bytes)}
    → Reordered qs ps
    → All P ps
    → All P qs
All-Reordered P same h = h
All-Reordered P (swapped before after p q e ne r) h =
    All-Reordered P r (All-swap P before after p q (subst (All P) e h))

-- The path and the table that a target gives.
abbrev pub parsed : Bytes → ParamMap → Option (Bytes × Table)
parsed uri params = Option.map (λ r. (r.0, view r.1)) (pre_parse_get_param uri params)

-- The order in which a client sends its pairs matters only for pairs with one key: two targets that
-- differ in nothing but the order of pairs with different keys, encoded by UrlEncode, give the same
-- path and the same parameters, whatever map is assigned to.
pub order_forgotten :
    (signed : Bool) (path : Bytes) (ps qs : List (Bytes × Bytes)) (params : ParamMap)
    → Lacks b'?' path
    → All (IsPlainPair signed) ps
    → Reordered qs ps
    → parsed (path ++ b'?' ∷ render_query signed ps) params
      ≡ parsed (path ++ b'?' ∷ render_query signed qs) params
order_forgotten signed path ps qs params h plain r =
    let view_result = Option.map {A = Bytes × ParamMap} (λ r. (r.0, view r.1)) in
    ap view_result (pre_parse_get_param-render signed path ps params h plain)
    ∙ ap (λ t. some (path, t))
        (view-assign_all ps params
          ∙ put_all-Reordered (view params) r
          ∙ sym (view-assign_all qs params))
    ∙ sym (
        ap view_result (
          pre_parse_get_param-render signed path qs params h
            (All-Reordered (IsPlainPair signed) r plain)))
