-- ===== src/Base/Counting.antt =====
-- What the steps of a server do to a number of its state, where a step gives a result that may hold
-- no state.
use Prim.Native.Nat.{ℕ, ◌+◌}
use mathlib.Core.Path.{◌≡◌, sym, ap, ◌∙◌}
use mathlib.Core.Bool.{Bool, true, false}
use mathlib.Core.List.{List, ◌∷◌, ◌++◌}
use native.Mathlib.Omega.{arith}
use cpp_network_programming.Base.Booleans.{if◌then◌else◌}
use cpp_network_programming.Base.Lists.{count, count_middle}

module _ {S : Type 0} {R : Type 0} (ok : S → R) (size : S → ℕ) where
  -- The state in the result, if there is one, has a number that is so much more.
  abbrev pub Adds : ℕ → S → R → Type 0
  Adds n s r = (t : S) → r ≡ ok t → size t ≡ n + size s

  pub ok-Adds :
      ((t u : S) → ok t ≡ ok u → t ≡ u) → (n : ℕ) (s t : S) → size t ≡ n + size s → Adds n s (ok t)
  ok-Adds inj n s t h u e = ap size (sym (inj t u e)) ∙ h

  pub if-Adds :
      (n : ℕ) (s : S) (b : Bool) (x y : R) → Adds n s x → Adds n s y → Adds n s (if b then x else y)
  if-Adds n s true x y hx hy = hx
  if-Adds n s false x y hx hy = hy

  -- One operation is taken out, and its callback runs.
  pub completed {ℓ} :
      {Op : Type ℓ} (f : Op → ℕ) (before after : List Op) (op : Op) (ops : List Op) (s u t : S)
      (r : R)
      → ops ≡ before ++ op ∷ after
      → size s ≡ count f ops
      → size u ≡ count f (before ++ after)
      → r ≡ ok t
      → Adds (f op) u r
      → size t ≡ size s
  completed f before after op ops s u t r e hs hu c h =
      omega (arith, h t c, ap (count f) e, count_middle f before after op, hs, hu)
