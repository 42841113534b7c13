-- ===== src/Base/Lists.antt =====
-- Lists measured by native numbers, under the library's names, and predicates on all entries.
use Prim.Native.Nat.{ℕ, zero, suc, ◌+◌, ◌-◌, ◌≤◌, min}
use mathlib.Core.Path.{◌≡◌, refl, ap, sym, ◌∙◌}
use mathlib.Core.List.{map, List, [], ◌∷◌, ◌++◌}
use native.Mathlib.Omega.{arith}

module _ {ℓ} {A : Type ℓ} where
  abbrev pub length : List A → ℕ
  length [] = 0
  length (x ∷ xs) = suc (length xs)

  abbrev pub take : ℕ → List A → List A
  take zero xs = []
  take (suc n) [] = []
  take (suc n) (x ∷ xs) = x ∷ take n xs

  abbrev pub drop : ℕ → List A → List A
  drop zero xs = xs
  drop (suc n) [] = []
  drop (suc n) (x ∷ xs) = drop n xs

  abbrev pub replicate : ℕ → A → List A
  replicate zero a = []
  replicate (suc n) a = a ∷ replicate n a

  pub length-append : (xs ys : List A) → length (xs ++ ys) ≡ length xs + length ys
  length-append [] ys = omega arith
  length-append (x ∷ xs) ys = omega (arith, length-append xs ys)

  pub append-snoc : (xs : List A) (x : A) (ys : List A) → (xs ++ x ∷ []) ++ ys ≡ xs ++ x ∷ ys
  append-snoc [] x ys = refl
  append-snoc (z ∷ xs) x ys = ap (◌∷◌ z) (append-snoc xs x ys)

  pub take-append-drop : (n : ℕ) (xs : List A) → take n xs ++ drop n xs ≡ xs
  take-append-drop zero xs = refl
  take-append-drop (suc n) [] = refl
  take-append-drop (suc n) (x ∷ xs) = ap (◌∷◌ x) (take-append-drop n xs)

  pub length-take : (n : ℕ) (xs : List A) → length (take n xs) ≡ min n (length xs)
  length-take zero xs = omega arith
  length-take (suc n) [] = omega arith
  length-take (suc n) (x ∷ xs) = omega (arith, length-take n xs)

  pub length-drop : (n : ℕ) (xs : List A) → length (drop n xs) ≡ length xs - n
  length-drop zero xs = omega arith
  length-drop (suc n) [] = omega arith
  length-drop (suc n) (x ∷ xs) = omega (arith, length-drop n xs)

  pub length-replicate : (n : ℕ) (a : A) → length (replicate n a) ≡ n
  length-replicate zero a = refl
  length-replicate (suc n) a = ap suc (length-replicate n a)

  pub take_all : (n : ℕ) (xs : List A) → length xs ≤ n → take n xs ≡ xs
  take_all zero [] h = refl
  take_all zero (x ∷ xs) h = absurd (omega arith)
  take_all (suc n) [] h = refl
  take_all (suc n) (x ∷ xs) h = ap (◌∷◌ x) (take_all n xs (omega arith))

  drop-nil : (n : ℕ) → ◌≡◌ {A = List A} (drop n []) []
  drop-nil zero = refl
  drop-nil (suc n) = refl

  -- Dropping in two steps is dropping once.
  pub drop-drop : (n m : ℕ) (xs : List A) → drop m (drop n xs) ≡ drop (n + m) xs
  drop-drop zero m xs = ap (λ k. drop k xs) (omega arith)
  drop-drop (suc n) m [] = drop-nil m ∙ sym (drop-nil (suc n + m))
  drop-drop (suc n) m (x ∷ xs) =
      drop-drop n m xs
      ∙ ap (λ k. drop k (x ∷ xs)) (let e : suc (n + m) ≡ suc n + m = omega arith in e)

module _ {ℓ κ} {A : Type ℓ} (P : A → Type κ) where
  abbrev pub All : List A → Type κ
  All [] = Unit
  All (x ∷ xs) = P x × All xs

  pub All-append : (xs ys : List A) → All xs → All ys → All (xs ++ ys)
  All-append [] ys hx hy = hy
  All-append (x ∷ xs) ys hx hy = (hx.0, All-append xs ys hx.1 hy)

-- One entry out of the middle, and another in its place.
pub middle_entry {ℓ κ} :
    {A : Type ℓ} (P : A → Type κ) (before : List A) (x y : A) (after : List A)
    → All P (before ++ x ∷ after)
    → P x × (P y → All P (before ++ y ∷ after))
middle_entry P [] x y after h = (h.0, λ p. (p, h.1))
middle_entry P (b ∷ before) x y after h =
    let (px, put) = middle_entry P before x y after h.1 in (px, λ p. (h.0, put p))

pub length_middle {ℓ} :
    {A : Type ℓ} (before : List A) (x y : A) (after : List A)
    → length (before ++ y ∷ after) ≡ length (before ++ x ∷ after)
length_middle [] x y after = refl
length_middle (b ∷ before) x y after = ap suc (length_middle before x y after)

pub length-map {ℓ κ} :
    {A : Type ℓ} {B : Type κ} (f : A → B) (xs : List A) → length (map f xs) ≡ length xs
length-map f [] = refl
length-map f (x ∷ xs) = omega (arith, length-map f xs)

pub All-map {ℓ κ μ} :
    {A : Type ℓ} {P : A → Type κ} {Q : A → Type μ} (f : (a : A) → P a → Q a) (xs : List A)
    → All P xs
    → All Q xs
All-map f [] h = tt
All-map f (x ∷ xs) h = (f x h.0, All-map f xs h.1)

module _ {ℓ} {A : Type ℓ} where
  pub take-length-append : (xs ys : List A) → take (length xs) (xs ++ ys) ≡ xs
  take-length-append [] ys = refl
  take-length-append (x ∷ xs) ys = ap (◌∷◌ x) (take-length-append xs ys)

  pub drop-length-append : (xs ys : List A) → drop (length xs) (xs ++ ys) ≡ ys
  drop-length-append [] ys = refl
  drop-length-append (x ∷ xs) ys = drop-length-append xs ys

module _ {ℓ} {A : Type ℓ} where
  -- memcpy of `ys` into `xs` at `k`.
  abbrev pub write_at : ℕ → List A → List A → List A
  write_at k ys xs = take k xs ++ (ys ++ drop (k + length ys) xs)

  take-append : (xs ys : List A) (k : ℕ) → take (length xs + k) (xs ++ ys) ≡ xs ++ take k ys
  take-append [] ys k = ap (λ n. take n ys) (omega arith)
  take-append (x ∷ xs) ys k =
      let e : suc (length xs) + k ≡ suc (length xs + k) = omega arith in
      ap (λ n. take n (x ∷ (xs ++ ys))) e ∙ ap (◌∷◌ x) (take-append xs ys k)

  -- What was in front of the written part, and that part.
  pub take-write_at :
      (k : ℕ) (ys xs : List A)
      → k ≤ length xs
      → take (k + length ys) (write_at k ys xs) ≡ take k xs ++ ys
  take-write_at k ys xs h =
      let front : length (take k xs) ≡ k = omega (arith, length-take k xs) in
      ap (λ n. take (n + length ys) (write_at k ys xs)) (sym front)
      ∙ take-append (take k xs) (ys ++ drop (k + length ys) xs) (length ys)
      ∙ ap (◌++◌ (take k xs)) (take-length-append ys (drop (k + length ys) xs))

  pub length-write_at :
      (k : ℕ) (ys xs : List A) → k + length ys ≤ length xs → length (write_at k ys xs) ≡ length xs
  length-write_at k ys xs h = omega (
    arith,
    length-append (take k xs) (ys ++ drop (k + length ys) xs),
    length-append ys (drop (k + length ys) xs),
    length-take k xs,
    length-drop (k + length ys) xs,
  )

-- `xs` is where `ys` begins.
abbrev pub IsPrefix {ℓ} : {A : Type ℓ} → List A → List A → Type ℓ
IsPrefix {A} xs ys = (rest : List A) × (xs ++ rest ≡ ys)

-- The sum of what `f` gives for the entries.
module _ {ℓ} {A : Type ℓ} (f : A → ℕ) where
  abbrev pub count : List A → ℕ
  count [] = 0
  count (x ∷ xs) = f x + count xs

  pub count-append : (xs ys : List A) → count (xs ++ ys) ≡ count xs + count ys
  count-append [] ys = omega arith
  count-append (x ∷ xs) ys = omega (arith, count-append xs ys)

  -- One entry out of the middle.
  pub count_middle : (xs ys : List A) (x : A) → count (xs ++ x ∷ ys) ≡ f x + count (xs ++ ys)
  count_middle [] ys x = refl
  count_middle (z ∷ xs) ys x = omega (arith, count_middle xs ys x)
