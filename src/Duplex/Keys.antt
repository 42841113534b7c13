-- ===== src/Duplex/Keys.antt =====
-- The map of 03_full_duplex_server: which sessions it holds, and under which uuids.
use cpp_network_programming.Base.{
  ℕ, ◌≡◌, ◌≢◌, refl, sym, ap, ◌∙◌, true, false, List, [], ◌∷◌, arith, ◌==◌, ==_refl, ==_iff, str_eq,
  str_eq_iff, Bool-cases, Bool-clash, if◌then◌else◌, if_true, if_false, inl, inr,
}
use cpp_network_programming.Duplex.{Uuid, Session, erase, held_by}

-- Each session stands in `sessions_` under its own uuid.
abbrev pub OwnUuid : (ℕ → Session) → List (Uuid × ℕ) → Type 0
OwnUuid objects [] = Unit
OwnUuid objects ((u, i) ∷ m) = (u ≡ (objects i).uuid) × OwnUuid objects m

pub held_by-erase :
    (objects : ℕ → Session) (id : ℕ) (m : List (Uuid × ℕ))
    → OwnUuid objects m
    → held_by id (erase (objects id).uuid m) ≡ false
unfolding held_by erase
held_by-erase objects id [] h = refl
held_by-erase objects id ((u, i) ∷ m) h = elim (Bool-cases (i == id)) [
  | inl same ↦
      let e = h.0 ∙ ap (λ k. (objects k).uuid) ((==_iff i id).0 same) in
      rw ((str_eq_iff u (objects id).uuid).1 e) (held_by-erase objects id m h.1)
  | inr other ↦ ground (arith, held_by-erase objects id m h.1)
]

-- A session under another uuid stays.
held_by-erase_other :
    (objects : ℕ → Session) (i : ℕ) (uuid : Uuid) (m : List (Uuid × ℕ))
    → OwnUuid objects m
    → (objects i).uuid ≢ uuid
    → held_by i (erase uuid m) ≡ held_by i m
unfolding held_by erase
held_by-erase_other objects i uuid [] h other = refl
held_by-erase_other objects i uuid ((u, j) ∷ m) h other = elim (Bool-cases (str_eq u uuid)) [
  | inl same ↦
      let differ : (j == i) ≡ false = elim (Bool-cases (j == i)) [
        | inl clash ↦ absurd (
            other (
              ap (λ k. (objects k).uuid) (sym ((==_iff j i).0 clash))
              ∙ sym h.0
              ∙ (str_eq_iff u uuid).0 same))
        | inr fine ↦ fine
      ] in
      ground (arith, held_by-erase_other objects i uuid m h.1 other, differ, same)
  | inr kept ↦ ground (arith, held_by-erase_other objects i uuid m h.1 other, kept)
]

held_by-erase_le :
    (i : ℕ) (uuid : Uuid) (m : List (Uuid × ℕ))
    → held_by i (erase uuid m) ≡ true
    → held_by i m ≡ true
unfolding held_by erase
held_by-erase_le i uuid [] h = h
held_by-erase_le i uuid ((u, j) ∷ m) h = elim (Bool-cases (str_eq u uuid)) [
  | inl same ↦ ground (arith, held_by-erase_le i uuid m, same)
  | inr kept ↦ ground (arith, held_by-erase_le i uuid m, kept)
]

OwnUuid-erase :
    (objects : ℕ → Session) (uuid : Uuid) (m : List (Uuid × ℕ))
    → OwnUuid objects m
    → OwnUuid objects (erase uuid m)
unfolding erase
OwnUuid-erase objects uuid [] h = tt
OwnUuid-erase objects uuid ((u, j) ∷ m) h = elim (Bool-cases (str_eq u uuid)) [
  | inl same ↦ rw same (OwnUuid-erase objects uuid m h.1)
  | inr kept ↦ rw kept (h.0, OwnUuid-erase objects uuid m h.1)
]

-- Sessions that the map holds have uuids of their own.
pub record Keyed (objects : ℕ → Session) (m : List (Uuid × ℕ)) : Type 0 where
  pub own : OwnUuid objects m
  pub unique :
      (i j : ℕ)
      → held_by i m ≡ true
      → held_by j m ≡ true
      → (objects i).uuid ≡ (objects j).uuid
      → i ≡ j

OwnUuid-agree :
    (objects objects' : ℕ → Session) (m : List (Uuid × ℕ))
    → ((i : ℕ) → held_by i m ≡ true → (objects' i).uuid ≡ (objects i).uuid)
    → OwnUuid objects m
    → OwnUuid objects' m
unfolding held_by
OwnUuid-agree objects objects' [] agree h = tt
OwnUuid-agree objects objects' ((u, i) ∷ m) agree h = (
  h.0 ∙ sym (agree i (rw (==_refl i) refl)),
  OwnUuid-agree objects objects' m (λ j held. agree j (ground (arith, held))) h.1,
)

-- Only the uuids of the sessions that are held count.
pub Keyed-agree :
    (objects objects' : ℕ → Session) (m : List (Uuid × ℕ))
    → ((i : ℕ) → held_by i m ≡ true → (objects' i).uuid ≡ (objects i).uuid)
    → Keyed objects m
    → Keyed objects' m
Keyed-agree objects objects' m agree k = record {
  own = OwnUuid-agree objects objects' m agree k.own;
  unique = λ i j hi hj e. k.unique i j hi hj (sym (agree i hi) ∙ e ∙ agree j hj);
}

pub Keyed-erase :
    (objects : ℕ → Session) (uuid : Uuid) (m : List (Uuid × ℕ))
    → Keyed objects m
    → Keyed objects (erase uuid m)
Keyed-erase objects uuid m k = record {
  own = OwnUuid-erase objects uuid m k.own;
  unique = λ i j hi hj. k.unique i j (held_by-erase_le i uuid m hi) (held_by-erase_le j uuid m hj);
}

-- An entry for a uuid that no session in the map has.
pub Keyed-insert :
    (objects : ℕ → Session) (id : ℕ) (m : List (Uuid × ℕ))
    → erase (objects id).uuid m ≡ m
    → Keyed objects m
    → Keyed objects (((objects id).uuid, id) ∷ m)
unfolding held_by
Keyed-insert objects id m clean k =
    let fresh = λ (i : ℕ) (held : held_by i m ≡ true) (e : (objects i).uuid ≡ (objects id).uuid).
      Bool-clash held (
        ap (held_by i) (sym clean ∙ ap (λ u. erase u m) (sym e))
        ∙ held_by-erase objects i m k.own) in
    record {
      own = (refl, k.own);
      unique = λ i j hi hj e. elim (Bool-cases (id == i)) [
        | inl i_is ↦ elim (Bool-cases (id == j)) [
          | inl j_is ↦ sym ((==_iff id i).0 i_is) ∙ (==_iff id j).0 j_is
          | inr j_not ↦ absurd (
              fresh j (sym (rw j_not refl) ∙ hj)
                (sym e ∙ ap (λ n. (objects n).uuid) (sym ((==_iff id i).0 i_is))))
        ]
        | inr i_not ↦ elim (Bool-cases (id == j)) [
          | inl j_is ↦ absurd (
              fresh i (sym (rw i_not refl) ∙ hi)
                (e ∙ ap (λ n. (objects n).uuid) (sym ((==_iff id j).0 j_is))))
          | inr j_not ↦ k.unique i j (sym (rw i_not refl) ∙ hi) (sym (rw j_not refl) ∙ hj) e
        ]
      ];
    }

held_by_iff :
    (i j : ℕ) (m m' : List (Uuid × ℕ))
    → (held_by i m ≡ true → held_by j m' ≡ true)
    → (held_by j m' ≡ true → held_by i m ≡ true)
    → held_by i m ≡ held_by j m'
held_by_iff i j m m' to from = elim (Bool-cases (held_by i m)) [
  | inl held ↦ held ∙ sym (to held)
  | inr gone ↦ elim (Bool-cases (held_by j m')) [
    | inl held ↦ absurd (Bool-clash (from held) gone)
    | inr gone' ↦ gone ∙ sym gone'
  ]
]

-- `ClearSession` drops the one session, and no other.
pub Keyed-held_by :
    (objects : ℕ → Session) (id : ℕ) (m : List (Uuid × ℕ))
    → Keyed objects m
    → held_by id m ≡ true
    → (i : ℕ) → held_by i (erase (objects id).uuid m) ≡ (if id == i then false else held_by i m)
Keyed-held_by objects id m k held i =
    let others = λ (n : ℕ) (other : (id == n) ≡ false).
      held_by_iff n n (erase (objects id).uuid m) m (held_by-erase_le n (objects id).uuid m)
        (λ there.
          held_by-erase_other objects n (objects id).uuid m k.own
            (λ e. Bool-clash ((==_iff id n).1 (k.unique id n held there (sym e))) other)
          ∙ there) in
    elim (Bool-cases (id == i)) [
      | inl same ↦
          ap (λ n. held_by n (erase (objects id).uuid m)) (sym ((==_iff id i).0 same))
          ∙ held_by-erase objects id m k.own
          ∙ sym (if_true _ _ _ same)
      | inr other ↦ others i other ∙ sym (if_false _ _ _ other)
    ]
