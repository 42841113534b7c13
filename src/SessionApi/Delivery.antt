-- ===== src/SessionApi/Delivery.antt =====
-- What is submitted arrives complete, once and in order, however the system cuts the writes.
use mathlib.Core.Path.{subst}
use cpp_network_programming.Base.{
  ℕ, ◌+◌, ◌-◌, ◌≤◌, ◌≡◌, refl, sym, ap, ◌∙◌, true, some, List, [], ◌∷◌, ◌++◌, arith, Bytes, length,
  length-drop, take, take_all, take-append-drop, drop, drop-drop, All, append_assoc, ltb, if_true,
  if_false, Bool-cases, some_inj, inl, inr,
}
use cpp_network_programming.SessionApi.{
  MsgNode, write, Session, rest_of, all_of, send_next, write_front, start_write,
}
use cpp_network_programming.SessionApi.Writes.{messages, unsent, IsWhole, InOrder, write_op}

-- A pending write among one is that one.
pub singleton_split {ℓ} :
    {A : Type ℓ} (x y : A) (before after : List A)
    → x ∷ [] ≡ before ++ y ∷ after
    → (before ≡ []) × (y ≡ x) × (after ≡ [])
singleton_split x y [] after e = (refl, cc, cc)
singleton_split x y (b ∷ []) after e = cc
singleton_split x y (b ∷ c ∷ before) after e = cc

rest_of_lem :
    (node : MsgNode) → node.total_len ≡ length node.msg → rest_of node ≡ drop node.cur_len node.msg
unfolding rest_of
rest_of_lem node h =
    take_all (node.total_len - node.cur_len) (drop node.cur_len node.msg)
      (omega (arith, length-drop node.cur_len node.msg))

all_of_lem : (node : MsgNode) → IsWhole node → all_of node ≡ drop node.cur_len node.msg
unfolding all_of
all_of_lem node h = rw h.1 (take_all node.total_len node.msg (omega (arith, h.0)))

-- The queue that is left when the front has been sent.
send_next-InOrder :
    (queue : List MsgNode) (s : Session)
    → All IsWhole queue
    → s.writes ≡ []
    → s.send_pending ≡ true
    → InOrder (send_next queue s) × (unsent (send_next queue s).send_queue ≡ messages queue)
unfolding send_next
send_next-InOrder [] s h w p = ((refl, w), refl)
send_next-InOrder (node ∷ queue) s h w p = (
  (
    p,
    ap (λ ws. ws ++ write_op (all_of node) ∷ []) w
        ∙ ap (λ b. write_op b ∷ []) (all_of_lem node h.0),
    h.0.0,
    omega arith,
    h.1,
  ),
  ap (λ k. drop k node.msg ++ messages queue) h.0.1,
)

-- What a completed write of `n` bytes does: the session is in order, and the bytes that were taken
-- and those that are left are those that were left before.
abbrev Moves : ℕ → MsgNode → List MsgNode → Session → Type 0
Moves n front queue u =
    InOrder u
    × (take n (drop front.cur_len front.msg) ++ unsent u.send_queue
        ≡ drop front.cur_len front.msg ++ messages queue)

pub split_at : (n : ℕ) (xs ys : Bytes) → take n xs ++ (drop n xs ++ ys) ≡ xs ++ ys
split_at n xs ys =
    sym (append_assoc (take n xs) (drop n xs) ys) ∙ ap (λ zs. zs ++ ys) (take-append-drop n xs)

module _ (n : ℕ) (front : MsgNode) (queue : List MsgNode) (s : Session) (p : s.send_pending ≡ true)
    (w : s.writes ≡ []) (total : front.total_len ≡ length front.msg)
    (fits : front.cur_len + n ≤ length front.msg) (whole : All IsWhole queue) where
  abbrev advanced : MsgNode
  advanced = record front { cur_len = front.cur_len + n }

  part-Moves :
      Moves n front queue
        (start_write write (rest_of advanced) (record s { send_queue = advanced ∷ queue }))
  unfolding start_write
  part-Moves = (
    (
      p,
      ap (λ ws. ws ++ write_op (rest_of advanced) ∷ []) w
          ∙ ap (λ b. write_op b ∷ []) (rest_of_lem advanced total),
      total,
      fits,
      whole,
    ),
    ap (λ xs. take n (drop front.cur_len front.msg) ++ (xs ++ messages queue))
          (sym (drop-drop front.cur_len n front.msg))
        ∙ split_at n (drop front.cur_len front.msg) (messages queue),
  )

  rest-Moves : front.total_len ≤ front.cur_len + n → Moves n front queue (send_next queue s)
  rest-Moves last =
      let (ordered, left) = send_next-InOrder queue s whole w p in
      let all =
        take_all n (drop front.cur_len front.msg)
          (omega (arith, length-drop front.cur_len front.msg)) in
      (ordered, rw (all, left))

  pub write_front-Moves :
      (u : Session) → write_front n (front ∷ queue) s ≡ some u → Moves n front queue u
  unfolding write_front
  write_front-Moves u e = elim (Bool-cases (ltb (front.cur_len + n) front.total_len)) [
    | inl more ↦
        subst (Moves n front queue) (some_inj (ap some (sym (if_true _ _ _ more)) ∙ e)) part-Moves
    | inr last ↦
        subst (Moves n front queue) (some_inj (ap some (sym (if_false _ _ _ last)) ∙ e))
          (rest-Moves (ground arith))
  ]
