-- ===== src/SessionApi/Memory/Freed.antt =====
-- A node of WriteToSocketErr that is freed while a write of asio/async/00_session_api reads it.
use mathlib.Core.Path.{subst}
use cpp_network_programming.Base.{
  true, false, ◌||◌, ◌==◌, ◌+◌, ℕ, zero, suc, ◌<◌, ◌≡◌, inl, inr, refl, sym, ap, ◌∙◌, some, List,
  [], ◌∷◌, ◌++◌, arith, Bytes, length, length-append, drop, All, All-append, All-map, ltb, if_true,
}
use cpp_network_programming.SessionApi.{
  WriteOp, write_err, write_node, all_of, Session, start_write, write_to_socket,
  write_all_to_socket, write_to_socket_err, write_callback_err,
}
use cpp_network_programming.SessionApi.Memory.{
  Place, caller, node, bound, has, points_to, captured, is_alive, err_called_back, Memory, sent,
  submit_err, sends, sends_all, completed, Reach, fresh, next,
}
use cpp_network_programming.SessionApi.Memory.Lives.{IsFront, places_live}

-- The nodes in the queue have been made.
abbrev AreMade : Memory → Type 0
AreMade m = All (λ i. i < m.next_id) m.queue_ids

sent-AreMade : (t : Session) (m : Memory) → AreMade m → AreMade (sent t m)
sent-AreMade t m h =
    All-append (λ i. i < suc m.next_id) m.queue_ids (m.next_id ∷ [])
      (All-map (λ i below. omega (arith, below)) m.queue_ids h) (omega arith, tt)

All-drop : (P : ℕ → Type 0) (n : ℕ) (xs : List ℕ) → All P xs → All P (drop n xs)
All-drop P zero xs h = h
All-drop P (suc n) [] h = tt
All-drop P (suc n) (x ∷ xs) h = All-drop P n xs h.1

Reach-AreMade : {m : Memory} → Reach m → AreMade m
Reach-AreMade fresh = tt
Reach-AreMade (next {a} r (sends buf e)) =
    subst AreMade (sym e) (sent-AreMade (write_to_socket buf a.session) a (Reach-AreMade r))
Reach-AreMade (next {a} r (sends_all buf e)) =
    subst AreMade (sym e) (sent-AreMade (write_all_to_socket buf a.session) a (Reach-AreMade r))
Reach-AreMade (next {a} r (completed before after op pb pa p ec n t e at same_length ran same)) =
    subst AreMade (sym same) (All-drop (λ i. i < a.next_id) _ a.queue_ids (Reach-AreMade r))

abbrev err_write : Bytes → WriteOp
err_write buf = record { buffer = all_of (write_node buf (length buf)); callback = write_err }

no_id-has : (id : ℕ) (ids : List ℕ) → All (λ i. i < id) ids → has id ids ≡ false
unfolding has
no_id-has id [] h = refl
no_id-has id (i ∷ ids) h = ground (arith, h.0, no_id-has id ids h.1)

-- The callbacks of the functions with a queue capture no node.
IsFront-captured :
    (m : Memory) (id : ℕ) (places : List Place)
    → All (IsFront m) places
    → captured id places ≡ false
unfolding captured
IsFront-captured m id [] h = refl
IsFront-captured m id (caller k ∷ places) h = IsFront-captured m id places h.1
IsFront-captured m id (node k ∷ places) h = IsFront-captured m id places h.1
IsFront-captured m id (bound k ∷ places) ((i, ids, at, inl e), h) = cc
IsFront-captured m id (bound k ∷ places) ((i, ids, at, inr e), h) = cc

captured-append :
    (id : ℕ) (xs ys : List Place) → captured id (xs ++ ys) ≡ (captured id xs || captured id ys)
unfolding captured
captured-append id [] ys = refl
captured-append id (caller k ∷ xs) ys = captured-append id xs ys
captured-append id (node k ∷ xs) ys = captured-append id xs ys
captured-append id (bound k ∷ xs) ys = ground (arith, captured-append id xs ys)

-- A node that no member but `send_node_` can point to, beside places that capture none.
once_alive :
    (id : ℕ) (ids : List ℕ) (places : List Place)
    → (has id ids || (id == id || captured id places)) ≡ true
once_alive id ids places = ground arith

freed :
    (m : Memory) (places : List Place)
    → All (λ i. i < m.next_id) m.queue_ids
    → captured m.next_id m.places ≡ false
    → (has m.next_id m.queue_ids
        || (suc m.next_id == m.next_id
            || captured m.next_id ((m.places ++ node m.next_id ∷ []) ++ node (suc m.next_id) ∷ [])))
      ≡ false
unfolding captured
freed m places made free =
    let first = captured-append m.next_id m.places (node m.next_id ∷ []) in
    let second =
      captured-append m.next_id (m.places ++ node m.next_id ∷ []) (node (suc m.next_id) ∷ []) in
    ground (arith, no_id-has m.next_id m.queue_ids made, first, second, free)

bound_alive :
    (m : Memory)
    → (has m.next_id m.queue_ids
        || (suc m.next_id == m.next_id
            || captured m.next_id
                ((m.places ++ bound m.next_id ∷ []) ++ node (suc m.next_id) ∷ [])))
      ≡ true
unfolding captured
bound_alive m =
    let first = captured-append m.next_id m.places (bound m.next_id ∷ []) in
    let second =
      captured-append m.next_id (m.places ++ bound m.next_id ∷ []) (node (suc m.next_id) ∷ []) in
    ground (arith, first, second)

-- The callback of the write that WriteToSocketErr started, which took `n` bytes without an error,
-- is called: the session is then `s`.
abbrev pub err_completed : Bytes → Memory → Session → Memory
err_completed a m s =
    err_called_back (record (write_to_socket_err a m.session) { writes = m.session.writes }) s
      m.places (submit_err a m)

ltb-append : (ops : List WriteOp) (op : WriteOp) → ltb (length ops) (length (ops ++ op ∷ [])) ≡ true
ltb-append ops op = ground (arith, length-append ops (op ∷ []))

-- A first write that goes on has a callback that points to its node.
continued_alive :
    (m : Memory) (a b : Bytes) (n : ℕ)
    → n < length a
    → (s : Session) × (write_callback_err 0 n
          (record (write_to_socket_err a m.session) { writes = m.session.writes })
        ≡ some s)
      × (is_alive m.next_id (submit_err b (err_completed a m s)) ≡ true)
unfolding write_to_socket_err write_callback_err start_write is_alive points_to write_node
continued_alive m a b n short =
    let more : ltb (n + 0) (length a) ≡ true = ground (arith, short) in
    (
      _,
      ap some (if_true _ _ _ more),
      ap
            (λ (ps : List Place).
              has m.next_id m.queue_ids
              || (suc m.next_id == m.next_id
                  || captured m.next_id (ps ++ node (suc m.next_id) ∷ [])))
            (if_true _ _ _ (ltb-append m.session.writes _))
          ∙ bound_alive m,
    )

-- After texts sent by the functions with a queue, WriteToSocketErr is called twice: its second write
-- joins the first, which still reads the first node. The lambda of the first captures no node, so the
-- first node, which `send_node_` kept alive till then, is freed by the second call, and only the
-- second node is alive. If the first write had been continued by WriteCallBackErr before the second
-- call, having taken fewer bytes than there are, the callback made by `std::bind` would keep the
-- first node alive.
pub err_node_freed :
    {m : Memory} (a b : Bytes) (n : ℕ)
    → Reach m
    → n < length a
    → let t = submit_err b (submit_err a m) in
      (t.places ≡ (m.places ++ node m.next_id ∷ []) ++ node (suc m.next_id) ∷ [])
      × (length t.places ≡ length t.session.writes)
      × (is_alive m.next_id (submit_err a m) ≡ true)
      × (is_alive m.next_id t ≡ false)
      × (is_alive (suc m.next_id) t ≡ true)
      × ((s : Session) × (write_callback_err 0 n
              (record (write_to_socket_err a m.session) { writes = m.session.writes })
            ≡ some s)
          × (is_alive m.next_id (submit_err b (err_completed a m s)) ≡ true))
unfolding write_to_socket_err start_write is_alive points_to
err_node_freed {m} a b n r short =
    let (numbered, same, one, fronts) = places_live r in
    (
      refl,
      omega (
        arith,
        same,
        length-append m.places (node m.next_id ∷ []),
        length-append (m.places ++ node m.next_id ∷ []) (node (suc m.next_id) ∷ []),
        length-append m.session.writes (err_write a ∷ []),
        length-append (m.session.writes ++ err_write a ∷ []) (err_write b ∷ []),
      ),
      once_alive m.next_id m.queue_ids (m.places ++ node m.next_id ∷ []),
      freed m m.places (Reach-AreMade r) (IsFront-captured m m.next_id m.places fronts),
      once_alive (suc m.next_id) m.queue_ids
          ((m.places ++ node m.next_id ∷ []) ++ node (suc m.next_id) ∷ []),
      continued_alive m a b n short,
    )
