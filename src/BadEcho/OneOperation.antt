-- ===== src/BadEcho/OneOperation.antt =====
-- Each session of 01_bad_echo_server has exactly one operation under way, until it is deleted.
use mathlib.Core.Path.{subst}
use cpp_network_programming.Base.{
  ℕ, ◌+◌, ◌≤◌, ◌≡◌, refl, sym, ap, ◌∙◌, Bool, true, false, List, [], ◌∷◌, ◌++◌, arith, Bytes,
  length, replicate, ◌==◌, ==_refl, if_true,
}
use cpp_network_programming.BadEcho.{
  Op, accept, read, write, Server, Result, ok, update, add_op, delete_session, start, and_then,
  max_length, handle_accept, start_accept, on_accept, fill, on_read, on_write, boot,
}

abbrev pub bit : Bool → ℕ
bit true = 1
bit false = 0

abbrev owner : Op → ℕ
owner (accept i) = i
owner (read i) = i
owner (write i n) = i

abbrev pub count : ℕ → List Op → ℕ
count i [] = 0
count i (op ∷ ops) = bit (owner op == i) + count i ops

count-append : (i : ℕ) (xs ys : List Op) → count i (xs ++ ys) ≡ count i xs + count i ys
count-append i [] ys = omega arith
count-append i (x ∷ xs) ys = omega (arith, count-append i xs ys)

count_middle :
    (i : ℕ) (xs ys : List Op) (op : Op)
    → count i (xs ++ op ∷ ys) ≡ bit (owner op == i) + count i (xs ++ ys)
count_middle i [] ys op = refl
count_middle i (x ∷ xs) ys op = omega (arith, count_middle i xs ys op)

record Inv (s : Server) : Type 0 where
  pub one_op : (i : ℕ) → count i s.ops ≡ bit (s.alive i)
  pub unused : (i : ℕ) → s.next_id ≤ i → s.alive i ≡ false

abbrev pub without : Server → List Op → Server
without s ops = record s { ops = ops }

-- An operation completes, with an error or without; only what was started does.
pub data Step (s : Server) (r : Result) : Type 0 where
  accepted :
      (before after : List Op) (id : ℕ) (error : Bool)
      → s.ops ≡ before ++ accept id ∷ after
      → r ≡ on_accept error id (without s (before ++ after))
      → Step s r
  received :
      (before after : List Op) (id : ℕ) (error : Bool) (bytes : Bytes)
      → s.ops ≡ before ++ read id ∷ after
      → r ≡ on_read error bytes id (without s (before ++ after))
      → Step s r
  written :
      (before after : List Op) (id n : ℕ) (error : Bool)
      → s.ops ≡ before ++ write id n ∷ after
      → r ≡ on_write error id (without s (before ++ after))
      → Step s r

pub data Reach : Server → Type 0 where
  booted : Reach boot
  next : {s t : Server} → Reach s → Step s (ok t) → Reach t

-- The session whose operation has just completed: it is alive, and nothing else of it is under way.
record Called (id : ℕ) (s : Server) : Type 0 where
  is_alive : s.alive id ≡ true
  others : (i : ℕ) → count i s.ops + bit (id == i) ≡ bit (s.alive i)
  unused : (i : ℕ) → s.next_id ≤ i → s.alive i ≡ false

bit-true : (b : Bool) → 1 ≤ bit b → b ≡ true
bit-true true h = refl
bit-true false h = absurd (omega arith)

called :
    (before after : List Op) (op : Op) (s : Server)
    → Inv s
    → s.ops ≡ before ++ op ∷ after
    → Called (owner op) (without s (before ++ after))
called before after op s v e =
    let at = λ (i : ℕ). ap (count i) e ∙ count_middle i before after op in
    record {
      is_alive =
          bit-true _
            (omega (arith, v.one_op (owner op), at (owner op), ap bit (==_refl (owner op))));
      others = λ i. omega (arith, v.one_op i, at i);
      unused = v.unused;
    }

-- One operation more for it, and all is as it was.
add_op-Inv : (op : Op) (s : Server) → Called (owner op) s → Inv (add_op op s)
unfolding add_op
add_op-Inv op s c = record {
  one_op = λ i. omega (arith, count-append i s.ops (op ∷ []), c.others i);
  unused = c.unused;
}

abbrev deleted : ℕ → Server → Server
deleted id s = record s { alive = update id false s.alive }

deleted-Inv : (id : ℕ) (s : Server) → Called id s → Inv (deleted id s)
unfolding update
deleted-Inv id s c = record {
  one_op = λ i. ground (arith, c.others i, c.is_alive);
  unused = λ i h. ground (arith, c.unused i);
}

start_accept-Inv : (s : Server) → Inv s → Inv (start_accept s)
unfolding start_accept
start_accept-Inv s v = record {
  one_op =
      λ i. ground (arith, count-append i s.ops (accept s.next_id ∷ []), v.one_op i, v.unused i);
  unused = λ i h. ground (arith, v.unused i);
}

delete_session-ok :
    (id : ℕ) (s : Server) → s.alive id ≡ true → delete_session id s ≡ ok (deleted id s)
unfolding delete_session
delete_session-ok id s alive = if_true _ _ _ alive

-- What a callback leaves.
abbrev Fine : Result → Type 0
Fine r = (t : Server) × ((r ≡ ok t) × Inv t)

on_accept-Fine : (error : Bool) (id : ℕ) (s : Server) → Called id s → Fine (on_accept error id s)
unfolding on_accept
on_accept-Fine true id s c = (
  start_accept (deleted id s),
  (
    if_true _ _ _ c.is_alive
        ∙ ap (λ r. and_then r start_accept) (delete_session-ok id s c.is_alive),
    start_accept-Inv (deleted id s) (deleted-Inv id s c),
  ),
)
on_accept-Fine false id s c = (
  start_accept (start id s),
  (
    if_true _ _ _ c.is_alive,
    start_accept-Inv (start id s) (unfold start in add_op-Inv (read id) s c),
  ),
)

on_read-Fine :
    (error : Bool) (bytes : Bytes) (id : ℕ) (s : Server)
    → Called id s
    → Fine (on_read error bytes id s)
unfolding on_read fill
on_read-Fine true bytes id s c =
    let filled : Called id (fill id bytes s) = record {
      is_alive = c.is_alive;
      others = c.others;
      unused = c.unused;
    } in
    (
      deleted id (fill id bytes s),
      (
        if_true _ _ _ c.is_alive ∙ delete_session-ok id (fill id bytes s) c.is_alive,
        deleted-Inv id (fill id bytes s) filled,
      ),
    )
on_read-Fine false bytes id s c =
    let filled : Called id (fill id bytes s) = record {
      is_alive = c.is_alive;
      others = c.others;
      unused = c.unused;
    } in
    (
      add_op (write id (length bytes)) (fill id bytes s),
      (if_true _ _ _ c.is_alive, add_op-Inv (write id (length bytes)) (fill id bytes s) filled),
    )

on_write-Fine : (error : Bool) (id : ℕ) (s : Server) → Called id s → Fine (on_write error id s)
unfolding on_write
on_write-Fine true id s c = (
  deleted id s,
  (if_true _ _ _ c.is_alive ∙ delete_session-ok id s c.is_alive, deleted-Inv id s c),
)
on_write-Fine false id s c =
    let zeroed = record s { buffers = update id (replicate max_length 0) s.buffers } in
    let again : Called id zeroed = record {
      is_alive = c.is_alive;
      others = c.others;
      unused = c.unused;
    } in
    (add_op (read id) zeroed, (if_true _ _ _ c.is_alive, add_op-Inv (read id) zeroed again))

Step-Fine : {s : Server} {r : Result} → Inv s → Step s r → Fine r
Step-Fine {s} v (accepted before after id error e c) =
    subst Fine (sym c) (on_accept-Fine error id _ (called before after (accept id) s v e))
Step-Fine {s} v (received before after id error bytes e c) =
    subst Fine (sym c) (on_read-Fine error bytes id _ (called before after (read id) s v e))
Step-Fine {s} v (written before after id n error e c) =
    subst Fine (sym c) (on_write-Fine error id _ (called before after (write id n) s v e))

boot-Inv : Inv boot
unfolding boot
boot-Inv =
    start_accept-Inv (record { alive = λ i. false; buffers = λ i. []; next_id = 0; ops = [] })
      (record { one_op = λ i. refl; unused = λ i h. refl })

ok_inj : {s t : Server} → ok s ≡ ok t → s ≡ t
ok_inj e = cc

Reach-Inv : {s : Server} → Reach s → Inv s
Reach-Inv booted = boot-Inv
Reach-Inv (next h step) =
    let (t, (e, v)) = Step-Fine (Reach-Inv h) step in subst Inv (sym (ok_inj e)) v

-- From the start of the server on, whatever completes next, with an error or without: its callback
-- finds its session, deletes nothing twice, and leaves a server in which each session that is alive
-- has exactly one operation under way and each deleted one has none.
pub Reach-never_deleted_twice :
    {s : Server} {r : Result}
    → Reach s
    → Step s r
    → (t : Server) × ((r ≡ ok t) × ((i : ℕ) → count i t.ops ≡ bit (t.alive i)))
Reach-never_deleted_twice h step =
    let (t, (e, v)) = Step-Fine (Reach-Inv h) step in (t, (e, v.one_op))

-- One client has been accepted.
pub first_client :
    (s : Server) × Reach s
    × (s.ops ≡ read 0 ∷ accept 1 ∷ [])
    × (s.buffers 0 ≡ replicate max_length 0)
unfolding boot start start_accept on_accept handle_accept add_op update
first_client = (
  start_accept (start 0 (without boot [])),
  next booted (accepted [] [] 0 false refl refl),
  refl,
  refl,
)
