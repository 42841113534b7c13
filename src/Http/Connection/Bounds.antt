-- ===== src/Http/Connection/Bounds.antt =====
-- How long a connection lives, when its deadline is armed, and how often it answers.
use cpp_network_programming.Base.{
  ℕ, ◌+◌, ◌≤◌, ◌<◌, ◌≡◌, refl, ◌⊎◌, inl, inr, Bool, true, false, some, [], arith, length,
  length-append, ◌>>=◌, >>=-eq-some, Bool-cases, ◌*◌, >>=_assoc, if_true, if_false, ap, ◌∙◌, sym,
}
use cpp_network_programming.Http.Message.{HttpConnection}
use cpp_network_programming.Http.Logic.{LogicSystem}
use cpp_network_programming.Http.Connection.{
  Conn, Wait, idle, waiting, due, start, write_response, prepare, answer_get, handle_req,
  check_deadline, on_read, on_write, on_deadline,
}
use cpp_network_programming.Http.Connection.Steps.{
  receive, Step, read_failed, read, wrote, expired, waited, Run, here, next, IsFresh,
}

abbrev bit : Bool → ℕ
bit true = 1
bit false = 0

abbrev wait_events : Wait → ℕ
wait_events idle = 0
wait_events waiting = 2
wait_events (due aborted) = 1

-- A bound on the events to come: a read brings a write and a wait.
abbrev events_left : Conn → ℕ
events_left c = 4 * bit c.reading + (bit c.writing + wait_events c.wait)

-- What the operations of a connection can be: until the read is over nothing else is under way,
-- and nothing is sent.
record Inv (c : Conn) : Type 0 where
  pub quiet :
      c.reading ≡ true → (c.writing ≡ false) × (c.wait ≡ idle) × (c.sent ≡ []) × (c.closed ≡ false)
  pub once : length c.sent ≤ 1

abbrev pub refused : Conn → Conn
refused c = check_deadline (record c { http = prepare c.http; reading = false })

abbrev pub replied : Conn → HttpConnection → Conn
replied c h = check_deadline (write_response (record c { http = h; reading = false }))

-- A request that is no GET is not answered.
pub on_read_other :
    (sys : LogicSystem) (c : Conn)
    → c.http.request.is_get ≡ false
    → on_read sys false c ≡ some (refused c)
unfolding on_read handle_req
on_read_other sys c other =
    ap (λ o. o >>= λ c'. some (check_deadline c')) (if_false c.http.request.is_get _ _ other)

pub on_read_get :
    (sys : LogicSystem) (c : Conn)
    → c.http.request.is_get ≡ true
    → on_read sys false c ≡ (answer_get sys (prepare c.http) >>= λ h. some (replied c h))
unfolding on_read handle_req
on_read_get sys c is_get =
    ap (λ o. o >>= λ c'. some (check_deadline c')) (if_true c.http.request.is_get _ _ is_get)
    ∙ >>=_assoc (answer_get sys (prepare c.http)) _ _

-- A read that does not abort the process either answers or does not, and arms the deadline.
pub on_read_cases :
    (sys : LogicSystem) (c d : Conn)
    → on_read sys false c ≡ some d
    → (d ≡ refused c) ⊎ ((h : HttpConnection) × (d ≡ replied c h))
on_read_cases sys c d e = elim (Bool-cases c.http.request.is_get) [
  | inr other ↦ inl (cc (on_read_other sys c other))
  | inl is_get ↦
      let (h, eh, ed) =
        >>=-eq-some (answer_get sys (prepare c.http)) _ (sym (on_read_get sys c is_get) ∙ e) in
      inr (h, cc)
]

Step-Inv : {sys : LogicSystem} {c d : Conn} → Step sys c d → Inv c → Inv d
unfolding on_read write_response check_deadline on_write on_deadline receive
Step-Inv (read_failed r e) v = record { quiet = λ h. ground arith; once = ground (arith, v.once) }
Step-Inv {sys} {c} {d} (read req r e) v = elim (on_read_cases sys (receive req c) d e) [
  | inl ed ↦ rw ed (record { quiet = λ h. cc; once = v.once })
  | inr (h, ed) ↦ rw ed (record {
    quiet = λ k. cc;
    once = rw (length-append c.sent) (omega (arith, ap length (v.quiet r).2));
  })
]
Step-Inv (wrote w e) v = rw e (record { quiet = λ h. absurd (cc ((v.quiet h).0)); once = v.once })
Step-Inv (expired w e) v = rw e (record { quiet = λ h. absurd (cc ((v.quiet h).1)); once = v.once })
Step-Inv {c} (waited true w e) v =
    rw e (record { quiet = λ h. absurd (cc ((v.quiet h).1)); once = v.once })
Step-Inv (waited false w e) v =
    rw e (record { quiet = λ h. absurd (cc ((v.quiet h).1)); once = v.once })

-- Every event leaves fewer events to come.
Step-lt : {sys : LogicSystem} {c d : Conn} → Step sys c d → events_left d < events_left c
unfolding on_read write_response check_deadline on_write on_deadline receive
Step-lt (read_failed r e) = ground arith
Step-lt {sys} {c} {d} (read req r e) = elim (on_read_cases sys (receive req c) d e) [
  | inl ed ↦ rw ed (ground arith)
  | inr (h, ed) ↦ rw ed (ground arith)
]
Step-lt (wrote w e) = ground arith
Step-lt (expired w e) = ground arith
Step-lt (waited aborted w e) = ground arith

IsFresh-Inv : {c : Conn} → IsFresh c → Inv (start c)
unfolding start
IsFresh-Inv f = record {
  quiet = λ h. (f.not_writing, f.no_wait, f.nothing_sent, f.not_closed);
  once = rw f.nothing_sent (omega arith);
}

Run-Inv : {sys : LogicSystem} {c d : Conn} {n : ℕ} → Inv c → Run sys c n d → Inv d
Run-Inv v here = v
Run-Inv v (next r s) = Step-Inv s (Run-Inv v r)

Run-le :
    {sys : LogicSystem} {c d : Conn} {n : ℕ} → Run sys c n d → n + events_left d ≤ events_left c
Run-le here = omega arith
Run-le (next r s) = omega (arith, Run-le r, Step-lt s)

start-events : {c : Conn} → IsFresh c → events_left (start c) ≡ 4
unfolding start
start-events f = rw (f.not_writing, f.no_wait) (refl)

-- No operation under way: the last callback is gone, and the connection with it.
abbrev pub IsReleased : Conn → Type 0
IsReleased c = (c.reading ≡ false) × (c.writing ≡ false) × (c.wait ≡ idle)

Wait-progress :
    (sys : LogicSystem) (c : Conn) (w : Wait)
    → c.wait ≡ w
    → (c.wait ≡ idle) ⊎ ((d : Conn) × Step sys c d)
Wait-progress sys c idle e = inl e
Wait-progress sys c waiting e = inr (_, expired e refl)
Wait-progress sys c (due aborted) e = inr (_, waited aborted e refl)

progress : (sys : LogicSystem) (c : Conn) → IsReleased c ⊎ ((d : Conn) × Step sys c d)
unfolding on_read
progress sys c = elim (Bool-cases c.reading) [
  | inl r ↦ inr (_, read_failed r refl)
  | inr nr ↦ elim (Bool-cases c.writing) [
    | inl w ↦ inr (_, wrote w refl)
    | inr nw ↦ elim (Wait-progress sys c c.wait refl) [ inl i ↦ inl (nr, nw, i) | inr s ↦ inr s ]
  ]
]

-- A connection sees four events at most, whatever the order in which its operations complete and
-- whether they fail, and it is left with an operation that can still complete, or with none, and
-- is destroyed.
pub Run_ends :
    {sys : LogicSystem} {c d : Conn} {n : ℕ}
    → IsFresh c
    → Run sys (start c) n d
    → (n ≤ 4) × (IsReleased d ⊎ ((e : Conn) × Step sys d e))
Run_ends {sys} {d} f r = (omega (arith, Run-le r, start-events f), progress sys d)

-- A connection answers once at most.
pub sent_once :
    {sys : LogicSystem} {c d : Conn} {n : ℕ} → IsFresh c → Run sys (start c) n d → length d.sent ≤ 1
sent_once f r = (Run-Inv (IsFresh-Inv f) r).once
