-- ===== src/Http/Connection/Unanswered.antt =====
-- What becomes of a connection whose request is not a GET.
use mathlib.Core.Path.{subst}
use cpp_network_programming.Base.{
  ℕ, suc, ◌≡◌, ◌⊎◌, inl, inr, refl, sym, ap, ◌∙◌, Bool, true, false, some, some_inj, Bool-clash,
}
use cpp_network_programming.Http.Logic.{LogicSystem}
use cpp_network_programming.Http.Connection.{
  Conn, idle, waiting, due, check_deadline, on_read, on_deadline,
}
use cpp_network_programming.Http.Connection.Steps.{
  Step, read_failed, read, wrote, expired, waited, Run, here, next,
}
use cpp_network_programming.Http.Connection.Bounds.{on_read_other, refused}

-- How far the deadline has come: it is awaited, it has passed, or its callback has closed the
-- socket.
abbrev pub Stage : ℕ → Conn → Type 0
Stage n e =
    ((n ≡ 0) × (e.wait ≡ waiting))
    ⊎ (((n ≡ 1) × (e.wait ≡ due false)) ⊎ ((n ≡ 2) × ((e.wait ≡ idle) × (e.closed ≡ true))))

record Silent (c : Conn) (n : ℕ) (e : Conn) : Type 0 where
  not_reading : e.reading ≡ false
  not_writing : e.writing ≡ false
  nothing_sent : e.sent ≡ c.sent
  stage : Stage n e

Stage-expired :
    (n : ℕ) (e : Conn)
    → e.wait ≡ waiting
    → Stage n e
    → Stage (suc n) (record e { wait = due false })
Stage-expired n e w (inl (k, h)) = inr (inl (ap suc k, refl))
Stage-expired n e w (inr (inl (k, h))) = cc (sym w ∙ h)
Stage-expired n e w (inr (inr (k, rest))) = cc (sym w ∙ rest.0)

Stage-waited :
    (n : ℕ) (aborted : Bool) (e : Conn)
    → e.wait ≡ due aborted
    → Stage n e
    → Stage (suc n) (on_deadline aborted e)
unfolding on_deadline
Stage-waited n aborted e w (inl (k, h)) = cc (sym w ∙ h)
Stage-waited n true e w (inr (inl (k, h))) = cc (sym w ∙ h)
Stage-waited n false e w (inr (inl (k, h))) = inr (inr (ap suc k, (refl, refl)))
Stage-waited n aborted e w (inr (inr (k, rest))) = cc (sym w ∙ rest.0)

on_deadline-Silent :
    (c d : Conn) (n : ℕ) (aborted : Bool)
    → d.wait ≡ due aborted
    → Silent c n d
    → Silent c (suc n) (on_deadline aborted d)
on_deadline-Silent c d n true w v = record {
  not_reading = unfold on_deadline in v.not_reading;
  not_writing = unfold on_deadline in v.not_writing;
  nothing_sent = unfold on_deadline in v.nothing_sent;
  stage = Stage-waited n true d w v.stage;
}
on_deadline-Silent c d n false w v = record {
  not_reading = unfold on_deadline in v.not_reading;
  not_writing = unfold on_deadline in v.not_writing;
  nothing_sent = unfold on_deadline in v.nothing_sent;
  stage = Stage-waited n false d w v.stage;
}

Step-Silent :
    {sys : LogicSystem} {c d e : Conn} (n : ℕ) → Step sys d e → Silent c n d → Silent c (suc n) e
Step-Silent n (read_failed r eq) v = absurd (Bool-clash r v.not_reading)
Step-Silent n (read req r eq) v = absurd (Bool-clash r v.not_reading)
Step-Silent n (wrote w eq) v = absurd (Bool-clash w v.not_writing)
Step-Silent {sys} {c} {d} n (expired w eq) v = rw eq (record {
  not_reading = v.not_reading;
  not_writing = v.not_writing;
  nothing_sent = v.nothing_sent;
  stage = Stage-expired n d w v.stage;
})
Step-Silent {sys} {c} {d} n (waited aborted w eq) v = rw eq (on_deadline-Silent c d n aborted w v)

Run-Silent :
    {sys : LogicSystem} {c d e : Conn} {n : ℕ} → Silent c 0 d → Run sys d n e → Silent c n e
Run-Silent v here = v
Run-Silent v (next {n} run step) = Step-Silent n step (Run-Silent v run)

refused-Silent : (c : Conn) → c.writing ≡ false → Silent c 0 (refused c)
unfolding check_deadline
refused-Silent c w = record {
  not_reading = refl;
  not_writing = w;
  nothing_sent = refl;
  stage = inl (refl, refl);
}

-- A request that is no GET is never answered: whatever happens after it was read, nothing is sent
-- or being written. All that is left is the deadline, which passes and closes the socket.
pub other_unanswered :
    {sys : LogicSystem} (c : Conn) {d e : Conn} {n : ℕ}
    → c.http.request.is_get ≡ false
    → c.writing ≡ false
    → on_read sys false c ≡ some d
    → Run sys d n e
    → (e.sent ≡ c.sent) × (e.writing ≡ false) × Stage n e
other_unanswered {sys} c {d} other quiet eq run =
    let same : d ≡ refused c = some_inj (sym eq ∙ on_read_other sys c other) in
    let v = Run-Silent (subst (Silent c 0) (sym same) (refused-Silent c quiet)) run in
    (v.nothing_sent, v.not_writing, v.stage)
