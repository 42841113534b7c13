-- ===== src/BadEcho/Accepting.antt =====
-- 01_bad_echo_server always has one accept under way.
use cpp_network_programming.Base.{
  ℕ, ◌+◌, ◌≡◌, refl, sym, ◌∙◌, Bool, true, false, [], ◌∷◌, ◌++◌, arith, length, count, count-append,
  Adds, ok-Adds, if-Adds, completed,
}
use cpp_network_programming.BadEcho.{
  Op, accept, read, write, Server, Result, ok, use_after_free, double_delete, add_op,
  delete_session, start, start_accept, handle_accept, handle_read, handle_write, and_then,
  on_accept, fill, on_read, on_write, boot,
}
use cpp_network_programming.BadEcho.OneOperation.{
  without, Step, accepted, received, written, Reach, booted, next,
}

abbrev pub is_accept : Op → ℕ
is_accept (accept i) = 1
is_accept (read i) = 0
is_accept (write i n) = 0

abbrev accepts : Server → ℕ
accepts s = count is_accept s.ops

ok_inj : (s t : Server) → ok s ≡ ok t → s ≡ t
ok_inj s t e = cc

delete_session-Adds : (id : ℕ) (s : Server) → Adds ok accepts 0 s (delete_session id s)
unfolding delete_session
delete_session-Adds id s =
    if-Adds ok accepts 0 s (s.alive id) _ _ (ok-Adds ok accepts ok_inj 0 s _ (omega arith))
      (λ t e. cc e)

start_accept-accepts : (s : Server) → accepts (start_accept s) ≡ 1 + accepts s
unfolding start_accept add_op
start_accept-accepts s = count-append is_accept s.ops (accept s.next_id ∷ []) ∙ omega arith

and_then-Adds :
    (s : Server) (r : Result)
    → Adds ok accepts 0 s r
    → Adds ok accepts 1 s (and_then r start_accept)
and_then-Adds s (ok t) h =
    ok-Adds ok accepts ok_inj 1 s _ (omega (arith, start_accept-accepts t, h t refl))
and_then-Adds s use_after_free h = λ t e. cc e
and_then-Adds s double_delete h = λ t e. cc e

handle_accept-Adds :
    (error : Bool) (id : ℕ) (s : Server) → Adds ok accepts 1 s (handle_accept error id s)
unfolding handle_accept start add_op
handle_accept-Adds true id s = and_then-Adds s _ (delete_session-Adds id s)
handle_accept-Adds false id s =
    ok-Adds ok accepts ok_inj 1 s _ (
      omega (arith, start_accept-accepts (start id s), count-append is_accept s.ops (read id ∷ [])))

handle_read-Adds :
    (error : Bool) (n id : ℕ) (s : Server) → Adds ok accepts 0 s (handle_read error n id s)
unfolding handle_read add_op
handle_read-Adds true n id s = delete_session-Adds id s
handle_read-Adds false n id s =
    ok-Adds ok accepts ok_inj 0 s _ (omega (arith, count-append is_accept s.ops (write id n ∷ [])))

handle_write-Adds :
    (error : Bool) (id : ℕ) (s : Server) → Adds ok accepts 0 s (handle_write error id s)
unfolding handle_write add_op
handle_write-Adds true id s = delete_session-Adds id s
handle_write-Adds false id s =
    ok-Adds ok accepts ok_inj 0 s _ (omega (arith, count-append is_accept s.ops (read id ∷ [])))

Step-accepts : {s t : Server} → Step s (ok t) → accepts t ≡ accepts s
unfolding on_accept on_read on_write fill
Step-accepts {s} {t} (accepted before after id error e c) =
    let u = without s (before ++ after) in
    completed ok accepts is_accept before after (accept id) s.ops s (without s (before ++ after)) t
      _ e refl refl (sym c)
      (if-Adds ok accepts 1 u (u.alive id) _ _ (handle_accept-Adds error id u) (λ t' e'. cc e'))
Step-accepts {s} {t} (received before after id error bytes e c) =
    let u = without s (before ++ after) in
    completed ok accepts is_accept before after (read id) s.ops s (without s (before ++ after)) t _
      e refl refl (sym c)
      (if-Adds ok accepts 0 u (u.alive id) _ _
        (handle_read-Adds error (length bytes) id (fill id bytes u)) (λ t' e'. cc e'))
Step-accepts {s} {t} (written before after id n error e c) =
    let u = without s (before ++ after) in
    completed ok accepts is_accept before after (write id n) s.ops s (without s (before ++ after)) t
      _ e refl refl (sym c)
      (if-Adds ok accepts 0 u (u.alive id) _ _ (handle_write-Adds error id u) (λ t' e'. cc e'))

pub Reach-accepts : {s : Server} → Reach s → count is_accept s.ops ≡ 1
unfolding boot start_accept add_op
Reach-accepts booted = omega arith
Reach-accepts (next r step) = Step-accepts step ∙ Reach-accepts r
