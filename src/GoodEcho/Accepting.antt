-- ===== src/GoodEcho/Accepting.antt =====
-- 02_good_echo_server has one accept under way as long as it runs.
use cpp_network_programming.Base.{
  ℕ, ◌+◌, ◌≡◌, refl, sym, ◌∙◌, Bool, true, false, [], ◌∷◌, ◌++◌, arith, Bytes, length, count,
  count-append, Adds, ok-Adds, if-Adds, completed,
}
use cpp_network_programming.GoodEcho.{
  Op, accept, first_read, read, write, Server, Result, ok, use_after_free, bad_weak_ptr, add_op,
  put, start, start_accept, handle_accept, handle_read, handle_write, clear_session, and_then,
  shared_from_this, is_alive, fill, on_first_read, on_read, on_write,
}
use cpp_network_programming.GoodEcho.Reachable.{
  without, Step, accepted, received_first, received, written, Reach, boot, next,
}

abbrev pub is_accept : Op → ℕ
is_accept (accept i) = 1
is_accept (first_read i) = 0
is_accept (read i) = 0
is_accept (write i n) = 0

abbrev accepts : Server → ℕ
accepts s = count is_accept s.ops

add_op-accepts : (op : Op) (s : Server) → accepts (add_op op s) ≡ accepts s + is_accept op
unfolding add_op
add_op-accepts op s = count-append is_accept s.ops (op ∷ []) ∙ omega arith

start_accept-accepts : (uuid : Bytes) (s : Server) → accepts (start_accept uuid s) ≡ 1 + accepts s
unfolding start_accept add_op put
start_accept-accepts uuid s = count-append is_accept s.ops (accept s.next_id ∷ []) ∙ omega arith

handle_accept-accepts :
    (error : Bool) (uuid : Bytes) (id : ℕ) (s : Server)
    → accepts (handle_accept error uuid id s) ≡ 1 + accepts s
unfolding handle_accept start start_accept add_op put
handle_accept-accepts true uuid id s = start_accept-accepts uuid s
handle_accept-accepts false uuid id s = omega (
  arith,
  count-append is_accept s.ops (first_read id ∷ []),
  count-append is_accept (s.ops ++ first_read id ∷ []) (accept s.next_id ∷ []),
)

handle_read-accepts :
    (error : Bool) (n id : ℕ) (s : Server) → accepts (handle_read error n id s) ≡ accepts s
unfolding handle_read clear_session
handle_read-accepts true n id s = refl
handle_read-accepts false n id s = add_op-accepts (write id n) s ∙ omega arith

handle_write-accepts :
    (error : Bool) (id : ℕ) (s : Server) → accepts (handle_write error id s) ≡ accepts s
unfolding handle_write clear_session put add_op
handle_write-accepts true id s = refl
handle_write-accepts false id s = count-append is_accept s.ops (read id ∷ []) ∙ omega arith

ok_inj : (s t : Server) → ok s ≡ ok t → s ≡ t
ok_inj s t e = cc

and_then-Adds :
    (s : Server) (r : Result) (f : Server → Server)
    → Adds ok accepts 0 s r
    → ((u : Server) → accepts (f u) ≡ accepts u)
    → Adds ok accepts 0 s (and_then r f)
and_then-Adds s (ok t) f h k = ok-Adds ok accepts ok_inj 0 s _ (k t ∙ h t refl)
and_then-Adds s use_after_free f h k = λ t e. cc e
and_then-Adds s bad_weak_ptr f h k = λ t e. cc e

on_first_read-Adds :
    (error : Bool) (bytes : Bytes) (id : ℕ) (s : Server)
    → Adds ok accepts 0 s (on_first_read error bytes id s)
unfolding on_first_read shared_from_this fill put
on_first_read-Adds error bytes id s =
    if-Adds ok accepts 0 s (is_alive id s) _ _
      (and_then-Adds s bad_weak_ptr (handle_read error (length bytes) id) (λ t e. cc e)
        (handle_read-accepts error (length bytes) id))
      (λ t e. cc e)

on_read-Adds :
    (error : Bool) (bytes : Bytes) (id : ℕ) (s : Server)
    → Adds ok accepts 0 s (on_read error bytes id s)
unfolding on_read fill put
on_read-Adds error bytes id s =
    ok-Adds ok accepts ok_inj 0 s _
      (handle_read-accepts error (length bytes) id (fill id bytes s) ∙ omega arith)

on_write-Adds : (error : Bool) (id : ℕ) (s : Server) → Adds ok accepts 0 s (on_write error id s)
unfolding on_write
on_write-Adds error id s =
    ok-Adds ok accepts ok_inj 0 s _ (handle_write-accepts error id s ∙ omega arith)

Step-accepts : {s t : Server} → Step s (ok t) → accepts t ≡ accepts s
unfolding fill put
Step-accepts {s} {t} (accepted before after id error uuid e new c) =
    completed ok accepts is_accept before after (accept id) s.ops s (without s (before ++ after)) t
      _ e refl refl (sym c)
      (ok-Adds ok accepts ok_inj 1 (without s (before ++ after)) _
        (handle_accept-accepts error uuid id (without s (before ++ after))))
Step-accepts {s} {t} (received_first before after id error bytes e c) =
    completed ok accepts is_accept before after (first_read id) s.ops s
      (without s (before ++ after)) t _ e refl refl (sym c)
      (on_first_read-Adds error bytes id (without s (before ++ after)))
Step-accepts {s} {t} (received before after id error bytes e c) =
    completed ok accepts is_accept before after (read id) s.ops s (without s (before ++ after)) t _
      e refl refl (sym c) (on_read-Adds error bytes id (without s (before ++ after)))
Step-accepts {s} {t} (written before after id n error e c) =
    completed ok accepts is_accept before after (write id n) s.ops s (without s (before ++ after)) t
      _ e refl refl (sym c) (on_write-Adds error id (without s (before ++ after)))

pub Reach-accepts : {s : Server} → Reach s → count is_accept s.ops ≡ 1
unfolding start_accept add_op put
Reach-accepts (boot objects uuid) = omega arith
Reach-accepts (next r step) = Step-accepts step ∙ Reach-accepts r
