-- ===== src/Duplex/Accepting.antt =====
-- 03_full_duplex_server has one accept under way as long as it runs.
use cpp_network_programming.Base.{
  ℕ, zero, ◌+◌, ◌≡◌, refl, sym, ◌∙◌, Bool, true, false, List, [], ◌∷◌, ◌++◌, arith, Bytes, length,
  count, count-append, Adds, ok-Adds, if-Adds, completed, if◌then◌else◌, replicate,
}
use cpp_network_programming.Duplex.{
  add_op, max_length, Uuid, MsgNode, Session, Source, Op, accept, read, write, Server, Result, ok,
  put, start, start_accept, handle_accept, handle_read, write_next, handle_write, clear_session,
  is_alive, on_read, on_write,
}
use cpp_network_programming.Duplex.Orderly.{without, ok_inj, booted}
use cpp_network_programming.Duplex.Callbacks.{handle_read-count}

abbrev pub is_accept : Op → ℕ
is_accept (accept i) = 1
is_accept (read i) = 0
is_accept (write i source) = 0

abbrev accepts : Server → ℕ
accepts s = count is_accept s.ops

start_accept-accepts : (uuid : Uuid) (s : Server) → accepts (start_accept uuid s) ≡ 1 + accepts s
unfolding start_accept
start_accept-accepts uuid s = count-append is_accept s.ops (accept s.next_id ∷ []) ∙ omega arith

handle_accept-accepts :
    (error : Bool) (uuid : Uuid) (id : ℕ) (s : Server)
    → accepts (handle_accept error uuid id s) ≡ 1 + accepts s
unfolding handle_accept start start_accept
handle_accept-accepts true uuid id s = start_accept-accepts uuid s
handle_accept-accepts false uuid id s = omega (
  arith,
  count-append is_accept s.ops (read id ∷ []),
  count-append is_accept (s.ops ++ read id ∷ []) (accept s.next_id ∷ []),
)

nothing : (b : Bool) → (if b then zero else zero) ≡ zero
nothing true = refl
nothing false = refl

handle_read-accepts :
    (garbage : ℕ) (error : Bool) (n id : ℕ) (s : Server)
    → accepts (handle_read garbage error n id s) ≡ accepts s
unfolding handle_read clear_session
handle_read-accepts garbage true n id s = refl
handle_read-accepts garbage false n id s =
    handle_read-count garbage n id s is_accept ∙ omega (arith, nothing _)

write_next-Adds :
    (id : ℕ) (queue : List MsgNode) (s : Server) → Adds ok accepts 0 s (write_next id queue s)
unfolding write_next
write_next-Adds id [] s = λ t e. cc e
write_next-Adds id (sent ∷ []) s = ok-Adds ok accepts (λ t u e. ok_inj e) 0 s _ (omega arith)
write_next-Adds id (sent ∷ node ∷ queue) s =
    ok-Adds ok accepts (λ t u e. ok_inj e) 0 s _ (count-append is_accept s.ops _ ∙ omega arith)

handle_write-Adds :
    (error : Bool) (id : ℕ) (s : Server) → Adds ok accepts 0 s (handle_write error id s)
unfolding handle_write clear_session
handle_write-Adds true id s = ok-Adds ok accepts (λ t u e. ok_inj e) 0 s _ (omega arith)
handle_write-Adds false id s = write_next-Adds id (s.objects id).send_queue s

on_read-Adds :
    (garbage : ℕ) (error : Bool) (bytes : Bytes) (id : ℕ) (s : Server)
    → Adds ok accepts 0 s (on_read garbage error bytes id s)
unfolding on_read put
on_read-Adds garbage error bytes id s =
    if-Adds ok accepts 0 s (is_alive id s) _ _
      (ok-Adds ok accepts (λ t u e. ok_inj e) 0 s _
        (handle_read-accepts garbage error (length bytes) id _ ∙ omega arith))
      (λ t e. cc e)

on_write-Adds : (error : Bool) (id : ℕ) (s : Server) → Adds ok accepts 0 s (on_write error id s)
unfolding on_write
on_write-Adds error id s =
    if-Adds ok accepts 0 s (is_alive id s) _ _ (handle_write-Adds error id s) (λ t e. cc e)

-- An operation completes, with an error or without; only what was started does.
pub data Completes (s : Server) (r : Result) : Type 0 where
  accepted :
      (before after : List Op) (id : ℕ) (error : Bool) (uuid : Uuid)
      → s.ops ≡ before ++ accept id ∷ after
      → r ≡ ok (handle_accept error uuid id (without s (before ++ after)))
      → Completes s r
  received :
      (before after : List Op) (garbage id : ℕ) (error : Bool) (bytes : Bytes)
      → s.ops ≡ before ++ read id ∷ after
      → r ≡ on_read garbage error bytes id (without s (before ++ after))
      → Completes s r
  written :
      (before after : List Op) (id : ℕ) (source : Source) (error : Bool)
      → s.ops ≡ before ++ write id source ∷ after
      → r ≡ on_write error id (without s (before ++ after))
      → Completes s r

pub data Runs : Server → Type 0 where
  boot : (objects : ℕ → Session) (uuid : Uuid) → Runs (booted objects uuid)
  next : {s t : Server} → Runs s → Completes s (ok t) → Runs t

Completes-accepts : {s t : Server} → Completes s (ok t) → accepts t ≡ accepts s
Completes-accepts {s} {t} (accepted before after id error uuid e c) =
    completed ok accepts is_accept before after (accept id) s.ops s (without s (before ++ after)) t
      _ e refl refl (sym c)
      (ok-Adds ok accepts (λ t u e. ok_inj e) 1 (without s (before ++ after)) _
        (handle_accept-accepts error uuid id (without s (before ++ after))))
Completes-accepts {s} {t} (received before after garbage id error bytes e c) =
    completed ok accepts is_accept before after (read id) s.ops s (without s (before ++ after)) t _
      e refl refl (sym c) (on_read-Adds garbage error bytes id (without s (before ++ after)))
Completes-accepts {s} {t} (written before after id source error e c) =
    completed ok accepts is_accept before after (write id source) s.ops s
      (without s (before ++ after)) t _ e refl refl (sym c)
      (on_write-Adds error id (without s (before ++ after)))

pub Runs-accepts : {s : Server} → Runs s → count is_accept s.ops ≡ 1
unfolding start_accept
Runs-accepts (boot objects uuid) = omega arith
Runs-accepts (next r step) = Completes-accepts step ∙ Runs-accepts r

-- One client has been accepted.
pub first_client :
    (s : Server) × Runs s
    × (s.ops ≡ read 0 ∷ accept 1 ∷ [])
    × ((s.objects 0).data_ ≡ replicate max_length 0)
unfolding start start_accept handle_accept add_op put
first_client =
    let nobody : ℕ → Session = λ i. record { uuid = []; data_ = []; send_queue = [] } in
    (
      handle_accept false [] 0 (without (booted nobody []) []),
      next (boot nobody []) (accepted [] [] 0 false [] refl refl),
      refl,
      refl,
    )
