-- ===== src/AsyncMain/Ends.antt =====
-- How `main` of the asynchronous servers ends.
use mathlib.Core.Path.{subst}
use cpp_network_programming.Base.{
  true, false, ◌↔◌, map, length-map, ℕ, ◌≡◌, ◌⊎◌, inl, inr, refl, sym, ◌∙◌, List, [], ◌∷◌, arith,
  length, count, ◌≢◌, ◌++◌, drop, Bytes, zero, suc, ap, replicate, append-nil, All,
}
use cpp_network_programming.SyncEcho.{c_string}
use cpp_network_programming.SyncEcho.RoundTrip.{c_string-none}
use cpp_network_programming.BadEcho
use cpp_network_programming.BadEcho.OneOperation
use cpp_network_programming.BadEcho.OneOperation.{Reach-never_deleted_twice}
use cpp_network_programming.BadEcho.Accepting.{Reach-accepts}
use cpp_network_programming.GoodEcho
use cpp_network_programming.GoodEcho.Reachable
use cpp_network_programming.GoodEcho.NoEcho.{Outcome, Reach-never_echoes, no_later_read}
use cpp_network_programming.GoodEcho.Accepting as GoodAccepting
use cpp_network_programming.Duplex.Accepting as DuplexAccepting
use cpp_network_programming.StickyPacks.Server as Sticky
use cpp_network_programming.StickyPacks.Server.Projection.{op}
use cpp_network_programming.StickyPacks.Server.Simulates as Simulates
use cpp_network_programming.AsyncMain.{
  AsyncServer, Exit, caught, broken, Main, refuses, drains, throws, breaks, MayThrow, Overread,
  BadOverreads, BadDeletes, bad_server, good_server, duplex_server, sticky_server,
}

busy : {A : Type 0} (f : A → ℕ) (ops : List A) → count f ops ≡ 1 → MayThrow (length ops)
busy f [] one = absurd (omega (arith, one))
busy f (op ∷ ops) one = omega arith

one_under_way : {A : Type 0} (f : A → ℕ) (ops : List A) → count f ops ≡ 1 → ¬ (length ops ≡ 0)
one_under_way f ops one no_more = omega (arith, busy f ops one, no_more)

abbrev Fails : Exit → Type 0
Fails e = (e ≡ caught) ⊎ (e ≡ broken)

-- The deletes of 01 are never undefined.
bad_deletes : {s : BadEcho.Server} → OneOperation.Reach s → ¬ BadDeletes s
bad_deletes r (inl step) = let (t, (e, v)) = Reach-never_deleted_twice r step in cc (e)
bad_deletes r (inr step) = let (t, (e, v)) = Reach-never_deleted_twice r step in cc (e)

bad_breaks :
    {s : BadEcho.Server} → OneOperation.Reach s → BadDeletes s ⊎ BadOverreads s → BadOverreads s
bad_breaks r (inl deletes) = absurd (bad_deletes r deletes)
bad_breaks r (inr overreads) = overreads

bad_ends : {e : Exit} → Main bad_server true e → Fails e
bad_ends (refuses thrown) = inl refl
bad_ends (drains s made r none_left) = absurd (one_under_way _ s.ops (Reach-accepts r) none_left)
bad_ends (throws s made r t) = inl refl
bad_ends (breaks s made r undefined) = inr refl

not_freed : ¬ Outcome GoodEcho.use_after_free
not_freed (inl (t, (e, v))) = cc e
not_freed (inr e) = cc e

good_ends : {e : Exit} → Main good_server true e → e ≡ caught
good_ends (refuses taken) = refl
good_ends (drains s free r no_more) =
    absurd (one_under_way _ s.ops (GoodAccepting.Reach-accepts r) no_more)
good_ends (throws s free r t) = refl
good_ends (breaks s free r (inl step)) = absurd (not_freed (Reach-never_echoes r step).1)
good_ends (breaks s free r (inr (before, after, id, at, over))) =
    absurd (no_later_read before after id r at)

duplex_ends : {e : Exit} → Main duplex_server true e → Fails e
duplex_ends (refuses taken) = inl refl
duplex_ends (drains s free r no_more) =
    absurd (one_under_way _ s.ops (DuplexAccepting.Runs-accepts r) no_more)
duplex_ends (throws s free r t) = inl refl
duplex_ends (breaks s free r step) = inr refl

-- The lengths of 04 are left out by any `max_len_`.
no_operation : {s : Sticky.Server} → Simulates.Runs s → ¬ (length s.ops ≡ 0)
no_operation {s} r no_more =
    one_under_way DuplexAccepting.is_accept (map (op (λ m. 0)) s.ops)
      (DuplexAccepting.Runs-accepts (Simulates.Runs-server (λ m. 0) r))
      (length-map (op (λ m. 0)) s.ops ∙ no_more)

sticky_ends : {e : Exit} → Main sticky_server true e → Fails e
sticky_ends (refuses taken) = inl refl
sticky_ends (drains s free r no_more) = absurd (no_operation r no_more)
sticky_ends (throws s free r t) = inl refl
sticky_ends (breaks s free r step) = inr refl

refused_ends : {server : AsyncServer} {e : Exit} → Main server false e → e ≡ caught
refused_ends (refuses taken) = refl
refused_ends (drains s free r no_more) = cc
refused_ends (throws s free r t) = cc
refused_ends (breaks s free r step) = cc

abbrev letter : ℕ
letter = b'A'

zeros_dropped : (n : ℕ) → drop {A = ℕ} (length (replicate n letter)) (replicate n 0) ≡ []
zeros_dropped zero = refl
zeros_dropped (suc n) = zeros_dropped n

letters : (n : ℕ) → All (λ (b : ℕ). b ≢ 0) (replicate n letter)
letters zero = tt
letters (suc n) = (λ e. absurd (omega (arith, e)), letters n)

length-replicate : (n : ℕ) → length (replicate n letter) ≡ n
length-replicate zero = refl
length-replicate (suc n) = ap suc (length-replicate n)

-- A buffer of zeros that is filled with letters.
full : Overread (replicate BadEcho.max_length 0)
full = record {
  bytes = replicate BadEcho.max_length letter;
  fits = omega (arith, length-replicate BadEcho.max_length);
  endless =
      ap (λ rest. c_string (replicate BadEcho.max_length letter ++ rest))
        (zeros_dropped BadEcho.max_length)
      ∙ ap c_string (append-nil (replicate BadEcho.max_length letter))
      ∙ c_string-none (replicate BadEcho.max_length letter) (letters BadEcho.max_length);
}

-- What a first client can do.
full-Overread : (data_ : Bytes) → data_ ≡ replicate BadEcho.max_length 0 → Overread data_
full-Overread data_ e = subst Overread (sym e) full

bad_broken : Main bad_server true broken
bad_broken =
    let (s, r, at, zeros) = OneOperation.first_client in
    breaks s refl r (inr ([], _, 0, at, full-Overread _ zeros))

duplex_broken : Main duplex_server true broken
duplex_broken =
    let (s, r, at, zeros) = DuplexAccepting.first_client in
    breaks s refl r (inr ([], _, 0, at, full-Overread _ zeros))

sticky_broken : Main sticky_server true broken
sticky_broken =
    let (s, r, at, zeros) = Simulates.first_client in
    breaks s refl r (inr ([], _, 0, at, full-Overread _ zeros))

bad_caught : Main bad_server true caught
bad_caught = throws _ refl OneOperation.booted (busy _ _ (Reach-accepts OneOperation.booted))

good_caught : Main good_server true caught
good_caught =
    let r = Reachable.boot (λ i. record { uuid = []; data_ = [] }) [] in
    throws _ refl r (inr (busy _ _ (GoodAccepting.Reach-accepts r)))

duplex_caught : Main duplex_server true caught
duplex_caught =
    let (s, r, at, zeros) = DuplexAccepting.first_client in
    throws s refl r (busy _ _ (DuplexAccepting.Runs-accepts r))

sticky_caught : Main sticky_server true caught
sticky_caught =
    let (s, r, at, zeros) = Simulates.first_client in
    throws s refl r (subst MayThrow (sym (ap length at)) (omega arith))

ends :
    {server : AsyncServer} {e : Exit}
    → Main server true caught
    → Main server true broken
    → Fails e
    → Main server true e
ends {server} c b (inl same) = subst (Main server true) (sym same) c
ends {server} c b (inr same) = subst (Main server true) (sym same) b

-- If the constructor of the server throws, `main` of each server ends by that exception, which it
-- catches. If not, in none of the four servers does `ioc.run()` return for want of work, whatever
-- operations fail: each runs on, or ends by an exception of a callback, which is caught, or by
-- undefined behaviour. 02_good_echo_server, where no uuid is given twice, never ends by the latter;
-- 01_bad_echo_server, 03_full_duplex_server and 04_sticky_packs can, and in a state of
-- 01_bad_echo_server in which the next callback is undefined, that is the printing of a buffer in
-- which no string ends, never a delete.
pub mains_end :
    (server : AsyncServer) (e : Exit) {s : BadEcho.Server}
    → OneOperation.Reach s
    → (Main server false e ↔ (e ≡ caught))
      × (Main bad_server true e ↔ ((e ≡ caught) ⊎ (e ≡ broken)))
      × (Main good_server true e ↔ (e ≡ caught))
      × (Main duplex_server true e ↔ ((e ≡ caught) ⊎ (e ≡ broken)))
      × (Main sticky_server true e ↔ ((e ≡ caught) ⊎ (e ≡ broken)))
      × (bad_server.Breaks s → BadOverreads s)
mains_end server e r = (
  (refused_ends, λ same. subst (Main server false) (sym same) (refuses refl)),
  (bad_ends, ends bad_caught bad_broken),
  (good_ends, λ same. subst (Main good_server true) (sym same) good_caught),
  (duplex_ends, ends duplex_caught duplex_broken),
  (sticky_ends, ends sticky_caught sticky_broken),
  bad_breaks r,
)
