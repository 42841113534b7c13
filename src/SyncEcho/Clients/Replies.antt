-- ===== src/SyncEcho/Clients/Replies.antt =====
-- A client and a server together: the reply that a client shows.
use mathlib.Core.Path.{subst}
use cpp_network_programming.Base.{
  ℕ, ◌≡◌, ◌≤◌, inl, inr, refl, sym, ap, ◌∙◌, Bool, true, false, Option, none, some, List, [], ◌∷◌,
  ◌++◌, arith, Bytes, length, All, middle_entry, IsPrefix, append-nil, append_assoc, length-append,
  Bool-cases, leb, ◌==◌, if◌then◌else◌, if_false,
}
use cpp_network_programming.SyncEcho.{
  Sent, whole, broken, request, read_reply, Round, waiting, started, c_session, session,
}
use cpp_network_programming.SyncEcho.RoundTrip.{read_reply_whole, read_reply-request, IsFine, texts}
use cpp_network_programming.SyncEcho.Loop.{arrived}
use cpp_network_programming.SyncEcho.Servers.{EchoServer, Client, System, Reach}
use cpp_network_programming.SyncEcho.Servers.Interleavings.{Echoed, Reach-Echoed}
use cpp_network_programming.SyncEcho.Clients.{
  Line, prompt, usage, exception, connect_failed, reply, Run, show_reply, talk, sync_client,
  connected, blocking_client,
}

-- A reply on the terminal is the request.
abbrev pub Answers : Bytes → Line → Type 0
Answers asked prompt = Unit
Answers asked usage = Unit
Answers asked exception = Unit
Answers asked (connect_failed e) = Unit
Answers asked (reply bytes) = bytes ≡ asked

prefix_trans : (xs ys zs : Bytes) → IsPrefix xs ys → IsPrefix ys zs → IsPrefix xs zs
prefix_trans xs ys zs (a, p) (b, q) = (a ++ b, sym (append_assoc xs a b) ∙ ap (λ l. l ++ b) p ∙ q)

length_zero : (xs : Bytes) → length xs ≤ 0 → xs ≡ []
length_zero [] h = refl
length_zero (x ∷ xs) h = absurd (omega (arith, h))

-- A beginning that is long enough is everything.
prefix_whole : (xs ys : Bytes) → IsPrefix xs ys → length ys ≤ length xs → xs ≡ ys
prefix_whole xs ys (a, p) h =
    let no_more = length_zero a (omega (arith, h, length-append xs a, ap length p)) in
    sym (append-nil xs) ∙ ap (◌++◌ xs) (sym no_more) ∙ p

read_reply_short :
    (asked incoming : Bytes)
    → leb (length asked) (length incoming) ≡ false
    → read_reply (length asked) incoming ≡ none
unfolding read_reply
read_reply_short asked incoming short = if_false (leb (length asked) (length incoming)) _ _ short

show_reply-Answers :
    (asked incoming : Bytes)
    → IsPrefix incoming asked
    → Answers asked (show_reply (read_reply (length asked) incoming))
unfolding show_reply
show_reply-Answers asked incoming h = elim (Bool-cases (leb (length asked) (length incoming))) [
  | inl enough ↦
      let same = prefix_whole incoming asked h (ground (arith, enough)) in
      subst (λ o. Answers asked (show_reply o))
        (sym (read_reply_whole asked) ∙ ap (read_reply (length asked)) (sym same)) refl
  | inr short ↦
      subst (λ o. Answers asked (show_reply o)) (sym (read_reply_short asked incoming short)) tt
]

talk-Answers :
    (input incoming : Bytes) (write : Sent)
    → IsPrefix incoming (talk input write incoming).sent
    → All (Answers (request input)) (talk input write incoming).shown
unfolding talk
talk-Answers input incoming whole h = (tt, (show_reply-Answers (request input) incoming h, tt))
talk-Answers input incoming (broken n) h = (tt, (tt, tt))

sync_client-Answers :
    (connect : Option ℕ) (input incoming : Bytes) (write : Sent)
    → IsPrefix incoming (sync_client connect input write incoming).sent
    → All (Answers (request input)) (sync_client connect input write incoming).shown
unfolding sync_client
sync_client-Answers none input incoming write h = talk-Answers input incoming write h
sync_client-Answers (some e) input incoming write h = (tt, tt)

connected-Answers :
    (found : Bool) (input incoming : Bytes) (write : Sent)
    → IsPrefix incoming (connected found input write incoming).sent
    → All (Answers (request input)) (connected found input write incoming).shown
unfolding connected
connected-Answers true input incoming write h = talk-Answers input incoming write h
connected-Answers false input incoming write h = (tt, tt)

-- What both branches satisfy.
if_either :
    (input incoming : Bytes) (b : Bool) (x y : Run)
    → (IsPrefix incoming x.sent → All (Answers (request input)) x.shown)
    → (IsPrefix incoming y.sent → All (Answers (request input)) y.shown)
    → IsPrefix incoming (if b then x else y).sent
    → All (Answers (request input)) (if b then x else y).shown
if_either input incoming true x y f g = f
if_either input incoming false x y f g = g

blocking_client-Answers :
    (argc : ℕ) (found : Bool) (input incoming : Bytes) (write : Sent)
    → IsPrefix incoming (blocking_client argc found input write incoming).sent
    → All (Answers (request input)) (blocking_client argc found input write incoming).shown
unfolding blocking_client
blocking_client-Answers argc found input incoming write =
    if_either input incoming (argc == 3) (connected found input write incoming) _
      (connected-Answers found input incoming write) (λ h. (tt, tt))

-- A run of either client.
pub data ClientRun (input incoming : Bytes) (r : Run) : Type 0 where
  sync :
      (connect : Option ℕ) (write : Sent)
      → r ≡ sync_client connect input write incoming
      → ClientRun input incoming r
  blocking :
      (argc : ℕ) (found : Bool) (write : Sent)
      → r ≡ blocking_client argc found input write incoming
      → ClientRun input incoming r

ClientRun-Answers :
    {input incoming : Bytes} {r : Run}
    → ClientRun input incoming r
    → IsPrefix incoming r.sent
    → All (Answers (request input)) r.shown
ClientRun-Answers {input} {incoming} (sync connect write e) h =
    subst (λ run. IsPrefix incoming run.sent → All (Answers (request input)) run.shown) (sym e)
      (sync_client-Answers connect input incoming write) h
ClientRun-Answers {input} {incoming} (blocking argc found write e) h =
    subst (λ run. IsPrefix incoming run.sent → All (Answers (request input)) run.shown) (sym e)
      (blocking_client-Answers argc found input incoming write) h

-- A client of either program, served by either server among other clients, in any order of the
-- threads and whatever fails: if what has come to the server is a beginning of what the client
-- sent, and what has come back a beginning of what the server wrote, then a reply that the client
-- shows is its own request.
pub Reach-Answers :
    {server : EchoServer} {s : System} {input incoming : Bytes} {r : Run}
    → Reach server s
    → (before after : List Client) (c : Client) → s.clients ≡ before ++ c ∷ after
    → ClientRun input incoming r
    → IsPrefix c.got r.sent
    → IsPrefix incoming c.thread.written
    → All (Answers (request input)) r.shown
Reach-Answers reach before after c at run there back =
    let (echoed, put) =
      middle_entry Echoed before c c after (subst (All Echoed) at (Reach-Echoed reach)) in
    ClientRun-Answers run (prefix_trans _ _ _ back (prefix_trans _ _ _ echoed.began there))

-- Whatever is typed, and however the server's reads cut what the client sends: if no operation
-- fails, sync_client.cpp gets its request back from sync_server.cpp, and
-- blocking_tcp_echo_client.cpp from blocking_tcp_echo_server.cpp, as the reply that it shows.
-- sync_server.cpp has then printed each part, up to its first zero byte, and waits for more.
pub clients_get_replies :
    (input : Bytes) (rounds : List Round)
    → All IsFine rounds
    → arrived rounds ≡ request input
    → ((sync_client none input whole (c_session rounds started).written).shown
        ≡ prompt ∷ reply (request input) ∷ [])
      × ((blocking_client 3 true input whole (session rounds started).written).shown
          ≡ prompt ∷ reply (request input) ∷ [])
      × ((c_session rounds started).printed ≡ texts rounds)
      × ((c_session rounds started).ending ≡ waiting)
unfolding sync_client blocking_client connected talk show_reply
clients_get_replies input rounds fine e =
    let (one, two, printed, ending) = read_reply-request input rounds fine e in
    let shown = λ (o : Option Bytes). prompt ∷ show_reply o ∷ [] in
    (ap shown one, ap shown two, printed, ending)
