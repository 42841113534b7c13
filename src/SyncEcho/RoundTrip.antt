-- ===== src/SyncEcho/RoundTrip.antt =====
-- What a blocking client gets back from the blocking servers, and where printing overruns.
use cpp_network_programming.Base.{
  ℕ, suc, ◌-◌, ◌≤◌, ◌<◌, ◌≡◌, ◌≢◌, refl, sym, ap, ◌∙◌, true, false, none, some, List, [], ◌∷◌, ◌++◌,
  arith, Bytes, length, take, replicate, All, append-nil, append_assoc, append-snoc, length-append,
  length-take, take_all,
}
use cpp_network_programming.SyncEcho.{
  max_length, Sent, whole, broken, Round, eof, failed, received, waiting, overread, Thread, started,
  buffer, c_string, write, print_data, c_session, session, before, request, read_reply,
}
use cpp_network_programming.SyncEcho.Loop.{arrived}

-- Bytes that are echoed in full to a peer whose address is known.
abbrev pub IsFine : Round → Type 0
IsFine eof = ⊥
IsFine failed = ⊥
IsFine (received bytes false sent) = ⊥
IsFine (received bytes true (broken n)) = ⊥
IsFine (received bytes true whole) = Unit

abbrev IsShort : Round → Type 0
IsShort eof = Unit
IsShort failed = Unit
IsShort (received bytes known sent) = length bytes < max_length

-- What is printed of the rounds: each message up to its first zero byte.
abbrev pub texts : List Round → List Bytes
texts [] = []
texts (eof ∷ rounds) = texts rounds
texts (failed ∷ rounds) = texts rounds
texts (received bytes known sent ∷ rounds) = before 0 bytes ∷ texts rounds

c_string_zeros : (xs : Bytes) (k : ℕ) → c_string (xs ++ replicate (suc k) 0) ≡ some (before 0 xs)
unfolding c_string before
c_string_zeros [] k = refl
c_string_zeros (x ∷ xs) k = rw (c_string_zeros xs k) (ground arith)

c_string-buffer :
    (bytes : Bytes) → length bytes < max_length → c_string (buffer bytes) ≡ some (before 0 bytes)
unfolding buffer
c_string-buffer bytes h =
    let room : max_length - length bytes ≡ suc (max_length - 1 - length bytes) = omega arith in
    rw room (c_string_zeros bytes (max_length - 1 - length bytes))

pub c_string-none : (xs : Bytes) → All (λ b. b ≢ 0) xs → c_string xs ≡ none
unfolding c_string
c_string-none [] h = refl
c_string-none (x ∷ xs) h = rw (c_string-none xs h.1) (ground (arith, h.0))

c_string-buffer_full :
    (bytes : Bytes)
    → length bytes ≡ max_length
    → All (λ b. b ≢ 0) bytes
    → c_string (buffer bytes) ≡ none
unfolding buffer
c_string-buffer_full bytes full h =
    let room : max_length - length bytes ≡ 0 = omega (arith, full) in
    rw (room, append-nil bytes) (c_string-none bytes h)

-- The loop has echoed the rounds that went well, and goes on.
c_session_fine :
    (rounds later : List Round) (t : Thread)
    → All IsFine rounds
    → All IsShort rounds
    → (u : Thread) × (c_session (rounds ++ later) t ≡ c_session later u)
      × (u.written ≡ t.written ++ arrived rounds)
      × (u.printed ≡ t.printed ++ texts rounds)
      × (u.ending ≡ t.ending)
c_session_fine [] later t fine short =
    (t, refl, sym (append-nil t.written), sym (append-nil t.printed), refl)
c_session_fine (eof ∷ rounds) later t fine short = absurd fine.0
c_session_fine (failed ∷ rounds) later t fine short = absurd fine.0
c_session_fine (received bytes false sent ∷ rounds) later t fine short = absurd fine.0
c_session_fine (received bytes true (broken n) ∷ rounds) later t fine short = absurd fine.0
c_session_fine (received bytes true whole ∷ rounds) later t fine short =
    let text = before 0 bytes in
    let t' = write bytes whole (record t { printed = t.printed ++ text ∷ [] }) in
    let (u, e, w, p, n) = c_session_fine rounds later t' fine.1 short.1 in
    let step : c_session (received bytes true whole ∷ (rounds ++ later)) t
        ≡ c_session (rounds ++ later) t' =
      unfold c_session print_data in
      ap (λ o. print_data o (λ t''. c_session (rounds ++ later) (write bytes whole t'')) t)
        (c_string-buffer bytes short.0) in
    (
      u,
      step ∙ e,
      w ∙ append_assoc t.written bytes (arrived rounds),
      p ∙ append-snoc t.printed text (texts rounds),
      n,
    )

session_fine :
    (rounds : List Round) (t : Thread)
    → All IsFine rounds
    → (session rounds t).written ≡ t.written ++ arrived rounds
unfolding session
session_fine [] t fine = sym (append-nil t.written)
session_fine (eof ∷ rounds) t fine = absurd fine.0
session_fine (failed ∷ rounds) t fine = absurd fine.0
session_fine (received bytes false sent ∷ rounds) t fine = absurd fine.0
session_fine (received bytes true (broken n) ∷ rounds) t fine = absurd fine.0
session_fine (received bytes true whole ∷ rounds) t fine =
    session_fine rounds _ fine.1 ∙ append_assoc t.written bytes (arrived rounds)

c_session_full :
    (bytes : Bytes) (sent : Sent) (later : List Round) (t : Thread)
    → c_string (buffer bytes) ≡ none
    → (c_session (received bytes true sent ∷ later) t).ending ≡ overread
unfolding c_session print_data
c_session_full bytes whole later t e = rw e
c_session_full bytes (broken n) later t e = rw e

-- A message that fills the buffer of sync_server.cpp and holds no zero byte makes the server read
-- beyond the buffer when it prints it, whatever messages shorter than that were echoed before.
pub c_session_overread :
    (rounds later : List Round) (bytes : Bytes) (sent : Sent) (t : Thread)
    → All IsFine rounds
    → All IsShort rounds
    → length bytes ≡ max_length
    → All (λ b. b ≢ 0) bytes
    → (c_session (rounds ++ received bytes true sent ∷ later) t).ending ≡ overread
c_session_overread rounds later bytes sent t fine short full text =
    let (u, e, w, p, n) = c_session_fine rounds (received bytes true sent ∷ later) t fine short in
    ap (λ (s : Thread). s.ending) e
    ∙ c_session_full bytes sent later u (c_string-buffer_full bytes full text)

length-before : (end : ℕ) (xs : Bytes) → length (before end xs) ≤ length xs
unfolding before
length-before end [] = omega arith
length-before end (x ∷ xs) = ground (arith, length-before end xs)

length-request : (input : Bytes) → length (request input) < max_length
unfolding request
length-request input =
    let line = before b'\n' input in
    omega (arith, length-before 0 (take (max_length - 1) line), length-take (max_length - 1) line)

All-IsShort : (rounds : List Round) → length (arrived rounds) < max_length → All IsShort rounds
All-IsShort [] h = tt
All-IsShort (eof ∷ rounds) h = (tt, All-IsShort rounds h)
All-IsShort (failed ∷ rounds) h = (tt, All-IsShort rounds h)
All-IsShort (received bytes known sent ∷ rounds) h = (
  omega (arith, length-append bytes (arrived rounds)),
  All-IsShort rounds (omega (arith, length-append bytes (arrived rounds))),
)

pub read_reply_whole : (reply : Bytes) → read_reply (length reply) reply ≡ some reply
unfolding read_reply
read_reply_whole reply = rw (take_all (length reply) reply (omega arith)) (ground arith)

-- Whatever is typed, and however the server's reads cut what the client sends: if no operation
-- fails, either server's echo is the request, and the client reads all of it as its reply.
-- sync_server.cpp has then printed each part, up to its first zero byte, and waits for more.
pub read_reply-request :
    (input : Bytes) (rounds : List Round)
    → All IsFine rounds
    → arrived rounds ≡ request input
    → (read_reply (length (request input)) (c_session rounds started).written
        ≡ some (request input))
      × (read_reply (length (request input)) (session rounds started).written
          ≡ some (request input))
      × ((c_session rounds started).printed ≡ texts rounds)
      × ((c_session rounds started).ending ≡ waiting)
read_reply-request input rounds fine e =
    let short = All-IsShort rounds (omega (arith, ap length e, length-request input)) in
    let (u, went, w, p, n) = c_session_fine rounds [] started fine short in
    let whole_loop : c_session rounds started ≡ u =
      ap (λ r. c_session r started) (sym (append-nil rounds)) ∙ went ∙ (unfold c_session in refl) in
    let reply = λ (written : Bytes) (same : written ≡ request input).
      ap (read_reply (length (request input))) same ∙ read_reply_whole (request input) in
    (
      reply _ (ap (λ (t : Thread). t.written) whole_loop ∙ w ∙ e),
      reply _ (session_fine rounds started fine ∙ e),
      ap (λ (t : Thread). t.printed) whole_loop ∙ p,
      ap (λ (t : Thread). t.ending) whole_loop ∙ n,
    )
