-- ===== src/SyncEcho/Tests.antt =====
-- The blocking echo programs at concrete input.
use cpp_network_programming.Base.{
  ℕ, zero, suc, ◌≡◌, ◌≢◌, refl, true, List, [], ◌∷◌, ◌++◌, arith, codes, replicate, All,
}
use cpp_network_programming.SyncEcho.{
  max_length, whole, broken, Round, eof, received, overread, started, buffer, c_string, print_data,
  c_session,
}
use cpp_network_programming.SyncEcho.RoundTrip.{c_session_overread}

-- The reads of the server cut the message in two.
abbrev pub two_parts : List Round
two_parts = received (codes "hel") true whole ∷ received (codes "lo") true whole ∷ []

abbrev breaks : List Round
breaks = received (codes "hel") true whole ∷ received (codes "lo") true (broken 1) ∷ eof ∷ []

written_hell : (c_session breaks started).written ≡ codes "hell"
unfolding c_session print_data c_string buffer
written_hell = refl

All-replicate : (n : ℕ) → All (λ (b : ℕ). b ≢ 0) (replicate n 97)
All-replicate zero = tt
All-replicate (suc n) = ((λ e. absurd (omega (arith, e))), All-replicate n)

c_session_overread_example :
    (c_session (two_parts ++ received (replicate max_length 97) true whole ∷ []) started).ending
    ≡ overread
c_session_overread_example =
    c_session_overread two_parts [] (replicate max_length 97) whole started (tt, (tt, tt))
      (omega arith, (omega arith, tt)) refl (All-replicate max_length)
