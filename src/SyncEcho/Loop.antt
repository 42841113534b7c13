-- ===== src/SyncEcho/Loop.antt =====
-- What the two loops write, in every case.
use cpp_network_programming.Base.{
  ℕ, refl, sym, ap, ◌∙◌, true, false, Option, none, some, List, [], ◌∷◌, ◌++◌, Bytes, take, drop,
  append_assoc, take-append-drop, IsPrefix,
}
use cpp_network_programming.SyncEcho.{
  whole, broken, Round, eof, failed, received, Thread, buffer, c_string, write, print_data,
  c_session, session,
}

-- What the rounds bring.
abbrev pub arrived : List Round → Bytes
arrived [] = []
arrived (eof ∷ rounds) = arrived rounds
arrived (failed ∷ rounds) = arrived rounds
arrived (received bytes known sent ∷ rounds) = bytes ++ arrived rounds

IsPrefix-append : (xs ys : Bytes) → IsPrefix xs (xs ++ ys)
IsPrefix-append xs ys = (ys, refl)

IsPrefix-take : (xs : Bytes) (n : ℕ) (ys zs : Bytes) → IsPrefix (xs ++ take n ys) (xs ++ (ys ++ zs))
IsPrefix-take xs n ys zs = (
  drop n ys ++ zs,
  append_assoc xs (take n ys) (drop n ys ++ zs)
      ∙ ap (◌++◌ xs) (
          sym (append_assoc (take n ys) (drop n ys) zs)
          ∙ ap (λ a. a ++ zs) (take-append-drop n ys)),
)

IsPrefix-later :
    (xs ys zs out : Bytes) → IsPrefix out ((xs ++ ys) ++ zs) → IsPrefix out (xs ++ (ys ++ zs))
IsPrefix-later xs ys zs out h = (h.0, h.1 ∙ append_assoc xs ys zs)

print_data-IsPrefix :
    (o : Option Bytes) (more : Thread → Thread) (t : Thread) (all : Bytes)
    → IsPrefix t.written all
    → ((text : Bytes) → IsPrefix (more (record t { printed = t.printed ++ text ∷ [] })).written all)
    → IsPrefix (print_data o more t).written all
unfolding print_data
print_data-IsPrefix none more t all h k = h
print_data-IsPrefix (some text) more t all h k = k text

pub c_session-IsPrefix :
    (rounds : List Round) (t : Thread)
    → IsPrefix (c_session rounds t).written (t.written ++ arrived rounds)
unfolding c_session
c_session-IsPrefix [] t = IsPrefix-append t.written []
c_session-IsPrefix (eof ∷ rounds) t = IsPrefix-append t.written (arrived rounds)
c_session-IsPrefix (failed ∷ rounds) t = IsPrefix-append t.written (arrived rounds)
c_session-IsPrefix (received bytes false sent ∷ rounds) t =
    IsPrefix-append t.written (bytes ++ arrived rounds)
c_session-IsPrefix (received bytes true (broken n) ∷ rounds) t =
    print_data-IsPrefix (c_string (buffer bytes)) _ t _
      (IsPrefix-append t.written (bytes ++ arrived rounds))
      (λ text. IsPrefix-take t.written n bytes (arrived rounds))
c_session-IsPrefix (received bytes true whole ∷ rounds) t =
    print_data-IsPrefix (c_string (buffer bytes)) (λ t'. c_session rounds (write bytes whole t')) t
      _ (IsPrefix-append t.written (bytes ++ arrived rounds))
      (λ text. IsPrefix-later t.written bytes (arrived rounds) _ (c_session-IsPrefix rounds _))

pub session-IsPrefix :
    (rounds : List Round) (t : Thread)
    → IsPrefix (session rounds t).written (t.written ++ arrived rounds)
unfolding session
session-IsPrefix [] t = IsPrefix-append t.written []
session-IsPrefix (eof ∷ rounds) t = IsPrefix-append t.written (arrived rounds)
session-IsPrefix (failed ∷ rounds) t = IsPrefix-append t.written (arrived rounds)
session-IsPrefix (received bytes known (broken n) ∷ rounds) t =
    IsPrefix-take t.written n bytes (arrived rounds)
session-IsPrefix (received bytes known whole ∷ rounds) t =
    IsPrefix-later t.written bytes (arrived rounds) _ (session-IsPrefix rounds _)

-- Whatever the socket does, and however a session ends: either server has written a beginning of
-- what arrived, byte for byte.
written-IsPrefix :
    (rounds : List Round) (t : Thread)
    → IsPrefix (c_session rounds t).written (t.written ++ arrived rounds)
      × IsPrefix (session rounds t).written (t.written ++ arrived rounds)
written-IsPrefix rounds t = (c_session-IsPrefix rounds t, session-IsPrefix rounds t)
