-- ===== src/StickyPacks/Framing.antt =====
-- The stream that nodes of 04_sticky_packs make, and a reader that takes it apart by the lengths.
use cpp_network_programming.Base.{
  ℕ, zero, suc, ◌+◌, ◌*◌, ◌/◌, ◌%◌, ◌^◌, ◌≤◌, ◌<◌, ◌≡◌, ◌↔◌, refl, sym, ap, ◌∙◌, Bool, true, false,
  Option, none, some, List, [], ◌∷◌, ◌++◌, arith, Bytes, length, take, drop, leb, if◌then◌else◌,
  if_true, ◌>>=◌, All, append-nil, length-append, length-take, take_all, take-length-append,
  drop-length-append,
}
use cpp_network_programming.StickyPacks.{head_length, MsgNode, header, send_node}

-- What is written of a node: its data without the zero at the end.
abbrev pub wire : MsgNode → Bytes
wire node = take node.total_len node.data_

-- A stream of messages, each as its node.
abbrev pub stream : List Bytes → Bytes
stream [] = []
stream (msg ∷ msgs) = wire (send_node msg (length msg)) ++ stream msgs

-- The reader: two bytes that say how long the message is, and the message. Each round takes bytes
-- away, so that the length of the stream is enough fuel.
unfoldable pub unframe : ℕ → Bytes → Option (List Bytes)
unframe fuel [] = some []
unframe zero (x ∷ s) = none
unframe (suc fuel) (low ∷ []) = none
unframe (suc fuel) (low ∷ high ∷ rest) =
    let n = low + 256 * high in
    let more = unframe fuel (drop n rest) in
    if leb n (length rest) then (more >>= λ msgs. some (take n rest ∷ msgs)) else none

abbrev pub Fits : Bytes → Type 0
Fits msg = length msg < 2 ^ 16

wire-send_node : (msg : Bytes) → wire (send_node msg (length msg)) ≡ header (length msg) ++ msg
unfolding send_node header
wire-send_node msg =
    let e : length msg + head_length ≡ suc (suc (length msg)) = omega arith in
    rw (e, take_all (length msg) msg (omega arith), take-length-append msg (0 ∷ [])) refl

unframe_one :
    (fuel : ℕ) (msg rest : Bytes)
    → Fits msg
    → unframe (suc fuel) ((header (length msg) ++ msg) ++ rest)
      ≡ (unframe fuel rest >>= λ msgs. some (msg ∷ msgs))
unfolding header unframe
unframe_one fuel msg rest fits =
    let n : length msg % 256 + 256 * (length msg / 256 % 256) ≡ length msg = omega (arith, fits) in
    let enough : leb (length msg) (length (msg ++ rest)) ≡ true =
      ground (arith, length-append msg rest) in
    rw (n, drop-length-append msg rest, take-length-append msg rest) (if_true _ _ _ enough)

pub unframe_nil : (fuel : ℕ) → unframe fuel [] ≡ some []
unfolding unframe
unframe_nil zero = refl
unframe_nil (suc fuel) = refl

unframe_each :
    (fuel : ℕ) (msgs : List Bytes)
    → length msgs ≤ fuel
    → All Fits msgs
    → unframe fuel (stream msgs) ≡ some msgs
unframe_each fuel [] h fits = unframe_nil fuel
unframe_each zero (msg ∷ msgs) h fits = absurd (omega arith)
unframe_each (suc fuel) (msg ∷ msgs) h fits =
    ap (λ s. unframe (suc fuel) (s ++ stream msgs)) (wire-send_node msg)
    ∙ unframe_one fuel msg (stream msgs) fits.0
    ∙ ap (λ o. o >>= λ ms. some (msg ∷ ms)) (unframe_each fuel msgs (omega (arith, h)) fits.1)

length-stream : (msgs : List Bytes) → length msgs ≤ length (stream msgs)
unfolding header
length-stream [] = omega arith
length-stream (msg ∷ msgs) = omega (
  arith,
  length-stream msgs,
  length-append (wire (send_node msg (length msg))) (stream msgs),
  ap length (wire-send_node msg),
)

-- Messages of less than 65536 bytes, one after the other as nodes, are taken apart by their lengths
-- into those messages, whatever bytes they hold and whether they are empty.
pub unframe-stream :
    (msgs : List Bytes) → All Fits msgs → unframe (length (stream msgs)) (stream msgs) ≡ some msgs
unframe-stream msgs fits = unframe_each (length (stream msgs)) msgs (length-stream msgs) fits

first_read :
    (enough : Bool) (more : Option (List Bytes)) (x msg : Bytes)
    → (if enough then (more >>= λ msgs. some (x ∷ msgs)) else none) ≡ some (msg ∷ [])
    → x ≡ msg
first_read true (some msgs) x msg e = cc
first_read true none x msg e = cc
first_read false more x msg e = cc

unframe-wire-Fits :
    (fuel : ℕ) (msg : Bytes)
    → unframe (suc fuel) (header (length msg) ++ msg) ≡ some (msg ∷ [])
    → Fits msg
unfolding unframe header
unframe-wire-Fits fuel msg e =
    let n = length msg % 256 + 256 * (length msg / 256 % 256) in
    let same = first_read (leb n (length msg)) (unframe fuel (drop n msg)) (take n msg) msg e in
    omega (arith, ap length same, length-take n msg)

-- The length in front of a message is its own, and its node is read back as this one message,
-- exactly if the message has less than 65536 bytes.
pub unframe-wire :
    (fuel : ℕ) (msg : Bytes)
    → (unframe (suc fuel) (wire (send_node msg (length msg))) ≡ some (msg ∷ [])) ↔ Fits msg
unframe-wire fuel msg = (
  λ e. unframe-wire-Fits fuel msg (ap (unframe (suc fuel)) (sym (wire-send_node msg)) ∙ e),
  λ fits.
      ap (unframe (suc fuel)) (wire-send_node msg ∙ sym (append-nil (header (length msg) ++ msg)))
      ∙ unframe_one fuel msg [] fits
      ∙ ap (λ o. o >>= λ msgs. some (msg ∷ msgs)) (unframe_nil fuel),
)
