-- ===== src/StickyPacks/Tests.antt =====
-- Nodes of concrete messages.
use cpp_network_programming.Base.{◌≡◌, refl, some, List, [], ◌∷◌, Bytes, arith, codes, length}
use cpp_network_programming.StickyPacks.{header, send_node}
use cpp_network_programming.StickyPacks.Framing.{wire, stream, unframe, unframe-stream}

abbrev three : List Bytes
three = codes "hi" ∷ [] ∷ codes "you" ∷ []

wire_hi : wire (send_node (codes "hi") 2) ≡ 2 ∷ 0 ∷ codes "hi"
unfolding send_node header
wire_hi = refl

unframe-stream_example : unframe (length (stream three)) (stream three) ≡ some three
unframe-stream_example = unframe-stream three (omega arith, (omega arith, (omega arith, tt)))
