-- ===== src/StickyPacks.antt =====
-- MsgNode of asio/async/04_sticky_packs/csession.h: a message with its length in front, in two
-- bytes, the lower one first.
pub mod Framing
pub mod Server
pub mod Tests
use cpp_network_programming.Base.{
  ℕ, ◌+◌, ◌/◌, ◌%◌, ◌^◌, List, [], ◌∷◌, ◌++◌, Bytes, take, drop, replicate,
}

abbrev pub head_length : ℕ
head_length = 2

-- `data` is the whole allocation, of `total_len + 1` bytes.
pub record MsgNode : Type 0 where
  pub cur_len : ℕ
  pub total_len : ℕ
  pub data_ : Bytes

-- `memcpy(data_, &max_len, HEAD_LENGTH)`: the lower half of an int that is not negative.
pub header : ℕ → Bytes
header max_len = max_len % 256 ∷ (max_len / 256) % 256 ∷ []

-- The node of a message to send; `msg` has `max_len` bytes at least.
pub send_node : Bytes → ℕ → MsgNode
send_node msg max_len = record {
  cur_len = 0;
  total_len = max_len + head_length;
  data_ = header max_len ++ (take max_len msg ++ 0 ∷ []);
}

-- The node to receive into: `max_len` is a uint16_t, and `garbage` what the new bytes hold.
abbrev recv_node : Bytes → ℕ → MsgNode
recv_node garbage max_len = record { cur_len = 0; total_len = max_len % 2 ^ 16; data_ = garbage }

abbrev clear : MsgNode → MsgNode
clear node = record node {
  cur_len = 0;
  data_ = replicate node.total_len 0 ++ drop node.total_len node.data_;
}
