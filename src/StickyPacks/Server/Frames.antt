-- ===== src/StickyPacks/Server/Frames.antt =====
-- What a reader of frames gets from a server of 04_sticky_packs.
use cpp_network_programming.Base.{
  drop, ℕ, suc, ◌≡◌, ◌↔◌, refl, sym, ap, ◌∙◌, false, some, List, [], ◌∷◌, ◌++◌, Bytes, length, take,
}
use cpp_network_programming.StickyPacks.{MsgNode, send_node}
use cpp_network_programming.StickyPacks.Framing.{unframe, Fits, unframe-wire}
use cpp_network_programming.StickyPacks.Server.{
  Source, own_data, node_data, write, Server, ok, put, add_op, write_next, handle_write,
}

-- The bytes that a write of session `id` finds, if it reads them in state `s`.
abbrev pub source_bytes : (MsgNode → ℕ) → Source → ℕ → Server → Bytes
source_bytes max_len_ (own_data n) id s = take n (s.objects id).data_
source_bytes max_len_ (node_data node) id s = take (max_len_ node) node.data_

-- The bytes that a write finds if it takes the first `j` of them in state `s`, and the others in
-- state `t`.
abbrev pub taken_apart : (MsgNode → ℕ) → ℕ → Source → ℕ → Server → Server → Bytes
taken_apart max_len_ j source id s t =
    take j (source_bytes max_len_ source id s) ++ drop j (source_bytes max_len_ source id t)

-- If `max_len_` were the length of the whole node, a message that waits behind another would be
-- written as its frame, and a reader would get it exactly if it has less than 65536 bytes.
queued_message_framed :
    (max_len_ : MsgNode → ℕ) (id fuel : ℕ) (msg : Bytes) (sent : MsgNode) (queue : List MsgNode)
    (s : Server)
    → max_len_ (send_node msg (length msg)) ≡ (send_node msg (length msg)).total_len
    → (s.objects id).send_queue ≡ sent ∷ send_node msg (length msg) ∷ queue
    → (t : Server) × (handle_write false id s ≡ ok t)
      × (t.ops ≡ s.ops ++ write id (node_data (send_node msg (length msg))) ∷ [])
      × ((unframe (suc fuel) (source_bytes max_len_ (node_data (send_node msg (length msg))) id t)
            ≡ some (msg ∷ []))
          ↔ Fits msg)
unfolding handle_write write_next add_op put
queued_message_framed max_len_ id fuel msg sent queue s repaired e =
    let node = send_node msg (length msg) in
    let (to, from) = unframe-wire fuel msg in
    let same = ap (λ k. unframe (suc fuel) (take k node.data_)) repaired in
    (_, ap (λ q. write_next id q s) e, refl, (λ h. to (sym same ∙ h), λ h. same ∙ from h))
