-- ===== src/StickyPacks/Server/Projection.antt =====
-- A server of 04_sticky_packs without the lengths in front of its messages is one of
-- 03_full_duplex_server, and every operation of it is the operation there.
use mathlib.Core.Path.{fun_ext}
use cpp_network_programming.Base.{
  ℕ, ◌+◌, ◌-◌, ◌≤◌, ◌≡◌, refl, ap, ◌∙◌, Bool, true, false, ◌||◌, List, [], ◌∷◌, ◌++◌, map, arith,
  Bytes, length, length-append, length-take, take, drop, ◌==◌, if◌then◌else◌, if_true, if-ap,
  map-append, suc, take-length-append, ==_refl,
}
use cpp_network_programming.Duplex
use cpp_network_programming.StickyPacks.{head_length, MsgNode, send_node, header}
use cpp_network_programming.StickyPacks.Server.{
  Session, own_data, node_data, Op, accept, read, write, Server, Result, ok, use_after_free,
  pop_empty, clear_session, add_op, put, pending, send, clear_data, start, handle_read, write_next,
  handle_write, start_accept, handle_accept, accepting, is_alive, fill, on_read, on_write,
}

-- The bytes of a node behind its length.
abbrev pub body : MsgNode → Bytes
body node = take (node.total_len - head_length) (drop head_length node.data_)

body-send_node : (msg : Bytes) (n : ℕ) → n ≤ length msg → body (send_node msg n) ≡ take n msg
unfolding send_node header
body-send_node msg n h =
    let same : n + head_length - head_length ≡ length (take n msg) =
      omega (arith, length-take n msg) in
    rw same (take-length-append (take n msg) (0 ∷ []))

-- `max_len_` is the length that `HandleWrite` would write.
module _ (max_len_ : MsgNode → ℕ) where
  abbrev pub node : MsgNode → Duplex.MsgNode
  node m = record { data_ = body m; max_len = max_len_ m }

  abbrev pub session : Session → Duplex.Session
  session o = record { uuid = o.uuid; data_ = o.data_; send_queue = map node o.send_queue }

  abbrev pub op : Op → Duplex.Op
  op (accept i) = Duplex.accept i
  op (read i) = Duplex.read i
  op (write i (own_data n)) = Duplex.write i (Duplex.own_data n)
  op (write i (node_data m)) = Duplex.write i (Duplex.node_data (node m))

  abbrev pub server : Server → Duplex.Server
  server s = record {
    sessions = s.sessions;
    objects = λ i. session (s.objects i);
    next_id = s.next_id;
    ops = map op s.ops;
  }

  abbrev pub result : Result → Duplex.Result
  result (ok s) = Duplex.ok (server s)
  result use_after_free = Duplex.use_after_free
  result pop_empty = Duplex.pop_empty

  server-put :
      (id : ℕ) (o : Session) (s : Server)
      → server (put id o s) ≡ Duplex.put id (session o) (server s)
  unfolding put Duplex.put
  server-put id o s =
      ap (λ f. record (server s) { objects = f })
        (fun_ext λ i. if-ap session (i == id) o (s.objects i))

  server-add_op : (o : Op) (s : Server) → server (add_op o s) ≡ Duplex.add_op (op o) (server s)
  unfolding add_op Duplex.add_op
  server-add_op o s = ap (λ ops. record (server s) { ops = ops }) (map-append op s.ops (o ∷ []))

  pub pending-node : (queue : List MsgNode) → pending queue ≡ Duplex.pending (map node queue)
  pending-node [] = refl
  pending-node (m ∷ queue) = refl

  -- What 03 would have found in the memory of a new node.
  abbrev pub found : ℕ → Bytes → ℕ
  found n msg = max_len_ (send_node msg n)

  server-send :
      (n id : ℕ) (s : Server)
      → n ≤ length (s.objects id).data_
      → server (send n id s) ≡ Duplex.send (found n (s.objects id).data_) n id (server s)
  unfolding send Duplex.send Duplex.msg_node
  server-send n id s h =
      let o = s.objects id in
      let m = send_node o.data_ n in
      let pushed = put id (record o { send_queue = o.send_queue ++ m ∷ [] }) s in
      let copied : node m ≡ Duplex.msg_node (found n o.data_) o.data_ n =
        ap (λ b. record { data_ = b; max_len = max_len_ m }) (body-send_node o.data_ n h) in
      let same =
        server-put id (record o { send_queue = o.send_queue ++ m ∷ [] }) s
        ∙ ap (λ q. Duplex.put id (record (session o) { send_queue = q }) (server s))
            (map-append node o.send_queue (m ∷ [])
              ∙ ap (λ k. map node o.send_queue ++ k ∷ []) copied) in
      if-ap server (pending o.send_queue) pushed (add_op (write id (own_data n)) pushed)
      ∙ ap (λ b. if b then server pushed else server (add_op (write id (own_data n)) pushed))
          (pending-node o.send_queue)
      ∙ ap (λ u. if Duplex.pending (map node o.send_queue) then server pushed else u)
          (server-add_op (write id (own_data n)) pushed)
      ∙ ap
          (λ u.
            if Duplex.pending (map node o.send_queue)
            then u
            else Duplex.add_op (Duplex.write id (Duplex.own_data n)) u)
          same

  server-clear_data :
      (id : ℕ) (s : Server) → server (clear_data id s) ≡ Duplex.clear_data id (server s)
  unfolding clear_data Duplex.clear_data
  server-clear_data id s = server-put id _ s

  server-handle_read :
      (error : Bool) (n id : ℕ) (s : Server)
      → n ≤ length (s.objects id).data_
      → server (handle_read error n id s)
        ≡ Duplex.handle_read (found n (s.objects id).data_) error n id (server s)
  unfolding handle_read start clear_session Duplex.handle_read Duplex.start Duplex.clear_session
  server-handle_read true n id s h = refl
  server-handle_read false n id s h =
      server-add_op (read id) (clear_data id (send n id s))
      ∙ ap (Duplex.add_op (Duplex.read id))
          (server-clear_data id (send n id s) ∙ ap (Duplex.clear_data id) (server-send n id s h))

  result-write_next :
      (id : ℕ) (queue : List MsgNode) (s : Server)
      → result (write_next id queue s) ≡ Duplex.write_next id (map node queue) (server s)
  unfolding write_next Duplex.write_next
  result-write_next id [] s = refl
  result-write_next id (sent ∷ []) s = ap Duplex.ok (server-put id _ s)
  result-write_next id (sent ∷ m ∷ queue) s = ap Duplex.ok (
      server-add_op (write id (node_data m)) _
      ∙ ap (Duplex.add_op (Duplex.write id (Duplex.node_data (node m)))) (server-put id _ s))

  result-handle_write :
      (error : Bool) (id : ℕ) (s : Server)
      → result (handle_write error id s) ≡ Duplex.handle_write error id (server s)
  unfolding handle_write clear_session Duplex.handle_write Duplex.clear_session
  result-handle_write true id s = refl
  result-handle_write false id s = result-write_next id (s.objects id).send_queue s

  pub server-start_accept :
      (uuid : Duplex.Uuid) (s : Server)
      → server (start_accept uuid s) ≡ Duplex.start_accept uuid (server s)
  unfolding start_accept Duplex.start_accept
  server-start_accept uuid s =
      ap (λ (t : Duplex.Server). record t { next_id = suc s.next_id })
        (server-add_op (accept s.next_id) _
          ∙ ap (Duplex.add_op (Duplex.accept s.next_id)) (server-put s.next_id _ s))

  pub server-handle_accept :
      (error : Bool) (uuid : Duplex.Uuid) (id : ℕ) (s : Server)
      → server (handle_accept error uuid id s) ≡ Duplex.handle_accept error uuid id (server s)
  unfolding handle_accept start Duplex.handle_accept Duplex.start Duplex.assign
  server-handle_accept true uuid id s = server-start_accept uuid s
  server-handle_accept false uuid id s =
      let own = (s.objects id).uuid in
      let more = (own, id) ∷ Duplex.erase own s.sessions in
      server-start_accept uuid (record (start id s) { sessions = more })
      ∙ ap (λ (t : Duplex.Server). Duplex.start_accept uuid (record t { sessions = more }))
          (server-add_op (read id) s)

  accepting-op : (id : ℕ) (ops : List Op) → accepting id ops ≡ Duplex.accepting id (map op ops)
  unfolding accepting Duplex.accepting
  accepting-op id [] = refl
  accepting-op id (accept i ∷ ops) = ap (λ b. i == id || b) (accepting-op id ops)
  accepting-op id (read i ∷ ops) = accepting-op id ops
  accepting-op id (write i (own_data n) ∷ ops) = accepting-op id ops
  accepting-op id (write i (node_data m) ∷ ops) = accepting-op id ops

  is_alive-server : (id : ℕ) (s : Server) → is_alive id s ≡ Duplex.is_alive id (server s)
  unfolding is_alive Duplex.is_alive
  is_alive-server id s = ap (λ b. Duplex.held_by id s.sessions || b) (accepting-op id s.ops)

  pub result-on_read :
      (error : Bool) (bytes : Bytes) (id : ℕ) (s : Server)
      → result (on_read error bytes id s)
        ≡ Duplex.on_read
            (found (length bytes) (bytes ++ drop (length bytes) (s.objects id).data_))
            error
            bytes
            id
            (server s)
  unfolding on_read fill put Duplex.on_read
  result-on_read error bytes id s =
      let n = length bytes in
      let o = s.objects id in
      let got = bytes ++ drop n o.data_ in
      let s' = fill id bytes s in
      let at : (s'.objects id).data_ ≡ got =
        ap (λ (x : Session). x.data_) (if_true _ _ _ (==_refl id)) in
      let fits : n ≤ length (s'.objects id).data_ =
        omega (arith, ap length at, length-append bytes (drop n o.data_)) in
      let read =
        server-handle_read error n id s' fits
        ∙ ap (λ d. Duplex.handle_read (found n d) error n id (server s')) at
        ∙ ap (Duplex.handle_read (found n got) error n id)
            (server-put id (record o { data_ = got }) s) in
      if-ap result (is_alive id s) (ok (handle_read error n id s')) use_after_free
      ∙ ap
          (λ b. if b then Duplex.ok (server (handle_read error n id s')) else Duplex.use_after_free)
          (is_alive-server id s)
      ∙ ap (λ t. if Duplex.is_alive id (server s) then Duplex.ok t else Duplex.use_after_free) read

  pub result-on_write :
      (error : Bool) (id : ℕ) (s : Server)
      → result (on_write error id s) ≡ Duplex.on_write error id (server s)
  unfolding on_write Duplex.on_write
  result-on_write error id s =
      if-ap result (is_alive id s) (handle_write error id s) use_after_free
      ∙ ap (λ b. if b then result (handle_write error id s) else Duplex.use_after_free)
          (is_alive-server id s)
      ∙ ap (λ r. if Duplex.is_alive id (server s) then r else Duplex.use_after_free)
          (result-handle_write error id s)
