-- ===== src/BadEcho/Echo.antt =====
-- What a session of 01_bad_echo_server sends back.
use cpp_network_programming.Base.{
  ℕ, ◌≡◌, ◌≢◌, sym, ap, ◌∙◌, true, false, [], ◌∷◌, ◌++◌, Bytes, length, take, drop, replicate, ◌==◌,
  ==_refl, ==_iff, if_true, if_false, take-length-append, Bool-cases, inl, inr,
}
use cpp_network_programming.BadEcho.{
  max_length, read, write, Server, ok, update, fill, on_read, on_write,
}

ok_inj : {s t : Server} → ok s ≡ ok t → s ≡ t
ok_inj e = cc

updated : {A : Type 0} (id : ℕ) (a : A) (f : ℕ → A) → update id a f id ≡ a
unfolding update
updated id a f = if_true _ _ _ (==_refl id)

kept : {A : Type 0} (id j : ℕ) (a : A) (f : ℕ → A) → j ≢ id → update id a f j ≡ f j
unfolding update
kept id j a f other = elim (Bool-cases (j == id)) [
  | inl same ↦ absurd (other ((==_iff j id).0 same))
  | inr different ↦ if_false _ _ _ different
]

-- A read that succeeds on a session that is there starts one operation: the write of as many bytes
-- as came, and those at the front of the buffer are the bytes that came. When that write succeeds,
-- the buffer is zeros and the next read is started. No other session's buffer changes.
echo :
    (bytes : Bytes) (id j : ℕ) (s t u : Server)
    → s.alive id ≡ true
    → j ≢ id
    → on_read false bytes id s ≡ ok t
    → on_write false id t ≡ ok u
    → (t.ops ≡ s.ops ++ write id (length bytes) ∷ [])
      × (take (length bytes) (t.buffers id) ≡ bytes)
      × (u.ops ≡ t.ops ++ read id ∷ [])
      × (u.buffers id ≡ replicate max_length 0)
      × (t.buffers j ≡ s.buffers j)
      × (u.buffers j ≡ s.buffers j)
unfolding on_read on_write fill
echo bytes id j s t u alive other e e' =
    let rest = bytes ++ drop (length bytes) (s.buffers id) in
    let et = ok_inj (sym (if_true _ _ _ alive) ∙ e) in
    let alive' = ap (λ (x : Server). x.alive id) (sym et) ∙ alive in
    let eu = ok_inj (sym (if_true _ _ _ alive') ∙ e') in
    let same = ap (λ (x : Server). x.buffers j) (sym et) ∙ kept id j rest s.buffers other in
    (
      ap (λ (x : Server). x.ops) (sym et),
      ap (λ (x : Server). take (length bytes) (x.buffers id)) (sym et)
          ∙ ap (take (length bytes)) (updated id rest s.buffers)
          ∙ take-length-append bytes (drop (length bytes) (s.buffers id)),
      ap (λ (x : Server). x.ops) (sym eu),
      ap (λ (x : Server). x.buffers id) (sym eu) ∙ updated id (replicate max_length 0) t.buffers,
      same,
      ap (λ (x : Server). x.buffers j) (sym eu)
          ∙ kept id j (replicate max_length 0) t.buffers other
          ∙ same,
    )
