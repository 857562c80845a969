-- ===== src/Connection/Sync.antt =====
-- src/Connection.cpp: `sync_read` and `sync_send`, with the socket made blocking for the call.
use mathlib.Core.List.{append_assoc, append-nil}
use liby_cpp.Base.{
  ℕ, zero, suc, ◌≤◌, ◌<◌, ◌≡◌, refl, ap, ◌∙◌, Bool, true, false, List, [], ◌∷◌, ◌++◌, length, take,
  arith, Run, ok, fault, out_of_fuel, ◌>>=◌, Returns, returns, Returns-inv, Returns-map,
  Returns-bind, Bool-cases, inl, inr, take-drop, length-drop,
}
use liby_cpp.Buffer.{Buffer, Cell, of_capacity, capacity, data_begin, bytes, empty, retrieve, store}
use liby_cpp.Buffer.Content.{content, IsValid, bytes-ok}
use liby_cpp.Buffer.Moves.{append_n}
use liby_cpp.Buffer.Retrieve.{retrieve_correct}
use liby_cpp.Connection.{
  Net, transferred, would_block, failed_write, received, read_blocks, failed_read,
}
use liby_cpp.Connection.Consume.{Answer-cases}

module _ (net : Net) where
  -- `sync_read()` of a connection with a socket: a buffer of its own.
  unfoldable pub sync_read : net.State → Run (Buffer × net.State)
  sync_read k = do
    let buf = of_capacity 4096
    o ← data_begin buf
    n ← capacity buf
    let answer = net.read (net.set_noblock k false) n
    let k' = net.set_noblock answer.1 true
    elim answer.0 [
      | read_blocks ↦ ok (buf, k')
      | failed_read ↦ ok (buf, k')
      | received [] ↦ ok (buf, k')
      | received (x ∷ xs) ↦ do
        m ← store buf.buffer o (x ∷ xs)
        b ← append_n (record buf { buffer = m }) (length (x ∷ xs))
        ok (b, k')
    ]

  -- The loop of `sync_send`.
  unfoldable pub sync_loop : ℕ → Buffer → net.State → Run (Buffer × net.State)
  sync_loop zero buf k = fault out_of_fuel
  sync_loop (suc fuel) buf k = elim (empty buf) [
    | true ↦ ok (buf, k)
    | false ↦ do
      bs ← bytes buf
      let answer = net.write k bs
      elim answer.0 [
        | would_block ↦ ok (buf, answer.1)
        | failed_write ↦ ok (buf, answer.1)
        | transferred zero ↦ ok (buf, answer.1)
        | transferred (suc n) ↦ do buf' ← retrieve buf (suc n); sync_loop fuel buf' answer.1
      ]
  ]

  -- `sync_send(buffer)` of a connection with a socket.
  unfoldable pub sync_send : ℕ → Buffer → net.State → Run (Buffer × net.State)
  sync_send fuel buf k = do
    r ← sync_loop fuel buf (net.set_noblock k false)
    ok (r.0, net.set_noblock r.1 true)

-- What the kernel documents of `write`: it appends the bytes that it says it took to those sent, and
-- otherwise nothing; to make a socket blocking sends nothing.
pub record WriteLaws (net : Net) : Type 0 where
  pub sent : net.State → List Cell
  pub write_some :
      (s : net.State) (bs : List Cell) (n : ℕ)
      → (net.write s bs).0 ≡ transferred n
      → (n ≤ length bs) × (sent (net.write s bs).1 ≡ sent s ++ take n bs)
  pub write_failed :
      (s : net.State) (bs : List Cell)
      → (net.write s bs).0 ≡ failed_write
      → sent (net.write s bs).1 ≡ sent s
  pub write_none :
      (s : net.State) (bs : List Cell)
      → (net.write s bs).0 ≡ would_block
      → sent (net.write s bs).1 ≡ sent s
  pub noblock : (s : net.State) (flag : Bool) → sent (net.set_noblock s flag) ≡ sent s

module _ (net : Net) (laws : WriteLaws net) where
  -- The bytes sent and those left in the buffer.
  pub record Split (buf : Buffer) (k : net.State) (r : Buffer × net.State) : Type 0 where
    pub valid : IsValid r.0
    pub same : laws.sent r.1 ++ content r.0 ≡ laws.sent k ++ content buf

  sync_loop-Split :
      (fuel : ℕ) (buf : Buffer) (k : net.State)
      → IsValid buf
      → 0 < buf.capacity_
      → length (content buf) < fuel
      → Returns (Split buf k) (sync_loop net fuel buf k)
  unfolding sync_loop
  sync_loop-Split zero buf k v set enough = absurd (omega arith)
  sync_loop-Split (suc fuel) buf k v set enough = elim (Bool-cases (empty buf)) [
    | inl e ↦ rw (e, sync_loop) (returns (record { valid = v; same = refl }))
    | inr e ↦
        let bs = content buf in
        let answer = net.write k bs in
        let kept : laws.sent answer.1 ≡ laws.sent k → Split buf k (buf, answer.1) =
          λ same. record { valid = v; same = ap (λ (l : List Cell). l ++ bs) same } in
        rw (e, sync_loop, bytes-ok buf v (omega (arith, v.sized)))
          (elim (Answer-cases answer.0) [
            | inl w ↦ rw w (returns (kept (laws.write_none k bs w)))
            | inr (inl w) ↦ rw w (returns (kept (laws.write_failed k bs w)))
            | inr (inr (zero, w)) ↦
                rw w (returns (kept ((laws.write_some k bs 0 w).1 ∙ append-nil (laws.sent k))))
            | inr (inr (suc n, w)) ↦
                let (inside, more) = laws.write_some k bs (suc n) w in
                let (buf', called, (holds, cap)) = Returns-inv (retrieve_correct buf (suc n) v) in
                rw (w, called)
                  (Returns-map
                    (sync_loop-Split fuel buf' answer.1 holds.valid (omega (arith, cap))
                      (omega (arith, ap length holds.same, length-drop (suc n) bs, inside)))
                    λ r split. record {
                      valid = split.valid;
                      same =
                          split.same
                          ∙ ap (λ (l : List Cell). l ++ content buf') more
                          ∙ append_assoc (laws.sent k) (take (suc n) bs) (content buf')
                          ∙ ap (λ (l : List Cell). laws.sent k ++ (take (suc n) bs ++ l)) holds.same
                          ∙ ap (◌++◌ (laws.sent k)) (take-drop (suc n) bs);
                    })
          ])
  ]

  -- `sync_send` of a valid buffer ends when the fuel is more than its bytes, and the bytes sent
  -- followed by those left in the buffer are the same as before, however many bytes each `write`
  -- takes and whether or not one fails.
  pub sync_send-Split :
      (fuel : ℕ) (buf : Buffer) (k : net.State)
      → IsValid buf
      → 0 < buf.capacity_
      → length (content buf) < fuel
      → Returns (Split buf k) (sync_send net fuel buf k)
  unfolding sync_send
  sync_send-Split fuel buf k v set enough =
      Returns-bind (sync_loop-Split fuel buf (net.set_noblock k false) v set enough) λ r split.
        returns (record {
          valid = split.valid;
          same =
              ap (λ (l : List Cell). l ++ content r.0) (laws.noblock r.1 true)
              ∙ split.same
              ∙ ap (λ (l : List Cell). l ++ content buf) (laws.noblock k false);
        })
