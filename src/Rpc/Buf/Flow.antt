-- ===== src/Rpc/Buf/Flow.antt =====
-- The loops of libmpaxos/rpc/buf.c that move bytes between a buffer and a socket end, and lose nothing.
use mpaxos.Prelude.{
  ℕ, zero, suc, ◌+◌, ◌≤◌, ◌<◌, ◌≡◌, refl, sym, ap, subst, ◌∙◌, Bool-cases, inl, inr, ◌⊎◌, true,
  false, ◌==◌, List, [], ◌∷◌, ◌++◌, arith, ok, take-drop, length, length-append, length-drop, take,
  drop,
}
use mpaxos.Rpc.Buf.Defs.{Buf, sub64, buf_sz_content, buf_read, available, content, IsBuf}
use mpaxos.Rpc.Buf.Queue.{length-content, buf_read_lem, append_lem}
use mpaxos.Rpc.Buf.Room.{HasRoom, buf_readjust-HasRoom}
use mpaxos.Rpc.Buf.Sock.{Status, is_success, success, received, Socket, buf_to_sock, buf_from_sock}
use mathlib.Core.List.{append_assoc}

-- The front moved over bytes that are there.
skip_lem :
    (n : ℕ) (b : Buf)
    → IsBuf b
    → n ≤ length (content b)
    → let b' = record b { idx_read = b.idx_read + n } in
      IsBuf b' × (content b' ≡ drop n (content b))
unfolding buf_read available
skip_lem n b i h =
    let (taken, left, i') = buf_read_lem n b i in
    let whole : available n b ≡ n = ground (arith, h, length-content n b i) in
    (
      subst (λ m. IsBuf (record b { idx_read = b.idx_read + m })) whole i',
      subst (λ m. content (record b { idx_read = b.idx_read + m }) ≡ drop n (content b)) whole left,
    )

length-eq_nil : (xs : List ℕ) → length xs ≡ 0 → xs ≡ []
length-eq_nil [] h = refl
length-eq_nil (x ∷ xs) h = absurd (omega arith)

module _ {K : Type 0} ⦃socket : Socket K⦄ where
  -- With one turn more than there are bytes, `buf_to_sock` ends: what was sent and what is left make up
  -- the contents, in order, and after a success nothing is left.
  pub buf_to_sock_lem :
      (fuel : ℕ) (b : Buf) (k : K)
      → IsBuf b
      → length (content b) < fuel
      → (status : Status) × (b' : Buf) × (k' : K) × (buf_to_sock fuel b k ≡ ok (status, b', k'))
        × IsBuf b'
        × (socket.sent k' ++ content b' ≡ socket.sent k ++ content b)
        × (is_success status ≡ true → content b' ≡ [])
        × ((status ≡ success)
            ⊎ ((j : K) × (bytes : List ℕ) × (0 < length bytes)
                × ((socket.send j bytes).0 ≡ status)))
  unfolding buf_to_sock
  buf_to_sock_lem zero b k i h = absurd (omega arith)
  buf_to_sock_lem (suc fuel) b k i h = elim (Bool-cases (buf_sz_content b == 0)) [
    | inl empty ↦ (
      success,
      b,
      k,
      rw empty refl,
      i,
      refl,
      λ e. length-eq_nil (content b) (ground (arith, length-content 0 b i)),
      inl refl,
    )
    | inr more ↦
        let n = (socket.send k (content b)).1 in
        let b' : Buf = record b { idx_read = b.idx_read + n } in
        let k' = (socket.send k (content b)).2 in
        let (j, left) = skip_lem n b i (socket.send_fits k (content b)) in
        let together : socket.sent k' ++ content b' ≡ socket.sent k ++ content b =
          ap (λ s. s ++ content b') (socket.send_sent k (content b))
          ∙ append_assoc (socket.sent k) (take n (content b)) (content b')
          ∙ ap (◌++◌ (socket.sent k))
              (ap (◌++◌ (take n (content b))) left ∙ take-drop n (content b)) in
        elim (Bool-cases (is_success (socket.send k (content b)).0)) [
          | inl good ↦
              let some_sent = socket.send_some k (content b) good in
              let fewer : length (content b') < fuel = omega (
                arith,
                ap length left,
                length-drop n (content b),
                h,
                some_sent,
                socket.send_fits k (content b),
              ) in
              let (status, c, l, run, i', rest, all, from) = buf_to_sock_lem fuel b' k' j fewer in
              (status, c, l, rw (more, good) run, i', rest ∙ together, all, from)
          | inr bad ↦ (
            (socket.send k (content b)).0,
            b',
            k',
            rw (more, bad) refl,
            j,
            together,
            λ e. absurd (cc),
            inr (k, content b, ground (arith, length-content 0 b i), refl),
          )
        ]
  ]

  -- With room for what is to come, and one turn more than there are bytes, `buf_from_sock` ends: what
  -- came is at the end of the contents, in order, and the status is that of the last receive, which is
  -- not `APR_SUCCESS`.
  pub buf_from_sock_lem :
      (fuel : ℕ) (b : Buf) (k : K)
      → HasRoom b (length (socket.stream k) + 1)
      → length (socket.stream k) < fuel
      → (status : Status) × (b' : Buf) × (k' : K) × (buf_from_sock fuel b k ≡ ok (status, b', k'))
        × IsBuf b'
        × (content b' ++ socket.stream k' ≡ content b ++ socket.stream k)
        × (is_success status ≡ false)
        × (j : K) × (n : ℕ) × (0 < n)
        × ((socket.recv j n).0 ≡ status)
        × ((socket.recv j n).2 ≡ k')
  unfolding buf_from_sock
  buf_from_sock_lem zero b k room h = absurd (omega arith)
  buf_from_sock_lem (suc fuel) b k room h =
      let (c, run, (i, left), same, fits) =
        buf_readjust-HasRoom 1 (length (socket.stream k) + 1) b (omega arith) room in
      let asked = sub64 c.sz c.idx_write in
      let r = socket.recv k asked in
      let whole = socket.recv_stream k asked in
      let counted : length (socket.stream k) ≡ length r.1 + length (socket.stream r.2) =
        ap length whole ∙ length-append r.1 (socket.stream r.2) in
      let (j, grown) =
        append_lem r.1 c i (omega (arith, socket.recv_fits k asked, i.back, i.small)) in
      let together : content (received r.1 c) ++ socket.stream r.2 ≡ content b ++ socket.stream k =
        ap (λ s. s ++ socket.stream r.2) (grown ∙ ap (λ s. s ++ r.1) same)
        ∙ append_assoc (content b) r.1 (socket.stream r.2)
        ∙ ap (◌++◌ (content b)) (sym whole) in
      elim (Bool-cases (is_success r.0)) [
        | inl good ↦
            let new = socket.recv_some k asked good in
            let (status, d, l, run', i', rest, ends, k1, n1, pos, at, to) =
              buf_from_sock_lem fuel (received r.1 c) r.2 (j, omega (arith, left, counted))
                (omega (arith, counted, h, new)) in
            (status, d, l, rw (run, good) run', i', rest ∙ together, ends, k1, n1, pos, at, to)
        | inr bad ↦ (
          r.0,
          received r.1 c,
          r.2,
          rw (run, bad) refl,
          j,
          together,
          bad,
          k,
          asked,
          omega (arith, fits, i.small),
          refl,
          refl,
        )
      ]
