-- ===== src/Rpc/Buf/Room.antt =====
-- libmpaxos/rpc/buf.c: how far the end of a buffer can move, which bounds what a connection can hold.
use mpaxos.Prelude.{
  ℕ, zero, suc, ◌+◌, ◌*◌, ◌^◌, ◌≤◌, ◌≡◌, subst, Bool-cases, inl, inr, List, ◌++◌, arith, ltb, leb,
  if◌then◌else◌, fault, safe_assert, ok, length, ok-injective, >>=-eq-ok,
}
use mpaxos.Rpc.Buf.Defs.{
  Buf, sub64, buf_sz_content, buf_realloc, next_size, buf_readjust, buf_write, content, IsBuf,
}
use mpaxos.Rpc.Buf.Growth.{buf_readjust_lem}
use mpaxos.Rpc.Buf.Queue.{buf_write_lem}

buf_realloc-idx_write :
    (b : Buf) (sz : ℕ) {b' : Buf}
    → b.idx_read ≤ b.idx_write
    → buf_realloc b sz ≡ ok b'
    → (b'.idx_write ≤ b.idx_write) × (b'.idx_read ≤ b'.idx_write)
unfolding buf_realloc
buf_realloc-idx_write b sz h e =
    let (u, asserted, k) = >>=-eq-ok (safe_assert (ltb (buf_sz_content b) sz)) _ e in
    subst (λ c. (c.idx_write ≤ b.idx_write) × (c.idx_read ≤ c.idx_write)) (ok-injective k)
      (omega (arith, h), omega arith)

buf_readjust-idx_write :
    (fuel n : ℕ) (b : Buf) {b' : Buf}
    → b.idx_read ≤ b.idx_write
    → buf_readjust fuel n b ≡ ok b'
    → b'.idx_write ≤ b.idx_write
unfolding buf_readjust
buf_readjust-idx_write zero n b h e = cc
buf_readjust-idx_write (suc fuel) n b h e = elim (Bool-cases (ltb (sub64 b.sz b.idx_write) n)) [
  | inl short ↦
      let (c, moved, rest) =
        >>=-eq-ok (buf_realloc b (next_size b)) (buf_readjust fuel n) (rw short at e) in
      let (back, front) = buf_realloc-idx_write b (next_size b) h moved in
      omega (arith, back, buf_readjust-idx_write fuel n c front rest)
  | inr long ↦ subst (λ c. c.idx_write ≤ b.idx_write) (ok-injective (rw long at e)) (omega arith)
]

pub buf_write-idx_write :
    (bytes : List ℕ) (b : Buf) {b' : Buf}
    → b.idx_read ≤ b.idx_write
    → buf_write bytes b ≡ ok b'
    → b'.idx_write ≤ b.idx_write + length bytes
unfolding buf_write
buf_write-idx_write bytes b h e =
    let (c, readied, k) = >>=-eq-ok (buf_readjust (suc (length bytes)) (length bytes) b) _ e in
    let (u, copied, k') =
      >>=-eq-ok (if leb (c.idx_write + length bytes) c.sz then ok tt else fault) _ k in
    subst (λ d. d.idx_write ≤ b.idx_write + length bytes) (ok-injective k')
      (omega (arith, buf_readjust-idx_write (suc (length bytes)) (length bytes) b h readied))

-- `k` more bytes can be written without a size that passes 64 bits.
abbrev pub HasRoom : Buf → ℕ → Type 0
HasRoom b k = IsBuf b × ((b.idx_write + k) * 2 ≤ 2 ^ 64)

pub buf_write-HasRoom :
    (bytes : List ℕ) (k : ℕ) (b : Buf)
    → HasRoom b (length bytes + k)
    → (b' : Buf) × (buf_write bytes b ≡ ok b') × HasRoom b' k × (content b' ≡ content b ++ bytes)
buf_write-HasRoom bytes k b (i, room) =
    let (b', run, i', written) = buf_write_lem bytes b i (omega (arith, room)) in
    let ends = buf_write-idx_write bytes b i.front run in
    (b', run, (i', omega (arith, room, ends)), written)

pub buf_readjust-HasRoom :
    (n k : ℕ) (b : Buf)
    → n ≤ k
    → HasRoom b k
    → (b' : Buf) × (buf_readjust (suc n) n b ≡ ok b')
      × HasRoom b' k
      × (content b' ≡ content b)
      × (b'.idx_write + n ≤ b'.sz)
buf_readjust-HasRoom n k b h (i, room) =
    let (b', run, i', same, fits) =
      buf_readjust_lem (suc n) n b i (omega (arith, room)) (omega arith) in
    let ends = buf_readjust-idx_write (suc n) n b i.front run in
    (b', run, (i', omega (arith, room, ends)), same, fits)
