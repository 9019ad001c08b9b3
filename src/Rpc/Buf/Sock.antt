-- ===== src/Rpc/Buf/Sock.antt =====
-- libmpaxos/rpc/buf.c: the loops that move bytes between a buffer and a socket of APR.
use mpaxos.Prelude.{
  [], ℕ, zero, suc, ◌+◌, ◌≤◌, ◌<◌, ◌≡◌, Bool, true, false, ◌==◌, if◌then◌else◌, List, ◌++◌, Result,
  ok, fault, ◌>>=◌, length, take,
}
use mpaxos.Rpc.Buf.Defs.{Buf, sub64, buf_sz_content, buf_readjust, content}

-- The status codes of APR that the code tells apart.
pub data Status : Type 0 where
  success eof econnreset eagain epipe other_error : Status

abbrev pub is_success : Status → Bool
is_success success = true
is_success _ = false

-- What the code uses of `apr_socket_t`. `stream` are the bytes that
-- arrived and were not received, `sent` those handed over.
-- A receive of nothing has a status other than `APR_SUCCESS`, and so has a send of nothing; a receive
-- has the status `APR_EAGAIN` when nothing is left of what arrived.
pub record Socket (K : Type 0) : Type 0 where
  pub recv : K → ℕ → Status × List ℕ × K
  pub stream : K → List ℕ
  pub recv_stream :
      (k : K) (n : ℕ) → let (status, bytes, k') = recv k n in stream k ≡ bytes ++ stream k'
  pub recv_fits : (k : K) (n : ℕ) → length (recv k n).1 ≤ n
  pub recv_some : (k : K) (n : ℕ) → is_success (recv k n).0 ≡ true → 0 < length (recv k n).1
  pub recv_drained : (k : K) (n : ℕ) → (recv k n).0 ≡ eagain → stream (recv k n).2 ≡ []
  pub send : K → List ℕ → Status × ℕ × K
  pub sent : K → List ℕ
  pub send_sent :
      (k : K) (bytes : List ℕ)
      → let (status, n, k') = send k bytes in sent k' ≡ sent k ++ take n bytes
  pub send_fits : (k : K) (bytes : List ℕ) → (send k bytes).1 ≤ length bytes
  pub send_some :
      (k : K) (bytes : List ℕ) → is_success (send k bytes).0 ≡ true → 0 < (send k bytes).1

-- The buffer after a receive into its tail.
abbrev pub received : List ℕ → Buf → Buf
received bytes b = record b {
  raw = take b.idx_write b.raw ++ bytes;
  idx_write = b.idx_write + length bytes;
}

module _ {K : Type 0} ⦃socket : Socket K⦄ where
  -- `buf_to_sock`, with the number of turns as fuel: out of fuel it faults.
  unfoldable pub buf_to_sock : ℕ → Buf → K → Result (Status × Buf × K)
  buf_to_sock zero b k = fault
  buf_to_sock (suc fuel) b k =
      let (status, n, k') = socket.send k (content b) in
      let b' : Buf = record b { idx_read = b.idx_read + n } in
      let more = buf_to_sock fuel b' k' in
      if buf_sz_content b == 0
      then ok (success, b, k)
      else (if is_success status then more else ok (status, b', k'))

  -- `buf_from_sock`, likewise
  unfoldable pub buf_from_sock : ℕ → Buf → K → Result (Status × Buf × K)
  buf_from_sock zero b k = fault
  buf_from_sock (suc fuel) b k = do
    b ← buf_readjust 2 1 b
    r ← ok (socket.recv k (sub64 b.sz b.idx_write))
    let more = buf_from_sock fuel (received r.1 b) r.2
    if is_success r.0 then more else ok (r.0, received r.1 b, r.2)
