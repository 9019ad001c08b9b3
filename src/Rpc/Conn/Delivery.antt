-- ===== src/Rpc/Conn/Delivery.antt =====
-- Whole handlers of libmpaxos/rpc/server.c and client.c: what is called comes out at the other side.
use mpaxos.Prelude.{
  ℕ, ◌+◌, ◌<◌, ◌≡◌, ◌≢◌, refl, inl, inr, sym, ap, ◌∙◌, List, [], ◌++◌, All, All-imp, arith, true,
  false, ok, ◌>>=◌, >>=_assoc, length,
}
use mpaxos.Rpc.Buf.{
  Buf, content, IsBuf, Status, is_success, success, eof, econnreset, epipe, other_error, eagain,
  buf_sz_content, Socket, buf_to_sock, buf_from_sock,
}
use mpaxos.Rpc.Buf.Queue.{length-content}
use mpaxos.Rpc.Buf.Room.{HasRoom}
use mpaxos.Rpc.Buf.Flow.{buf_to_sock_lem, buf_from_sock_lem}
use mpaxos.Rpc.Polling.{only_in, Pollset, PollMgr}
use mpaxos.Rpc.Polling.Jobs.{IsPolled, TakesBack, poll_mgr_update_job-IsPolled}
use mpaxos.Rpc.Conn.Defs.{Conn, handle_client_write}
use mpaxos.Rpc.Conn.Server.{Sconn, sconn_dispatch, handle_sconn_read}
use mpaxos.Rpc.Conn.Client.{ClientConn, client_dispatch, handle_client_read}
use mpaxos.Rpc.Conn.Frames.{IsMessage, IsPartial}
use mpaxos.Rpc.Conn.Loops.{frames, length-frames, client_read_frames, run_messages}
use mpaxos.Rpc.Conn.Wire.{IsFull, IsFullPart, sconn_read_loop, client_calls, client_calls_lem}
use mathlib.Core.List.{append-nil}

-- A connection that is neither reset nor closed: a receive has data or finds nothing more.
abbrev pub IsUp : {K : Type 0} → Socket K → Type 0
IsUp {K} socket =
    (k : K) (n : ℕ) → 0 < n → is_success (socket.recv k n).0 ≡ false → (socket.recv k n).0 ≡ eagain

-- A receive over a connection that is up puts all that arrived into the buffer.
buf_from_sock_up :
    {K : Type 0} ⦃socket : Socket K⦄ (fuel : ℕ) (b : Buf) (k : K)
    → IsUp socket
    → HasRoom b (length (socket.stream k) + 1)
    → length (socket.stream k) < fuel
    → (b' : Buf) × (k' : K) × (buf_from_sock fuel b k ≡ ok (eagain, b', k'))
      × IsBuf b'
      × (content b' ≡ content b ++ socket.stream k)
buf_from_sock_up ⦃socket⦄ fuel b k up room enough =
    let (status, b', k', run, i, kept, ends, j, n, pos, at, to) =
      buf_from_sock_lem fuel b k room enough in
    let again : (socket.recv j n).0 ≡ eagain = up j n pos (ap is_success at ∙ ends) in
    let drained : socket.stream k' ≡ [] =
      ap socket.stream (sym to) ∙ socket.recv_drained j n again in
    (
      b',
      k',
      run ∙ ap (λ s. ok (s, b', k')) (sym at ∙ again),
      i,
      sym (append-nil (content b')) ∙ ap (◌++◌ (content b')) (sym drained) ∙ kept,
    )

module _ {S W : Type 0} ⦃set : Pollset S⦄ {K : Type 0} ⦃socket : Socket K⦄ where
  -- Over a connection that is up, `handle_sconn_read` dispatches the messages whose frames are complete,
  -- in order, and keeps the part of a frame after them for the next time.
  pub handle_sconn_read_lem :
      (fuel : ℕ) (ms : List (ℕ × List ℕ)) (rest : List ℕ) (sconn : Sconn S W) (k : K)
      → IsUp socket
      → HasRoom sconn.conn.buf_recv (length (socket.stream k) + 1)
      → length (socket.stream k) < fuel
      → length ms < fuel
      → All IsFull ms
      → IsFullPart rest
      → content sconn.conn.buf_recv ++ socket.stream k ≡ frames ms ++ rest
      → (b' : Buf) × (k' : K) × IsBuf b'
        × (content b' ≡ rest)
        × (handle_sconn_read fuel sconn k ≡ (
            run_messages sconn_dispatch ms sconn >>= λ s.
            ok (record s { conn = record s.conn { buf_recv = b' } }, k')))
  unfolding handle_sconn_read
  handle_sconn_read_lem fuel ms rest sconn k up room enough turns full part e =
      let (b, k', run, i, whole) = buf_from_sock_up fuel sconn.conn.buf_recv k up room enough in
      let (b', i', left, loop) =
        sconn_read_loop (sconn_dispatch {S = S} {W = W}) fuel ms rest b turns full part i
          (whole ∙ e) in
      (
        b',
        k',
        i',
        left,
        rw (run, loop) (>>=_assoc (run_messages sconn_dispatch ms sconn) (λ y. ok (b', y)) _),
      )

  -- So does `handle_client_read`, which takes messages without data too.
  pub handle_client_read_lem :
      (fuel : ℕ) (ms : List (ℕ × List ℕ)) (rest : List ℕ) (cli : ClientConn S W) (k : K)
      → IsUp socket
      → HasRoom cli.conn.buf_recv (length (socket.stream k) + 1)
      → length (socket.stream k) < fuel
      → length ms < fuel
      → All IsMessage ms
      → IsPartial rest
      → content cli.conn.buf_recv ++ socket.stream k ≡ frames ms ++ rest
      → (b' : Buf) × (k' : K) × IsBuf b'
        × (content b' ≡ rest)
        × (handle_client_read fuel cli k ≡ (
            run_messages client_dispatch ms cli >>= λ c.
            ok (record c { conn = record c.conn { buf_recv = b' } }, k')))
  unfolding handle_client_read
  handle_client_read_lem fuel ms rest cli k up room enough turns good part e =
      let (b, k', run, i, whole) = buf_from_sock_up fuel cli.conn.buf_recv k up room enough in
      let (b', i', left, loop) =
        client_read_frames (client_dispatch {S = S} {W = W}) fuel ms rest b turns good part i
          (whole ∙ e) in
      (
        b',
        k',
        i',
        left,
        rw (run, loop) (>>=_assoc (run_messages client_dispatch ms cli) (λ y. ok (b', y)) _),
      )

-- A socket that takes what it is given, a part at a time.
abbrev pub IsOpen : {K : Type 0} → Socket K → Type 0
IsOpen {K} socket =
    (k : K) (bytes : List ℕ) → 0 < length bytes → is_success (socket.send k bytes).0 ≡ true

is_success_eq : (status : Status) → is_success status ≡ true → status ≡ success
is_success_eq success h = refl
is_success_eq eof h = cc
is_success_eq econnreset h = cc
is_success_eq eagain h = cc
is_success_eq epipe h = cc
is_success_eq other_error h = cc

buf_to_sock_open :
    {K : Type 0} ⦃socket : Socket K⦄ (fuel : ℕ) (b : Buf) (k : K)
    → IsOpen socket
    → IsBuf b
    → length (content b) < fuel
    → (b' : Buf) × (k' : K) × (buf_to_sock fuel b k ≡ ok (success, b', k'))
      × IsBuf b'
      × (content b' ≡ [])
      × (socket.sent k' ≡ socket.sent k ++ content b)
buf_to_sock_open ⦃socket⦄ fuel b k open_socket i h =
    let (status, b', k', run, i', together, all, from) = buf_to_sock_lem fuel b k i h in
    let good : is_success status ≡ true = elim from [
      | inl e ↦ ap is_success e
      | inr (j, bytes, some_bytes, e) ↦ ap is_success (sym e) ∙ open_socket j bytes some_bytes
    ] in
    let is_done = is_success_eq status good in
    (
      b',
      k',
      run ∙ ap (λ s. ok (s, b', k')) is_done,
      i',
      all good,
      sym (append-nil (socket.sent k')) ∙ ap (◌++◌ (socket.sent k')) (sym (all good)) ∙ together,
    )

module _ {S : Type 0} ⦃set : Pollset S⦄ {K : Type 0} ⦃socket : Socket K⦄ where
  -- Over such a pollset, once the socket of a client takes its bytes, `handle_client_write` hands over all that waits, in
  -- order, and goes back to polling for input alone.
  pub handle_client_write_lem :
      TakesBack set
      → (fuel : ℕ) (mgr : PollMgr S) (conn : Conn) (k : K) → IsOpen socket
      → IsBuf conn.buf_send
      → length (content conn.buf_send) < fuel
      → IsPolled mgr conn.pjob
      → (mgr' : PollMgr S) × (conn' : Conn) × (k' : K) × (handle_client_write fuel mgr conn k
          ≡ ok (mgr', conn', k'))
        × (content conn'.buf_send ≡ [])
        × (socket.sent k' ≡ socket.sent k ++ content conn.buf_send)
        × IsPolled mgr' conn'.pjob
        × (conn'.pjob ≡ record conn.pjob { reqevents = only_in })
  unfolding handle_client_write
  handle_client_write_lem back fuel mgr conn k open_socket i h p =
      let (b', k', run, i', empty, sent) = buf_to_sock_open fuel conn.buf_send k open_socket i h in
      let (mgr', run', p', others) = poll_mgr_update_job-IsPolled back mgr conn.pjob only_in p in
      let none_left : buf_sz_content b' ≡ 0 = sym (length-content 0 b' i') ∙ ap length empty in
      (
        mgr',
        record conn { buf_send = b'; pjob = record conn.pjob { reqevents = only_in } },
        k',
        rw (run, none_left, run') refl,
        empty,
        sent,
        p',
        refl,
      )

  -- Over a pollset that takes a descriptor back and sockets that are up, messages that a client calls
  -- with, not of type 0 and short enough for their size field and for the buffers, reach the functions of
  -- the server: the calls succeed, the write handler hands over their frames, and a server with nothing
  -- buffered, to which those bytes arrive, dispatches exactly these messages, in order.
  pub client_calls-handle_sconn_read :
      {W : Type 0} (fuel : ℕ) (ms : List (ℕ × List ℕ)) (mgr : PollMgr S) (conn : Conn) (k : K)
      (sconn : Sconn S W) (ks : K)
      → TakesBack set
      → IsOpen socket
      → IsUp socket
      → All (λ m. IsFull m × (m.0 ≢ 0)) ms
      → HasRoom conn.buf_send (length (frames ms))
      → content conn.buf_send ≡ []
      → IsPolled mgr conn.pjob
      → HasRoom sconn.conn.buf_recv (length (frames ms) + 1)
      → content sconn.conn.buf_recv ≡ []
      → socket.stream ks ≡ frames ms
      → length (frames ms) < fuel
      → (mgr1 : PollMgr S) × (conn1 : Conn) × (mgr2 : PollMgr S) × (conn2 : Conn) × (k2 : K)
        × (client_calls ms mgr conn ≡ ok (mgr1, conn1))
        × (handle_client_write fuel mgr1 conn1 k ≡ ok (mgr2, conn2, k2))
        × (socket.sent k2 ≡ socket.sent k ++ frames ms)
        × (b : Buf) × (k' : K) × (content b ≡ [])
        × (handle_sconn_read fuel sconn ks ≡ (
            run_messages sconn_dispatch ms sconn >>= λ s.
            ok (record s { conn = record s.conn { buf_recv = b } }, k')))
  client_calls-handle_sconn_read fuel ms mgr conn k sconn ks back open_socket up good room empty p
        room' empty' arrived enough =
      let (mgr1, conn1, run1, room1, put, p1) =
        client_calls_lem back ms 0 mgr conn
          (All-imp (λ m. IsFull m × (m.0 ≢ 0)) (λ m. m.0 ≢ 0) ms (λ m h. h.1) good)
          (room.0, omega (arith, room.1)) p in
      let waiting : content conn1.buf_send ≡ frames ms = put ∙ ap (λ s. s ++ frames ms) empty in
      let (mgr2, conn2, k2, run2, sent_all, sent, p2, job) =
        handle_client_write_lem back fuel mgr1 conn1 k open_socket room1.0
          (omega (arith, ap length waiting, enough)) p1 in
      let come = ap length arrived in
      let (b, k', i, kept, run3) =
        handle_sconn_read_lem fuel ms [] sconn ks up (room'.0, omega (arith, room'.1, come))
          (omega (arith, come, enough)) (omega (arith, enough, length-frames ms))
          (All-imp (λ m. IsFull m × (m.0 ≢ 0)) IsFull ms (λ m h. h.0) good)
          (inl (omega arith), λ h. absurd (omega (arith, h)))
          (ap (λ c. c ++ socket.stream ks) empty' ∙ arrived ∙ sym (append-nil (frames ms))) in
      (
        mgr1,
        conn1,
        mgr2,
        conn2,
        k2,
        run1,
        run2,
        sent ∙ ap (◌++◌ (socket.sent k)) waiting,
        b,
        k',
        kept,
        run3,
      )
