-- ===== src/Rpc/Conn/Wire.antt =====
-- Messages from `client_call` (libmpaxos/rpc/client.c) or `reply_to` (server.c) to the other side's loop.
use mpaxos.Prelude.{
  ℕ, zero, suc, ◌+◌, ◌^◌, ◌<◌, ◌≡◌, ◌≢◌, refl, sym, ap, ◌∙◌, false, ◌==◌, List, [], ◌∷◌, ◌++◌, All,
  arith, Result, ok, abort, ◌>>=◌, >>=_assoc, >>=_cong, length, length-append, take,
}
use mpaxos.Rpc.Buf.{Buf, content, IsBuf}
use mpaxos.Rpc.Buf.Room.{HasRoom, buf_readjust-HasRoom, buf_write-HasRoom}
use mpaxos.Rpc.Polling.{in_and_out, Pollset, PollMgr}
use mpaxos.Rpc.Polling.Jobs.{IsPolled, TakesBack, poll_mgr_update_job-IsPolled}
use mpaxos.Rpc.Conn.Defs.{
  Conn, from_bytes, u32_bytes, u16_bytes, frame_size, sconn_next, read_loop, write_trigger_poll,
  client_call,
}
use mpaxos.Rpc.Conn.Frames.{
  IsMessage, frame, IsPartial, sconn_next_frame, sconn_next_empty, sconn_next_partial,
}
use mpaxos.Rpc.Conn.Loops.{frames, run_messages, read_loop_lem}
use mathlib.Core.List.{append_assoc, append-nil}

-- A message with data.
abbrev pub IsFull : ℕ × List ℕ → Type 0
IsFull m = IsMessage m × (0 < length m.1)

-- A part of a frame that announces data, if it has a size.
abbrev pub IsFullPart : List ℕ → Type 0
IsFullPart bytes = IsPartial bytes × (4 < length bytes → 0 < from_bytes (take 4 bytes))

-- A server whose buffer starts with frames that have data dispatches them in order and leaves the part
-- of a frame that follows.
pub sconn_read_loop :
    {X : Type 0} (dispatch : ℕ × List ℕ → X → Result X) (fuel : ℕ) (ms : List (ℕ × List ℕ))
    (rest : List ℕ) (b : Buf)
    → length ms < fuel
    → All IsFull ms
    → IsFullPart rest
    → IsBuf b
    → content b ≡ frames ms ++ rest
    → (b' : Buf) × IsBuf b'
      × (content b' ≡ rest)
      × ((x : X)
          → read_loop sconn_next dispatch fuel b x
            ≡ (run_messages dispatch ms x >>= λ y. ok (b', y)))
sconn_read_loop dispatch fuel ms rest b h good part i e =
    read_loop_lem dispatch sconn_next IsFull IsFullPart
      (λ m tail c full j e. sconn_next_frame m tail c full.0 j e full.1)
      (λ c j p. sconn_next_partial c j p.0 p.1) fuel ms rest b h good part i e

three_parts : (c xs ys zs : List ℕ) → ((c ++ xs) ++ ys) ++ zs ≡ c ++ (xs ++ ys ++ zs)
three_parts c xs ys zs = ap (λ s. s ++ zs) (append_assoc c xs ys) ∙ append_assoc c (xs ++ ys) zs

ne→== : (a b : ℕ) → a ≢ b → (a == b) ≡ false
ne→== a b h = ground arith

module _ {S : Type 0} ⦃set : Pollset S⦄ where
  -- `client_call` for some messages, in order
  abbrev pub client_calls : List (ℕ × List ℕ) → PollMgr S → Conn → Result (PollMgr S × Conn)
  client_calls [] mgr conn = ok (mgr, conn)
  client_calls ((msgid, input) ∷ ms) mgr conn = do
    (mgr, conn) ← client_call msgid input mgr conn
    client_calls ms mgr conn

  pub write_trigger_poll_lem :
      TakesBack set
      → (m : ℕ × List ℕ) (k : ℕ) (mgr : PollMgr S) (conn : Conn) → m.0 ≢ 0
      → HasRoom conn.buf_send (length (frame m) + k)
      → IsPolled mgr conn.pjob
      → (mgr' : PollMgr S) × (conn' : Conn) × (write_trigger_poll m.0 m.1 mgr conn
          ≡ ok (mgr', conn'))
        × HasRoom conn'.buf_send k
        × (content conn'.buf_send ≡ content conn.buf_send ++ frame m)
        × IsPolled mgr' conn'.pjob
        × (conn'.pjob ≡ record conn.pjob { reqevents = in_and_out })
        × (conn'.buf_recv ≡ conn.buf_recv)
  unfolding write_trigger_poll
  write_trigger_poll_lem back (msgid, input) k mgr conn id room polled =
      let n = frame_size input in
      let l = length input in
      let (b0, run0, room0, same, fits) =
        buf_readjust-HasRoom n (4 + (2 + (l + k))) conn.buf_send (omega arith)
          (room.0, omega (arith, room.1)) in
      let (b1, run1, room1, e1) = buf_write-HasRoom (u32_bytes l) (2 + (l + k)) b0 room0 in
      let (b2, run2, room2, e2) = buf_write-HasRoom (u16_bytes msgid) (l + k) b1 room1 in
      let (b3, run3, room3, e3) = buf_write-HasRoom input k b2 room2 in
      let (mgr', run4, polled', others) =
        poll_mgr_update_job-IsPolled back mgr conn.pjob in_and_out polled in
      (
        mgr',
        record conn { buf_send = b3; pjob = record conn.pjob { reqevents = in_and_out } },
        rw (run0, run1, ne→== msgid 0 id, run2, run3, run4) refl,
        room3,
        e3
            ∙ ap (λ s. s ++ input)
                (e2 ∙ ap (λ s. s ++ u16_bytes msgid) (e1 ∙ ap (λ s. s ++ u32_bytes l) same))
            ∙ three_parts (content conn.buf_send) (u32_bytes l) (u16_bytes msgid) input,
        polled',
        refl,
        refl,
      )

  -- Over a pollset that takes a descriptor back, calls for any messages succeed while the buffer has room, and put their frames after what waits to be
  -- sent, in order.
  pub client_calls_lem :
      TakesBack set
      → (ms : List (ℕ × List ℕ)) (k : ℕ) (mgr : PollMgr S) (conn : Conn) → All (λ m. m.0 ≢ 0) ms
      → HasRoom conn.buf_send (length (frames ms) + k)
      → IsPolled mgr conn.pjob
      → (mgr' : PollMgr S) × (conn' : Conn) × (client_calls ms mgr conn ≡ ok (mgr', conn'))
        × HasRoom conn'.buf_send k
        × (content conn'.buf_send ≡ content conn.buf_send ++ frames ms)
        × IsPolled mgr' conn'.pjob
  client_calls_lem back [] k mgr conn ids room p = (
    mgr,
    conn,
    refl,
    (room.0, omega (arith, room.1)),
    sym (append-nil (content conn.buf_send)),
    p,
  )
  client_calls_lem back ((msgid, input) ∷ ms) k mgr conn ids room p =
      let m : ℕ × List ℕ = (msgid, input) in
      let counted = length-append (frame m) (frames ms) in
      let (mgr1, conn1, run1, room1, put1, p1, job1, recv1) =
        write_trigger_poll_lem back m (length (frames ms) + k) mgr conn ids.0
          (room.0, omega (arith, room.1, counted)) p in
      let (mgr2, conn2, run2, room2, put2, p2) =
        client_calls_lem back ms k mgr1 conn1 ids.1 room1 p1 in
      (
        mgr2,
        conn2,
        rw run1 run2,
        room2,
        put2
            ∙ ap (λ s. s ++ frames ms) put1
            ∙ append_assoc (content conn.buf_send) (frame m) (frames ms),
        p2,
      )

-- A frame without data aborts a server, after the messages before it were dispatched.
pub sconn_read_loop_empty :
    {X : Type 0} (dispatch : ℕ × List ℕ → X → Result X) (fuel : ℕ) (ms : List (ℕ × List ℕ))
    (msgid : ℕ) (rest : List ℕ) (b : Buf) (x : X)
    → length ms < fuel
    → All IsFull ms
    → msgid < 2 ^ 16
    → IsBuf b
    → content b ≡ frames ms ++ (frame (msgid, []) ++ rest)
    → read_loop sconn_next dispatch fuel b x ≡ (run_messages dispatch ms x >>= λ y. abort)
unfolding read_loop
sconn_read_loop_empty dispatch zero ms msgid rest b x h good id i e = absurd (omega arith)
sconn_read_loop_empty dispatch (suc fuel) [] msgid rest b x h good id i e =
    rw (sconn_next_empty (msgid, []) rest b (id, omega arith) i e refl) refl
sconn_read_loop_empty dispatch (suc fuel) (m ∷ ms) msgid rest b x h good id i e =
    let tail : List ℕ = frames ms ++ (frame (msgid, []) ++ rest) in
    let (c, taken, j, left) =
      sconn_next_frame m tail b good.0.0 i
        (e ∙ append_assoc (frame m) (frames ms) (frame (msgid, []) ++ rest)) good.0.1 in
    rw taken (
      >>=_cong (dispatch m x) (λ y.
        sconn_read_loop_empty dispatch fuel ms msgid rest c y (omega (arith, h)) good.1 id j left)
      ∙ sym (>>=_assoc (dispatch m x) (run_messages dispatch ms) (λ y. abort)))
