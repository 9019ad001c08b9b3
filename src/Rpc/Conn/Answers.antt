-- ===== src/Rpc/Conn/Answers.antt =====
-- A request that arrives at libmpaxos/rpc/server.c is answered on the same connection.
use mpaxos.Prelude.{
  ℕ, ◌+◌, ◌<◌, ◌≡◌, ◌≢◌, refl, sym, ap, ◌∙◌, inl, none, some, false, List, [], ◌∷◌, ◌++◌, arith, ok,
  length, length-append, get, nat_key,
}
use mpaxos.Rpc.Buf.{content, Socket}
use mpaxos.Rpc.Buf.Room.{HasRoom}
use mpaxos.Rpc.Polling.{Pollset}
use mpaxos.Rpc.Polling.Jobs.{IsPolled, TakesBack}
use mpaxos.Rpc.Conn.Server.{Sconn, sconn_dispatch, msg_call, in_new_thread, handle_sconn_read}
use mpaxos.Rpc.Conn.Defs.{RpcState, RpcFun}
use mpaxos.Rpc.Conn.Frames.{frame}
use mpaxos.Rpc.Conn.Wire.{IsFull, write_trigger_poll_lem}
use mpaxos.Rpc.Conn.Delivery.{IsUp, handle_sconn_read_lem}
use mathlib.Core.List.{append-nil}

module _ {S W : Type 0} ⦃set : Pollset S⦄ (back : TakesBack set) where
  -- A message whose function leaves an output: the output goes back in a frame of the same type.
  sconn_dispatch_answered :
      (msgid : ℕ) (input output : List ℕ) (fun : RpcFun W) (sconn : Sconn S W) (w : W)
      → let state : RpcState = record { msgid = msgid; raw_input = input; raw_output = none } in
        in_new_thread msgid ≡ false
        → msgid ≢ 0
        → get sconn.ht msgid ≡ some fun
        → fun state sconn.world ≡ ok (record state { raw_output = some output }, w)
        → HasRoom sconn.conn.buf_send (length (frame (msgid, output)))
        → IsPolled sconn.mgr sconn.conn.pjob
        → (sconn' : Sconn S W) × (sconn_dispatch (msgid, input) sconn ≡ ok sconn')
          × (sconn'.world ≡ w)
          × (content sconn'.conn.buf_send ≡ content sconn.conn.buf_send ++ frame (msgid, output))
          × IsPolled sconn'.mgr sconn'.conn.pjob
  unfolding sconn_dispatch msg_call
  sconn_dispatch_answered msgid input output fun sconn w here id found ran room p =
      let (mgr, conn, run, room', put, p', job, recv) =
        write_trigger_poll_lem back (msgid, output) 0 sconn.mgr sconn.conn id
          (room.0, omega (arith, room.1)) p in
      (
        record sconn { world = w; mgr = mgr; conn = conn },
        rw (here, found, ran, run) refl,
        refl,
        put,
        p',
      )

  -- The bytes of one frame that arrive at a server: `handle_sconn_read` runs the function of its type on
  -- its data and puts the output, in a frame of the same type, into the send buffer.
  pub handle_sconn_read_answered :
      {K : Type 0} ⦃socket : Socket K⦄ (fuel msgid : ℕ) (input output : List ℕ) (fun : RpcFun W)
      (sconn : Sconn S W) (k : K) (w : W)
      → let state : RpcState = record { msgid = msgid; raw_input = input; raw_output = none } in
        IsUp socket
        → in_new_thread msgid ≡ false
        → msgid ≢ 0
        → IsFull (msgid, input)
        → get sconn.ht msgid ≡ some fun
        → fun state sconn.world ≡ ok (record state { raw_output = some output }, w)
        → HasRoom sconn.conn.buf_recv (length (frame (msgid, input)) + 1)
        → HasRoom sconn.conn.buf_send (length (frame (msgid, output)))
        → IsPolled sconn.mgr sconn.conn.pjob
        → content sconn.conn.buf_recv ++ socket.stream k ≡ frame (msgid, input)
        → length (frame (msgid, input)) < fuel
        → (sconn' : Sconn S W) × (k' : K) × (handle_sconn_read fuel sconn k ≡ ok (sconn', k'))
          × (sconn'.world ≡ w)
          × (content sconn'.conn.buf_recv ≡ [])
          × (content sconn'.conn.buf_send ≡ content sconn.conn.buf_send ++ frame (msgid, output))
          × IsPolled sconn'.mgr sconn'.conn.pjob
  handle_sconn_read_answered ⦃socket⦄ fuel msgid input output fun sconn k w up here id full found
        ran room1 room2 p arrived enough =
      let (sconn', run, world, put, p') =
        sconn_dispatch_answered msgid input output fun sconn w here id found ran room2 p in
      let come = length-append (content sconn.conn.buf_recv) (socket.stream k) in
      let size = ap length arrived in
      let (b, k', i, kept, read) =
        handle_sconn_read_lem fuel ((msgid, input) ∷ []) [] sconn k up
          (room1.0, omega (arith, room1.1, come, size)) (omega (arith, come, size, enough))
          (omega (arith, enough)) (full, tt) (inl (omega arith), λ h. absurd (omega (arith, h)))
          (arrived
            ∙ sym (append-nil (frame (msgid, input)))
            ∙ sym (append-nil (frame (msgid, input) ++ []))) in
      (
        record sconn' { conn = record (sconn'.conn) { buf_recv = b } },
        k',
        read ∙ rw run refl,
        world,
        kept,
        put,
        p',
      )
