-- ===== src/Node/Calls.antt =====
-- Remote calls of libmpaxos/comm.c over the connections of libmpaxos/rpc, from bytes to handlers and back.
use mpaxos.Prelude.{
  ℕ, ◌+◌, ◌<◌, ◌≡◌, refl, some, List, [], ◌++◌, arith, ok, length, get, put, nat_key,
}
use mpaxos.Types.{MsgPrepare, MsgAccept, MsgReply}
use mpaxos.Rpc.Buf.{content, Socket}
use mpaxos.Rpc.Buf.Room.{HasRoom}
use mpaxos.Rpc.Polling.{Pollset}
use mpaxos.Rpc.Polling.Jobs.{IsPolled, TakesBack}
use mpaxos.Rpc.Conn.{Sconn, handle_sconn_read}
use mpaxos.Rpc.Conn.Frames.{frame}
use mpaxos.Rpc.Conn.Wire.{IsFull}
use mpaxos.Rpc.Conn.Delivery.{IsUp}
use mpaxos.Rpc.Conn.Answers.{handle_sconn_read_answered}
use mpaxos.Hash.{mpr_hash_set}
use mpaxos.Node.Defs.{Node}
use mpaxos.Node.Handlers.{on_prepare, on_accept}
use mpaxos.Node.Wire.{
  Codecs, rpc_prepare, rpc_accept, on_prepare_bytes, on_accept_bytes, server_table,
}

module _ {S K : Type 0} ⦃set : Pollset S⦄ ⦃socket : Socket K⦄ (codecs : Codecs) (fuel : ℕ)
    (sconn : Sconn S Node) (k : K) (w : Node) (reply : MsgReply) (up : IsUp socket)
    (table : sconn.ht ≡ server_table codecs) (back : TakesBack set)
    (p : IsPolled sconn.mgr sconn.conn.pjob) where
  -- The connection after one call: what was answered, and to which type of message.
  abbrev IsAnswered : ℕ → List ℕ → Type 0
  IsAnswered msgid output =
      (sconn' : Sconn S Node) × (k' : K) × (handle_sconn_read fuel sconn k ≡ ok (sconn', k'))
      × (sconn'.world ≡ w)
      × (content sconn'.conn.buf_recv ≡ [])
      × (content sconn'.conn.buf_send ≡ content sconn.conn.buf_send ++ frame (msgid, output))
      × IsPolled sconn'.mgr sconn'.conn.pjob

  -- When the bytes of a prepare have arrived at a node whose server has the functions of `start_server`
  -- and polls over a pollset that takes a descriptor back, its acceptor handles the prepare, and the
  -- promise is framed into the send buffer; what was packed is taken to be unpacked again.
  pub prepare_call :
      (m : MsgPrepare)
      → codecs.prepare.unpack (codecs.prepare.pack m) ≡ some m
      → on_prepare m sconn.world ≡ ok (w, reply)
      → IsFull (rpc_prepare, codecs.prepare.pack m)
      → HasRoom sconn.conn.buf_recv (length (frame (rpc_prepare, codecs.prepare.pack m)) + 1)
      → HasRoom sconn.conn.buf_send (length (frame (rpc_prepare, codecs.promise.pack reply)))
      → content sconn.conn.buf_recv ++ socket.stream k ≡ frame (rpc_prepare, codecs.prepare.pack m)
      → length (frame (rpc_prepare, codecs.prepare.pack m)) < fuel
      → IsAnswered rpc_prepare (codecs.promise.pack reply)
  unfolding on_prepare_bytes server_table mpr_hash_set get put
  prepare_call m read answered full room1 room2 arrived enough =
      handle_sconn_read_answered back fuel rpc_prepare (codecs.prepare.pack m)
        (codecs.promise.pack reply) (on_prepare_bytes codecs) sconn k w up refl
        (λ e. omega (arith, e)) full (rw table refl) (rw (read, answered) refl) room1 room2 p
        arrived enough

  -- So is an accept, whose answer is the accepted message.
  pub accept_call :
      (m : MsgAccept)
      → codecs.accept.unpack (codecs.accept.pack m) ≡ some m
      → on_accept m sconn.world ≡ ok (w, reply)
      → IsFull (rpc_accept, codecs.accept.pack m)
      → HasRoom sconn.conn.buf_recv (length (frame (rpc_accept, codecs.accept.pack m)) + 1)
      → HasRoom sconn.conn.buf_send (length (frame (rpc_accept, codecs.accepted.pack reply)))
      → content sconn.conn.buf_recv ++ socket.stream k ≡ frame (rpc_accept, codecs.accept.pack m)
      → length (frame (rpc_accept, codecs.accept.pack m)) < fuel
      → IsAnswered rpc_accept (codecs.accepted.pack reply)
  unfolding on_accept_bytes server_table mpr_hash_set get put
  accept_call m read answered full room1 room2 arrived enough =
      handle_sconn_read_answered back fuel rpc_accept (codecs.accept.pack m)
        (codecs.accepted.pack reply) (on_accept_bytes codecs) sconn k w up refl
        (λ e. omega (arith, e)) full (rw table refl) (rw (read, answered) refl) room1 room2 p
        arrived enough
