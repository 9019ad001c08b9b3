-- ===== src/Tests/Calls.antt =====
-- A prepare over the wire, to node 1 of the other runs.
use mpaxos.Prelude.{ℕ, ◌≡◌, refl, none, some, [], ◌∷◌, arith, ok, Dict, get, put, nat_key}
use mpaxos.Types.{MsgType, MsgReply, success}
use mpaxos.View.{is_in_group}
use mpaxos.Acceptor.{get_accp_info, promise_bid, prepare_rid, prepare_rids, handle_msg_prepare}
use mpaxos.Rpc.Polling.{Events}
use mpaxos.Rpc.Polling.Jobs.{IsPolled}
use mpaxos.Rpc.Buf.{content}
use mpaxos.Rpc.Conn.{Sconn, handle_sconn_read}
use mpaxos.Node.{Node, Codecs, on_prepare, server_table}
use mpaxos.Node.Calls.{prepare_call}
use mpaxos.Tests.Sockets.{table_pollset, table_back, Pipe, pipe_socket, pipe_up}
use mpaxos.Tests.Wiring.{polling, full_conn, pipe, added-IsPolled, buf_create-HasRoom}
use mpaxos.Tests.Nodes.{node}
use mpaxos.Tests.Accepting.{prepare, slot, answer}

-- Every prepare is packed as one byte, and read as the prepare of ballot 5.
abbrev one_byte : Codecs
one_byte = record {
  prepare = record { pack = λ m. 8 ∷ []; unpack = λ bytes. some (prepare 5) };
  accept = record { pack = λ m. 9 ∷ []; unpack = λ bytes. none };
  promise = record { pack = λ m. 10 ∷ []; unpack = λ bytes. none };
  accepted = record { pack = λ m. 11 ∷ []; unpack = λ bytes. none };
}

abbrev server : Sconn (Dict ℕ Events) Node
server = record {
  ht = server_table one_byte;
  mgr = polling;
  conn = full_conn;
  tasks = [];
  world = node;
}

abbrev promised : Node
promised = record node { store = record (node.store) { accp = slot 5 [] } }

abbrev reply : MsgReply
reply = record {
  h = record { t = MsgType.promise; nid = 1; tid = 7 };
  ress = answer 5 success [] ∷ [];
}

prepares : on_prepare (prepare 5) node ≡ ok (promised, reply)
unfolding on_prepare handle_msg_prepare prepare_rids prepare_rid promise_bid get_accp_info get put
    is_in_group
prepares = refl

prepare_call_example :
    (server' : Sconn (Dict ℕ Events) Node) × (k' : Pipe) × (handle_sconn_read 8 server
        (pipe (1 ∷ 0 ∷ 0 ∷ 0 ∷ 1 ∷ 0 ∷ 8 ∷ []))
      ≡ ok (server', k'))
    × (server'.world ≡ promised)
    × (content server'.conn.buf_recv ≡ [])
    × (content server'.conn.buf_send ≡ 1 ∷ 0 ∷ 0 ∷ 0 ∷ 1 ∷ 0 ∷ 10 ∷ [])
    × IsPolled server'.mgr server'.conn.pjob
prepare_call_example =
    prepare_call one_byte 8 server (pipe (1 ∷ 0 ∷ 0 ∷ 0 ∷ 1 ∷ 0 ∷ 8 ∷ [])) promised reply pipe_up
      refl table_back added-IsPolled (prepare 5) refl prepares
      ((omega arith, omega arith), omega arith) (buf_create-HasRoom.0, omega arith)
      (buf_create-HasRoom.0, omega arith) refl (omega arith)
