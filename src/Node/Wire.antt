-- ===== src/Node/Wire.antt =====
-- libmpaxos/comm.c: the functions that a node registers for the messages of its connections, with the
-- packing of protobuf-c around the handlers, and `handle_msg_decide` of learner.c.
use mpaxos.Prelude.{ℕ, Option, some, List, [], ok, ◌>>=◌, deref, Dict, nat_key}
use mpaxos.Types.{MsgPrepare, MsgAccept, MsgReply}
use mpaxos.Rpc.Conn.{RpcFun, ClientFun, server_reg, client_reg}
use mpaxos.Node.Defs.{Env, Node}
use mpaxos.Node.Handlers.{on_prepare, on_accept, on_promise, on_accepted}

-- What the code uses of protobuf-c for one type: an unpacking gives NULL for bytes that are no message.
pub record Packing {ℓ} (M : Type ℓ) : Type ℓ where
  pub pack : M → List ℕ
  pub unpack : List ℕ → Option M

-- `mpaxos__msg_prepare__pack` and the like.
pub record Codecs : Type 0 where
  pub prepare : Packing MsgPrepare
  pub accept : Packing MsgAccept
  pub promise : Packing MsgReply
  pub accepted : Packing MsgReply

-- `RPC_PREPARE`, `RPC_ACCEPT` and `RPC_DECIDE`
abbrev pub rpc_prepare : ℕ
rpc_prepare = 1

abbrev pub rpc_accept : ℕ
rpc_accept = 3

abbrev pub rpc_decide : ℕ
rpc_decide = 7

module _ (codecs : Codecs) where
  -- `on_prepare`: a handler reads a message that could not be unpacked through NULL.
  unfoldable pub on_prepare_bytes : RpcFun Node
  on_prepare_bytes state s = do
    m ← deref (codecs.prepare.unpack state.raw_input)
    (s, reply) ← on_prepare m s
    ok (record state { raw_output = some (codecs.promise.pack reply) }, s)

  -- `on_accept`
  unfoldable pub on_accept_bytes : RpcFun Node
  on_accept_bytes state s = do
    m ← deref (codecs.accept.unpack state.raw_input)
    (s, reply) ← on_accept m s
    ok (record state { raw_output = some (codecs.accepted.pack reply) }, s)

  -- `on_decide`: `handle_msg_decide` does nothing.
  abbrev pub on_decide_bytes : RpcFun Node
  on_decide_bytes state s = ok (state, s)

  -- `on_promise`
  unfoldable pub on_promise_bytes : Env → ClientFun Node
  on_promise_bytes env input s = do m ← deref (codecs.promise.unpack input); on_promise env m s

  -- `on_accepted`
  unfoldable pub on_accepted_bytes : Env → ClientFun Node
  on_accepted_bytes env input s = do m ← deref (codecs.accepted.unpack input); on_accepted env m s

  -- The registrations of `start_server`
  unfoldable pub server_table : Dict ℕ (RpcFun Node)
  server_table =
      server_reg
        (server_reg (server_reg [] rpc_prepare on_prepare_bytes) rpc_accept on_accept_bytes)
        rpc_decide on_decide_bytes

  -- The registrations of `set_nid_sender`
  unfoldable pub client_table : Env → Dict ℕ (ClientFun Node)
  client_table env =
      client_reg (client_reg [] rpc_prepare (on_promise_bytes env)) rpc_accept
        (on_accepted_bytes env)
