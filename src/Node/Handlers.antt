-- ===== src/Node/Handlers.antt =====
-- `handle_msg_promise` and `handle_msg_accepted` of libmpaxos/proposer.c, and the replies of the
-- acceptor by way of `on_prepare` and `on_accept` of libmpaxos/comm.c.
use mpaxos.Prelude.{
  Bool, true, false, not, none, some, List, map, ◌==◌, if◌then◌else◌, Result, ok, ◌>>=◌, ◌>>◌,
  safe_assert, get, put, nat_key, length,
}
use mpaxos.Types.{is_promise, is_accepted, MsgReply, MsgPrepare, MsgAccept}
use mpaxos.View.{get_group_size}
use mpaxos.Acceptor.{handle_msg_prepare, handle_msg_accept}
use mpaxos.Proposer.{
  GroupInfo, accepting, learning, is_preparing, is_accepting, TxnInfo, Verdict, yes_most, no_most,
  uncertain, check_majority, count_promise, count_accepted, on_responses, phase_after,
}
use mpaxos.Node.Defs.{Env, Node}
use mpaxos.Node.Send.{mpaxos_accept}
use mpaxos.Node.Decide.{phase_2_async_after}

-- The groups of the transaction, as `apr_hash_first` and `apr_hash_next` yield them.
abbrev pub groups : Env → TxnInfo → List GroupInfo
groups env t = env.order (map (λ e. e.1) t.ht_ginfo)

-- The verdict on phase 1 (`true`) or 2.
unfoldable pub verdict : Env → Bool → TxnInfo → Node → Verdict
verdict env phase1 t s = check_majority (λ gid. get_group_size gid s.view) phase1 (groups env t)

-- The end of `handle_msg_promise`, after the responses are counted.
unfoldable pub promised : Env → TxnInfo → Node → Result Node
unfolding verdict
promised env t s =
    let v = verdict env true t s in
    let t' : TxnInfo = record t { in_phase = phase_after v accepting t.in_phase } in
    let s' : Node = record s { txns = put s.txns t.tid t' } in
    elim v [ yes_most ↦ mpaxos_accept env t' s' | no_most ↦ ok s' | uncertain ↦ ok s' ]

-- `handle_msg_promise`
unfoldable pub handle_msg_promise : Env → MsgReply → Node → Result Node
unfolding promised
handle_msg_promise env m s = do
  safe_assert (is_promise m.h.t)
  safe_assert (not (length m.ress == 0))
  elim (get s.txns m.h.tid) [
    | none ↦ ok s
    | some t ↦
        let counted : Result Node = (do
          (t', h) ← on_responses count_promise m.h.nid m.ress (t, s.heap)
          promised env t' (record s { heap = h })) in
        if is_preparing t.in_phase then counted else ok s
  ]

-- The end of `handle_msg_accepted`.
unfoldable pub accepted_by : Env → TxnInfo → Node → Result Node
unfolding verdict
accepted_by env t s =
    let v = verdict env false t s in
    let t' : TxnInfo = record t { in_phase = phase_after v learning t.in_phase } in
    let s' : Node = record s { txns = put s.txns t.tid t' } in
    elim v [ yes_most ↦ phase_2_async_after t' s' | no_most ↦ ok s' | uncertain ↦ ok s' ]

-- `handle_msg_accepted`
unfoldable pub handle_msg_accepted : Env → MsgReply → Node → Result Node
unfolding accepted_by
handle_msg_accepted env m s = do
  safe_assert (is_accepted m.h.t)
  safe_assert (not (length m.ress == 0))
  elim (get s.txns m.h.tid) [
    | none ↦ ok s
    | some t ↦
        let counted : Result Node = (do
          (t', h) ← on_responses count_accepted m.h.nid m.ress (t, s.heap)
          accepted_by env t' (record s { heap = h })) in
        if is_accepting t.in_phase then counted else ok s
  ]

-- `on_prepare`: the acceptor's answer goes back over the connection.
unfoldable pub on_prepare : MsgPrepare → Node → Result (Node × MsgReply)
on_prepare m s = do
  (a, rep) ← handle_msg_prepare s.view.local_nid m s.store.accp
  ok (record s { store = record (s.store) { accp = a } }, rep)

-- `on_accept`
unfoldable pub on_accept : MsgAccept → Node → Result (Node × MsgReply)
on_accept m s = do
  (store, rep) ← handle_msg_accept s.flush s.view.local_nid m s.store
  ok (record s { store = store }, rep)

-- `on_promise` and `on_accepted`, after the message is unpacked.
unfoldable pub on_promise : Env → MsgReply → Node → Result Node
on_promise env m s = handle_msg_promise env m s

unfoldable pub on_accepted : Env → MsgReply → Node → Result Node
on_accepted env m s = handle_msg_accepted env m s
