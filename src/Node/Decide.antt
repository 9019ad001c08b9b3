-- ===== src/Node/Decide.antt =====
-- `detach_txn_info` of libmpaxos/controller.c, `async_ready_callback` of libmpaxos/async.c, and
-- `phase_2_async_after` of libmpaxos/proposer.c.
use mpaxos.Prelude.{
  ℕ, ◌-◌, Option, none, some, List, [], ◌∷◌, ◌==◌, ltb, if◌then◌else◌, Result, ok, abort, fault,
  ◌>>=◌, ◌>>◌, safe_assert, Dict, del, nat_key,
}
use mpaxos.Types.{RoundId, Req}
use mpaxos.Recorder.{record_decided}
use mpaxos.Acceptor.{Acceptor, acceptor_forget}
use mpaxos.Dag.{dag_pop}
use mpaxos.Proposer.{GroupInfo, Heap, load, prop_destroy, TxnInfo}
use mpaxos.Node.Defs.{Node}

-- `group_info_destroy`, for each group of the table.
unfoldable pub destroy_groups : Dict ℕ GroupInfo → Heap → Result Heap
destroy_groups [] h = ok h
destroy_groups ((_, g) ∷ gs) h = do
  h' ← elim g.max_prop [ none ↦ ok h | some a ↦ prop_destroy a h ]
  destroy_groups gs h'

-- The proposal that stands in the transaction's pool goes with the pool.
abbrev pub drop_pool : Option ℕ → Heap → Heap
drop_pool none h = h
drop_pool (some a) h = record h { blocks = del h.blocks a }

-- `detach_txn_info`, with `txn_info_destroy`.
unfoldable pub detach_txn_info : TxnInfo → Node → Result Node
unfolding destroy_groups
detach_txn_info t s = do
  h ← destroy_groups t.ht_ginfo s.heap
  ok (record s { txns = del s.txns t.tid; heap = drop_pool t.prop_self h })

-- `async_ready_callback`: the callback, then the pop of the request from its queues. A request is
-- named by its transaction id.
unfoldable pub async_ready_callback : Req → Node → Result Node
async_ready_callback req s = do
  (if s.cb_god then ok tt else fault)
  let called = req.id ∷ s.called
  (dag, load) ← dag_pop req.gids s.dag
  safe_assert (load == req.id)
  ok (record s { called = called; dag = dag })

-- The loop of `phase_2_async_after`: slots ten behind the decided ones are forgotten.
unfoldable pub forget_old : List RoundId → Acceptor → Acceptor
forget_old [] a = a
forget_old (rid ∷ rids) a =
    forget_old rids (
      if ltb 10 rid.sid
      then acceptor_forget (record { gid = rid.gid; sid = rid.sid - 10 }) a
      else a)

-- `(tinfo->prop_max != NULL) ? tinfo->prop_max : tinfo->prop_self`
abbrev pub chosen : TxnInfo → Option ℕ
chosen t = elim t.prop_max [ some a ↦ some a | none ↦ t.prop_self ]

-- `phase_2_async_after`
unfoldable pub phase_2_async_after : TxnInfo → Node → Result Node
unfolding detach_txn_info async_ready_callback forget_old
phase_2_async_after t s = do
  a ← elim (chosen t) [ none ↦ abort | some a ↦ ok a ]
  p ← load a s.heap
  s' ← detach_txn_info t (record s {
    store = record {
      accp = forget_old p.rids s.store.accp;
      rec = record_decided s.view.local_nid p s.store.rec;
    };
  })
  async_ready_callback t.req s'
