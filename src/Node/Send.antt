-- ===== src/Node/Send.antt =====
-- `send_to` and `send_to_group` of libmpaxos/comm.c, the broadcasts of proposer.c, and `mpaxos_prepare`
-- and `mpaxos_accept`.
use mpaxos.Prelude.{
  ℕ, not, Option, none, some, List, [], ◌∷◌, ◌++◌, map, ◌==◌, Result, ok, abort, fault, ◌>>=◌, ◌>>◌,
  safe_assert, get, put, nat_key, length,
}
use mpaxos.Types.{Proposal, proposal_init, CodedValue, MsgType, Req}
use mpaxos.View.{get_view}
use mpaxos.Coding.{rs_encode}
use mpaxos.Proposer.{malloc, load, accepting, TxnInfo}
use mpaxos.Node.Defs.{Env, Packet, to_prepare, to_accept, Node}

-- `send_to`: node 0 does not exist, and every other has a client.
unfoldable pub send_to : ℕ → Packet → Node → Result Node
send_to nid p s = do
  safe_assert (not (nid == 0))
  elim (get s.view.senders nid) [
    | none ↦ abort
    | some _ ↦ ok (record s { out = s.out ++ (nid, p) ∷ [] })
  ]

unfoldable pub send_all : List ℕ → Packet → Node → Result Node
unfolding send_to
send_all [] p s = ok s
send_all (nid ∷ nids) p s = do s' ← send_to nid p s; send_all nids p s'

-- `send_to_groups`: only the first group counts; with none the read of `gids[0]` is out of bounds.
unfoldable pub send_to_groups : Env → List ℕ → Packet → Node → Result Node
unfolding send_all
send_to_groups env [] p s = fault
send_to_groups env (gid ∷ _) p s = do
  (view, nids) ← get_view env.garbage gid s.view
  send_all nids p (record s { view = view })

-- `broadcast_msg_prepare`
unfoldable pub broadcast_msg_prepare : Env → TxnInfo → Node → Result Node
unfolding send_to_groups
broadcast_msg_prepare env t s =
    send_to_groups env (map (λ r. r.gid) t.rids)
      (to_prepare (record {
        h = record { t = MsgType.prepare; nid = s.view.local_nid; tid = t.tid };
        rids = t.rids;
      }))
      s

-- `mpaxos_prepare`
unfoldable pub mpaxos_prepare : Env → TxnInfo → Node → Result Node
unfolding broadcast_msg_prepare
mpaxos_prepare env t s = do safe_assert (not (length t.rids == 0)); broadcast_msg_prepare env t s

abbrev pub accept_packet : ℕ → ℕ → Proposal → Packet
accept_packet local tid p =
    to_accept (record { h = record { t = MsgType.accept; nid = local; tid = tid }; prop = p })

-- The loop of `broadcast_msg_accept_c`: node `i` of the view gets share `i`.
unfoldable pub send_shares : ℕ → Proposal → List ℕ → List CodedValue → Node → Result Node
unfolding send_to
send_shares tid p [] cvs s = ok s
send_shares tid p (nid ∷ nids) [] s = fault
send_shares tid p (nid ∷ nids) (cv ∷ cvs) s = do
  s' ← send_to nid (accept_packet s.view.local_nid tid (record p { coded_value = some cv })) s
  send_shares tid p nids cvs s'

-- `broadcast_msg_accept_c`: one group only. The proposal at address `a` is left with share 0.
unfoldable pub broadcast_msg_accept_c : Env → TxnInfo → ℕ → List CodedValue → Node → Result Node
unfolding send_shares
broadcast_msg_accept_c env t a cvs s = do
  p ← load a s.heap
  safe_assert (length p.rids == 1)
  rid ← elim p.rids [ [] ↦ fault | r ∷ _ ↦ ok r ]
  (view, nids) ← get_view env.garbage rid.gid s.view
  s' ← send_shares t.tid p nids cvs (record s { view = view })
  cv ← elim cvs [ [] ↦ fault | cv ∷ _ ↦ ok cv ]
  ok (record s' {
    heap = record (s'.heap) { blocks = put s'.heap.blocks a (record p { coded_value = some cv }) };
  })

-- The proposal that `mpaxos_accept` makes of the transaction's own request.
unfoldable pub own_proposal : ℕ → TxnInfo → Proposal
own_proposal local t = record proposal_init { rids = t.rids; value = t.req.value; nid = local }

-- The choice at the head of `mpaxos_accept`: `prop_max`, or a new `prop_self`.
unfoldable pub choose_from : Option ℕ → TxnInfo → Node → ℕ × TxnInfo × Node
unfolding own_proposal
choose_from (some a) t s = (a, t, s)
choose_from none t s =
    let (a, heap) = malloc (own_proposal s.view.local_nid t) s.heap in
    (a, record t { prop_self = some a }, record s { heap = heap })

-- The two calls of `rs_encode`: the coded part of the request in 3 of 5, else the value in 1 of 5.
unfoldable pub shares_of : Env → Req → Result (List CodedValue)
shares_of env req = elim req.value_c [
  | [] ↦ rs_encode env.fec req.value 1 5
  | _ ∷ _ ↦ rs_encode env.fec req.value_c 3 5
]

-- The rest of `mpaxos_accept`.
unfoldable pub accept_with : Env → ℕ × TxnInfo × Node → Result Node
unfolding shares_of broadcast_msg_accept_c
accept_with env (a, t, s) = do
  cvs ← shares_of env t.req
  broadcast_msg_accept_c env t a cvs (record s { txns = put s.txns t.tid t })

-- `mpaxos_accept`. The assertion at its head assigns: `in_phase = 2`.
unfoldable pub mpaxos_accept : Env → TxnInfo → Node → Result Node
unfolding choose_from accept_with
mpaxos_accept env t s =
    accept_with env (choose_from t.prop_max (record t { in_phase = accepting }) s)
