-- ===== src/Node/Txns.antt =====
-- What holds of every transaction of a node stays true over `mpaxos_start_request` of
-- libmpaxos/controller.c and the two handlers of libmpaxos/proposer.c, if it holds of new transactions,
-- is kept by the counting of a message, and does not look at the phase and the node's own proposal.
use mpaxos.Prelude.{
  ℕ, ◌≡◌, refl, sym, ap, subst, ◌∙◌, Bool, true, false, not, Bool-cases, inl, inr, Option, none,
  some, Option-cases, List, ◌==◌, ok, >>=-eq-ok, ok-injective, safe_assert, get, put, AllAt,
  put-AllAt, del-AllAt, nat_key, length, Result, if◌then◌else◌,
}
use mpaxos.Types.{RoundId, Req, is_promise, is_accepted, MsgReply, Ack}
use mpaxos.Proposer.{
  GroupInfo, Heap, TxnInfo, Phase, preparing, accepting, learning, failed, is_preparing,
  is_accepting, Verdict, yes_most, no_most, uncertain, count_promise, count_accepted, on_responses,
  phase_after,
}
use mpaxos.Node.Defs.{Env, Node}
use mpaxos.Node.Send.{choose_from, shares_of, accept_with, mpaxos_accept, mpaxos_prepare}
use mpaxos.Node.Decide.{phase_2_async_after}
use mpaxos.Node.Handlers.{verdict, promised, handle_msg_promise, accepted_by, handle_msg_accepted}
use mpaxos.Node.Requests.{
  txn_info_create, pick_slots, assign_bids, bid_prior, bid_normal, mpaxos_start_request,
}
use mpaxos.Node.Kept.{Kept, broadcast-Kept, mpaxos_prepare-Kept}
use mpaxos.Node.Decided.{phase_2_async_after-Reported}

-- The nodes of the view and the node's own number stay as they are.
pub record SameView (s s' : Node) : Type 0 where
  pub nodes : s'.view.arr_nodes ≡ s.view.arr_nodes
  pub local : s'.view.local_nid ≡ s.view.local_nid

pub SameView-refl : (s : Node) → SameView s s
SameView-refl s = record { nodes = refl; local = refl }

module _ (P : ℕ → TxnInfo → Type 0)
    (moves : (t : TxnInfo) (phase : Phase) (self : Option ℕ)
      → P t.tid t
      → P t.tid (record t { in_phase = phase; prop_self = self })) where
  -- The transactions after an operation, where the acceptor's table is left alone.
  pub record Carried (s s' : Node) : Type 0 where
    pub txns : AllAt P s'.txns
    pub view : SameView s s'
    pub accp : s'.store.accp ≡ s.store.accp

  Carried-Kept : (s u s' : Node) → Carried s u → Kept u s' → Carried s s'
  Carried-Kept s u s' c k = record {
    txns = subst (AllAt P) (sym k.txns) c.txns;
    view = record { nodes = k.nodes ∙ c.view.nodes; local = k.local ∙ c.view.local };
    accp = ap (λ x. x.accp) k.store ∙ c.accp;
  }

  accept_with-Carried :
      (env : Env) (a : ℕ) (t : TxnInfo) (s0 s s' : Node)
      → Carried s0 s
      → P t.tid t
      → accept_with env (a, t, s) ≡ ok s'
      → Carried s0 s'
  unfolding accept_with
  accept_with-Carried env a t s0 s s' c here e =
      let (cvs, e1, k1) = >>=-eq-ok (shares_of env t.req) _ e in
      let u : Node = record s { txns = put s.txns t.tid t } in
      Carried-Kept s0 u s'
        (record {
          txns = put-AllAt P s.txns t.tid t c.txns here;
          view = record { nodes = c.view.nodes; local = c.view.local };
          accp = c.accp;
        })
        (broadcast-Kept env t a cvs u s' k1)

  mpaxos_accept-Carried :
      (env : Env) (t : TxnInfo) (s0 s s' : Node)
      → Carried s0 s
      → P t.tid t
      → mpaxos_accept env t s ≡ ok s'
      → Carried s0 s'
  unfolding mpaxos_accept choose_from
  mpaxos_accept-Carried env t s0 s s' c here = by_choice t.prop_max
    where
      by_choice :
          (o : Option ℕ)
          → accept_with env (choose_from o (record t { in_phase = accepting }) s) ≡ ok s'
          → Carried s0 s'
      by_choice none e =
          let (a, u, s1) = choose_from none (record t { in_phase = accepting }) s in
          let c1 : Carried s0 s1 = record {
            txns = c.txns;
            view = record { nodes = c.view.nodes; local = c.view.local };
            accp = c.accp;
          } in
          accept_with-Carried env a u s0 s1 s' c1 (moves t accepting (some s.heap.next) here) e
      by_choice (some a) e =
          accept_with-Carried env a _ s0 s s' c (moves t accepting t.prop_self here) e

  module _ (t : TxnInfo) (s : Node) (all : AllAt P s.txns) (here : P t.tid t) where
    -- The node after the phase of the transaction has changed.
    abbrev pub moved : Phase → Node
    moved phase = record s { txns = put s.txns t.tid (record t { in_phase = phase }) }

    moved-Carried : (phase : Phase) → Carried s (moved phase)
    moved-Carried phase = record {
      txns =
          put-AllAt P s.txns t.tid (record t { in_phase = phase }) all
            (moves t phase t.prop_self here);
      view = record { nodes = refl; local = refl };
      accp = refl;
    }

    promised-Carried : (env : Env) (s' : Node) → promised env t s ≡ ok s' → Carried s s'
    unfolding promised
    promised-Carried env s' = by_verdict (verdict env true t s)
      where
        by_verdict :
            (v : Verdict)
            → (let t' : TxnInfo = record t { in_phase = phase_after v accepting t.in_phase } in
                elim v [
                  | yes_most ↦ mpaxos_accept env t' (record s { txns = put s.txns t.tid t' })
                  | no_most ↦ ok (record s { txns = put s.txns t.tid t' })
                  | uncertain ↦ ok (record s { txns = put s.txns t.tid t' })
                ])
              ≡ ok s'
            → Carried s s'
        by_verdict yes_most e =
            mpaxos_accept-Carried env (record t { in_phase = accepting }) s (moved accepting) s'
              (moved-Carried accepting) (moves t accepting t.prop_self here) e
        by_verdict no_most e = subst (Carried s) (ok-injective e) (moved-Carried failed)
        by_verdict uncertain e = subst (Carried s) (ok-injective e) (moved-Carried t.in_phase)

    accepted_by-AllAt :
        (env : Env) (s' : Node) → accepted_by env t s ≡ ok s' → AllAt P s'.txns × SameView s s'
    unfolding accepted_by
    accepted_by-AllAt env s' = by_verdict (verdict env false t s)
      where
        by_verdict :
            (v : Verdict)
            → (let t' : TxnInfo = record t { in_phase = phase_after v learning t.in_phase } in
                elim v [
                  | yes_most ↦ phase_2_async_after t' (record s { txns = put s.txns t.tid t' })
                  | no_most ↦ ok (record s { txns = put s.txns t.tid t' })
                  | uncertain ↦ ok (record s { txns = put s.txns t.tid t' })
                ])
              ≡ ok s'
            → AllAt P s'.txns × SameView s s'
        by_verdict yes_most e =
            let done =
              phase_2_async_after-Reported (record t { in_phase = learning }) (moved learning) s'
                e in
            (
              subst (AllAt P) (sym done.others)
                  (del-AllAt P (moved learning).txns t.tid (moved-Carried learning).txns),
              record {
                nodes = ap (λ v. v.arr_nodes) done.view;
                local = ap (λ v. v.local_nid) done.view;
              },
            )
        by_verdict no_most e =
            subst (λ x. AllAt P x.txns × SameView s x) (ok-injective e)
              ((moved-Carried failed).txns, (moved-Carried failed).view)
        by_verdict uncertain e =
            subst (λ x. AllAt P x.txns × SameView s x) (ok-injective e)
              ((moved-Carried t.in_phase).txns, (moved-Carried t.in_phase).view)

  -- What the counting of a message has to keep, of the transaction that the message is for.
  abbrev pub IsCounted : (ℕ → Ack → GroupInfo → Result GroupInfo) → MsgReply → Node → Type 0
  IsCounted counter m s =
      (t t' : TxnInfo) (h : Heap)
      → get s.txns m.h.tid ≡ some t
      → P m.h.tid t
      → on_responses counter m.h.nid m.ress (t, s.heap) ≡ ok (t', h)
      → P t'.tid t'

  module _ (env : Env) (m : MsgReply) (s s' : Node) (all : AllAt P s.txns) where
    pub handle_msg_promise-Carried :
        IsCounted count_promise m s → handle_msg_promise env m s ≡ ok s' → Carried s s'
    unfolding handle_msg_promise
    handle_msg_promise-Carried counts e =
        let (u, e1, k1) = >>=-eq-ok (safe_assert (is_promise m.h.t)) _ e in
        let (u', e2, k2) = >>=-eq-ok (safe_assert (not (length m.ress == 0))) _ k1 in
        let same : Carried s s = record { txns = all; view = SameView-refl s; accp = refl } in
        elim (Option-cases (get s.txns m.h.tid)) [
          | inl miss ↦ subst (Carried s) (ok-injective (rw miss at k2)) same
          | inr (t, hit) ↦ elim (Bool-cases (is_preparing t.in_phase)) [
            | inl now ↦
                let ((t', h), e3, k3) =
                  >>=-eq-ok (on_responses count_promise m.h.nid m.ress (t, s.heap)) _
                    (rw (hit, now) at k2) in
                let c =
                  promised-Carried t' (record s { heap = h }) all
                    (counts t t' h hit (all m.h.tid t hit) e3) env s' k3 in
                record {
                  txns = c.txns;
                  view = record { nodes = c.view.nodes; local = c.view.local };
                  accp = c.accp;
                }
            | inr late ↦ subst (Carried s) (ok-injective (rw (hit, late) at k2)) same
          ]
        ]

    pub handle_msg_accepted-AllAt :
        IsCounted count_accepted m s
        → handle_msg_accepted env m s ≡ ok s'
        → AllAt P s'.txns × SameView s s'
    unfolding handle_msg_accepted
    handle_msg_accepted-AllAt counts e =
        let (u, e1, k1) = >>=-eq-ok (safe_assert (is_accepted m.h.t)) _ e in
        let (u', e2, k2) = >>=-eq-ok (safe_assert (not (length m.ress == 0))) _ k1 in
        let same : AllAt P s.txns × SameView s s = (all, SameView-refl s) in
        elim (Option-cases (get s.txns m.h.tid)) [
          | inl miss ↦
              subst (λ x. AllAt P x.txns × SameView s x) (ok-injective (rw miss at k2)) same
          | inr (t, hit) ↦ elim (Bool-cases (is_accepting t.in_phase)) [
            | inl now ↦
                let ((t', h), e3, k3) =
                  >>=-eq-ok (on_responses count_accepted m.h.nid m.ress (t, s.heap)) _
                    (rw (hit, now) at k2) in
                let (txns, view) =
                  accepted_by-AllAt t' (record s { heap = h }) all
                    (counts t t' h hit (all m.h.tid t hit) e3) env s' k3 in
                (txns, record { nodes = view.nodes; local = view.local })
            | inr late ↦
                subst (λ x. AllAt P x.txns × SameView s x) (ok-injective (rw (hit, late) at k2))
                  same
          ]
        ]

  module _ (req : Req) (s : Node)
      (created : (rids : List RoundId) → P req.id (txn_info_create rids req))
      (all : AllAt P s.txns) where
    -- The new transaction of the request, and the node with it.
    abbrev started : List RoundId → Phase → TxnInfo
    started rids phase = record (txn_info_create rids req) { in_phase = phase }

    abbrev entering : List RoundId → Phase → Node
    entering rids phase = record s {
      store = record (s.store) { rec = (pick_slots req.gids true s.store.rec).0 };
      txns = put s.txns req.id (started rids phase);
    }

    begun : (rids : List RoundId) (phase : Phase) → P req.id (started rids phase)
    unfolding txn_info_create
    begun rids phase = moves (txn_info_create rids req) phase none (created rids)

    entered : (rids : List RoundId) (phase : Phase) → Carried s (entering rids phase)
    entered rids phase = record {
      txns = put-AllAt P s.txns req.id (started rids phase) all (begun rids phase);
      view = record { nodes = refl; local = refl };
      accp = refl;
    }

    pub mpaxos_start_request-Carried :
        (env : Env) (s' : Node) → mpaxos_start_request env req s ≡ ok s' → Carried s s'
    unfolding mpaxos_start_request txn_info_create
    mpaxos_start_request-Carried env s' = by_slots (pick_slots req.gids true s.store.rec).2 (
        assign_bids req.n_retry
          (if (pick_slots req.gids true s.store.rec).2 then bid_prior else bid_normal)
          (pick_slots req.gids true s.store.rec).1)
      where
        by_slots :
            (ours : Bool) (rids : List RoundId)
            → (let t : TxnInfo = record (txn_info_create rids req) {
              in_phase = if ours then accepting else preparing;
            } in
                let u : Node = record s {
                  store = record (s.store) { rec = (pick_slots req.gids true s.store.rec).0 };
                  txns = put s.txns t.tid t;
                } in
                if ours then mpaxos_accept env t u else mpaxos_prepare env t u)
              ≡ ok s'
            → Carried s s'
        by_slots true rids e =
            mpaxos_accept-Carried env (started rids accepting) s _ s' (entered rids accepting)
              (begun rids accepting) e
        by_slots false rids e =
            Carried-Kept s _ s' (entered rids preparing)
              (mpaxos_prepare-Kept env (started rids preparing) _ s' e)
