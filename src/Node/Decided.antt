-- ===== src/Node/Decided.antt =====
-- A decision is reported once: what `phase_2_async_after` leaves, and what late replies find.
use mpaxos.Prelude.{
  ℕ, ◌≡◌, ◌≢◌, sym, ap, ◌∙◌, true, false, not, Option, none, some, ◌∷◌, arith, ◌==◌, if◌then◌else◌,
  ok, abort, fault, >>=-eq-ok, ok-injective, safe_assert, get, del, get-del_self, nat_key, length,
}
use mpaxos.Types.{Proposal, is_promise, is_accepted, MsgReply, Req}
use mpaxos.Recorder.{record_decided}
use mpaxos.Dag.{dag_pop}
use mpaxos.Proposer.{Heap, load, is_preparing, is_accepting, TxnInfo}
use mpaxos.Node.Defs.{Env, Node}
use mpaxos.Node.Decide.{
  destroy_groups, detach_txn_info, async_ready_callback, forget_old, chosen, phase_2_async_after,
}
use mpaxos.Node.Handlers.{handle_msg_promise, handle_msg_accepted}

-- What is left after a decision.
pub record Reported (t : TxnInfo) (s s' : Node) : Type 0 where
  pub called : s'.called ≡ t.req.id ∷ s.called
  pub gone : get s'.txns t.tid ≡ none
  pub others : s'.txns ≡ del s.txns t.tid
  pub view : s'.view ≡ s.view
  pub decided :
      (a : ℕ) × (p : Proposal) × (chosen t ≡ some a)
      × (get s.heap.blocks a ≡ some p)
      × (s'.store.rec ≡ record_decided s.view.local_nid p s.store.rec)

detach_keeps :
    (t : TxnInfo) (s s' : Node)
    → detach_txn_info t s ≡ ok s'
    → (s'.txns ≡ del s.txns t.tid)
      × (s'.called ≡ s.called)
      × (s'.store ≡ s.store)
      × (s'.view ≡ s.view)
unfolding detach_txn_info
detach_keeps t s s' e =
    let (h, e1, k) = >>=-eq-ok (destroy_groups t.ht_ginfo s.heap) _ e in
    let same = ok-injective k in
    (
      sym (ap (λ x. x.txns) same),
      sym (ap (λ x. x.called) same),
      sym (ap (λ x. x.store) same),
      sym (ap (λ x. x.view) same),
    )

callback_keeps :
    (req : Req) (s s' : Node)
    → async_ready_callback req s ≡ ok s'
    → (s'.txns ≡ s.txns)
      × (s'.called ≡ req.id ∷ s.called)
      × (s'.store ≡ s.store)
      × (s'.view ≡ s.view)
unfolding async_ready_callback
callback_keeps req s s' e =
    let (u, e1, k1) = >>=-eq-ok (if s.cb_god then ok tt else fault) _ e in
    let (popped, e2, k2) = >>=-eq-ok (dag_pop req.gids s.dag) _ k1 in
    let (u', e3, k3) = >>=-eq-ok (safe_assert (popped.1 == req.id)) _ k2 in
    let same = ok-injective k3 in
    (
      sym (ap (λ x. x.txns) same),
      sym (ap (λ x. x.called) same),
      sym (ap (λ x. x.store) same),
      sym (ap (λ x. x.view) same),
    )

deref_live : (a : ℕ) (h : Heap) {p : Proposal} → load a h ≡ ok p → get h.blocks a ≡ some p
deref_live a h e = ground arith

found : (o : Option ℕ) {a : ℕ} → (elim o [ none ↦ abort | some x ↦ ok x ]) ≡ ok a → o ≡ some a
found none e = absurd (cc)
found (some x) e = ap some (ok-injective e)

-- If the step after a majority of accepts returns: the callback of the request ran once, the
-- transaction has left the table, and the proposal that was chosen is recorded as decided.
pub phase_2_async_after-Reported :
    (t : TxnInfo) (s s' : Node) → phase_2_async_after t s ≡ ok s' → Reported t s s'
unfolding phase_2_async_after
phase_2_async_after-Reported t s s' e =
    let (a, e1, k1) = >>=-eq-ok (elim (chosen t) [ none ↦ abort | some a ↦ ok a ]) _ e in
    let (p, e2, k2) = >>=-eq-ok (load a s.heap) _ k1 in
    let s1 : Node = record s {
      store = record {
        accp = forget_old p.rids s.store.accp;
        rec = record_decided s.view.local_nid p s.store.rec;
      };
    } in
    let (s2, e3, k3) = >>=-eq-ok (detach_txn_info t s1) _ k2 in
    let (txns, called, store, view) = detach_keeps t s1 s2 e3 in
    let (txns', called', store', view') = callback_keeps t.req s2 s' k3 in
    record {
      called = called' ∙ ap (λ l. t.req.id ∷ l) called;
      others = txns' ∙ txns;
      view = view' ∙ view;
      gone = ap (λ d. get d t.tid) (txns' ∙ txns) ∙ get-del_self s.txns t.tid;
      decided =
          (a, p, found (chosen t) e1, deref_live a s.heap e2, ap (λ x. x.rec) (store' ∙ store));
    }

module _ (env : Env) (t : TxnInfo) (s s' : Node) (m : MsgReply)
    (decided : phase_2_async_after t s ≡ ok s') (same : m.h.tid ≡ t.tid)
    (some_res : length m.ress ≢ 0) where
  late_gone : get s'.txns m.h.tid ≡ none
  late_gone = ap (get s'.txns) same ∙ (phase_2_async_after-Reported t s s' decided).gone

  -- After the decision, a further accepted message for the transaction, with at least one response,
  -- leaves the node as it is, so that the callback does not run again.
  pub late_accepted : is_accepted m.h.t ≡ true → handle_msg_accepted env m s' ≡ ok s'
  unfolding handle_msg_accepted
  late_accepted right =
      let nonempty : not (length m.ress == 0) ≡ true = ground arith in
      rw (right, nonempty, late_gone)

  -- After the decision, a further promise for the transaction, with at least one response, leaves the
  -- node as it is.
  late_promise : is_promise m.h.t ≡ true → handle_msg_promise env m s' ≡ ok s'
  unfolding handle_msg_promise
  late_promise right =
      let nonempty : not (length m.ress == 0) ≡ true = ground arith in
      rw (right, nonempty, late_gone)

module _ (env : Env) (t : TxnInfo) (s : Node) (m : MsgReply) (here : get s.txns m.h.tid ≡ some t)
    (some_res : length m.ress ≢ 0) where
  -- A promise with at least one response, for a transaction that is in the table and not in phase 1,
  -- leaves the node as it is.
  pub promise_out_of_phase :
      is_promise m.h.t ≡ true → is_preparing t.in_phase ≡ false → handle_msg_promise env m s ≡ ok s
  unfolding handle_msg_promise
  promise_out_of_phase right wrong =
      let nonempty : not (length m.ress == 0) ≡ true = ground arith in
      rw (right, nonempty, here, wrong)

  -- An accepted message with at least one response, for a transaction that is in the table and not in
  -- phase 2, leaves the node as it is.
  pub accepted_out_of_phase :
      is_accepted m.h.t ≡ true
      → is_accepting t.in_phase ≡ false
      → handle_msg_accepted env m s ≡ ok s
  unfolding handle_msg_accepted
  accepted_out_of_phase right wrong =
      let nonempty : not (length m.ress == 0) ≡ true = ground arith in
      rw (right, nonempty, here, wrong)
