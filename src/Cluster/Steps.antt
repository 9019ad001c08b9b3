-- ===== src/Cluster/Steps.antt =====
-- Every step of several nodes keeps the invariant.
use mpaxos.Prelude.{
  ℕ, ◌^◌, ◌<◌, ◌≤◌, ◌≡◌, ◌≢◌, refl, sym, ap, subst, ◌∙◌, Bool, true, false, Option, none, some,
  List, [], ◌∷◌, ◌++◌, In, All, All-In, All-imp, All-append, arith, ==_iff, if◌then◌else◌, Result,
  fault, abort, ok, >>=-eq-ok, ok-injective, safe_assert, get, AllAt, nat_key, length,
}
use mpaxos.Types.{
  InstId, RoundId, Proposal, MsgType, is_prepare, is_accept, is_promise, is_accepted, MsgPrepare,
  MsgAccept, MsgReply, Req,
}
use mpaxos.View.{get_group_size}
use mpaxos.Recorder.{Flush}
use mpaxos.Acceptor.{Acceptor, Store, prepare_rids, handle_msg_prepare, handle_msg_accept}
use mpaxos.Acceptor.Views.{info_of, bid_max_of, props_of, Extends}
use mpaxos.Acceptor.Promises.{Prepared, handle_msg_prepare-Prepared}
use mpaxos.Acceptor.Accepts.{Accepted, handle_msg_accept-Accepted}
use mpaxos.Proposer.{
  Heap, TxnInfo, is_accepting, Verdict, yes_most, no_most, uncertain, check_majority, count_promise,
  count_accepted, on_responses,
}
use mpaxos.Proposer.Tally.{IsOnce}
use mpaxos.Node.{
  Env, Node, mpaxos_start_request, on_prepare, on_accept, on_promise, on_accepted, verdict,
  txn_info_create, handle_msg_promise, handle_msg_accepted, groups,
}
use mpaxos.Node.Tallied.{new_group, group_table-AllEntries}
use mpaxos.Node.Txns.{
  SameView, handle_msg_promise-Carried, handle_msg_accepted-AllAt, mpaxos_start_request-Carried,
}
use mpaxos.Cluster.Defs.{
  Cluster, update, counted_yes, winner_of, winner, Step, starts, prepares, accepts, hears_promise,
  hears_accepted, Reach, begins, later,
}
use mpaxos.Cluster.Answers.{IsBound, Keeps, IsBound-Keeps, promised-IsBound, accepted-IsBound}
use mpaxos.Cluster.Groups.{
  IsBacked, AllBacked, AllBacked-later, message-AllBacked, promise-CountsOne, accepted-CountsOne,
}
use mpaxos.Cluster.Invariant.{IsOurs, Won, Sound, IsNew-Sound, at_update}

safe_assert_ok : (b : Bool) {u : Unit {0}} → safe_assert b ≡ ok u → b ≡ true
safe_assert_ok true e = refl
safe_assert_ok false e = absurd (cc)

at_self : (f : ℕ → Node) (k : ℕ) (w : Node) → update f k w k ≡ w
at_self f k w = rw ((==_iff k k).1 refl)

append_still : (xs ys : List Proposal) → xs ≢ [] → xs ++ ys ≢ []
append_still [] ys some_x e = some_x refl
append_still (x ∷ xs) ys some_x e = cc

Extends-Keeps : (i : InstId) (a b : Acceptor) → Extends a b → Keeps i a b
Extends-Keeps i a b x = record {
  bid = x.bids i;
  filled = λ filled.
      let (more, e) = x.props i in
      λ none_left. append_still (props_of a i) more filled (sym e ∙ none_left);
}

same-Keeps : (i : InstId) (a b : Acceptor) → info_of b i ≡ info_of a i → Keeps i a b
same-Keeps i a b e = record {
  bid = subst (λ n. bid_max_of a i ≤ n) (ap (λ x. x.bid_max) (sym e)) (omega arith);
  filled = λ filled none_left. filled (ap (λ x. x.arr_prop) (sym e) ∙ none_left);
}

-- Which node answered, and with which kind of message.
prepare_header :
    (local : ℕ) (m : MsgPrepare) (a b : Acceptor) (rep : MsgReply)
    → handle_msg_prepare local m a ≡ ok (b, rep)
    → rep.h ≡ record { t = MsgType.promise; nid = local; tid = m.h.tid }
unfolding handle_msg_prepare
prepare_header local m a b rep e =
    let (u, e0, k0) = >>=-eq-ok (safe_assert (is_prepare m.h.t)) _ e in
    let (run, e1, k1) = >>=-eq-ok (prepare_rids m.rids a) _ k0 in
    sym (ap (λ x. x.1.h) (ok-injective k1))

accept_header :
    (flush : Flush) (local : ℕ) (m : MsgAccept) (s t : Store) (rep : MsgReply)
    → handle_msg_accept flush local m s ≡ ok (t, rep)
    → rep.h ≡ record { t = MsgType.accepted; nid = local; tid = m.h.tid }
unfolding handle_msg_accept
accept_header flush local m s t rep e =
    let (u, e0, k0) = >>=-eq-ok (safe_assert (is_accept m.h.t)) _ e in
    sym (ap (λ x. x.1.h) (ok-injective k0))

module _ (env : Env) (members : List ℕ) (i : InstId) (fits : length members < 2 ^ 32) (c : Cluster)
    (s : Sound env members i c) where
  -- The tables of the acceptors.
  abbrev tables : (ℕ → Node) → ℕ → Acceptor
  tables node k = (node k).store.accp

  module _ (k : ℕ) (w : Node) (view : SameView (c.node k) w)
      (keeps : Keeps i (c.node k).store.accp w.store.accp)
      (txns : AllAt (IsOurs members c.sent) w.txns) where
    moved_local : (j : ℕ) → (update c.node k w j).view.local_nid ≡ j
    moved_local =
        at_update (λ j n. n.view.local_nid ≡ j) c.node k w s.local (view.local ∙ s.local k)

    moved_nodes : (j : ℕ) → (update c.node k w j).view.arr_nodes ≡ members
    moved_nodes =
        at_update (λ j n. n.view.arr_nodes ≡ members) c.node k w s.nodes (view.nodes ∙ s.nodes k)

    moved_txns : (j : ℕ) → AllAt (IsOurs members c.sent) (update c.node k w j).txns
    moved_txns = at_update (λ j n. AllAt (IsOurs members c.sent) n.txns) c.node k w s.txns txns

    moved_tables : (j : ℕ) → Keeps i (tables c.node j) (tables (update c.node k w) j)
    moved_tables =
        at_update (λ j n. Keeps i (tables c.node j) n.store.accp) c.node k w
          (λ j. same-Keeps i (tables c.node j) (tables c.node j) refl) keeps

    -- No answer is sent.
    moved-Sound :
        (more : List TxnInfo)
        → All (Won env members c.sent) more
        → Sound env members i (record c { node = update c.node k w; decided = more ++ c.decided })
    moved-Sound more won = record {
      local = moved_local;
      nodes = moved_nodes;
      once = s.once;
      bound =
          IsBound-Keeps i (tables c.node) (tables (update c.node k w)) c.sent moved_tables s.bound;
      txns = moved_txns;
      won = All-append (Won env members c.sent) more c.decided won s.won;
    }

    -- One answer is sent.
    answered-Sound :
        (rep : MsgReply)
        → IsOnce rep.h.nid members
        → IsBound i (tables (update c.node k w)) (rep ∷ c.sent)
        → Sound env members i (record c { node = update c.node k w; sent = rep ∷ c.sent })
    answered-Sound rep once bound = record {
      local = moved_local;
      nodes = moved_nodes;
      once = (once, s.once);
      bound = bound;
      txns = λ j tid t at.
          let (same, backed) = moved_txns j tid t at in
          (same, AllBacked-later members c.sent tid rep t backed);
      won =
          All-imp (Won env members c.sent) (Won env members (rep ∷ c.sent)) c.decided
            (λ t h. record {
              backed = AllBacked-later members c.sent t.tid rep t h.backed;
              accepted = h.accepted;
            })
            s.won;
    }

  new-IsOurs :
      (req : Req) (rids : List RoundId) → IsOurs members c.sent req.id (txn_info_create rids req)
  unfolding txn_info_create get
  new-IsOurs req rids = (
    refl,
    group_table-AllEntries (IsBacked members c.sent req.id none) req.id rids []
        (λ rid. record {
          tallied = new_group members req.id rid;
          promises = λ nid at. absurd (cc);
          accepteds = λ nid at. absurd (cc);
          best = λ e. refl;
        })
        (λ gid g at. absurd (cc)),
  )

  starts-Sound :
      (k : ℕ) (req : Req) (w : Node)
      → mpaxos_start_request env req (c.node k) ≡ ok w
      → Sound env members i (record c { node = update c.node k w })
  starts-Sound k req w e =
      let carried =
        mpaxos_start_request-Carried (IsOurs members c.sent) (λ t phase self h. h) req (c.node k)
          (new-IsOurs req) (s.txns k) env w e in
      moved-Sound k w carried.view
        (same-Keeps i (c.node k).store.accp w.store.accp (ap (λ a. info_of a i) carried.accp))
        carried.txns [] tt

  prepares-Sound :
      (k : ℕ) (m : MsgPrepare) (w : Node) (rep : MsgReply)
      → IsOnce k members
      → on_prepare m (c.node k) ≡ ok (w, rep)
      → Sound env members i (record c { node = update c.node k w; sent = rep ∷ c.sent })
  unfolding on_prepare
  prepares-Sound k m w rep once e =
      let local = (c.node k).view.local_nid in
      let ((a, r), e1, k1) = >>=-eq-ok (handle_msg_prepare local m (c.node k).store.accp) _ e in
      let same = ok-injective k1 in
      let run : handle_msg_prepare local m (c.node k).store.accp ≡ ok (w.store.accp, rep) =
        e1 ∙ ap (λ x. ok (x.0.store.accp, x.1)) same in
      let header = prepare_header local m (c.node k).store.accp w.store.accp rep run in
      let nid : rep.h.nid ≡ k = ap (λ h. h.nid) header ∙ s.local k in
      let p = handle_msg_prepare-Prepared local m run in
      let view : SameView (c.node k) w = record {
        nodes = ap (λ x. x.0.view.arr_nodes) (sym same);
        local = ap (λ x. x.0.view.local_nid) (sym same);
      } in
      let keeps = Extends-Keeps i (c.node k).store.accp w.store.accp p.extends in
      let txns = subst (λ x. AllAt (IsOurs members c.sent) x.0.txns) same (s.txns k) in
      answered-Sound k w view keeps txns rep (subst (λ n. IsOnce n members) (sym nid) once) (
        promised-IsBound i (tables c.node) (tables (update c.node k w)) c.sent rep
          (moved_tables k w view keeps txns) s.bound m.rids (ap (λ h. is_accepted h.t) header)
          (subst (λ n. Prepared m.rids (tables c.node n) (tables (update c.node k w) n) rep.ress)
            (sym nid)
            (subst (λ x. Prepared m.rids (tables c.node k) x.store.accp rep.ress)
              (sym (at_self c.node k w)) p)))

  accepts-Sound :
      (k : ℕ) (m : MsgAccept) (w : Node) (rep : MsgReply)
      → IsOnce k members
      → on_accept m (c.node k) ≡ ok (w, rep)
      → Sound env members i (record c { node = update c.node k w; sent = rep ∷ c.sent })
  unfolding on_accept
  accepts-Sound k m w rep once e =
      let n = c.node k in
      let ((t, r), e1, k1) = >>=-eq-ok (handle_msg_accept n.flush n.view.local_nid m n.store) _ e in
      let same = ok-injective k1 in
      let run : handle_msg_accept n.flush n.view.local_nid m n.store ≡ ok (w.store, rep) =
        e1 ∙ ap (λ x. ok (x.0.store, x.1)) same in
      let header = accept_header n.flush n.view.local_nid m n.store w.store rep run in
      let nid : rep.h.nid ≡ k = ap (λ h. h.nid) header ∙ s.local k in
      let p = handle_msg_accept-Accepted n.flush n.view.local_nid m n.store run in
      let view : SameView n w = record {
        nodes = ap (λ x. x.0.view.arr_nodes) (sym same);
        local = ap (λ x. x.0.view.local_nid) (sym same);
      } in
      let keeps = Extends-Keeps i n.store.accp w.store.accp p.extends in
      let txns = subst (λ x. AllAt (IsOurs members c.sent) x.0.txns) same (s.txns k) in
      answered-Sound k w view keeps txns rep (subst (λ j. IsOnce j members) (sym nid) once) (
        accepted-IsBound i (tables c.node) (tables (update c.node k w)) c.sent rep
          (moved_tables k w view keeps txns) s.bound m.prop m.prop.rids
          (ap (λ h. is_promise h.t) header)
          (subst
            (λ j.
              Accepted m.prop m.prop.rids (tables c.node j) (tables (update c.node k w) j) rep.ress)
            (sym nid)
            (subst (λ x. Accepted m.prop m.prop.rids (tables c.node k) x.store.accp rep.ress)
              (sym (at_self c.node k w)) p)))

  module _ (k : ℕ) (m : MsgReply) (w : Node) (there : In m c.sent) where
    -- The sender is a member, once.
    once : IsOnce m.h.nid members
    once = All-In (λ r. IsOnce r.h.nid members) c.sent s.once there

    hears_promise-Sound :
        on_promise env m (c.node k) ≡ ok w
        → Sound env members i (record c { node = update c.node k w })
    unfolding on_promise handle_msg_promise
    hears_promise-Sound e =
        let (u, e1, k1) = >>=-eq-ok (safe_assert (is_promise m.h.t)) _ e in
        let one =
          promise-CountsOne members c.sent fits m there once
            (safe_assert_ok (is_promise m.h.t) e1) in
        let carried =
          handle_msg_promise-Carried (IsOurs members c.sent) (λ t phase self h. h) env m (c.node k)
            w (s.txns k)
            (λ t t' h hit ours run.
              let (backed, same) =
                message-AllBacked members c.sent fits m there once count_promise one t t'
                  (c.node k).heap h ours.1 run in
              (refl, subst (λ j. AllBacked members c.sent j t') (sym (same ∙ ours.0)) backed))
            e in
        moved-Sound k w carried.view
          (same-Keeps i (c.node k).store.accp w.store.accp (ap (λ a. info_of a i) carried.accp))
          carried.txns [] tt

    module _ (right : is_accepted m.h.t ≡ true) where
      accepted_ours :
          (t t' : TxnInfo) (h : Heap)
          → IsOurs members c.sent m.h.tid t
          → on_responses count_accepted m.h.nid m.ress (t, (c.node k).heap) ≡ ok (t', h)
          → AllBacked members c.sent t'.tid t'
      accepted_ours t t' h ours run =
          let one = accepted-CountsOne members c.sent fits m there once right in
          let (backed, same) =
            message-AllBacked members c.sent fits m there once count_accepted one t t'
              (c.node k).heap h ours.1 run in
          subst (λ j. AllBacked members c.sent j t') (sym (same ∙ ours.0)) backed

      counted_yes-Won :
          (t : TxnInfo) (r : Result (TxnInfo × Heap))
          → IsOurs members c.sent m.h.tid t
          → on_responses count_accepted m.h.nid m.ress (t, (c.node k).heap) ≡ r
          → All (Won env members c.sent) (counted_yes env (c.node k) r)
      unfolding verdict get_group_size
      counted_yes-Won t fault ours e = tt
      counted_yes-Won t abort ours e = tt
      counted_yes-Won t (ok (t', h)) ours e =
          by_verdict (verdict env false t' (record (c.node k) { heap = h })) refl
        where
          by_verdict :
              (v : Verdict)
              → verdict env false t' (record (c.node k) { heap = h }) ≡ v
              → All
                  (Won env members c.sent)
                  (elim v [ yes_most ↦ t' ∷ [] | no_most ↦ [] | uncertain ↦ [] ])
          by_verdict yes_most f = (
            record {
              backed = accepted_ours t t' h ours e;
              accepted =
                  subst (λ l. check_majority (λ gid. length l) false (groups env t') ≡ yes_most)
                    (s.nodes k) f;
            },
            tt,
          )
          by_verdict no_most f = tt
          by_verdict uncertain f = tt

      winner_of-Won :
          (o : Option TxnInfo)
          → get (c.node k).txns m.h.tid ≡ o
          → All (Won env members c.sent) (winner_of env m (c.node k) o)
      winner_of-Won none e = tt
      winner_of-Won (some t) e =
          if_All (is_accepting t.in_phase) _ (counted_yes-Won t _ (s.txns k m.h.tid t e) refl)
        where
          if_All :
              (b : Bool) (won : List TxnInfo)
              → All (Won env members c.sent) won
              → All (Won env members c.sent) (if b then won else [])
          if_All true won all = all
          if_All false won all = tt

    hears_accepted-Sound :
        on_accepted env m (c.node k) ≡ ok w
        → info_of w.store.accp i ≡ info_of (c.node k).store.accp i
        → Sound env members i
            (record c { node = update c.node k w; decided = winner env m (c.node k) ++ c.decided })
    unfolding on_accepted handle_msg_accepted
    hears_accepted-Sound e kept =
        let (u, e1, k1) = >>=-eq-ok (safe_assert (is_accepted m.h.t)) _ e in
        let right = safe_assert_ok (is_accepted m.h.t) e1 in
        let (txns, view) =
          handle_msg_accepted-AllAt (IsOurs members c.sent) (λ t phase self h. h) env m (c.node k) w
            (s.txns k) (λ t t' h hit ours run. (refl, accepted_ours right t t' h ours run)) e in
        moved-Sound k w view (same-Keeps i (c.node k).store.accp w.store.accp kept) txns
          (winner env m (c.node k)) (winner_of-Won right (get (c.node k).txns m.h.tid) refl)

Step-Sound :
    (env : Env) (members : List ℕ) (i : InstId)
    → length members < 2 ^ 32
    → {c d : Cluster} → Step env members i c d
    → Sound env members i c
    → Sound env members i d
Step-Sound env members i fits {c} (starts k req w e) s =
    starts-Sound env members i fits c s k req w e
Step-Sound env members i fits {c} (prepares k m w rep once e) s =
    prepares-Sound env members i fits c s k m w rep once e
Step-Sound env members i fits {c} (accepts k m w rep once e) s =
    accepts-Sound env members i fits c s k m w rep once e
Step-Sound env members i fits {c} (hears_promise k m w there e) s =
    hears_promise-Sound env members i fits c s k m w there e
Step-Sound env members i fits {c} (hears_accepted k m w there e kept) s =
    hears_accepted-Sound env members i fits c s k m w there e kept

pub Reach-Sound :
    (env : Env) (members : List ℕ) (i : InstId)
    → length members < 2 ^ 32
    → {c : Cluster} → Reach env members i c
    → Sound env members i c
Reach-Sound env members i fits (begins c new) = IsNew-Sound env members i c new
Reach-Sound env members i fits (later r st) =
    Step-Sound env members i fits st (Reach-Sound env members i fits r)
