-- ===== src/Cluster/Origins.antt =====
-- Where the transactions of libmpaxos/proposer.c come from: each has the request that it was started with.
use mpaxos.Prelude.{
  ℕ, ◌≡◌, refl, sym, ap, subst, ◌∙◌, Bool, true, false, Bool-cases, inl, inr, Option, none, some,
  Option-cases, List, [], ◌∷◌, In, All, All-In, All-imp, All-append, if◌then◌else◌, Result, fault,
  abort, ok, >>=-eq-ok, ok-injective, get, AllAt, nat_key,
}
use mpaxos.Types.{InstId, Response, Ack, MsgPrepare, MsgAccept, MsgReply, Req}
use mpaxos.Acceptor.{handle_msg_prepare, handle_msg_accept}
use mpaxos.Proposer.{
  GroupInfo, Heap, TxnInfo, is_accepting, Verdict, yes_most, no_most, uncertain, count_promise,
  count_accepted, see_props, is_current, on_response, on_responses,
}
use mpaxos.Node.{
  Env, Node, mpaxos_start_request, on_prepare, on_accept, on_promise, on_accepted, verdict,
  txn_info_create,
}
use mpaxos.Node.Txns.{
  handle_msg_promise-Carried, handle_msg_accepted-AllAt, mpaxos_start_request-Carried,
}
use mpaxos.Cluster.Defs.{
  Cluster, update, counted_yes, winner_of, winner, starts, prepares, accepts, hears_promise,
  hears_accepted, Reach, begins, later,
}
use mpaxos.Cluster.Invariant.{at_update}

-- The requests that were started in a run, latest first.
abbrev pub requests :
    {env : Env} {members : List ℕ} {i : InstId} {c : Cluster} → Reach env members i c → List Req
requests (begins c new) = []
requests (later r (starts k req w e)) = req ∷ requests r
requests (later r (prepares k m w rep once e)) = requests r
requests (later r (accepts k m w rep once e)) = requests r
requests (later r (hears_promise k m w there e)) = requests r
requests (later r (hears_accepted k m w there e kept)) = requests r

-- A transaction under a number of the table has one of the requests, under its id.
abbrev pub IsFrom : List Req → ℕ → TxnInfo → Type 0
IsFrom reqs k t = (t.tid ≡ k) × (t.req.id ≡ k) × In t.req reqs

module _ (count : ℕ → Ack → GroupInfo → Result GroupInfo) (nid : ℕ) where
  on_response_same :
      (res : Response) (t t' : TxnInfo) (h h' : Heap)
      → on_response count nid res (t, h) ≡ ok (t', h')
      → (t'.tid ≡ t.tid) × (t'.req ≡ t.req)
  unfolding on_response
  on_response_same res t t' h h' e = elim (Option-cases (get t.ht_ginfo res.rid.gid)) [
    | inl miss ↦ let e1 = rw (on_response, miss) at e in absurd (cc)
    | inr (g, hit) ↦ elim (Bool-cases (is_current res.rid g)) [
      | inl now ↦
          let e1 = rw (on_response, hit, now) at e in
          let (g', c, k) = >>=-eq-ok (count nid res.ack g) _ e1 in
          let (best, b, k') =
            >>=-eq-ok
              (see_props res.props
                (record { heap = h; max_prop = g.max_prop; prop_max = t.prop_max }))
              _ k in
          (ap (λ x. x.0.tid) (sym (ok-injective k')), ap (λ x. x.0.req) (sym (ok-injective k')))
      | inr old ↦
          let same = ok-injective (rw (on_response, hit, old) at e) in
          (ap (λ x. x.0.tid) (sym same), ap (λ x. x.0.req) (sym same))
    ]
  ]

  on_responses_same :
      (ress : List Response) (t t' : TxnInfo) (h h' : Heap)
      → on_responses count nid ress (t, h) ≡ ok (t', h')
      → (t'.tid ≡ t.tid) × (t'.req ≡ t.req)
  unfolding on_responses
  on_responses_same [] t t' h h' e =
      (ap (λ x. x.0.tid) (sym (ok-injective e)), ap (λ x. x.0.req) (sym (ok-injective e)))
  on_responses_same (res ∷ ress) t t' h h' e =
      let ((u, j), e1, k) = >>=-eq-ok (on_response count nid res (t, h)) _ e in
      let (tid, req) = on_response_same res t u h j e1 in
      let (tid', req') = on_responses_same ress u t' j h' k in (tid' ∙ tid, req' ∙ req)

counted-IsFrom :
    (reqs : List Req) (k : ℕ) (t t' : TxnInfo)
    → (t'.tid ≡ t.tid) × (t'.req ≡ t.req)
    → IsFrom reqs k t
    → IsFrom reqs t'.tid t'
counted-IsFrom reqs k t t' (tid, req) (same, id, there) =
    (refl, ap (λ r. r.id) req ∙ id ∙ sym (tid ∙ same), subst (λ r. In r reqs) (sym req) there)

-- Every transaction, in a table or decided, has one of the requests.
record AllFrom (reqs : List Req) (c : Cluster) : Type 0 where
  pub txns : (k : ℕ) → AllAt (IsFrom reqs) (c.node k).txns
  pub decided : All (λ t. IsFrom reqs t.tid t) c.decided

IsFrom-later :
    (req : Req) (reqs : List Req) (k : ℕ) (t : TxnInfo) → IsFrom reqs k t → IsFrom (req ∷ reqs) k t
IsFrom-later req reqs k t (same, id, there) = (same, id, inr there)

AllAt-later :
    (req : Req) (reqs : List Req) (n : Node)
    → AllAt (IsFrom reqs) n.txns
    → AllAt (IsFrom (req ∷ reqs)) n.txns
AllAt-later req reqs n h j t at = IsFrom-later req reqs j t (h j t at)

module _ (env : Env) (reqs : List Req) (c : Cluster) (s : AllFrom reqs c) where
  moved_from :
      (k : ℕ) (w : Node)
      → AllAt (IsFrom reqs) w.txns
      → (j : ℕ) → AllAt (IsFrom reqs) (update c.node k w j).txns
  moved_from k w here = at_update (λ j n. AllAt (IsFrom reqs) n.txns) c.node k w s.txns here

  starts-AllFrom :
      (k : ℕ) (req : Req) (w : Node)
      → mpaxos_start_request env req (c.node k) ≡ ok w
      → AllFrom (req ∷ reqs) (record c { node = update c.node k w })
  unfolding txn_info_create
  starts-AllFrom k req w e =
      let all = λ (n : Node) (h : AllAt (IsFrom reqs) n.txns). AllAt-later req reqs n h in
      let carried =
        mpaxos_start_request-Carried (IsFrom (req ∷ reqs)) (λ t phase self h. h) req (c.node k)
          (λ rids. (refl, refl, inl refl)) (all (c.node k) (s.txns k)) env w e in
      record {
        txns =
            at_update (λ j n. AllAt (IsFrom (req ∷ reqs)) n.txns) c.node k w
              (λ j. all (c.node j) (s.txns j)) carried.txns;
        decided =
            All-imp (λ t. IsFrom reqs t.tid t) (λ t. IsFrom (req ∷ reqs) t.tid t) c.decided
              (λ t. IsFrom-later req reqs t.tid t) s.decided;
      }

  prepares_txns :
      (k : ℕ) (m : MsgPrepare) (w : Node) (rep : MsgReply)
      → on_prepare m (c.node k) ≡ ok (w, rep)
      → AllAt (IsFrom reqs) w.txns
  unfolding on_prepare
  prepares_txns k m w rep e =
      let ((a, r), e1, k1) =
        >>=-eq-ok (handle_msg_prepare (c.node k).view.local_nid m (c.node k).store.accp) _ e in
      subst (λ x. AllAt (IsFrom reqs) x.0.txns) (ok-injective k1) (s.txns k)

  accepts_txns :
      (k : ℕ) (m : MsgAccept) (w : Node) (rep : MsgReply)
      → on_accept m (c.node k) ≡ ok (w, rep)
      → AllAt (IsFrom reqs) w.txns
  unfolding on_accept
  accepts_txns k m w rep e =
      let n = c.node k in
      let ((t, r), e1, k1) = >>=-eq-ok (handle_msg_accept n.flush n.view.local_nid m n.store) _ e in
      subst (λ x. AllAt (IsFrom reqs) x.0.txns) (ok-injective k1) (s.txns k)

  counts_from :
      (counter : ℕ → Ack → GroupInfo → Result GroupInfo) (k : ℕ) (m : MsgReply) (t t' : TxnInfo)
      (h : Heap)
      → IsFrom reqs m.h.tid t
      → on_responses counter m.h.nid m.ress (t, (c.node k).heap) ≡ ok (t', h)
      → IsFrom reqs t'.tid t'
  counts_from counter k m t t' h from run =
      counted-IsFrom reqs m.h.tid t t'
        (on_responses_same counter m.h.nid m.ress t t' (c.node k).heap h run) from

  promise_txns :
      (k : ℕ) (m : MsgReply) (w : Node)
      → on_promise env m (c.node k) ≡ ok w
      → AllAt (IsFrom reqs) w.txns
  unfolding on_promise
  promise_txns k m w e =
      (handle_msg_promise-Carried (IsFrom reqs) (λ t phase self h. h) env m (c.node k) w (s.txns k)
        (λ t t' h hit from run. counts_from count_promise k m t t' h from run) e).txns

  accepted_txns :
      (k : ℕ) (m : MsgReply) (w : Node)
      → on_accepted env m (c.node k) ≡ ok w
      → AllAt (IsFrom reqs) w.txns
  unfolding on_accepted
  accepted_txns k m w e =
      (handle_msg_accepted-AllAt (IsFrom reqs) (λ t phase self h. h) env m (c.node k) w (s.txns k)
        (λ t t' h hit from run. counts_from count_accepted k m t t' h from run) e).0

  module _ (k : ℕ) (m : MsgReply) where
    counted_yes-IsFrom :
        (t : TxnInfo) (r : Result (TxnInfo × Heap))
        → IsFrom reqs m.h.tid t
        → on_responses count_accepted m.h.nid m.ress (t, (c.node k).heap) ≡ r
        → All (λ u. IsFrom reqs u.tid u) (counted_yes env (c.node k) r)
    counted_yes-IsFrom t fault from e = tt
    counted_yes-IsFrom t abort from e = tt
    counted_yes-IsFrom t (ok (t', h)) from e =
        by_verdict (verdict env false t' (record (c.node k) { heap = h }))
      where
        by_verdict :
            (v : Verdict)
            → All
                (λ u. IsFrom reqs u.tid u)
                (elim v [ yes_most ↦ t' ∷ [] | no_most ↦ [] | uncertain ↦ [] ])
        by_verdict yes_most = (counts_from count_accepted k m t t' h from e, tt)
        by_verdict no_most = tt
        by_verdict uncertain = tt

    winner_of-IsFrom :
        (o : Option TxnInfo)
        → get (c.node k).txns m.h.tid ≡ o
        → All (λ u. IsFrom reqs u.tid u) (winner_of env m (c.node k) o)
    winner_of-IsFrom none e = tt
    winner_of-IsFrom (some t) e =
        if_all (is_accepting t.in_phase) _ (counted_yes-IsFrom t _ (s.txns k m.h.tid t e) refl)
      where
        if_all :
            (b : Bool) (won : List TxnInfo)
            → All (λ u. IsFrom reqs u.tid u) won
            → All (λ u. IsFrom reqs u.tid u) (if b then won else [])
        if_all true won all = all
        if_all false won all = tt

Reach-AllFrom :
    (env : Env) (members : List ℕ) (i : InstId) {c : Cluster} (run : Reach env members i c)
    → AllFrom (requests run) c
unfolding get
Reach-AllFrom env members i (begins c new) = record {
  txns = λ k. subst (AllAt (IsFrom [])) (sym (new.txns k)) (λ j t at. absurd (cc));
  decided = subst (All (λ t. IsFrom [] t.tid t)) (sym new.decided) tt;
}
Reach-AllFrom env members i (later {c} r (starts k req w e)) =
    starts-AllFrom env (requests r) c (Reach-AllFrom env members i r) k req w e
Reach-AllFrom env members i (later {c} r (prepares k m w rep once e)) =
    let s = Reach-AllFrom env members i r in
    record {
      txns = moved_from env (requests r) c s k w (prepares_txns env (requests r) c s k m w rep e);
      decided = s.decided;
    }
Reach-AllFrom env members i (later {c} r (accepts k m w rep once e)) =
    let s = Reach-AllFrom env members i r in
    record {
      txns = moved_from env (requests r) c s k w (accepts_txns env (requests r) c s k m w rep e);
      decided = s.decided;
    }
Reach-AllFrom env members i (later {c} r (hears_promise k m w there e)) =
    let s = Reach-AllFrom env members i r in
    record {
      txns = moved_from env (requests r) c s k w (promise_txns env (requests r) c s k m w e);
      decided = s.decided;
    }
Reach-AllFrom env members i (later {c} r (hears_accepted k m w there e kept)) =
    let s = Reach-AllFrom env members i r in
    record {
      txns = moved_from env (requests r) c s k w (accepted_txns env (requests r) c s k m w e);
      decided =
          All-append (λ t. IsFrom (requests r) t.tid t) (winner env m (c.node k)) c.decided
            (winner_of-IsFrom env (requests r) c s k m (get (c.node k).txns m.h.tid) refl)
            s.decided;
    }

-- Requests with the same id are the same request, as the ids of `gen_txn_id` make sure.
abbrev pub HaveOwnIds : List Req → Type 0
HaveOwnIds reqs = (r r' : Req) → In r reqs → In r' reqs → r.id ≡ r'.id → r ≡ r'

-- Two decided transactions of one id have the same request.
pub same_request :
    (env : Env) (members : List ℕ) (i : InstId) {c : Cluster} (run : Reach env members i c)
    (t t' : TxnInfo)
    → HaveOwnIds (requests run)
    → In t c.decided
    → In t' c.decided
    → t.tid ≡ t'.tid
    → t.req ≡ t'.req
same_request env members i {c} run t t' own won won' same =
    let s = Reach-AllFrom env members i run in
    let (tid, id, there) = All-In (λ u. IsFrom (requests run) u.tid u) c.decided s.decided won in
    let (tid', id', there') =
      All-In (λ u. IsFrom (requests run) u.tid u) c.decided s.decided won' in
    own t.req t'.req there there' (id ∙ same ∙ sym id')
