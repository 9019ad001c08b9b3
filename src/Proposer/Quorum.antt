-- ===== src/Proposer/Quorum.antt =====
-- From counts to nodes: the table of groups after whole messages, and what two majorities share.
use mpaxos.Prelude.{
  ℕ, suc, ◌+◌, ◌^◌, ◌≤◌, ◌<◌, ◌≡◌, refl, subst, Bool, true, false, Bool-cases, inl, inr, Option,
  none, some, Option-cases, List, [], ◌∷◌, arith, ◌&&◌, Result, ok, >>=-eq-ok, ok-injective, get,
  AllEntries, put-AllEntries, nat_key, length, get_elem?,
}
use mpaxos.Types.{Ack, success, err_bid, Response}
use mpaxos.Proposer.Defs.{
  Heap, GroupInfo, TxnInfo, yes_most, majority, check_counts, check_group, count_promise,
  count_accepted, see_props, is_current, on_response, on_responses,
}
use mpaxos.Proposer.Tally.{
  count, said_yes, IsTallied, IsOnce, count_promise-IsTallied, count_accepted-IsTallied,
}

-- Every group of the transaction is tallied.
abbrev pub AllTallied : List ℕ → TxnInfo → Type 0
AllTallied nodes t = AllEntries (IsTallied nodes) t.ht_ginfo

with_best :
    (nodes : List ℕ) (g : GroupInfo) (best : Option ℕ)
    → IsTallied nodes g
    → IsTallied nodes (record g { max_prop = best })
with_best nodes g best tallied = record {
  promises_yes = tallied.promises_yes;
  promises_no = tallied.promises_no;
  accepteds_yes = tallied.accepteds_yes;
  accepteds_no = tallied.accepteds_no;
}

module _ (nodes : List ℕ) (nid : ℕ) (counter : ℕ → Ack → GroupInfo → Result GroupInfo)
    (keeps : (ack : Ack) (g g' : GroupInfo)
      → IsTallied nodes g
      → counter nid ack g ≡ ok g'
      → IsTallied nodes g') where
  on_response-AllTallied :
      (res : Response) (t t' : TxnInfo) (h h' : Heap)
      → AllTallied nodes t
      → on_response counter nid res (t, h) ≡ ok (t', h')
      → AllTallied nodes t'
  unfolding on_response
  on_response-AllTallied res t t' h h' all e = elim (Option-cases (get t.ht_ginfo res.rid.gid)) [
    | inl miss ↦ let e1 = rw (on_response, miss) at e in absurd (cc)
    | inr (g, hit) ↦ elim (Bool-cases (is_current res.rid g)) [
      | inl now ↦
          let e1 = rw (on_response, hit, now) at e in
          let (g', c, k) = >>=-eq-ok (counter nid res.ack g) _ e1 in
          let (best, b, k') =
            >>=-eq-ok
              (see_props res.props
                (record { heap = h; max_prop = g.max_prop; prop_max = t.prop_max }))
              _ k in
          subst (λ x. AllTallied nodes x.0) (ok-injective k')
            (put-AllEntries (IsTallied nodes) t.ht_ginfo res.rid.gid
              (record g' { max_prop = best.max_prop }) all
              (with_best nodes g' best.max_prop (keeps res.ack g g' (all res.rid.gid g hit) c)))
      | inr old ↦
          let e1 = rw (on_response, hit, old) at e in
          subst (λ x. AllTallied nodes x.0) (ok-injective e1) all
    ]
  ]

  on_responses-AllTallied :
      (ress : List Response) (t t' : TxnInfo) (h h' : Heap)
      → AllTallied nodes t
      → on_responses counter nid ress (t, h) ≡ ok (t', h')
      → AllTallied nodes t'
  unfolding on_responses
  on_responses-AllTallied [] t t' h h' all e =
      subst (λ x. AllTallied nodes x.0) (ok-injective e) all
  on_responses-AllTallied (res ∷ ress) t t' h h' all e =
      let ((u, i), e1, k) = >>=-eq-ok (on_response counter nid res (t, h)) _ e in
      on_responses-AllTallied ress u t' i h' (on_response-AllTallied res t u h i all e1) k

module _ (nodes : List ℕ) (fits : length nodes < 2 ^ 32) (nid : ℕ) (once : IsOnce nid nodes)
    (ress : List Response) (t t' : TxnInfo) (h h' : Heap) (all : AllTallied nodes t) where
  -- In a view of fewer than 2^32 nodes: the responses of a promise from a node that is in the view once
  -- keep the counts of every group equal to the numbers of nodes that said yes and no.
  pub on_promise-AllTallied :
      on_responses count_promise nid ress (t, h) ≡ ok (t', h') → AllTallied nodes t'
  on_promise-AllTallied e =
      on_responses-AllTallied nodes nid count_promise (count_promise-IsTallied nodes fits nid once)
        ress t t' h h' all e

  -- In a view of fewer than 2^32 nodes: the responses of an accepted message from a node that is in the
  -- view once keep the counts of every group equal to the numbers of nodes that said yes and no.
  pub on_accepted-AllTallied :
      on_responses count_accepted nid ress (t, h) ≡ ok (t', h') → AllTallied nodes t'
  on_accepted-AllTallied e =
      on_responses-AllTallied nodes nid count_accepted
        (count_accepted-IsTallied nodes fits nid once) ress t t' h h' all e

-- Two tests that together pass more nodes than there are pass one node both.
counts_meet :
    (p q : ℕ → Bool) (nodes : List ℕ)
    → length nodes < count p nodes + count q nodes
    → (k : ℕ) × (nid : ℕ) × (get_elem? nodes k ≡ some nid) × (p nid ≡ true) × (q nid ≡ true)
counts_meet p q [] more = absurd (omega arith)
counts_meet p q (x ∷ xs) more = elim (Bool-cases (p x && q x)) [
  | inl both ↦ (0, x, refl, ground arith, ground arith)
  | inr missing ↦
      let (k, nid, at, yes_p, yes_q) = counts_meet p q xs (ground arith) in
      (suc k, nid, at, yes_p, yes_q)
]

yes_entry : (o : Option Ack) → said_yes o ≡ true → o ≡ some success
yes_entry none e = absurd (cc)
yes_entry (some success) e = refl
yes_entry (some err_bid) e = absurd (cc)

enough_yes : (gsz n_yes n_no : ℕ) → check_counts gsz n_yes n_no ≡ yes_most → majority gsz ≤ n_yes
unfolding check_counts
enough_yes gsz n_yes n_no e = ground arith

-- Two groups whose counts are right for one view of nodes, of which one has its majority of promises and
-- the other its majority of accepts: some node of the view promised to the one and accepted for the
-- other.
pub majorities_meet :
    (nodes : List ℕ) (g g' : GroupInfo)
    → IsTallied nodes g
    → IsTallied nodes g'
    → check_group (λ gid. length nodes) true g ≡ yes_most
    → check_group (λ gid. length nodes) false g' ≡ yes_most
    → (k : ℕ) × (nid : ℕ) × (get_elem? nodes k ≡ some nid)
      × (get g.ht_prom nid ≡ some success)
      × (get g'.ht_accd nid ≡ some success)
majorities_meet nodes g g' tallied tallied' promised_yes accepted_yes =
    let half : majority (length nodes) ≤ g.n_promises_yes = enough_yes _ _ _ promised_yes in
    let half' : majority (length nodes) ≤ g'.n_accepteds_yes = enough_yes _ _ _ accepted_yes in
    let (k, nid, at, p, q) =
      counts_meet (λ n. said_yes (get g.ht_prom n)) (λ n. said_yes (get g'.ht_accd n)) nodes
        (omega (arith, half, half', tallied.promises_yes, tallied'.accepteds_yes)) in
    (k, nid, at, yes_entry (get g.ht_prom nid) p, yes_entry (get g'.ht_accd nid) q)

-- Two groups whose counts are right for one view of nodes and that both have their majority of promises:
-- some node of the view promised to both.
pub promises_meet :
    (nodes : List ℕ) (g g' : GroupInfo)
    → IsTallied nodes g
    → IsTallied nodes g'
    → check_group (λ gid. length nodes) true g ≡ yes_most
    → check_group (λ gid. length nodes) true g' ≡ yes_most
    → (nid : ℕ) × (get g.ht_prom nid ≡ some success) × (get g'.ht_prom nid ≡ some success)
promises_meet nodes g g' tallied tallied' promised_yes promised_yes' =
    let half : majority (length nodes) ≤ g.n_promises_yes = enough_yes _ _ _ promised_yes in
    let half' : majority (length nodes) ≤ g'.n_promises_yes = enough_yes _ _ _ promised_yes' in
    let (k, nid, at, p, q) =
      counts_meet (λ n. said_yes (get g.ht_prom n)) (λ n. said_yes (get g'.ht_prom n)) nodes
        (omega (arith, half, half', tallied.promises_yes, tallied'.promises_yes)) in
    (nid, yes_entry (get g.ht_prom nid) p, yes_entry (get g'.ht_prom nid) q)
