-- ===== src/Cluster/Groups.antt =====
-- What a transaction of libmpaxos/proposer.c has counted is backed by answers that were sent.
use mpaxos.Prelude.{
  ℕ, ◌^◌, ◌<◌, ◌≡◌, refl, sym, ap, subst, ◌∙◌, Bool, true, Bool-cases, inl, inr, Option, none, some,
  some-injective, Option-cases, List, [], ◌∷◌, In, arith, ◌==◌, ==_iff, if◌then◌else◌, Result, ok,
  >>=-eq-ok, ok-injective, Dict, get, put, get-put, AllEntries, put-AllEntries, nat_key, length,
  ◌⊎◌,
}
use mpaxos.Types.{RoundId, Ack, success, Response, MsgType, is_promise, is_accepted, MsgReply}
use mpaxos.Proposer.{
  GroupInfo, Heap, TxnInfo, count_promise, count_accepted, see_props, is_current, on_response,
  on_responses,
}
use mpaxos.Proposer.Tally.{
  IsTallied, IsOnce, round_of, count_promise-Noted, count_accepted-Noted, count_promise-IsTallied,
  count_accepted-IsTallied,
}
use mpaxos.Proposer.Unseen.{unremembered}

-- An answer with a yes to a round that a node sent to a transaction.
pub record Answer (kind : MsgType → Bool) (sent : List MsgReply) (tid nid : ℕ) (rid : RoundId)
    (q : Response) : Type 0 where
  pub reply : MsgReply
  pub was_sent : In reply sent
  pub of_kind : kind reply.h.t ≡ true
  pub by_node : reply.h.nid ≡ nid
  pub for_txn : reply.h.tid ≡ tid
  pub inside : In q reply.ress
  pub is_yes : q.ack ≡ success
  pub of_round : q.rid ≡ rid

-- The counts are right, and each yes that is counted was sent. While the transaction remembers no
-- proposal (`o`), neither does the group, and no promise reported one.
pub record IsBacked (nodes : List ℕ) (sent : List MsgReply) (tid : ℕ) (o : Option ℕ) (g : GroupInfo)
    : Type 0 where
  pub tallied : IsTallied nodes g
  pub promises :
      (nid : ℕ)
      → get g.ht_prom nid ≡ some success
      → (q : Response) × Answer is_promise sent tid nid (round_of g) q × (o ≡ none → q.props ≡ [])
  pub accepteds :
      (nid : ℕ)
      → get g.ht_accd nid ≡ some success
      → (q : Response) × Answer is_accepted sent tid nid (round_of g) q
  pub best : o ≡ none → g.max_prop ≡ none

-- All groups of a transaction.
abbrev pub AllBacked : List ℕ → List MsgReply → ℕ → TxnInfo → Type 0
AllBacked nodes sent tid t = AllEntries (IsBacked nodes sent tid t.prop_max) t.ht_ginfo

Answer-later :
    {kind : MsgType → Bool} {sent : List MsgReply} {tid nid : ℕ} {rid : RoundId} {q : Response}
    (r : MsgReply)
    → Answer kind sent tid nid rid q
    → Answer kind (r ∷ sent) tid nid rid q
Answer-later r a = record {
  reply = a.reply;
  was_sent = inr a.was_sent;
  of_kind = a.of_kind;
  by_node = a.by_node;
  for_txn = a.for_txn;
  inside = a.inside;
  is_yes = a.is_yes;
  of_round = a.of_round;
}

module _ (nodes : List ℕ) (sent : List MsgReply) (tid : ℕ) where
  IsBacked-later :
      (r : MsgReply) (o : Option ℕ) (g : GroupInfo)
      → IsBacked nodes sent tid o g
      → IsBacked nodes (r ∷ sent) tid o g
  IsBacked-later r o g b = record {
    tallied = b.tallied;
    promises =
        λ nid at. let (q, a, none_told) = b.promises nid at in (q, Answer-later r a, none_told);
    accepteds = λ nid at. let (q, a) = b.accepteds nid at in (q, Answer-later r a);
    best = b.best;
  }

  pub AllBacked-later :
      (r : MsgReply) (t : TxnInfo) → AllBacked nodes sent tid t → AllBacked nodes (r ∷ sent) tid t
  AllBacked-later r t all gid g at = IsBacked-later r t.prop_max g (all gid g at)

  IsBacked-seen :
      (o o' : Option ℕ) (g : GroupInfo)
      → (o' ≡ none → o ≡ none)
      → IsBacked nodes sent tid o g
      → IsBacked nodes sent tid o' g
  IsBacked-seen o o' g unseen b = record {
    tallied = b.tallied;
    promises =
        λ nid at. let (q, a, none_told) = b.promises nid at in (q, a, λ e. none_told (unseen e));
    accepteds = b.accepteds;
    best = λ e. b.best (unseen e);
  }

-- What a lookup finds after a first answer was entered.
entered_yes :
    (d : Dict ℕ Ack) (nid n : ℕ) (ack : Ack)
    → get (put d nid ack) n ≡ some success
    → ((nid ≡ n) × (ack ≡ success)) ⊎ (get d n ≡ some success)
entered_yes d nid n ack at = elim (Bool-cases (nid == n)) [
  | inl hit ↦ inl ((==_iff nid n).0 hit, some-injective _ _ (sym (looked hit) ∙ at))
  | inr miss ↦ inr (sym (looked miss) ∙ at)
]
  where
    looked : {b : Bool} → (nid == n) ≡ b → get (put d nid ack) n ≡ (if b then some ack else get d n)
    looked e = get-put d nid n ack ∙ ap (λ b. if b then some ack else get d n) e

current_round : (rid : RoundId) (g : GroupInfo) → is_current rid g ≡ true → rid ≡ round_of g
current_round rid g e = ground arith

module _ (nodes : List ℕ) (sent : List MsgReply) (fits : length nodes < 2 ^ 32) (m : MsgReply)
    (there : In m sent) (once : IsOnce m.h.nid nodes) where
  -- What a counted response adds to a group.
  abbrev pub CountsOne : (ℕ → Ack → GroupInfo → Result GroupInfo) → Type 0
  CountsOne counter =
      (res : Response) (g g' : GroupInfo) (o o' best : Option ℕ)
      → In res m.ress
      → IsBacked nodes sent m.h.tid o g
      → res.rid ≡ round_of g
      → counter m.h.nid res.ack g ≡ ok g'
      → (o' ≡ none → (o ≡ none) × (res.props ≡ []) × (best ≡ none))
      → IsBacked nodes sent m.h.tid o' (record g' { max_prop = best })

  yes_from :
      (kind : MsgType → Bool) (res : Response) (rid : RoundId) (n : ℕ)
      → kind m.h.t ≡ true
      → In res m.ress
      → res.rid ≡ rid
      → m.h.nid ≡ n
      → res.ack ≡ success
      → Answer kind sent m.h.tid n rid res
  yes_from kind res rid n right inside now same is_yes = record {
    reply = m;
    was_sent = there;
    of_kind = right;
    by_node = same;
    for_txn = refl;
    inside = inside;
    is_yes = is_yes;
    of_round = now;
  }

  with_best :
      (g : GroupInfo) (best : Option ℕ)
      → IsTallied nodes g
      → IsTallied nodes (record g { max_prop = best })
  with_best g best tallied = record {
    promises_yes = tallied.promises_yes;
    promises_no = tallied.promises_no;
    accepteds_yes = tallied.accepteds_yes;
    accepteds_no = tallied.accepteds_no;
  }

  pub promise-CountsOne : is_promise m.h.t ≡ true → CountsOne count_promise
  promise-CountsOne right res g g' o o' best inside b now e unseen =
      let noted = count_promise-Noted m.h.nid res.ack g g' e in
      record {
        tallied =
            with_best g' best
              (count_promise-IsTallied nodes fits m.h.nid once res.ack g g' b.tallied e);
        promises = λ n at.
            elim (entered_yes g.ht_prom m.h.nid n res.ack
              (ap (λ d. get d n) (sym noted.prom_there) ∙ at)) [
                | inl (same, is_yes) ↦ (
                  res,
                  yes_from is_promise res (round_of g') n right inside (now ∙ sym noted.round) same
                      is_yes,
                  λ h. (unseen h).1,
                )
                | inr old ↦
                    let (q, a, none_told) = b.promises n old in
                    (
                      q,
                      subst (λ rid. Answer is_promise sent m.h.tid n rid q) (sym noted.round) a,
                      λ h. none_told (unseen h).0,
                    )
              ];
        accepteds = λ n at.
            let (q, a) = b.accepteds n (ap (λ d. get d n) (sym noted.accd_there) ∙ at) in
            (q, subst (λ rid. Answer is_accepted sent m.h.tid n rid q) (sym noted.round) a);
        best = λ h. (unseen h).2;
      }

  pub accepted-CountsOne : is_accepted m.h.t ≡ true → CountsOne count_accepted
  accepted-CountsOne right res g g' o o' best inside b now e unseen =
      let noted = count_accepted-Noted m.h.nid res.ack g g' e in
      record {
        tallied =
            with_best g' best
              (count_accepted-IsTallied nodes fits m.h.nid once res.ack g g' b.tallied e);
        promises = λ n at.
            let (q, a, none_told) = b.promises n (ap (λ d. get d n) (sym noted.prom_there) ∙ at) in
            (
              q,
              subst (λ rid. Answer is_promise sent m.h.tid n rid q) (sym noted.round) a,
              λ h. none_told (unseen h).0,
            );
        accepteds = λ n at.
            elim (entered_yes g.ht_accd m.h.nid n res.ack
              (ap (λ d. get d n) (sym noted.accd_there) ∙ at)) [
                | inl (same, is_yes) ↦ (
                  res,
                  yes_from is_accepted res (round_of g') n right inside (now ∙ sym noted.round) same
                      is_yes,
                )
                | inr old ↦
                    let (q, a) = b.accepteds n old in
                    (q, subst (λ rid. Answer is_accepted sent m.h.tid n rid q) (sym noted.round) a)
              ];
        best = λ h. (unseen h).2;
      }

  module _ (counter : ℕ → Ack → GroupInfo → Result GroupInfo) (one : CountsOne counter) where
    on_response-AllBacked :
        (res : Response) (t t' : TxnInfo) (h h' : Heap)
        → In res m.ress
        → AllBacked nodes sent m.h.tid t
        → on_response counter m.h.nid res (t, h) ≡ ok (t', h')
        → AllBacked nodes sent m.h.tid t' × (t'.tid ≡ t.tid)
    unfolding on_response
    on_response-AllBacked res t t' h h' inside all e =
        elim (Option-cases (get t.ht_ginfo res.rid.gid)) [
          | inl miss ↦ let e1 = rw (on_response, miss) at e in absurd (cc)
          | inr (g, hit) ↦ elim (Bool-cases (is_current res.rid g)) [
            | inl now ↦
                let e1 = rw (on_response, hit, now) at e in
                let (g', c, k) = >>=-eq-ok (counter m.h.nid res.ack g) _ e1 in
                let (best, b, k') =
                  >>=-eq-ok
                    (see_props res.props
                      (record { heap = h; max_prop = g.max_prop; prop_max = t.prop_max }))
                    _ k in
                let backed = all res.rid.gid g hit in
                let seen = unremembered res.props _ best b in
                let same = ok-injective k' in
                let unseen : best.prop_max ≡ none → t.prop_max ≡ none = λ x. (seen x).0 in
                let new =
                  one res g g' t.prop_max best.prop_max best.max_prop inside backed
                    (current_round res.rid g now) c
                    (λ x.
                      let (before, group) = seen x in
                      let (no_props, no_best) = group (backed.best before) in
                      (before, no_props, no_best)) in
                (
                  subst (λ x. AllBacked nodes sent m.h.tid x.0) same
                      (put-AllEntries (IsBacked nodes sent m.h.tid best.prop_max) t.ht_ginfo
                        res.rid.gid (record g' { max_prop = best.max_prop })
                        (λ gid u at.
                          IsBacked-seen nodes sent m.h.tid t.prop_max best.prop_max u unseen
                            (all gid u at))
                        new),
                  ap (λ x. x.0.tid) (sym same),
                )
            | inr old ↦
                let same = ok-injective (rw (on_response, hit, old) at e) in
                (
                  subst (λ x. AllBacked nodes sent m.h.tid x.0) same all,
                  ap (λ x. x.0.tid) (sym same),
                )
          ]
        ]

    on_responses-AllBacked :
        (ress : List Response) (t t' : TxnInfo) (h h' : Heap)
        → ((res : Response) → In res ress → In res m.ress)
        → AllBacked nodes sent m.h.tid t
        → on_responses counter m.h.nid ress (t, h) ≡ ok (t', h')
        → AllBacked nodes sent m.h.tid t' × (t'.tid ≡ t.tid)
    unfolding on_responses
    on_responses-AllBacked [] t t' h h' inside all e =
        let same = ok-injective e in
        (subst (λ x. AllBacked nodes sent m.h.tid x.0) same all, ap (λ x. x.0.tid) (sym same))
    on_responses-AllBacked (res ∷ ress) t t' h h' inside all e =
        let ((u, i), e1, k) = >>=-eq-ok (on_response counter m.h.nid res (t, h)) _ e in
        let (first, tid) = on_response-AllBacked res t u h i (inside res (inl refl)) all e1 in
        let (rest, tid') =
          on_responses-AllBacked ress u t' i h' (λ q there'. inside q (inr there')) first k in
        (rest, tid' ∙ tid)

    -- The counting of a whole message that was sent.
    pub message-AllBacked :
        (t t' : TxnInfo) (h h' : Heap)
        → AllBacked nodes sent m.h.tid t
        → on_responses counter m.h.nid m.ress (t, h) ≡ ok (t', h')
        → AllBacked nodes sent m.h.tid t' × (t'.tid ≡ t.tid)
    message-AllBacked t t' h h' = on_responses-AllBacked m.ress t t' h h' (λ q there'. there')
