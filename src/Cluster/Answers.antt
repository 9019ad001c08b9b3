-- ===== src/Cluster/Answers.antt =====
-- What the answers that were sent say of the acceptors (libmpaxos/acceptor.c) of several nodes, in one
-- slot of which nothing is forgotten.
use mpaxos.Prelude.{
  ℕ, ◌≤◌, ◌<◌, ◌≡◌, ◌≢◌, sym, ap, subst, ◌∙◌, ◌⊎◌, inl, inr, Bool, true, false, List, [], ◌∷◌, ◌++◌,
  In, All-In, arith,
}
use mpaxos.Types.{
  InstId, RoundId, inst_of, Proposal, prop_copy, success, Response, MsgType, is_promise,
  is_accepted, MsgReply,
}
use mpaxos.Acceptor.{Acceptor}
use mpaxos.Acceptor.Views.{bid_max_of, props_of}
use mpaxos.Acceptor.Promises.{Promised, Prepared, IsFresh}
use mpaxos.Acceptor.Accepts.{Accepted, Judged, HoldsYes}

-- A yes in the slot, in an answer of one kind that was sent.
pub record Said (kind : MsgType → Bool) (i : InstId) (sent : List MsgReply) (r : MsgReply)
    (q : Response) : Type 0 where
  pub was_sent : In r sent
  pub of_kind : kind r.h.t ≡ true
  pub inside : In q r.ress
  pub is_yes : q.ack ≡ success
  pub of_slot : inst_of q.rid ≡ i

-- The answers and the tables: a promise binds its node, an accepted proposal is held; a promise with a
-- larger ballot than that of a proposal that its node accepted reports a proposal; and a node
-- promises a ballot to one transaction only.
pub record IsBound (i : InstId) (accp : ℕ → Acceptor) (sent : List MsgReply) : Type 0 where
  pub binds :
      (r : MsgReply) (q : Response)
      → Said is_promise i sent r q
      → q.rid.bid ≤ bid_max_of (accp r.h.nid) i
  pub holds :
      (r : MsgReply) (q : Response) → Said is_accepted i sent r q → props_of (accp r.h.nid) i ≢ []
  pub reports :
      (r r' : MsgReply) (q q' : Response)
      → Said is_promise i sent r q
      → Said is_accepted i sent r' q'
      → r.h.nid ≡ r'.h.nid
      → q'.rid.bid < q.rid.bid
      → q.props ≢ []
  pub single :
      (r r' : MsgReply) (q q' : Response)
      → Said is_promise i sent r q
      → Said is_promise i sent r' q'
      → r.h.nid ≡ r'.h.nid
      → q.rid.bid ≡ q'.rid.bid
      → r.h.tid ≡ r'.h.tid

-- Before the first answer.
pub silent-IsBound : (i : InstId) (accp : ℕ → Acceptor) → IsBound i accp []
silent-IsBound i accp = record {
  binds = λ r q said. absurd said.was_sent;
  holds = λ r q said. absurd said.was_sent;
  reports = λ r r' q q' said said'. absurd said.was_sent;
  single = λ r r' q q' said said'. absurd said.was_sent;
}

-- Between two tables of a node: the promise of the slot is not lowered, and it stays filled.
pub record Keeps (i : InstId) (a b : Acceptor) : Type 0 where
  pub bid : bid_max_of a i ≤ bid_max_of b i
  pub filled : props_of a i ≢ [] → props_of b i ≢ []

pub IsBound-Keeps :
    (i : InstId) (accp accp' : ℕ → Acceptor) (sent : List MsgReply)
    → ((k : ℕ) → Keeps i (accp k) (accp' k))
    → IsBound i accp sent
    → IsBound i accp' sent
IsBound-Keeps i accp accp' sent keeps b = record {
  binds = λ r q said. omega (arith, b.binds r q said, (keeps r.h.nid).bid);
  holds = λ r q said. (keeps r.h.nid).filled (b.holds r q said);
  reports = b.reports;
  single = b.single;
}

Said-cases :
    (kind : MsgType → Bool) (i : InstId) (sent : List MsgReply) (x r : MsgReply) (q : Response)
    → Said kind i (x ∷ sent) r q
    → (r ≡ x) ⊎ Said kind i sent r q
Said-cases kind i sent x r q said = elim said.was_sent [
  | inl e ↦ inl e
  | inr there ↦ inr (record {
    was_sent = there;
    of_kind = said.of_kind;
    inside = said.inside;
    is_yes = said.is_yes;
    of_slot = said.of_slot;
  })
]

append_filled : (before after : List Proposal) (p : Proposal) → before ++ p ∷ after ≢ []
append_filled [] after p e = cc
append_filled (x ∷ before) after p e = cc

wrong_kind : {b : Bool} → b ≡ true → b ≡ false → ⊥
wrong_kind e f = cc

module _ (i : InstId) (accp accp' : ℕ → Acceptor) (sent : List MsgReply) (rep : MsgReply)
    (keeps : (k : ℕ) → Keeps i (accp k) (accp' k)) (b : IsBound i accp sent) where
  module _ (rids : List RoundId) (not_accepted : is_accepted rep.h.t ≡ false)
      (p : Prepared rids (accp rep.h.nid) (accp' rep.h.nid) rep.ress) where
    -- The same of an answer that is the new one.
    as_new_promise : (r : MsgReply) → r ≡ rep → Prepared rids (accp r.h.nid) (accp' r.h.nid) r.ress
    as_new_promise r e = subst (λ x. Prepared rids (accp x.h.nid) (accp' x.h.nid) x.ress) (sym e) p

    no_accept : {r : MsgReply} → r ≡ rep → is_accepted r.h.t ≡ true → ⊥
    no_accept e yes_a = wrong_kind (ap (λ x. is_accepted x.h.t) (sym e) ∙ yes_a) not_accepted

    -- A new promise to a ballot, and an old one to the same.
    not_twice :
        (r r' : MsgReply) (q q' : Response)
        → r ≡ rep
        → Said is_promise i (rep ∷ sent) r q
        → Said is_promise i sent r' q'
        → r.h.nid ≡ r'.h.nid
        → q.rid.bid ≢ q'.rid.bid
    not_twice r r' q q' e said said' same equal =
        let larger =
          All-In (IsFresh (accp r.h.nid)) r.ress (as_new_promise r e).fresh said.inside
            said.is_yes in
        let larger' : bid_max_of (accp r'.h.nid) i < q.rid.bid =
          subst (λ n. bid_max_of (accp n) i < q.rid.bid) same
            (subst (λ j. bid_max_of (accp r.h.nid) j < q.rid.bid) said.of_slot larger) in
        omega (arith, larger', b.binds r' q' said', equal)

    pub promised-IsBound : IsBound i accp' (rep ∷ sent)
    promised-IsBound = record {
      binds = λ r q said. elim (Said-cases is_promise i sent rep r q said) [
        | inl e ↦
            subst (λ j. q.rid.bid ≤ bid_max_of (accp' r.h.nid) j) said.of_slot
              ((All-In (Promised (accp' r.h.nid)) r.ress (as_new_promise r e).promises
                  said.inside).yes_kept
                said.is_yes)
        | inr old ↦ old_b.binds r q old
      ];
      holds = λ r q said. elim (Said-cases is_accepted i sent rep r q said) [
        | inl e ↦ absurd (no_accept e said.of_kind)
        | inr old ↦ old_b.holds r q old
      ];
      reports = λ r r' q q' said said' same less.
          elim (Said-cases is_accepted i sent rep r' q' said') [
            | inl e ↦ absurd (no_accept e said'.of_kind)
            | inr old' ↦ elim (Said-cases is_promise i sent rep r q said) [
              | inl e ↦
                  let told =
                    (All-In (Promised (accp' r.h.nid)) r.ress (as_new_promise r e).promises
                      said.inside).reports in
                  let full : props_of (accp' r.h.nid) i ≢ [] =
                    subst (λ n. props_of (accp' n) i ≢ []) (sym same) (old_b.holds r' q' old') in
                  λ none_told.
                    full (ap (props_of (accp' r.h.nid)) (sym said.of_slot) ∙ sym told ∙ none_told)
              | inr old ↦ b.reports r r' q q' old old' same less
            ]
          ];
      single = λ r r' q q' said said' same equal. elim (Said-cases is_promise i sent rep r q said) [
        | inl e ↦ elim (Said-cases is_promise i sent rep r' q' said') [
          | inl e' ↦ ap (λ x. x.h.tid) (e ∙ sym e')
          | inr old' ↦ absurd (not_twice r r' q q' e said old' same equal)
        ]
        | inr old ↦ elim (Said-cases is_promise i sent rep r' q' said') [
          | inl e' ↦ absurd (not_twice r' r q' q e' said' old (sym same) (sym equal))
          | inr old' ↦ b.single r r' q q' old old' same equal
        ]
      ];
    }
      where
        old_b : IsBound i accp' sent
        old_b = IsBound-Keeps i accp accp' sent keeps b

  module _ (prop : Proposal) (rids : List RoundId) (not_promise : is_promise rep.h.t ≡ false)
      (p : Accepted prop rids (accp rep.h.nid) (accp' rep.h.nid) rep.ress) where
    as_new_accept :
        (r : MsgReply) → r ≡ rep → Accepted prop rids (accp r.h.nid) (accp' r.h.nid) r.ress
    as_new_accept r e =
        subst (λ x. Accepted prop rids (accp x.h.nid) (accp' x.h.nid) x.ress) (sym e) p

    no_promise : {r : MsgReply} → r ≡ rep → is_promise r.h.t ≡ true → ⊥
    no_promise e yes_p = wrong_kind (ap (λ x. is_promise x.h.t) (sym e) ∙ yes_p) not_promise

    -- A new yes to an accept does not go below a promise.
    not_below :
        (r r' : MsgReply) (q q' : Response)
        → r' ≡ rep
        → Said is_promise i sent r q
        → Said is_accepted i (rep ∷ sent) r' q'
        → r.h.nid ≡ r'.h.nid
        → q.rid.bid ≤ q'.rid.bid
    not_below r r' q q' e said said' same =
        let acc = as_new_accept r' e in
        let reached =
          (All-In (Judged (accp' r'.h.nid)) r'.ress acc.judged said'.inside).yes_reaches
            said'.is_yes in
        let reached' : bid_max_of (accp' r'.h.nid) i ≤ q'.rid.bid =
          subst (λ j. bid_max_of (accp' r'.h.nid) j ≤ q'.rid.bid) said'.of_slot reached in
        let bound : q.rid.bid ≤ bid_max_of (accp r'.h.nid) i =
          subst (λ n. q.rid.bid ≤ bid_max_of (accp n) i) same (b.binds r q said) in
        omega (arith, reached', bound, acc.bids i)

    pub accepted-IsBound : IsBound i accp' (rep ∷ sent)
    accepted-IsBound = record {
      binds = λ r q said. elim (Said-cases is_promise i sent rep r q said) [
        | inl e ↦ absurd (no_promise e said.of_kind)
        | inr old ↦ old_b.binds r q old
      ];
      holds = λ r q said. elim (Said-cases is_accepted i sent rep r q said) [
        | inl e ↦
            let (before, after, f) =
              All-In (HoldsYes prop (accp' r.h.nid)) r.ress (as_new_accept r e).holds said.inside
                said.is_yes in
            λ none_held.
              append_filled before after (prop_copy prop)
                (sym f ∙ ap (props_of (accp' r.h.nid)) said.of_slot ∙ none_held)
        | inr old ↦ old_b.holds r q old
      ];
      reports = λ r r' q q' said said' same less. elim (Said-cases is_promise i sent rep r q said) [
        | inl e ↦ absurd (no_promise e said.of_kind)
        | inr old ↦ elim (Said-cases is_accepted i sent rep r' q' said') [
          | inl e' ↦ absurd (omega (arith, not_below r r' q q' e' old said' same, less))
          | inr old' ↦ b.reports r r' q q' old old' same less
        ]
      ];
      single = λ r r' q q' said said' same equal. elim (Said-cases is_promise i sent rep r q said) [
        | inl e ↦ absurd (no_promise e said.of_kind)
        | inr old ↦ elim (Said-cases is_promise i sent rep r' q' said') [
          | inl e' ↦ absurd (no_promise e' said'.of_kind)
          | inr old' ↦ b.single r r' q q' old old' same equal
        ]
      ];
    }
      where
        old_b : IsBound i accp' sent
        old_b = IsBound-Keeps i accp accp' sent keeps b
