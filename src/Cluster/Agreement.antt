-- ===== src/Cluster/Agreement.antt =====
-- At most one transaction is decided in a slot: libmpaxos/proposer.c and acceptor.c on several nodes.
use mpaxos.Prelude.{
  ℕ, ◌^◌, ◌<◌, ◌≡◌, sym, ap, ◌∙◌, Bool, true, false, inl, inr, none, some, some-injective, List, [],
  ◌∷◌, In, All-In, arith, ◌==◌, if◌then◌else◌, Dict, get, nat_key, length, map,
}
use mpaxos.Types.{InstId, inst_of, RoundId, Response, MsgType, is_promise, is_accepted, MsgReply}
use mpaxos.Acceptor.Turns.{less, same, more, order}
use mpaxos.Proposer.{GroupInfo, TxnInfo, yes_most, check_group}
use mpaxos.Proposer.Majority.{HasMajority, check_group-yes, check_majority-yes}
use mpaxos.Proposer.Tally.{round_of}
use mpaxos.Proposer.Quorum.{majorities_meet, promises_meet}
use mpaxos.Node.{Env, groups}
use mpaxos.Cluster.Defs.{Cluster, Reach}
use mpaxos.Cluster.Answers.{Said}
use mpaxos.Cluster.Groups.{Answer, IsBacked}
use mpaxos.Cluster.Invariant.{Won, Sound}
use mpaxos.Cluster.Steps.{Reach-Sound}
use mpaxos.Cluster.Origins.{requests, HaveOwnIds, same_request}

-- The transaction has a group in the slot.
pub record IsIn (i : InstId) (t : TxnInfo) : Type 0 where
  pub group : GroupInfo
  pub gid : ℕ
  pub there : get t.ht_ginfo gid ≡ some group
  pub of_slot : inst_of (round_of group) ≡ i

-- And it was prepared there: the group has a majority of promises, and none of them reported a proposal,
-- so that the transaction proposes its own.
pub record IsOwnIn (members : List ℕ) (i : InstId) (t : TxnInfo) : Type 0 where
  pub place : IsIn i t
  pub prepared : check_group (λ g. length members) true place.group ≡ yes_most
  pub own : t.prop_max ≡ none

-- A hash table yields all its entries.
abbrev pub YieldsAll : Env → Type 0
YieldsAll env = (gs : List GroupInfo) (g : GroupInfo) → In g gs → In g (env.order gs)

found_value :
    (d : Dict ℕ GroupInfo) (k : ℕ) (g : GroupInfo) → get d k ≡ some g → In g (map (λ e. e.1) d)
unfolding get
found_value [] k g e = absurd (cc)
found_value ((j, u) ∷ d) k g e = by_key (j == k) (found_value d k g) e
  where
    by_key :
        (b : Bool)
        → (get d k ≡ some g → In g (map (λ e. e.1) d))
        → (if b then some u else get d k) ≡ some g
        → In g (u ∷ map (λ e. e.1) d)
    by_key true rest e = inl (some-injective _ _ (sym e))
    by_key false rest e = inr (rest e)

Answer-Said :
    (kind : MsgType → Bool) (i : InstId) (sent : List MsgReply) (tid nid : ℕ) (rid : RoundId)
    (q : Response) (a : Answer kind sent tid nid rid q)
    → inst_of rid ≡ i
    → Said kind i sent a.reply q
Answer-Said kind i sent tid nid rid q a of_slot = record {
  was_sent = a.was_sent;
  of_kind = a.of_kind;
  inside = a.inside;
  is_yes = a.is_yes;
  of_slot = ap inst_of a.of_round ∙ of_slot;
}

module _ (env : Env) (members : List ℕ) (i : InstId) (all : YieldsAll env) (c : Cluster)
    (s : Sound env members i c) where
  -- The group of a transaction that was decided.
  winning_group :
      (t : TxnInfo) (place : IsIn i t)
      → In t c.decided
      → IsBacked members c.sent t.tid t.prop_max place.group
        × (check_group (λ g. length members) false place.group ≡ yes_most)
  winning_group t place won =
      let w = All-In (Won env members c.sent) c.decided s.won won in
      let many = (check_majority-yes (λ g. length members) false (groups env t)).0 w.accepted in
      (
        w.backed place.gid place.group place.there,
        (check_group-yes (λ g. length members) false place.group).1 (
            All-In (HasMajority (λ g. length members) false) (groups env t) many
              (all _ place.group (found_value t.ht_ginfo place.gid place.group place.there))),
      )

  -- A majority that accepted a ballot, and one that promised a larger one without a report, exclude
  -- each other.
  not_smaller :
      (t t' : TxnInfo) (place : IsIn i t) (own : IsOwnIn members i t')
      → In t c.decided
      → In t' c.decided
      → ¬ (place.group.bid < own.place.group.bid)
  not_smaller t t' place own won won' smaller =
      let (b, accepted) = winning_group t place won in
      let (b', accepted') = winning_group t' own.place won' in
      let (k, nid, at, p, q) =
        majorities_meet members own.place.group place.group b'.tallied b.tallied own.prepared
          accepted in
      let (res', a', none_told) = b'.promises nid p in
      let (res, a) = b.accepteds nid q in
      s.bound.reports a'.reply a.reply res' res
        (Answer-Said is_promise i c.sent t'.tid nid (round_of own.place.group) res' a'
          own.place.of_slot)
        (Answer-Said is_accepted i c.sent t.tid nid (round_of place.group) res a place.of_slot)
        (a'.by_node ∙ sym a.by_node)
        (omega (arith, smaller, ap (λ r. r.bid) a.of_round, ap (λ r. r.bid) a'.of_round))
        (none_told own.own)

  one_decided :
      (t t' : TxnInfo)
      → In t c.decided
      → In t' c.decided
      → IsOwnIn members i t
      → IsOwnIn members i t'
      → t.tid ≡ t'.tid
  one_decided t t' won won' own own' = elim (order own.place.group.bid own'.place.group.bid) [
    | less smaller ↦ absurd (not_smaller t t' own.place own' won won' smaller)
    | more larger ↦ absurd (not_smaller t' t own'.place own won' won larger)
    | same equal ↦
        let (b, accepted) = winning_group t own.place won in
        let (b', accepted') = winning_group t' own'.place won' in
        let (nid, p, p') =
          promises_meet members own.place.group own'.place.group b.tallied b'.tallied own.prepared
            own'.prepared in
        let (res, a, none_told) = b.promises nid p in
        let (res', a', none_told') = b'.promises nid p' in
        let bids : res.rid.bid ≡ res'.rid.bid =
          ap (λ r. r.bid) a.of_round ∙ equal ∙ sym (ap (λ r. r.bid) a'.of_round) in
        sym a.for_txn
        ∙ s.bound.single a.reply a'.reply res res'
            (Answer-Said is_promise i c.sent t.tid nid (round_of own.place.group) res a
              own.place.of_slot)
            (Answer-Said is_promise i c.sent t'.tid nid (round_of own'.place.group) res' a'
              own'.place.of_slot)
            (a.by_node ∙ sym a'.by_node) bids
        ∙ a'.for_txn
  ]

module _ (env : Env) (members : List ℕ) (i : InstId) (c : Cluster) (t t' : TxnInfo)
    (fits : length members < 2 ^ 32) (all : YieldsAll env) (run : Reach env members i c)
    (won : In t c.decided) (won' : In t' c.decided) where
  -- In any run of fewer than 2^32 nodes in which the slot is not forgotten, where hash tables yield all
  -- their entries and the requests that were started have ids of their own: two transactions that were
  -- decided in the slot, each prepared by a majority and with its own proposal, have the same id and the
  -- same request, and so the same value.
  pub agreement :
      HaveOwnIds (requests run)
      → IsOwnIn members i t
      → IsOwnIn members i t'
      → (t.tid ≡ t'.tid) × (t.req ≡ t'.req)
  agreement ids own own' =
      let same =
        one_decided env members i all c (Reach-Sound env members i fits run) t t' won won' own
          own' in
      (same, same_request env members i run t t' ids won won' same)

  -- In any run of fewer than 2^32 nodes in which the slot is not forgotten, where hash tables yield all
  -- their entries: of two transactions that were decided in the slot, prepared or not, one that was
  -- prepared by a majority and has its own proposal does not have the larger ballot.
  pub decided_stays :
      (place : IsIn i t) (own : IsOwnIn members i t') → ¬ (place.group.bid < own.place.group.bid)
  decided_stays place own =
      not_smaller env members i all c (Reach-Sound env members i fits run) t t' place own won won'
