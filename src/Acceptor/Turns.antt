-- ===== src/Acceptor/Turns.antt =====
-- One round of a message: what a turn of the two handlers' loops does to its slot, to the other
-- slots, and what it answers.
use mpaxos.Prelude.{
  ℕ, ◌≤◌, ◌<◌, ◌≡◌, refl, sym, ◌⊎◌, inl, inr, ◌∙◌, subst, ok-injective, false, List, [], ◌∷◌, ◌++◌,
  arith, leb, if◌then◌else◌, Bool-cases, leb→le, ok, abort, put,
}
use mpaxos.Types.{
  InstId, inst_key, same_inst, same_inst_iff, RoundId, inst_of, Proposal, prop_copy, Ack, success,
  err_bid, Response,
}
use native.Mathlib.Decide.{dec_lt}
use mpaxos.Recorder.{Flush}
use mpaxos.Acceptor.Defs.{
  AccpInfo, Acceptor, get_accp_info, promise_bid, prepare_rid, Store, accept_rid,
}
use mpaxos.Acceptor.Views.{
  info_of, bid_max_of, props_of, info_of-put, get_accp_info_entry, get_accp_info_table,
}

-- The table after slot `i` was entered and its entry replaced.
pub info_of_written :
    (a : Acceptor) (i j : InstId) (info : AccpInfo)
    → info_of (put (get_accp_info i a).0 i info) j ≡ (if same_inst i j then info else info_of a j)
info_of_written a i j info =
    rw (info_of-put (get_accp_info i a).0 i j info, get_accp_info_table i a j)

-- The ballot test accepts exactly the larger ballots, and never lowers the promise.
pub promise_bid_larger : (bid max : ℕ) → max < bid → promise_bid bid max ≡ ok (success, bid)
unfolding promise_bid
promise_bid_larger bid max h = ground arith

pub promise_bid_smaller : (bid max : ℕ) → bid < max → promise_bid bid max ≡ ok (err_bid, max)
unfolding promise_bid
promise_bid_smaller bid max h = ground arith

pub promise_bid_equal : (bid : ℕ) → promise_bid bid bid ≡ abort
unfolding promise_bid
promise_bid_equal bid = ground arith

pub data Order (m n : ℕ) : Type 0 where
  less : m < n → Order m n
  same : m ≡ n → Order m n
  more : n < m → Order m n

pub order : (m n : ℕ) → Order m n
order m n = elim (dec_lt m n) [
  | yes h ↦ less h
  | no h ↦ elim (dec_lt n m) [ yes k ↦ more k | no k ↦ same (omega arith) ]
]

-- What a turn of `handle_msg_prepare` does when it returns.
pub record PrepareTurn (rid : RoundId) (a a' : Acceptor) (res : List Response) : Type 0 where
  pub ack : Ack
  pub answer : res ≡ (record { rid = rid; ack = ack; props = props_of a (inst_of rid) }) ∷ []
  pub kept : (j : InstId) → props_of a' j ≡ props_of a j
  pub other : (j : InstId) → same_inst (inst_of rid) j ≡ false → bid_max_of a' j ≡ bid_max_of a j
  pub raised :
      ((ack ≡ success)
        × (bid_max_of a (inst_of rid) < rid.bid)
        × (bid_max_of a' (inst_of rid) ≡ rid.bid))
      ⊎ ((ack ≡ err_bid)
          × (rid.bid < bid_max_of a (inst_of rid))
          × (bid_max_of a' (inst_of rid) ≡ bid_max_of a (inst_of rid)))

module _ (rid : RoundId) (a : Acceptor) where
  pub written : ℕ → Acceptor
  written bid =
      put (get_accp_info (inst_of rid) a).0 (inst_of rid)
        (record (info_of a (inst_of rid)) { bid_max = bid })

  unfoldable pub answered : Ack → List Response
  answered ack = (record { rid = rid; ack = ack; props = props_of a (inst_of rid) }) ∷ []

  pub prepare_rid_larger :
      bid_max_of a (inst_of rid) < rid.bid
      → prepare_rid rid a ≡ ok (written rid.bid, answered success)
  unfolding prepare_rid written answered
  prepare_rid_larger h = rw (get_accp_info_entry (inst_of rid) a, promise_bid_larger _ _ h)

  pub prepare_rid_smaller :
      rid.bid < bid_max_of a (inst_of rid)
      → prepare_rid rid a ≡ ok (written (bid_max_of a (inst_of rid)), answered err_bid)
  unfolding prepare_rid written answered
  prepare_rid_smaller h = rw (get_accp_info_entry (inst_of rid) a, promise_bid_smaller _ _ h)

  pub prepare_rid_equal : rid.bid ≡ bid_max_of a (inst_of rid) → prepare_rid rid a ≡ abort
  unfolding prepare_rid
  prepare_rid_equal h = rw (get_accp_info_entry (inst_of rid) a, ← h, promise_bid_equal)

  info_of_after :
      (bid : ℕ) (j : InstId)
      → info_of (written bid) j ≡ (
          if same_inst (inst_of rid) j
          then record (info_of a (inst_of rid)) { bid_max = bid }
          else info_of a j)
  unfolding written
  info_of_after bid j = info_of_written a (inst_of rid) j _

  turn_kept : (bid : ℕ) (j : InstId) → props_of (written bid) j ≡ props_of a j
  turn_kept bid j = ground (arith, info_of_after bid j, same_inst_iff (inst_of rid) j)

  turn_other :
      (bid : ℕ) (j : InstId)
      → same_inst (inst_of rid) j ≡ false
      → bid_max_of (written bid) j ≡ bid_max_of a j
  turn_other bid j h = ground (arith, info_of_after bid j)

  turn_raised : (bid : ℕ) → bid_max_of (written bid) (inst_of rid) ≡ bid
  turn_raised bid = ground (arith, info_of_after bid (inst_of rid))

  -- Every turn that returns is of one of two kinds.
  pub prepare_rid_turn :
      (a' : Acceptor) (res : List Response)
      → prepare_rid rid a ≡ ok (a', res)
      → PrepareTurn rid a a' res
  unfolding answered
  prepare_rid_turn a' res e = elim (order rid.bid (bid_max_of a (inst_of rid))) [
    | less h ↦ turn_of err_bid _ (prepare_rid_smaller h) (inr (refl, h, turn_raised _))
    | same h ↦ absurd (cc (prepare_rid_equal h))
    | more h ↦ turn_of success _ (prepare_rid_larger h) (inl (refl, h, turn_raised _))
  ]
    where
      turn_of :
          (ack : Ack) (bid : ℕ)
          → prepare_rid rid a ≡ ok (written bid, answered ack)
          → (((ack ≡ success)
                × (bid_max_of a (inst_of rid) < rid.bid)
                × (bid_max_of (written bid) (inst_of rid) ≡ rid.bid))
              ⊎ ((ack ≡ err_bid)
                  × (rid.bid < bid_max_of a (inst_of rid))
                  × (bid_max_of (written bid) (inst_of rid) ≡ bid_max_of a (inst_of rid))))
          → PrepareTurn rid a a' res
      turn_of ack bid f raised =
          subst (λ x. PrepareTurn rid a x.0 x.1) (ok-injective (sym f ∙ e))
            (record {
              ack = ack;
              answer = refl;
              kept = turn_kept bid;
              other = turn_other bid;
              raised = raised;
            })

-- What a turn of `handle_msg_accept` does.
pub record AcceptTurn (prop : Proposal) (rid : RoundId) (a a' : Acceptor) (res : List Response)
    : Type 0 where
  pub ack : Ack
  pub answer : res ≡ (record { rid = rid; ack = ack; props = [] }) ∷ []
  pub bids : (j : InstId) → bid_max_of a' j ≡ bid_max_of a j
  pub other : (j : InstId) → same_inst (inst_of rid) j ≡ false → props_of a' j ≡ props_of a j
  pub pushed :
      ((ack ≡ success)
        × (bid_max_of a (inst_of rid) ≤ rid.bid)
        × (props_of a' (inst_of rid) ≡ props_of a (inst_of rid) ++ prop_copy prop ∷ []))
      ⊎ ((ack ≡ err_bid)
          × (rid.bid < bid_max_of a (inst_of rid))
          × (props_of a' (inst_of rid) ≡ props_of a (inst_of rid)))

module _ (flush : Flush) (prop : Proposal) (rid : RoundId) (s : Store) where
  slot : InstId
  slot = inst_of rid

  pushed_info : AccpInfo
  pushed_info = record (info_of s.accp slot) {
    arr_prop = props_of s.accp slot ++ prop_copy prop ∷ [];
  }

  accepts :
      bid_max_of s.accp slot ≤ rid.bid
      → AcceptTurn prop rid s.accp
          (put (get_accp_info slot s.accp).0 slot pushed_info)
          ((record { rid = rid; ack = success; props = [] }) ∷ [])
  unfolding slot pushed_info
  accepts h = record {
    ack = success;
    answer = refl;
    bids = λ j. ground (arith, table j, same_inst_iff slot j);
    other = λ j ne. ground (arith, table j);
    pushed = inl (refl, h, ground (arith, table slot));
  }
    where
      table :
          (j : InstId)
          → info_of (put (get_accp_info slot s.accp).0 slot pushed_info) j
            ≡ (if same_inst slot j then pushed_info else info_of s.accp j)
      table j = info_of_written s.accp slot j pushed_info

  refuses :
      rid.bid < bid_max_of s.accp slot
      → AcceptTurn prop rid s.accp
          (get_accp_info slot s.accp).0
          ((record { rid = rid; ack = err_bid; props = [] }) ∷ [])
  unfolding slot
  refuses h = record {
    ack = err_bid;
    answer = refl;
    bids = λ j. ground (arith, get_accp_info_table slot s.accp j);
    other = λ j ne. ground (arith, get_accp_info_table slot s.accp j);
    pushed = inr (refl, h, ground (arith, get_accp_info_table slot s.accp slot));
  }

  pub accept_rid_turn :
      AcceptTurn prop rid s.accp
        (accept_rid flush prop rid s).0.accp
        (accept_rid flush prop rid s).1
  unfolding accept_rid slot pushed_info
  accept_rid_turn = elim (Bool-cases (leb (bid_max_of s.accp (inst_of rid)) rid.bid)) [
    | inl h ↦ rw (get_accp_info_entry (inst_of rid) s.accp, h) (accepts (leb→le _ _ h))
    | inr h ↦ rw (get_accp_info_entry (inst_of rid) s.accp, h) (refuses (ground arith))
  ]
