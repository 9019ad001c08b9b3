-- ===== src/Node/Ballots.antt =====
-- The rounds of a new transaction: the second loop of `mpaxos_start_request` (libmpaxos/controller.c).
use mpaxos.Prelude.{
  ℕ, zero, suc, ◌+◌, ◌*◌, ◌%◌, ◌^◌, ◌<◌, ◌≡◌, sym, ◌∙◌, subst, ap, some, some-injective, List, [],
  ◌∷◌, arith, length, get_elem?,
}
use mpaxos.Types.{RoundId}
use mpaxos.Node.Requests.{to_ballot, assign_bids}

-- As long as the ballots fit an `int`: round `k` is in slot `k` of those that were picked, and its ballot
-- is the base with the number of retries added `k + 1` times, so that the groups of a request that is
-- retried get different ballots.
pub assign_bids_lem :
    (n_retry base : ℕ) (slots : List (ℕ × ℕ)) (k : ℕ) (rid : RoundId)
    → base + n_retry * length slots < 2 ^ 31
    → get_elem? (assign_bids n_retry base slots) k ≡ some rid
    → (rid.bid ≡ base + n_retry * suc k) × (get_elem? slots k ≡ some (rid.gid, rid.sid))
unfolding assign_bids
assign_bids_lem n_retry base [] k rid fits at = absurd (cc)
assign_bids_lem n_retry base ((gid, sid) ∷ slots) zero rid fits at =
    let same = some-injective _ _ at in
    (
      sym (ap (λ r. r.bid) same)
          ∙ (let e : to_ballot ((base + n_retry) % 2 ^ 32) ≡ base + n_retry * 1 = ground arith in
              e),
      ap (λ r. some (r.gid, r.sid)) same,
    )
assign_bids_lem n_retry base ((gid, sid) ∷ slots) (suc k) rid fits at =
    let next : (base + n_retry) % 2 ^ 32 ≡ base + n_retry = omega arith in
    let (bid, slot) =
      assign_bids_lem n_retry (base + n_retry) slots k rid (omega arith)
        (subst (λ b. get_elem? (assign_bids n_retry b slots) k ≡ some rid) next at) in
    (
      bid
          ∙ (let e : base + n_retry + n_retry * suc k ≡ base + n_retry * suc (suc k) =
                omega arith in
              e),
      slot,
    )
