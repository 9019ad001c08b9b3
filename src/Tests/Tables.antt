-- ===== src/Tests/Tables.antt =====
-- The recorder, the queue, the view and the coder at concrete inputs.
use mpaxos.Prelude.{
  ℕ, ◌%◌, ◌≤◌, ◌<◌, ◌≡◌, ◌≢◌, refl, ◌⊎◌, List, [], ◌∷◌, ◌++◌, arith, ok, fault, nat_key, All,
  length,
}
use mpaxos.Types.{Proposal, proposal_init, CodedValue}
use mpaxos.Recorder.{recorder_init, record_decided}
use mpaxos.Recorder.Slots.{next_of, IsDecided, record_decided_lem}
use mpaxos.Coding.{rs_encode, read_shares, read_at, label, joined, values, rs_encode_lem}

abbrev decided : Proposal
decided = record proposal_init {
  rids = (record { gid = 1; sid = 4; bid = 2 }) ∷ (record { gid = 3; sid = 1; bid = 2 }) ∷ [];
  nid = 2;
}

record_decided_lem_example :
    All
      (λ rid.
        IsDecided (record_decided 2 decided recorder_init) rid
        × (rid.sid < next_of (record_decided 2 decided recorder_init) rid.gid))
      decided.rids
    × ((gid : ℕ) → next_of recorder_init gid ≤ next_of (record_decided 2 decided recorder_init) gid)
record_decided_lem_example =
    record_decided_lem 2 decided recorder_init (omega arith, (omega arith, tt))

-- A coder that makes one share of a zero byte.
abbrev parity : ℕ → ℕ → List (List ℕ) → List (List ℕ)
parity k n primary = (0 ∷ []) ∷ []

too_short : rs_encode parity (1 ∷ 2 ∷ 3 ∷ []) 2 3 ≡ fault
unfolding rs_encode read_shares read_at label
too_short = refl

rs_encode_lem_example :
    ((4 % 2 ≡ 0)
      × (ss : List (List ℕ)) × (cvs : List CodedValue) × (rs_encode parity (1 ∷ 2 ∷ 3 ∷ 4 ∷ []) 2 3
          ≡ ok cvs)
      × (values cvs ≡ ss ++ parity 2 3 ss)
      × (length ss ≡ 2)
      × (joined ss ≡ 1 ∷ 2 ∷ 3 ∷ 4 ∷ []))
    ⊎ ((4 % 2 ≢ 0) × (rs_encode parity (1 ∷ 2 ∷ 3 ∷ 4 ∷ []) 2 3 ≡ fault))
rs_encode_lem_example = rs_encode_lem parity (1 ∷ 2 ∷ 3 ∷ 4 ∷ []) 2 3 (omega arith)
