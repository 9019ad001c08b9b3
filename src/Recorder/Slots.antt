-- ===== src/Recorder/Slots.antt =====
-- The next free slot of a group, after decisions: it stays above every decided slot.
use mpaxos.Prelude.{
  ℕ, ◌+◌, ◌^◌, ◌≤◌, ◌<◌, ◌≡◌, refl, Bool, false, some, List, [], ◌∷◌, arith, ◌==◌, get, get-put,
  get-put_self, nat_key, All,
}
use mpaxos.Types.{InstId, inst_key, RoundId, inst_of, Proposal}
use mpaxos.Recorder.Defs.{
  Recorder, next_or_zero, renew, decide_rid, decide_rids, record_decided, get_newest_sid,
}

-- The next slot on record, 0 for a group without one.
abbrev pub next_of : Recorder → ℕ → ℕ
next_of r gid = (next_or_zero (get r.newest gid)).sid

-- The slot number leaves room for the next.
abbrev pub Fits : RoundId → Type 0
Fits rid = rid.sid + 1 < 2 ^ 64

decide_rid_next :
    (mine : Bool) (rid : RoundId) (r : Recorder) (gid : ℕ)
    → Fits rid
    → (next_of r gid ≤ next_of (decide_rid mine rid r) gid)
      × (gid ≡ rid.gid → rid.sid < next_of (decide_rid mine rid r) gid)
unfolding decide_rid renew
decide_rid_next mine rid r gid fits =
    ground
      (arith, get-put r.newest rid.gid gid (renew mine rid (next_or_zero (get r.newest rid.gid))))

decide_rids_next :
    (mine : Bool) (rids : List RoundId) (r : Recorder) (gid : ℕ)
    → All Fits rids
    → next_of r gid ≤ next_of (decide_rids mine rids r) gid
unfolding decide_rids
decide_rids_next mine [] r gid fits = omega arith
decide_rids_next mine (rid ∷ rids) r gid fits = omega (
  arith,
  (decide_rid_next mine rid r gid fits.0).0,
  decide_rids_next mine rids (decide_rid mine rid r) gid fits.1,
)

-- The slot is marked as decided.
abbrev pub IsDecided : Recorder → RoundId → Type 0
IsDecided r rid = get r.decided (inst_of rid) ≡ some 1

decide_rid_keeps :
    (mine : Bool) (rid : RoundId) (r : Recorder) (j : InstId)
    → get r.decided j ≡ some 1
    → get (decide_rid mine rid r).decided j ≡ some 1
unfolding decide_rid
decide_rid_keeps mine rid r j h = ground (arith, get-put r.decided (inst_of rid) j 1)

decide_rids_keeps :
    (mine : Bool) (rids : List RoundId) (r : Recorder) (j : InstId)
    → get r.decided j ≡ some 1
    → get (decide_rids mine rids r).decided j ≡ some 1
unfolding decide_rids
decide_rids_keeps mine [] r j h = h
decide_rids_keeps mine (rid ∷ rids) r j h =
    decide_rids_keeps mine rids (decide_rid mine rid r) j (decide_rid_keeps mine rid r j h)

decide_rid_marks :
    (mine : Bool) (rid : RoundId) (r : Recorder) → IsDecided (decide_rid mine rid r) rid
unfolding decide_rid
decide_rid_marks mine rid r = get-put_self r.decided (inst_of rid) 1

decide_rids-All :
    (mine : Bool) (rids : List RoundId) (r : Recorder)
    → All Fits rids
    → All
        (λ rid.
          IsDecided (decide_rids mine rids r) rid
          × (rid.sid < next_of (decide_rids mine rids r) rid.gid))
        rids
unfolding decide_rids
decide_rids-All mine [] r fits = tt
decide_rids-All mine (rid ∷ rids) r fits =
    let r1 : Recorder = decide_rid mine rid r in
    (
      (
        decide_rids_keeps mine rids r1 (inst_of rid) (decide_rid_marks mine rid r),
        omega (
          arith,
          (decide_rid_next mine rid r rid.gid fits.0).1 refl,
          decide_rids_next mine rids r1 rid.gid fits.1,
        ),
      ),
      decide_rids-All mine rids r1 fits.1,
    )

-- If no slot number of the proposal is the last of the 64 bits: `record_decided` marks every slot of it
-- as decided, moves the next slot of each of its groups above it, and takes no group's next slot back.
pub record_decided_lem :
    (local : ℕ) (p : Proposal) (r : Recorder)
    → All Fits p.rids
    → All
        (λ rid.
          IsDecided (record_decided local p r) rid
          × (rid.sid < next_of (record_decided local p r) rid.gid))
        p.rids
      × ((gid : ℕ) → next_of r gid ≤ next_of (record_decided local p r) gid)
unfolding record_decided
record_decided_lem local p r fits = (
  decide_rids-All (p.nid == local) p.rids r fits,
  λ gid. decide_rids_next (p.nid == local) p.rids r gid fits,
)

-- `get_newest_sid` returns a slot that is not below the next slot on record and is on record from
-- then on, and asking twice gives the same answer.
pub get_newest_sid_lem :
    (gid : ℕ) (r : Recorder)
    → ((get_newest_sid gid r).1 ≡ (get_newest_sid gid (get_newest_sid gid r).0).1)
      × (next_of r gid ≤ (get_newest_sid gid r).1.sid)
      × (next_of (get_newest_sid gid r).0 gid ≡ (get_newest_sid gid r).1.sid)
unfolding get_newest_sid
get_newest_sid_lem gid r =
    ground (arith, get-put_self r.newest gid (record { sid = 1; is_me = false }))
