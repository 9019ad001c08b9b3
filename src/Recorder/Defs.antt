-- ===== src/Recorder/Defs.antt =====
-- The state and the operations of libmpaxos/recorder.c.
use mpaxos.Prelude.{
  ℕ, ◌+◌, ◌%◌, ◌^◌, Bool, false, Option, none, some, List, [], ◌∷◌, ◌==◌, leb, if◌then◌else◌, Dict,
  get, put, nat_key,
}
use mpaxos.Types.{InstId, inst_key, RoundId, inst_of, Proposal, prop_copy}

-- `flush__`: ABANDON, MEM, ASYNC, SYNC.
pub data Flush : Type 0 where
  abandon mem async sync : Flush

-- `nextsid_t`
pub record NextSid : Type 0 where
  pub sid : ℕ
  pub is_me : Bool

-- `ht_value_`, `ht_decided_` and `ht_newest_`
pub record Recorder : Type 0 where
  pub values : Dict InstId Proposal
  pub decided : Dict InstId ℕ
  pub newest : Dict ℕ NextSid

abbrev pub recorder_init : Recorder
recorder_init = record { values = []; decided = []; newest = [] }

-- `record_accepted`: only MEM keeps the value; the other modes write nothing.
unfoldable pub record_accepted : Flush → RoundId → Proposal → Recorder → Recorder
record_accepted Flush.mem rid prop r = record r {
  values = put r.values (inst_of rid) (prop_copy prop);
}
record_accepted _ rid prop r = r

-- `rid->sid + 1` on a `uint64_t`
abbrev pub next_slot : ℕ → ℕ
next_slot sid = (sid + 1) % 2 ^ 64

-- The entry that `record_decided` finds or adds: a missing group starts at slot 0.
abbrev pub next_or_zero : Option NextSid → NextSid
next_or_zero none = record { sid = 0; is_me = false }
next_or_zero (some n) = n

-- The renewal of the newest slot under `mx_newest_`.
unfoldable pub renew : Bool → RoundId → NextSid → NextSid
renew mine rid n = if leb n.sid rid.sid then record { sid = next_slot rid.sid; is_me = mine } else n

-- One turn of the loop of `record_decided`.
unfoldable pub decide_rid : Bool → RoundId → Recorder → Recorder
decide_rid mine rid r = record r {
  decided = put r.decided (inst_of rid) 1;
  newest = put r.newest rid.gid (renew mine rid (next_or_zero (get r.newest rid.gid)));
}

unfoldable pub decide_rids : Bool → List RoundId → Recorder → Recorder
decide_rids mine [] r = r
decide_rids mine (rid ∷ rids) r = decide_rids mine rids (decide_rid mine rid r)

-- `record_decided`, on the node `local`.
unfoldable pub record_decided : ℕ → Proposal → Recorder → Recorder
unfolding decide_rids
record_decided local prop r = decide_rids (prop.nid == local) prop.rids r

-- `get_newest_sid`: a missing group is entered with slot 1.
abbrev newest_or_one : Option NextSid → NextSid
newest_or_one none = record { sid = 1; is_me = false }
newest_or_one (some n) = n

abbrev enter_newest : Option NextSid → ℕ → Recorder → Recorder
enter_newest none gid r = record r { newest = put r.newest gid (record { sid = 1; is_me = false }) }
enter_newest (some _) gid r = r

unfoldable pub get_newest_sid : ℕ → Recorder → Recorder × NextSid
get_newest_sid gid r =
    let found = get r.newest gid in (enter_newest found gid r, newest_or_one found)
