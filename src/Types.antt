-- ===== src/Types.antt =====
-- The wire and bookkeeping types: libmpaxos/mpaxos.proto, libmpaxos/internal_types.h and
-- include/mpaxos/mpaxos-types.h. Identifiers are unsigned words, kept as plain numbers.
use mpaxos.Prelude.{
  ℕ, ◌≡◌, ◌↔◌, Bool, true, false, ◌&&◌, Option, none, List, [], ◌∷◌, map, arith, ◌==◌, Key, Result,
  fault, ok,
}

-- `message instid_t`: one slot of one group.
pub record InstId : Type 0 where
  pub gid : ℕ
  pub sid : ℕ

abbrev pub same_inst : InstId → InstId → Bool
same_inst a b = (a.gid == b.gid) && (a.sid == b.sid)

pub same_inst_iff : (a b : InstId) → (same_inst a b ≡ true) ↔ (a ≡ b)
same_inst_iff a b = ground arith

instance abbrev pub inst_key : Key InstId
inst_key = record { same = same_inst; same_iff = same_inst_iff }

-- `message roundid_t`: a ballot in a slot.
pub record RoundId : Type 0 where
  pub gid : ℕ
  pub sid : ℕ
  pub bid : ℕ

-- `memset(&iid, 0, …); iid.gid = rid->gid; iid.sid = rid->sid;`
abbrev pub inst_of : RoundId → InstId
inst_of r = record { gid = r.gid; sid = r.sid }

-- `message coded_value_t`: one share of an erasure-coded value.
pub record CodedValue : Type 0 where
  pub sz : ℕ
  pub k : ℕ
  pub n : ℕ
  pub id : ℕ
  pub value : List ℕ

-- `message proposal`. The generated struct has `has_value` beside the optional bytes.
pub record Proposal : Type 0 where
  pub rids : List RoundId
  pub tid : ℕ
  pub nid : ℕ
  pub has_value : Bool
  pub value : List ℕ
  pub coded_value : Option CodedValue

-- `prop->rids[0]->bid`: with no rounds the read is out of bounds.
unfoldable pub first_bid : Proposal → Result ℕ
first_bid p = elim p.rids [ [] ↦ fault | r ∷ _ ↦ ok r.bid ]

-- `mpaxos__proposal__init`
abbrev pub proposal_init : Proposal
proposal_init = record {
  rids = [];
  tid = 0;
  nid = 0;
  has_value = false;
  value = [];
  coded_value = none;
}

-- The loop of `prop_cpy` and `prop_copy` over the rounds, field by field.
unfoldable pub copy_rids : List RoundId → List RoundId
copy_rids = map (λ r. record { gid = r.gid; sid = r.sid; bid = r.bid })

-- `prop_cpy`, `prop_copy`: a fresh proposal with the rounds, the node and the bytes of the value.
unfoldable pub prop_copy : Proposal → Proposal
unfolding copy_rids
prop_copy src = record proposal_init { nid = src.nid; rids = copy_rids src.rids; value = src.value }

-- `enum ack_enum`
pub data Ack : Type 0 where
  success err_bid : Ack

-- `message response_t`
pub record Response : Type 0 where
  pub rid : RoundId
  pub ack : Ack
  pub props : List Proposal

-- `enum msgtype_t`
pub data MsgType : Type 0 where
  prepare promise accept accepted learn decide slot : MsgType

abbrev pub is_prepare : MsgType → Bool
is_prepare MsgType.prepare = true
is_prepare _ = false

abbrev pub is_promise : MsgType → Bool
is_promise MsgType.promise = true
is_promise _ = false

abbrev pub is_accept : MsgType → Bool
is_accept MsgType.accept = true
is_accept _ = false

abbrev pub is_accepted : MsgType → Bool
is_accepted MsgType.accepted = true
is_accepted _ = false

-- `message msg_header`
pub record Header : Type 0 where
  pub t : MsgType
  pub nid : ℕ
  pub tid : ℕ

-- `message msg_prepare`
pub record MsgPrepare : Type 0 where
  pub h : Header
  pub rids : List RoundId

-- `message msg_promise` and `message msg_accepted`, which have the same fields.
pub record MsgReply : Type 0 where
  pub h : Header
  pub ress : List Response

-- `message msg_accept`
pub record MsgAccept : Type 0 where
  pub h : Header
  pub prop : Proposal

-- `mpaxos_req_t`, less the callback parameter and the two time stamps.
pub record Req : Type 0 where
  pub id : ℕ
  pub gids : List ℕ
  pub value : List ℕ
  pub value_c : List ℕ
  pub n_retry : ℕ
