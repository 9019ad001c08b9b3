-- ===== src/Proposer/Defs.antt =====
-- The bookkeeping of a transaction (`group_info_t` and `txn_info_t` of libmpaxos/internal_types.h),
-- and the parts of `handle_msg_promise` and `handle_msg_accepted` that work on it.
use mpaxos.Prelude.{
  ℕ, ◌+◌, ◌/◌, ◌%◌, ◌^◌, Bool, true, false, ◌&&◌, Option, none, some, List, [], ◌∷◌, ◌==◌, ltb, leb,
  if◌then◌else◌, Result, ok, abort, fault, ◌>>=◌, deref, Dict, get, put, del, nat_key,
}
use mpaxos.Types.{RoundId, Proposal, prop_copy, first_bid, Ack, success, err_bid, Response, Req}

-- The proposals in memory, by address. The address of a freed proposal is not used again, so that
-- each use of a stale pointer shows.
pub record Heap : Type 0 where
  pub next : ℕ
  pub blocks : Dict ℕ Proposal

abbrev pub malloc : Proposal → Heap → ℕ × Heap
malloc p h = (h.next, record { next = h.next + 1; blocks = put h.blocks h.next p })

-- A read through a pointer.
abbrev pub load : ℕ → Heap → Result Proposal
load a h = deref (get h.blocks a)

-- `prop_destroy`: to free what is not allocated is undefined.
unfoldable pub prop_destroy : ℕ → Heap → Result Heap
prop_destroy a h = elim (get h.blocks a) [
  | none ↦ fault
  | some _ ↦ ok (record h { blocks = del h.blocks a })
]

-- `group_info_t`
pub record GroupInfo : Type 0 where
  pub tid : ℕ
  pub gid : ℕ
  pub sid : ℕ
  pub bid : ℕ
  pub ht_prom : Dict ℕ Ack
  pub ht_accd : Dict ℕ Ack
  pub n_promises_yes : ℕ
  pub n_promises_no : ℕ
  pub n_accepteds_yes : ℕ
  pub n_accepteds_no : ℕ
  pub max_prop : Option ℕ

-- `in_phase`: 0, 1, 2, 3 and -1.
pub data Phase : Type 0 where
  init preparing accepting learning failed : Phase

abbrev pub is_preparing : Phase → Bool
is_preparing preparing = true
is_preparing _ = false

abbrev pub is_accepting : Phase → Bool
is_accepting accepting = true
is_accepting _ = false

-- `txn_info_t`
pub record TxnInfo : Type 0 where
  pub tid : ℕ
  pub req : Req
  pub rids : List RoundId
  pub in_phase : Phase
  pub ht_ginfo : Dict ℕ GroupInfo
  pub prop_max : Option ℕ
  pub prop_self : Option ℕ

-- MAJORITY_YES, MAJORITY_NO, MAJORITY_UNCERTAIN
pub data Verdict : Type 0 where
  yes_most no_most uncertain : Verdict

-- `(gsz >> 1) + 1`
abbrev pub majority : ℕ → ℕ
majority gsz = gsz / 2 + 1

-- The test of one group in `check_majority`, on its counts of yes and no.
unfoldable pub check_counts : ℕ → ℕ → ℕ → Verdict
check_counts gsz n_yes n_no =
    if leb (majority gsz) n_no
    then no_most
    else if ltb n_yes (majority gsz)
    then uncertain
    else yes_most

-- The counts that the phase looks at: `true` for phase 1.
abbrev pub counts_of : Bool → GroupInfo → ℕ × ℕ
counts_of true g = (g.n_promises_yes, g.n_promises_no)
counts_of false g = (g.n_accepteds_yes, g.n_accepteds_no)

abbrev pub check_group : (ℕ → ℕ) → Bool → GroupInfo → Verdict
check_group gsz phase1 g =
    let (n_yes, n_no) = counts_of phase1 g in check_counts (gsz g.gid) n_yes n_no

-- `check_majority` over the groups in the order in which the hash table yields them;
-- `gsz` is `get_group_size`.
unfoldable pub check_majority : (ℕ → ℕ) → Bool → List GroupInfo → Verdict
unfolding check_counts
check_majority gsz phase1 [] = yes_most
check_majority gsz phase1 (g ∷ gs) =
    let rest = check_majority gsz phase1 gs in
    elim (check_group gsz phase1 g) [ yes_most ↦ rest | no_most ↦ no_most | uncertain ↦ uncertain ]

-- `n++` on a `uint32_t`
abbrev pub inc32 : ℕ → ℕ
inc32 n = (n + 1) % 2 ^ 32

abbrev pub tally : Ack → GroupInfo → GroupInfo
tally success g = record g { n_promises_yes = inc32 g.n_promises_yes }
tally err_bid g = record g { n_promises_no = inc32 g.n_promises_no }

abbrev pub tally_accepted : Ack → GroupInfo → GroupInfo
tally_accepted success g = record g { n_accepteds_yes = inc32 g.n_accepteds_yes }
tally_accepted err_bid g = record g { n_accepteds_no = inc32 g.n_accepteds_no }

-- The counting in `handle_msg_promise`: a second answer of a node aborts.
unfoldable pub count_promise : ℕ → Ack → GroupInfo → Result GroupInfo
count_promise nid ack g = elim (get g.ht_prom nid) [
  | some _ ↦ abort
  | none ↦ ok (record (tally ack g) { ht_prom = put g.ht_prom nid ack })
]

-- The counting in `handle_msg_accepted`.
unfoldable pub count_accepted : ℕ → Ack → GroupInfo → Result GroupInfo
count_accepted nid ack g = elim (get g.ht_accd nid) [
  | some _ ↦ abort
  | none ↦ ok (record (tally_accepted ack g) { ht_accd = put g.ht_accd nid ack })
]

-- What the loop over `response->props` works on: `ginfo->max_prop` and `tinfo->prop_max`.
pub record Best : Type 0 where
  pub heap : Heap
  pub max_prop : Option ℕ
  pub prop_max : Option ℕ

unfoldable pub bid_at : ℕ → Heap → Result ℕ
unfolding first_bid
bid_at a h = do p ← load a h; first_bid p

-- `p == NULL || p->rids[0]->bid < bid`
abbrev pub is_below : Option ℕ → Result ℕ → Heap → Result Bool
is_below none bid h = ok true
is_below (some a) bid h = do x ← bid_at a h; y ← bid; ok (ltb x y)

abbrev pub free_old : Option ℕ → Heap → Result Heap
free_old none h = ok h
free_old (some a) h = prop_destroy a h

-- The body of the `if`: the old proposal is freed, the new one copied, and then compared with
-- `tinfo->prop_max`.
unfoldable pub replace : Proposal → Best → Result Best
unfolding bid_at prop_destroy prop_copy
replace p s = do
  h1 ← free_old s.max_prop s.heap
  let (a, h2) = malloc (prop_copy p) h1
  larger ← is_below s.prop_max (bid_at a h2) h2
  ok (record { heap = h2; max_prop = some a; prop_max = if larger then some a else s.prop_max })

-- One turn of the loop over `response->props`.
unfoldable pub see_prop : Proposal → Best → Result Best
unfolding replace
see_prop p s = do
  larger ← is_below s.max_prop (first_bid p) s.heap
  if larger then replace p s else ok s

unfoldable pub see_props : List Proposal → Best → Result Best
unfolding see_prop
see_props [] s = ok s
see_props (p ∷ ps) s = do s' ← see_prop p s; see_props ps s'

-- A response to an earlier round of the group is passed over.
abbrev pub is_current : RoundId → GroupInfo → Bool
is_current rid g = (rid.gid == g.gid) && ((rid.sid == g.sid) && (rid.bid == g.bid))

-- One turn of the loop over `ress`, with the counting of the phase.
unfoldable pub on_response :
    (ℕ → Ack → GroupInfo → Result GroupInfo)
    → ℕ
    → Response
    → TxnInfo × Heap
    → Result (TxnInfo × Heap)
unfolding see_props
on_response count nid res (t, h) = elim (get t.ht_ginfo res.rid.gid) [
  | none ↦ abort
  | some g ↦
      let counted : Result (TxnInfo × Heap) = (do
        g' ← count nid res.ack g
        best ←
            see_props res.props (record { heap = h; max_prop = g.max_prop; prop_max = t.prop_max })
        ok (
          record t {
            ht_ginfo = put t.ht_ginfo res.rid.gid (record g' { max_prop = best.max_prop });
            prop_max = best.prop_max;
          },
          best.heap,
        )) in
      if is_current res.rid g then counted else ok (t, h)
]

unfoldable pub on_responses :
    (ℕ → Ack → GroupInfo → Result GroupInfo)
    → ℕ
    → List Response
    → TxnInfo × Heap
    → Result (TxnInfo × Heap)
unfolding on_response
on_responses count nid [] s = ok s
on_responses count nid (res ∷ ress) s = do
  s' ← on_response count nid res s
  on_responses count nid ress s'

-- The phase that follows a verdict; `next` is the one for MAJORITY_YES.
abbrev pub phase_after : Verdict → Phase → Phase → Phase
phase_after yes_most next now = next
phase_after no_most next now = failed
phase_after uncertain next now = now
