-- ===== src/Tests/Proposing.antt =====
-- A proposer with two groups of five nodes, and the proposals of a response.
use mpaxos.Prelude.{ℕ, ◌≡◌, refl, true, none, [], ◌∷◌, nat_key}
use mpaxos.Types.{Proposal, proposal_init}
use mpaxos.Proposer.{Heap, GroupInfo, uncertain, check_counts, check_majority}

abbrev group : ℕ → ℕ → ℕ → GroupInfo
group gid n_yes n_no = record {
  tid = 7;
  gid = gid;
  sid = 1;
  bid = 2;
  ht_prom = [];
  ht_accd = [];
  n_promises_yes = n_yes;
  n_promises_no = n_no;
  n_accepteds_yes = 0;
  n_accepteds_no = 0;
  max_prop = none;
}

abbrev five : ℕ → ℕ
five _ = 5

two_groups : check_majority five true (group 1 3 2 ∷ group 2 2 2 ∷ []) ≡ uncertain
unfolding check_majority check_counts
two_groups = refl

abbrev proposal : ℕ → Proposal
proposal b = record proposal_init {
  rids = (record { gid = 1; sid = 1; bid = b }) ∷ [];
  value = b ∷ [];
}

abbrev empty : Heap
empty = record { next = 1; blocks = [] }
