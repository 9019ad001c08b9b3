-- ===== src/Acceptor/Views.antt =====
-- What the acceptor's table says of a slot, entered or not: the ballot promised and the proposals
-- accepted. The tables of a later moment extend those of an earlier one.
use mathlib.Core.List.{append_assoc, append-nil}
use mpaxos.Prelude.{ℕ, ◌≤◌, ◌≡◌, sym, List, [], ◌++◌, arith, if◌then◌else◌, get, put, get-put}
use mpaxos.Types.{InstId, inst_key, same_inst, same_inst_iff, Proposal}
use mpaxos.Acceptor.Defs.{AccpInfo, Acceptor, info_or_new, get_accp_info}

abbrev pub info_of : Acceptor → InstId → AccpInfo
info_of a i = info_or_new i (get a i)

abbrev pub bid_max_of : Acceptor → InstId → ℕ
bid_max_of a i = (info_of a i).bid_max

abbrev pub props_of : Acceptor → InstId → List Proposal
props_of a i = (info_of a i).arr_prop

-- An entry is found under its own slot, whatever was asked before.
pub info_of-put :
    (a : Acceptor) (i j : InstId) (info : AccpInfo)
    → info_of (put a i info) j ≡ (if same_inst i j then info else info_of a j)
info_of-put a i j info = ground (arith, get-put a i j info)

pub get_accp_info_entry : (i : InstId) (a : Acceptor) → (get_accp_info i a).1 ≡ info_of a i
unfolding get_accp_info
get_accp_info_entry i a = ground arith

-- Entering a slot changes no view.
pub get_accp_info_table :
    (i : InstId) (a : Acceptor) (j : InstId) → info_of (get_accp_info i a).0 j ≡ info_of a j
unfolding get_accp_info
get_accp_info_table i a j =
    ground
      (arith, same_inst_iff i j, get-put a i j (record { iid = i; bid_max = 0; arr_prop = [] }))

-- Ballots promised only grow, and accepted proposals stay, in order.
pub record Extends (a b : Acceptor) : Type 0 where
  pub bids : (i : InstId) → bid_max_of a i ≤ bid_max_of b i
  pub props : (i : InstId) → (more : List Proposal) × (props_of b i ≡ props_of a i ++ more)

pub Extends-refl : (a : Acceptor) → Extends a a
Extends-refl a = record { bids = λ i. omega arith; props = λ i. ([], sym (append-nil _)) }

pub Extends-trans : {a b c : Acceptor} → Extends a b → Extends b c → Extends a c
Extends-trans {a} x y = record {
  bids = λ i. omega (arith, x.bids i, y.bids i);
  props = λ i.
      let (p, e) = x.props i in
      let (q, f) = y.props i in (p ++ q, rw (f, e) (append_assoc (props_of a i) p q));
}
