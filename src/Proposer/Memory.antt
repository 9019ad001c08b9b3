-- ===== src/Proposer/Memory.antt =====
-- The two pointers to the best proposal seen: `ginfo->max_prop` and `tinfo->prop_max`.
use mathlib.Core.List.{append-nil}
use mpaxos.Prelude.{
  ℕ, ◌≤◌, ◌≡◌, refl, sym, ◌∙◌, ap, none, some, List, [], ◌∷◌, ◌++◌, arith, le→ltb, ok, get,
  get-put_self, nat_key, All,
}
use mpaxos.Types.{Proposal, prop_copy, copy_rids, first_bid}
use mpaxos.Proposer.Defs.{Heap, Best, bid_at, replace, malloc, see_prop, see_props}

-- The proposal has a first round, of this ballot.
abbrev pub HasBid : Proposal → ℕ → Type 0
HasBid p b = first_bid p ≡ ok b

-- The address holds a proposal of this ballot.
abbrev pub Live : Heap → ℕ → ℕ → Type 0
Live h a b = (old : Proposal) × (get h.blocks a ≡ some old) × HasBid old b

pub bid_at-Live : (h : Heap) (a b : ℕ) → Live h a b → bid_at a h ≡ ok b
unfolding bid_at
bid_at-Live h a b (old, live, bid) = rw (live, bid)

-- A copy has the ballot of the original.
copy_bid : (p : Proposal) (b : ℕ) → HasBid p b → HasBid (prop_copy p) b
unfolding first_bid prop_copy copy_rids
copy_bid p b h = ground arith

module _ (h : Heap) (a : ℕ) where
  -- The group's best proposal and the transaction's are one.
  abbrev pub shared : Best
  shared = record { heap = h; max_prop = some a; prop_max = some a }

  see_prop_smaller :
      (p : Proposal) (b c : ℕ) → Live h a b → HasBid p c → c ≤ b → see_prop p shared ≡ ok shared
  unfolding see_prop
  see_prop_smaller p b c live bid less = rw (bid_at-Live h a b live, bid, le→ltb b c less)

-- Every proposal of the list has a ballot, and none has one above `b`.
abbrev pub AllBelow : ℕ → List Proposal → Type 0
AllBelow b ps = All (λ p. (c : ℕ) × HasBid p c × (c ≤ b)) ps

see_props_below :
    (h : Heap) (a b : ℕ) (ps : List Proposal) (rest : List Proposal)
    → Live h a b
    → AllBelow b ps
    → see_props (ps ++ rest) (shared h a) ≡ see_props rest (shared h a)
unfolding see_props
see_props_below h a b [] rest live below = refl
see_props_below h a b (p ∷ ps) rest live below =
    rw (see_prop_smaller h a p b below.0.0 live below.0.1 below.0.2)
      (see_props_below h a b ps rest live below.1)

-- Nothing seen yet.
abbrev pub nothing : Heap → Best
nothing h = record { heap = h; max_prop = none; prop_max = none }

-- After the first proposal: its copy, at a fresh address, is the best of both.
abbrev pub first_seen : Heap → Proposal → Best
first_seen h p = shared (malloc (prop_copy p) h).1 h.next

module _ (h : Heap) (p : Proposal) (b : ℕ) (ps : List Proposal) (bid : HasBid p b)
    (below : AllBelow b ps) where
  seen_heap : Heap
  seen_heap = (malloc (prop_copy p) h).1

  seen-Live : Live seen_heap h.next b
  unfolding seen_heap
  seen-Live = (prop_copy p, get-put_self h.blocks h.next (prop_copy p), copy_bid p b bid)

  -- From nothing seen, a response whose first proposal has its largest ballot leaves a copy of that
  -- proposal as the best of the group and of the transaction.
  see_props_first : see_props (p ∷ ps) (nothing h) ≡ ok (first_seen h p)
  unfolding see_props see_prop replace seen_heap
  see_props_first =
      ap (λ l. see_props l (first_seen h p)) (sym (append-nil ps))
      ∙ see_props_below seen_heap h.next b ps [] seen-Live below
