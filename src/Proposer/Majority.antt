-- ===== src/Proposer/Majority.antt =====
-- `check_majority` of libmpaxos/proposer.c.
use mpaxos.Prelude.{ℕ, ◌≤◌, ◌<◌, ◌≡◌, refl, ◌↔◌, Bool, true, false, List, [], ◌∷◌, arith, All}
use mpaxos.Proposer.Defs.{
  GroupInfo, yes_most, majority, check_counts, counts_of, check_group, check_majority,
}

-- The group has a majority of yes, and no majority of no.
abbrev pub HasMajority : (ℕ → ℕ) → Bool → GroupInfo → Type 0
HasMajority gsz phase1 g =
    (majority (gsz g.gid) ≤ (counts_of phase1 g).0)
    × ((counts_of phase1 g).1 < majority (gsz g.gid))

pub check_group-yes :
    (gsz : ℕ → ℕ) (phase1 : Bool) (g : GroupInfo)
    → (check_group gsz phase1 g ≡ yes_most) ↔ HasMajority gsz phase1 g
unfolding check_counts
check_group-yes gsz true g = ground arith
check_group-yes gsz false g = ground arith

pub check_majority-yes :
    (gsz : ℕ → ℕ) (phase1 : Bool) (gs : List GroupInfo)
    → (check_majority gsz phase1 gs ≡ yes_most) ↔ All (HasMajority gsz phase1) gs
unfolding check_majority
check_majority-yes gsz phase1 [] = (λ _. tt, λ _. refl)
check_majority-yes gsz phase1 (g ∷ gs) =
    ground (arith, check_group-yes gsz phase1 g, check_majority-yes gsz phase1 gs)
