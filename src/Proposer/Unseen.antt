-- ===== src/Proposer/Unseen.antt =====
-- The loop over `response->props` in libmpaxos/proposer.c, while no proposal is remembered.
use mpaxos.Prelude.{
  ℕ, ◌≡◌, ◌≢◌, refl, sym, ap, subst, ◌∙◌, Bool, true, false, Option, none, some, List, [], ◌∷◌,
  if◌then◌else◌, ok, >>=-eq-ok, ok-injective, Result,
}
use mpaxos.Types.{Proposal, first_bid}
use mpaxos.Proposer.Defs.{Heap, Best, is_below, free_old, replace, see_prop, see_props}

still_some : (b : Bool) (a : ℕ) (o : Option ℕ) → o ≢ none → (if b then some a else o) ≢ none
still_some true a o some_o e = cc
still_some false a o some_o e = some_o e

-- A replaced proposal is remembered in the transaction too.
replace_remembers : (p : Proposal) (s s' : Best) → replace p s ≡ ok s' → s'.prop_max ≢ none
unfolding replace
replace_remembers p s s' e =
    let (h1, e1, k1) = >>=-eq-ok (free_old s.max_prop s.heap) _ e in
    let (larger, e2, k2) = >>=-eq-ok (is_below s.prop_max _ _) _ k1 in
    subst (λ o. o ≢ none) (ap (λ x. x.prop_max) (ok-injective k2))
      (by_old s.prop_max larger _ _ _ e2)
  where
    by_old :
        (o : Option ℕ) (larger : Bool) (bid : Result ℕ) (h : Heap) (a : ℕ)
        → is_below o bid h ≡ ok larger
        → (if larger then some a else o) ≢ none
    by_old none true bid h a e2 = λ e. cc
    by_old none false bid h a e2 = absurd (cc)
    by_old (some b) larger bid h a e2 = still_some larger a (some b) (λ e. cc)

-- If no proposal is remembered after the loop, then none was before; and if the group had none, there
-- were none to see.
pub unremembered :
    (ps : List Proposal) (s s' : Best)
    → see_props ps s ≡ ok s'
    → s'.prop_max ≡ none
    → (s.prop_max ≡ none) × (s.max_prop ≡ none → (ps ≡ []) × (s'.max_prop ≡ none))
unfolding see_props see_prop
unremembered [] s s' e unseen =
    let same = ok-injective e in
    (ap (λ x. x.prop_max) same ∙ unseen, λ h. (refl, ap (λ x. x.max_prop) (sym same) ∙ h))
unremembered (p ∷ ps) s s' e unseen =
    let (s1, e1, k1) = >>=-eq-ok (see_prop p s) _ e in
    let (unseen1, _) = unremembered ps s1 s' k1 unseen in
    let (larger, e2, k2) = >>=-eq-ok (is_below s.max_prop (first_bid p) s.heap) _ e1 in
    by_test larger e2 k2 unseen1
  where
    by_test :
        (larger : Bool) {s1 : Best}
        → is_below s.max_prop (first_bid p) s.heap ≡ ok larger
        → (if larger then replace p s else ok s) ≡ ok s1
        → s1.prop_max ≡ none
        → (s.prop_max ≡ none) × (s.max_prop ≡ none → (p ∷ ps ≡ []) × (s'.max_prop ≡ none))
    by_test true {s1} e2 k2 unseen1 = absurd (replace_remembers p s s1 k2 unseen1)
    by_test false e2 k2 unseen1 = (
      ap (λ x. x.prop_max) (ok-injective k2) ∙ unseen1,
      λ h. absurd (first_is_larger (ap (λ o. is_below o (first_bid p) s.heap) (sym h) ∙ e2)),
    )
      where
        first_is_larger : ok true ≡ ok false → ⊥
        first_is_larger e = cc
