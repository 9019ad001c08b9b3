-- ===== src/Proposer/Tally.antt =====
-- The counts of a group are the numbers of the nodes that answered: `count_promise` and
-- `count_accepted`, over whole messages.
use mpaxos.Prelude.{
  ℕ, suc, ◌+◌, ◌^◌, ◌≤◌, ◌<◌, ◌≡◌, refl, subst, Bool, true, false, inl, inr, Option, none, some,
  Option-cases, List, [], ◌∷◌, arith, ◌==◌, if◌then◌else◌, Result, ok, abort, ok-injective, Dict,
  get, put, get-put, nat_key, length,
}
use mpaxos.Types.{RoundId, Ack, success, err_bid}
use mpaxos.Proposer.Defs.{GroupInfo, tally, tally_accepted, count_promise, count_accepted}

-- How many of the nodes pass the test.
abbrev pub count : (ℕ → Bool) → List ℕ → ℕ
count p [] = 0
count p (x ∷ xs) = let rest = count p xs in if p x then suc rest else rest

abbrev pub said_yes : Option Ack → Bool
said_yes none = false
said_yes (some success) = true
said_yes (some err_bid) = false

abbrev pub said_no : Option Ack → Bool
said_no none = false
said_no (some success) = false
said_no (some err_bid) = true

pub count-le-length : (p : ℕ → Bool) (nodes : List ℕ) → count p nodes ≤ length nodes
count-le-length p [] = omega arith
count-le-length p (x ∷ xs) = ground (arith, count-le-length p xs)

-- A first answer of a node adds the occurrences of the node to the count that it is for.
count-put :
    (f : Option Ack → Bool) (d : Dict ℕ Ack) (nid : ℕ) (ack : Ack) (nodes : List ℕ)
    → f none ≡ false
    → get d nid ≡ none
    → count (λ n. f (get (put d nid ack) n)) nodes
      ≡ count (λ n. f (get d n)) nodes + (if f (some ack) then count (λ n. nid == n) nodes else 0)
count-put f d nid ack [] h fresh = ground arith
count-put f d nid ack (x ∷ xs) h fresh =
    ground (arith, get-put d nid x ack, count-put f d nid ack xs h fresh)

-- In a view: the counts of yes and no are those of the nodes that said so.
pub record IsTallied (nodes : List ℕ) (g : GroupInfo) : Type 0 where
  pub promises_yes : g.n_promises_yes ≡ count (λ n. said_yes (get g.ht_prom n)) nodes
  pub promises_no : g.n_promises_no ≡ count (λ n. said_no (get g.ht_prom n)) nodes
  pub accepteds_yes : g.n_accepteds_yes ≡ count (λ n. said_yes (get g.ht_accd n)) nodes
  pub accepteds_no : g.n_accepteds_no ≡ count (λ n. said_no (get g.ht_accd n)) nodes

-- The node is in the view, once.
abbrev pub IsOnce : ℕ → List ℕ → Type 0
IsOnce nid nodes = count (λ n. nid == n) nodes ≡ 1

-- The count of one kind of answers after one more.
abbrev Grows : (Option Ack → Bool) → Dict ℕ Ack → ℕ → Ack → List ℕ → Type 0
Grows f d nid ack nodes =
    (count (λ n. f (get (put d nid ack) n)) nodes
      ≡ count (λ n. f (get d n)) nodes + (if f (some ack) then 1 else 0))
    × (count (λ n. f (get (put d nid ack) n)) nodes ≤ length nodes)

grows :
    (f : Option Ack → Bool) (d : Dict ℕ Ack) (nid : ℕ) (ack : Ack) (nodes : List ℕ)
    → f none ≡ false
    → IsOnce nid nodes
    → get d nid ≡ none
    → Grows f d nid ack nodes
grows f d nid ack nodes h once fresh = (
  ground (arith, count-put f d nid ack nodes h fresh),
  count-le-length (λ n. f (get (put d nid ack) n)) nodes,
)

abort_ok : {g : GroupInfo} → abort ≡ ok g → ⊥
abort_ok e = cc

module _ (nid : ℕ) (ack : Ack) (g : GroupInfo) where
  after_promise : GroupInfo
  after_promise = record (tally ack g) { ht_prom = put g.ht_prom nid ack }

  after_accepted : GroupInfo
  after_accepted = record (tally_accepted ack g) { ht_accd = put g.ht_accd nid ack }

  -- An answer is counted only if it is the first of the node.
  count_promise_cases :
      (g' : GroupInfo)
      → count_promise nid ack g ≡ ok g'
      → (get g.ht_prom nid ≡ none) × (after_promise ≡ g')
  unfolding count_promise after_promise
  count_promise_cases g' e = elim (Option-cases (get g.ht_prom nid)) [
    | inl fresh ↦ (fresh, ok-injective (subst (λ o. on_entry o ≡ ok g') fresh e))
    | inr (old, hit) ↦ absurd (abort_ok (subst (λ o. on_entry o ≡ ok g') hit e))
  ]
    where
      on_entry : Option Ack → Result GroupInfo
      on_entry o = elim o [ some _ ↦ abort | none ↦ ok after_promise ]

  count_accepted_cases :
      (g' : GroupInfo)
      → count_accepted nid ack g ≡ ok g'
      → (get g.ht_accd nid ≡ none) × (after_accepted ≡ g')
  unfolding count_accepted after_accepted
  count_accepted_cases g' e = elim (Option-cases (get g.ht_accd nid)) [
    | inl fresh ↦ (fresh, ok-injective (subst (λ o. on_entry o ≡ ok g') fresh e))
    | inr (old, hit) ↦ absurd (abort_ok (subst (λ o. on_entry o ≡ ok g') hit e))
  ]
    where
      on_entry : Option Ack → Result GroupInfo
      on_entry o = elim o [ some _ ↦ abort | none ↦ ok after_accepted ]

-- The round that a group is in.
abbrev pub round_of : GroupInfo → RoundId
round_of g = record { gid = g.gid; sid = g.sid; bid = g.bid }

-- What the counting of an answer leaves of a group but the counts.
pub record Noted (prom accd : Dict ℕ Ack) (g g' : GroupInfo) : Type 0 where
  pub prom_there : g'.ht_prom ≡ prom
  pub accd_there : g'.ht_accd ≡ accd
  pub round : round_of g' ≡ round_of g
  pub best : g'.max_prop ≡ g.max_prop

pub count_promise-Noted :
    (nid : ℕ) (ack : Ack) (g g' : GroupInfo)
    → count_promise nid ack g ≡ ok g'
    → Noted (put g.ht_prom nid ack) g.ht_accd g g'
unfolding after_promise
count_promise-Noted nid success g g' e =
    subst (Noted (put g.ht_prom nid success) g.ht_accd g) (count_promise_cases nid success g g' e).1
      (record { prom_there = refl; accd_there = refl; round = refl; best = refl })
count_promise-Noted nid err_bid g g' e =
    subst (Noted (put g.ht_prom nid err_bid) g.ht_accd g) (count_promise_cases nid err_bid g g' e).1
      (record { prom_there = refl; accd_there = refl; round = refl; best = refl })

pub count_accepted-Noted :
    (nid : ℕ) (ack : Ack) (g g' : GroupInfo)
    → count_accepted nid ack g ≡ ok g'
    → Noted g.ht_prom (put g.ht_accd nid ack) g g'
unfolding after_accepted
count_accepted-Noted nid success g g' e =
    subst (Noted g.ht_prom (put g.ht_accd nid success) g)
      (count_accepted_cases nid success g g' e).1
      (record { prom_there = refl; accd_there = refl; round = refl; best = refl })
count_accepted-Noted nid err_bid g g' e =
    subst (Noted g.ht_prom (put g.ht_accd nid err_bid) g)
      (count_accepted_cases nid err_bid g g' e).1
      (record { prom_there = refl; accd_there = refl; round = refl; best = refl })

module _ (nodes : List ℕ) (fits : length nodes < 2 ^ 32) (nid : ℕ) (once : IsOnce nid nodes) where
  pub count_promise-IsTallied :
      (ack : Ack) (g g' : GroupInfo)
      → IsTallied nodes g
      → count_promise nid ack g ≡ ok g'
      → IsTallied nodes g'
  unfolding after_promise
  count_promise-IsTallied ack g g' tallied e =
      let (fresh, same) = count_promise_cases nid ack g g' e in
      let yes_grows = grows said_yes g.ht_prom nid ack nodes refl once fresh in
      let no_grows = grows said_no g.ht_prom nid ack nodes refl once fresh in
      subst (IsTallied nodes) same (record {
        promises_yes = ground (arith, tallied.promises_yes);
        promises_no = ground (arith, tallied.promises_no);
        accepteds_yes = ground (arith, tallied.accepteds_yes);
        accepteds_no = ground (arith, tallied.accepteds_no);
      })

  pub count_accepted-IsTallied :
      (ack : Ack) (g g' : GroupInfo)
      → IsTallied nodes g
      → count_accepted nid ack g ≡ ok g'
      → IsTallied nodes g'
  unfolding after_accepted
  count_accepted-IsTallied ack g g' tallied e =
      let (fresh, same) = count_accepted_cases nid ack g g' e in
      let yes_grows = grows said_yes g.ht_accd nid ack nodes refl once fresh in
      let no_grows = grows said_no g.ht_accd nid ack nodes refl once fresh in
      subst (IsTallied nodes) same (record {
        promises_yes = ground (arith, tallied.promises_yes);
        promises_no = ground (arith, tallied.promises_no);
        accepteds_yes = ground (arith, tallied.accepteds_yes);
        accepteds_no = ground (arith, tallied.accepteds_no);
      })
