-- ===== src/SlotMgr.antt =====
-- libmpaxos/slot_mgr.c: which node hands out the slots of a group, and the slots that it hands out.
use mpaxos.Prelude.{
  ℕ, zero, suc, ◌+◌, ◌%◌, ◌^◌, ◌≤◌, ◌<◌, ◌≡◌, refl, ◌∙◌, ap, Bool, false, Bool-cases, inl, inr,
  Option, none, some, List, [], ◌∷◌, arith, ◌==◌, ==_iff, if◌then◌else◌, Result, ok, fault, ◌>>=◌,
  Dict, get, put, get-put, nat_key, length, length-append,
}
use native.Mathlib.Nat.{mod-lt}
use mpaxos.View.{View, Client, get_group_size}
use mpaxos.View.Config.{IsConfigured, numbered}

-- `get_slot_mgr`: the remainder of the group's number, with the last node for 0. A view without nodes
-- makes it a division by zero.
unfoldable pub get_slot_mgr : ℕ → View → Result ℕ
get_slot_mgr gid v =
    let n = get_group_size gid v in
    let mgr_nid = gid % n in if n == 0 then fault else ok (if mgr_nid == 0 then n else mgr_nid)

-- `is_slot_mgr`
unfoldable pub is_slot_mgr : ℕ → View → Result Bool
unfolding get_slot_mgr
is_slot_mgr gid v = do mgr_nid ← get_slot_mgr gid v; ok (v.local_nid == mgr_nid)

abbrev slot_or_zero : Option ℕ → ℕ
slot_or_zero none = 0
slot_or_zero (some sid) = sid

-- The last slot that was handed out for a group.
abbrev pub last_slot : Dict ℕ ℕ → ℕ → ℕ
last_slot slots gid = slot_or_zero (get slots gid)

-- `alloc_slot`: the table `slot_ht_` and the slot, on 64 bits.
unfoldable pub alloc_slot : ℕ → Dict ℕ ℕ → Dict ℕ ℕ × ℕ
alloc_slot gid slots = let sid = (last_slot slots gid + 1) % 2 ^ 64 in (put slots gid sid, sid)

-- Allocations for several groups, one after the other: the table, and each group with its slot.
unfoldable pub alloc_slots : List ℕ → Dict ℕ ℕ → Dict ℕ ℕ × List (ℕ × ℕ)
unfolding alloc_slot
alloc_slots [] slots = (slots, [])
alloc_slots (gid ∷ gids) slots =
    let (slots1, sid) = alloc_slot gid slots in
    let (slots2, handed) = alloc_slots gids slots1 in (slots2, (gid, sid) ∷ handed)

-- The slots that a group was given.
abbrev pub given_to : ℕ → List (ℕ × ℕ) → List ℕ
given_to gid [] = []
given_to gid ((x, sid) ∷ handed) =
    let rest = given_to gid handed in if x == gid then sid ∷ rest else rest

-- `n` numbers after `k`.
abbrev pub following : ℕ → ℕ → List ℕ
following k zero = []
following k (suc n) = suc k ∷ following (suc k) n

abbrev pub occurrences : ℕ → List ℕ → ℕ
occurrences gid [] = 0
occurrences gid (x ∷ xs) = let rest = occurrences gid xs in if x == gid then suc rest else rest

length-numbered : (n : ℕ) → length (numbered n) ≡ n
length-numbered zero = refl
length-numbered (suc n) =
    length-append (numbered n) (suc n ∷ [])
    ∙ (let e : length (numbered n) + 1 ≡ suc n = omega (arith, length-numbered n) in e)

-- In a configured view with nodes, the manager of every group is a node that has a client.
pub get_slot_mgr-HasClient :
    (n gid : ℕ) (v : View)
    → IsConfigured n v
    → 0 < n
    → (nid : ℕ) × (c : Client) × (get_slot_mgr gid v ≡ ok nid)
      × (nid ≤ n)
      × (get v.senders nid ≡ some c)
unfolding get_slot_mgr get_group_size
get_slot_mgr-HasClient n gid v conf pos =
    let size : length v.arr_nodes ≡ n = ap length conf.nodes ∙ length-numbered n in
    let below : gid % n < n = grind (arith, mod-lt) in
    let some_nodes : (n == 0) ≡ false = ground arith in
    elim (Bool-cases (gid % n == 0)) [
      | inl last ↦
          let (c, e) = conf.clients n pos (omega arith) in
          (n, c, rw (size, some_nodes, last), omega arith, e)
      | inr other ↦
          let (c, e) = conf.clients (gid % n) (ground arith) (omega arith) in
          (gid % n, c, rw (size, some_nodes, other), omega arith, e)
    ]

alloc_slot-last_slot :
    (gid k : ℕ) (slots : Dict ℕ ℕ)
    → last_slot slots k + 1 < 2 ^ 64
    → last_slot (alloc_slot gid slots).0 k ≡ last_slot slots k + occurrences k (gid ∷ [])
unfolding alloc_slot
alloc_slot-last_slot gid k slots fits =
    ground (arith, get-put slots gid k ((last_slot slots gid + 1) % 2 ^ 64))

no_wrap : (n : ℕ) → n + 1 < 2 ^ 64 → (n + 1) % 2 ^ 64 ≡ suc n
no_wrap n h = omega arith

-- As long as the last slot of a group and the number of all allocations do not add up to 2^64:
-- allocations for any groups in any order give the group the slots that follow its last one, one by one,
-- and the last of these is its last slot then.
pub alloc_slots-last_slot :
    (gids : List ℕ) (k : ℕ) (slots : Dict ℕ ℕ)
    → last_slot slots k + length gids < 2 ^ 64
    → (given_to k (alloc_slots gids slots).1 ≡ following (last_slot slots k) (occurrences k gids))
      × (last_slot (alloc_slots gids slots).0 k ≡ last_slot slots k + occurrences k gids)
unfolding alloc_slots alloc_slot
alloc_slots-last_slot [] k slots fits = (refl, omega arith)
alloc_slots-last_slot (gid ∷ gids) k slots fits =
    let first = alloc_slot-last_slot gid k slots (omega arith) in
    let grown : last_slot (alloc_slot gid slots).0 k ≤ last_slot slots k + 1 = ground arith in
    let (given, last) = alloc_slots-last_slot gids k (alloc_slot gid slots).0 (omega arith) in
    let rest = given_to k (alloc_slots gids (alloc_slot gid slots).0).1 in
    let n = occurrences k gids in
    elim (Bool-cases (gid == k)) [
      | inl hit ↦
          let now : (last_slot slots gid + 1) % 2 ^ 64 ≡ suc (last_slot slots k) =
            ap (λ j. (last_slot slots j + 1) % 2 ^ 64) ((==_iff gid k).0 hit)
            ∙ no_wrap (last_slot slots k) (omega arith) in
          let up : last_slot (alloc_slot gid slots).0 k ≡ suc (last_slot slots k) =
            ground (arith, first, hit) in
          (
            rw hit (
                ap (λ sid. sid ∷ rest) now
                ∙ ap (◌∷◌ (suc (last_slot slots k))) (given ∙ ap (λ l. following l n) up)),
            rw hit (omega (arith, last, up)),
          )
      | inr miss ↦
          let same : last_slot (alloc_slot gid slots).0 k ≡ last_slot slots k =
            ground (arith, first, miss) in
          (rw miss (given ∙ ap (λ l. following l n) same), rw miss (omega (arith, last, same)))
    ]
