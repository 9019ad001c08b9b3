-- ===== src/Async/Counters.antt =====
-- The slot of the last callback of each group: `add_last_cb_sid`, `get_last_cb_sid` and `get_insnum` of
-- libmpaxos/mpaxos.c.
use mpaxos.Prelude.{
  ℕ, ◌+◌, ◌%◌, ◌^◌, ◌<◌, ◌≡◌, refl, ap, ◌∙◌, inl, inr, Bool-cases, ◌==◌, if◌then◌else◌, none, some,
  List, [], ◌∷◌, arith, Dict, get, put, get-put, nat_key,
}

-- `lastslot_ht_`
abbrev pub LastSlots : Type 0
LastSlots = Dict ℕ ℕ

-- The head of the three functions: the counter of the group, which is made if it is not there.
abbrev pub counter_of : ℕ → LastSlots → ℕ × LastSlots
counter_of gid ht = elim (get ht gid) [ none ↦ (0, put ht gid 0) | some sid ↦ (sid, ht) ]

-- `add_last_cb_sid`: the counter has 64 bits, and is returned as an `int`, here its 32 bits.
unfoldable pub add_last_cb_sid : ℕ → LastSlots → ℕ × LastSlots
add_last_cb_sid gid ht =
    let (sid, ht') = counter_of gid ht in
    let sid' = (sid + 1) % 2 ^ 64 in (sid' % 2 ^ 32, put ht' gid sid')

-- `get_last_cb_sid`
unfoldable pub get_last_cb_sid : ℕ → LastSlots → ℕ × LastSlots
get_last_cb_sid gid ht = let (sid, ht') = counter_of gid ht in (sid % 2 ^ 32, ht')

-- `get_insnum`: what the pointer that it gives points at.
unfoldable pub get_insnum : ℕ → LastSlots → ℕ × LastSlots
get_insnum gid ht = counter_of gid ht

-- `add_last_cb_sid` for one group after another.
abbrev pub add_all : List ℕ → LastSlots → LastSlots
add_all [] ht = ht
add_all (gid ∷ gids) ht = add_all gids (add_last_cb_sid gid ht).1

-- How often a group is in a list.
abbrev pub count : ℕ → List ℕ → ℕ
count gid [] = 0
count gid (x ∷ xs) = let rest = count gid xs in if x == gid then rest + 1 else rest

-- The value of a counter.
abbrev pub value_of : ℕ → LastSlots → ℕ
value_of gid ht = (counter_of gid ht).0

add_one :
    (x gid : ℕ) (ht : LastSlots)
    → value_of gid (add_last_cb_sid x ht).1
      ≡ (if x == gid then (value_of gid ht + 1) % 2 ^ 64 else value_of gid ht)
unfolding add_last_cb_sid
add_one x gid ht =
    ground
      (arith, get-put (counter_of x ht).1 x gid ((value_of x ht + 1) % 2 ^ 64), get-put ht x gid 0)

value_all :
    (gid : ℕ) (gids : List ℕ) (ht : LastSlots)
    → value_of gid ht < 2 ^ 64
    → value_of gid (add_all gids ht) ≡ (value_of gid ht + count gid gids) % 2 ^ 64
value_all gid [] ht small = omega (arith, small)
value_all gid (x ∷ xs) ht small = elim (Bool-cases (x == gid)) [
  | inl hit ↦
      let here : value_of gid (add_last_cb_sid x ht).1 ≡ (value_of gid ht + 1) % 2 ^ 64 =
        add_one x gid ht ∙ rw hit refl in
      value_all gid xs (add_last_cb_sid x ht).1 (omega (arith, here)) ∙ rw (hit, here) (omega arith)
  | inr miss ↦
      let here : value_of gid (add_last_cb_sid x ht).1 ≡ value_of gid ht =
        add_one x gid ht ∙ rw miss refl in
      value_all gid xs (add_last_cb_sid x ht).1 (omega (arith, here, small)) ∙ rw (miss, here) refl
]

pub get_last_cb_sid-add_all :
    (gid : ℕ) (gids : List ℕ) (ht : LastSlots)
    → value_of gid ht < 2 ^ 64
    → (get_last_cb_sid gid (add_all gids ht)).0 ≡ (value_of gid ht + count gid gids) % 2 ^ 32
unfolding get_last_cb_sid
get_last_cb_sid-add_all gid gids ht small =
    ap (λ v. v % 2 ^ 32) (value_all gid gids ht small) ∙ omega arith
