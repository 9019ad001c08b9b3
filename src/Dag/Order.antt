-- ===== src/Dag/Order.antt =====
-- In libmpaxos/utils/mpr_dag.h, the queues hold the requests that name them, in the order of their push.
use mpaxos.Prelude.{
  ℕ, ◌≡◌, ◌≢◌, ◌<◌, refl, sym, ap, ◌∙◌, subst, ◌⊎◌, inl, inr, true, false, Bool-cases, ◌==◌,
  if◌then◌else◌, some, some-injective, List, [], ◌∷◌, ◌++◌, All, All-append, All-In, In, In-append,
  In-append_left, In-append_right, arith, head?, tail, get, put, del, get-put_self, get-put,
  get-del, nat_key,
}
use mpaxos.Dag.Defs.{DagNode, Dag}
use mpaxos.Dag.Safe.{look_put}
use mpaxos.Dag.Idle.{Distinct}
use mpaxos.Dag.Contents.{contents_of, names}
use mpaxos.Dag.Requests.{SameRequests}

-- Nodes are numbered by the order of their push.
abbrev pub IsRising : List ℕ → Type 0
IsRising [] = Unit {0}
IsRising (x ∷ xs) = All (λ y. x < y) xs × IsRising xs

joins-IsRising :
    (node : ℕ) (xs : List ℕ) → IsRising xs → All (λ y. y < node) xs → IsRising (xs ++ node ∷ [])
joins-IsRising node [] up below = (tt, tt)
joins-IsRising node (x ∷ xs) up below =
    (All-append (λ y. x < y) xs (node ∷ []) up.0 (below.0, tt), joins-IsRising node xs up.1 below.1)

tail-IsRising : (xs : List ℕ) → IsRising xs → IsRising (tail xs)
tail-IsRising [] up = tt
tail-IsRising (x ∷ xs) up = up.1

In-tail : (x : ℕ) (xs : List ℕ) → In x (tail xs) → In x xs
In-tail x [] i = i
In-tail x (y ∷ xs) i = inr i

-- Behind the first element are larger ones.
pub after_head : (xs : List ℕ) (y x : ℕ) → IsRising xs → head? xs ≡ some y → In x (tail xs) → y < x
after_head [] y x up e i = absurd i
after_head (z ∷ xs) y x up e i =
    subst (λ k. k < x) (some-injective z y e) (All-In (λ k. z < k) xs up.0 i)

pub In-cases : (xs : List ℕ) (y x : ℕ) → head? xs ≡ some y → In x xs → (x ≡ y) ⊎ In x (tail xs)
In-cases [] y x e i = absurd i
In-cases (z ∷ xs) y x e (inl same) = inl (same ∙ some-injective z y e)
In-cases (z ∷ xs) y x e (inr i) = inr i

all_in : (P : ℕ → Type 0) (xs : List ℕ) → ((x : ℕ) → In x xs → P x) → All P xs
all_in P [] f = tt
all_in P (x ∷ xs) f = (f x (inl refl), all_in P xs (λ y i. f y (inr i)))

-- Each queue holds the requests that name its group, the earliest first.
pub record IsOrdered (d : Dag) : Type 0 where
  pub rising : (j : ℕ) → IsRising (contents_of d j)
  pub member :
      (j x : ℕ)
      → In x (contents_of d j)
      → (n : DagNode) × (get d.nodes x ≡ some n) × (names n.qids j ≡ true)
  pub present :
      (j x : ℕ) (n : DagNode)
      → get d.nodes x ≡ some n
      → names n.qids j ≡ true
      → In x (contents_of d j)
  pub distinct : (x : ℕ) (n : DagNode) → get d.nodes x ≡ some n → Distinct n.qids

pub IsOrdered-requests :
    (d d' : Dag)
    → ((j : ℕ) → contents_of d' j ≡ contents_of d j)
    → SameRequests d d'
    → IsOrdered d
    → IsOrdered d'
IsOrdered-requests d d' same requests o = record {
  rising = λ j. subst IsRising (sym (same j)) (o.rising j);
  member = λ j x i.
      let (n, at, named) = o.member j x (subst (In x) (same j) i) in
      let (n', at', qids) = requests.there x n at in (n', at', ap (λ l. names l j) qids ∙ named);
  present = λ j x n' at' named.
      let (n, at, qids, keeps) = requests.back x n' at' in
      subst (In x) (sym (same j)) (o.present j x n at (ap (λ l. names l j) qids ∙ named));
  distinct = λ x n' at'.
      let (n, at, qids, keeps) = requests.back x n' at' in subst Distinct qids (o.distinct x n at);
}

-- A new request at the end of the queues that it names.
module _ (n : DagNode) (d c : Dag) (once : Distinct n.qids)
    (fresh : (x : ℕ) (m : DagNode) → get d.nodes x ≡ some m → x < d.next)
    (nodes : c.nodes ≡ put d.nodes d.next n)
    (joined : (j : ℕ)
      → contents_of c j
        ≡ (if names n.qids j then contents_of d j ++ d.next ∷ [] else contents_of d j))
    (o : IsOrdered d) where
  old_there : (x : ℕ) (m : DagNode) → get d.nodes x ≡ some m → get c.nodes x ≡ some m
  old_there x m at =
      let less = fresh x m at in
      let miss : (d.next == x) ≡ false = ground (arith, less) in
      ap (λ t. get t x) nodes ∙ get-put d.nodes d.next x n ∙ rw miss at

  new_there : get c.nodes d.next ≡ some n
  new_there = ap (λ t. get t d.next) nodes ∙ get-put_self d.nodes d.next n

  pub found_in :
      (x : ℕ) (m : DagNode)
      → get c.nodes x ≡ some m
      → ((d.next ≡ x) × (n ≡ m)) ⊎ ((d.next ≢ x) × (get d.nodes x ≡ some m))
  found_in x m at = look_put d.nodes d.next x n m (ap (λ t. get t x) (sym nodes) ∙ at)

  below : (j : ℕ) → All (λ y. y < d.next) (contents_of d j)
  below j =
      all_in (λ y. y < d.next) (contents_of d j)
        (λ x i. let (m, at, named) = o.member j x i in fresh x m at)

  was_member :
      (j x : ℕ)
      → In x (contents_of d j)
      → (m : DagNode) × (get c.nodes x ≡ some m) × (names m.qids j ≡ true)
  was_member j x i = let (m, at, named) = o.member j x i in (m, old_there x m at, named)

  pub added-IsOrdered : IsOrdered c
  added-IsOrdered = record {
    rising = λ j. elim (Bool-cases (names n.qids j)) [
      | inl named ↦
          subst IsRising (sym (joined j ∙ rw named refl))
            (joins-IsRising d.next (contents_of d j) (o.rising j) (below j))
      | inr unnamed ↦ subst IsRising (sym (joined j ∙ rw unnamed refl)) (o.rising j)
    ];
    member = λ j x i. elim (Bool-cases (names n.qids j)) [
      | inl named ↦
          elim (In-append x (contents_of d j) (d.next ∷ [])
            (subst (In x) (joined j ∙ rw named refl) i)) [
              | inl old ↦ was_member j x old
              | inr (inl new) ↦ (n, ap (get c.nodes) new ∙ new_there, named)
              | inr (inr nobody) ↦ absurd nobody
            ]
      | inr unnamed ↦ was_member j x (subst (In x) (joined j ∙ rw unnamed refl) i)
    ];
    present = λ j x m at named. elim (found_in x m at) [
      | inl (same, is) ↦
          let named' : names n.qids j ≡ true = ap (λ r. names r.qids j) is ∙ named in
          subst (In x) (sym (joined j ∙ rw named' refl))
            (In-append_right x (contents_of d j) (d.next ∷ []) (inl (sym same)))
      | inr (other, at') ↦
          let old = o.present j x m at' named in
          elim (Bool-cases (names n.qids j)) [
            | inl named' ↦
                subst (In x) (sym (joined j ∙ rw named' refl))
                  (In-append_left x (contents_of d j) (d.next ∷ []) old)
            | inr unnamed ↦ subst (In x) (sym (joined j ∙ rw unnamed refl)) old
          ]
    ];
    distinct = λ x m at. elim (found_in x m at) [
      | inl (same, is) ↦ subst (λ r. Distinct r.qids) is once
      | inr (other, at') ↦ o.distinct x m at'
    ];
  }

unlike : false ≡ true → ⊥
unlike e = cc

-- A request that leaves its queues, of all of which it is the first, and is freed.
module _ (node : ℕ) (n : DagNode) (d c : Dag) (at : get d.nodes node ≡ some n)
    (first : (j : ℕ) → names n.qids j ≡ true → head? (contents_of d j) ≡ some node)
    (left : (j : ℕ)
      → contents_of c j ≡ (if names n.qids j then tail (contents_of d j) else contents_of d j))
    (requests : SameRequests d c) (o : IsOrdered d) where
  freed : Dag
  freed = record c { nodes = del c.nodes node }

  still_there :
      (j x : ℕ)
      → node ≢ x
      → In x (contents_of d j)
      → (m : DagNode) × (get (del c.nodes node) x ≡ some m) × (names m.qids j ≡ true)
  still_there j x other i =
      let (m, found, named) = o.member j x i in
      let (m', found', qids) = requests.there x m found in
      let miss : (node == x) ≡ false = ground (arith, other) in
      (m', get-del c.nodes node x ∙ rw miss found', ap (λ l. names l j) qids ∙ named)

  pub was_there :
      (x : ℕ) (m' : DagNode)
      → get (del c.nodes node) x ≡ some m'
      → (node ≢ x) × (get c.nodes x ≡ some m')
  was_there x m' found = ground (arith, get-del c.nodes node x, found)

  pub freed-IsOrdered : IsOrdered (record c { nodes = del c.nodes node })
  freed-IsOrdered = record {
    rising = λ j. elim (Bool-cases (names n.qids j)) [
      | inl named ↦
          subst IsRising (sym (left j ∙ rw named refl))
            (tail-IsRising (contents_of d j) (o.rising j))
      | inr unnamed ↦ subst IsRising (sym (left j ∙ rw unnamed refl)) (o.rising j)
    ];
    member = λ j x i. elim (Bool-cases (names n.qids j)) [
      | inl named ↦
          let i' : In x (tail (contents_of d j)) = subst (In x) (left j ∙ rw named refl) i in
          let less = after_head (contents_of d j) node x (o.rising j) (first j named) i' in
          still_there j x (omega (arith, less)) (In-tail x (contents_of d j) i')
      | inr unnamed ↦
          let i' : In x (contents_of d j) = subst (In x) (left j ∙ rw unnamed refl) i in
          still_there j x (not_it j x unnamed i') i'
    ];
    present = λ j x m' found' named.
        let (other, found) = was_there x m' found' in
        let (m, found0, qids, keeps) = requests.back x m' found in
        let i = o.present j x m found0 (ap (λ l. names l j) qids ∙ named) in
        elim (Bool-cases (names n.qids j)) [
          | inl named' ↦ elim (In-cases (contents_of d j) node x (first j named') i) [
            | inl same ↦ absurd (other (sym same))
            | inr later ↦ subst (In x) (sym (left j ∙ rw named' refl)) later
          ]
          | inr unnamed ↦ subst (In x) (sym (left j ∙ rw unnamed refl)) i
        ];
    distinct = λ x m' found'.
        let (other, found) = was_there x m' found' in
        let (m, found0, qids, keeps) = requests.back x m' found in
        subst Distinct qids (o.distinct x m found0);
  }
    where
      not_it : (j x : ℕ) → names n.qids j ≡ false → In x (contents_of d j) → node ≢ x
      not_it j x unnamed i same =
          let (m, found, named) = o.member j x i in
          let is : n ≡ m = some-injective n m (sym at ∙ ap (get d.nodes) same ∙ found) in
          unlike (sym unnamed ∙ ap (λ r. names r.qids j) is ∙ named)
