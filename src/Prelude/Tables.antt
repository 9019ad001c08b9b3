-- ===== src/Prelude/Tables.antt =====
-- A hash table (`apr_hash_t`, `mpr_hash_t`) as the association list of its entries.
use mathlib.Core.Path.{◌≡◌, refl, sym, ap, subst, ◌∙◌}
use mathlib.Core.Bool.{Bool, true}
use mathlib.Core.Logic.{inl, inr}
use mathlib.Core.Option.{Option, none, some, some-injective}
use mathlib.Core.List.{List, [], ◌∷◌}
use native.Mathlib.Omega.{arith}
use mpaxos.Prelude.Tests.{Key, if◌then◌else◌, Bool-cases}

abbrev pub Dict {ℓ κ} : Type ℓ → Type κ → Type (ℓ ⊔ κ)
Dict K V = List (K × V)

pub same_refl {ℓ} : {K : Type ℓ} ⦃key : Key K⦄ (a : K) → key.same a a ≡ true
same_refl ⦃key⦄ a = (key.same_iff a a).1 refl

module _ {ℓ κ} {K : Type ℓ} {V : Type κ} ⦃key : Key K⦄ where
  -- `apr_hash_get`: a missing key is NULL.
  unfoldable pub get : Dict K V → K → Option V
  get [] k = none
  get ((j, v) ∷ d) k = if key.same j k then some v else get d k

  -- `apr_hash_set` with a value: an entry with the key is overwritten, else one is added.
  unfoldable pub put : Dict K V → K → V → Dict K V
  put [] k v = (k, v) ∷ []
  put ((j, w) ∷ d) k v = if key.same j k then (j, v) ∷ d else (j, w) ∷ put d k v

  -- `apr_hash_set` with NULL: the entries with the key are dropped.
  unfoldable pub del : Dict K V → K → Dict K V
  del [] k = []
  del ((j, w) ∷ d) k = let rest = del d k in if key.same j k then rest else (j, w) ∷ rest

  -- What a lookup finds after a write.
  pub get-put :
      (d : Dict K V) (k j : K) (v : V)
      → get (put d k v) j ≡ (if key.same k j then some v else get d j)
  unfolding get put
  get-put [] k j v = refl
  get-put ((i, w) ∷ d) k j v =
      ground (arith, key.same_iff i k, key.same_iff k j, key.same_iff i j, get-put d k j v)

  -- What a lookup finds after a deletion.
  pub get-del :
      (d : Dict K V) (k j : K) → get (del d k) j ≡ (if key.same k j then none else get d j)
  unfolding get del
  get-del [] k j = ground arith
  get-del ((i, w) ∷ d) k j =
      ground (arith, key.same_iff i k, key.same_iff k j, key.same_iff i j, get-del d k j)

  pub get-put_self : (d : Dict K V) (k : K) (v : V) → get (put d k v) k ≡ some v
  get-put_self d k v = ground (arith, get-put d k k v, same_refl k)

  pub get-del_self : (d : Dict K V) (k : K) → get (del d k) k ≡ none
  get-del_self d k = ground (arith, get-del d k k, same_refl k)

  -- Every entry that a lookup finds.
  abbrev pub AllAt {μ} : (K → V → Type μ) → Dict K V → Type (ℓ ⊔ κ ⊔ μ)
  AllAt P d = (k : K) (v : V) → get d k ≡ some v → P k v

  pub put-AllAt {μ} :
      (P : K → V → Type μ) (d : Dict K V) (k : K) (v : V) → AllAt P d → P k v → AllAt P (put d k v)
  put-AllAt P d k v all here j x at = elim (Bool-cases (key.same k j)) [
    | inl hit ↦
        subst (λ i. P i x) ((key.same_iff k j).0 hit)
          (subst (P k) (some-injective _ _ (sym (looked hit) ∙ at)) here)
    | inr miss ↦ all j x (sym (looked miss) ∙ at)
  ]
    where
      looked : {b : Bool} → key.same k j ≡ b → get (put d k v) j ≡ (if b then some v else get d j)
      looked e = get-put d k j v ∙ ap (λ b. if b then some v else get d j) e

  pub del-AllAt {μ} : (P : K → V → Type μ) (d : Dict K V) (k : K) → AllAt P d → AllAt P (del d k)
  del-AllAt P d k all j x at = elim (Bool-cases (key.same k j)) [
    | inl hit ↦ absurd (none_some (sym (looked hit) ∙ at))
    | inr miss ↦ all j x (sym (looked miss) ∙ at)
  ]
    where
      looked : {b : Bool} → key.same k j ≡ b → get (del d k) j ≡ (if b then none else get d j)
      looked e = get-del d k j ∙ ap (λ b. if b then none else get d j) e

      none_some : none ≡ some x → ⊥
      none_some e = cc

  -- Every value that a lookup finds.
  abbrev pub AllEntries {μ} : (V → Type μ) → Dict K V → Type (ℓ ⊔ κ ⊔ μ)
  AllEntries P d = AllAt (λ k. P) d

  pub put-AllEntries {μ} :
      (P : V → Type μ) (d : Dict K V) (k : K) (v : V)
      → AllEntries P d
      → P v
      → AllEntries P (put d k v)
  put-AllEntries P = put-AllAt (λ k. P)

  pub del-AllEntries {μ} :
      (P : V → Type μ) (d : Dict K V) (k : K) → AllEntries P d → AllEntries P (del d k)
  del-AllEntries P = del-AllAt (λ k. P)
