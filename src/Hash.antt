-- ===== src/Hash.antt =====
-- libmpaxos/utils/mpr_hash.h: the wrapper around a hash table of APR that owns its keys and values. Its
-- lock is held over each function, so each is one step.
use mpaxos.Prelude.{
  ◌≡◌, refl, sym, Bool-cases, Option-cases, inl, inr, ap, ◌∙◌, if◌then◌else◌, arith, Option, none,
  some, Dict, Key, get, put, del, get-put, get-del,
}

module _ {ℓ κ} {K : Type ℓ} {V : Type κ} ⦃key : Key K⦄ where
  -- `mpr_hash_get`
  abbrev pub mpr_hash_get : Dict K V → K → Option V
  mpr_hash_get ht k = get ht k

  -- The entry of a key is taken out where there is one.
  abbrev remove_old : Option V → Dict K V → K → Dict K V
  remove_old none ht k = ht
  remove_old (some v_old) ht k = del ht k

  -- The new entry, or none for a value of NULL.
  abbrev store_new : Option V → Dict K V → K → Dict K V
  store_new none ht k = ht
  store_new (some value) ht k = put ht k value

  -- `mpr_hash_set`
  unfoldable pub mpr_hash_set : Dict K V → K → Option V → Dict K V
  mpr_hash_set ht k value = store_new value (remove_old (get ht k) ht k) k

  remove_old_lem :
      (ht : Dict K V) (k j : K)
      → get (remove_old (get ht k) ht k) j ≡ (if key.same k j then none else get ht j)
  remove_old_lem ht k j = elim (Option-cases (get ht k)) [
    | inl missing ↦ rw missing (elim (Bool-cases (key.same k j)) [
      | inl hit ↦ rw hit (ap (get ht) (sym ((key.same_iff k j).0 hit)) ∙ missing)
      | inr miss ↦ rw miss refl
    ])
    | inr (v_old, there) ↦ rw there (get-del ht k j)
  ]

  -- After a set, a lookup of the key finds the new value, or nothing for NULL; every other key is found
  -- as before.
  mpr_hash_get-mpr_hash_set :
      (ht : Dict K V) (k j : K) (value : Option V)
      → mpr_hash_get (mpr_hash_set ht k value) j
        ≡ (if key.same k j then value else mpr_hash_get ht j)
  unfolding mpr_hash_set
  mpr_hash_get-mpr_hash_set ht k j none = remove_old_lem ht k j
  mpr_hash_get-mpr_hash_set ht k j (some value) =
      ground (arith, get-put (remove_old (get ht k) ht k) k j value, remove_old_lem ht k j)
