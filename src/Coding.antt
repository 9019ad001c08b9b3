-- ===== src/Coding.antt =====
-- libmpaxos/rs_helper.h: a value is cut into `k` shares and coded into `n`. The coder, `fec_encode`
-- of the zfec library, is given: from `k`, `n` and the primary shares it makes the others.
use mathlib.Core.Path.{◌≡⟨◌⟩◌, ◌∎}
use native.Mathlib.Nat.{div-add-mod, mod-lt}
use mpaxos.Prelude.{
  ℕ, zero, suc, ◌+◌, ◌-◌, ◌*◌, ◌/◌, ◌%◌, ◌^◌, ◌≤◌, ◌<◌, ◌≡◌, ◌≢◌, refl, sym, ap, ◌∙◌, ◌⊎◌, inl, inr,
  Bool-cases, List, [], ◌∷◌, ◌++◌, arith, ◌==◌, leb, le→leb, if◌then◌else◌, Result, ok, fault,
  ◌>>=◌, length, take, drop, take-add, drop-drop, take_of_length-le,
}
use mpaxos.Types.{CodedValue}

abbrev pub Coder : Type 0
Coder = ℕ → ℕ → List (List ℕ) → List (List ℕ)

-- `memcpy(share, data + off, n)`: undefined past the end of the data.
unfoldable pub read_at : List ℕ → ℕ → ℕ → Result (List ℕ)
read_at bytes off n = if leb (off + n) (length bytes) then ok (take n (drop off bytes)) else fault

-- The copies of `rs_encode`: `rounds` shares of `sz` bytes, from share `i` on.
unfoldable pub read_shares : List ℕ → ℕ → ℕ → ℕ → Result (List (List ℕ))
unfolding read_at
read_shares bytes sz i zero = ok []
read_shares bytes sz i (suc rounds) = do
  share ← read_at bytes (sz * i) sz
  shares ← read_shares bytes sz (i + 1) rounds
  ok (share ∷ shares)

-- `size_t sz_share = (sz_data + k - 1) / k`
abbrev pub share_size : ℕ → ℕ → ℕ
share_size sz k = (sz + k - 1) / k

-- The last loop of `rs_encode`: the coded values, numbered from `id`. The field `sz` has 32 bits.
unfoldable pub label : ℕ → ℕ → ℕ → ℕ → List (List ℕ) → List CodedValue
label sz k n id [] = []
label sz k n id (share ∷ shares) =
    (record { sz = sz % 2 ^ 32; k = k; n = n; id = id; value = share })
    ∷ label sz k n (id + 1) shares

-- `rs_encode`
unfoldable pub rs_encode : Coder → List ℕ → ℕ → ℕ → Result (List CodedValue)
unfolding read_shares label
rs_encode fec bytes k n = do
  primary ← read_shares bytes (share_size (length bytes) k) 0 k
  ok (label (length bytes) k n 0 (primary ++ fec k n primary))

-- The shares, put together again.
abbrev pub joined : List (List ℕ) → List ℕ
joined [] = []
joined (s ∷ ss) = s ++ joined ss

abbrev pub values : List CodedValue → List (List ℕ)
values [] = []
values (c ∷ cs) = c.value ∷ values cs

-- Reading `rounds` shares from share `i` on succeeds if the data has them, and then they are the data
-- from there on, in order.
read_shares_ok :
    (bytes : List ℕ) (sz i rounds : ℕ)
    → sz * i + sz * rounds ≤ length bytes
    → (ss : List (List ℕ)) × (read_shares bytes sz i rounds ≡ ok ss)
      × (length ss ≡ rounds)
      × (joined ss ≡ take (sz * rounds) (drop (sz * i) bytes))
unfolding read_shares read_at
read_shares_ok bytes sz i zero h =
    ([], refl, refl, ap (λ n. take n (drop (sz * i) bytes)) (let z : 0 ≡ sz * 0 = omega arith in z))
read_shares_ok bytes sz i (suc rounds) h =
    let (ss, e, len, all) = read_shares_ok bytes sz (i + 1) rounds (omega arith) in
    (
      take sz (drop (sz * i) bytes) ∷ ss,
      rw (le→leb (sz * i + sz) (length bytes) (omega arith), e),
      omega arith,
      (take sz (drop (sz * i) bytes) ++ joined ss
          ≡⟨ ap (λ l. take sz (drop (sz * i) bytes) ++ l)
              (all
                ∙ ap (λ n. take (sz * rounds) (drop n bytes))
                    (let e1 : sz * (i + 1) ≡ sz * i + sz = omega arith in e1)) ⟩
            take sz (drop (sz * i) bytes) ++ take (sz * rounds) (drop (sz * i + sz) bytes)
          ≡⟨ ap (λ l. take sz (drop (sz * i) bytes) ++ take (sz * rounds) l)
              (sym (drop-drop (sz * i) sz bytes)) ⟩
            take sz (drop (sz * i) bytes) ++ take (sz * rounds) (drop sz (drop (sz * i) bytes))
          ≡⟨ sym (take-add sz (sz * rounds) (drop (sz * i) bytes)) ⟩
            take (sz + sz * rounds) (drop (sz * i) bytes)
          ≡⟨ ap (λ n. take n (drop (sz * i) bytes))
              (let e2 : sz + sz * rounds ≡ sz * suc rounds = omega arith in e2) ⟩
            take (sz * suc rounds) (drop (sz * i) bytes) ∎),
    )

read_at_past : (bytes : List ℕ) (off n : ℕ) → length bytes < off + n → read_at bytes off n ≡ fault
unfolding read_at
read_at_past bytes off n h = ground arith

-- A share past the end of the data is a read out of bounds.
read_shares_fault :
    (bytes : List ℕ) (sz i rounds : ℕ)
    → 0 < rounds
    → length bytes < sz * i + sz * rounds
    → read_shares bytes sz i rounds ≡ fault
unfolding read_shares
read_shares_fault bytes sz i zero p h = absurd (omega arith)
read_shares_fault bytes sz i (suc zero) p h = rw (read_at_past bytes (sz * i) sz (omega arith))
read_shares_fault bytes sz i (suc (suc rounds)) p h =
    elim (Bool-cases (leb (sz * i + sz) (length bytes))) [
      | inl fits ↦
          rw (fits, read_shares_fault bytes sz (i + 1) (suc rounds) (omega arith) (omega arith))
      | inr past ↦ rw past
    ]

share_size_even : (len k : ℕ) → 0 < k → len % k ≡ 0 → share_size len k * k ≡ len
share_size_even len k pos h = grind (arith, div-add-mod len k, div-add-mod (len + k - 1) k, mod-lt)

share_size_odd : (len k : ℕ) → 0 < k → len % k ≢ 0 → len < share_size len k * k
share_size_odd len k pos h = grind (arith, div-add-mod len k, div-add-mod (len + k - 1) k, mod-lt)

values-label : (sz k n id : ℕ) (ss : List (List ℕ)) → values (label sz k n id ss) ≡ ss
unfolding label
values-label sz k n id [] = refl
values-label sz k n id (s ∷ ss) = ap (◌∷◌ s) (values-label sz k n (id + 1) ss)

-- For `k` above 0: a value whose length `k` divides is cut into `k` shares that make it up again, and
-- the coded values are those shares and what the coder makes of them. Any other value is read past
-- its end.
pub rs_encode_lem :
    (fec : Coder) (bytes : List ℕ) (k n : ℕ)
    → 0 < k
    → ((length bytes % k ≡ 0)
        × (ss : List (List ℕ)) × (cvs : List CodedValue) × (rs_encode fec bytes k n ≡ ok cvs)
        × (values cvs ≡ ss ++ fec k n ss)
        × (length ss ≡ k)
        × (joined ss ≡ bytes))
      ⊎ ((length bytes % k ≢ 0) × (rs_encode fec bytes k n ≡ fault))
unfolding rs_encode
rs_encode_lem fec bytes k n pos = elim (Bool-cases (length bytes % k == 0)) [
  | inl even ↦ let e : length bytes % k ≡ 0 = ground arith in inl (whole e)
  | inr odd ↦
      let o : length bytes % k ≢ 0 = ground arith in
      let past : length bytes < share_size (length bytes) k * k = share_size_odd _ k pos o in
      inr (o, rw (read_shares_fault bytes (share_size (length bytes) k) 0 k pos (omega arith)))
]
  where
    joined_all : (sz : ℕ) → sz * k ≡ length bytes → take (sz * k) (drop (sz * 0) bytes) ≡ bytes
    joined_all sz fits =
        let zero_off : sz * 0 ≡ 0 = omega arith in
        ap (λ o. take (sz * k) (drop o bytes)) zero_off
        ∙ take_of_length-le (sz * k) bytes (omega arith)

    whole :
        length bytes % k ≡ 0
        → (length bytes % k ≡ 0)
          × (ss : List (List ℕ)) × (cvs : List CodedValue) × (rs_encode fec bytes k n ≡ ok cvs)
          × (values cvs ≡ ss ++ fec k n ss)
          × (length ss ≡ k)
          × (joined ss ≡ bytes)
    whole even =
        let sz : ℕ = share_size (length bytes) k in
        let fits : sz * k ≡ length bytes = share_size_even _ k pos even in
        let (ss, e, len, all) = read_shares_ok bytes sz 0 k (omega arith) in
        (
          even,
          ss,
          label (length bytes) k n 0 (ss ++ fec k n ss),
          rw e,
          values-label _ k n 0 _,
          len,
          all ∙ joined_all sz fits,
        )
