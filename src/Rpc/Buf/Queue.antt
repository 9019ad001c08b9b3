-- ===== src/Rpc/Buf/Queue.antt =====
-- What the operations of libmpaxos/rpc/buf.c do to the contents of a buffer: they are a queue of bytes.
use mpaxos.Prelude.{
  ℕ, zero, suc, ◌+◌, ◌*◌, ◌^◌, ◌≤◌, ◌≡◌, refl, sym, ◌∙◌, ap, Bool-cases, inl, inr, List, [], ◌∷◌,
  ◌++◌, arith, leb, le→leb, if◌then◌else◌, ok, length, length-append, take, drop, length-drop,
  take_of_length-le, drop-drop,
}
use mpaxos.Rpc.Buf.Defs.{
  Buf, buf_sz_content, buf_write, content, available, buf_peek, buf_read, IsBuf,
}
use mpaxos.Rpc.Buf.Growth.{drop-append_within, size_content, content_rest, buf_readjust_lem}

-- Bytes that are placed after the contents, in memory that has room for them.
pub append_lem :
    (bytes : List ℕ) (c : Buf)
    → IsBuf c
    → c.idx_write + length bytes ≤ c.sz
    → let c' = record c {
      raw = take c.idx_write c.raw ++ bytes;
      idx_write = c.idx_write + length bytes;
    } in
      IsBuf c' × (content c' ≡ content c ++ bytes)
append_lem bytes c j fits =
    let whole : take c.idx_write c.raw ≡ c.raw =
      take_of_length-le c.idx_write c.raw (omega (arith, j.bytes)) in
    let c' : Buf = record c {
      raw = take c.idx_write c.raw ++ bytes;
      idx_write = c.idx_write + length bytes;
    } in
    let j' : IsBuf c' = record {
      front = omega (arith, j.front);
      back = fits;
      bytes =
          length-append (take c.idx_write c.raw) bytes ∙ (omega (arith, ap length whole, j.bytes));
      small = j.small;
      large = j.large;
    } in
    (
      j',
      content_rest c' j'
          ∙ ap (λ raw. drop c.idx_read (raw ++ bytes)) whole
          ∙ drop-append_within c.idx_read c.raw bytes (omega (arith, j.front, j.bytes))
          ∙ ap (λ l. l ++ bytes) (sym (content_rest c j)),
    )

-- In a buffer in order, if twice the bytes up to the end of the new ones fit 64 bits: `buf_write` returns
-- a buffer in order, and the new bytes come after the contents.
pub buf_write_lem :
    (bytes : List ℕ) (b : Buf)
    → IsBuf b
    → (b.idx_write + length bytes) * 2 ≤ 2 ^ 64
    → (b' : Buf) × (buf_write bytes b ≡ ok b') × IsBuf b' × (content b' ≡ content b ++ bytes)
unfolding buf_write
buf_write_lem bytes b i room =
    let (c, run, j, same, fits) =
      buf_readjust_lem (suc (length bytes)) (length bytes) b i room (omega arith) in
    let (j', grown) = append_lem bytes c j fits in
    (
      record c { raw = take c.idx_write c.raw ++ bytes; idx_write = c.idx_write + length bytes },
      rw (run, le→leb (c.idx_write + length bytes) c.sz fits),
      j',
      grown ∙ ap (λ l. l ++ bytes) same,
    )

drop_of_length-le : (n : ℕ) (xs : List ℕ) → length xs ≤ n → drop n xs ≡ []
drop_of_length-le zero [] h = refl
drop_of_length-le zero (x ∷ xs) h = absurd (omega arith)
drop_of_length-le (suc n) [] h = refl
drop_of_length-le (suc n) (x ∷ xs) h = drop_of_length-le n xs (omega arith)

take_of_length-le_twice :
    (n k : ℕ) (xs : List ℕ) → length xs ≤ n → length xs ≤ k → take n xs ≡ take k xs
take_of_length-le_twice n k xs h h' = take_of_length-le n xs h ∙ sym (take_of_length-le k xs h')

module _ (n : ℕ) (b : Buf) (i : IsBuf b) where
  pub length-content : length (content b) ≡ buf_sz_content b
  length-content =
      ap length (content_rest b i)
      ∙ length-drop b.idx_read b.raw
      ∙ (omega (arith, i.bytes, size_content b i))

  available_cases :
      (available n b ≤ buf_sz_content b)
      × (take (available n b) (content b) ≡ take n (content b))
      × (drop (available n b) (content b) ≡ drop n (content b))
  unfolding available
  available_cases = elim (Bool-cases (leb n (buf_sz_content b))) [
    | inl enough ↦ (
      ground arith,
      ap (λ k. take (if k then n else buf_sz_content b) (content b)) enough,
      ap (λ k. drop (if k then n else buf_sz_content b) (content b)) enough,
    )
    | inr short ↦
        let less : buf_sz_content b ≤ n = ground arith in
        (
          ground arith,
          ap (λ k. take (if k then n else buf_sz_content b) (content b)) short
              ∙ take_of_length-le_twice (buf_sz_content b) n (content b)
                  (omega (arith, length-content)) (omega (arith, length-content, less)),
          ap (λ k. drop (if k then n else buf_sz_content b) (content b)) short
              ∙ drop_of_length-le (buf_sz_content b) (content b) (omega (arith, length-content))
              ∙ sym (drop_of_length-le n (content b) (omega (arith, length-content, less))),
        )
  ]

  -- In a buffer in order, a read returns the first bytes of the contents, as many as there are up to `n`,
  -- and leaves the others in a buffer in order.
  pub buf_read_lem :
      ((buf_read n b).0 ≡ take n (content b))
      × (content (buf_read n b).1 ≡ drop n (content b))
      × IsBuf (buf_read n b).1
  unfolding buf_read buf_peek
  buf_read_lem =
      let (fits, taken, left) = available_cases in
      let b' : Buf = record b { idx_read = b.idx_read + available n b } in
      let j : IsBuf b' = record {
        front = omega (arith, fits, size_content b i, i.front);
        back = i.back;
        bytes = i.bytes;
        small = i.small;
        large = i.large;
      } in
      (
        ap (take (available n b)) (sym (content_rest b i)) ∙ taken,
        content_rest b' j
            ∙ sym (drop-drop b.idx_read (available n b) b.raw)
            ∙ ap (drop (available n b)) (sym (content_rest b i))
            ∙ left,
        j,
      )
