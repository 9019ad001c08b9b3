-- ===== src/Rpc/Buf/Growth.antt =====
-- How `buf_readjust` of libmpaxos/rpc/buf.c makes room behind the contents of a buffer.
use mpaxos.Prelude.{
  ℕ, zero, suc, ◌+◌, ◌-◌, ◌*◌, ◌/◌, ◌%◌, ◌^◌, ◌≤◌, ◌<◌, ◌≡◌, refl, ◌∙◌, ap, Bool-cases, inl, inr,
  List, [], ◌∷◌, ◌++◌, arith, ltb, lt→ltb, ok, length, drop, length-drop, take_of_length-le,
}
use mpaxos.Rpc.Buf.Defs.{
  Buf, sub64, buf_sz_content, buf_realloc, next_size, buf_readjust, content, IsBuf,
}

pub drop-append_within :
    (n : ℕ) (xs ys : List ℕ) → n ≤ length xs → drop n (xs ++ ys) ≡ drop n xs ++ ys
drop-append_within zero xs ys h = refl
drop-append_within (suc n) [] ys h = absurd (omega arith)
drop-append_within (suc n) (x ∷ xs) ys h = drop-append_within n xs ys (omega arith)

pub size_content : (b : Buf) → IsBuf b → buf_sz_content b ≡ b.idx_write - b.idx_read
size_content b i = omega (arith, i.front, i.back, i.small)

pub content_rest : (b : Buf) → IsBuf b → content b ≡ drop b.idx_read b.raw
content_rest b i =
    take_of_length-le (buf_sz_content b) (drop b.idx_read b.raw)
      (omega (arith, size_content b i, length-drop b.idx_read b.raw, i.bytes))

-- The buffer after a move.
abbrev placed : Buf → ℕ → Buf
placed b sz = record { raw = content b; sz = sz; idx_read = 0; idx_write = buf_sz_content b }

placed-IsBuf :
    (b : Buf) (sz : ℕ)
    → IsBuf b
    → buf_sz_content b < sz
    → 2 ≤ sz
    → sz < 2 ^ 64
    → IsBuf (placed b sz)
placed-IsBuf b sz i fits large small = record {
  front = omega arith;
  back = omega arith;
  bytes =
      ap length (content_rest b i)
      ∙ length-drop b.idx_read b.raw
      ∙ (omega (arith, i.bytes, size_content b i));
  small = small;
  large = large;
}

placed-content :
    (b : Buf) (sz : ℕ)
    → IsBuf b
    → buf_sz_content b < sz
    → 2 ≤ sz
    → sz < 2 ^ 64
    → content (placed b sz) ≡ content b
placed-content b sz i fits large small =
    content_rest (placed b sz) (placed-IsBuf b sz i fits large small)

-- A turn of the loop asks for more than what is kept, and lengthens the tail.
next_size_grows :
    (b : Buf) (n : ℕ)
    → IsBuf b
    → (b.idx_write + n) * 2 ≤ 2 ^ 64
    → b.sz - b.idx_write < n
    → (buf_sz_content b < next_size b)
      × (2 ≤ next_size b)
      × (next_size b < 2 ^ 64)
      × (b.sz - b.idx_write < next_size b - buf_sz_content b)
unfolding next_size
next_size_grows b n i room short = elim (Bool-cases (ltb b.idx_read (b.sz / 2))) [
  | inl early ↦
      let wide : b.sz * 2 % 2 ^ 64 ≡ b.sz * 2 = omega (arith, i.back, room, short) in
      let size : next_size b ≡ b.sz * 2 = rw early wide in
      let kept = size_content b i in
      (
        omega (arith, size, kept, i.back, i.front, i.large),
        omega (arith, size, i.large),
        omega (arith, size, room, short, i.back),
        omega (arith, size, kept, i.back, i.front, i.large),
      )
  | inr late ↦
      let size : next_size b ≡ b.sz = rw late in
      let kept = size_content b i in
      let read : 0 < b.idx_read = ground (arith, i.large) in
      (
        omega (arith, size, kept, i.back, i.front, read),
        omega (arith, size, i.large),
        omega (arith, size, i.small),
        omega (arith, size, kept, i.back, i.front, read),
      )
]

-- `buf_readjust` ends after at most one turn per missing byte, keeps the contents, and leaves room for
-- the bytes that were asked for.
pub buf_readjust_lem :
    (fuel n : ℕ) (b : Buf)
    → IsBuf b
    → (b.idx_write + n) * 2 ≤ 2 ^ 64
    → n - (b.sz - b.idx_write) < fuel
    → (b' : Buf) × (buf_readjust fuel n b ≡ ok b')
      × IsBuf b'
      × (content b' ≡ content b)
      × (b'.idx_write + n ≤ b'.sz)
unfolding buf_readjust buf_realloc
buf_readjust_lem zero n b i room enough = absurd (omega arith)
buf_readjust_lem (suc fuel) n b i room enough = elim (Bool-cases (ltb (sub64 b.sz b.idx_write) n)) [
  | inl short ↦
      let tail : b.sz - b.idx_write < n = ground (arith, i.back, i.small) in
      let (keeps, large, small, longer) = next_size_grows b n i room tail in
      let kept = size_content b i in
      let (b', run, i', same, fits) =
        buf_readjust_lem fuel n (placed b (next_size b))
          (placed-IsBuf b (next_size b) i keeps large small) (omega (arith, kept, room))
          (omega (arith, longer, enough, tail)) in
      (
        b',
        rw (short, lt→ltb (buf_sz_content b) (next_size b) keeps) run,
        i',
        same ∙ placed-content b (next_size b) i keeps large small,
        fits,
      )
  | inr long ↦ (b, rw long, i, refl, ground (arith, i.back, i.small))
]
