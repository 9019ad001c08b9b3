-- ===== src/Rpc/Conn/Frames.antt =====
-- The frames of libmpaxos/rpc: what `write_trigger_poll` appends is what the read loops take apart.
use mpaxos.Prelude.{
  ℕ, ◌+◌, ◌^◌, ◌≤◌, ◌<◌, ◌≡◌, refl, sym, ap, subst, ◌∙◌, Bool-cases, inl, inr, false, ◌⊎◌, ltb, leb,
  le→leb, lt→ltb, le→ltb, none, some, List, ◌++◌, arith, ok, abort, ==_iff, length, length-append,
  length-take, take, drop, take-append, drop-append, if_same, gt→leb,
}
use mpaxos.Rpc.Buf.{Buf, buf_sz_content, buf_read, buf_peek, content, IsBuf}
use mpaxos.Rpc.Buf.Queue.{buf_read_lem, length-content}
use mpaxos.Rpc.Conn.Defs.{
  u32_bytes, u16_bytes, from_bytes, sz_szmsg, sz_msgid, sconn_next, client_next,
}

-- A message of the wire: a type and data, of sizes that the fields of a frame can hold.
abbrev pub IsMessage : ℕ × List ℕ → Type 0
IsMessage (msgid, input) = (msgid < 2 ^ 16) × (length input < 2 ^ 32)

abbrev pub frame : ℕ × List ℕ → List ℕ
frame (msgid, input) = u32_bytes (length input) ++ u16_bytes msgid ++ input

from_u32 : (n : ℕ) → n < 2 ^ 32 → from_bytes (u32_bytes n) ≡ n
from_u32 n h = omega arith

from_u16 : (n : ℕ) → n < 2 ^ 16 → from_bytes (u16_bytes n) ≡ n
from_u16 n h = omega arith

-- Bytes that do not start with a whole frame.
abbrev pub IsPartial : List ℕ → Type 0
IsPartial bytes = (length bytes ≤ 4) ⊎ (length bytes < from_bytes (take 4 bytes) + 6)

-- A read of a known front of the contents.
read_front :
    (front rest : List ℕ) (b : Buf)
    → IsBuf b
    → content b ≡ front ++ rest
    → ((buf_read (length front) b).0 ≡ front)
      × (content (buf_read (length front) b).1 ≡ rest)
      × IsBuf (buf_read (length front) b).1
read_front front rest b i e =
    let (taken, left, j) = buf_read_lem (length front) b i in
    (
      taken ∙ ap (take (length front)) e ∙ take-append front rest,
      left ∙ ap (drop (length front)) e ∙ drop-append front rest,
      j,
    )

-- The three reads of a message.
read_frame :
    (m : ℕ × List ℕ) (rest : List ℕ) (b : Buf)
    → IsMessage m
    → IsBuf b
    → content b ≡ frame m ++ rest
    → let b1 = (buf_read 4 b).1 in
      let b2 = (buf_read 2 b1).1 in
      let b3 = (buf_read (length m.1) b2).1 in
      ((buf_read 4 b).0 ≡ u32_bytes (length m.1))
      × ((buf_read 2 b1).0 ≡ u16_bytes m.0)
      × ((buf_read (length m.1) b2).0 ≡ m.1)
      × (content b3 ≡ rest)
      × IsBuf b3
read_frame (msgid, input) rest b h i e =
    let (size, left1, i1) =
      read_front (u32_bytes (length input)) (u16_bytes msgid ++ input ++ rest) b i e in
    let b1 = (buf_read 4 b).1 in
    let (type, left2, i2) = read_front (u16_bytes msgid) (input ++ rest) b1 i1 left1 in
    let b2 = (buf_read 2 b1).1 in
    let (body, left3, i3) = read_front input rest b2 i2 left2 in (size, type, body, left3, i3)

module _ (m : ℕ × List ℕ) (rest : List ℕ) (b : Buf) (h : IsMessage m) (i : IsBuf b)
    (e : content b ≡ frame m ++ rest) where
  pub size_frame : buf_sz_content b ≡ 6 + length m.1 + length rest
  size_frame = omega (arith, length-content 0 b i, ap length e, length-append m.1 rest)

  peek_frame : from_bytes (buf_peek 4 b) ≡ length m.1
  unfolding buf_read
  peek_frame = ap from_bytes (read_frame m rest b h i e).0 ∙ from_u32 (length m.1) h.1

  peek_length : length (buf_peek 4 b) ≡ 4
  unfolding buf_read
  peek_length = ap length (read_frame m rest b h i e).0

  read_size : from_bytes (buf_read 4 b).0 ≡ length m.1
  read_size = ap from_bytes (read_frame m rest b h i e).0 ∙ from_u32 (length m.1) h.1

  read_msgid : from_bytes (buf_read 2 (buf_read 4 b).1).0 ≡ m.0
  read_msgid = ap from_bytes (read_frame m rest b h i e).1 ∙ from_u16 m.0 h.0

  -- A whole frame at the front is taken off.
  pub client_next_frame :
      (b' : Buf) × (client_next b ≡ ok (some m, b')) × IsBuf b' × (content b' ≡ rest)
  unfolding client_next
  client_next_frame =
      let (size, type, body, left, j) = read_frame m rest b h i e in
      (
        (buf_read (length m.1) (buf_read 2 (buf_read 4 b).1).1).1,
        rw
            (
              lt→ltb 4 (buf_sz_content b) (omega (arith, size_frame)),
              peek_frame,
              le→leb (length m.1 + sz_szmsg + sz_msgid) (buf_sz_content b)
                  (omega (arith, size_frame)),
              read_size,
              read_msgid,
              body,
            )
            refl,
        j,
        left,
      )

  -- So it is by a server, if it has data.
  pub sconn_next_frame :
      0 < length m.1
      → (b' : Buf) × (sconn_next b ≡ ok (some m, b')) × IsBuf b' × (content b' ≡ rest)
  unfolding sconn_next
  sconn_next_frame full =
      let (size, type, body, left, j) = read_frame m rest b h i e in
      (
        (buf_read (length m.1) (buf_read 2 (buf_read 4 b).1).1).1,
        rw
            (
              lt→ltb 4 (buf_sz_content b) (omega (arith, size_frame)),
              peek_length,
              peek_frame,
              lt→ltb 0 (length m.1) full,
              le→leb (length m.1 + sz_szmsg + sz_msgid) (buf_sz_content b)
                  (omega (arith, size_frame)),
              ap length size,
              read_size,
              read_msgid,
              ap length type,
              body,
              (==_iff (length m.1) (length m.1)).1 refl,
            )
            refl,
        j,
        left,
      )

  -- A frame without data aborts a server.
  pub sconn_next_empty : length m.1 ≡ 0 → sconn_next b ≡ abort
  unfolding sconn_next
  sconn_next_empty empty =
      rw (lt→ltb 4 (buf_sz_content b) (omega (arith, size_frame)), peek_length, peek_frame ∙ empty)
        refl

module _ (b : Buf) (i : IsBuf b) (waits : IsPartial (content b)) where
  peek_content : buf_peek 4 b ≡ take 4 (content b)
  unfolding buf_read
  peek_content = (buf_read_lem 4 b i).0

  -- Either too few bytes for a size, or fewer than the size announces.
  partial_cases :
      (ltb sz_szmsg (buf_sz_content b) ≡ false)
      ⊎ (leb (from_bytes (buf_peek sz_szmsg b) + sz_szmsg + sz_msgid) (buf_sz_content b) ≡ false)
  partial_cases = elim waits [
    | inl short ↦
        inl (le→ltb sz_szmsg (buf_sz_content b) (omega (arith, short, length-content 0 b i)))
    | inr short ↦
        inr (gt→leb _ _ (omega (arith, short, length-content 0 b i, ap from_bytes peek_content)))
  ]

  -- A part of a frame is left in the buffer.
  pub client_next_partial : client_next b ≡ ok (none, b)
  unfolding client_next
  client_next_partial = elim partial_cases [
    | inl short ↦ rw short refl
    | inr short ↦ rw short (if_same (ltb sz_szmsg (buf_sz_content b)) _)
  ]

  -- So it is by a server, unless it announces no data.
  pub sconn_next_partial :
      (4 < length (content b) → 0 < from_bytes (take 4 (content b))) → sconn_next b ≡ ok (none, b)
  unfolding sconn_next
  sconn_next_partial announced = elim (Bool-cases (ltb sz_szmsg (buf_sz_content b))) [
    | inl more ↦
        let many : 4 < length (content b) = ground (arith, length-content 0 b i) in
        let whole : length (buf_peek sz_szmsg b) ≡ 4 =
          ap length peek_content ∙ length-take 4 (content b) (omega (arith, many)) in
        let some_data : 0 < from_bytes (buf_peek sz_szmsg b) =
          subst (λ n. 0 < n) (ap from_bytes (sym peek_content)) (announced many) in
        elim partial_cases [
          | inl few ↦ absurd (cc)
          | inr short ↦
              rw (more, whole, lt→ltb 0 (from_bytes (buf_peek sz_szmsg b)) some_data, short) refl
        ]
    | inr few ↦ rw few refl
  ]
