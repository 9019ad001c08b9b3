-- ===== src/Rpc/Conn/Loops.antt =====
-- The loops of `handle_sconn_read` and `handle_client_read` over the bytes in the receive buffer.
use mpaxos.Prelude.{
  ℕ, zero, suc, ◌+◌, ◌/◌, ◌%◌, ◌≤◌, ◌<◌, ◌≡◌, refl, sym, ap, ◌∙◌, inl, inr, Bool-cases, ltb, leb,
  none, some, List, [], ◌∷◌, ◌++◌, All, arith, Result, ok, ◌>>=◌, >>=_assoc, >>=_cong, subst,
  length, length-append, length-drop, length-take, take, drop, take-drop,
}
use mpaxos.Rpc.Buf.{Buf, content, IsBuf}
use mpaxos.Rpc.Conn.Defs.{from_bytes, u32_bytes, u16_bytes, Next, client_next, read_loop}
use mpaxos.Rpc.Conn.Frames.{IsMessage, frame, IsPartial, client_next_frame, client_next_partial}
use mathlib.Core.List.{append_assoc}

abbrev pub frames : List (ℕ × List ℕ) → List ℕ
frames [] = []
frames (m ∷ ms) = frame m ++ frames ms

-- A frame has at least one byte.
pub length-frames : (ms : List (ℕ × List ℕ)) → length ms ≤ length (frames ms)
length-frames [] = omega arith
length-frames (m ∷ ms) = omega (arith, length-append (frame m) (frames ms), length-frames ms)

-- The dispatches of some messages, in order.
abbrev pub run_messages :
    {X : Type 0} → (ℕ × List ℕ → X → Result X) → List (ℕ × List ℕ) → X → Result X
run_messages dispatch [] x = ok x
run_messages dispatch (m ∷ ms) x = do x' ← dispatch m x; run_messages dispatch ms x'

module _ {X : Type 0} (dispatch : ℕ × List ℕ → X → Result X) (next : Buf → Next)
    (IsGood : ℕ × List ℕ → Type 0) (IsRest : List ℕ → Type 0)
    (takes : (m : ℕ × List ℕ) (rest : List ℕ) (b : Buf)
      → IsGood m
      → IsBuf b
      → content b ≡ frame m ++ rest
      → (b' : Buf) × (next b ≡ ok (some m, b')) × IsBuf b' × (content b' ≡ rest))
    (waits : (b : Buf) → IsBuf b → IsRest (content b) → next b ≡ ok (none, b)) where
  pub read_loop_lem :
      (fuel : ℕ) (ms : List (ℕ × List ℕ)) (rest : List ℕ) (b : Buf)
      → length ms < fuel
      → All IsGood ms
      → IsRest rest
      → IsBuf b
      → content b ≡ frames ms ++ rest
      → (b' : Buf) × IsBuf b'
        × (content b' ≡ rest)
        × ((x : X)
            → read_loop next dispatch fuel b x ≡ (run_messages dispatch ms x >>= λ y. ok (b', y)))
  unfolding read_loop
  read_loop_lem zero ms rest b h good r i e = absurd (omega arith)
  read_loop_lem (suc fuel) [] rest b h good r i e =
      (b, i, e, λ x. rw (waits b i (subst IsRest (sym e) r)) refl)
  read_loop_lem (suc fuel) (m ∷ ms) rest b h good r i e =
      let (c, taken, j, left) =
        takes m (frames ms ++ rest) b good.0 i (e ∙ append_assoc (frame m) (frames ms) rest) in
      let (b', i', kept, run) = read_loop_lem fuel ms rest c (omega (arith, h)) good.1 r j left in
      (
        b',
        i',
        kept,
        λ x. rw taken (
            >>=_cong (dispatch m x) run
            ∙ sym (>>=_assoc (dispatch m x) (run_messages dispatch ms) (λ y. ok (b', y)))),
      )

u32_bytes-from_bytes :
    (a b c d : ℕ)
    → a < 256
    → b < 256
    → c < 256
    → d < 256
    → u32_bytes (from_bytes (a ∷ b ∷ c ∷ d ∷ [])) ≡ a ∷ b ∷ c ∷ d ∷ []
u32_bytes-from_bytes a b c d ha hb hc hd =
    let n = from_bytes (a ∷ b ∷ c ∷ d ∷ []) in
    let e0 : n % 256 ≡ a = omega (arith, ha) in
    let e1 : n / 256 % 256 ≡ b = omega (arith, ha, hb) in
    let e2 : n / 65536 % 256 ≡ c = omega (arith, ha, hb, hc) in
    let e3 : n / 16777216 % 256 ≡ d = omega (arith, ha, hb, hc, hd) in cc

u16_bytes-from_bytes :
    (a b : ℕ) → a < 256 → b < 256 → u16_bytes (from_bytes (a ∷ b ∷ [])) ≡ a ∷ b ∷ []
u16_bytes-from_bytes a b ha hb =
    let n = from_bytes (a ∷ b ∷ []) in
    let e0 : n % 256 ≡ a = omega (arith, ha) in
    let e1 : n / 256 % 256 ≡ b = omega (arith, ha, hb) in cc

All-drop : (n : ℕ) (xs : List ℕ) → All (λ a. a < 256) xs → All (λ a. a < 256) (drop n xs)
All-drop zero xs h = h
All-drop (suc n) [] h = tt
All-drop (suc n) (x ∷ xs) h = All-drop n xs h.1

-- The frame at the front of bytes that hold all that its size announces.
front_frame :
    (bytes : List ℕ)
    → from_bytes (take 4 bytes) + 6 ≤ length bytes
    → All (λ a. a < 256) bytes
    → (m : ℕ × List ℕ) × (tail : List ℕ) × (bytes ≡ frame m ++ tail)
      × IsMessage m
      × All (λ a. a < 256) tail
      × (length tail + 6 ≤ length bytes)
front_frame (a ∷ b ∷ c ∷ d ∷ e ∷ f ∷ r) whole (ha, (hb, (hc, (hd, (he, (hf, small)))))) =
    let n = from_bytes (a ∷ b ∷ c ∷ d ∷ []) in
    let sized : length (take n r) ≡ n = length-take n r (omega (arith, whole)) in
    (
      (from_bytes (e ∷ f ∷ []), take n r),
      drop n r,
      sym (
          ap (λ k. (u32_bytes k ++ u16_bytes (from_bytes (e ∷ f ∷ [])) ++ take n r) ++ drop n r)
            sized
          ∙ ap (λ s. (s ++ u16_bytes (from_bytes (e ∷ f ∷ [])) ++ take n r) ++ drop n r)
              (u32_bytes-from_bytes a b c d ha hb hc hd)
          ∙ ap (λ s. a ∷ b ∷ c ∷ d ∷ (s ++ take n r) ++ drop n r) (u16_bytes-from_bytes e f he hf)
          ∙ ap (λ s. a ∷ b ∷ c ∷ d ∷ e ∷ f ∷ s) (take-drop n r)),
      (omega (arith, he, hf), omega (arith, sized, ha, hb, hc, hd)),
      All-drop n r small,
      omega (arith, length-drop n r),
    )
front_frame (a ∷ b ∷ c ∷ d ∷ e ∷ []) whole small = absurd (omega arith)
front_frame (a ∷ b ∷ c ∷ d ∷ []) whole small = absurd (omega arith)
front_frame (a ∷ b ∷ c ∷ []) whole small = absurd (omega arith)
front_frame (a ∷ b ∷ []) whole small = absurd (omega arith)
front_frame (a ∷ []) whole small = absurd (omega arith)
front_frame [] whole small = absurd (omega arith)

-- The frames at the front of any bytes, and the part of a frame after them.
split_frames :
    (n : ℕ) (bytes : List ℕ)
    → length bytes ≤ n
    → All (λ a. a < 256) bytes
    → (ms : List (ℕ × List ℕ)) × (rest : List ℕ) × (bytes ≡ frames ms ++ rest)
      × All IsMessage ms
      × IsPartial rest
      × (length ms ≤ length bytes)
split_frames zero bytes h small = ([], bytes, refl, tt, inl (omega (arith, h)), omega arith)
split_frames (suc n) bytes h small = elim (Bool-cases (leb (length bytes) 4)) [
  | inl few ↦ ([], bytes, refl, tt, inl (ground arith), omega arith)
  | inr many ↦ elim (Bool-cases (ltb (length bytes) (from_bytes (take 4 bytes) + 6))) [
    | inl short ↦ ([], bytes, refl, tt, inr (ground arith), omega arith)
    | inr whole ↦
        let (m, tail, e, good, small', shorter) = front_frame bytes (ground arith) small in
        let (ms, rest, e', goods, part, few) =
          split_frames n tail (omega (arith, h, shorter)) small' in
        (
          m ∷ ms,
          rest,
          e ∙ ap (◌++◌ (frame m)) e' ∙ sym (append_assoc (frame m) (frames ms) rest),
          (good, goods),
          part,
          omega (arith, few, shorter),
        )
  ]
]

-- A client whose buffer starts with frames calls its functions on them in order and leaves the rest.
pub client_read_frames :
    {X : Type 0} (dispatch : ℕ × List ℕ → X → Result X) (fuel : ℕ) (ms : List (ℕ × List ℕ))
    (rest : List ℕ) (b : Buf)
    → length ms < fuel
    → All IsMessage ms
    → IsPartial rest
    → IsBuf b
    → content b ≡ frames ms ++ rest
    → (b' : Buf) × IsBuf b'
      × (content b' ≡ rest)
      × ((x : X)
          → read_loop client_next dispatch fuel b x
            ≡ (run_messages dispatch ms x >>= λ y. ok (b', y)))
client_read_frames dispatch =
    read_loop_lem dispatch client_next IsMessage IsPartial client_next_frame client_next_partial

-- Whatever the bytes in the buffer: with one turn more than there are bytes, the loop of a client ends,
-- after it has called its functions on the frames at the front, in order, and leaves the rest.
pub client_read_loop :
    {X : Type 0} (dispatch : ℕ × List ℕ → X → Result X) (b : Buf) (fuel : ℕ)
    → IsBuf b
    → All (λ a. a < 256) (content b)
    → length (content b) < fuel
    → (ms : List (ℕ × List ℕ)) × (b' : Buf) × All IsMessage ms
      × (content b ≡ frames ms ++ content b')
      × IsPartial (content b')
      × IsBuf b'
      × ((x : X)
          → read_loop client_next dispatch fuel b x
            ≡ (run_messages dispatch ms x >>= λ y. ok (b', y)))
client_read_loop dispatch b fuel i small h =
    let (ms, rest, e, good, part, few) =
      split_frames (length (content b)) (content b) (omega arith) small in
    let (b', i', kept, run) =
      client_read_frames dispatch fuel ms rest b (omega (arith, few, h)) good part i e in
    (ms, b', good, e ∙ ap (◌++◌ (frames ms)) (sym kept), subst IsPartial (sym kept) part, i', run)
