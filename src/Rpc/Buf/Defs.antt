-- ===== src/Rpc/Buf/Defs.antt =====
-- libmpaxos/rpc/buf.c: a byte buffer that is written at its end, read at its front, and moved to larger
-- memory when its tail is too short. Its contents are a queue of bytes.
use mpaxos.Prelude.{
  ℕ, zero, suc, ◌+◌, ◌-◌, ◌*◌, ◌/◌, ◌%◌, ◌^◌, ◌≤◌, ◌<◌, ◌≡◌, List, [], ◌++◌, ltb, leb,
  if◌then◌else◌, Result, ok, fault, ◌>>=◌, ◌>>◌, safe_assert, length, take, drop,
}

-- `buf_t`; `raw` has the bytes that were written, up to `idx_write`.
pub record Buf : Type 0 where
  pub raw : List ℕ
  pub sz : ℕ
  pub idx_read : ℕ
  pub idx_write : ℕ

-- `buf_create`
abbrev pub buf_create : Buf
buf_create = record { raw = []; sz = 1024 * 1024; idx_read = 0; idx_write = 0 }

-- The difference of two values of type `size_t`.
abbrev pub sub64 : ℕ → ℕ → ℕ
sub64 a b = (a + (2 ^ 64 - b)) % 2 ^ 64

-- `buf_sz_content`
abbrev pub buf_sz_content : Buf → ℕ
buf_sz_content b = sub64 b.idx_write b.idx_read

-- `buf_realloc`: `malloc` is taken to succeed.
unfoldable pub buf_realloc : Buf → ℕ → Result Buf
buf_realloc b sz = do
  safe_assert (ltb (buf_sz_content b) sz)
  ok (record {
    raw = take (buf_sz_content b) (drop b.idx_read b.raw);
    sz = sz;
    idx_read = 0;
    idx_write = buf_sz_content b;
  })

-- The size that a turn of the loop of `buf_readjust` asks for.
unfoldable pub next_size : Buf → ℕ
next_size b = if ltb b.idx_read (b.sz / 2) then b.sz * 2 % 2 ^ 64 else b.sz

-- `buf_readjust`, with the number of turns as fuel: out of fuel it faults.
unfoldable pub buf_readjust : ℕ → ℕ → Buf → Result Buf
unfolding buf_realloc next_size
buf_readjust zero n b = fault
buf_readjust (suc fuel) n b =
    let again : Result Buf = (do b' ← buf_realloc b (next_size b); buf_readjust fuel n b') in
    if ltb (sub64 b.sz b.idx_write) n then again else ok b

-- `buf_write`: one turn per byte is enough. The copy faults past the end of the memory.
unfoldable pub buf_write : List ℕ → Buf → Result Buf
unfolding buf_readjust
buf_write bytes b = do
  b' ← buf_readjust (suc (length bytes)) (length bytes) b
  (if leb (b'.idx_write + length bytes) b'.sz then ok tt else fault)
  ok (record b' {
    raw = take b'.idx_write b'.raw ++ bytes;
    idx_write = b'.idx_write + length bytes;
  })

-- The bytes that were written and not read.
abbrev pub content : Buf → List ℕ
content b = take (buf_sz_content b) (drop b.idx_read b.raw)

-- How many of `n` bytes there are to read.
unfoldable pub available : ℕ → Buf → ℕ
available n b = if leb n (buf_sz_content b) then n else buf_sz_content b

-- `buf_peek`
unfoldable pub buf_peek : ℕ → Buf → List ℕ
unfolding available
buf_peek n b = take (available n b) (drop b.idx_read b.raw)

-- `buf_read`
unfoldable pub buf_read : ℕ → Buf → List ℕ × Buf
unfolding buf_peek
buf_read n b = (buf_peek n b, record b { idx_read = b.idx_read + available n b })

-- The indices are in order, and the memory holds what was written.
pub record IsBuf (b : Buf) : Type 0 where
  pub front : b.idx_read ≤ b.idx_write
  pub back : b.idx_write ≤ b.sz
  pub bytes : length b.raw ≡ b.idx_write
  pub small : b.sz < 2 ^ 64
  pub large : 2 ≤ b.sz
