-- ===== src/Tests/Framing.antt =====
-- A buffer of four bytes, three of them written and two of those read.
use mpaxos.Prelude.{◌≡◌, refl, [], ◌∷◌, ◌++◌, arith, ok}
use mpaxos.Rpc.Buf.{Buf, buf_realloc, next_size, buf_readjust, buf_write, content, buf_read, IsBuf}
use mpaxos.Rpc.Buf.Queue.{buf_write_lem, buf_read_lem}

abbrev used : Buf
used = record { raw = 1 ∷ 2 ∷ 3 ∷ []; sz = 4; idx_read = 2; idx_write = 3 }

used-IsBuf : IsBuf used
used-IsBuf = record {
  front = omega arith;
  back = omega arith;
  bytes = refl;
  small = omega arith;
  large = omega arith;
}

-- Four more bytes do not fit: the buffer is moved once in place, and then to double the size.
moved_twice :
    buf_write (4 ∷ 5 ∷ 6 ∷ 7 ∷ []) used
    ≡ ok (record { raw = 3 ∷ 4 ∷ 5 ∷ 6 ∷ 7 ∷ []; sz = 8; idx_read = 0; idx_write = 5 })
unfolding buf_write buf_readjust buf_realloc next_size
moved_twice = refl

buf_write_lem_example :
    (b' : Buf) × (buf_write (4 ∷ 5 ∷ 6 ∷ 7 ∷ []) used ≡ ok b')
    × IsBuf b'
    × (content b' ≡ (3 ∷ []) ++ 4 ∷ 5 ∷ 6 ∷ 7 ∷ [])
buf_write_lem_example = buf_write_lem (4 ∷ 5 ∷ 6 ∷ 7 ∷ []) used used-IsBuf (omega arith)

buf_read_lem_example :
    ((buf_read 5 used).0 ≡ 3 ∷ []) × (content (buf_read 5 used).1 ≡ []) × IsBuf (buf_read 5 used).1
buf_read_lem_example = buf_read_lem 5 used used-IsBuf
