-- ===== src/Kvdb/Packing.antt =====
-- libkvdb/operation.h and operation.cpp: the operations of the store over mpaxos, and their packing.
use mpaxos.Prelude.{
  ℕ, zero, suc, ◌+◌, ◌*◌, ◌/◌, ◌%◌, ◌^◌, List, [], ◌∷◌, ◌++◌, ◌==◌, ltb, leb, if◌then◌else◌, length,
  take, drop, Result, fault, abort, ok, ◌>>=◌,
}

-- `Buf`: the bytes from the pointer on, and the length that goes with it.
pub record Buf : Type 0 where
  pub buf : List ℕ
  pub len : ℕ

-- The bytes that are meant.
abbrev pub bytes_of : Buf → List ℕ
bytes_of b = take b.len b.buf

-- `tables`: a pointer that is itself the number of the one table, or the address of an array.
pub data Tables : Type 0 where
  one_table : ℕ → Tables
  array : ℕ → List ℕ → Tables

-- `Operation`, less its result and lock. The code is an `unsigned int`.
pub record Operation : Type 0 where
  pub code : ℕ
  pub tables : Tables
  pub args : List Buf
  pub pairs : ℕ

-- OP_NOP, OP_PUT, OP_GET, OP_DEL, OP_BATCH_PUT
abbrev pub op_nop : ℕ
op_nop = 0

abbrev pub op_put : ℕ
op_put = 1

abbrev pub op_get : ℕ
op_get = 2

abbrev pub op_del : ℕ
op_del = 3

abbrev pub op_batch_put : ℕ
op_batch_put = 4

-- The column `arg_num` of `OPERATION_TYPES`, and its size. A read past the table is out of bounds.
abbrev pub arg_nums : List ℕ
arg_nums = 0 ∷ 2 ∷ 1 ∷ 1 ∷ 2 ∷ []

abbrev pub operation_type_count : ℕ
operation_type_count = 5

abbrev pub entry : List ℕ → ℕ → Result ℕ
entry [] i = fault
entry (x ∷ xs) zero = ok x
entry (x ∷ xs) (suc i) = entry xs i

abbrev pub arg_num : ℕ → Result ℕ
arg_num code = entry arg_nums code

-- The constructors for one and for two arguments.
abbrev pub one_arg : ℕ → ℕ → Buf → Operation
one_arg op table key = record { code = op; tables = one_table table; args = key ∷ []; pairs = 1 }

abbrev pub two_args : ℕ → ℕ → Buf → Buf → Operation
two_args op table key val = record {
  code = op;
  tables = one_table table;
  args = key ∷ val ∷ [];
  pairs = 1;
}

-- `writeint`: the lower 32 bits, the lowest byte first.
abbrev pub writeint : ℕ → List ℕ
writeint n = n % 256 ∷ n / 256 % 256 ∷ n / 65536 % 256 ∷ n / 16777216 % 256 ∷ []

-- `readint` at an offset of the message, and what follows: past its end the read is out of bounds.
unfoldable pub readint : List ℕ → Result (ℕ × List ℕ)
readint (a ∷ b ∷ c ∷ d ∷ rest) = ok (a + 256 * b + 65536 * c + 16777216 * d, rest)
readint (a ∷ b ∷ c ∷ []) = fault
readint (a ∷ b ∷ []) = fault
readint (a ∷ []) = fault
readint [] = fault

-- `memcpy` from an argument.
abbrev pub copied : Buf → Result (List ℕ)
copied b = if leb b.len (length b.buf) then ok (bytes_of b) else fault

-- The inner loop of `wrap`: `n` arguments, from where the last pair ended.
unfoldable pub wrap_args : ℕ → List Buf → Result (List ℕ × List Buf)
wrap_args zero args = ok ([], args)
wrap_args (suc n) [] = fault
wrap_args (suc n) (b ∷ args) = do
  content ← copied b
  (more, rest) ← wrap_args n args
  ok (writeint b.len ++ (content ++ more), rest)

-- What `wrap` reads as the tables: the pointer itself for one pair, else the array.
abbrev pub tables_read : ℕ → Tables → List ℕ
tables_read pairs (one_table t) = if pairs == 1 then t ∷ [] else []
tables_read pairs (array addr ts) = if pairs == 1 then addr ∷ [] else ts

-- The outer loop of `wrap`.
unfoldable pub wrap_pairs : ℕ → ℕ → List ℕ → List Buf → Result (List ℕ)
unfolding wrap_args
wrap_pairs zero n tables args = ok []
wrap_pairs (suc k) n [] args = fault
wrap_pairs (suc k) n (t ∷ tables) args = do
  (first, rest) ← wrap_args n args
  more ← wrap_pairs k n tables rest
  ok (writeint t ++ (first ++ more))

-- `wrap`. Nothing catches what is thrown for a wrong code, which ends the process.
unfoldable pub wrap : Operation → Result (List ℕ)
unfolding wrap_pairs
wrap op =
    let body : Result (List ℕ) = (do
      n ← arg_num op.code
      packed ← wrap_pairs op.pairs n (tables_read op.pairs op.tables) op.args
      ok (writeint op.code ++ (writeint op.pairs ++ packed))) in
    if leb operation_type_count op.code then abort else body

-- The inner loop of `unwrap`: an argument points into the message, whatever its length is.
unfoldable pub unwrap_args : ℕ → List ℕ → Result (List Buf × List ℕ)
unfolding readint
unwrap_args zero msg = ok ([], msg)
unwrap_args (suc n) msg = do
  (len, here) ← readint msg
  (args, rest) ← unwrap_args n (drop len here)
  ok ((record { buf = here; len = len }) ∷ args, rest)

-- The outer loop of `unwrap`.
unfoldable pub unwrap_pairs : ℕ → ℕ → List ℕ → Result (List ℕ × List Buf)
unfolding unwrap_args
unwrap_pairs zero n msg = ok ([], [])
unwrap_pairs (suc k) n msg = do
  (t, here) ← readint msg
  (args, rest) ← unwrap_args n here
  (ts, more) ← unwrap_pairs k n rest
  ok (t ∷ ts, args ++ more)

abbrev pub tables_made : ℕ → ℕ → List ℕ → Result Tables
tables_made addr pairs ts =
    if ltb 1 pairs then ok (array addr ts) else (elim ts [ [] ↦ fault | t ∷ _ ↦ ok (one_table t) ])

-- `unwrap`, with the address that `new` gives to the array. The code is compared as an `int`: from 2^31
-- on it is negative and passes the test, but not the read of the table. What is thrown ends the process.
unfoldable pub unwrap : ℕ → List ℕ → Result Operation
unfolding unwrap_pairs
unwrap addr msg = do
  (code, msg1) ← readint msg
  let rest : Result Operation = (do
    (pairs, msg2) ← readint msg1
    let read : Result Operation = (do
      n ← arg_num code
      (ts, args) ← unwrap_pairs pairs n msg2
      tables ← tables_made addr pairs ts
      ok (record { code = code; tables = tables; args = args; pairs = pairs }))
    if pairs == 0 then abort else read)
  if ltb code operation_type_count then rest else if ltb code (2 ^ 31) then abort else fault
