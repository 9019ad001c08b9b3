-- ===== src/Kvdb/Calls.antt =====
-- The calls of libkvdb/kvdb.cpp, each up to the point where it waits for its operation.
use mpaxos.Prelude.{
  ℕ, ◌+◌, ◌*◌, ◌%◌, ◌^◌, Bool, not, Option, none, some, List, [], ◌∷◌, ◌++◌, ltb, if◌then◌else◌,
  length, Result, ok, ◌>>=◌, Dict, get, put, nat_key,
}
use mpaxos.Kvdb.Packing.{
  Buf, array, Operation, op_put, op_get, op_del, op_batch_put, one_arg, two_args, wrap,
}

-- `progress`, which is negative after a failure.
pub data Progress : Type 0 where
  failed : Progress
  reached : ℕ → Progress

-- What a waiting call reads of its `OperationResult`.
pub record Outcome : Type 0 where
  pub errcode : ℕ
  pub progress : Progress

-- The static variables: `initilized`, `operation_id`, `operations`, and what was given to `commit_async`,
-- which the library does not define: tables, bytes, and the id of the operation.
pub record Kvdb : Type 0 where
  pub initilized : Bool
  pub operation_id : ℕ
  pub operations : Dict ℕ Outcome
  pub committed : List (List ℕ × List ℕ × ℕ)

pub data Reply : Type 0 where
  uninitialised : Reply
  returned : ℕ → Reply
  waits : ℕ → Reply

-- The operation of `operator[]`, which is made where it is missing.
abbrev pub outcome_of : Option Outcome → Outcome
outcome_of none = record { errcode = 0; progress = reached 0 }
outcome_of (some o) = o

-- `genOperationId`
abbrev pub gen_operation_id : Kvdb → ℕ × Kvdb
gen_operation_id s = (s.operation_id, record s { operation_id = (s.operation_id + 1) % 2 ^ 64 })

-- The loop on `progress`, and what follows it.
abbrev pub await : ℕ → ℕ → Outcome → Reply
await needed id o = elim o.progress [
  | failed ↦ returned o.errcode
  | reached n ↦ if ltb n needed then waits id else returned o.errcode
]

-- The body of the four calls: `needed` is the progress that they wait for.
unfoldable pub commit_operation : ℕ → List ℕ → Operation → Kvdb → Result (Kvdb × Reply)
commit_operation needed tables op s = do
  let (id, s1) = gen_operation_id s
  let o = outcome_of (get s1.operations id)
  bytes ← wrap op
  ok (
    record s1 {
      operations = put s1.operations id o;
      committed = s1.committed ++ (tables, bytes, id) ∷ [];
    },
    await needed id o,
  )

-- The test at the head of the four calls.
abbrev pub when_ready : Kvdb → Result (Kvdb × Reply) → Result (Kvdb × Reply)
when_ready s call = if not s.initilized then ok (s, uninitialised) else call

-- `kvdb_put`
unfoldable pub kvdb_put : ℕ → Buf → Buf → Kvdb → Result (Kvdb × Reply)
unfolding commit_operation
kvdb_put table key value s =
    when_ready s (commit_operation 1 (table ∷ []) (two_args op_put table key value) s)

-- `kvdb_get`, less the copy of the value that is found.
unfoldable pub kvdb_get : ℕ → Buf → Kvdb → Result (Kvdb × Reply)
unfolding commit_operation
kvdb_get table key s = when_ready s (commit_operation 1 (table ∷ []) (one_arg op_get table key) s)

-- `kvdb_del`
unfoldable pub kvdb_del : ℕ → Buf → Kvdb → Result (Kvdb × Reply)
unfolding commit_operation
kvdb_del table key s = when_ready s (commit_operation 1 (table ∷ []) (one_arg op_del table key) s)

-- The arguments of a batch: key, value, key, value.
abbrev pub batch_args : List (ℕ × Buf × Buf) → List Buf
batch_args [] = []
batch_args ((table, key, val) ∷ rest) = key ∷ val ∷ batch_args rest

abbrev pub batch_tables : List (ℕ × Buf × Buf) → List ℕ
batch_tables [] = []
batch_tables ((table, key, val) ∷ rest) = table ∷ batch_tables rest

-- What a `uint64_t *` reads in an array of 32-bit words, the lower word first, up to its end.
abbrev pub as_words : List ℕ → List ℕ
as_words (low ∷ high ∷ rest) = (low + 2 ^ 32 * high) ∷ as_words rest
as_words (low ∷ []) = []
as_words [] = []

-- `kvdb_batch_put`, with the tables at address `addr`. They are of 32 bits each, and `Operation` takes a
-- pointer to integers of 64 bits, so that the call has no meaning in C++ without a cast: it is modelled
-- with the cast, which leaves the words as they are.
unfoldable pub kvdb_batch_put : ℕ → List (ℕ × Buf × Buf) → Kvdb → Result (Kvdb × Reply)
unfolding commit_operation
kvdb_batch_put addr batch s =
    let tables = batch_tables batch in
    let op : Operation = record {
      code = op_batch_put;
      tables = array addr (as_words tables);
      args = batch_args batch;
      pairs = length batch;
    } in
    when_ready s (commit_operation (length batch) tables op s)
