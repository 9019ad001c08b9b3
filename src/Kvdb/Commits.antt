-- ===== src/Kvdb/Commits.antt =====
-- What the calls of libkvdb/kvdb.cpp commit is read back by `unwrap` of operation.cpp.
use mathlib.Core.List.{append-nil}
use mpaxos.Prelude.{
  ℕ, ◌+◌, ◌%◌, ◌^◌, ◌<◌, ◌≡◌, refl, sym, ap, ◌∙◌, true, none, List, [], ◌∷◌, ◌++◌, arith, ltb,
  Result, ok, ok-injective, get, put, nat_key,
}
use mpaxos.Kvdb.Packing.{
  Buf, array, Operation, operation_type_count, op_put, op_get, op_del, op_batch_put, arg_num,
  one_arg, two_args, tables_read, unwrap,
}
use mpaxos.Kvdb.RoundTrip.{IsFull, IsPackable, SameOperation, unwrap-wrap}
use mpaxos.Kvdb.Calls.{
  Kvdb, reached, Reply, waits, when_ready, commit_operation, kvdb_put, kvdb_get, kvdb_del,
  kvdb_batch_put,
}

-- The operation is committed for its tables under the next id, in bytes that `unwrap` makes the same
-- operation of, and the call waits.
abbrev pub IsCommitted : ℕ → List ℕ → Operation → Kvdb → Result (Kvdb × Reply) → Type 0
IsCommitted addr tables op s call =
    (s' : Kvdb) × (call ≡ ok (s', waits s.operation_id))
    × (bytes : List ℕ) × (s'.committed ≡ s.committed ++ (tables, bytes, s.operation_id) ∷ [])
    × (op' : Operation) × (unwrap addr bytes ≡ ok op')
    × SameOperation op op'

commit_operation-IsCommitted :
    (addr needed : ℕ) (tables : List ℕ) (op : Operation) (s : Kvdb)
    → 0 < needed
    → get s.operations s.operation_id ≡ none
    → IsPackable op
    → IsCommitted addr tables op s (commit_operation needed tables op s)
unfolding commit_operation
commit_operation-IsCommitted addr needed tables op s some_needed new p =
    let (bytes, run, op', back, same) = unwrap-wrap addr op [] p in
    let below : ltb 0 needed ≡ true = ground (arith, some_needed) in
    (
      record s {
        operation_id = (s.operation_id + 1) % 2 ^ 64;
        operations = put s.operations s.operation_id (record { errcode = 0; progress = reached 0 });
        committed = s.committed ++ (tables, bytes, s.operation_id) ∷ [];
      },
      rw (new, run, below) refl,
      bytes,
      refl,
      op',
      ap (unwrap addr) (sym (append-nil bytes)) ∙ back,
      same,
    )

-- A store that is initialised does the call.
pub ready_runs :
    (s : Kvdb) {call : Result (Kvdb × Reply)} → s.initilized ≡ true → when_ready s call ≡ call
ready_runs s ready = rw ready refl

module _ (table : ℕ) (key : Buf) (small : table < 2 ^ 32) (full_key : IsFull key) where
  two-IsPackable : (val : Buf) → IsFull val → IsPackable (two_args op_put table key val)
  two-IsPackable val full_val = record {
    known = omega arith;
    some_pair = omega arith;
    few_pairs = omega arith;
    tables = refl;
    small = (small, tt);
    args = λ n e. omega (arith, ok-injective e);
    full = (full_key, (full_val, tt));
  }

  one-IsPackable :
      (code : ℕ)
      → code < operation_type_count
      → arg_num code ≡ ok 1
      → IsPackable (one_arg code table key)
  one-IsPackable code known one = record {
    known = known;
    some_pair = omega arith;
    few_pairs = omega arith;
    tables = refl;
    small = (small, tt);
    args = λ n e. omega (arith, ok-injective (sym one ∙ e));
    full = (full_key, tt);
  }

-- What is committed by the rest of a call is committed by the call, on a store that is initialised.
ready-IsCommitted :
    (addr : ℕ) (tables : List ℕ) (op : Operation) (s : Kvdb) {call : Result (Kvdb × Reply)}
    → s.initilized ≡ true
    → IsCommitted addr tables op s call
    → IsCommitted addr tables op s (when_ready s call)
ready-IsCommitted addr tables op s ready (s', run, bytes, logged, op', back, same) =
    (s', ready_runs s ready ∙ run, bytes, logged, op', back, same)

-- On a store that is initialised, with an id that is not in use: a put, a get and a delete, on a table
-- below 2^32, of a key and a value of less than 4 GB each, are each committed for their table under the
-- next id, in bytes that `unwrap` makes the same operation of, and the call waits.
pub calls-IsCommitted :
    (addr table : ℕ) (key val : Buf) (s : Kvdb)
    → s.initilized ≡ true
    → get s.operations s.operation_id ≡ none
    → table < 2 ^ 32
    → IsFull key
    → IsFull val
    → (IsCommitted addr (table ∷ []) (two_args op_put table key val) s (kvdb_put table key val s))
      × (IsCommitted addr (table ∷ []) (one_arg op_get table key) s (kvdb_get table key s))
      × (IsCommitted addr (table ∷ []) (one_arg op_del table key) s (kvdb_del table key s))
unfolding kvdb_put kvdb_get kvdb_del
calls-IsCommitted addr table key val s ready new small full_key full_val =
    let run = λ (op : Operation) (p : IsPackable op).
      ready-IsCommitted addr (table ∷ []) op s ready
        (commit_operation-IsCommitted addr 1 (table ∷ []) op s (omega arith) new p) in
    (
      run (two_args op_put table key val) (two-IsPackable table key small full_key val full_val),
      run (one_arg op_get table key)
          (one-IsPackable table key small full_key op_get (omega arith) refl),
      run (one_arg op_del table key)
          (one-IsPackable table key small full_key op_del (omega arith) refl),
    )

-- On a store that is initialised, with an id that is not in use: a batch of one pair, on a table below
-- 2^32, of a key and a value of less than 4 GB each, is committed for its table, but in bytes that
-- `unwrap` makes an operation on another table of: the address of the array, which is below 2^32.
pub batch_of_one :
    (addr table : ℕ) (key val : Buf) (s : Kvdb)
    → s.initilized ≡ true
    → get s.operations s.operation_id ≡ none
    → addr < 2 ^ 32
    → table < 2 ^ 32
    → IsFull key
    → IsFull val
    → (s' : Kvdb) × (kvdb_batch_put addr ((table, key, val) ∷ []) s ≡ ok (s', waits s.operation_id))
      × (bytes : List ℕ) × (s'.committed ≡ s.committed ++ (table ∷ [], bytes, s.operation_id) ∷ [])
      × (op' : Operation) × (unwrap addr bytes ≡ ok op')
      × (tables_read 1 op'.tables ≡ addr ∷ [])
unfolding kvdb_batch_put
batch_of_one addr table key val s ready new small_addr small full_key full_val =
    let op : Operation = record {
      code = op_batch_put;
      tables = array addr [];
      args = key ∷ val ∷ [];
      pairs = 1;
    } in
    let packable : IsPackable op = record {
      known = omega arith;
      some_pair = omega arith;
      few_pairs = omega arith;
      tables = refl;
      small = (small_addr, tt);
      args = λ n e. omega (arith, ok-injective e);
      full = (full_key, (full_val, tt));
    } in
    let (s', run, bytes, logged, op', back, same) =
      ready-IsCommitted addr (table ∷ []) op s ready
        (commit_operation-IsCommitted addr 1 (table ∷ []) op s (omega arith) new packable) in
    (s', run, bytes, logged, op', back, same.tables)
