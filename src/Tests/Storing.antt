-- ===== src/Tests/Storing.antt =====
-- A store over mpaxos: a put, a batch of two pairs and one of a single pair, and their bytes.
use mpaxos.Prelude.{ℕ, ◌≡◌, refl, true, List, [], ◌∷◌, ◌++◌, arith, ok, ok-injective, get, nat_key}
use mpaxos.Kvdb.{
  Buf, Operation, array, op_put, op_get, op_del, op_batch_put, one_arg, two_args, tables_read,
  wrap_args, wrap_pairs, wrap, unwrap, Kvdb, waits, kvdb_put, kvdb_get, kvdb_del, kvdb_batch_put,
}
use mpaxos.Kvdb.RoundTrip.{IsFull, IsPackable, SameOperation, unwrap-wrap}
use mpaxos.Kvdb.Commits.{IsCommitted, calls-IsCommitted, batch_of_one}

abbrev key : Buf
key = record { buf = 107 ∷ 49 ∷ []; len = 2 }

abbrev value : Buf
value = record { buf = 118 ∷ 0 ∷ []; len = 1 }

-- A batch put on the tables 7 and 300, with its array at 4096.
abbrev both : Operation
both = record {
  code = op_batch_put;
  tables = array 4096 (7 ∷ 300 ∷ []);
  args = key ∷ value ∷ value ∷ key ∷ [];
  pairs = 2;
}

abbrev both_bytes : List ℕ
both_bytes =
    4 ∷ 0 ∷ 0 ∷ 0 ∷ 2 ∷ 0 ∷ 0 ∷ 0 ∷ 7 ∷ 0 ∷ 0 ∷ 0 ∷ 2 ∷ 0 ∷ 0 ∷ 0 ∷ 107 ∷ 49 ∷ 1 ∷ 0 ∷ 0 ∷ 0 ∷ 118
    ∷ 44 ∷ 1 ∷ 0 ∷ 0 ∷ 1 ∷ 0 ∷ 0 ∷ 0 ∷ 118 ∷ 2 ∷ 0 ∷ 0 ∷ 0 ∷ 107 ∷ 49 ∷ []

wrap-both : wrap both ≡ ok both_bytes
unfolding wrap wrap_pairs wrap_args
wrap-both = refl

both-IsPackable : IsPackable both
both-IsPackable =
    let fits_key : IsFull key = (omega arith, omega arith) in
    let fits_value : IsFull value = (omega arith, omega arith) in
    record {
      known = omega arith;
      some_pair = omega arith;
      few_pairs = omega arith;
      tables = refl;
      small = (omega arith, (omega arith, tt));
      args = λ n e. omega (arith, ok-injective e);
      full = (fits_key, (fits_value, (fits_value, (fits_key, tt))));
    }

unwrap-wrap_example :
    (packed : List ℕ) × (wrap both ≡ ok packed)
    × (op' : Operation) × (unwrap 8192 (packed ++ (255 ∷ [])) ≡ ok op')
    × SameOperation both op'
unwrap-wrap_example = unwrap-wrap 8192 both (255 ∷ []) both-IsPackable

abbrev store : Kvdb
store = record { initilized = true; operation_id = 5; operations = []; committed = [] }

calls-IsCommitted_example :
    (IsCommitted 0 (7 ∷ []) (two_args op_put 7 key value) store (kvdb_put 7 key value store))
    × (IsCommitted 0 (7 ∷ []) (one_arg op_get 7 key) store (kvdb_get 7 key store))
    × (IsCommitted 0 (7 ∷ []) (one_arg op_del 7 key) store (kvdb_del 7 key store))
unfolding get
calls-IsCommitted_example =
    calls-IsCommitted 0 7 key value store refl refl (omega arith) (omega arith, omega arith)
      (omega arith, omega arith)

abbrev batch : List (ℕ × Buf × Buf)
batch = (7, key, value) ∷ (300, value, key) ∷ []

batch_of_one_example :
    (s' : Kvdb) × (kvdb_batch_put 4096 ((7, key, value) ∷ []) store ≡ ok (s', waits 5))
    × (bytes : List ℕ) × (s'.committed ≡ (7 ∷ [], bytes, 5) ∷ [])
    × (op' : Operation) × (unwrap 4096 bytes ≡ ok op')
    × (tables_read 1 op'.tables ≡ 4096 ∷ [])
unfolding get
batch_of_one_example =
    batch_of_one 4096 7 key value store refl refl (omega arith) (omega arith)
      (omega arith, omega arith) (omega arith, omega arith)
