-- ===== src/Kvdb/RoundTrip.antt =====
-- `unwrap` of libkvdb/operation.cpp reads back what `wrap` wrote.
use mathlib.Core.List.{append_assoc}
use mpaxos.Prelude.{
  ℕ, zero, suc, ◌+◌, ◌*◌, ◌/◌, ◌%◌, ◌^◌, ◌≤◌, ◌<◌, ◌≡◌, refl, sym, ap, subst, ◌∙◌, true, false,
  List, [], ◌∷◌, ◌++◌, map, arith, ◌==◌, ltb, leb, length, take, drop, take-append, drop-append,
  length-take, All, ok,
}
use mpaxos.Kvdb.Packing.{
  Buf, bytes_of, Tables, one_table, array, Operation, operation_type_count, arg_num, writeint,
  wrap_args, tables_read, wrap_pairs, wrap, unwrap_args, unwrap_pairs, tables_made, unwrap,
}

-- The number that `readint` makes of the bytes of `writeint`.
word_back :
    (n : ℕ)
    → n < 2 ^ 32
    → n % 256 + 256 * (n / 256 % 256) + 65536 * (n / 65536 % 256) + 16777216 * (n / 16777216 % 256)
      ≡ n
word_back n small = omega arith

-- An argument of the length that it says, which 32 bits can hold.
abbrev pub IsFull : Buf → Type 0
IsFull b = (b.len ≤ length b.buf) × (b.len < 2 ^ 32)

copied_full : (b : Buf) → IsFull b → leb b.len (length b.buf) ≡ true
copied_full b full = ground arith

-- What `n` arguments are packed to, and what is read back of it, whatever follows.
pub record ArgsBack (n : ℕ) (args : List Buf) : Type 0 where
  pub packed : List ℕ
  pub rest : List Buf
  pub run : wrap_args n args ≡ ok (packed, rest)
  pub counted : length rest + n ≡ length args
  pub full : All IsFull rest
  pub back :
      (more : List ℕ)
      → (args' : List Buf) × (unwrap_args n (packed ++ more) ≡ ok (args', more))
        × (map bytes_of args' ++ map bytes_of rest ≡ map bytes_of args)

args_back : (n : ℕ) (args : List Buf) → n ≤ length args → All IsFull args → ArgsBack n args
unfolding wrap_args unwrap_args
args_back zero args enough full = record {
  packed = [];
  rest = args;
  run = refl;
  counted = omega arith;
  full = full;
  back = λ more. ([], refl, refl);
}
args_back (suc n) [] enough full = absurd (omega arith)
args_back (suc n) (b ∷ args) enough full =
    let r = args_back n args (omega arith) full.1 in
    let size : length (bytes_of b) ≡ b.len = length-take b.len b.buf full.0.0 in
    record {
      packed = writeint b.len ++ (bytes_of b ++ r.packed);
      rest = r.rest;
      run = rw (copied_full b full.0, r.run) refl;
      counted = omega (arith, r.counted);
      full = r.full;
      back = λ more.
          let (args', run', same) = r.back more in
          let here = bytes_of b ++ (r.packed ++ more) in
          let left : drop b.len here ≡ r.packed ++ more =
            subst (λ k. drop k here ≡ r.packed ++ more) size
              (drop-append (bytes_of b) (r.packed ++ more)) in
          let front : take b.len here ≡ bytes_of b =
            subst (λ k. take k here ≡ bytes_of b) size
              (take-append (bytes_of b) (r.packed ++ more)) in
          (
            (record { buf = here; len = b.len }) ∷ args',
            rw (append_assoc (bytes_of b) r.packed more, word_back b.len full.0.1, left, run') refl,
            ap (λ l. l ∷ (map bytes_of args' ++ map bytes_of r.rest)) front
                ∙ ap (◌∷◌ (bytes_of b)) same,
          );
    }

-- What the pairs are packed to, and what is read back of it.
pub record PairsBack (k n : ℕ) (tables : List ℕ) (args : List Buf) : Type 0 where
  pub packed : List ℕ
  pub run : wrap_pairs k n tables args ≡ ok packed
  pub back :
      (more : List ℕ)
      → (args' : List Buf) × (unwrap_pairs k n (packed ++ more) ≡ ok (tables, args'))
        × (map bytes_of args' ≡ map bytes_of args)

next_pairs : (k n l r : ℕ) → l ≡ suc k * n → r + n ≡ l → r ≡ k * n
next_pairs k n l r e f = grind arith

first_pair : (k n l : ℕ) → l ≡ suc k * n → n ≤ l
first_pair k n l e = grind arith

no_args : (args : List Buf) → length args ≡ 0 → map bytes_of args ≡ []
no_args [] e = refl
no_args (b ∷ args) e = absurd (omega arith)

map_append : (xs ys : List Buf) → map bytes_of (xs ++ ys) ≡ map bytes_of xs ++ map bytes_of ys
map_append [] ys = refl
map_append (x ∷ xs) ys = ap (◌∷◌ (bytes_of x)) (map_append xs ys)

pairs_back :
    (k n : ℕ) (tables : List ℕ) (args : List Buf)
    → length tables ≡ k
    → All (λ t. t < 2 ^ 32) tables
    → length args ≡ k * n
    → All IsFull args
    → PairsBack k n tables args
unfolding wrap_pairs unwrap_pairs
pairs_back zero n [] args some_k small counted full = record {
  packed = [];
  run = refl;
  back = λ more. ([], refl, sym (no_args args (omega (arith, counted))));
}
pairs_back zero n (t ∷ tables) args some_k small counted full = absurd (omega arith)
pairs_back (suc k) n [] args some_k small counted full = absurd (omega arith)
pairs_back (suc k) n (t ∷ tables) args some_k small counted full =
    let first = args_back n args (first_pair k n (length args) counted) full in
    let others =
      pairs_back k n tables first.rest (omega arith) small.1
        (next_pairs k n (length args) (length first.rest) counted first.counted) first.full in
    record {
      packed = writeint t ++ (first.packed ++ others.packed);
      run = rw (first.run, others.run) refl;
      back = λ more.
          let (args', run', same') = first.back (others.packed ++ more) in
          let (args'', run'', same'') = others.back more in
          (
            args' ++ args'',
            rw (append_assoc first.packed others.packed more, word_back t small.0, run', run'')
                refl,
            map_append args' args'' ∙ ap (λ l. map bytes_of args' ++ l) same'' ∙ same',
          );
    }

-- Every operation of the table has its number of arguments.
arg_num_known : (code : ℕ) → code < operation_type_count → (n : ℕ) × (arg_num code ≡ ok n)
arg_num_known zero h = (0, refl)
arg_num_known (suc zero) h = (2, refl)
arg_num_known (suc (suc zero)) h = (1, refl)
arg_num_known (suc (suc (suc zero))) h = (1, refl)
arg_num_known (suc (suc (suc (suc zero)))) h = (2, refl)
arg_num_known (suc (suc (suc (suc (suc code))))) h = absurd (omega arith)

-- The tables are read back as they were read, with one pair or more.
tables_back :
    (addr pairs : ℕ) (ts : List ℕ)
    → 0 < pairs
    → length ts ≡ pairs
    → (made : Tables) × (tables_made addr pairs ts ≡ ok made) × (tables_read pairs made ≡ ts)
tables_back addr zero ts some_pair e = absurd (omega arith)
tables_back addr (suc zero) [] some_pair e = absurd (omega arith)
tables_back addr (suc zero) (t ∷ []) some_pair e = (one_table t, refl, refl)
tables_back addr (suc zero) (t ∷ u ∷ ts) some_pair e = absurd (omega arith)
tables_back addr (suc (suc k)) ts some_pair e = (array addr ts, ground arith, ground arith)

-- An operation that can be packed: its code is in the table, there are as many tables and arguments as its
-- pairs and its code ask for, no index into them overflows an `int`, and its numbers fit 32 bits.
pub record IsPackable (op : Operation) : Type 0 where
  pub known : op.code < operation_type_count
  pub some_pair : 0 < op.pairs
  pub few_pairs : op.pairs < 2 ^ 30
  pub tables : length (tables_read op.pairs op.tables) ≡ op.pairs
  pub small : All (λ t. t < 2 ^ 32) (tables_read op.pairs op.tables)
  pub args : (n : ℕ) → arg_num op.code ≡ ok n → length op.args ≡ op.pairs * n
  pub full : All IsFull op.args

-- The same operation, wherever its array and its bytes stand.
pub record SameOperation (op op' : Operation) : Type 0 where
  pub code : op'.code ≡ op.code
  pub pairs : op'.pairs ≡ op.pairs
  pub tables : tables_read op.pairs op'.tables ≡ tables_read op.pairs op.tables
  pub args : map bytes_of op'.args ≡ map bytes_of op.args

-- An operation that can be packed is packed by `wrap`, and `unwrap` makes the same operation of the
-- bytes, even with other bytes behind them, wherever its array is put.
pub unwrap-wrap :
    (addr : ℕ) (op : Operation) (more : List ℕ)
    → IsPackable op
    → (packed : List ℕ) × (wrap op ≡ ok packed)
      × (op' : Operation) × (unwrap addr (packed ++ more) ≡ ok op')
      × SameOperation op op'
unfolding wrap unwrap
unwrap-wrap addr op more p =
    let (n, known) = arg_num_known op.code p.known in
    let ts = tables_read op.pairs op.tables in
    let b = pairs_back op.pairs n ts op.args p.tables p.small (p.args n known) p.full in
    let (args', run', same) = b.back more in
    let (made, run'', read) = tables_back addr op.pairs ts p.some_pair p.tables in
    let not_over : leb operation_type_count op.code ≡ false = ground (arith, p.known) in
    let inside : ltb op.code operation_type_count ≡ true = ground (arith, p.known) in
    let not_empty : (op.pairs == 0) ≡ false = ground (arith, p.some_pair) in
    let small : op.code < 2 ^ 32 = omega (arith, p.known) in
    (
      writeint op.code ++ (writeint op.pairs ++ b.packed),
      rw (not_over, known, b.run) refl,
      record { code = op.code; tables = made; args = args'; pairs = op.pairs },
      rw
          (
            word_back op.code small,
            inside,
            word_back op.pairs (omega (arith, p.few_pairs)),
            not_empty,
            known,
            run',
            run'',
          )
          refl,
      record { code = refl; pairs = refl; tables = read; args = same },
    )
