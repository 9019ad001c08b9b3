-- ===== src/Kvdb/Batches.antt =====
-- Batches of libkvdb/kvdb.cpp with two pairs or more: their tables are read in the wrong width.
use mpaxos.Prelude.{nat_key}
use mpaxos.Kvdb.Calls.{Kvdb}
