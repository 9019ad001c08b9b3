-- ===== src/Rpc/Conn/Defs.antt =====
-- libmpaxos/rpc/server.c, client.c and rpc_comm.h: a message is framed as its size in four bytes, its
-- type in two, and its data. The host stores numbers with the lowest byte first.
use mpaxos.Prelude.{
  ℕ, zero, suc, ◌+◌, ◌*◌, ◌/◌, ◌%◌, ◌^◌, Bool, true, false, not, ◌||◌, ltb, leb, ◌==◌,
  if◌then◌else◌, Option, none, some, List, [], ◌∷◌, length, Result, ok, abort, fault, ◌>>=◌, ◌>>◌,
  safe_assert, nat_key,
}
use mpaxos.Rpc.Buf.{
  Buf, buf_sz_content, buf_readjust, buf_write, buf_peek, buf_read, Status, is_success, success,
  eof, econnreset, eagain, epipe, Socket, buf_to_sock,
}
use mpaxos.Rpc.Polling.{
  Events, only_in, in_and_out, Pollset, PollJob, PollMgr, poll_mgr_update_job, poll_mgr_remove_job,
}

abbrev pub is_eagain : Status → Bool
is_eagain eagain = true
is_eagain _ = false

-- `rpc_state`
pub record RpcState : Type 0 where
  pub msgid : ℕ
  pub raw_input : List ℕ
  pub raw_output : Option (List ℕ)

-- A function of the table: it works on the state of the process, and may leave an output.
abbrev pub RpcFun : Type 0 → Type 0
RpcFun W = RpcState → W → Result (RpcState × W)

-- What `sconn_t` and `client_t` have of their own.
pub record Conn : Type 0 where
  pub pjob : PollJob
  pub buf_recv : Buf
  pub buf_send : Buf

-- The bytes of a `uint32_t` (of a `size_t`: its lower four) and of a `msgid_t`.
abbrev pub u32_bytes : ℕ → List ℕ
u32_bytes n = n % 256 ∷ n / 256 % 256 ∷ n / 65536 % 256 ∷ n / 16777216 % 256 ∷ []

abbrev pub u16_bytes : ℕ → List ℕ
u16_bytes n = n % 256 ∷ n / 256 % 256 ∷ []

-- The number that `memcpy` makes of the first bytes of a list.
abbrev pub from_bytes : List ℕ → ℕ
from_bytes [] = 0
from_bytes (b ∷ bs) = b + 256 * from_bytes bs

-- `SZ_SZMSG` and `SZ_MSGID`
abbrev pub sz_szmsg : ℕ
sz_szmsg = 4

abbrev pub sz_msgid : ℕ
sz_msgid = 2

-- The loops take a message off the buffer: none where the code leaves the loop.
abbrev pub Next : Type 0
Next = Result (Option (ℕ × List ℕ) × Buf)

-- A turn of the loop of `handle_sconn_read`, up to the dispatch
unfoldable pub sconn_next : Buf → Next
sconn_next buf =
    let sz_c = buf_sz_content buf in
    let sz_msg = from_bytes (buf_peek sz_szmsg buf) in
    let waits : Next = ok (none, buf) in
    let takes : Next = (do
      (size, buf) ← ok (buf_read sz_szmsg buf)
      safe_assert (length size == sz_szmsg)
      (msgid, buf) ← ok (buf_read sz_msgid buf)
      safe_assert (length msgid == sz_msgid)
      (input, buf) ← ok (buf_read (from_bytes size) buf)
      safe_assert (length input == from_bytes size)
      ok (some (from_bytes msgid, input), buf)) in
    let peeked : Next = (do
      safe_assert (length (buf_peek sz_szmsg buf) == sz_szmsg)
      safe_assert (ltb 0 sz_msg)
      if leb (sz_msg + sz_szmsg + sz_msgid) sz_c then takes else waits) in
    if ltb sz_szmsg sz_c then peeked else waits

-- A turn of the loop of `handle_client_read`, up to the call
unfoldable pub client_next : Buf → Next
client_next buf =
    let sz_c = buf_sz_content buf in
    let sz_msg = from_bytes (buf_peek sz_szmsg buf) in
    let waits : Next = ok (none, buf) in
    let takes : Next = (do
      (size, buf) ← ok (buf_read sz_szmsg buf)
      (msgid, buf) ← ok (buf_read sz_msgid buf)
      (input, buf) ← ok (buf_read (from_bytes size) buf)
      ok (some (from_bytes msgid, input), buf)) in
    let peeked : Next = if leb (sz_msg + sz_szmsg + sz_msgid) sz_c then takes else waits in
    if ltb sz_szmsg sz_c then peeked else waits

abbrev pub while_some {ℓ κ} : {A : Type ℓ} {B : Type κ} → Option A → B → (A → B) → B
while_some none stop turn = stop
while_some (some a) stop turn = turn a

-- The loop over the messages in the buffer, with the number of turns as fuel: out of fuel it faults.
unfoldable pub read_loop :
    {X : Type 0} → (Buf → Next) → (ℕ × List ℕ → X → Result X) → ℕ → Buf → X → Result (Buf × X)
read_loop next dispatch zero buf x = fault
read_loop next dispatch (suc fuel) buf x = do
  (message, buf) ← next buf
  while_some message (ok (buf, x)) (λ m. do x ← dispatch m x; read_loop next dispatch fuel buf x)

-- The mode after a write, by what is left in the buffer
abbrev pub next_mode : Buf → Events
next_mode buf = if ltb 0 (buf_sz_content buf) then in_and_out else only_in

-- The tail that a message needs, as a `size_t`
abbrev pub frame_size : List ℕ → ℕ
frame_size input = (length input + sz_szmsg + sz_msgid) % 2 ^ 64

module _ {S : Type 0} ⦃set : Pollset S⦄ where
  -- `write_trigger_poll`: `sz_data` is the length of the data.
  unfoldable pub write_trigger_poll : ℕ → List ℕ → PollMgr S → Conn → Result (PollMgr S × Conn)
  write_trigger_poll msgid input mgr conn = do
    buf ← buf_readjust (suc (frame_size input)) (frame_size input) conn.buf_send
    buf ← buf_write (u32_bytes (length input)) buf
    safe_assert (not (msgid == 0))
    buf ← buf_write (u16_bytes msgid) buf
    buf ← buf_write input buf
    (mgr, pjob) ← poll_mgr_update_job mgr conn.pjob in_and_out
    ok (mgr, record conn { buf_send = buf; pjob = pjob })

  -- `client_call`
  abbrev pub client_call : ℕ → List ℕ → PollMgr S → Conn → Result (PollMgr S × Conn)
  client_call msgid input mgr conn = write_trigger_poll msgid input mgr conn

  -- The end of `handle_sconn_read` and `handle_client_read`, by the status of the receive
  abbrev pub after_read : Status → PollMgr S → PollJob → Result (PollMgr S × PollJob)
  after_read success mgr job = ok (mgr, job)
  after_read eof mgr job = poll_mgr_remove_job mgr job
  after_read econnreset mgr job = poll_mgr_remove_job mgr job
  after_read eagain mgr job = ok (mgr, job)
  after_read _ mgr job = abort

  -- The end of `handle_sconn_write`
  abbrev pub after_sconn_write :
      Status → PollMgr S → PollJob → Events → Result (PollMgr S × PollJob)
  after_sconn_write success mgr job mode = poll_mgr_update_job mgr job mode
  after_sconn_write eagain mgr job mode = poll_mgr_update_job mgr job mode
  after_sconn_write econnreset mgr job mode = poll_mgr_remove_job mgr job
  after_sconn_write epipe mgr job mode = poll_mgr_remove_job mgr job
  after_sconn_write _ mgr job mode = abort

  -- The end of `handle_client_write`: the assertion on the status leaves the first branch alone.
  abbrev pub after_client_write : Status → Buf → PollMgr S → PollJob → Result (PollMgr S × PollJob)
  after_client_write status buf mgr job = do
    safe_assert (is_success status || is_eagain status)
    if buf_sz_content buf == 0 then poll_mgr_update_job mgr job (next_mode buf) else ok (mgr, job)

  module _ {K : Type 0} ⦃socket : Socket K⦄ where
    -- `handle_sconn_write`; the fuel is for the loop of `buf_to_sock`.
    unfoldable pub handle_sconn_write : ℕ → PollMgr S → Conn → K → Result (PollMgr S × Conn × K)
    handle_sconn_write fuel mgr conn k = do
      (status, buf, k) ← buf_to_sock fuel conn.buf_send k
      (mgr, pjob) ← after_sconn_write status mgr conn.pjob (next_mode buf)
      ok (mgr, record conn { buf_send = buf; pjob = pjob }, k)

    -- `handle_client_write`
    unfoldable pub handle_client_write : ℕ → PollMgr S → Conn → K → Result (PollMgr S × Conn × K)
    handle_client_write fuel mgr conn k = do
      (status, buf, k) ← buf_to_sock fuel conn.buf_send k
      (mgr, pjob) ← after_client_write status buf mgr conn.pjob
      ok (mgr, record conn { buf_send = buf; pjob = pjob }, k)
