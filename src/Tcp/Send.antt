-- ===== src/Tcp/Send.antt =====
-- `sendThread` of send-thread.c, an iteration of its loop in two parts: the test of the exit flag
-- and what follows the wait. `pthread_cond_timedwait` is taken to be called with the mutex held,
-- which the code does not see to.
use communicate_core.Common.{
  List, [], ◌∷◌, true, Option, some, ◌>>=◌, if◌then◌else◌, replicate, take,
}
use communicate_core.Memory.{copy_bytes}
use communicate_core.Tcp.State.{buffer_size, ClientInfo, Effect}

-- Where a thread of a client stands: in its loop, in the wait, behind the loop, or ended.
pub data Place : Type 0 where
  working : Place
  waiting : Place
  leaving : Place
  gone : Place

-- The return of `pthread_cond_timedwait`.
pub data Waited : Type 0 where
  timed_out : Waited
  woken : Waited

-- The test of the flag.
unfoldable pub send_check : ClientInfo → Place
send_check client = if client.exit_flag then leaving else waiting

-- What follows the wait. The local buffer holds the mailbox's `iDataSize` bytes over zeros, and as
-- many of it are sent, on the socket that the record has then.
unfoldable pub send_round : ClientInfo → Waited → Option (List Effect)
send_round client timed_out = some []
send_round client woken = do
  let data_size = client.shared.data_size
  buffer ← copy_bytes data_size (replicate buffer_size 0) client.shared.bytes
  some (Effect.send client.client_sock (take data_size buffer) ∷ [])

-- Behind both threads' loops.
unfoldable pub set_exit_flag : ClientInfo → ClientInfo
set_exit_flag client = record client { exit_flag = true }
