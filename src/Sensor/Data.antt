-- ===== src/Sensor/Data.antt =====
-- process2.h: the shared record is the bytes of a `SENSOR_DATA`; its mutex and condition are not
-- part of it. What the threads do outside of it are effects.
use communicate_core.Common.{ℕ, List}
use communicate_core.Handler.{LogLine}

pub data Effect : Type 0 where
  log : LogLine → Effect
  signal : Effect  -- `pthread_cond_signal` on the shared condition
  close : (fd : ℕ) → Effect
  send : (fd : ℕ) (bytes : List ℕ) → Effect  -- `udsSendMsg`
