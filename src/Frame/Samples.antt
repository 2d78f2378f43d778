-- ===== src/Frame/Samples.antt =====
-- Frames for the tests and witnesses.
use communicate_core.Common.{ℕ, List, [], ◌∷◌, arith}
use communicate_core.Memory.{IsBytes, IsBytes-of_all}
use communicate_core.Frame.Layout.{MsgId}

-- The ids of a frame from the controller to the TCP server.
abbrev pub from_controller : MsgId
from_controller = record { src_id = 0x01; dst_id = 0x02 }

abbrev pub to_controller : MsgId
to_controller = record { src_id = 0x02; dst_id = 0x01 }

-- A keep-alive of the controller with the payload 0x01.
abbrev pub keep_alive_request : List ℕ
keep_alive_request =
    0xF0 ∷ 0xF0 ∷ 0x01 ∷ 0 ∷ 0 ∷ 0 ∷ 0x01 ∷ 0x02 ∷ 0 ∷ 0 ∷ 0 ∷ 0x01 ∷ 0x04 ∷ 0xFF ∷ 0xFF ∷ []

pub keep_alive_request-IsBytes : IsBytes keep_alive_request
keep_alive_request-IsBytes = IsBytes-of_all keep_alive_request (omega arith)

-- The same with another payload and the old CRC.
abbrev pub corrupted_request : List ℕ
corrupted_request =
    0xF0 ∷ 0xF0 ∷ 0x01 ∷ 0 ∷ 0 ∷ 0 ∷ 0x01 ∷ 0x02 ∷ 0 ∷ 0 ∷ 0 ∷ 0x09 ∷ 0x04 ∷ 0xFF ∷ 0xFF ∷ []

pub corrupted_request-IsBytes : IsBytes corrupted_request
corrupted_request-IsBytes = IsBytes-of_all corrupted_request (omega arith)
