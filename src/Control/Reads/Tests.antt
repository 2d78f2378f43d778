-- ===== src/Control/Reads/Tests.antt =====
-- A whole message of `DATA_SIZE` bytes in a pipe.
use communicate_core.Common.{ℕ, ◌≡◌, refl, List, some, replicate}
use communicate_core.Control.Defs.{Read, read_pipe}
use communicate_core.Control.Reads.{IsRead, read_pipe-IsRead}

abbrev buffer : List ℕ
buffer = replicate 128 0

abbrev full_message : List ℕ
full_message = replicate 128 7

read_pipe-IsRead_example :
    (r : Read) × (read_pipe buffer full_message ≡ some r) × IsRead buffer full_message r
read_pipe-IsRead_example = read_pipe-IsRead buffer full_message refl
