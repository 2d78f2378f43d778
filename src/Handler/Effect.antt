-- ===== src/Handler/Effect.antt =====
-- How far each command reaches into the buffer of the answer, and what it leaves there.
use communicate_core.Common.{
  ℕ, ◌+◌, ◌≤◌, ◌<◌, ◌≡◌, List, none, some, arith, length, ◌==◌, if◌then◌else◌,
}
use communicate_core.Memory.{
  peek, poke, load_in_range, store_in_range, store_out_of_range, length-poke,
}
use communicate_core.Command.Ids.{
  keep_alive_id, ibit_id, rbit_id, cbit_id, extern1_data_id, extern2_data_id, extern3_data_id,
  extern4_data_id,
}
use communicate_core.Handler.Defs.{
  Pointer, keep_alive, i_bit, r_bit, c_bit, recv_extern1_data, recv_extern2_data, recv_extern3_data,
  recv_extern4_data,
}

-- The bytes behind the answer's pointer of which a handler writes the last.
unfoldable pub reach : ℕ → ℕ
reach id =
    if id == keep_alive_id
    then 1
    else if id == ibit_id
    then 2
    else if id == rbit_id
    then 2
    else if id == cbit_id
    then 2
    else if id == extern1_data_id
    then 24
    else if id == extern2_data_id
    then 48
    else if id == extern3_data_id
    then 64
    else if id == extern4_data_id
    then 88
    else 0

-- The buffer with two or three doubles of the payload copied to `to`.
abbrev pub with_two : Pointer → List ℕ → ℕ → List ℕ
with_two p mem to =
    poke 8 (poke 8 mem to (peek 8 p.mem (p.at + 0))) (to + 8) (peek 8 p.mem (p.at + 8))

abbrev pub with_three : Pointer → List ℕ → ℕ → List ℕ
with_three p mem to = poke 8 (with_two p mem to) (to + 16) (peek 8 p.mem (p.at + 16))

-- The `chResult` of a keep-alive, and the two results of a BIT.
abbrev pub with_results : Pointer → List ℕ
with_results r = poke 1 (poke 1 r.mem r.at 1) (r.at + 1) 1

-- The answer's buffer after a command.
unfoldable pub effect : ℕ → Pointer → Pointer → List ℕ
effect id p r =
    if id == keep_alive_id
    then poke 1 r.mem r.at 1
    else if id == ibit_id
    then with_results r
    else if id == rbit_id
    then with_results r
    else if id == cbit_id
    then with_results r
    else if id == extern1_data_id
    then with_three p r.mem (r.at + 0)
    else if id == extern2_data_id
    then with_three p r.mem (r.at + 24)
    else if id == extern3_data_id
    then with_two p r.mem (r.at + 48)
    else if id == extern4_data_id
    then with_three p r.mem (r.at + 64)
    else r.mem

ruleset in_range = (arith, load_in_range, store_in_range, length-poke)

ruleset out_of_range = (arith, load_in_range, store_in_range, store_out_of_range, length-poke)

module _ (p r : Pointer) where
  pub keep_alive_lem : r.at + 1 ≤ length r.mem → keep_alive p r ≡ some (poke 1 r.mem r.at 1, 0)
  unfolding keep_alive
  keep_alive_lem h = grind in_range

  pub i_bit_lem : r.at + 2 ≤ length r.mem → i_bit p r ≡ some (with_results r, 0)
  unfolding i_bit
  i_bit_lem h = grind in_range

  pub r_bit_lem : r.at + 2 ≤ length r.mem → r_bit p r ≡ some (with_results r, 0)
  unfolding r_bit
  r_bit_lem h = grind in_range

  pub c_bit_lem : r.at + 2 ≤ length r.mem → c_bit p r ≡ some (with_results r, 0)
  unfolding c_bit
  c_bit_lem h = grind in_range

  module _ (readable : p.at + 24 ≤ length p.mem) where
    pub recv_extern1_data_lem :
        r.at + 24 ≤ length r.mem → recv_extern1_data p r ≡ some (with_three p r.mem (r.at + 0), 0)
    unfolding recv_extern1_data
    recv_extern1_data_lem h = grind in_range

    pub recv_extern2_data_lem :
        r.at + 48 ≤ length r.mem → recv_extern2_data p r ≡ some (with_three p r.mem (r.at + 24), 0)
    unfolding recv_extern2_data
    recv_extern2_data_lem h = grind in_range

    pub recv_extern3_data_lem :
        r.at + 64 ≤ length r.mem → recv_extern3_data p r ≡ some (with_two p r.mem (r.at + 48), 0)
    unfolding recv_extern3_data
    recv_extern3_data_lem h = grind in_range

    pub recv_extern4_data_lem :
        r.at + 88 ≤ length r.mem → recv_extern4_data p r ≡ some (with_three p r.mem (r.at + 64), 0)
    unfolding recv_extern4_data
    recv_extern4_data_lem h = grind in_range

-- With less room than its reach a handler writes outside of the answer's buffer.
module _ (p r : Pointer) where
  pub keep_alive_overrun : length r.mem < r.at + 1 → keep_alive p r ≡ none
  unfolding keep_alive
  keep_alive_overrun h = grind out_of_range

  pub i_bit_overrun : length r.mem < r.at + 2 → i_bit p r ≡ none
  unfolding i_bit
  i_bit_overrun h = grind out_of_range

  pub r_bit_overrun : length r.mem < r.at + 2 → r_bit p r ≡ none
  unfolding r_bit
  r_bit_overrun h = grind out_of_range

  pub c_bit_overrun : length r.mem < r.at + 2 → c_bit p r ≡ none
  unfolding c_bit
  c_bit_overrun h = grind out_of_range

  module _ (readable : p.at + 24 ≤ length p.mem) where
    pub recv_extern1_data_overrun : length r.mem < r.at + 24 → recv_extern1_data p r ≡ none
    unfolding recv_extern1_data
    recv_extern1_data_overrun h = grind out_of_range

    pub recv_extern2_data_overrun : length r.mem < r.at + 48 → recv_extern2_data p r ≡ none
    unfolding recv_extern2_data
    recv_extern2_data_overrun h = grind out_of_range

    pub recv_extern3_data_overrun : length r.mem < r.at + 64 → recv_extern3_data p r ≡ none
    unfolding recv_extern3_data
    recv_extern3_data_overrun h = grind out_of_range

    pub recv_extern4_data_overrun : length r.mem < r.at + 88 → recv_extern4_data p r ≡ none
    unfolding recv_extern4_data
    recv_extern4_data_overrun h = grind out_of_range
