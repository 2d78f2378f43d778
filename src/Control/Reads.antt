-- ===== src/Control/Reads.antt =====
-- A read of process3's main loop.
mod Tests
use communicate_core.Common.{
  ℕ, ◌+◌, ◌-◌, ◌≤◌, ◌<◌, ◌≡◌, refl, List, ◌++◌, some, arith, ltb, if◌then◌else◌, length, take, drop,
  take-drop, length-take_le,
}
use communicate_core.Memory.{
  byte_at, store_in_range, poke, length-poke, byte_at-poke_outside, peek-poke_self, peek-one,
  copied, copy_in_range, length-copied, copied_inside, copied_behind,
}
use communicate_core.Control.Defs.{data_size, Read, read_pipe}

-- What a read owes: the bytes in front of the pipe are in front of the buffer, with the terminator
-- behind them, and no other byte of the buffer changes.
pub record IsRead (buffer pipe : List ℕ) (r : Read) : Type 0 where
  pub splits : r.bytes ++ r.pipe ≡ pipe
  pub rest : r.pipe ≡ drop (data_size - 1) pipe
  pub few : length r.bytes ≤ data_size - 1
  pub same_length : length r.buffer ≡ length buffer
  pub front : (j : ℕ) → j < length r.bytes → byte_at r.buffer j ≡ byte_at r.bytes j
  pub terminated : 0 < length r.bytes → byte_at r.buffer (length r.bytes) ≡ 0
  pub behind : (j : ℕ) → length r.bytes < j → byte_at r.buffer j ≡ byte_at buffer j

module _ (buffer pipe : List ℕ) (whole : length buffer ≡ data_size) where
  bytes : List ℕ
  bytes = take (data_size - 1) pipe

  bytes-le : length bytes ≤ data_size - 1
  unfolding bytes
  bytes-le = length-take_le (data_size - 1) pipe

  laid : List ℕ
  laid = copied (length bytes) buffer bytes

  length-laid : length laid ≡ length buffer
  unfolding laid
  length-laid = length-copied (length bytes) buffer bytes (omega (arith, bytes-le)) (omega arith)

  outcome : Read
  outcome = record {
    buffer = if ltb 0 (length bytes) then poke 1 laid (length bytes) 0 else laid;
    pipe = drop (data_size - 1) pipe;
    bytes = bytes;
  }

  read_pipe-outcome : read_pipe buffer pipe ≡ some outcome
  unfolding read_pipe outcome laid bytes
  read_pipe-outcome =
      rw (copy_in_range (length bytes) buffer bytes (omega (arith, bytes-le)) (omega arith)) (
        ground
          (arith, store_in_range 1 laid (length bytes) 0 (omega (arith, bytes-le, length-laid))))

  laid_inside : (j : ℕ) → j < length bytes → byte_at laid j ≡ byte_at bytes j
  unfolding laid
  laid_inside j q =
      copied_inside (length bytes) buffer bytes j (omega arith) (omega (arith, bytes-le)) q

  laid_behind : (j : ℕ) → length bytes ≤ j → byte_at laid j ≡ byte_at buffer j
  unfolding laid
  laid_behind j q =
      copied_behind (length bytes) buffer bytes j (omega arith) (omega (arith, bytes-le)) q

  outcome-IsRead : IsRead buffer pipe outcome
  unfolding outcome
  outcome-IsRead = record {
    splits = unfold bytes in take-drop (data_size - 1) pipe;
    rest = refl;
    few = bytes-le;
    same_length = ground (arith, length-laid, length-poke 1 laid (length bytes) 0);
    front = λ j q. ground (arith, byte_at-poke_outside 1 laid (length bytes) 0 j, laid_inside j q);
    terminated = λ q. ground (
      arith,
      peek-one (poke 1 laid (length bytes) 0) (length bytes),
      peek-poke_self 1 laid (length bytes) 0 (omega (arith, bytes-le, length-laid)) (omega arith),
    );
    behind = λ j q.
        ground (arith, byte_at-poke_outside 1 laid (length bytes) 0 j, laid_behind j (omega arith));
  }

  -- A read of the main loop into its buffer of `DATA_SIZE` bytes succeeds, whatever is in the pipe.
  -- It takes the bytes in front of the pipe, at most `DATA_SIZE - 1`, and leaves the others. They
  -- are in front of the buffer, a terminator is behind them inside the buffer, and no byte behind
  -- that changes.
  pub read_pipe-IsRead : (r : Read) × (read_pipe buffer pipe ≡ some r) × IsRead buffer pipe r
  read_pipe-IsRead = (outcome, read_pipe-outcome, outcome-IsRead)
