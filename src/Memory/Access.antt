-- ===== src/Memory/Access.antt =====
-- Loads and stores in a buffer. `none` is an access outside of the buffer.
use communicate_core.Common.{
  ℕ, zero, suc, ◌+◌, ◌*◌, ◌/◌, ◌%◌, List, Option, none, some, ◌++◌, ◌&&◌, leb, if◌then◌else◌,
  length, get_or, set, take, drop,
}

abbrev pub byte_at : List ℕ → ℕ → ℕ
byte_at buf i = get_or buf i 0

-- The little-endian value of `n` bytes from `off`.
unfoldable pub peek : ℕ → List ℕ → ℕ → ℕ
peek zero buf off = 0
peek (suc n) buf off = byte_at buf off + 256 * peek n buf (off + 1)

-- The buffer with the low `n` bytes of `v` written from `off`.
unfoldable pub poke : ℕ → List ℕ → ℕ → ℕ → List ℕ
poke zero buf off v = buf
poke (suc n) buf off v = poke n (set buf off (v % 256)) (off + 1) (v / 256)

unfoldable pub load : ℕ → List ℕ → ℕ → Option ℕ
unfolding peek
load n buf off = if leb (off + n) (length buf) then some (peek n buf off) else none

unfoldable pub store : ℕ → List ℕ → ℕ → ℕ → Option (List ℕ)
unfolding poke
store n buf off v = if leb (off + n) (length buf) then some (poke n buf off v) else none

-- memcpy of `n` bytes to the start of a buffer from the start of another.
unfoldable pub copy_bytes : ℕ → List ℕ → List ℕ → Option (List ℕ)
copy_bytes n to from =
    if leb n (length to) && leb n (length from) then some (take n from ++ drop n to) else none
