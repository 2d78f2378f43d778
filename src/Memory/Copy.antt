-- ===== src/Memory/Copy.antt =====
-- What `copy_bytes` leaves, and buffers of zeros.
use native.Mathlib.Decide.{dec_lt}
use communicate_core.Common.{
  ℕ, zero, suc, ◌≤◌, ◌<◌, ◌≡◌, refl, List, [], ◌∷◌, ◌++◌, some, arith, length, take, drop,
  replicate, length-append, length-take, length-drop, leb_of_le,
}
use communicate_core.Memory.Access.{byte_at, copy_bytes}
use communicate_core.Memory.Laws.{IsBytes}

-- `to` with its first `n` bytes replaced by those of `from`.
abbrev pub copied : ℕ → List ℕ → List ℕ → List ℕ
copied n to from = take n from ++ drop n to

pub copy_in_range :
    (n : ℕ) (to from : List ℕ)
    → n ≤ length to
    → n ≤ length from
    → copy_bytes n to from ≡ some (copied n to from)
unfolding copy_bytes
copy_in_range n to from h k = rw (leb_of_le _ _ h, leb_of_le _ _ k)

pub length-copied :
    (n : ℕ) (to from : List ℕ)
    → n ≤ length to
    → n ≤ length from
    → length (copied n to from) ≡ length to
length-copied n to from h k =
    omega (arith, length-append (take n from) (drop n to), length-take n from k, length-drop n to)

pub copied_inside :
    (n : ℕ) (to from : List ℕ) (j : ℕ)
    → n ≤ length from
    → n ≤ length to
    → j < n
    → byte_at (copied n to from) j ≡ byte_at from j
copied_inside zero to from j h m k = absurd (omega arith)
copied_inside (suc n) to [] j h m k = absurd (omega arith)
copied_inside (suc n) [] (x ∷ from) j h m k = absurd (omega arith)
copied_inside (suc n) (y ∷ to) (x ∷ from) zero h m k = refl
copied_inside (suc n) (y ∷ to) (x ∷ from) (suc j) h m k =
    copied_inside n to from j (omega arith) (omega arith) (omega arith)

pub copied_behind :
    (n : ℕ) (to from : List ℕ) (j : ℕ)
    → n ≤ length from
    → n ≤ length to
    → n ≤ j
    → byte_at (copied n to from) j ≡ byte_at to j
copied_behind zero to from j h m k = refl
copied_behind (suc n) to [] j h m k = absurd (omega arith)
copied_behind (suc n) [] (x ∷ from) j h m k = absurd (omega arith)
copied_behind (suc n) (y ∷ to) (x ∷ from) zero h m k = absurd (omega arith)
copied_behind (suc n) (y ∷ to) (x ∷ from) (suc j) h m k =
    copied_behind n to from j (omega arith) (omega arith) (omega arith)

pub byte_at-replicate : (n j : ℕ) → byte_at (replicate n 0) j ≡ 0
byte_at-replicate zero j = refl
byte_at-replicate (suc n) zero = refl
byte_at-replicate (suc n) (suc j) = byte_at-replicate n j

pub replicate-IsBytes : (n : ℕ) → IsBytes (replicate n 0)
replicate-IsBytes n j = omega (arith, byte_at-replicate n j)

pub copied-IsBytes :
    (n : ℕ) (to from : List ℕ)
    → n ≤ length to
    → n ≤ length from
    → IsBytes to
    → IsBytes from
    → IsBytes (copied n to from)
copied-IsBytes n to from h k t f j = elim (dec_lt j n) [
  | yes inside ↦ omega (arith, copied_inside n to from j k h inside, f j)
  | no behind ↦ omega (arith, copied_behind n to from j k h (omega arith), t j)
]
