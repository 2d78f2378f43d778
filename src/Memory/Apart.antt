-- ===== src/Memory/Apart.antt =====
-- Stores to places that do not meet, and buffers that are equal byte by byte.
use native.Mathlib.Decide.{ℕ_discrete, dec_lt}
use communicate_core.Common.{
  ℕ, zero, suc, ◌+◌, ◌/◌, ◌%◌, ◌≤◌, ◌<◌, ◌≡◌, refl, sym, ◌∙◌, ap₂, List, [], ◌∷◌, arith, length,
  length-set, set, get_or-set_self,
}
use communicate_core.Memory.Access.{byte_at, poke}
use communicate_core.Memory.Laws.{byte_at-poke_outside}

pub byte_at_ext :
    (a b : List ℕ) → length a ≡ length b → ((j : ℕ) → byte_at a j ≡ byte_at b j) → a ≡ b
byte_at_ext [] [] e h = refl
byte_at_ext [] (y ∷ b) e h = absurd (omega arith)
byte_at_ext (x ∷ a) [] e h = absurd (omega arith)
byte_at_ext (x ∷ a) (y ∷ b) e h = ap₂ ◌∷◌ (h 0) (byte_at_ext a b (omega arith) (λ j. h (suc j)))

-- What a store puts into its place does not depend on what stood there.
pub byte_at-poke_inside :
    (n : ℕ) (a b : List ℕ) (off v j : ℕ)
    → off ≤ j
    → j < off + n
    → off + n ≤ length a
    → length b ≡ length a
    → byte_at (poke n a off v) j ≡ byte_at (poke n b off v) j
unfolding poke
byte_at-poke_inside zero a b off v j low high room same = absurd (omega arith)
byte_at-poke_inside (suc n) a b off v j low high room same = elim (ℕ_discrete off j) [
  | yes here ↦ rw (← here) (
      byte_at-poke_outside n (set a off (v % 256)) (off + 1) (v / 256) off (omega arith)
      ∙ get_or-set_self a off (v % 256) 0 (omega arith)
      ∙ sym (get_or-set_self b off (v % 256) 0 (omega arith))
      ∙ sym (byte_at-poke_outside n (set b off (v % 256)) (off + 1) (v / 256) off (omega arith)))
  | no there ↦
      byte_at-poke_inside n (set a off (v % 256)) (set b off (v % 256)) (off + 1) (v / 256) j
        (omega arith) (omega arith) (omega (arith, length-set a off (v % 256)))
        (omega (arith, length-set a off (v % 256), length-set b off (v % 256)))
]

-- Two buffers that agree from `lo` to `hi`.
abbrev pub Agree : ℕ → ℕ → List ℕ → List ℕ → Type 0
Agree lo hi a b = (j : ℕ) → lo ≤ j → j < hi → byte_at a j ≡ byte_at b j

-- The same store at the end of where they agree extends it.
pub poke-Agree :
    (n lo off v : ℕ) (a b : List ℕ)
    → off + n ≤ length a
    → length b ≡ length a
    → Agree lo off a b
    → Agree lo (off + n) (poke n a off v) (poke n b off v)
poke-Agree n lo off v a b room same h j low high = elim (dec_lt j off) [
  | yes before ↦
      byte_at-poke_outside n a off v j (omega arith)
      ∙ h j low before
      ∙ sym (byte_at-poke_outside n b off v j (omega arith))
  | no within ↦ byte_at-poke_inside n a b off v j (omega arith) high room same
]
