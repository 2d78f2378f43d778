-- ===== src/Handler/Footprint.antt =====
-- The bytes that a handler does not write.
use communicate_core.Common.{ℕ, ◌+◌, ◌≤◌, ◌<◌, ◌≡◌, ◌⊎◌, refl, List, arith, length}
use communicate_core.Memory.{
  byte_at, IsBytes, poke, length-poke, byte_at-poke_outside, poke-IsBytes,
}
use communicate_core.Command.Cases.{IsOther, by_command}
use communicate_core.Handler.Defs.{Pointer}
use communicate_core.Handler.Effect.{reach, effect, with_two, with_three}

abbrev Keeps : Pointer → ℕ → List ℕ → Type 0
Keeps r n out =
    (length out ≡ length r.mem)
    × ((j : ℕ) → (j < r.at) ⊎ (r.at + n ≤ j) → byte_at out j ≡ byte_at r.mem j)

with_two-Keeps : (p r : Pointer) (k n : ℕ) → k + 16 ≤ n → Keeps r n (with_two p r.mem (r.at + k))
with_two-Keeps p r k n h = (simp length-poke, λ j o. grind (arith, byte_at-poke_outside))

with_three-Keeps :
    (p r : Pointer) (k n : ℕ) → k + 24 ≤ n → Keeps r n (with_three p r.mem (r.at + k))
with_three-Keeps p r k n h = (simp length-poke, λ j o. grind (arith, byte_at-poke_outside))

-- The effect of any id keeps the length of the answer's buffer and every byte before the answer's
-- pointer and from its reach on.
pub effect-outside :
    (p r : Pointer) (id : ℕ)
    → (length (effect id p r) ≡ length r.mem)
      × ((j : ℕ) → (j < r.at) ⊎ (r.at + reach id ≤ j) → byte_at (effect id p r) j ≡ byte_at r.mem j)
unfolding effect reach
effect-outside p r =
    by_command (λ id. Keeps r (reach id) (effect id p r))
      (simp length-poke, λ j o. grind (arith, byte_at-poke_outside)) bits bits bits
      (with_three-Keeps p r 0 24 (omega arith)) (with_three-Keeps p r 24 48 (omega arith))
      (with_two-Keeps p r 48 64 (omega arith)) (with_three-Keeps p r 64 88 (omega arith))
      (refl, λ j o. refl) (refl, λ j o. refl) (refl, λ j o. refl)
      (λ id other. (ground arith, λ j o. ground arith))
  where
    bits : Keeps r 2 (effect 1 p r)
    bits = (simp length-poke, λ j o. grind (arith, byte_at-poke_outside))

pub effect-other : (p r : Pointer) {id : ℕ} → IsOther id → effect id p r ≡ r.mem
unfolding effect
effect-other p r other = ground arith

-- The effect writes bytes only.
pub effect-IsBytes : (p r : Pointer) → IsBytes r.mem → (id : ℕ) → IsBytes (effect id p r)
unfolding effect
effect-IsBytes p r h =
    by_command (λ id. IsBytes (effect id p r)) (poke-IsBytes 1 r.mem r.at 1 h) bits bits bits
      (three 0) (three 24) (two 48) (three 64) h h h (λ id other. rw (effect-other p r other) h)
  where
    bits : IsBytes (poke 1 (poke 1 r.mem r.at 1) (r.at + 1) 1)
    bits = poke-IsBytes 1 _ (r.at + 1) 1 (poke-IsBytes 1 r.mem r.at 1 h)

    two : (k : ℕ) → IsBytes (with_two p r.mem (r.at + k))
    two k = poke-IsBytes 8 _ _ _ (poke-IsBytes 8 r.mem _ _ h)

    three : (k : ℕ) → IsBytes (with_three p r.mem (r.at + k))
    three k = poke-IsBytes 8 _ _ _ (two k)
