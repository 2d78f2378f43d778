-- ===== src/Gtest/Sensor/Payload.antt =====
-- The assignments to the payload of a sensor's packet.
use communicate_core.Common.{
  ℕ, zero, suc, ◌+◌, ◌*◌, ◌^◌, ◌≤◌, ◌<◌, ◌≡◌, ◌⊎◌, List, some, arith, length,
}
use communicate_core.Memory.{
  byte_at, peek, poke, IsBytes, poke-IsBytes, store_in_range, length-poke, peek-poke_self,
  peek-poke_apart, byte_at-poke_outside,
}
use communicate_core.Sensor.Readings.{Sensor, extern1, extern2, extern3, extern4}
use communicate_core.Sensor.Pipeline.{doubles}
use communicate_core.Gtest.Sensor.Defs.{fill_two, fill_three, fill_payload}

abbrev pub payload_size : Sensor → ℕ
payload_size s = 8 * doubles s

-- The packet with the values written over its payload.
abbrev two_filled : (ℕ → ℕ) → List ℕ → List ℕ
two_filled value packet = poke 8 (poke 8 packet 11 (value 0)) 19 (value 1)

abbrev three_filled : (ℕ → ℕ) → List ℕ → List ℕ
three_filled value packet = poke 8 (two_filled value packet) 27 (value 2)

-- What the assignments leave: the values in the payload, and no other byte changed.
pub record IsFilled (n : ℕ) (value : ℕ → ℕ) (packet out : List ℕ) : Type 0 where
  pub same_length : length out ≡ length packet
  pub values : (k : ℕ) → k < n → peek 8 out (11 + 8 * k) ≡ value k
  pub outside : (j : ℕ) → (j < 11) ⊎ (11 + 8 * n ≤ j) → byte_at out j ≡ byte_at packet j
  pub still_bytes : IsBytes packet → IsBytes out

abbrev pub AreDoubles : ℕ → (ℕ → ℕ) → Type 0
AreDoubles n value = (k : ℕ) → k < n → value k < 2 ^ 64

two_values :
    (value : ℕ → ℕ) (packet : List ℕ) (k : ℕ)
    → value 0 < 2 ^ 64
    → value 1 < 2 ^ 64
    → 27 ≤ length packet
    → k < 2
    → peek 8 (two_filled value packet) (11 + 8 * k) ≡ value k
two_values value packet zero a b room q =
    grind (arith, length-poke, peek-poke_self, peek-poke_apart)
two_values value packet (suc zero) a b room q =
    grind (arith, length-poke, peek-poke_self, peek-poke_apart)
two_values value packet (suc (suc k)) a b room q = absurd (omega arith)

three_values :
    (value : ℕ → ℕ) (packet : List ℕ) (k : ℕ)
    → value 0 < 2 ^ 64
    → value 1 < 2 ^ 64
    → value 2 < 2 ^ 64
    → 35 ≤ length packet
    → k < 3
    → peek 8 (three_filled value packet) (11 + 8 * k) ≡ value k
three_values value packet zero a b c room q =
    grind (arith, length-poke, peek-poke_self, peek-poke_apart)
three_values value packet (suc zero) a b c room q =
    grind (arith, length-poke, peek-poke_self, peek-poke_apart)
three_values value packet (suc (suc zero)) a b c room q =
    grind (arith, length-poke, peek-poke_self, peek-poke_apart)
three_values value packet (suc (suc (suc k))) a b c room q = absurd (omega arith)

fill_two-IsFilled :
    (value : ℕ → ℕ) (packet : List ℕ)
    → AreDoubles 2 value
    → 27 ≤ length packet
    → (out : List ℕ) × (fill_two value packet ≡ some out) × IsFilled 2 value packet out
unfolding fill_two
fill_two-IsFilled value packet are room = (
  two_filled value packet,
  grind (arith, store_in_range, length-poke),
  record {
    same_length = simp length-poke;
    values = λ k q. two_values value packet k (are 0 (omega arith)) (are 1 (omega arith)) room q;
    outside = λ j o. grind (arith, byte_at-poke_outside);
    still_bytes = λ b. poke-IsBytes 8 _ _ _ (poke-IsBytes 8 _ _ _ b);
  },
)

fill_three-IsFilled :
    (value : ℕ → ℕ) (packet : List ℕ)
    → AreDoubles 3 value
    → 35 ≤ length packet
    → (out : List ℕ) × (fill_three value packet ≡ some out) × IsFilled 3 value packet out
unfolding fill_three
fill_three-IsFilled value packet are room = (
  three_filled value packet,
  grind (arith, store_in_range, length-poke),
  record {
    same_length = simp length-poke;
    values = λ k q.
        three_values value packet k (are 0 (omega arith)) (are 1 (omega arith))
          (are 2 (omega arith)) room q;
    outside = λ j o. grind (arith, byte_at-poke_outside);
    still_bytes = λ b. poke-IsBytes 8 _ _ _ (poke-IsBytes 8 _ _ _ (poke-IsBytes 8 _ _ _ b));
  },
)

pub fill_payload-IsFilled :
    (s : Sensor) (value : ℕ → ℕ) (packet : List ℕ)
    → AreDoubles (doubles s) value
    → 11 + payload_size s ≤ length packet
    → (out : List ℕ) × (fill_payload s value packet ≡ some out)
      × IsFilled (doubles s) value packet out
unfolding fill_payload
fill_payload-IsFilled extern3 value packet are room = fill_two-IsFilled value packet are room
fill_payload-IsFilled extern1 value packet are room = fill_three-IsFilled value packet are room
fill_payload-IsFilled extern2 value packet are room = fill_three-IsFilled value packet are room
fill_payload-IsFilled extern4 value packet are room = fill_three-IsFilled value packet are room
