-- ===== src/Sensor/Readings.antt =====
-- The readings of the four sensors in the shared data.
use communicate_core.Common.{ℕ, ◌+◌, ◌≤◌, ◌<◌, ◌≡◌, ◌≢◌, ◌⊎◌, refl, sym, ◌∙◌, List, arith, length}
use communicate_core.Memory.{byte_at, peek, length-poke, byte_at-poke_outside, Agree, poke-Agree}
use communicate_core.Command.Ids.{
  sizeof_sensor_data, extern1_data_id, extern2_data_id, extern3_data_id, extern4_data_id,
}
use communicate_core.Handler.{Pointer}
use communicate_core.Handler.Effect.{effect, with_two, with_three}
use communicate_core.Handler.Footprint.{effect-outside}

-- The member of `SENSOR_DATA` that a sensor's command writes.
pub record Member (id : ℕ) : Type 0 where
  pub start : ℕ
  pub end : ℕ
  pub fits : end ≤ sizeof_sensor_data
  pub outside :
      (p : Pointer) (mem : List ℕ) (j : ℕ)
      → (j < start) ⊎ (end ≤ j)
      → byte_at (effect id p (record { mem = mem; at = 0 })) j ≡ byte_at mem j
  pub inside :
      (p : Pointer) (a b : List ℕ) (j : ℕ)
      → length a ≡ sizeof_sensor_data
      → length b ≡ sizeof_sensor_data
      → start ≤ j
      → j < end
      → byte_at (effect id p (record { mem = a; at = 0 })) j
        ≡ byte_at (effect id p (record { mem = b; at = 0 })) j

two_inside :
    (p : Pointer) (a b : List ℕ) (k : ℕ)
    → k + 16 ≤ length a
    → length b ≡ length a
    → Agree k (k + 8 + 8) (with_two p a k) (with_two p b k)
two_inside p a b k room same =
    poke-Agree 8 k (k + 8) _ _ _ (omega (arith, length-poke 8 a k (peek 8 p.mem (p.at + 0))))
      (length-poke 8 b k _ ∙ same ∙ sym (length-poke 8 a k _))
      (poke-Agree 8 k k _ a b (omega arith) same (λ j low high. absurd (omega arith)))

three_inside :
    (p : Pointer) (a b : List ℕ) (k : ℕ)
    → k + 24 ≤ length a
    → length b ≡ length a
    → Agree k (k + 16 + 8) (with_three p a k) (with_three p b k)
three_inside p a b k room same =
    poke-Agree 8 k (k + 16) _ _ _ (omega (arith, length-with_two p a k))
      (length-with_two p b k ∙ same ∙ sym (length-with_two p a k))
      (λ j low high. two_inside p a b k (omega arith) same j low (omega arith))
  where
    length-with_two :
        (q : Pointer) (mem : List ℕ) (to : ℕ) → length (with_two q mem to) ≡ length mem
    length-with_two q mem to = simp length-poke

three_member :
    (id k : ℕ)
    → k + 24 ≤ sizeof_sensor_data
    → ((p : Pointer) (mem : List ℕ)
        → effect id p (record { mem = mem; at = 0 }) ≡ with_three p mem k)
    → Member id
three_member id k room eq = record {
  start = k;
  end = k + 24;
  fits = room;
  outside = λ p mem j o. rw (eq p mem) (with_three_outside p mem j o);
  inside = λ p a b j la lb low high.
      rw (eq p a, eq p b) (three_inside p a b k (omega arith) (lb ∙ sym la) j low (omega arith));
}
  where
    with_three_outside :
        (p : Pointer) (mem : List ℕ) (j : ℕ)
        → (j < k) ⊎ (k + 24 ≤ j)
        → byte_at (with_three p mem k) j ≡ byte_at mem j
    with_three_outside p mem j o = grind (arith, byte_at-poke_outside)

extern1_member : Member 100
unfolding effect
extern1_member = three_member 100 0 (omega arith) (λ p mem. refl)

extern2_member : Member 101
unfolding effect
extern2_member = three_member 101 24 (omega arith) (λ p mem. refl)

extern4_member : Member 103
unfolding effect
extern4_member = three_member 103 64 (omega arith) (λ p mem. refl)

extern3_member : Member 102
unfolding effect
extern3_member = record {
  start = 48;
  end = 64;
  fits = omega arith;
  outside = λ p mem j o. grind (arith, byte_at-poke_outside);
  inside =
      λ p a b j la lb low high. two_inside p a b 48 (omega arith) (lb ∙ sym la) j low (omega arith);
}

-- The four sensors, by their commands.
pub data Sensor : Type 0 where
  extern1 extern2 extern3 extern4 : Sensor

abbrev pub id_of : Sensor → ℕ
id_of extern1 = extern1_data_id
id_of extern2 = extern2_data_id
id_of extern3 = extern3_data_id
id_of extern4 = extern4_data_id

pub member_of : (s : Sensor) → Member (id_of s)
member_of extern1 = extern1_member
member_of extern2 = extern2_member
member_of extern3 = extern3_member
member_of extern4 = extern4_member

pub member_of-apart :
    (s t : Sensor)
    → s ≢ t
    → ((member_of s).end ≤ (member_of t).start) ⊎ ((member_of t).end ≤ (member_of s).start)
unfolding member_of extern1_member extern2_member extern3_member extern4_member three_member
member_of-apart extern1 extern1 h = absurd (h refl)
member_of-apart extern2 extern2 h = absurd (h refl)
member_of-apart extern3 extern3 h = absurd (h refl)
member_of-apart extern4 extern4 h = absurd (h refl)
member_of-apart s t h = omega arith

-- The shared data after a reading of a sensor.
abbrev pub stored : Sensor → Pointer → List ℕ → List ℕ
stored s p mem = effect (id_of s) p (record { mem = mem; at = 0 })

pub length-stored : (s : Sensor) (p : Pointer) (mem : List ℕ) → length (stored s p mem) ≡ length mem
length-stored s p mem = (effect-outside p (record { mem = mem; at = 0 }) (id_of s)).0
