-- ===== src/Sensor/Independence.antt =====
-- The order in which readings of different sensors are stored.
use native.Mathlib.Decide.{dec_lt}
use communicate_core.Common.{
  ℕ, ◌+◌, ◌≤◌, ◌<◌, ◌≡◌, ◌≢◌, ◌⊎◌, inl, inr, refl, sym, ap, ◌∙◌, List, true, Option, some, ◌>>=◌,
  arith, length,
}
use communicate_core.Memory.{byte_at, byte_at_ext}
use communicate_core.Command.Ids.{sizeof_sensor_data}
use communicate_core.Handler.{Pointer, dispatch_command}
use communicate_core.Handler.Effect.{reach, effect}
use communicate_core.Handler.Dispatch.{dispatch_command-effect}
use communicate_core.Sensor.Readings.{
  Member, Sensor, extern1, id_of, member_of, member_of-apart, stored, length-stored,
}

-- A byte behind a reading depends on the same byte before it alone.
Member-cong :
    {id : ℕ} (m : Member id) (p : Pointer) (a b : List ℕ) (j : ℕ)
    → length a ≡ sizeof_sensor_data
    → length b ≡ sizeof_sensor_data
    → byte_at a j ≡ byte_at b j
    → byte_at (effect id p (record { mem = a; at = 0 })) j
      ≡ byte_at (effect id p (record { mem = b; at = 0 })) j
Member-cong m p a b j la lb same = elim (dec_lt j m.start) [
  | yes before ↦ m.outside p a j (inl before) ∙ same ∙ sym (m.outside p b j (inl before))
  | no from ↦ elim (dec_lt j m.end) [
    | yes within ↦ m.inside p a b j la lb (omega arith) within
    | no behind ↦
        m.outside p a j (inr (omega arith)) ∙ same ∙ sym (m.outside p b j (inr (omega arith)))
  ]
]

-- Of two members that do not meet, a byte lies outside of one.
outside_one :
    {a b : ℕ} (m : Member a) (n : Member b) (j : ℕ)
    → (m.end ≤ n.start) ⊎ (n.end ≤ m.start)
    → ((j < m.start) ⊎ (m.end ≤ j)) ⊎ ((j < n.start) ⊎ (n.end ≤ j))
outside_one m n j apart = elim (dec_lt j m.start) [
  | yes before ↦ inl (inl before)
  | no from ↦ elim (dec_lt j m.end) [
    | yes within ↦ inr (omega arith)
    | no behind ↦ inl (inr (omega arith))
  ]
]

module _ (s t : Sensor) (p q : Pointer) (mem : List ℕ) (differ : s ≢ t)
    (whole : length mem ≡ sizeof_sensor_data) where
  stored_comm : stored t q (stored s p mem) ≡ stored s p (stored t q mem)
  stored_comm =
      byte_at_ext (stored t q (stored s p mem)) (stored s p (stored t q mem)) lengths
        λ j. at_byte j (outside_one (member_of s) (member_of t) j (member_of-apart s t differ))
    where
      whole_s : length (stored s p mem) ≡ sizeof_sensor_data
      whole_s = length-stored s p mem ∙ whole

      whole_t : length (stored t q mem) ≡ sizeof_sensor_data
      whole_t = length-stored t q mem ∙ whole

      lengths : length (stored t q (stored s p mem)) ≡ length (stored s p (stored t q mem))
      lengths =
          length-stored t q (stored s p mem)
          ∙ whole_s
          ∙ sym (length-stored s p (stored t q mem) ∙ whole_t)

      at_byte :
          (j : ℕ)
          → ((j < (member_of s).start) ⊎ ((member_of s).end ≤ j))
            ⊎ ((j < (member_of t).start) ⊎ ((member_of t).end ≤ j))
          → byte_at (stored t q (stored s p mem)) j ≡ byte_at (stored s p (stored t q mem)) j
      at_byte j (inl not_s) =
          Member-cong (member_of t) q (stored s p mem) mem j whole_s whole
            ((member_of s).outside p mem j not_s)
          ∙ sym ((member_of s).outside p (stored t q mem) j not_s)
      at_byte j (inr not_t) =
          (member_of t).outside q (stored s p mem) j not_t
          ∙ Member-cong (member_of s) p mem (stored t q mem) j whole whole_t
              (sym ((member_of t).outside q mem j not_t))

-- A reading as the collector stores it: the dispatch of the sensor's command.
abbrev pub store_reading : Sensor → Pointer → List ℕ → Option (List ℕ)
store_reading s p mem = do
  done ← dispatch_command (id_of s) p (record { mem = mem; at = 0 }) true
  some done.mem

reach-id_of-le : (s : Sensor) → reach (id_of s) ≤ sizeof_sensor_data
unfolding reach
reach-id_of-le extern1 = omega arith
reach-id_of-le s = omega arith

pub store_reading-stored :
    (s : Sensor) (p : Pointer) (mem : List ℕ)
    → p.at + 24 ≤ length p.mem
    → length mem ≡ sizeof_sensor_data
    → store_reading s p mem ≡ some (stored s p mem)
store_reading-stored s p mem readable whole =
    rw
      (dispatch_command-effect p (record { mem = mem; at = 0 }) true readable (id_of s)
        (omega (arith, reach-id_of-le s)))
      refl

-- Two readings of different sensors leave the same shared data in either order, and both succeed.
pub store_reading_comm :
    (s t : Sensor) (p q : Pointer) (mem : List ℕ)
    → s ≢ t
    → p.at + 24 ≤ length p.mem
    → q.at + 24 ≤ length q.mem
    → length mem ≡ sizeof_sensor_data
    → (out : List ℕ) × ((store_reading s p mem >>= store_reading t q) ≡ some out)
      × ((store_reading t q mem >>= store_reading s p) ≡ some out)
store_reading_comm s t p q mem differ rp rq whole = (
  stored t q (stored s p mem),
  rw (store_reading-stored s p mem rp whole)
      (store_reading-stored t q (stored s p mem) rq (length-stored s p mem ∙ whole)),
  rw (store_reading-stored t q mem rq whole) (
      store_reading-stored s p (stored t q mem) rp (length-stored t q mem ∙ whole)
      ∙ ap some (sym (stored_comm s t p q mem differ whole))),
)
