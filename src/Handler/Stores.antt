-- ===== src/Handler/Stores.antt =====
-- A handler of command.c as the stores that it makes, in order.
use communicate_core.Common.{ℕ, ◌+◌, ◌≤◌, ◌≡◌, length, List, [], ◌∷◌, arith, ◌==◌, if◌then◌else◌}
use communicate_core.Memory.{peek, poke}
use communicate_core.Command.Ids.{
  keep_alive_id, ibit_id, rbit_id, cbit_id, extern1_data_id, extern2_data_id, extern3_data_id,
  extern4_data_id, extern1_at, extern2_at, extern3_at, extern4_at,
}
use communicate_core.Handler.Defs.{Pointer}
use communicate_core.Handler.Effect.{reach, effect}

-- An assignment to a member: its size and place, and the value.
pub record Store : Type 0 where
  pub width : ℕ
  pub to : ℕ
  pub value : ℕ

-- The assignments of a handler: the results that are all 1, or the doubles that are copied.
abbrev pub results : ℕ → List Store
results at =
    record { width = 1; to = at; value = 1 } ∷ record { width = 1; to = at + 1; value = 1 } ∷ []

abbrev pub double : Pointer → ℕ → ℕ → Store
double p from to = record { width = 8; to = to; value = peek 8 p.mem (p.at + from) }

unfoldable pub stores : ℕ → Pointer → ℕ → List Store
stores id p at =
    if id == keep_alive_id
    then record { width = 1; to = at; value = 1 } ∷ []
    else if id == ibit_id
    then results at
    else if id == rbit_id
    then results at
    else if id == cbit_id
    then results at
    else if id == extern1_data_id
    then double p 0 (at + extern1_at)
      ∷ double p 8 (at + extern1_at + 8)
      ∷ double p 16 (at + extern1_at + 16)
      ∷ []
    else if id == extern2_data_id
    then double p 0 (at + extern2_at)
      ∷ double p 8 (at + extern2_at + 8)
      ∷ double p 16 (at + extern2_at + 16)
      ∷ []
    else if id == extern3_data_id
    then double p 0 (at + extern3_at) ∷ double p 8 (at + extern3_at + 8) ∷ []
    else if id == extern4_data_id
    then double p 0 (at + extern4_at)
      ∷ double p 8 (at + extern4_at + 8)
      ∷ double p 16 (at + extern4_at + 16)
      ∷ []
    else []

abbrev pub run_stores : List Store → List ℕ → List ℕ
run_stores [] mem = mem
run_stores (s ∷ ss) mem = run_stores ss (poke s.width mem s.to s.value)

abbrev pub AllWithin : ℕ → List Store → Type 0
AllWithin n [] = Unit {0}
AllWithin n (s ∷ ss) = (s.to + s.width ≤ n) × AllWithin n ss

pub run_stores-stores :
    (id : ℕ) (p r : Pointer) → run_stores (stores id p r.at) r.mem ≡ effect id p r
unfolding stores effect
run_stores-stores id p r = ground arith

pub stores-AllWithin : (id : ℕ) (p : Pointer) (at : ℕ) → AllWithin (at + reach id) (stores id p at)
unfolding stores reach
stores-AllWithin id p at = ground arith

-- A handler makes three assignments at most.
abbrev pub most_stores : ℕ
most_stores = 3

pub length-stores : (id : ℕ) (p : Pointer) (at : ℕ) → length (stores id p at) ≤ most_stores
unfolding stores
length-stores id p at = ground arith
