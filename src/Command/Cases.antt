-- ===== src/Command/Cases.antt =====
-- Proof by cases on a command id: the eleven ids of the table, and all others.
use native.Mathlib.Decide.{ℕ_discrete}
use mathlib.Core.Path.{subst}
use communicate_core.Common.{ℕ, ◌≡◌, ◌≢◌, sym, arith}
use communicate_core.Command.Sizes.{get_send_cmd_size, get_cmd_name}
use communicate_core.Command.Ids.{
  keep_alive_id, ibit_id, rbit_id, cbit_id, extern1_data_id, extern2_data_id, extern3_data_id,
  extern4_data_id, processing_data_id, ctrl_data_id, command_id,
}

-- An id that is none of the commands.
pub record IsOther (id : ℕ) : Type 0 where
  pub not_keep_alive : id ≢ keep_alive_id
  pub not_ibit : id ≢ ibit_id
  pub not_rbit : id ≢ rbit_id
  pub not_cbit : id ≢ cbit_id
  pub not_extern1 : id ≢ extern1_data_id
  pub not_extern2 : id ≢ extern2_data_id
  pub not_extern3 : id ≢ extern3_data_id
  pub not_extern4 : id ≢ extern4_data_id
  pub not_processing : id ≢ processing_data_id
  pub not_ctrl : id ≢ ctrl_data_id
  pub not_command : id ≢ command_id

pub by_command {ℓ} :
    (P : ℕ → Type ℓ)
    → P keep_alive_id
    → P ibit_id
    → P rbit_id
    → P cbit_id
    → P extern1_data_id
    → P extern2_data_id
    → P extern3_data_id
    → P extern4_data_id
    → P processing_data_id
    → P ctrl_data_id
    → P command_id
    → ((id : ℕ) → IsOther id → P id)
    → (id : ℕ) → P id
by_command P p₀ p₁ p₂ p₃ q₁ q₂ q₃ q₄ r s₁ s₂ other id = is keep_alive_id p₀ λ n₀.
    is ibit_id p₁ λ n₁. is rbit_id p₂ λ n₂. is cbit_id p₃ λ n₃. is extern1_data_id q₁ λ m₁.
      is extern2_data_id q₂ λ m₂. is extern3_data_id q₃ λ m₃. is extern4_data_id q₄ λ m₄.
        is processing_data_id r λ k. is ctrl_data_id s₁ λ l₁. is command_id s₂ λ l₂.
          other id (record {
            not_keep_alive = n₀;
            not_ibit = n₁;
            not_rbit = n₂;
            not_cbit = n₃;
            not_extern1 = m₁;
            not_extern2 = m₂;
            not_extern3 = m₃;
            not_extern4 = m₄;
            not_processing = k;
            not_ctrl = l₁;
            not_command = l₂;
          })
  where
    is : (c : ℕ) → P c → (id ≢ c → P id) → P id
    is c p rest = elim (ℕ_discrete id c) [ yes e ↦ subst P (sym e) p | no n ↦ rest n ]

pub get_send_cmd_size-other : {id : ℕ} → IsOther id → get_send_cmd_size id ≡ 0
unfolding get_send_cmd_size
get_send_cmd_size-other h = ground arith

pub get_cmd_name-other : {id : ℕ} → IsOther id → get_cmd_name id ≡ "UNKNOWN"
unfolding get_cmd_name
get_cmd_name-other h = ground arith
