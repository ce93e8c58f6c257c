-- ===== src/Drain/State.antt =====
-- The state of `drainMgr`: the drain list, the owned weights and the desired endpoints.
use load_balancer_controller.Base.{ℕ, ◌==◌, Bool, not, Option}
use load_balancer_controller.Base.Text.{Text, ℤ}
use load_balancer_controller.Base.Dict.{Dict}
use Prim.Native.Nat.{bit_and}

-- `drainWeight`: a weight that this controller changed, and the proof that it did. HAProxy
-- weights run from 0 to 256.
pub record DrainWeight : Type 0 where
  pub weight : ℕ
  pub initial_weight : ℕ
  pub pid : Text
  pub stopping_reload : Bool
  pub retry : Bool

-- `desiredEndpoint`; the weight is what `Atoi` read, so it may be out of range.
pub record DesiredEndpoint : Type 0 where
  pub weight : ℤ
  pub disabled : Bool
  pub temporary_zero : Bool

-- `serverState`
pub record ServerState : Type 0 where
  pub backend : Text
  pub name : Text
  pub weight : ℕ
  pub initial_weight : ℕ
  pub admin : ℕ
  pub operational : ℕ

abbrev pub Weights : Type 0
Weights = Dict DrainWeight

-- `drainMgr`. An endpoint in the drain list is there with the pid that it drains in, or "".
pub record DrainMgr : Type 0 where
  pub drain_list : Dict Text
  pub weights : Dict Weights
  pub desired : Option (Dict DesiredEndpoint)

-- `operatorAdminState`
abbrev pub operator_admin_state : ℕ
operator_admin_state = 0x5f

-- `state.admin&operatorAdminState != 0`
unfoldable pub operator_owned : ℕ → Bool
operator_owned admin = not (bit_and admin operator_admin_state == 0)
