-- ===== src/Trading/RiskManager.antt =====
-- trading/strategy/risk_manager.h: the checks before an order is sent. `Double` stands for `double`,
-- with its comparison `<`. Sums of `int` are those of integers; beyond 32 bits the source's are
-- undefined.
use Prim.Native.String.{String}
use zquant_system.Prelude.{◌-◌, ◌%◌, ◌^◌, Bool, ltb, if◌then◌else◌}
use zquant_system.Prelude.Int.{ℤ, pos, negsuc, ◌+ℤ◌, ◌*ℤ◌, ltb_ℤ, abs}
use zquant_system.Common.Types.{Qty, Side, side_to_value}

pub data RiskCheckResult : Type 0 where
  invalid order_too_large position_too_large loss_too_large allowed : RiskCheckResult

unfoldable pub risk_check_result_to_string : RiskCheckResult → String
risk_check_result_to_string RiskCheckResult.invalid = "INVALID"
risk_check_result_to_string RiskCheckResult.order_too_large = "ORDER_TOO_LARGE"
risk_check_result_to_string RiskCheckResult.position_too_large = "POSITION_TOO_LARGE"
risk_check_result_to_string RiskCheckResult.loss_too_large = "LOSS_TOO_LARGE"
risk_check_result_to_string RiskCheckResult.allowed = "ALLOWED"

-- `static_cast<int32_t>` of a `uint32_t`.
unfoldable pub to_int32 : Qty → ℤ
to_int32 q =
    if ltb (q % 2 ^ 32) (2 ^ 31) then pos (q % 2 ^ 32) else negsuc (2 ^ 32 - 1 - q % 2 ^ 32)

module _ (Double : Type 0) (less : Double → Double → Bool) where
  pub record RiskCfg : Type 0 where
    pub max_order_size : Qty
    pub max_position : Qty
    pub max_loss : Double

  -- The limits with the position and the profit that the check reads.
  pub record RiskInfo : Type 0 where
    pub position : ℤ
    pub total_pnl : Double
    pub risk_cfg : RiskCfg

  unfoldable pub check_pre_trade_risk : Side → Qty → RiskInfo → RiskCheckResult
  unfolding to_int32
  check_pre_trade_risk side qty r =
      if ltb r.risk_cfg.max_order_size qty
      then RiskCheckResult.order_too_large
      else if ltb_ℤ (to_int32 r.risk_cfg.max_position)
          (abs (r.position +ℤ side_to_value side *ℤ to_int32 qty))
      then RiskCheckResult.position_too_large
      else if less r.total_pnl r.risk_cfg.max_loss
      then RiskCheckResult.loss_too_large
      else RiskCheckResult.allowed
