-- ===== src/Trading/OrderManager/Examples.antt =====
-- A concrete move of both orders.
use zquant_system.Prelude.{◌≡◌, [], arith}
use zquant_system.Prelude.Int.{pos}
use zquant_system.Common.Types.{
  TickerId, Qty, Side, side_to_index, order_id_invalid, ticker_id_invalid, price_invalid,
  qty_invalid,
}
use zquant_system.Common.Fault.{ok}
use zquant_system.Trading.RiskManager.{RiskCheckResult}
use zquant_system.Trading.OrderManager.{OmOrderState, OrderManager, move_orders}
use zquant_system.Trading.OrderManager.Checked.{Moved, move_orders-Moved}

abbrev check : TickerId → Side → Qty → RiskCheckResult
check t side qty = RiskCheckResult.allowed

abbrev manager : OrderManager
manager = record {
  client_id = 7;
  ticker_side_order = λ t i. record {
    ticker_id = ticker_id_invalid;
    order_id = order_id_invalid;
    side = Side.invalid;
    price = price_invalid;
    qty = qty_invalid;
    order_state = OmOrderState.invalid;
  };
  next_order_id = 1;
  client_requests = [];
}

move_orders-Moved_example :
    (mid d : OrderManager) × (move_orders check 1 (pos 100) (pos 101) 10 manager ≡ ok (tt, d))
    × Moved check manager 1 (side_to_index Side.buy) (pos 100) Side.buy 10 mid
    × Moved check mid 1 (side_to_index Side.sell) (pos 101) Side.sell 10 d
move_orders-Moved_example = move_orders-Moved check 1 (pos 100) (pos 101) 10 manager (omega arith)
