-- ===== src/Trading/Strategy/Examples.antt =====
-- A concrete quote of the market maker, with integers for the doubles.
use zquant_system.Prelude.{◌≡◌, refl, [], arith}
use zquant_system.Prelude.Int.{pos, ◌≤ℤ◌}
use zquant_system.Common.Types.{TickerId, Price, Qty, Side}
use zquant_system.Trading.Doubles.Whole.{whole}
use zquant_system.Trading.MarketOrderBook.{Bbo}
use zquant_system.Trading.RiskManager.{RiskCheckResult}
use zquant_system.Trading.OrderManager.{OmOrderState, OrderManager, move_orders}
use zquant_system.Trading.Strategy.{FeatureEngine, TradeEngineCfg, maker_on_order_book_update}
use zquant_system.Trading.Strategy.Quotes.{maker-outside}

abbrev check : TickerId → Side → Qty → RiskCheckResult
check t side qty = RiskCheckResult.allowed

abbrev best : Bbo
best = record { bid_price = pos 99; ask_price = pos 101; bid_qty = 10; ask_qty = 20 }

abbrev features : FeatureEngine whole
features = record { mkt_price = pos 100; agg_trade_qty_ratio = pos 0 }

abbrev cfg : TickerId → TradeEngineCfg whole
cfg t = record { clip = 5; threshold = pos 2 }

abbrev manager : OrderManager
manager = record {
  client_id = 7;
  ticker_side_order = λ t i. record {
    ticker_id = 1;
    order_id = 0;
    side = Side.invalid;
    price = pos 0;
    qty = 0;
    order_state = OmOrderState.invalid;
  };
  next_order_id = 1;
  client_requests = [];
}

maker-outside_example :
    (bid ask : Price) × (bid ≤ℤ pos 99)
    × (pos 101 ≤ℤ ask)
    × (maker_on_order_book_update whole check 1 best features cfg manager
        ≡ move_orders check 1 bid ask 5 manager)
maker-outside_example = maker-outside whole check 1 best features cfg manager refl (omega arith)
