-- ===== src/Trading/Strategy/Quotes.antt =====
-- Where the market maker quotes.
use zquant_system.Prelude.{◌<◌, ◌≡◌, refl, true, lt→ltb, arith}
use zquant_system.Prelude.Int.{pos, negsuc, ◌≤ℤ◌, ◌+ℤ◌, ◌-ℤ◌}
use zquant_system.Common.Types.{TickerId, Price, Qty, Side, me_max_tickers}
use zquant_system.Trading.Doubles.{Doubles}
use zquant_system.Trading.MarketOrderBook.{Bbo}
use zquant_system.Trading.RiskManager.{RiskCheckResult}
use zquant_system.Trading.OrderManager.{OrderManager, move_orders}
use zquant_system.Trading.Strategy.{
  FeatureEngine, TradeEngineCfg, is_two_sided, maker_bid, maker_ask, maker_on_order_book_update,
}

module _ {Double : Type 0} (ops : Doubles Double) where
  maker_bid-le : (fair threshold : Double) (bid : Price) → maker_bid ops fair threshold bid ≤ℤ bid
  unfolding maker_bid ◌-ℤ◌
  maker_bid-le fair threshold (pos n) = ground arith
  maker_bid-le fair threshold (negsuc n) = ground arith

  maker_ask-ge : (fair threshold : Double) (ask : Price) → ask ≤ℤ maker_ask ops fair threshold ask
  unfolding maker_ask ◌+ℤ◌
  maker_ask-ge fair threshold (pos n) = ground arith
  maker_ask-ge fair threshold (negsuc n) = ground arith

  -- On a two-sided book of a ticker in range, the market maker moves its orders to a bid that is not
  -- above the best bid and an ask that is not below the best ask.
  pub maker-outside :
      (check : TickerId → Side → Qty → RiskCheckResult) (t : TickerId) (bbo : Bbo)
      (f : FeatureEngine ops) (cfg : TickerId → TradeEngineCfg ops) (m : OrderManager)
      → is_two_sided bbo ≡ true
      → t < me_max_tickers
      → (bid ask : Price) × (bid ≤ℤ bbo.bid_price)
        × (bbo.ask_price ≤ℤ ask)
        × (maker_on_order_book_update ops check t bbo f cfg m
            ≡ move_orders check t bid ask (cfg t).clip m)
  unfolding maker_on_order_book_update
  maker-outside check t bbo f cfg m two h = (
    maker_bid ops f.mkt_price (cfg t).threshold bbo.bid_price,
    maker_ask ops f.mkt_price (cfg t).threshold bbo.ask_price,
    maker_bid-le f.mkt_price (cfg t).threshold bbo.bid_price,
    maker_ask-ge f.mkt_price (cfg t).threshold bbo.ask_price,
    rw (two, lt→ltb t me_max_tickers h) refl,
  )
