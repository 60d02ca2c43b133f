-- ===== src/Trading/Strategy.antt =====
-- trading/strategy/feature_engine.h, market_maker.h and liquidity_taker.h: what the two strategies do
-- on a change of the book and on a trade. Feature_INVALID is NaN, from which `!=` tells every double,
-- so that the tests against it hold.
pub mod Quotes
mod Examples
use zquant_system.Prelude.{ℕ, ◌+◌, ◌%◌, ◌^◌, Bool, not, ◌&&◌, ltb, if◌then◌else◌}
use zquant_system.Prelude.Int.{pos, ◌+ℤ◌, ◌-ℤ◌, ◌*ℤ◌}
use zquant_system.Common.Types.{TickerId, Price, Qty, Side, is_buy, price_invalid, me_max_tickers}
use zquant_system.Common.Fault.{Cmd, pure, ◌>>=◌, ◌>>◌, in_range}
use zquant_system.Messages.{MeMarketUpdate}
use zquant_system.Trading.Doubles.{Doubles}
use zquant_system.Trading.PositionKeeper.{is_invalid}
use zquant_system.Trading.MarketOrderBook.{Bbo}
use zquant_system.Trading.RiskManager.{RiskCheckResult}
use zquant_system.Trading.OrderManager.{OrderManager, move_orders}

-- Both sides have a price.
abbrev pub is_two_sided : Bbo → Bool
is_two_sided bbo = not (is_invalid bbo.bid_price) && not (is_invalid bbo.ask_price)

module _ {Double : Type 0} (ops : Doubles Double) where
  pub record FeatureEngine : Type 0 where
    pub mkt_price : Double
    pub agg_trade_qty_ratio : Double

  unfoldable pub update_mkt_price : Bbo → FeatureEngine → FeatureEngine
  update_mkt_price bbo f =
      if is_two_sided bbo
      then record f {
        mkt_price =
            ops.div
              (ops.of_int (bbo.bid_price *ℤ pos bbo.ask_qty +ℤ bbo.ask_price *ℤ pos bbo.bid_qty))
              (ops.of_int (pos ((bbo.bid_qty + bbo.ask_qty) % 2 ^ 32)));
      }
      else f

  unfoldable pub update_agg_trade_qty_ratio : MeMarketUpdate → Bbo → FeatureEngine → FeatureEngine
  update_agg_trade_qty_ratio u bbo f =
      if is_two_sided bbo
      then record f {
        agg_trade_qty_ratio =
            ops.div (ops.of_int (pos u.qty))
              (ops.of_int (pos (if is_buy u.side then bbo.ask_qty else bbo.bid_qty)));
      }
      else f

  pub record TradeEngineCfg : Type 0 where
    pub clip : Qty
    pub threshold : Double

  unfoldable pub maker_bid : Double → Double → Price → Price
  maker_bid fair_price threshold bid =
      bid -ℤ (if ops.at_least (ops.sub fair_price (ops.of_int bid)) threshold then pos 0 else pos 1)

  unfoldable pub maker_ask : Double → Double → Price → Price
  maker_ask fair_price threshold ask =
      ask +ℤ (if ops.at_least (ops.sub (ops.of_int ask) fair_price) threshold then pos 0 else pos 1)

  module _ (check : TickerId → Side → Qty → RiskCheckResult) where
    -- MarketMaker::onOrderBookUpdate().
    unfoldable pub maker_on_order_book_update :
        TickerId → Bbo → FeatureEngine → (TickerId → TradeEngineCfg) → Cmd OrderManager (Unit {0})
    unfolding maker_bid maker_ask
    maker_on_order_book_update ticker_id bbo f cfg =
        if is_two_sided bbo
        then (do
          in_range (ltb ticker_id me_max_tickers)
          move_orders check ticker_id
              (maker_bid f.mkt_price (cfg ticker_id).threshold bbo.bid_price)
              (maker_ask f.mkt_price (cfg ticker_id).threshold bbo.ask_price) (cfg ticker_id).clip)
        else pure tt

    -- LiquidityTaker::onTradeUpdate().
    unfoldable pub taker_on_trade_update :
        MeMarketUpdate
        → Bbo
        → FeatureEngine
        → (TickerId → TradeEngineCfg)
        → Cmd OrderManager (Unit {0})
    taker_on_trade_update u bbo f cfg =
        if is_two_sided bbo
        then (do
          in_range (ltb u.ticker_id me_max_tickers)
          (if ops.at_least f.agg_trade_qty_ratio (cfg u.ticker_id).threshold
              then (if is_buy u.side
                  then move_orders check u.ticker_id bbo.ask_price price_invalid
                      (cfg u.ticker_id).clip
                  else move_orders check u.ticker_id price_invalid bbo.bid_price
                      (cfg u.ticker_id).clip)
              else pure tt))
        else pure tt
