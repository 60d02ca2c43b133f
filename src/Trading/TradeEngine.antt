-- ===== src/Trading/TradeEngine.antt =====
-- trading/strategy/trade_engine.h and trade_engine.cpp: the participant's books, features, positions
-- and orders, and what passes between them. The queues of responses and market updates are the lists
-- of what they hold when a round of run() reads them.
pub mod Sound
mod Sent
mod Examples
use zquant_system.Prelude.{ℕ, Bool, true, false, List, [], ◌∷◌, ltb, update, if◌then◌else◌}
use zquant_system.Common.Types.{TickerId, OrderId, Price, Qty, Side, AlgoType, me_max_tickers}
use zquant_system.Common.Fault.{
  Result, ok, err, Cmd, pure, ◌>>=◌, ◌>>◌, assert, in_range, get, modify,
}
use zquant_system.Messages.{MeMarketUpdate, MeClientResponse, ClientResponseType}
use zquant_system.Trading.Doubles.{Doubles}
use zquant_system.Trading.MarketOrderBook.{
  Bbo, MarketOrderBook, Notice, on_trade_update, on_order_book_update, on_market_update,
}
use zquant_system.Trading.PositionKeeper.{PositionInfo}
use zquant_system.Trading.PositionKeeper
use zquant_system.Trading.RiskManager.{RiskCfg, RiskInfo, RiskCheckResult, check_pre_trade_risk}
use zquant_system.Trading.OrderManager.{OrderManager}
use zquant_system.Trading.OrderManager
use zquant_system.Trading.Strategy.{
  FeatureEngine, TradeEngineCfg, update_mkt_price, update_agg_trade_qty_ratio,
  maker_on_order_book_update, taker_on_trade_update,
}

abbrev pub is_filled : ClientResponseType → Bool
is_filled ClientResponseType.filled = true
is_filled _ = false

-- `order_ids` is the length of a book's array of orders; `cfg` and `risk_cfg` are the configuration.
module _ {Double : Type 0} (ops : Doubles Double) (order_ids : ℕ) (algo : AlgoType)
    (cfg : TickerId → TradeEngineCfg ops) (risk_cfg : TickerId → RiskCfg Double ops.less) where
  pub record TradeEngine : Type 0 where
    pub ticker_order_book : TickerId → MarketOrderBook
    pub feature_engine : FeatureEngine ops
    pub ticker_position : TickerId → PositionInfo ops
    pub order_manager : OrderManager

  -- RiskManager::checkPreTradeRisk(), whose entries lead to the position keeper's.
  unfoldable pub check : TradeEngine → TickerId → Side → Qty → RiskCheckResult
  check s ticker_id side qty =
      let p = s.ticker_position ticker_id in
      check_pre_trade_risk Double ops.less side qty
        (record { position = p.position; total_pnl = p.total_pnl; risk_cfg = risk_cfg ticker_id })

  abbrev pub on_orders : (TradeEngine → Cmd OrderManager (Unit {0})) → Cmd TradeEngine (Unit {0})
  on_orders c s = elim (c s s.order_manager) [
    | ok (a, m) ↦ ok (a, record s { order_manager = m })
    | err e ↦ err e
  ]

  -- The three callbacks of the algorithm; a default one only logs.
  unfoldable pub algo_on_order_book_update : AlgoType → TickerId → Bbo → Cmd TradeEngine (Unit {0})
  algo_on_order_book_update AlgoType.maker ticker_id bbo =
      on_orders (λ s. maker_on_order_book_update ops (check s) ticker_id bbo s.feature_engine cfg)
  algo_on_order_book_update _ ticker_id bbo = pure tt

  unfoldable pub algo_on_trade_update : AlgoType → MeMarketUpdate → Bbo → Cmd TradeEngine (Unit {0})
  algo_on_trade_update AlgoType.taker u bbo =
      on_orders (λ s. taker_on_trade_update ops (check s) u bbo s.feature_engine cfg)
  algo_on_trade_update _ u bbo = pure tt

  unfoldable pub algo_on_order_update : AlgoType → MeClientResponse → Cmd TradeEngine (Unit {0})
  algo_on_order_update AlgoType.maker r = on_orders (λ s. OrderManager.on_order_update r)
  algo_on_order_update AlgoType.taker r = on_orders (λ s. OrderManager.on_order_update r)
  algo_on_order_update _ r = pure tt

  -- PositionKeeper::updateBBO() and addFill().
  unfoldable pub update_position :
      TickerId → (PositionInfo ops → PositionInfo ops) → Cmd TradeEngine (Unit {0})
  update_position ticker_id f = do
    in_range (ltb ticker_id me_max_tickers)
    modify (λ s. record s {
      ticker_position = update s.ticker_position ticker_id (f (s.ticker_position ticker_id));
    })

  unfoldable pub on_book_update : TickerId → Bbo → Cmd TradeEngine (Unit {0})
  on_book_update ticker_id bbo = do
    update_position ticker_id (PositionKeeper.update_bbo ops bbo.bid_price bbo.ask_price)
    modify (λ s. record s { feature_engine = update_mkt_price ops bbo s.feature_engine })
    algo_on_order_book_update algo ticker_id bbo

  unfoldable pub on_trade : MeMarketUpdate → Bbo → Cmd TradeEngine (Unit {0})
  on_trade u bbo = do
    modify
        (λ s. record s { feature_engine = update_agg_trade_qty_ratio ops u bbo s.feature_engine })
    algo_on_trade_update algo u bbo

  unfoldable pub on_order_update : MeClientResponse → Cmd TradeEngine (Unit {0})
  on_order_update r = do
    (if is_filled r.type
        then update_position r.ticker_id (PositionKeeper.add_fill ops r.side r.price r.exec_qty)
        else pure tt)
    algo_on_order_update algo r

  -- What a book tells the engine at the end of onMarketUpdate().
  unfoldable pub tell : MarketOrderBook → Notice → Cmd TradeEngine (Unit {0})
  tell book (on_trade_update u) = on_trade u book.bbo
  tell book (on_order_book_update ticker_id price side) = on_book_update ticker_id book.bbo

  abbrev pub tell_of : TickerId → Result (Notice × MarketOrderBook) → Cmd TradeEngine (Unit {0})
  tell_of ticker_id (err e) s = err e
  tell_of ticker_id (ok (n, book)) s =
      tell book n (record s { ticker_order_book = update s.ticker_order_book ticker_id book })

  unfoldable pub process_market_update : MeMarketUpdate → Cmd TradeEngine (Unit {0})
  process_market_update u = do
    assert (ltb u.ticker_id me_max_tickers)
    s ← get
    tell_of u.ticker_id (on_market_update order_ids u (s.ticker_order_book u.ticker_id))

  -- One round of the loop of run(): all responses, then all market updates.
  unfoldable pub process_responses : List MeClientResponse → Cmd TradeEngine (Unit {0})
  process_responses [] = pure tt
  process_responses (r ∷ rs) = do on_order_update r; process_responses rs

  unfoldable pub process_market_updates : List MeMarketUpdate → Cmd TradeEngine (Unit {0})
  process_market_updates [] = pure tt
  process_market_updates (u ∷ us) = do process_market_update u; process_market_updates us

  unfoldable pub run_round :
      List MeClientResponse → List MeMarketUpdate → Cmd TradeEngine (Unit {0})
  run_round rs us = do process_responses rs; process_market_updates us
