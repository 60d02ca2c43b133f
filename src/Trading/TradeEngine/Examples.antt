-- ===== src/Trading/TradeEngine/Examples.antt =====
-- A market maker's round: a bid and an ask arrive, both of its orders go out.
use zquant_system.Prelude.{ℕ, ◌≡◌, refl, Bool, true, false, none, List, [], ◌∷◌, arith}
use zquant_system.Prelude.Int.{ℤ, pos, negsuc}
use zquant_system.Common.Types.{
  TickerId, OrderId, Side, AlgoType, order_id_invalid, ticker_id_invalid, price_invalid,
  qty_invalid,
}
use zquant_system.Common.Fault.{Result, ok, err, Outcome, AnyFault}
use zquant_system.Messages.{
  MeMarketUpdate, MarketUpdateType, MeClientResponse, ClientResponseType, MeClientRequest,
  ClientRequestType,
}
use zquant_system.Book.{Order, OrdersAtPrice}
use zquant_system.Trading.MarketOrderBook.{MarketOrderBook, default_bbo}
use zquant_system.Trading.OrderManager.{OmOrderState}
use zquant_system.Trading.RiskManager.{RiskCfg}
use zquant_system.Trading.Strategy.{TradeEngineCfg}
use zquant_system.Trading.PositionKeeper.{PositionInfo}
use zquant_system.Trading.TradeEngine.{TradeEngine, run_round}
use zquant_system.Trading.TradeEngine.Sound.{Engine, Steps, run_round-Steps}
use zquant_system.Trading.Doubles.Whole.{whole}

abbrev cfg : TickerId → TradeEngineCfg whole
cfg t = record { clip = 5; threshold = pos 2 }

abbrev risk_cfg : TickerId → RiskCfg ℤ (whole.less)
risk_cfg t = record { max_order_size = 10; max_position = 100; max_loss = negsuc 999999 }

abbrev book : TickerId → MarketOrderBook
book t = record {
  ticker_id = t;
  book = record {
    orders_at_price_pool = record {
      store = λ i. record {
        object = record {
          side = Side.invalid;
          price = pos 0;
          first_order = none;
          prev_entry = none;
          next_entry = none;
        };
        is_free = true;
      };
      size = 8;
      next_free_index = 0;
    };
    order_pool = record {
      store = λ i. record {
        object = record {
          key = 0;
          side = Side.invalid;
          price = pos 0;
          qty = 0;
          priority = 0;
          prev_order = none;
          next_order = none;
        };
        is_free = true;
      };
      size = 8;
      next_free_index = 0;
    };
    bids_by_price = none;
    asks_by_price = none;
    price_orders_at_price = λ i. none;
    order_index = λ i. none;
  };
  bbo = default_bbo;
}

abbrev engine : Engine whole 8 AlgoType.maker cfg risk_cfg
engine = record {
  ticker_order_book = book;
  feature_engine = record { mkt_price = pos 0; agg_trade_qty_ratio = pos 0 };
  ticker_position = λ t. record {
    position = pos 0;
    real_pnl = pos 0;
    unreal_pnl = pos 0;
    total_pnl = pos 0;
    open_vwap = λ i. pos 0;
    volume = 0;
  };
  order_manager = record {
    client_id = 7;
    ticker_side_order = λ t i. record {
      ticker_id = ticker_id_invalid;
      order_id = order_id_invalid;
      side = Side.invalid;
      price = price_invalid;
      qty = qty_invalid;
      order_state = OmOrderState.invalid;
    };
    next_order_id = 1;
    client_requests = [];
  };
}

abbrev added : Side → ℕ → ℕ → MeMarketUpdate
added side order_id price = record {
  type = MarketUpdateType.add;
  order_id = order_id;
  ticker_id = 1;
  side = side;
  price = pos price;
  qty = 30;
  priority = 1;
}

abbrev fill : MeClientResponse
fill = record {
  type = ClientResponseType.filled;
  client_id = 7;
  ticker_id = 1;
  client_order_id = 1;
  market_order_id = 3;
  side = Side.buy;
  price = pos 98;
  exec_qty = 5;
  leaves_qty = 0;
}

abbrev updates : List MeMarketUpdate
updates =
    added Side.buy 2 99 ∷ added Side.buy 4 99 ∷ added Side.sell 3 101 ∷ added Side.sell 5 101 ∷ []

run_round-Steps_example :
    Outcome AnyFault
      (λ _ t. Steps whole 8 AlgoType.maker cfg risk_cfg engine t)
      (run_round whole 8 AlgoType.maker cfg risk_cfg (fill ∷ []) updates engine)
run_round-Steps_example =
    run_round-Steps whole 8 AlgoType.maker cfg risk_cfg (fill ∷ []) updates engine

abbrev requests_of :
    Result (Unit {0} × Engine whole 8 AlgoType.maker cfg risk_cfg) → List MeClientRequest
requests_of (ok (a, s)) = s.order_manager.client_requests
requests_of (err e) = []

-- The round meets no fault and sends a bid and an ask.
abbrev sent : List MeClientRequest
sent = requests_of (run_round whole 8 AlgoType.maker cfg risk_cfg (fill ∷ []) updates engine)

abbrev quote : Side → OrderId → ℤ → MeClientRequest
quote side order_id price = record {
  type = ClientRequestType.new;
  client_id = 7;
  ticker_id = 1;
  order_id = order_id;
  side = side;
  price = price;
  qty = 5;
}

sent_test : sent ≡ quote Side.buy 1 (pos 99) ∷ quote Side.sell 2 (pos 102) ∷ []
unfolding run_round zquant_system.Trading.TradeEngine.process_responses
    zquant_system.Trading.TradeEngine.on_order_update
    zquant_system.Trading.TradeEngine.update_position
    zquant_system.Trading.TradeEngine.algo_on_order_update
    zquant_system.Trading.TradeEngine.process_market_updates
    zquant_system.Trading.TradeEngine.process_market_update zquant_system.Trading.TradeEngine.tell
    zquant_system.Trading.TradeEngine.on_book_update
    zquant_system.Trading.TradeEngine.algo_on_order_book_update
    zquant_system.Trading.TradeEngine.algo_on_trade_update
    zquant_system.Trading.TradeEngine.on_trade zquant_system.Trading.TradeEngine.check
    zquant_system.Trading.OrderManager.on_order_update
    zquant_system.Trading.OrderManager.cancel_order zquant_system.Trading.OrderManager.move_by_state
    zquant_system.Trading.OrderManager.move_order zquant_system.Trading.OrderManager.move_orders
    zquant_system.Trading.OrderManager.new_order zquant_system.Trading.OrderManager.replace_order
    zquant_system.Trading.OrderManager.update_by_type
    zquant_system.Trading.MarketOrderBook.on_market_update
    zquant_system.Trading.MarketOrderBook.index_write
    zquant_system.Trading.MarketOrderBook.add_update
    zquant_system.Trading.MarketOrderBook.apply_update
    zquant_system.Trading.MarketOrderBook.best_quote
    zquant_system.Trading.MarketOrderBook.cancel_update zquant_system.Trading.MarketOrderBook.clear
    zquant_system.Trading.MarketOrderBook.find_order
    zquant_system.Trading.MarketOrderBook.free_levels
    zquant_system.Trading.MarketOrderBook.free_orders
    zquant_system.Trading.MarketOrderBook.free_ring
    zquant_system.Trading.MarketOrderBook.modify_update
    zquant_system.Trading.MarketOrderBook.sum_qty zquant_system.Trading.MarketOrderBook.update_ask
    zquant_system.Trading.MarketOrderBook.update_bbo
    zquant_system.Trading.MarketOrderBook.update_bid zquant_system.Trading.PositionKeeper.add_fill
    zquant_system.Trading.PositionKeeper.book_fill zquant_system.Trading.PositionKeeper.count_fill
    zquant_system.Trading.PositionKeeper.mark_fill zquant_system.Trading.PositionKeeper.unrealized
    zquant_system.Trading.PositionKeeper.update_bbo zquant_system.Trading.PositionKeeper.wrap_int32
    zquant_system.Trading.RiskManager.check_pre_trade_risk
    zquant_system.Trading.RiskManager.to_int32 zquant_system.Trading.Strategy.maker_ask
    zquant_system.Trading.Strategy.maker_bid
    zquant_system.Trading.Strategy.maker_on_order_book_update
    zquant_system.Trading.Strategy.taker_on_trade_update
    zquant_system.Trading.Strategy.update_agg_trade_qty_ratio
    zquant_system.Trading.Strategy.update_mkt_price zquant_system.Book.Orders.add_order
    zquant_system.Book.Orders.add_first_order zquant_system.Book.Orders.append_order
    zquant_system.Book.Orders.set_index zquant_system.Book.Orders.remove_order
    zquant_system.Book.Orders.unlink_order zquant_system.Book.Levels.add_orders_at_price
    zquant_system.Book.Levels.find_target zquant_system.Book.Levels.link_after
    zquant_system.Book.Levels.link_at zquant_system.Book.Levels.link_before
    zquant_system.Book.Levels.remove_orders_at_price zquant_system.Book.Levels.splice_before
    zquant_system.Book.Levels.take_over zquant_system.Book.Levels.unlink_level
    zquant_system.Book.Levels.walk zquant_system.Common.MemPool.allocate
    zquant_system.Common.MemPool.find_free zquant_system.Common.MemPool.deallocate
    zquant_system.Common.MemPool.next_index zquant_system.Common.MemPool.update_next_free_index
    zquant_system.Book.price_to_index zquant_system.Common.Types.side_to_index
    zquant_system.Common.Types.side_to_value zquant_system.Prelude.Int.◌*ℤ◌
    zquant_system.Prelude.Int.◌+ℤ◌ zquant_system.Prelude.Int.◌-ℤ◌ zquant_system.Prelude.Int.abs
sent_test = refl
