-- ===== src/Exchange/MatchingEngine/Examples.antt =====
-- Concrete requests to the engine.
use zquant_system.Prelude.{ℕ, ◌≡◌, true, none, [], ◌∷◌, arith}
use zquant_system.Prelude.Int.{pos}
use zquant_system.Common.Types.{Side}
use zquant_system.Common.Fault.{Outcome, AnyFault}
use zquant_system.Messages.{MeClientRequest, ClientRequestType}
use zquant_system.Book.{OrdersAtPrice}
use zquant_system.Exchange.OrderBook.{MeOrder, MeOrderBook}
use zquant_system.Exchange.MatchingEngine.{MatchingEngine, run_engine}
use zquant_system.Exchange.MatchingEngine.Books.{AllIndexed, run_engine-Served}

abbrev no_order : MeOrder
no_order = record {
  key = record { ticker_id = 0; client_id = 0; client_order_id = 0; market_order_id = 0 };
  side = Side.invalid;
  price = pos 0;
  qty = 0;
  priority = 0;
  prev_order = none;
  next_order = none;
}

abbrev no_level : OrdersAtPrice
no_level = record {
  side = Side.invalid;
  price = pos 0;
  first_order = none;
  prev_entry = none;
  next_entry = none;
}

abbrev empty_book : ℕ → MeOrderBook
empty_book ticker_id = record {
  ticker_id = ticker_id;
  book = record {
    orders_at_price_pool = record {
      store = λ i. record { object = no_level; is_free = true };
      size = 4;
      next_free_index = 0;
    };
    order_pool = record {
      store = λ i. record { object = no_order; is_free = true };
      size = 4;
      next_free_index = 0;
    };
    bids_by_price = none;
    asks_by_price = none;
    price_orders_at_price = λ i. none;
    order_index = λ c o. none;
  };
  next_market_order_id = 1;
  client_responses = [];
  market_updates = [];
}

abbrev engine : MatchingEngine
engine = record { ticker_order_book = empty_book; client_responses = []; market_updates = [] }

engine-AllIndexed : AllIndexed engine
engine-AllIndexed t c o p e = ground arith

abbrev new_order : MeClientRequest
new_order = record {
  type = ClientRequestType.new;
  client_id = 7;
  ticker_id = 1;
  order_id = 4;
  side = Side.buy;
  price = pos 100;
  qty = 30;
}

abbrev cancel_order : MeClientRequest
cancel_order = record new_order { type = ClientRequestType.cancel }

run_engine-Served_example :
    Outcome AnyFault
      (λ _ d. AllIndexed d × (d.ticker_order_book 2 ≡ empty_book 2))
      (run_engine (new_order ∷ cancel_order ∷ []) engine)
run_engine-Served_example =
    run_engine-Served (new_order ∷ cancel_order ∷ []) engine 2 engine-AllIndexed
      ((λ e. ground (arith, e)), ((λ e. ground (arith, e)), tt))
