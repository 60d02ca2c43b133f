-- ===== src/Exchange/MatchingEngine.antt =====
-- exchange/matcher/matching_engine.h: the books of all tickers behind one queue of requests. What the
-- engine writes to its two outgoing queues is the list of what has been written.
pub mod Books
mod Examples
use zquant_system.Prelude.{ℕ, List, [], ◌∷◌, update, ltb}
use zquant_system.Common.Types.{TickerId, me_max_tickers}
use zquant_system.Common.Fault.{Result, ok, err, Cmd, pure, fail, fatal, ◌>>=◌, ◌>>◌, in_range}
use zquant_system.Messages.{MeClientRequest, ClientRequestType, MeClientResponse, MeMarketUpdate}
use zquant_system.Exchange.OrderBook.{MeOrderBook, add, cancel}

pub record MatchingEngine : Type 0 where
  pub ticker_order_book : TickerId → MeOrderBook
  pub client_responses : List MeClientResponse
  pub market_updates : List MeMarketUpdate

-- The book of a ticker writes to the engine's queues.
abbrev pub lent : TickerId → MatchingEngine → MeOrderBook
lent ticker_id e = record (e.ticker_order_book ticker_id) {
  client_responses = e.client_responses;
  market_updates = e.market_updates;
}

abbrev pub returned_book : TickerId → MatchingEngine → MeOrderBook → MatchingEngine
returned_book ticker_id e b = record {
  ticker_order_book = update e.ticker_order_book ticker_id b;
  client_responses = b.client_responses;
  market_updates = b.market_updates;
}

-- `order_book->…` of one ticker.
abbrev pub on_order_book : TickerId → Cmd MeOrderBook (Unit {0}) → Cmd MatchingEngine (Unit {0})
on_order_book ticker_id c e = elim (c (lent ticker_id e)) [
  | ok (a, b) ↦ ok (a, returned_book ticker_id e b)
  | err f ↦ err f
]

unfoldable pub dispatch : MeClientRequest → ClientRequestType → Cmd MatchingEngine (Unit {0})
dispatch r ClientRequestType.new =
    on_order_book r.ticker_id (add r.client_id r.order_id r.ticker_id r.side r.price r.qty)
dispatch r ClientRequestType.cancel =
    on_order_book r.ticker_id (cancel r.client_id r.order_id r.ticker_id)
dispatch r ClientRequestType.invalid = fail fatal

-- The array of books is indexed without a test.
unfoldable pub process_client_request : MeClientRequest → Cmd MatchingEngine (Unit {0})
unfolding dispatch
process_client_request r = do in_range (ltb r.ticker_id me_max_tickers); dispatch r r.type

-- The loop of run() over what the queue holds.
unfoldable pub run_engine : List MeClientRequest → Cmd MatchingEngine (Unit {0})
unfolding process_client_request
run_engine [] = pure tt
run_engine (r ∷ rs) = process_client_request r >> run_engine rs
