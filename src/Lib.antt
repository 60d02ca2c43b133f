-- ===== src/Lib.antt =====
-- A model of zquant-system, a low-latency exchange and its market participants, in C++.
--
-- At the exchange, the order server takes numbered requests from the clients' connections and hands
-- them by time of receipt to the matching engine. The engine passes each request to the order book of
-- its ticker, which answers with responses and market updates. The responses go back, numbered,
-- through the order server; the updates are numbered by the market data publisher, which sends them
-- and passes them on to the snapshot synthesizer. At a participant, the market data consumer puts the
-- two streams together for the trade engine, whose order books follow the exchange's; the order
-- manager places orders past the risk manager, through the order gateway.
--
-- The files and the code they model, by path from the repository's root:
--
--   Common/Fault: ASSERT and FATAL of common/macros.h, and the ways in which an operation can stop.
--   Common/Types: common/types.h. Messages: the structs and enumerations of
--     exchange/order_server/client_request.h, client_response.h, exchange/market_data/market_update.h.
--   Common/MemPool: common/mem_pool.h; allocate and deallocate by their names, find_free for the loop
--     of updateNextFreeIndex().
--   Common/OptMemPool: common/opt_mem_pool.h, the same pool with its assertions left out by NDEBUG.
--   Common/LfQueue: common/lf_queue.h; push is getNextToWriteTo() up to the write of the element.
--   Book, Book/Levels, Book/Orders: the ring operations that exchange/matcher/me_order_book.h and
--     trading/strategy/market_order_book.h both have, over the key of an order and the map from keys.
--   Book/Ring, Book/Queue, Book/Ladder and Book/View: what such a book stands for, that is, on each
--     side a list of levels by price and at each level a list of orders by time, and what the ring
--     operations do to these lists.
--   Exchange/OrderBook: exchange/matcher/me_order.h, me_order_book.h, me_order_book.cpp; add, cancel,
--     check_for_match and match_order for add(), cancel(), checkForMatch() and match(). Its module
--     Sweep holds the sweep of a list of orders that matching comes to.
--   Exchange/MatchingEngine: exchange/matcher/matching_engine.h. Exchange/FifoSequencer and
--     Exchange/OrderServer: exchange/order_server/fifo_sequencer.h and order_server.h.
--   Exchange/MarketData/Publisher and Snapshot: exchange/market_data/market_data_publisher.cpp and
--     snapshot_synthesizer.cpp.
--   Trading/MarketDataConsumer: trading/market_data/market_data_consumer.cpp. Trading/OrderGateway:
--     trading/order_gw/order_gateway.cpp. Trading/MarketOrderBook, Trading/OrderManager and
--     Trading/RiskManager: the files of trading/strategy with these names.
--   Trading/PositionKeeper: trading/strategy/position_keeper.h. Trading/Strategy: feature_engine.h,
--     market_maker.h and liquidity_taker.h there. Trading/TradeEngine: trade_engine.cpp there, a round
--     of run() with the books, features, positions and orders that its callbacks change.
--   Prelude: shared names, tests, lists, integers and tables. The modules below a component, named for
--     what they show, hold its theorems, and each Examples module runs of them on concrete data.
--
-- A stateful operation is a command: from a state to a fault or a result with the next state. A
-- pointer into a memory pool is the index of its block; following null, `.at()` out of range, an array
-- indexed out of range, ASSERT and FATAL are faults. Unsigned integers carry their wrap-around
-- written out, sequence numbers and ids at 2 ^ 64, quantities at 2 ^ 32; prices are integers without a
-- bound. A queue between two threads is the list of what has been written to it, except in
-- Common/LfQueue, where the ring itself is modelled, in sequential calls.
--
-- The loops over rings and pools run on fuel: the scan for a free block on the number of blocks, since
-- it stops when it is round (without assertions, in Common/OptMemPool, it may go on for ever, and then
-- runs out of any fuel); the walk over levels, matching and the sum of a level's quantities on one more
-- than the number of blocks of the pool that the ring lies in. Running out is a fault of its own, which
-- a theorem that speaks of faults names or excludes.
--
-- Parameters stand for what the repository does not define or for the length of an array:
-- `std::sort` in the sequencer, `double` with its arithmetic (Trading/Doubles) in the risk manager, the
-- position keeper and the strategies, the results of the snapshot socket's calls in the consumer, the risk check in the order manager, and the numbers of
-- tickers and order ids of the synthesizer and of the participant's book.
--
-- Not modelled: sockets, logging, threads and memory orders, clocks, text output by toString(), the
-- bytes of messages received in part, and the main programs and the benchmarks, with the variant of
-- the order book that only these use.
pub mod Prelude
pub mod Common
pub mod Messages
pub mod Book
pub mod Exchange
pub mod Trading
