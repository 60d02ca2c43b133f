-- ===== src/Exchange/OrderBook.antt =====
-- exchange/matcher/me_order.h, me_order_book.h and me_order_book.cpp: the order book of one ticker
-- at the exchange, with price-time matching. What it hands to the matching engine's
-- sendClientResponse() and sendMarketUpdate() is appended to two lists, in order.
mod State
pub mod Frame
pub mod MatchOrder
pub mod Matching
pub mod Index
pub mod IndexKept
pub mod Cancel
pub mod PriceTime
pub mod Sweep
mod Examples
unfoldable pub use State.*
use zquant_system.Prelude.{
  ℕ, zero, suc, ◌+◌, ◌-◌, ◌%◌, ◌^◌, min, Bool, ◌&&◌, Option, none, some, List, [], ◌∷◌, ◌++◌, ◌==◌,
  ltb, update₂, if◌then◌else◌,
}
use zquant_system.Prelude.Int.{ltb_ℤ}
use zquant_system.Common.Types.{
  OrderId, TickerId, ClientId, Price, price_invalid, Qty, qty_invalid, Priority, priority_invalid,
  order_id_invalid, Side, is_buy, is_sell, me_max_num_clients, me_max_order_ids,
}
use zquant_system.Common.Fault.{
  ok, err, Cmd, pure, fail, ◌>>=◌, ◌>>◌, deref, in_range, get, modify, out_of_fuel,
}
use zquant_system.Common.MemPool.{allocate}
use zquant_system.Messages.{MeClientResponse, ClientResponseType, MeMarketUpdate, MarketUpdateType}
use zquant_system.Book.{Ptr, Order, Book, order_at, level_at, write_order, on_orders}
use zquant_system.Book.Levels.{get_next_priority}
use zquant_system.Book.Orders.{add_order, remove_order}

-- `itr` is the passive order; the result is `*leaves_qty` at the end.
unfoldable pub match_order :
    TickerId
    → ClientId
    → Side
    → OrderId
    → OrderId
    → (itr : ℕ) → (leaves_qty : Qty) → Cmd MeOrderBook Qty
match_order ticker_id client_id side client_order_id new_market_order_id itr leaves_qty = do
  s ← get
  let order = order_at itr s.book
  let fill_qty = min leaves_qty order.qty
  let leaves = leaves_qty - fill_qty
  let rest = order.qty - fill_qty
  modify (λ t. record t { book = write_order itr (λ o. record o { qty = rest }) t.book })
  send_client_response (
      aggressor_fill ticker_id client_id side client_order_id new_market_order_id order fill_qty
        leaves)
  send_client_response (passive_fill ticker_id order fill_qty rest)
  send_market_update (
      order_update MarketUpdateType.trade order_id_invalid ticker_id side order.price fill_qty
        priority_invalid)
  (if rest == 0
      then (do
        send_market_update (
            order_update MarketUpdateType.cancel order.key.market_order_id ticker_id order.side
              order.price order.qty priority_invalid)
        on_book (remove_order index_write itr))
      else send_market_update (
          order_update MarketUpdateType.modify order.key.market_order_id ticker_id order.side
            order.price rest order.priority))
  pure leaves

-- `while (leaves_qty && <best level>) { … }` of checkForMatch(): `queue` is the best level of the
-- other side, and `stops` is the test of its first order's price that breaks the loop.
unfoldable pub match_loop :
    (fuel : ℕ)
    → TickerId
    → ClientId
    → Side
    → OrderId
    → OrderId
    → (queue : Book MeOrderKey ClientOrderHashMap → Ptr) → (stops : Price → Bool)
    → (leaves_qty : Qty) → Cmd MeOrderBook Qty
match_loop zero ticker_id client_id side client_order_id market_order_id queue stops leaves_qty =
    fail out_of_fuel
match_loop (suc fuel) ticker_id client_id side client_order_id market_order_id queue stops
      leaves_qty =
    if leaves_qty == 0 then pure leaves_qty else do
      s ← get
      (elim (queue s.book) [
        | none ↦ pure leaves_qty
        | some level ↦ do
          itr ← deref (level_at level s.book).first_order
          (if stops (order_at itr s.book).price then pure leaves_qty else (do
            leaves ←
                match_order ticker_id client_id side client_order_id market_order_id itr leaves_qty
            match_loop fuel ticker_id client_id side client_order_id market_order_id queue stops
                leaves))
      ])

-- The source's last parameter is a `Qty`: the order id is converted to 32 bits.
unfoldable pub check_for_match :
    ClientId → OrderId → TickerId → Side → Price → Qty → OrderId → Cmd MeOrderBook Qty
check_for_match client_id client_order_id ticker_id side price qty new_market_order_id = do
  s ← get
  let fuel = suc (suc s.book.order_pool.size)
  let id = new_market_order_id % 2 ^ 32
  leaves_qty ←
      (if is_buy side
        then match_loop fuel ticker_id client_id side client_order_id id (λ b. b.asks_by_price)
            (λ p. ltb_ℤ price p) qty
        else pure qty)
  (if is_sell side
      then match_loop fuel ticker_id client_id side client_order_id id (λ b. b.bids_by_price)
          (λ p. ltb_ℤ p price) leaves_qty
      else pure leaves_qty)

-- What add() does with the quantity that found no match.
unfoldable pub rest_order :
    ClientId
    → OrderId
    → TickerId
    → Side
    → Price
    → OrderId
    → (leaves_qty : Qty) → Cmd MeOrderBook (Unit {0})
rest_order client_id client_order_id ticker_id side price new_market_order_id leaves_qty = do
  priority ← on_book (get_next_priority price)
  let order : MeOrder = record {
    key = record {
      ticker_id = ticker_id;
      client_id = client_id;
      client_order_id = client_order_id;
      market_order_id = new_market_order_id;
    };
    side = side;
    price = price;
    qty = leaves_qty;
    priority = priority;
    prev_order = none;
    next_order = none;
  }
  p ← on_book (on_orders (allocate order))
  on_book (add_order index_write p)
  send_market_update (
      order_update MarketUpdateType.add new_market_order_id ticker_id side price leaves_qty
        priority)

unfoldable pub add : ClientId → OrderId → TickerId → Side → Price → Qty → Cmd MeOrderBook (Unit {0})
add client_id client_order_id ticker_id side price qty = do
  new_market_order_id ← generate_new_market_order_id
  send_client_response
      (accepted_response client_id ticker_id client_order_id new_market_order_id side price qty)
  leaves_qty ←
      check_for_match client_id client_order_id ticker_id side price qty new_market_order_id
  (if leaves_qty == 0
      then pure tt
      else rest_order client_id client_order_id ticker_id side price new_market_order_id leaves_qty)

-- `exchange_order`, null where the client id is out of range or the order is unknown.
unfoldable pub find_order : ClientId → OrderId → Cmd MeOrderBook Ptr
find_order client_id order_id =
    if ltb client_id me_max_num_clients
    then (do
      s ← get
      in_range (ltb order_id me_max_order_ids)
      pure (s.book.order_index client_id order_id))
    else pure none

-- Both branches of cancel(), each with the response that ends it.
unfoldable pub cancel_order : ClientId → OrderId → TickerId → Ptr → Cmd MeOrderBook (Unit {0})
cancel_order client_id order_id ticker_id none =
    send_client_response (cancel_rejected_response client_id ticker_id order_id)
cancel_order client_id order_id ticker_id (some p) = do
  s ← get
  let order = order_at p s.book
  on_book (remove_order index_write p)
  send_market_update (
      order_update MarketUpdateType.cancel order.key.market_order_id ticker_id order.side
        order.price 0 order.priority)
  send_client_response (canceled_response client_id ticker_id order_id order)

unfoldable pub cancel : ClientId → OrderId → TickerId → Cmd MeOrderBook (Unit {0})
cancel client_id order_id ticker_id = do
  exchange_order ← find_order client_id order_id
  cancel_order client_id order_id ticker_id exchange_order
