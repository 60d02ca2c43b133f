-- ===== src/Trading/MarketOrderBook.antt =====
-- trading/strategy/market_order.h, market_order_book.h and market_order_book.cpp: the book that a
-- participant rebuilds from the market updates. What onMarketUpdate() hands to the trade engine is
-- its result. The number of entries of `oid_to_order_` is a parameter, ME_MAX_ORDER_IDS in the source.
pub mod Emptied
pub mod Freed
pub mod Clear
pub mod Kept
mod Examples
use zquant_system.Prelude.{
  ℕ, zero, suc, ◌+◌, ◌%◌, ◌^◌, Bool, true, false, not, ◌&&◌, Option, none, some, ltb, ◌==◌, update,
  is_some, if◌then◌else◌,
}
use zquant_system.Prelude.Int.{ltb_ℤ}
use zquant_system.Common.Types.{
  OrderId, TickerId, Price, price_invalid, Qty, qty_invalid, Side, is_buy, is_sell,
}
use zquant_system.Common.Fault.{
  Result, ok, err, Cmd, pure, ◌>>=◌, ◌>>◌, deref, in_range, get, modify, reading, null_pointer,
  out_of_fuel,
}
use zquant_system.Common.MemPool.{allocate, deallocate}
use zquant_system.Messages.{MeMarketUpdate, MarketUpdateType}
use zquant_system.Book.{
  Ptr, Order, OrdersAtPrice, Book, order_at, level_at, write_order, on_orders, on_levels,
}
use zquant_system.Book as Book
use zquant_system.Book.Levels as Levels
use zquant_system.Book.Orders as Orders

abbrev pub MarketOrder : Type 0
MarketOrder = Order OrderId

abbrev pub MarketOrdersAtPrice : Type 0
MarketOrdersAtPrice = OrdersAtPrice

abbrev pub OrderHashMap : Type 0
OrderHashMap = OrderId → Ptr

pub record Bbo : Type 0 where
  pub bid_price : Price
  pub ask_price : Price
  pub bid_qty : Qty
  pub ask_qty : Qty

abbrev pub default_bbo : Bbo
default_bbo = record {
  bid_price = price_invalid;
  ask_price = price_invalid;
  bid_qty = qty_invalid;
  ask_qty = qty_invalid;
}

pub record MarketOrderBook : Type 0 where
  pub ticker_id : TickerId
  pub book : Book OrderId OrderHashMap
  pub bbo : Bbo

abbrev pub on_book : {A : Type 0} → Cmd (Book OrderId OrderHashMap) A → Cmd MarketOrderBook A
on_book c s = elim (c s.book) [ ok (a, b) ↦ ok (a, record s { book = b }) | err e ↦ err e ]

-- `for (order = first->next_order_; order != first; order = order->next_order_) qty += order->qty_`.
unfoldable pub sum_qty : (fuel first : ℕ) → Ptr → Qty → Book OrderId OrderHashMap → Result Qty
sum_qty zero first p qty b = err out_of_fuel
sum_qty (suc fuel) first none qty b = err null_pointer
sum_qty (suc fuel) first (some p) qty b =
    let rest =
      sum_qty fuel first (order_at p b).next_order ((qty + (order_at p b).qty) % 2 ^ 32) b in
    if p == first then ok qty else rest

abbrev level_quote : ℕ → Ptr → Book OrderId OrderHashMap → Result (Price × Qty)
level_quote l none b = err null_pointer
level_quote l (some first) b =
    elim (sum_qty (suc b.order_pool.size) first (order_at first b).next_order (order_at first b).qty
      b) [ ok qty ↦ ok ((level_at l b).price, qty) | err e ↦ err e ]

-- The price and the quantity of the best level. A ring has no more orders than the pool has blocks.
unfoldable pub best_quote : Ptr → Book OrderId OrderHashMap → Result (Price × Qty)
unfolding sum_qty
best_quote none b = ok (price_invalid, qty_invalid)
best_quote (some l) b = level_quote l (level_at l b).first_order b

unfoldable pub update_bid : Cmd MarketOrderBook (Unit {0})
unfolding best_quote
update_bid = do
  quote ← reading (λ s. best_quote s.book.bids_by_price s.book)
  modify (λ s. record s { bbo = record (s.bbo) { bid_price = quote.0; bid_qty = quote.1 } })

unfoldable pub update_ask : Cmd MarketOrderBook (Unit {0})
unfolding best_quote
update_ask = do
  quote ← reading (λ s. best_quote s.book.asks_by_price s.book)
  modify (λ s. record s { bbo = record (s.bbo) { ask_price = quote.0; ask_qty = quote.1 } })

unfoldable pub update_bbo : Bool → Bool → Cmd MarketOrderBook (Unit {0})
unfolding update_bid update_ask
update_bbo bid_updated ask_updated = do
  (if bid_updated then update_bid else pure tt)
  (if ask_updated then update_ask else pure tt)

-- `bids_by_price_ && update->side_ == BUY && update->price_ >= bids_by_price_->price_`.
abbrev pub touches_bid : MeMarketUpdate → Book OrderId OrderHashMap → Bool
touches_bid u b = elim (b.bids_by_price) [
  | none ↦ false
  | some l ↦ is_buy u.side && not (ltb_ℤ u.price (level_at l b).price)
]

abbrev pub touches_ask : MeMarketUpdate → Book OrderId OrderHashMap → Bool
touches_ask u b = elim (b.asks_by_price) [
  | none ↦ false
  | some l ↦ is_sell u.side && not (ltb_ℤ (level_at l b).price u.price)
]

-- `if (order) order_pool_.deallocate(order)`.
abbrev pub free_order : Ptr → Cmd (Book OrderId OrderHashMap) (Unit {0})
free_order none = pure tt
free_order (some p) = on_orders (deallocate p)

-- The loops of CLEAR: over the map from order ids, and round a ring of levels.
unfoldable pub free_orders : (left i : ℕ) → Cmd (Book OrderId OrderHashMap) (Unit {0})
free_orders zero i b = ok (tt, b)
free_orders (suc left) i b = (free_order (b.order_index i) >> free_orders left (i + 1)) b

unfoldable pub free_ring : (fuel best : ℕ) → Ptr → Cmd (Book OrderId OrderHashMap) (Unit {0})
free_ring zero best l b = err out_of_fuel
free_ring (suc fuel) best none b = err null_pointer
free_ring (suc fuel) best (some l) b =
    if l == best
    then on_levels (deallocate best) b
    else (on_levels (deallocate l) >>= λ _ c. free_ring fuel best (level_at l c).next_entry c) b

unfoldable pub free_levels : Ptr → Cmd (Book OrderId OrderHashMap) (Unit {0})
unfolding free_ring
free_levels none b = ok (tt, b)
free_levels (some best) b =
    free_ring (suc b.orders_at_price_pool.size) best (level_at best b).next_entry b

abbrev pub is_trade : MarketUpdateType → Bool
is_trade MarketUpdateType.trade = true
is_trade _ = false

-- What the trade engine is told.
pub data Notice : Type 0 where
  on_trade_update : MeMarketUpdate → Notice
  on_order_book_update : TickerId → Price → Side → Notice

-- The operations on levels, which this class has a copy of.
abbrev pub price_to_index : Price → ℕ
price_to_index price = Book.price_to_index price

abbrev pub get_orders_at_price : Price → Book OrderId OrderHashMap → Ptr
get_orders_at_price price b = Book.get_orders_at_price price b

abbrev pub add_orders_at_price : ℕ → Cmd (Book OrderId OrderHashMap) (Unit {0})
add_orders_at_price l = Levels.add_orders_at_price l

abbrev pub remove_orders_at_price : Side → Price → Cmd (Book OrderId OrderHashMap) (Unit {0})
remove_orders_at_price side price = Levels.remove_orders_at_price side price

-- The array of orders has `order_ids` entries.
module _ (order_ids : ℕ) where
  -- `oid_to_order_.at(order_id) = p`.
  unfoldable pub index_write : OrderId → Ptr → OrderHashMap → Option OrderHashMap
  index_write order_id p index =
      if ltb order_id order_ids then some (update index order_id p) else none

  -- The operations on orders, likewise.
  abbrev pub add_order : ℕ → Cmd (Book OrderId OrderHashMap) (Unit {0})
  add_order p = Orders.add_order index_write p

  abbrev pub remove_order : ℕ → Cmd (Book OrderId OrderHashMap) (Unit {0})
  remove_order p = Orders.remove_order index_write p

  -- `oid_to_order_.at(order_id)`.
  unfoldable pub find_order : OrderId → Cmd (Book OrderId OrderHashMap) ℕ
  find_order order_id = do
    in_range (ltb order_id order_ids)
    b ← get
    deref (b.order_index order_id)

  unfoldable pub add_update : MeMarketUpdate → Cmd (Book OrderId OrderHashMap) (Unit {0})
  add_update u = do
    let order : MarketOrder = record {
      key = u.order_id;
      side = u.side;
      price = u.price;
      qty = u.qty;
      priority = u.priority;
      prev_order = none;
      next_order = none;
    }
    p ← on_orders (allocate order)
    add_order p

  unfoldable pub modify_update : MeMarketUpdate → Cmd (Book OrderId OrderHashMap) (Unit {0})
  unfolding find_order
  modify_update u = do
    p ← find_order u.order_id
    modify (write_order p (λ o. record o { qty = u.qty }))

  unfoldable pub cancel_update : MeMarketUpdate → Cmd (Book OrderId OrderHashMap) (Unit {0})
  unfolding find_order
  cancel_update u = do p ← find_order u.order_id; remove_order p

  unfoldable pub clear : Cmd (Book OrderId OrderHashMap) (Unit {0})
  unfolding free_orders free_levels
  clear = do
    free_orders order_ids 0
    modify (λ b. record b { order_index = λ i. none })
    b ← get
    free_levels b.bids_by_price
    c ← get
    free_levels c.asks_by_price
    modify (λ d. record d { bids_by_price = none; asks_by_price = none })

  -- The switch, but for TRADE.
  unfoldable pub apply_update :
      MeMarketUpdate → MarketUpdateType → Cmd (Book OrderId OrderHashMap) (Unit {0})
  unfolding add_update modify_update cancel_update clear
  apply_update u MarketUpdateType.add = add_update u
  apply_update u MarketUpdateType.modify = modify_update u
  apply_update u MarketUpdateType.cancel = cancel_update u
  apply_update u MarketUpdateType.clear = clear
  apply_update u _ = pure tt

  abbrev refresh : MeMarketUpdate → Bool → Bool → Cmd MarketOrderBook Notice
  refresh u bid_updated ask_updated = do
    on_book (apply_update u u.type)
    update_bbo bid_updated ask_updated
    pure (on_order_book_update u.ticker_id u.price u.side)

  unfoldable pub on_market_update : MeMarketUpdate → Cmd MarketOrderBook Notice
  unfolding apply_update update_bbo
  on_market_update u = do
    s ← get
    (if is_trade u.type
        then pure (on_trade_update u)
        else refresh u (touches_bid u s.book) (touches_ask u s.book))
