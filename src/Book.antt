-- ===== src/Book.antt =====
-- The limit order book that exchange/matcher/me_order_book.h and
-- trading/strategy/market_order_book.h both implement, line by line alike. Orders and price levels
-- lie in memory pools and are linked in rings by pointers, a pointer being the index of a block.
-- `K` is what identifies an order, and `I` is the map from these to the orders.
pub mod Levels
pub mod Orders
pub mod Keeps
pub mod Ring
pub mod Queue
pub mod Ladder
pub mod View
use zquant_system.Prelude.{
  ℕ, ◌-◌, ◌%◌, ◌^◌, Bool, false, ◌&&◌, ◌||◌, Option, none, some, ◌==◌, update, if◌then◌else◌,
}
use zquant_system.Prelude.Int.{pos, negsuc, ltb_ℤ}
use zquant_system.Common.Types.{Price, Qty, Priority, Side, is_buy, is_sell, me_max_price_levels}
use zquant_system.Common.Fault.{ok, err, Cmd, modify}
use zquant_system.Common.MemPool.{MemPool}

-- A pointer; `none` is null.
abbrev pub Ptr : Type 0
Ptr = Option ℕ

-- `p == q` of pointers, one of them not null.
abbrev pub is_at : Ptr → ℕ → Bool
is_at none q = false
is_at (some p) q = p == q

-- MEOrder and MarketOrder.
pub record Order (K : Type 0) : Type 0 where
  pub key : K
  pub side : Side
  pub price : Price
  pub qty : Qty
  pub priority : Priority
  pub prev_order : Ptr
  pub next_order : Ptr

-- MEOrdersAtPrice and MarketOrdersAtPrice.
pub record OrdersAtPrice : Type 0 where
  pub side : Side
  pub price : Price
  pub first_order : Ptr
  pub prev_entry : Ptr
  pub next_entry : Ptr

pub record Book (K I : Type 0) : Type 0 where
  pub orders_at_price_pool : MemPool OrdersAtPrice
  pub order_pool : MemPool (Order K)
  pub bids_by_price : Ptr
  pub asks_by_price : Ptr
  pub price_orders_at_price : ℕ → Ptr
  pub order_index : I

-- `price % ME_MAX_PRICE_LEVELS`, where the price is converted to `size_t`.
unfoldable pub price_to_index : Price → ℕ
price_to_index (pos n) = n % me_max_price_levels
price_to_index (negsuc n) = (2 ^ 64 - 1 - n) % me_max_price_levels

-- `(side == SELL && price > other) || (side == BUY && price < other)`.
abbrev pub goes_after : Side → Price → Price → Bool
goes_after side price other =
    (is_sell side && ltb_ℤ other price) || (is_buy side && ltb_ℤ price other)

-- `(side == BUY && price > other) || (side == SELL && price < other)`.
abbrev pub goes_before : Side → Price → Price → Bool
goes_before side price other =
    (is_buy side && ltb_ℤ other price) || (is_sell side && ltb_ℤ price other)

module _ {K I : Type 0} where
  -- The object behind a pointer.
  abbrev pub order_at : ℕ → Book K I → Order K
  order_at p b = (b.order_pool.store p).object

  abbrev pub level_at : ℕ → Book K I → OrdersAtPrice
  level_at l b = (b.orders_at_price_pool.store l).object

  -- `p->… = …`.
  abbrev pub write_order : ℕ → (Order K → Order K) → Book K I → Book K I
  write_order p f b = record b {
    order_pool = record (b.order_pool) {
      store =
          update b.order_pool.store p (record (b.order_pool.store p) { object = f (order_at p b) });
    };
  }

  abbrev pub write_level : ℕ → (OrdersAtPrice → OrdersAtPrice) → Book K I → Book K I
  write_level l f b = record b {
    orders_at_price_pool = record (b.orders_at_price_pool) {
      store =
          update b.orders_at_price_pool.store l
            (record (b.orders_at_price_pool.store l) { object = f (level_at l b) });
    };
  }

  abbrev pub set_prev_order : ℕ → Ptr → Cmd (Book K I) (Unit {0})
  set_prev_order p q = modify (write_order p (λ o. record o { prev_order = q }))

  abbrev pub set_next_order : ℕ → Ptr → Cmd (Book K I) (Unit {0})
  set_next_order p q = modify (write_order p (λ o. record o { next_order = q }))

  abbrev pub set_prev_entry : ℕ → Ptr → Cmd (Book K I) (Unit {0})
  set_prev_entry l q = modify (write_level l (λ e. record e { prev_entry = q }))

  abbrev pub set_next_entry : ℕ → Ptr → Cmd (Book K I) (Unit {0})
  set_next_entry l q = modify (write_level l (λ e. record e { next_entry = q }))

  abbrev pub set_first_order : ℕ → Ptr → Cmd (Book K I) (Unit {0})
  set_first_order l q = modify (write_level l (λ e. record e { first_order = q }))

  -- `(side == Side::BUY ? bids_by_price_ : asks_by_price_)`, read and written.
  abbrev pub best_of : Side → Book K I → Ptr
  best_of side b = if is_buy side then b.bids_by_price else b.asks_by_price

  abbrev pub set_best : Side → Ptr → Cmd (Book K I) (Unit {0})
  set_best side p =
      modify (λ b.
        if is_buy side then record b { bids_by_price = p } else record b { asks_by_price = p })

  -- A call of a pool's method.
  abbrev pub on_orders : {A : Type 0} → Cmd (MemPool (Order K)) A → Cmd (Book K I) A
  on_orders c b = elim (c b.order_pool) [
    | ok (a, pool) ↦ ok (a, record b { order_pool = pool })
    | err e ↦ err e
  ]

  abbrev pub on_levels : {A : Type 0} → Cmd (MemPool OrdersAtPrice) A → Cmd (Book K I) A
  on_levels c b = elim (c b.orders_at_price_pool) [
    | ok (a, pool) ↦ ok (a, record b { orders_at_price_pool = pool })
    | err e ↦ err e
  ]

  abbrev pub get_orders_at_price : Price → Book K I → Ptr
  get_orders_at_price price b = b.price_orders_at_price (price_to_index price)

  abbrev pub set_orders_at_price : Price → Ptr → Cmd (Book K I) (Unit {0})
  set_orders_at_price price p = modify (λ b. record b {
    price_orders_at_price = update b.price_orders_at_price (price_to_index price) p;
  })
