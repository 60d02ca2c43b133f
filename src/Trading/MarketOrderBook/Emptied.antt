-- ===== src/Trading/MarketOrderBook/Emptied.antt =====
-- trading/strategy/market_order_book.cpp, CLEAR on any book: the tables and the two sides.
use zquant_system.Prelude.{
  ℕ, zero, suc, ◌+◌, ◌≡◌, refl, ◌∙◌, inl, inr, none, some, arith, ◌==◌, Bool-cases,
}
use zquant_system.Common.Types.{OrderId}
use zquant_system.Common.Fault.{
  Result, ok, err, Cmd, Outcome, returns, stops, AnyFault, bind, weaken,
}
use zquant_system.Common.MemPool.{MemPool, deallocate}
use zquant_system.Book.{Ptr, Book, OrdersAtPrice, level_at, on_orders, on_levels}
use zquant_system.Trading.MarketOrderBook.{
  OrderHashMap, MarketOrder, free_order, free_orders, free_ring, free_levels, clear,
}

abbrev MarketBook : Type 0
MarketBook = Book OrderId OrderHashMap

-- The tables from prices to levels and from order ids to orders are as they were.
abbrev SameTables : {A : Type 0} → MarketBook → A → MarketBook → Type 0
SameTables b _ d =
    (d.price_orders_at_price ≡ b.price_orders_at_price) × (d.order_index ≡ b.order_index)

on_orders-SameTables :
    (c : Cmd (MemPool MarketOrder) (Unit {0})) (b : MarketBook)
    → Outcome AnyFault (SameTables b) (on_orders c b)
on_orders-SameTables c b = go (c b.order_pool)
  where
    go :
        (r : Result (Unit {0} × MemPool MarketOrder))
        → Outcome AnyFault
            (SameTables b)
            (elim r [ ok (a, pool) ↦ ok (a, record b { order_pool = pool }) | err e ↦ err e ])
    go (ok (a, pool)) = returns (refl, refl)
    go (err e) = stops tt

on_levels-SameTables :
    (c : Cmd (MemPool OrdersAtPrice) (Unit {0})) (b : MarketBook)
    → Outcome AnyFault (SameTables b) (on_levels c b)
on_levels-SameTables c b = go (c b.orders_at_price_pool)
  where
    go :
        (r : Result (Unit {0} × MemPool OrdersAtPrice))
        → Outcome AnyFault (SameTables b) (elim r [
          | ok (a, pool) ↦ ok (a, record b { orders_at_price_pool = pool })
          | err e ↦ err e
        ])
    go (ok (a, pool)) = returns (refl, refl)
    go (err e) = stops tt

free_order-SameTables :
    (p : Ptr) (b : MarketBook) → Outcome AnyFault (SameTables b) (free_order p b)
free_order-SameTables none b = returns (refl, refl)
free_order-SameTables (some p) b = on_orders-SameTables (deallocate p) b

free_orders-SameTables :
    (left i : ℕ) (b : MarketBook) → Outcome AnyFault (SameTables b) (free_orders left i b)
unfolding free_orders
free_orders-SameTables zero i b = returns (refl, refl)
free_orders-SameTables (suc left) i b =
    bind (free_order-SameTables (b.order_index i) b) λ _ c same.
      weaken (free_orders-SameTables left (i + 1) c) λ _ d k. (k.0 ∙ same.0, k.1 ∙ same.1)

free_ring-SameTables :
    (fuel best : ℕ) (l : Ptr) (b : MarketBook)
    → Outcome AnyFault (SameTables b) (free_ring fuel best l b)
unfolding free_ring
free_ring-SameTables zero best l b = stops tt
free_ring-SameTables (suc fuel) best none b = stops tt
free_ring-SameTables (suc fuel) best (some l) b = elim (Bool-cases (l == best)) [
  | inl e ↦ rw e (on_levels-SameTables (deallocate best) b)
  | inr e ↦ rw e (
      bind (on_levels-SameTables (deallocate l) b) λ _ c same.
        weaken (free_ring-SameTables fuel best (level_at l c).next_entry c)
          λ _ d k. (k.0 ∙ same.0, k.1 ∙ same.1))
]

free_levels-SameTables :
    (l : Ptr) (b : MarketBook) → Outcome AnyFault (SameTables b) (free_levels l b)
unfolding free_levels
free_levels-SameTables none b = returns (refl, refl)
free_levels-SameTables (some best) b =
    free_ring-SameTables (suc b.orders_at_price_pool.size) best (level_at best b).next_entry b

-- What CLEAR comes to.
pub record Emptied (b d : MarketBook) : Type 0 where
  pub bids : d.bids_by_price ≡ none
  pub asks : d.asks_by_price ≡ none
  pub index : (i : ℕ) → d.order_index i ≡ none
  pub levels : d.price_orders_at_price ≡ b.price_orders_at_price

pub clear-Emptied :
    (order_ids : ℕ) (b : MarketBook) → Outcome AnyFault (λ _ d. Emptied b d) (clear order_ids b)
unfolding clear
clear-Emptied order_ids b = bind (free_orders-SameTables order_ids 0 b) λ _ c same.
    bind (free_levels-SameTables c.bids_by_price (record c { order_index = λ i. none }))
      λ _ d same'. bind (free_levels-SameTables d.asks_by_price d) λ _ e same''. returns (record {
        bids = refl;
        asks = refl;
        index = λ i. ground (arith, same'.1, same''.1);
        levels = same''.0 ∙ same'.0 ∙ same.0;
      })
