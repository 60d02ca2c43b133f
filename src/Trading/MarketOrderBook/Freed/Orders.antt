-- ===== src/Trading/MarketOrderBook/Freed/Orders.antt =====
-- trading/strategy/market_order_book.cpp, the loop of CLEAR over the map from order ids.
use zquant_system.Prelude.{
  ℕ, zero, suc, ◌+◌, ◌≤◌, ◌<◌, ◌≡◌, ◌≢◌, refl, sym, ◌∙◌, ap, subst, inl, inr, true, false, none,
  some, ◌==◌, arith, Bool-cases, if◌then◌else◌,
}
use zquant_system.Common.Types.{OrderId}
use zquant_system.Common.Fault.{
  Result, ok, err, Outcome, NoFault, returns, stops, bind, weaken, holds, Holds,
}
use zquant_system.Common.MemPool.{MemPool, deallocate}
use zquant_system.Book.{Ptr, Book, on_orders}
use zquant_system.Trading.MarketOrderBook.{OrderHashMap, MarketOrder, free_order, free_orders}
use zquant_system.Trading.MarketOrderBook.Freed.{PoolFreed, deallocate-PoolFreed}

abbrev MarketBook : Type 0
MarketBook = Book OrderId OrderHashMap

on_orders-Freed :
    (p : ℕ) (b : MarketBook)
    → p < b.order_pool.size
    → (b.order_pool.store p).is_free ≡ false
    → Outcome NoFault
        (λ _ d.
          (d ≡ record b { order_pool = d.order_pool }) × PoolFreed p b.order_pool d.order_pool)
        (on_orders (deallocate p) b)
on_orders-Freed p b h used =
    go (deallocate p b.order_pool) (holds (deallocate-PoolFreed p b.order_pool h used))
  where
    go :
        (r : Result (Unit {0} × MemPool MarketOrder))
        → Holds NoFault (λ _ q. PoolFreed p b.order_pool q) r
        → Outcome NoFault
            (λ _ d.
              (d ≡ record b { order_pool = d.order_pool }) × PoolFreed p b.order_pool d.order_pool)
            (elim r [ ok (a, pool) ↦ ok (a, record b { order_pool = pool }) | err e ↦ err e ])
    go (ok (a, pool)) f = returns (refl, f)
    go (err e) f = stops f

-- What the loop over the map from order ids, from `i` and `left` more, gives back.
pub record OrdersFreed (left i : ℕ) (b d : MarketBook) : Type 0 where
  pub same : d ≡ record b { order_pool = d.order_pool }
  pub freed :
      (j p : ℕ)
      → i ≤ j
      → j < i + left
      → b.order_index j ≡ some p
      → (d.order_pool.store p).is_free ≡ true
  pub still :
      (p : ℕ) → (b.order_pool.store p).is_free ≡ true → (d.order_pool.store p).is_free ≡ true
  pub others :
      (p : ℕ)
      → ((j : ℕ) → b.order_index j ≢ some p)
      → (d.order_pool.store p).is_free ≡ (b.order_pool.store p).is_free

-- Each entry of the map leads to its own order, which is one of the pool's and in use.
pub record IsOwn (b : MarketBook) : Type 0 where
  pub in_pool : (j p : ℕ) → b.order_index j ≡ some p → p < b.order_pool.size
  pub used : (j p : ℕ) → b.order_index j ≡ some p → (b.order_pool.store p).is_free ≡ false
  pub own : (j k p : ℕ) → b.order_index j ≡ some p → b.order_index k ≡ some p → j ≡ k

-- The same of the entries from `i` on.
record IsOwnFrom (i : ℕ) (b : MarketBook) : Type 0 where
  in_pool : (j p : ℕ) → i ≤ j → b.order_index j ≡ some p → p < b.order_pool.size
  used : (j p : ℕ) → i ≤ j → b.order_index j ≡ some p → (b.order_pool.store p).is_free ≡ false
  own : (j k p : ℕ) → b.order_index j ≡ some p → b.order_index k ≡ some p → j ≡ k

-- What is given back at one entry.
record EntryFreed (i : ℕ) (b d : MarketBook) : Type 0 where
  same : d ≡ record b { order_pool = d.order_pool }
  size : d.order_pool.size ≡ b.order_pool.size
  freed : (p : ℕ) → b.order_index i ≡ some p → (d.order_pool.store p).is_free ≡ true
  still : (p : ℕ) → (b.order_pool.store p).is_free ≡ true → (d.order_pool.store p).is_free ≡ true
  others :
      (p : ℕ)
      → b.order_index i ≢ some p
      → (d.order_pool.store p).is_free ≡ (b.order_pool.store p).is_free

free_order-Freed :
    (i : ℕ) (b : MarketBook)
    → IsOwnFrom i b
    → Outcome NoFault (λ _ d. EntryFreed i b d) (free_order (b.order_index i) b)
free_order-Freed i b h = go (b.order_index i) refl
  where
    go :
        (q : Ptr) → b.order_index i ≡ q → Outcome NoFault (λ _ d. EntryFreed i b d) (free_order q b)
    go none e = returns (record {
      same = refl;
      size = refl;
      freed = λ p f. absurd (ground arith);
      still = λ p f. f;
      others = λ p f. refl;
    })
    go (some q) e =
        weaken (on_orders-Freed q b (h.in_pool i q (omega arith) e) (h.used i q (omega arith) e))
          λ _ d f. record {
            same = f.0;
            size = f.1.size;
            freed = λ p g. ground (arith, f.1.free p);
            still = λ p g. ground (arith, f.1.free p);
            others = λ p ne. f.1.free p ∙ not_here p ne;
          }
      where
        not_here :
            (p : ℕ)
            → b.order_index i ≢ some p
            → (if q == p then true else (b.order_pool.store p).is_free)
              ≡ (b.order_pool.store p).is_free
        not_here p ne = elim (Bool-cases (q == p)) [
          | inl here ↦ absurd (ne (ground arith))
          | inr f ↦ rw f refl
        ]

same_index :
    (b d : MarketBook)
    → d ≡ record b { order_pool = d.order_pool }
    → (j : ℕ) → d.order_index j ≡ b.order_index j
same_index b d e j = ap (λ f. f j) (ap (λ s. Book.order_index s) e)

own_next : (i : ℕ) (b c : MarketBook) → IsOwnFrom i b → EntryFreed i b c → IsOwnFrom (i + 1) c
own_next i b c h k = record {
  in_pool =
      λ j p le e. subst (λ n. p < n) (sym k.size) (h.in_pool j p (omega arith) (sym (at j) ∙ e));
  used = λ j p le e.
      k.others p (λ f. absurd (omega (arith, h.own i j p f (sym (at j) ∙ e))))
      ∙ h.used j p (omega arith) (sym (at j) ∙ e);
  own = λ j l p e f. h.own j l p (sym (at j) ∙ e) (sym (at l) ∙ f);
}
  where
    at : (j : ℕ) → c.order_index j ≡ b.order_index j
    at j = same_index b c k.same j

OrdersFreed-next :
    (left i : ℕ) (b c d : MarketBook)
    → EntryFreed i b c
    → OrdersFreed left (i + 1) c d
    → OrdersFreed (suc left) i b d
OrdersFreed-next left i b c d h k = record {
  same = k.same ∙ put h.same;
  freed = λ j p le lt e. elim (Bool-cases (i == j)) [
    | inl here ↦ k.still p (h.freed p (ap b.order_index (ground arith) ∙ e))
    | inr later ↦ k.freed j p (ground arith) (omega arith) (same_index b c h.same j ∙ e)
  ];
  still = λ p f. k.still p (h.still p f);
  others = λ p f. k.others p (λ j e. f j (sym (same_index b c h.same j) ∙ e)) ∙ h.others p (f i);
}
  where
    put :
        c ≡ record b { order_pool = c.order_pool }
        → record c { order_pool = d.order_pool } ≡ record b { order_pool = d.order_pool }
    put e = cc (
      ap (λ s. Book.orders_at_price_pool s) e,
      ap (λ s. Book.bids_by_price s) e,
      ap (λ s. Book.asks_by_price s) e,
      ap (λ s. Book.price_orders_at_price s) e,
      ap (λ s. Book.order_index s) e,
    )

free_orders-Freed :
    (left i : ℕ) (b : MarketBook)
    → IsOwnFrom i b
    → Outcome NoFault (λ _ d. OrdersFreed left i b d) (free_orders left i b)
unfolding free_orders
free_orders-Freed zero i b h = returns (record {
  same = refl;
  freed = λ j p le lt e. absurd (omega arith);
  still = λ p f. f;
  others = λ p f. refl;
})
free_orders-Freed (suc left) i b h = bind (free_order-Freed i b h) λ _ c k.
    weaken (free_orders-Freed left (i + 1) c (own_next i b c h k))
      λ _ d l. OrdersFreed-next left i b c d k l

pub free_all-Freed :
    (left : ℕ) (b : MarketBook)
    → IsOwn b
    → Outcome NoFault (λ _ d. OrdersFreed left 0 b d) (free_orders left 0 b)
free_all-Freed left b h =
    free_orders-Freed left 0 b
      (record { in_pool = λ j p le. h.in_pool j p; used = λ j p le. h.used j p; own = h.own })
