-- ===== src/Trading/MarketOrderBook/Freed.antt =====
-- trading/strategy/market_order_book.cpp, the loop of CLEAR over the levels of a side.
pub mod Orders
use zquant_system.Prelude.{
  ℕ, zero, suc, ◌+◌, ◌≤◌, ◌<◌, ◌≡◌, ◌≢◌, refl, sym, ◌∙◌, ap, subst, fun_ext, inl, inr, true, false,
  Option, none, some, List, [], ◌∷◌, ◌==◌, length, arith, Bool-cases, if◌then◌else◌, lt→ltb,
}
use zquant_system.Common.Types.{OrderId, Side}
use zquant_system.Common.Fault.{
  Result, ok, err, Outcome, NoFault, returns, stops, bind, weaken, holds, Holds,
}
use zquant_system.Common.MemPool.{MemPool, deallocate}
use zquant_system.Common.MemPool.Usage.{deallocate_lem}
use zquant_system.Book.{Ptr, Book, OrdersAtPrice, level_at, best_of, on_orders, on_levels}
use zquant_system.Book.Ring.{has, IsDistinct, Links, bounded_length}
use zquant_system.Book.Ladder.{next_entry_of, prev_entry_of}
use zquant_system.Book.Ladder.Sorted.{IsLadder, IsSorted}
use zquant_system.Book.Ring.{Ring-frame}
use zquant_system.Trading.MarketOrderBook.{
  OrderHashMap, MarketOrder, free_order, free_orders, free_ring, free_levels,
}

abbrev MarketBook : Type 0
MarketBook = Book OrderId OrderHashMap

module _ {T : Type 0} where
  -- The block `i` is given back.
  pub record PoolFreed (i : ℕ) (p q : MemPool T) : Type 0 where
    pub object : (k : ℕ) → (q.store k).object ≡ (p.store k).object
    pub free : (k : ℕ) → (q.store k).is_free ≡ (if i == k then true else (p.store k).is_free)
    pub size : q.size ≡ p.size

  pub deallocate-PoolFreed :
      (i : ℕ) (p : MemPool T)
      → i < p.size
      → (p.store i).is_free ≡ false
      → Outcome NoFault (λ _ q. PoolFreed i p q) (deallocate i p)
  deallocate-PoolFreed i p h used =
      rw (deallocate_lem p i, lt→ltb i p.size h, used)
        (returns (record { object = λ k. ground arith; free = λ k. ground arith; size = refl }))

on_levels-Freed :
    (l : ℕ) (b : MarketBook)
    → l < b.orders_at_price_pool.size
    → (b.orders_at_price_pool.store l).is_free ≡ false
    → Outcome NoFault
        (λ _ d.
          (d ≡ record b { orders_at_price_pool = d.orders_at_price_pool })
          × PoolFreed l b.orders_at_price_pool d.orders_at_price_pool)
        (on_levels (deallocate l) b)
on_levels-Freed l b h used =
    go (deallocate l b.orders_at_price_pool)
      (holds (deallocate-PoolFreed l b.orders_at_price_pool h used))
  where
    go :
        (r : Result (Unit {0} × MemPool OrdersAtPrice))
        → Holds NoFault (λ _ q. PoolFreed l b.orders_at_price_pool q) r
        → Outcome NoFault
            (λ _ d.
              (d ≡ record b { orders_at_price_pool = d.orders_at_price_pool })
              × PoolFreed l b.orders_at_price_pool d.orders_at_price_pool)
            (elim r [
              | ok (a, pool) ↦ ok (a, record b { orders_at_price_pool = pool })
              | err e ↦ err e
            ])
    go (ok (a, pool)) f = returns (refl, f)
    go (err e) f = stops f

-- The levels of the list are given back, and nothing else changes.
pub record LevelsFreed (ls : List ℕ) (b d : MarketBook) : Type 0 where
  pub same : d ≡ record b { orders_at_price_pool = d.orders_at_price_pool }
  pub object : (k : ℕ) → level_at k d ≡ level_at k b
  pub free :
      (k : ℕ)
      → (d.orders_at_price_pool.store k).is_free
        ≡ (if has k ls then true else (b.orders_at_price_pool.store k).is_free)
  pub size : d.orders_at_price_pool.size ≡ b.orders_at_price_pool.size

-- The level is one of the pool's, and in use.
pub record IsTaken (b : MarketBook) (l : ℕ) : Type 0 where
  pub in_pool : l < b.orders_at_price_pool.size
  pub used : (b.orders_at_price_pool.store l).is_free ≡ false

one_freed :
    (l : ℕ) (b d : MarketBook)
    → d ≡ record b { orders_at_price_pool = d.orders_at_price_pool }
    → PoolFreed l b.orders_at_price_pool d.orders_at_price_pool
    → LevelsFreed (l ∷ []) b d
one_freed l b d e f = record {
  same = e;
  object = f.object;
  free = λ k. ground (arith, f.free k);
  size = f.size;
}

LevelsFreed-trans :
    (x l : ℕ) (ls : List ℕ) (b c d : MarketBook)
    → LevelsFreed (x ∷ []) b c
    → LevelsFreed (l ∷ ls) c d
    → LevelsFreed (l ∷ x ∷ ls) b d
LevelsFreed-trans x l ls b c d h k = record {
  same = k.same ∙ put h.same;
  object = λ i. k.object i ∙ h.object i;
  free = λ i. ground (arith, h.free i, k.free i);
  size = k.size ∙ h.size;
}
  where
    put :
        c ≡ record b { orders_at_price_pool = c.orders_at_price_pool }
        → record c { orders_at_price_pool = d.orders_at_price_pool }
          ≡ record b { orders_at_price_pool = d.orders_at_price_pool }
    put e = cc (
      ap (λ s. Book.order_pool s) e,
      ap (λ s. Book.bids_by_price s) e,
      ap (λ s. Book.asks_by_price s) e,
      ap (λ s. Book.price_orders_at_price s) e,
      ap (λ s. Book.order_index s) e,
    )

free_ring-Freed :
    (fuel best a : ℕ) (xs : List ℕ) (next prev : ℕ → Option ℕ) (c : MarketBook)
    → Links next prev a xs best
    → ((k : ℕ) → next_entry_of c k ≡ next k)
    → IsDistinct (best ∷ xs)
    → ((k : ℕ) → has k (best ∷ xs) ≡ true → IsTaken c k)
    → length xs < fuel
    → Outcome NoFault (λ _ d. LevelsFreed (best ∷ xs) c d) (free_ring fuel best (next a) c)
unfolding free_ring
free_ring-Freed zero best a xs next prev c l same d taken enough = absurd (omega arith)
free_ring-Freed (suc fuel) best a [] next prev c l same d taken enough =
    rw (l.0, at_best)
      (weaken
        (on_levels-Freed best c (taken best (ground arith)).in_pool
          (taken best (ground arith)).used)
        λ _ e f. one_freed best c e f.0 f.1)
  where
    at_best : (best == best) ≡ true
    at_best = ground arith
free_ring-Freed (suc fuel) best a (x ∷ xs) next prev c l same (out, d) taken enough =
    rw (l.0, not_best)
      (bind (on_levels-Freed x c (taken x (ground arith)).in_pool (taken x (ground arith)).used)
        λ _ e f.
          subst
            (λ q.
              Outcome NoFault (λ _ g. LevelsFreed (best ∷ x ∷ xs) c g) (free_ring fuel best q e))
            (sym (ap (λ o. OrdersAtPrice.next_entry o) (f.1.object x) ∙ same x))
            (weaken
              (free_ring-Freed fuel best x xs next prev e l.2
                (λ k. ap (λ o. OrdersAtPrice.next_entry o) (f.1.object k) ∙ same k)
                (ground arith, d.1)
                (λ k m. record {
                  in_pool = subst (λ n. k < n) (sym f.1.size) (taken k (ground arith)).in_pool;
                  used = ground (arith, f.1.free k, (taken k (ground arith)).used);
                })
                (omega arith))
              λ _ g h. LevelsFreed-trans x best xs c e g (one_freed x c e f.0 f.1) h))
  where
    not_best : (x == best) ≡ false
    not_best = ground arith

pub free_levels-Freed :
    (side : Side) (ls : List ℕ) (b : MarketBook)
    → IsLadder side b ls
    → ((k : ℕ) → has k ls ≡ true → IsTaken b k)
    → Outcome NoFault (λ _ d. LevelsFreed ls b d) (free_levels (best_of side b) b)
unfolding free_levels
free_levels-Freed side [] b h taken =
    rw h.best (returns (record { same = refl; object = λ k. refl; free = λ k. refl; size = refl }))
free_levels-Freed side (l ∷ ls) b h taken = rw h.best (
    free_ring-Freed (suc b.orders_at_price_pool.size) l l ls (next_entry_of b) (prev_entry_of b) b
      h.ring (λ k. refl) h.distinct taken
      (omega (
        arith,
        bounded_length b.orders_at_price_pool.size (l ∷ ls) h.distinct (λ y m. (taken y m).in_pool),
      )))

-- Levels that no pointer or price has changed for.
pub IsLadder-same :
    (side : Side) (ls : List ℕ) (b c : MarketBook)
    → best_of side c ≡ best_of side b
    → ((k : ℕ) → level_at k c ≡ level_at k b)
    → IsLadder side b ls
    → IsLadder side c ls
IsLadder-same side ls b c e f h = record {
  best = e ∙ h.best;
  ring =
      Ring-frame {prev = prev_entry_of b} ls
        (λ y _.
          (ap (λ o. OrdersAtPrice.next_entry o) (f y), ap (λ o. OrdersAtPrice.prev_entry o) (f y)))
        h.ring;
  distinct = h.distinct;
  sorted =
      subst (λ g. IsSorted side g ls) (sym (fun_ext λ k. ap (λ o. OrdersAtPrice.price o) (f k)))
        h.sorted;
}
