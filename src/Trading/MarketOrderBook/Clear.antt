-- ===== src/Trading/MarketOrderBook/Clear.antt =====
-- trading/strategy/market_order_book.cpp, CLEAR on a book that stands for lists of orders.
use zquant_system.Prelude.{
  ℕ, ◌<◌, ◌≡◌, ◌≢◌, refl, sym, ◌∙◌, ap, subst, true, ◌||◌, none, some, arith, if◌then◌else◌,
}
use zquant_system.Common.Types.{OrderId, Side}
use zquant_system.Common.Fault.{Outcome, NoFault, returns, bind}
use zquant_system.Common.MemPool.{MemPool}
use zquant_system.Book.{Book, level_at}
use zquant_system.Book.Ring.{has}
use zquant_system.Book.Ladder.Sorted.{is_traded}
use zquant_system.Book.View.{View, Represents, ladder}
use zquant_system.Book.View.Relevel.{off_side}
use zquant_system.Trading.MarketOrderBook.{OrderHashMap, free_levels, clear}
use zquant_system.Trading.MarketOrderBook.Kept.{IsIndexed}
use zquant_system.Trading.MarketOrderBook.Freed.{
  LevelsFreed, IsTaken, IsLadder-same, free_levels-Freed,
}
use zquant_system.Trading.MarketOrderBook.Freed.Orders.{IsOwn, OrdersFreed, free_all-Freed}

abbrev MarketBook : Type 0
MarketBook = Book OrderId OrderHashMap

-- What CLEAR of a map of `order_ids` entries makes of a book with the levels of `v`.
pub record Cleared (order_ids : ℕ) (v : View) (b d : MarketBook) : Type 0 where
  pub bids : d.bids_by_price ≡ none
  pub asks : d.asks_by_price ≡ none
  pub index : (i : ℕ) → d.order_index i ≡ none
  pub orders :
      (i p : ℕ) → i < order_ids → b.order_index i ≡ some p → (d.order_pool.store p).is_free ≡ true
  pub other_orders :
      (p : ℕ)
      → ((i : ℕ) → b.order_index i ≢ some p)
      → (d.order_pool.store p).is_free ≡ (b.order_pool.store p).is_free
  pub levels :
      (l : ℕ)
      → (d.orders_at_price_pool.store l).is_free
        ≡ (if has l v.bids || has l v.asks then true else (b.orders_at_price_pool.store l).is_free)
  pub table : d.price_orders_at_price ≡ b.price_orders_at_price
  -- An entry of the table that is left leads to a level given back.
  pub stale :
      (i l : ℕ)
      → d.price_orders_at_price i ≡ some l
      → (d.orders_at_price_pool.store l).is_free ≡ true

module _ (b : MarketBook) (v : View) (r : Represents b v) where
  taken :
      (side : Side) → is_traded side ≡ true → (l : ℕ) → has l (ladder side v) ≡ true → IsTaken b l
  taken side t l h = record {
    in_pool = (r.levels side t l h).in_pool;
    used = (r.levels side t l h).used;
  }

  IsOwn-indexed :
      IsIndexed b → ((i p : ℕ) → b.order_index i ≡ some p → p < b.order_pool.size) → IsOwn b
  IsOwn-indexed h in_pool = record {
    in_pool = in_pool;
    used = λ j p e. (h j p e).used;
    own = λ j k p e f. sym (h j p e).order ∙ (h k p f).order;
  }

  stale_entry :
      (d : MarketBook)
      → d.price_orders_at_price ≡ b.price_orders_at_price
      → ((l : ℕ)
          → (d.orders_at_price_pool.store l).is_free ≡ (
              if has l v.bids || has l v.asks
              then true
              else (b.orders_at_price_pool.store l).is_free))
      → (i l : ℕ) → d.price_orders_at_price i ≡ some l
      → (d.orders_at_price_pool.store l).is_free ≡ true
  stale_entry d table levels i l e =
      let (f, side, t, m) = r.table i l (sym (ap (λ g. g i) table) ∙ e) in levels l ∙ of_side side m
    where
      of_side :
          (side : Side)
          → has l (ladder side v) ≡ true
          → (if has l v.bids || has l v.asks
              then true
              else (b.orders_at_price_pool.store l).is_free)
            ≡ true
      of_side side m = ground arith

  -- The book between the loops over the orders and over the levels.
  abbrev unindexed : MarketBook → MarketBook
  unindexed c = record c { order_index = λ i. none }

  module _ (order_ids : ℕ) (c : MarketBook) (f : OrdersFreed order_ids 0 b c) where
    pool_same : c.orders_at_price_pool ≡ b.orders_at_price_pool
    pool_same = ap (λ s. Book.orders_at_price_pool s) f.same

    level_same : (k : ℕ) → level_at k c ≡ level_at k b
    level_same k = ap (λ q. (MemPool.store q k).object) pool_same

    bids-Freed :
        Outcome NoFault
          (λ _ d. LevelsFreed v.bids (unindexed c) d)
          (free_levels c.bids_by_price (unindexed c))
    bids-Freed =
        free_levels-Freed Side.buy v.bids (unindexed c)
          (IsLadder-same Side.buy v.bids b (unindexed c) (ap (λ s. Book.bids_by_price s) f.same)
            level_same (r.ladders Side.buy refl))
          (λ k m. record {
            in_pool = subst (λ q. k < q.size) (sym pool_same) (taken Side.buy refl k m).in_pool;
            used = ap (λ q. (MemPool.store q k).is_free) pool_same ∙ (taken Side.buy refl k m).used;
          })

    module _ (d : MarketBook) (g : LevelsFreed v.bids (unindexed c) d) where
      asks-Freed : Outcome NoFault (λ _ e. LevelsFreed v.asks d e) (free_levels d.asks_by_price d)
      asks-Freed =
          free_levels-Freed Side.sell v.asks d
            (IsLadder-same Side.sell v.asks b d
              (ap (λ s. Book.asks_by_price s) g.same ∙ ap (λ s. Book.asks_by_price s) f.same)
              (λ k. g.object k ∙ level_same k) (r.ladders Side.sell refl))
            (λ k m. record {
              in_pool =
                  subst (λ n. k < n) (sym (g.size ∙ ap (λ q. MemPool.size q) pool_same))
                    (taken Side.sell refl k m).in_pool;
              used =
                  g.free k
                  ∙ rw (off_side b v r Side.buy Side.sell k refl refl refl m) (
                      ap (λ q. (MemPool.store q k).is_free) pool_same
                      ∙ (taken Side.sell refl k m).used);
            })

      cleared :
          (e : MarketBook)
          → LevelsFreed v.asks d e
          → Cleared order_ids v b (record e { bids_by_price = none; asks_by_price = none })
      cleared e h = record {
        bids = refl;
        asks = refl;
        index = λ i.
            ap (λ x. x i)
              (ap (λ s. Book.order_index s) h.same ∙ ap (λ s. Book.order_index s) g.same);
        orders = λ i p lt k.
            ap (λ q. (MemPool.store q p).is_free) order_pool
            ∙ f.freed i p (omega arith) (omega arith) k;
        other_orders = λ p k. ap (λ q. (MemPool.store q p).is_free) order_pool ∙ f.others p k;
        levels = levels;
        table = table;
        stale = stale_entry e table levels;
      }
        where
          order_pool : e.order_pool ≡ c.order_pool
          order_pool = ap (λ s. Book.order_pool s) h.same ∙ ap (λ s. Book.order_pool s) g.same

          table : e.price_orders_at_price ≡ b.price_orders_at_price
          table =
              ap (λ s. Book.price_orders_at_price s) h.same
              ∙ ap (λ s. Book.price_orders_at_price s) g.same
              ∙ ap (λ s. Book.price_orders_at_price s) f.same

          levels :
              (l : ℕ)
              → (e.orders_at_price_pool.store l).is_free ≡ (
                  if has l v.bids || has l v.asks
                  then true
                  else (b.orders_at_price_pool.store l).is_free)
          levels l =
              ground (arith, h.free l, g.free l, ap (λ q. (MemPool.store q l).is_free) pool_same)

  -- On a book that stands for lists of orders, whose map leads to orders of the pool in use that bear
  -- the entry's ids, CLEAR meets no fault. It empties the map and both sides, gives back every order
  -- that the first `order_ids` entries of the map lead to and every level of both sides, and no level
  -- nor order besides these and those of further entries. The table from prices to levels stays as it
  -- was, so that each of its entries leads to a level that has been given back.
  pub clear-Cleared :
      (order_ids : ℕ)
      → IsIndexed b
      → ((i p : ℕ) → b.order_index i ≡ some p → p < b.order_pool.size)
      → Outcome NoFault (λ _ d. Cleared order_ids v b d) (clear order_ids b)
  unfolding clear
  clear-Cleared order_ids indexed in_pool =
      bind (free_all-Freed order_ids b (IsOwn-indexed indexed in_pool)) λ _ c f.
        bind (bids-Freed order_ids c f) λ _ d g.
          bind (asks-Freed order_ids c f d g) λ _ e h. returns (cleared order_ids c f d g e h)
