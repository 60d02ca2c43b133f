-- ===== src/Trading/MarketOrderBook/Kept.antt =====
-- The map `oid_to_order_` and the best bid and offer under the market updates.
use zquant_system.Prelude.{ℕ, ◌≡◌, refl, inl, inr, Bool, false, none, some, arith, Bool-cases}
use zquant_system.Common.Types.{OrderId}
use zquant_system.Common.Fault.{
  Result, ok, err, Cmd, Outcome, returns, stops, Holds, holds, outcome, AnyFault, any_fault, bind,
  weaken, for_all,
}
use zquant_system.Common.MemPool.{MemPool, allocate}
use zquant_system.Common.MemPool.Usage.{Allocates, allocate-Allocates}
use zquant_system.Messages.{MeMarketUpdate, MarketUpdateType}
use zquant_system.Book.{Book, best_of, order_at, on_orders}
use zquant_system.Book.Keeps.{Removed, Filed, remove_order-Removed, add_order-Filed}
use zquant_system.Trading.MarketOrderBook.Emptied.{clear-Emptied}
use zquant_system.Trading.MarketOrderBook.{
  is_trade, touches_bid, touches_ask, OrderHashMap, MarketOrder, MarketOrderBook, on_book,
  update_bid, update_ask, update_bbo, index_write, add_order, remove_order, find_order, add_update,
  modify_update, cancel_update, apply_update, on_market_update,
}

abbrev MarketBook : Type 0
MarketBook = Book OrderId OrderHashMap

-- An entry of the map leads to an order in use that bears the entry's id.
pub record IsEntry (b : MarketBook) (i p : ℕ) : Type 0 where
  pub used : (b.order_pool.store p).is_free ≡ false
  pub order : (order_at p b).key ≡ i

abbrev pub IsIndexed : MarketBook → Type 0
IsIndexed b = (i p : ℕ) → b.order_index i ≡ some p → IsEntry b i p

module _ (order_ids : ℕ) where
  remove-IsEntry :
      (b d : MarketBook) (p i q : ℕ)
      → IsIndexed b
      → Removed (index_write order_ids) p q b d
      → d.order_index i ≡ some q
      → IsEntry d i q
  unfolding index_write
  remove-IsEntry b d p i q h r e = ground (arith, h i q, r.index)

  remove_order-IsIndexed :
      (p : ℕ) (b : MarketBook)
      → IsIndexed b
      → Outcome AnyFault (λ _ d. IsIndexed d) (remove_order order_ids p b)
  remove_order-IsIndexed p b h =
      weaken (any_fault (for_all _ (λ i. remove_order-Removed (index_write order_ids) p i b)))
        λ _ d r i q e. remove-IsEntry b d p i q h (r q) e

  file-IsEntry :
      (b d : MarketBook) (p i q : ℕ)
      → IsIndexed b
      → (b.order_pool.store p).is_free ≡ false
      → Filed (index_write order_ids) p q b d
      → d.order_index i ≡ some q
      → IsEntry d i q
  unfolding index_write
  file-IsEntry b d p i q h u r e = ground (arith, h i q, r.index)

  add_order-IsIndexed :
      (p : ℕ) (b : MarketBook)
      → IsIndexed b
      → (b.order_pool.store p).is_free ≡ false
      → Outcome AnyFault (λ _ d. IsIndexed d) (add_order order_ids p b)
  add_order-IsIndexed p b h u =
      weaken (for_all _ (λ i. add_order-Filed (index_write order_ids) p i b))
        λ _ d r i q e. file-IsEntry b d p i q h u (r q) e

  allocate-IsIndexed :
      (b : MarketBook) (x : MarketOrder)
      → IsIndexed b
      → Outcome AnyFault
          (λ p d. IsIndexed d × ((d.order_pool.store p).is_free ≡ false))
          (on_orders (allocate x) b)
  allocate-IsIndexed b x h =
      go (allocate x b.order_pool) (holds (allocate-Allocates b.order_pool x))
    where
      go :
          (r : Result (ℕ × MemPool MarketOrder))
          → Holds AnyFault (Allocates b.order_pool x) r
          → Outcome AnyFault
              (λ p d. IsIndexed d × ((d.order_pool.store p).is_free ≡ false))
              (elim r [ ok (a, pool) ↦ ok (a, record b { order_pool = pool }) | err e ↦ err e ])
      go (ok (i, pool)) a =
          returns ((λ o q e. ground (arith, h o q, a.block, a.store)), ground (arith, a.store))
      go (err e) a = stops tt

  add_update-IsIndexed :
      (u : MeMarketUpdate) (b : MarketBook)
      → IsIndexed b
      → Outcome AnyFault (λ _ d. IsIndexed d) (add_update order_ids u b)
  unfolding add_update
  add_update-IsIndexed u b h =
      bind (allocate-IsIndexed b _ h) λ p d (k, used). add_order-IsIndexed p d k used

  find_order-same :
      (i : ℕ) (b : MarketBook) → Outcome AnyFault (λ _ d. d ≡ b) (find_order order_ids i b)
  unfolding find_order
  find_order-same i b = outcome _ (ground arith)

  modify_update-IsIndexed :
      (u : MeMarketUpdate) (b : MarketBook)
      → IsIndexed b
      → Outcome AnyFault (λ _ d. IsIndexed d) (modify_update order_ids u b)
  unfolding modify_update
  modify_update-IsIndexed u b h =
      bind (find_order-same u.order_id b)
        λ p d same. rw same (returns (λ i q e. ground (arith, h i q)))

  cancel_update-IsIndexed :
      (u : MeMarketUpdate) (b : MarketBook)
      → IsIndexed b
      → Outcome AnyFault (λ _ d. IsIndexed d) (cancel_update order_ids u b)
  unfolding cancel_update
  cancel_update-IsIndexed u b h =
      bind (find_order-same u.order_id b) λ p d same. rw same (remove_order-IsIndexed p b h)

  -- Whatever the update, the map keeps leading to orders in use that bear the entry's id.
  apply_update-IsIndexed :
      (u : MeMarketUpdate) (type : MarketUpdateType) (b : MarketBook)
      → IsIndexed b
      → Outcome AnyFault (λ _ d. IsIndexed d) (apply_update order_ids u type b)
  unfolding apply_update
  apply_update-IsIndexed u MarketUpdateType.add b h = add_update-IsIndexed u b h
  apply_update-IsIndexed u MarketUpdateType.modify b h = modify_update-IsIndexed u b h
  apply_update-IsIndexed u MarketUpdateType.cancel b h = cancel_update-IsIndexed u b h
  apply_update-IsIndexed u MarketUpdateType.clear b h =
      weaken (clear-Emptied order_ids b) λ _ d c i p e. absurd (ground (arith, c.index i))
  apply_update-IsIndexed u MarketUpdateType.trade b h = returns h
  apply_update-IsIndexed u MarketUpdateType.snapshot_start b h = returns h
  apply_update-IsIndexed u MarketUpdateType.snapshot_end b h = returns h
  apply_update-IsIndexed u MarketUpdateType.invalid b h = returns h

  on_book-IsIndexed :
      (c : Cmd MarketBook (Unit {0})) (s : MarketOrderBook)
      → Outcome AnyFault (λ _ d. IsIndexed d) (c s.book)
      → Outcome AnyFault (λ _ t. IsIndexed t.book × (t.bbo ≡ s.bbo)) (on_book c s)
  on_book-IsIndexed c s o = go (c s.book) (holds o)
    where
      go :
          (r : Result (Unit {0} × MarketBook))
          → Holds AnyFault (λ _ d. IsIndexed d) r
          → Outcome AnyFault
              (λ _ t. IsIndexed t.book × (t.bbo ≡ s.bbo))
              (elim r [ ok (a, b) ↦ ok (a, record s { book = b }) | err e ↦ err e ])
      go (ok (a, b)) k = returns (k, refl)
      go (err e) k = stops tt

  -- The best bid and offer are all that updateBBO() writes.
  update_bbo-same :
      (bid ask : Bool) (s : MarketOrderBook)
      → Outcome AnyFault (λ _ t. t.book ≡ s.book) (update_bbo bid ask s)
  unfolding update_bbo update_bid update_ask
  update_bbo-same bid ask s = outcome _ (ground arith)

  -- Every market update that meets no fault keeps each entry of the map from order ids leading to an order in use that
  -- bears the entry's id.
  pub on_market_update-IsIndexed :
      (u : MeMarketUpdate) (s : MarketOrderBook)
      → IsIndexed s.book
      → Outcome AnyFault (λ _ t. IsIndexed t.book) (on_market_update order_ids u s)
  unfolding on_market_update
  on_market_update-IsIndexed u s h = elim (Bool-cases (is_trade u.type)) [
    | inl trade ↦ rw trade (returns h)
    | inr other ↦ rw other (
        bind
          (on_book-IsIndexed (apply_update order_ids u u.type) s
            (apply_update-IsIndexed u u.type s.book h))
          λ _ t (k, same).
            bind (update_bbo-same (touches_bid u s.book) (touches_ask u s.book) t)
              λ _ v e. returns (rw e k))
  ]

  touches-none :
      (u : MeMarketUpdate) (b : MarketBook)
      → best_of u.side b ≡ none
      → (touches_bid u b ≡ false) × (touches_ask u b ≡ false)
  touches-none u b e = (ground arith, ground arith)

  -- An update of a side that has no level, such as the ADD of its first order, leaves the best bid
  -- and offer as they were, unless it meets a fault.
  pub on_market_update-stale :
      (u : MeMarketUpdate) (s : MarketOrderBook)
      → IsIndexed s.book
      → best_of u.side s.book ≡ none
      → Outcome AnyFault (λ _ t. t.bbo ≡ s.bbo) (on_market_update order_ids u s)
  unfolding on_market_update update_bbo
  on_market_update-stale u s h e = elim (Bool-cases (is_trade u.type)) [
    | inl trade ↦ rw trade (returns refl)
    | inr other ↦
        rw (other, (touches-none u s.book e).0, (touches-none u s.book e).1)
          (bind
            (on_book-IsIndexed (apply_update order_ids u u.type) s
              (apply_update-IsIndexed u u.type s.book h))
            λ _ t (k, same). returns same)
  ]
