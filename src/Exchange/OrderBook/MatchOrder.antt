-- ===== src/Exchange/OrderBook/MatchOrder.antt =====
-- exchange/matcher/me_order_book.cpp, match(): what one execution sends and changes.
use zquant_system.Prelude.{
  ℕ, ◌+◌, ◌-◌, min, ◌≡◌, refl, ◌⊎◌, inl, inr, List, [], ◌∷◌, ◌++◌, arith, ◌==◌, Bool-cases,
  if◌then◌else◌,
}
use zquant_system.Common.Types.{
  TickerId, ClientId, OrderId, Qty, Side, order_id_invalid, priority_invalid,
}
use zquant_system.Common.Fault.{Outcome, returns, IsFault, bind, for_all}
use zquant_system.Common.MemPool.Usage.{used, used-eq, used-freed}
use zquant_system.Messages.{MeClientResponse, MeMarketUpdate, MarketUpdateType}
use zquant_system.Book.{Book, order_at, write_order}
use zquant_system.Book.Orders.{remove_order}
use zquant_system.Book.Keeps.{Removed, remove_order-Removed}
use zquant_system.Exchange.OrderBook.Frame.{on_book-OnBook, append_twice}
use zquant_system.Exchange.OrderBook.{
  MeOrder, MeOrderKey, ClientOrderHashMap, MeOrderBook, index_write, aggressor_fill, passive_fill,
  order_update, match_order, send_client_response, send_market_update,
}

-- One execution: the passive order before it, the quantity, and what is left of the new order.
pub record Fill : Type 0 where
  pub passive : MeOrder
  pub qty : Qty
  pub leaves : Qty

-- What is left of the passive order.
abbrev pub rest_of : Fill → Qty
rest_of f = f.passive.qty - f.qty

-- The two responses and the two updates that an execution sends.
abbrev pub fill_responses :
    TickerId → ClientId → Side → OrderId → OrderId → Fill → List MeClientResponse
fill_responses ticker_id client_id side client_order_id market_order_id f =
    aggressor_fill ticker_id client_id side client_order_id market_order_id f.passive f.qty f.leaves
    ∷ passive_fill ticker_id f.passive f.qty (rest_of f)
    ∷ []

abbrev pub fill_updates : TickerId → Side → Fill → List MeMarketUpdate
fill_updates ticker_id side f =
    order_update MarketUpdateType.trade order_id_invalid ticker_id side f.passive.price f.qty
      priority_invalid
    ∷ (if rest_of f == 0
        then order_update MarketUpdateType.cancel f.passive.key.market_order_id ticker_id
            f.passive.side f.passive.price f.passive.qty priority_invalid
        else order_update MarketUpdateType.modify f.passive.key.market_order_id ticker_id
            f.passive.side f.passive.price (rest_of f) f.passive.priority)
    ∷ []

abbrev pub in_use : MeOrderBook → ℕ
in_use s = used s.book.order_pool.size s.book.order_pool.store

module _ (ticker_id : TickerId) (client_id : ClientId) (side : Side)
    (client_order_id market_order_id : OrderId) where
  -- What match() does to the messages, the pool and the quantity.
  pub record Matched (s : MeOrderBook) (itr : ℕ) (leaves : Qty) (left : Qty) (t : MeOrderBook)
      : Type 0 where
    pub responses :
        t.client_responses
        ≡ s.client_responses
          ++ fill_responses ticker_id client_id side client_order_id market_order_id (record {
            passive = order_at itr s.book;
            qty = min leaves (order_at itr s.book).qty;
            leaves = left;
          })
    pub updates :
        t.market_updates
        ≡ s.market_updates
          ++ fill_updates ticker_id side (record {
            passive = order_at itr s.book;
            qty = min leaves (order_at itr s.book).qty;
            leaves = left;
          })
    pub left_is : left ≡ leaves - min leaves (order_at itr s.book).qty
    pub next_id : t.next_market_order_id ≡ s.next_market_order_id
    pub size : t.book.order_pool.size ≡ s.book.order_pool.size
    pub progress : (left ≡ 0) ⊎ (in_use t + 1 ≡ in_use s)

  -- The passive order with the quantity that is left of it.
  abbrev reduced : ℕ → Qty → MeOrderBook → Book MeOrderKey ClientOrderHashMap
  reduced itr left s = write_order itr (λ o. record o { qty = left }) s.book

  dropped :
      (itr : ℕ) (left : Qty) (s : MeOrderBook) (c : Book MeOrderKey ClientOrderHashMap)
      → ((i : ℕ) → Removed index_write itr i (reduced itr left s) c)
      → (c.order_pool.size ≡ s.book.order_pool.size)
        × (used c.order_pool.size c.order_pool.store + 1 ≡ in_use s)
  dropped itr left s c r = ground (
    arith,
    r itr,
    used-freed s.book.order_pool.size itr (reduced itr left s).order_pool.store c.order_pool.store
        (r itr).in_range (r itr).was_used (λ i. (r i).used),
    used-eq s.book.order_pool.size s.book.order_pool.store (reduced itr left s).order_pool.store
        (λ i. ground arith),
  )

  pub match_order-Matched :
      (itr : ℕ) (leaves : Qty) (s : MeOrderBook)
      → Outcome IsFault
          (Matched s itr leaves)
          (match_order ticker_id client_id side client_order_id market_order_id itr leaves s)
  unfolding match_order send_client_response send_market_update
  match_order-Matched itr leaves s = elim (Bool-cases (rest == 0)) [
    | inl e ↦
        rw (e, match_order)
          (bind
            (on_book-OnBook (remove_order index_write itr) _
              (for_all _ (λ i. remove_order-Removed index_write itr i (reduced itr rest s))))
            (λ _ t (c, same, r). returns (
              rw same (record {
                responses = append_twice s.client_responses _ _;
                updates = rw e (append_twice s.market_updates _ _);
                left_is = refl;
                next_id = refl;
                size = (dropped itr rest s c r).0;
                progress = inr (dropped itr rest s c r).1;
              }))))
    | inr e ↦
        rw (e, match_order)
          (returns (record {
            responses = append_twice s.client_responses _ _;
            updates = rw e (append_twice s.market_updates _ _);
            left_is = refl;
            next_id = refl;
            size = refl;
            progress = inl (ground arith);
          }))
  ]
    where
      rest : Qty
      rest = (order_at itr s.book).qty - min leaves (order_at itr s.book).qty
