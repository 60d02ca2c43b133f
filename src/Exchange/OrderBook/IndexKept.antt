-- ===== src/Exchange/OrderBook/IndexKept.antt =====
-- exchange/matcher/me_order_book.cpp, add() and cancel() on the map of the orders.
use zquant_system.Prelude.{
  ℕ, zero, suc, ◌-◌, min, ◌≡◌, inl, inr, Bool, none, some, arith, ◌==◌, Bool-cases, Option-cases,
}
use zquant_system.Common.Types.{TickerId, ClientId, OrderId, Price, Qty, Side}
use zquant_system.Common.Fault.{Outcome, returns, stops, outcome, AnyFault, bind}
use zquant_system.Common.MemPool.{allocate}
use zquant_system.Book.{Ptr, Book, order_at, level_at, write_order, on_orders}
use zquant_system.Book.Levels.{get_next_priority}
use zquant_system.Book.Orders.{remove_order, add_order}
use zquant_system.Exchange.OrderBook.{
  MeOrder, MeOrderKey, ClientOrderHashMap, MeOrderBook, index_write, match_order, match_loop,
  check_for_match, rest_order, add, find_order, cancel_order, cancel, send_client_response,
  send_market_update, generate_new_market_order_id,
}
use zquant_system.Exchange.OrderBook.Frame.{on_book-OnBook}
use zquant_system.Exchange.OrderBook.Index.{
  IsIndexed, remove_order-IsIndexed, add_order-IsIndexed, allocate-IsIndexed,
}

abbrev Kept : {A : Type 0} → A → MeOrderBook → Type 0
Kept a t = IsIndexed t.book

reduced-IsIndexed :
    (itr : ℕ) (left : Qty) (b : Book MeOrderKey ClientOrderHashMap)
    → IsIndexed b
    → IsIndexed (write_order itr (λ o. record o { qty = left }) b)
reduced-IsIndexed itr left b h c o p e = ground (arith, h c o p)

match_order-Kept :
    (ticker_id : TickerId) (client_id : ClientId) (side : Side) (coid moid : OrderId) (itr : ℕ)
    (leaves : Qty) (s : MeOrderBook)
    → IsIndexed s.book
    → Outcome AnyFault Kept (match_order ticker_id client_id side coid moid itr leaves s)
unfolding match_order send_client_response send_market_update
match_order-Kept ticker_id client_id side coid moid itr leaves s h =
    elim (Bool-cases ((order.qty - min leaves order.qty) == 0)) [
      | inl e ↦
          rw (e, match_order)
            (bind
              (on_book-OnBook (remove_order index_write itr) _
                (remove_order-IsIndexed itr _ (reduced-IsIndexed itr _ s.book h)))
              (λ a t (b, same, k). returns (rw same k)))
      | inr e ↦ rw (e, match_order) (returns (reduced-IsIndexed itr _ s.book h))
    ]
  where
    order : MeOrder
    order = order_at itr s.book

match_loop-Kept :
    (fuel : ℕ) (ticker_id : TickerId) (client_id : ClientId) (side : Side) (coid moid : OrderId)
    (queue : Book MeOrderKey ClientOrderHashMap → Ptr) (stops_at : Price → Bool) (leaves : Qty)
    (s : MeOrderBook)
    → IsIndexed s.book
    → Outcome AnyFault Kept
        (match_loop fuel ticker_id client_id side coid moid queue stops_at leaves s)
unfolding match_loop
match_loop-Kept zero ticker_id client_id side coid moid queue stops_at leaves s h = stops tt
match_loop-Kept (suc fuel) ticker_id client_id side coid moid queue stops_at leaves s h =
    elim (Bool-cases (leaves == 0)) [
      | inl e ↦ rw (e, match_loop) (returns h)
      | inr more ↦ elim (Option-cases (queue s.book)) [
        | inl e ↦ rw (more, e, match_loop) (returns h)
        | inr (level, e) ↦ elim (Option-cases (level_at level s.book).first_order) [
          | inl n ↦ rw (more, e, n, match_loop) (stops tt)
          | inr (p, first) ↦ elim (Bool-cases (stops_at (order_at p s.book).price)) [
            | inl dear ↦ rw (more, e, first, dear, match_loop) (returns h)
            | inr fits ↦
                rw (more, e, first, fits, match_loop)
                  (bind (match_order-Kept ticker_id client_id side coid moid p leaves s h)
                    (λ mid t k.
                      match_loop-Kept fuel ticker_id client_id side coid moid queue stops_at mid t
                        k))
          ]
        ]
      ]
    ]

check_for_match-Kept :
    (client_id : ClientId) (coid : OrderId) (ticker_id : TickerId) (side : Side) (price : Price)
    (qty : Qty) (moid : OrderId) (s : MeOrderBook)
    → IsIndexed s.book
    → Outcome AnyFault Kept (check_for_match client_id coid ticker_id side price qty moid s)
unfolding check_for_match
check_for_match-Kept client_id coid ticker_id Side.buy price qty moid s h =
    bind (match_loop-Kept _ ticker_id client_id Side.buy coid _ _ _ qty s h) λ left t k. returns k
check_for_match-Kept client_id coid ticker_id Side.sell price qty moid s h =
    match_loop-Kept _ ticker_id client_id Side.sell coid _ _ _ qty s h
check_for_match-Kept client_id coid ticker_id Side.invalid price qty moid s h = returns h
check_for_match-Kept client_id coid ticker_id Side.max price qty moid s h = returns h

get_next_priority-same :
    (price : Price) (b : Book MeOrderKey ClientOrderHashMap)
    → Outcome AnyFault (λ _ d. d ≡ b) (get_next_priority price b)
unfolding get_next_priority
get_next_priority-same price b = outcome _ (ground arith)

rest_order-Kept :
    (client_id : ClientId) (coid : OrderId) (ticker_id : TickerId) (side : Side) (price : Price)
    (moid : OrderId) (leaves : Qty) (s : MeOrderBook)
    → IsIndexed s.book
    → Outcome AnyFault Kept (rest_order client_id coid ticker_id side price moid leaves s)
unfolding rest_order send_market_update
rest_order-Kept client_id coid ticker_id side price moid leaves s h =
    bind (on_book-OnBook (get_next_priority price) s (get_next_priority-same price s.book))
      λ priority t (b, same, e).
        bind
          (on_book-OnBook (on_orders (allocate _)) t (allocate-IsIndexed t.book _ (rw (same, e) h)))
          λ p u (c, same', (k, used)).
            bind
              (on_book-OnBook (add_order index_write p) u
                (add_order-IsIndexed p u.book (rw same' k) (rw same' used)))
              λ a v (d, same'', f). returns (rw same'' f)

-- Unless it meets a fault, add() keeps every entry of the map leading to an order in use that bears
-- the entry's ids.
pub add-IsIndexed :
    (client_id : ClientId) (coid : OrderId) (ticker_id : TickerId) (side : Side) (price : Price)
    (qty : Qty) (s : MeOrderBook)
    → IsIndexed s.book
    → Outcome AnyFault (λ _ t. IsIndexed t.book) (add client_id coid ticker_id side price qty s)
unfolding add generate_new_market_order_id send_client_response
add-IsIndexed client_id coid ticker_id side price qty s h =
    bind (check_for_match-Kept client_id coid ticker_id side price qty s.next_market_order_id _ h)
      λ left t k. elim (Bool-cases (left == 0)) [
        | inl e ↦ rw e (returns k)
        | inr e ↦ rw e (rest_order-Kept client_id coid ticker_id side price _ left t k)
      ]

find_order-same :
    (client_id : ClientId) (order_id : OrderId) (s : MeOrderBook)
    → Outcome AnyFault (λ _ t. t ≡ s) (find_order client_id order_id s)
unfolding find_order
find_order-same client_id order_id s = outcome _ (ground arith)

cancel_order-Kept :
    (client_id : ClientId) (order_id : OrderId) (ticker_id : TickerId) (p : Ptr) (s : MeOrderBook)
    → IsIndexed s.book
    → Outcome AnyFault Kept (cancel_order client_id order_id ticker_id p s)
unfolding cancel_order send_client_response send_market_update
cancel_order-Kept client_id order_id ticker_id none s h = returns h
cancel_order-Kept client_id order_id ticker_id (some p) s h =
    bind (on_book-OnBook (remove_order index_write p) s (remove_order-IsIndexed p s.book h))
      λ a t (b, same, k). returns (rw same k)

-- Unless it meets a fault, cancel() keeps every entry of the map leading to an order in use that bears
-- the entry's ids.
pub cancel-IsIndexed :
    (client_id : ClientId) (order_id : OrderId) (ticker_id : TickerId) (s : MeOrderBook)
    → IsIndexed s.book
    → Outcome AnyFault (λ _ t. IsIndexed t.book) (cancel client_id order_id ticker_id s)
unfolding cancel
cancel-IsIndexed client_id order_id ticker_id s h =
    bind (find_order-same client_id order_id s)
      λ p t same. cancel_order-Kept client_id order_id ticker_id p t (rw same h)
