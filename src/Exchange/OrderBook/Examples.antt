-- ===== src/Exchange/OrderBook/Examples.antt =====
-- Runs of the exchange's order book on a small pool, and the theorems about it at these.
use zquant_system.Prelude.{ℕ, ◌≡◌, refl, true, none, some, [], ◌∷◌, arith, map}
use zquant_system.Prelude.Int.{pos}
use zquant_system.Common.Types.{Side, ClientId, OrderId, Price, Qty}
use zquant_system.Common.Fault.{
  Result, ok, err, out_of_range, Cmd, Outcome, returned, AnyFault, IsFault,
}
use zquant_system.Common.MemPool.{
  MemPool, allocate, deallocate, find_free, update_next_free_index, next_index,
}
use zquant_system.Messages.{MeClientResponse}
use zquant_system.Book.{OrdersAtPrice, price_to_index}
use zquant_system.Book.Levels.{
  walk, find_target, link_at, link_after, link_before, splice_before, take_over,
  add_orders_at_price, remove_orders_at_price, unlink_level, get_next_priority,
}
use zquant_system.Book.Orders.{
  set_index, unlink_order, remove_order, add_first_order, append_order, add_order,
}
use zquant_system.Exchange.OrderBook.{
  MeOrderKey, MeOrder, MeOrderBook, index_write, send_client_response, send_market_update,
  generate_new_market_order_id, match_order, match_loop, check_for_match, rest_order, add,
  find_order, cancel_order, cancel,
}
use zquant_system.Exchange.OrderBook.Index.{IsIndexed}
use zquant_system.Exchange.OrderBook.IndexKept.{add-IsIndexed, cancel-IsIndexed}
use zquant_system.Exchange.OrderBook.Cancel.{
  rejected, cancel_crashes, Canceled, cancel-Canceled, cancel_twice,
}
use zquant_system.Exchange.OrderBook.Cancel.Answer.{Answered, cancel-Answered}

abbrev no_key : MeOrderKey
no_key = record { ticker_id = 0; client_id = 0; client_order_id = 0; market_order_id = 0 }

abbrev no_order : MeOrder
no_order = record {
  key = no_key;
  side = Side.invalid;
  price = pos 0;
  qty = 0;
  priority = 0;
  prev_order = none;
  next_order = none;
}

abbrev no_level : OrdersAtPrice
no_level = record {
  side = Side.invalid;
  price = pos 0;
  first_order = none;
  prev_entry = none;
  next_entry = none;
}

abbrev empty_pool : {T : Type 0} → T → ℕ → MemPool T
empty_pool x n = record {
  store = λ i. record { object = x; is_free = true };
  size = n;
  next_free_index = 0;
}

abbrev empty_book : MeOrderBook
empty_book = record {
  ticker_id = 0;
  book = record {
    orders_at_price_pool = empty_pool no_level 8;
    order_pool = empty_pool no_order 8;
    bids_by_price = none;
    asks_by_price = none;
    price_orders_at_price = λ i. none;
    order_index = λ c o. none;
  };
  next_market_order_id = 1;
  client_responses = [];
  market_updates = [];
}

state_of : {A S : Type 0} → S → Result (A × S) → S
state_of s (ok (a, t)) = t
state_of s (err e) = s

-- Everything that a run computes with.
running : ℕ
unfolding add cancel generate_new_market_order_id send_client_response send_market_update
    check_for_match match_loop match_order rest_order cancel_order find_order index_write
    get_next_priority allocate deallocate update_next_free_index find_free next_index add_order
    add_first_order append_order set_index unlink_order remove_order add_orders_at_price
    remove_orders_at_price unlink_level link_at link_after link_before splice_before take_over
    find_target walk price_to_index state_of
running = 0

-- Client 1 offers 5 at 100 as its order 7, then 4 at 99 as its order 8.
offer_at : OrderId → Price → Qty → Cmd MeOrderBook (Unit {0})
offer_at id price qty = add 1 id 0 Side.sell price qty

one_offer : MeOrderBook
unfolding running offer_at
one_offer = state_of empty_book (offer_at 7 (pos 100) 5 empty_book)

two_offers : MeOrderBook
unfolding running offer_at one_offer
two_offers = state_of empty_book (offer_at 8 (pos 99) 4 one_offer)

summary : MeClientResponse → ClientId × OrderId × Qty × Qty
summary r = (r.client_id, r.client_order_id, r.exec_qty, r.leaves_qty)

-- A buy of 6 at 100 takes the 4 at 99 first, then 2 at 100.
fills_of_buy :
    map summary (state_of two_offers (add 2 1 0 Side.buy (pos 100) 6 two_offers)).client_responses
    ≡ (1, 7, 0, 5)
      ∷ (1, 8, 0, 4)
      ∷ (2, 1, 0, 6)
      ∷ (2, 1, 4, 2)
      ∷ (1, 8, 4, 0)
      ∷ (2, 1, 2, 0)
      ∷ (1, 7, 2, 3)
      ∷ []
unfolding running two_offers summary
fills_of_buy = refl

empty-IsIndexed : IsIndexed empty_book.book
empty-IsIndexed c o p e = cc

one_offer-returns : offer_at 7 (pos 100) 5 empty_book ≡ ok (tt, one_offer)
unfolding running offer_at one_offer
one_offer-returns = refl

one_offer-IsIndexed : IsIndexed one_offer.book
unfolding offer_at
one_offer-IsIndexed =
    returned (add-IsIndexed 1 7 0 Side.sell (pos 100) 5 empty_book empty-IsIndexed)
      one_offer-returns

known : one_offer.book.order_index 1 7 ≡ some 0
unfolding running one_offer offer_at
known = refl

add-IsIndexed_example :
    Outcome AnyFault (λ _ t. IsIndexed t.book) (add 2 1 0 Side.buy (pos 100) 6 one_offer)
add-IsIndexed_example = add-IsIndexed 2 1 0 Side.buy (pos 100) 6 one_offer one_offer-IsIndexed

cancel-IsIndexed_example : Outcome AnyFault (λ _ t. IsIndexed t.book) (cancel 1 7 0 one_offer)
cancel-IsIndexed_example = cancel-IsIndexed 1 7 0 one_offer one_offer-IsIndexed

cancel-Answered_example :
    Outcome IsFault (λ _ t. Answered 1 7 0 one_offer t) (cancel 1 7 0 one_offer)
cancel-Answered_example = cancel-Answered 1 7 0 one_offer one_offer-IsIndexed

cancel_crashes_example : cancel 1 2000000 0 one_offer ≡ err out_of_range
cancel_crashes_example = cancel_crashes 1 2000000 0 one_offer (omega arith) (omega arith)

cancel-Canceled_example :
    Outcome IsFault
      (λ _ t. Canceled 1 7 0 one_offer 0 one_offer-IsIndexed known t)
      (cancel 1 7 0 one_offer)
cancel-Canceled_example = cancel-Canceled 1 7 0 one_offer 0 one_offer-IsIndexed known

canceled : MeOrderBook
unfolding running one_offer offer_at
canceled = state_of one_offer (cancel 1 7 0 one_offer)

canceled-returns : cancel 1 7 0 one_offer ≡ ok (tt, canceled)
unfolding running canceled
canceled-returns = refl

cancel_twice_example : cancel 1 7 0 canceled ≡ ok (tt, rejected 1 7 0 canceled)
cancel_twice_example =
    cancel_twice 1 7 0 0 one_offer canceled 0 one_offer-IsIndexed known canceled-returns
