-- ===== src/Exchange/OrderBook/Cancel.antt =====
-- exchange/matcher/me_order_book.cpp, cancel(): each branch, and a second cancel.
pub mod Answer
use zquant_system.Prelude.{ℕ, ◌≤◌, ◌<◌, ◌≡◌, refl, ◌⊎◌, inr, true, none, some, [], ◌∷◌, ◌++◌, arith}
use zquant_system.Common.Types.{
  TickerId, ClientId, OrderId, Side, order_id_invalid, price_invalid, qty_invalid,
  me_max_num_clients, me_max_order_ids,
}
use zquant_system.Common.Fault.{ok, err, out_of_range, Outcome, IsFault, returns, returned, bind}
use zquant_system.Messages.{MarketUpdateType, ClientResponseType}
use zquant_system.Book.{Book, order_at}
use zquant_system.Book.Orders.{remove_order}
use zquant_system.Book.Keeps.{Removed, remove_order-Removed}
use zquant_system.Exchange.OrderBook.{
  MeOrderKey, ClientOrderHashMap, MeOrderBook, index_write, order_update, find_order, cancel_order,
  cancel, canceled_response, send_client_response, send_market_update,
}
use zquant_system.Exchange.OrderBook.Frame.{on_book-OnBook}
use zquant_system.Exchange.OrderBook.Index.{IsIndexed, IsEntry}

-- The book with the response CANCEL_REJECTED, which names the client, the ticker and the order id of
-- the request and no order.
abbrev pub rejected : ClientId → OrderId → TickerId → MeOrderBook → MeOrderBook
rejected client_id order_id ticker_id s = record s {
  client_responses =
      s.client_responses
      ++ record {
        type = ClientResponseType.cancel_rejected;
        client_id = client_id;
        ticker_id = ticker_id;
        client_order_id = order_id;
        market_order_id = order_id_invalid;
        side = Side.invalid;
        price = price_invalid;
        exec_qty = qty_invalid;
        leaves_qty = qty_invalid;
      }
        ∷ [];
}

module _ (client_id : ClientId) (order_id : OrderId) (ticker_id : TickerId) (s : MeOrderBook) where
  -- A cancel from a client out of range, or for an order that the map does not have, sends the
  -- one response CANCEL_REJECTED and changes nothing else.
  pub cancel_unknown :
      (me_max_num_clients ≤ client_id)
        ⊎ ((client_id < me_max_num_clients)
            × (order_id < me_max_order_ids)
            × (s.book.order_index client_id order_id ≡ none))
      → cancel client_id order_id ticker_id s ≡ ok (tt, rejected client_id order_id ticker_id s)
  unfolding cancel find_order cancel_order send_client_response
  cancel_unknown h = ground arith

  -- An order id that is out of the map's range ends the program: `.at()` throws in a `noexcept`
  -- function.
  pub cancel_crashes :
      client_id < me_max_num_clients
      → me_max_order_ids ≤ order_id
      → cancel client_id order_id ticker_id s ≡ err out_of_range
  unfolding cancel find_order
  cancel_crashes h k = ground arith

  module _ (p : ℕ) (indexed : IsIndexed s.book)
      (known : s.book.order_index client_id order_id ≡ some p) where
    -- What the cancel of a known order sends and clears.
    pub record Canceled (t : MeOrderBook) : Type 0 where
      pub responses :
          t.client_responses
          ≡ s.client_responses
            ++ canceled_response client_id ticker_id order_id (order_at p s.book) ∷ []
      pub updates :
          t.market_updates
          ≡ s.market_updates
            ++ order_update MarketUpdateType.cancel
                (order_at p s.book).key.market_order_id
                ticker_id
                (order_at p s.book).side
                (order_at p s.book).price
                0
                (order_at p s.book).priority
              ∷ []
      pub gone : t.book.order_index client_id order_id ≡ none
      pub freed : (t.book.order_pool.store p).is_free ≡ true

    pub found : find_order client_id order_id s ≡ ok (some p, s)
    unfolding find_order
    found = ground (arith, indexed client_id order_id p known)

    cleared :
        (b : Book MeOrderKey ClientOrderHashMap)
        → Removed index_write p p s.book b
        → (b.order_index client_id order_id ≡ none) × ((b.order_pool.store p).is_free ≡ true)
    unfolding index_write
    cleared b r = ground (arith, indexed client_id order_id p known, r.index)

    -- Where every entry of the map leads to an order that bears its ids, the cancel of a known
    -- order that meets no fault sends CANCELED with the order's market id, side, price and open
    -- quantity and one CANCEL update, clears the entry and frees the order's block.
    pub cancel-Canceled :
        Outcome IsFault (λ _ t. Canceled t) (cancel client_id order_id ticker_id s)
    unfolding cancel cancel_order send_client_response send_market_update
    cancel-Canceled = rw found (
        bind
          (on_book-OnBook (remove_order index_write p) s
            (remove_order-Removed index_write p p s.book))
          (λ _ t (b, same, r). returns (
            rw same (record {
              responses = refl;
              updates = refl;
              gone = (cleared b r).0;
              freed = (cleared b r).1;
            }))))

-- After a cancel of a known order that returns, a second cancel of it is rejected, and changes
-- nothing but the responses.
pub cancel_twice :
    (client_id : ClientId) (order_id : OrderId) (ticker_id later : TickerId) (s t : MeOrderBook)
    (p : ℕ)
    → IsIndexed s.book
    → s.book.order_index client_id order_id ≡ some p
    → cancel client_id order_id ticker_id s ≡ ok (tt, t)
    → cancel client_id order_id later t ≡ ok (tt, rejected client_id order_id later t)
cancel_twice client_id order_id ticker_id later s t p indexed known done =
    cancel_unknown client_id order_id later t
      (inr (entry.client_in_range, entry.order_in_range, (returned first done).gone))
  where
    entry : IsEntry s.book client_id order_id p
    entry = indexed client_id order_id p known

    first :
        Outcome IsFault
          (λ _ u. Canceled client_id order_id ticker_id s p indexed known u)
          (cancel client_id order_id ticker_id s)
    first = cancel-Canceled client_id order_id ticker_id s p indexed known
