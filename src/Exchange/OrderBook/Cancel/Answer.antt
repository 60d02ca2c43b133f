-- ===== src/Exchange/OrderBook/Cancel/Answer.antt =====
-- exchange/matcher/me_order_book.cpp, cancel(): the one response to every cancel, and what a cancel
-- does to the lists of orders that the book stands for.
use zquant_system.Prelude.{
  ℕ, ◌≡◌, refl, sym, subst, ◌⊎◌, inl, inr, true, none, some, [], ◌∷◌, ◌++◌, ltb, lt→ltb, ltb→lt,
  ◌<◌, update₂, Bool-cases, arith, if◌then◌else◌,
}
use zquant_system.Common.Types.{
  TickerId, ClientId, OrderId, Side, qty_invalid, me_max_num_clients, me_max_order_ids,
}
use zquant_system.Common.Fault.{ok, Outcome, IsFault, NoFault, returns, stops, bind, weaken}
use zquant_system.Messages.{MarketUpdateType, MeClientResponse, ClientResponseType}
use zquant_system.Book.{Ptr, order_at}
use zquant_system.Book.Orders.{remove_order}
use zquant_system.Book.Ring.{has}
use zquant_system.Book.Ladder.Sorted.{is_traded}
use zquant_system.Book.View.{View, Represents, orders}
use zquant_system.Book.View.Removal.{Gone}
use zquant_system.Book.View.RemoveOrder.{remove_order-erase}
use zquant_system.Exchange.OrderBook.{
  MeOrderBook, index_write, cancel_order, cancel, send_client_response, send_market_update,
}
use zquant_system.Exchange.OrderBook.Frame.{on_book-OnBook}
use zquant_system.Exchange.OrderBook.Index.{IsIndexed}
use zquant_system.Exchange.OrderBook.Cancel.{
  rejected, cancel_crashes, cancel_unknown, cancel-Canceled, found,
}

-- The order that the map has for a client and its order id.
abbrev pub entry_of : ClientId → OrderId → MeOrderBook → Ptr
entry_of client_id order_id s =
    if ltb client_id me_max_num_clients then s.book.order_index client_id order_id else none

module _ (client_id : ClientId) (order_id : OrderId) (ticker_id : TickerId) (s : MeOrderBook) where
  -- The answer to a cancel: its one response is to this client and names this order and ticker.
  pub record Answered (t : MeOrderBook) : Type 0 where
    pub response : MeClientResponse
    pub only : t.client_responses ≡ s.client_responses ++ response ∷ []
    pub client : response.client_id ≡ client_id
    pub order : response.client_order_id ≡ order_id
    pub ticker : response.ticker_id ≡ ticker_id
    pub outcome :
        ((p : ℕ) × (entry_of client_id order_id s ≡ some p)
          × (response.type ≡ ClientResponseType.canceled)
          × (t.book.order_index client_id order_id ≡ none)
          × ((t.book.order_pool.store p).is_free ≡ true))
        ⊎ ((entry_of client_id order_id s ≡ none)
            × (response.type ≡ ClientResponseType.cancel_rejected)
            × (t.book ≡ s.book)
            × (t.market_updates ≡ s.market_updates))

  none-Answered :
      entry_of client_id order_id s ≡ none
      → cancel client_id order_id ticker_id s ≡ ok (tt, rejected client_id order_id ticker_id s)
      → Outcome IsFault (λ _ t. Answered t) (cancel client_id order_id ticker_id s)
  none-Answered e f = subst (Outcome IsFault (λ _ t. Answered t)) (sym f) (
      returns (record {
        response = _;
        only = refl;
        client = refl;
        order = refl;
        ticker = refl;
        outcome = inr (e, refl, refl, refl);
      }))

  entry-Answered :
      (q : Ptr)
      → IsIndexed s.book
      → client_id < me_max_num_clients
      → order_id < me_max_order_ids
      → s.book.order_index client_id order_id ≡ q
      → Outcome IsFault (λ _ t. Answered t) (cancel client_id order_id ticker_id s)
  entry-Answered none indexed h k e =
      none-Answered (rw (lt→ltb client_id me_max_num_clients h) e)
        (cancel_unknown client_id order_id ticker_id s (inr (h, k, e)))
  entry-Answered (some p) indexed h k e =
      weaken (cancel-Canceled client_id order_id ticker_id s p indexed e) λ _ t c. record {
        response = _;
        only = c.responses;
        client = refl;
        order = refl;
        ticker = refl;
        outcome = inl (p, rw (lt→ltb client_id me_max_num_clients h) e, refl, c.gone, c.freed);
      }

  -- On a book whose map leads to orders that bear the entry's ids, every cancel that meets no fault
  -- is answered by one response, to the client of the request and with its order id and ticker:
  -- CANCELED if the map has the order, which then is neither in the map nor in use any more, and
  -- otherwise CANCEL_REJECTED, and then the book and the market updates stay as they were. No cancel
  -- runs out of fuel.
  pub cancel-Answered :
      IsIndexed s.book → Outcome IsFault (λ _ t. Answered t) (cancel client_id order_id ticker_id s)
  cancel-Answered indexed = elim (Bool-cases (ltb client_id me_max_num_clients)) [
    | inr e ↦
        none-Answered (rw e refl)
          (cancel_unknown client_id order_id ticker_id s (inl (ground arith)))
    | inl e ↦ elim (Bool-cases (ltb order_id me_max_order_ids)) [
      | inl f ↦
          entry-Answered (s.book.order_index client_id order_id) indexed (ltb→lt _ _ e)
            (ltb→lt _ _ f) refl
      | inr f ↦
          subst (Outcome IsFault (λ _ t. Answered t))
            (sym (cancel_crashes client_id order_id ticker_id s (ltb→lt _ _ e) (ground arith)))
            (stops (λ k. ground arith))
    ]
  ]

  module _ (p : ℕ) (indexed : IsIndexed s.book)
      (known : s.book.order_index client_id order_id ≡ some p) where
    -- What the cancel of the order `p` does to a book that stands for the lists of `v`.
    pub record Erased (v : View) (t : MeOrderBook) : Type 0 where
      pub book : Gone p (update₂ s.book.order_index client_id order_id none) s.book v t.book
      pub responses :
          t.client_responses
          ≡ s.client_responses
            ++ record {
              type = ClientResponseType.canceled;
              client_id = client_id;
              ticker_id = ticker_id;
              client_order_id = order_id;
              market_order_id = (order_at p s.book).key.market_order_id;
              side = (order_at p s.book).side;
              price = (order_at p s.book).price;
              exec_qty = qty_invalid;
              leaves_qty = (order_at p s.book).qty;
            }
              ∷ []
      pub updates :
          t.market_updates
          ≡ s.market_updates
            ++ record {
              type = MarketUpdateType.cancel;
              order_id = (order_at p s.book).key.market_order_id;
              ticker_id = ticker_id;
              side = (order_at p s.book).side;
              price = (order_at p s.book).price;
              qty = 0;
              priority = (order_at p s.book).priority;
            }
              ∷ []
      pub next_id : t.next_market_order_id ≡ s.next_market_order_id

    accepted :
        index_write (order_at p s.book).key none s.book.order_index
        ≡ some (update₂ s.book.order_index client_id order_id none)
    unfolding index_write
    accepted = ground (arith, indexed client_id order_id p known)

    -- On a book that stands for lists of orders and whose map leads to orders that bear the entry's
    -- ids, the cancel of an order that the map has and that is in the lists meets no fault. It takes
    -- just this order out of the lists, out of the map and out of use, and sends the one response
    -- CANCELED and the one market update CANCEL, with the order's market id, side, price, priority
    -- and open quantity.
    pub cancel-Erased :
        (v : View) (side : Side)
        → Represents s.book v
        → is_traded side ≡ true
        → has p (orders side v) ≡ true
        → Outcome NoFault (λ _ t. Erased v t) (cancel client_id order_id ticker_id s)
    unfolding cancel cancel_order send_client_response send_market_update
    cancel-Erased v side r t m = rw (found client_id order_id ticker_id s p indexed known) (
        bind
          (on_book-OnBook (remove_order index_write p) s (
            remove_order-erase index_write p (update₂ s.book.order_index client_id order_id none)
              s.book v side r t accepted m))
          (λ _ t (b, same, g).
            returns
              (rw same (record { book = g; responses = refl; updates = refl; next_id = refl }))))
