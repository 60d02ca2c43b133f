-- ===== src/Exchange/MatchingEngine/Books.antt =====
-- What the requests to the engine keep: the books' maps of orders, and the books of other tickers.
use zquant_system.Prelude.{
  ◌≡◌, ◌≢◌, refl, ◌∙◌, inl, inr, List, [], ◌∷◌, update, update_ne, ltb, Bool-cases, ◌==◌, All,
}
use zquant_system.Common.Types.{TickerId, me_max_tickers}
use zquant_system.Common.Fault.{
  Result, ok, err, Cmd, Outcome, returns, stops, holds, Holds, AnyFault, bind, weaken,
}
use zquant_system.Messages.{MeClientRequest, ClientRequestType}
use zquant_system.Exchange.OrderBook.{MeOrderBook, add, cancel}
use zquant_system.Exchange.OrderBook.Index.{IsIndexed}
use zquant_system.Exchange.OrderBook.IndexKept.{add-IsIndexed, cancel-IsIndexed}
use zquant_system.Exchange.MatchingEngine.{
  MatchingEngine, lent, returned_book, on_order_book, dispatch, process_client_request, run_engine,
}

abbrev pub AllIndexed : MatchingEngine → Type 0
AllIndexed e = (t : TickerId) → IsIndexed (e.ticker_order_book t).book

-- The books but one are as they were, and all maps lead to their orders.
pub record Served (ticker_id : TickerId) (e d : MatchingEngine) : Type 0 where
  pub indexed : AllIndexed d
  pub others : (t : TickerId) → ticker_id ≢ t → d.ticker_order_book t ≡ e.ticker_order_book t

indexed_after :
    (ticker_id : TickerId) (e : MatchingEngine) (b : MeOrderBook)
    → AllIndexed e
    → IsIndexed b.book
    → (t : TickerId) → IsIndexed (update e.ticker_order_book ticker_id b t).book
indexed_after ticker_id e b h k t = elim (Bool-cases (ticker_id == t)) [
  | inl same ↦ rw same k
  | inr other ↦ rw other (h t)
]

replaced :
    (ticker_id : TickerId) (e : MatchingEngine) (b : MeOrderBook)
    → AllIndexed e
    → IsIndexed b.book
    → Served ticker_id e (returned_book ticker_id e b)
replaced ticker_id e b h k = record {
  indexed = indexed_after ticker_id e b h k;
  others = λ t ne. update_ne e.ticker_order_book ticker_id t b ne;
}

on_order_book-Served :
    (ticker_id : TickerId) (c : Cmd MeOrderBook (Unit {0})) (e : MatchingEngine)
    → AllIndexed e
    → Outcome AnyFault (λ _ b. IsIndexed b.book) (c (lent ticker_id e))
    → Outcome AnyFault (λ _ d. Served ticker_id e d) (on_order_book ticker_id c e)
on_order_book-Served ticker_id c e h o = go (c (lent ticker_id e)) (holds o)
  where
    go :
        (r : Result (Unit {0} × MeOrderBook))
        → Holds AnyFault (λ _ b. IsIndexed b.book) r
        → Outcome AnyFault
            (λ _ d. Served ticker_id e d)
            (elim r [ ok (a, b) ↦ ok (a, returned_book ticker_id e b) | err f ↦ err f ])
    go (ok (a, b)) k = returns (replaced ticker_id e b h k)
    go (err f) k = stops tt

dispatch-Served :
    (r : MeClientRequest) (type : ClientRequestType) (e : MatchingEngine)
    → AllIndexed e
    → Outcome AnyFault (λ _ d. Served r.ticker_id e d) (dispatch r type e)
unfolding dispatch
dispatch-Served r ClientRequestType.new e h =
    on_order_book-Served r.ticker_id (add r.client_id r.order_id r.ticker_id r.side r.price r.qty) e
      h
      (add-IsIndexed r.client_id r.order_id r.ticker_id r.side r.price r.qty (lent r.ticker_id e)
        (h r.ticker_id))
dispatch-Served r ClientRequestType.cancel e h =
    on_order_book-Served r.ticker_id (cancel r.client_id r.order_id r.ticker_id) e h
      (cancel-IsIndexed r.client_id r.order_id r.ticker_id (lent r.ticker_id e) (h r.ticker_id))
dispatch-Served r ClientRequestType.invalid e h = stops tt

-- A request leaves the books of the other tickers as they are, and every book's map from client and
-- order id leading to orders in use that bear these ids.
pub process_client_request-Served :
    (r : MeClientRequest) (e : MatchingEngine)
    → AllIndexed e
    → Outcome AnyFault (λ _ d. Served r.ticker_id e d) (process_client_request r e)
unfolding process_client_request
process_client_request-Served r e h = elim (Bool-cases (ltb r.ticker_id me_max_tickers)) [
  | inl inside ↦ rw inside (dispatch-Served r r.type e h)
  | inr outside ↦ rw outside (stops tt)
]

-- Unless it meets a fault, a run of any requests leaves the book of a ticker that none of them names as it is, and every
-- book's map leading to orders in use that bear the entry's ids.
pub run_engine-Served :
    (rs : List MeClientRequest) (e : MatchingEngine) (t : TickerId)
    → AllIndexed e
    → All (λ r. MeClientRequest.ticker_id r ≢ t) rs
    → Outcome AnyFault
        (λ _ d. AllIndexed d × (d.ticker_order_book t ≡ e.ticker_order_book t))
        (run_engine rs e)
unfolding run_engine
run_engine-Served [] e t h others = returns (h, refl)
run_engine-Served (r ∷ rs) e t h (other, others) =
    bind (process_client_request-Served r e h) λ _ d served.
      weaken (run_engine-Served rs d t served.indexed others)
        λ _ f (k, same). (k, same ∙ served.others t other)
