-- ===== src/Exchange/OrderBook/Sweep/Total.antt =====
-- exchange/matcher/me_order_book.cpp, checkForMatch() against the sweep of the other side's orders.
use zquant_system.Prelude.{
  ℕ, ◌%◌, ◌^◌, ◌≡◌, ◌≢◌, refl, true, false, List, [], ◌∷◌, ◌++◌, arith, concat_map,
}
use zquant_system.Prelude.Int.{ltb_ℤ}
use zquant_system.Common.Types.{TickerId, ClientId, OrderId, Price, Qty, Side}
use zquant_system.Common.Fault.{
  Result, Outcome, IsFault, NoFault, out_of_fuel, returns, stops, holds, bind,
}
use zquant_system.Book.{Book}
use zquant_system.Book.Ring.{has, IsDistinct, has-append}
use zquant_system.Book.Ladder.Sorted.{is_traded}
use zquant_system.Book.View.{View, Represents, ladder, orders}
use zquant_system.Book.View.Requeue.{apart}
use zquant_system.Book.View.Flatten.{has-concat_map_none}
use zquant_system.Exchange.OrderBook.{MeOrderBook, check_for_match}
use zquant_system.Exchange.OrderBook.Matching.{check_for_match-buy, check_for_match-sell}
use zquant_system.Exchange.OrderBook.PriceTime.{IsFiled}
use zquant_system.Exchange.OrderBook.Sweep.Loop.{SweptBook, match_loop-SweptBook}

IsDistinct-join :
    (xs ys : List ℕ)
    → IsDistinct xs
    → IsDistinct ys
    → ((z : ℕ) → has z xs ≡ true → has z ys ≡ false)
    → IsDistinct (xs ++ ys)
IsDistinct-join [] ys d e h = e
IsDistinct-join (x ∷ xs) ys (out, d) e h =
    (ground (arith, has-append x xs ys, h x), IsDistinct-join xs ys d e (λ z m. h z (ground arith)))

IsDistinct-concat_map :
    (queue : ℕ → List ℕ) (ls : List ℕ)
    → IsDistinct ls
    → ((l : ℕ) → has l ls ≡ true → IsDistinct (queue l))
    → ((l k z : ℕ)
        → has l ls ≡ true
        → has k ls ≡ true
        → k ≢ l
        → has z (queue l) ≡ true
        → has z (queue k) ≡ false)
    → IsDistinct (concat_map queue ls)
IsDistinct-concat_map queue [] d e h = tt
IsDistinct-concat_map queue (l ∷ ls) (out, d) e h =
    IsDistinct-join (queue l) (concat_map queue ls) (e l (ground arith))
      (IsDistinct-concat_map queue ls d (λ k m. e k (ground arith))
        (λ k j z m n. h k j z (ground arith) (ground arith)))
      (λ z m.
        has-concat_map_none queue z ls
          (λ k n. h l k z (ground arith) (ground arith) (λ e. ground arith) m))

module _ {K I : Type 0} where
  orders-IsDistinct :
      (b : Book K I) (v : View) (side : Side)
      → Represents b v
      → is_traded side ≡ true
      → IsDistinct (orders side v)
  orders-IsDistinct b v side r t =
      IsDistinct-concat_map v.queue (ladder side v) (r.ladders side t).distinct
        (λ l m. (r.levels side t l m).orders.distinct)
        (λ l k z m n ne i. apart b v r side side l k z t t m n ne i)

-- A fault that is out of fuel and is not is none.
in_time :
    {S A : Type 0} {P Q : A → S → Type 0} {r : Result (A × S)}
    → Outcome (λ e. e ≡ out_of_fuel) P r
    → Outcome IsFault Q r
    → Outcome NoFault P r
in_time (returns p) q = returns p
in_time (stops e) q = absurd (holds q e)

module _ (client_id : ClientId) (client_order_id : OrderId) (ticker_id : TickerId) (price : Price)
    (qty : Qty) (new_market_order_id : OrderId) (s : MeOrderBook) (v : View) where
  -- On a book that stands for lists of orders, where the asks' ids are in the range of the map,
  -- matching a new buy order meets no fault. It does what the sweep of the asks in price-time order
  -- does: it reports the same executions in the same order and leaves the same quantity, and the book
  -- then stands for the asks that the sweep leaves and for the bids as they were.
  pub check_for_match-buy-sweep :
      Represents s.book v
      → ((p : ℕ) → has p (orders Side.sell v) ≡ true → IsFiled s.book p)
      → Outcome NoFault
          (λ left t.
            SweptBook ticker_id client_id Side.buy client_order_id
              (new_market_order_id % 2 ^ 32)
              Side.sell
              (λ p. ltb_ℤ price p)
              s
              v
              (orders Side.sell v)
              qty
              left
              t)
          (check_for_match client_id client_order_id ticker_id Side.buy price qty
            new_market_order_id s)
  unfolding check_for_match
  check_for_match-buy-sweep r filed =
      in_time
        (bind
          (match_loop-SweptBook ticker_id client_id Side.buy client_order_id
            (new_market_order_id % 2 ^ 32) Side.sell (λ p. ltb_ℤ price p) (λ b. b.asks_by_price)
            (λ b. refl) refl _ qty s v (orders Side.sell v) r refl
            (orders-IsDistinct s.book v Side.sell r refl) filed)
          (λ left t k. returns k))
        (check_for_match-buy client_id client_order_id ticker_id price qty new_market_order_id s)

  -- The same for a new sell order and the bids.
  pub check_for_match-sell-sweep :
      Represents s.book v
      → ((p : ℕ) → has p (orders Side.buy v) ≡ true → IsFiled s.book p)
      → Outcome NoFault
          (λ left t.
            SweptBook ticker_id client_id Side.sell client_order_id
              (new_market_order_id % 2 ^ 32)
              Side.buy
              (λ p. ltb_ℤ p price)
              s
              v
              (orders Side.buy v)
              qty
              left
              t)
          (check_for_match client_id client_order_id ticker_id Side.sell price qty
            new_market_order_id s)
  unfolding check_for_match
  check_for_match-sell-sweep r filed =
      in_time
        (match_loop-SweptBook ticker_id client_id Side.sell client_order_id
          (new_market_order_id % 2 ^ 32) Side.buy (λ p. ltb_ℤ p price) (λ b. b.bids_by_price)
          (λ b. refl) refl _ qty s v (orders Side.buy v) r refl
          (orders-IsDistinct s.book v Side.buy r refl) filed)
        (check_for_match-sell client_id client_order_id ticker_id price qty new_market_order_id s)
