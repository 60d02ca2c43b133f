-- ===== src/Trading/OrderManager/Checked.antt =====
-- trading/strategy/order_manager.h, moveOrder() and moveOrders(): the requests they send and the order
-- ids these use.
use zquant_system.Prelude.{
  ℕ, ◌+◌, ◌%◌, ◌^◌, ◌<◌, ◌≡◌, ◌⊎◌, inl, inr, refl, true, false, [], ◌∷◌, ◌++◌, lt→ltb, ◌==◌, ◌&&◌,
  update₂, arith, Bool-cases,
}
use zquant_system.Common.Types.{
  TickerId, OrderId, Price, Qty, Side, price_invalid, side_to_index, me_max_tickers,
}
use zquant_system.Common.Fault.{ok}
use zquant_system.Messages.{MeClientRequest}
use zquant_system.Trading.RiskManager.{RiskCheckResult}
use zquant_system.Trading.OrderManager.{
  OmOrder, OmOrderState, OrderManager, new_request, new_order, cancel_request, cancel_order,
  same_price, is_allowed, replace_order, move_by_state, move_order, move_orders,
}

-- The order is neither waiting nor at the exchange.
abbrev pub IsIdle : OmOrder → Type 0
IsIdle o = (o.order_state ≡ OmOrderState.invalid) ⊎ (o.order_state ≡ OmOrderState.dead)

update₂_self : {A : Type 0} (f : ℕ → ℕ → A) (t i : ℕ) (a : A) → update₂ f t i a t i ≡ a
update₂_self f t i a = ground arith

allowed_of : {r : RiskCheckResult} → is_allowed r ≡ true → r ≡ RiskCheckResult.allowed
allowed_of {r = RiskCheckResult.allowed} e = refl
allowed_of {r = RiskCheckResult.invalid} e = ground arith
allowed_of {r = RiskCheckResult.order_too_large} e = ground arith
allowed_of {r = RiskCheckResult.position_too_large} e = ground arith
allowed_of {r = RiskCheckResult.loss_too_large} e = ground arith

module _ (check : TickerId → Side → Qty → RiskCheckResult) where
  -- A request made of a manager's order at `t` and `i`, with the order's state and the next order id
  -- behind it.
  pub data Request (m : OrderManager) (t i : ℕ) (price : Price) (side : Side) (qty : Qty)
      : MeClientRequest → OmOrderState → OrderId → Type 0 where
    created :
        IsIdle (m.ticker_side_order t i)
        → check t side qty ≡ RiskCheckResult.allowed
        → same_price price price_invalid ≡ false
        → Request m t i price side qty
            (new_request m t price side qty)
            OmOrderState.pending_new
            ((m.next_order_id + 1) % 2 ^ 64)
    canceled :
        (m.ticker_side_order t i).order_state ≡ OmOrderState.live
        → same_price (m.ticker_side_order t i).price price ≡ false
        → Request m t i price side qty
            (cancel_request m (m.ticker_side_order t i))
            OmOrderState.pending_cancel
            m.next_order_id

  -- What a move of the order at `t` and `i` comes to: nothing, or one request, after which the order
  -- waits for its response.
  pub record Moved (m : OrderManager) (t i : ℕ) (price : Price) (side : Side) (qty : Qty)
      (d : OrderManager) : Type 0 where
    pub others :
        (u j : ℕ) → (u == t && j == i) ≡ false → d.ticker_side_order u j ≡ m.ticker_side_order u j
    pub requests :
        (d ≡ m)
        ⊎ ((r : MeClientRequest) × Request m t i price side qty r
              (d.ticker_side_order t i).order_state
              d.next_order_id
            × (d.client_requests ≡ m.client_requests ++ r ∷ []))

  module _ (m : OrderManager) (t i : ℕ) (price : Price) (side : Side) (qty : Qty) where
    unmoved : Moved m t i price side qty m
    unmoved = record { others = λ u j ne. refl; requests = inl refl }

    replace_order-Moved :
        IsIdle (m.ticker_side_order t i)
        → Moved m t i price side qty (replace_order check t i t price side qty m)
    unfolding replace_order new_order
    replace_order-Moved idle = elim (Bool-cases (same_price price price_invalid)) [
      | inl e ↦ rw e unmoved
      | inr valid ↦ elim (Bool-cases (is_allowed (check t side qty))) [
        | inl e ↦
            rw (valid, e)
              (record {
                others = λ u j ne. ground arith;
                requests = inr (
                  new_request m t price side qty,
                  (rw (update₂_self m.ticker_side_order t i) (created idle (allowed_of e) valid)),
                  refl,
                );
              })
        | inr e ↦ rw (valid, e) unmoved
      ]
    ]

    cancel_order-Moved :
        (m.ticker_side_order t i).order_state ≡ OmOrderState.live
        → same_price (m.ticker_side_order t i).price price ≡ false
        → Moved m t i price side qty (cancel_order t i m)
    unfolding cancel_order
    cancel_order-Moved live moved = record {
      others = λ u j ne. ground arith;
      requests = inr (
        cancel_request m (m.ticker_side_order t i),
        rw (update₂_self m.ticker_side_order t i) (canceled live moved),
        refl,
      );
    }

    move_by_state-Moved :
        (state : OmOrderState)
        → (m.ticker_side_order t i).order_state ≡ state
        → Moved m t i price side qty (move_by_state check state t i t price side qty m)
    unfolding move_by_state
    move_by_state-Moved OmOrderState.invalid e = replace_order-Moved (inl e)
    move_by_state-Moved OmOrderState.dead e = replace_order-Moved (inr e)
    move_by_state-Moved OmOrderState.pending_new e = unmoved
    move_by_state-Moved OmOrderState.pending_cancel e = unmoved
    move_by_state-Moved OmOrderState.live e =
        elim (Bool-cases (same_price (m.ticker_side_order t i).price price)) [
          | inl same ↦ rw same unmoved
          | inr moved ↦ rw moved (cancel_order-Moved e moved)
        ]

    pub move_order-Moved : Moved m t i price side qty (move_order check t i t price side qty m)
    unfolding move_order
    move_order-Moved = move_by_state-Moved (m.ticker_side_order t i).order_state refl

  -- For a ticker in range, moveOrders() moves the buy order and then the sell order, and does nothing
  -- else. A move touches only its order, and sends nothing or one request: a new order, where none is
  -- at the exchange or under way, at a valid price and past the risk check; or the cancel of a live
  -- order whose price is another. The order then waits for the response. A new order bears the next
  -- order id, which then goes up by one modulo 2 ^ 64; no other move changes it.
  pub move_orders-Moved :
      (t : TickerId) (bid ask : Price) (clip : Qty) (m : OrderManager)
      → t < me_max_tickers
      → (mid d : OrderManager) × (move_orders check t bid ask clip m ≡ ok (tt, d))
        × Moved m t (side_to_index Side.buy) bid Side.buy clip mid
        × Moved mid t (side_to_index Side.sell) ask Side.sell clip d
  unfolding move_orders
  move_orders-Moved t bid ask clip m h =
      let mid = move_order check t (side_to_index Side.buy) t bid Side.buy clip m in
      (
        mid,
        move_order check t (side_to_index Side.sell) t ask Side.sell clip mid,
        rw (lt→ltb t me_max_tickers h) refl,
        move_order-Moved m t (side_to_index Side.buy) bid Side.buy clip,
        move_order-Moved mid t (side_to_index Side.sell) ask Side.sell clip,
      )
