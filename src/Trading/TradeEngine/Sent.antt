-- ===== src/Trading/TradeEngine/Sent.antt =====
-- trading/strategy/trade_engine.cpp and order_manager.h: the requests that the strategies and the
-- order manager send.
use zquant_system.Prelude.{
  ℕ, ◌≡◌, ◌≤◌, refl, sym, ◌∙◌, ap, subst, inl, inr, Bool, true, false, List, [], ◌∷◌, ◌++◌,
  append-nil, append_assoc, ltb, Bool-cases, All, arith, if◌then◌else◌,
}
use zquant_system.Common.Types.{
  TickerId, ClientId, Price, Qty, Side, is_buy, side_to_index, me_max_tickers,
}
use zquant_system.Common.Fault.{Cmd, Outcome, AnyFault, returns, stops, bind, in_range}
use zquant_system.Messages.{
  MeClientRequest, ClientRequestType, MeMarketUpdate, MeClientResponse, ClientResponseType,
}
use zquant_system.Trading.Doubles.{Doubles}
use zquant_system.Trading.MarketOrderBook.{Bbo}
use zquant_system.Trading.RiskManager.{RiskCheckResult}
use zquant_system.Trading.OrderManager.{
  OrderManager, move_order, move_by_state, replace_order, new_order, cancel_order, move_orders,
  update_by_type,
}
use zquant_system.Trading.OrderManager
use zquant_system.Trading.OrderManager.Checked.{Moved, Request, created, canceled, move_order-Moved}
use zquant_system.Trading.Strategy.{
  FeatureEngine, TradeEngineCfg, is_two_sided, maker_on_order_book_update, taker_on_trade_update,
}

abbrev pub is_new : ClientRequestType → Bool
is_new ClientRequestType.new = true
is_new _ = false

-- A request of this client, which if it is a new order is within the limit of its ticker.
abbrev pub IsWithin : (TickerId → Qty) → ClientId → MeClientRequest → Type 0
IsWithin limit client_id r =
    (r.client_id ≡ client_id) × (is_new r.type ≡ true → r.qty ≤ limit r.ticker_id)

-- What was sent between two states of the order manager.
pub record Sent (limit : TickerId → Qty) (m d : OrderManager) : Type 0 where
  pub client : d.client_id ≡ m.client_id
  pub sent : List MeClientRequest
  pub requests : d.client_requests ≡ m.client_requests ++ sent
  pub within : All (IsWithin limit m.client_id) sent

All-append {ℓ κ} :
    {A : Type ℓ} (P : A → Type κ) (xs ys : List A) → All P xs → All P ys → All P (xs ++ ys)
All-append P [] ys h k = k
All-append P (x ∷ xs) ys (h, hs) k = (h, All-append P xs ys hs k)

module _ (limit : TickerId → Qty) where
  pub nothing_sent :
      (m d : OrderManager)
      → d.client_id ≡ m.client_id
      → d.client_requests ≡ m.client_requests
      → Sent limit m d
  nothing_sent m d e f = record {
    client = e;
    sent = [];
    requests = f ∙ sym (append-nil m.client_requests);
    within = tt;
  }

  pub Sent-trans : (m d e : OrderManager) → Sent limit m d → Sent limit d e → Sent limit m e
  Sent-trans m d e h k = record {
    client = k.client ∙ h.client;
    sent = h.sent ++ k.sent;
    requests =
        k.requests
        ∙ ap (λ rs. rs ++ k.sent) h.requests
        ∙ append_assoc m.client_requests h.sent k.sent;
    within =
        All-append (IsWithin limit m.client_id) h.sent k.sent h.within
          (subst (λ c. All (IsWithin limit c) k.sent) h.client k.within);
  }

  module _ (check : TickerId → Side → Qty → RiskCheckResult)
      (limited : (t : TickerId) (side : Side) (qty : Qty)
        → check t side qty ≡ RiskCheckResult.allowed
        → qty ≤ limit t) where
    Moved-Sent :
        (m d : OrderManager) (t i : ℕ) (price : Price) (side : Side) (qty : Qty)
        → d.client_id ≡ m.client_id
        → Moved check m t i price side qty d
        → Sent limit m d
    Moved-Sent m d t i price side qty e h = elim h.requests [
      | inl same ↦ nothing_sent m d e (ap (λ x. x.client_requests) same)
      | inr (r, q, f) ↦ record {
        client = e;
        sent = r ∷ [];
        requests = f;
        within = (of_request q, tt);
      }
    ]
      where
        of_request :
            {r : MeClientRequest} {state : _} {next_order_id : _}
            → Request check m t i price side qty r state next_order_id
            → IsWithin limit m.client_id r
        of_request (created idle allowed valid) = (refl, λ n. limited t side qty allowed)
        of_request (canceled live other) = (refl, λ n. absurd (ground arith))

    move_order-client :
        (m : OrderManager) (t i : ℕ) (price : Price) (side : Side) (qty : Qty)
        → (move_order check t i t price side qty m).client_id ≡ m.client_id
    unfolding move_order move_by_state replace_order new_order cancel_order
    move_order-client m t i price side qty = ground arith

    move_order-Sent :
        (m : OrderManager) (t i : ℕ) (price : Price) (side : Side) (qty : Qty)
        → Sent limit m (move_order check t i t price side qty m)
    move_order-Sent m t i price side qty =
        Moved-Sent m (move_order check t i t price side qty m) t i price side qty
          (move_order-client m t i price side qty) (move_order-Moved check m t i price side qty)

    move_orders-Sent :
        (t : TickerId) (bid ask : Price) (clip : Qty) (m : OrderManager)
        → Outcome AnyFault (λ _ d. Sent limit m d) (move_orders check t bid ask clip m)
    unfolding move_orders
    move_orders-Sent t bid ask clip m = elim (Bool-cases (ltb t me_max_tickers)) [
      | inl e ↦
          rw (e, move_orders)
            (returns (
              Sent-trans m (move_order check t (side_to_index Side.buy) t bid Side.buy clip m) _
                (move_order-Sent m t (side_to_index Side.buy) bid Side.buy clip)
                (move_order-Sent (move_order check t (side_to_index Side.buy) t bid Side.buy clip m)
                  t (side_to_index Side.sell) ask Side.sell clip)))
      | inr e ↦ rw (e, move_orders) (stops tt)
    ]

pub in_range_lem : {S : Type 0} (b : Bool) (s : S) → Outcome AnyFault (λ _ t. t ≡ s) (in_range b s)
in_range_lem true s = returns refl
in_range_lem false s = stops tt

pub either :
    {S A : Type 0} {P : A → S → Type 0} (b : Bool) (c d : Cmd S A) (s : S)
    → Outcome AnyFault P (c s)
    → Outcome AnyFault P (d s)
    → Outcome AnyFault P ((if b then c else d) s)
either true c d s h k = h
either false c d s h k = k

module _ {Double : Type 0} (ops : Doubles Double) (limit : TickerId → Qty)
    (check : TickerId → Side → Qty → RiskCheckResult)
    (limited : (t : TickerId) (side : Side) (qty : Qty)
      → check t side qty ≡ RiskCheckResult.allowed
      → qty ≤ limit t) where
  pub maker-Sent :
      (ticker_id : TickerId) (bbo : Bbo) (f : FeatureEngine ops)
      (cfg : TickerId → TradeEngineCfg ops) (m : OrderManager)
      → Outcome AnyFault
          (λ _ d. Sent limit m d)
          (maker_on_order_book_update ops check ticker_id bbo f cfg m)
  unfolding maker_on_order_book_update
  maker-Sent ticker_id bbo f cfg m = elim (Bool-cases (is_two_sided bbo)) [
    | inl e ↦
        rw (e, maker_on_order_book_update)
          (bind (in_range_lem (ltb ticker_id me_max_tickers) m)
            λ _ t same. rw same (move_orders-Sent limit check limited _ _ _ _ m))
    | inr e ↦ rw (e, maker_on_order_book_update) (returns (nothing_sent limit m m refl refl))
  ]

  pub taker-Sent :
      (u : MeMarketUpdate) (bbo : Bbo) (f : FeatureEngine ops) (cfg : TickerId → TradeEngineCfg ops)
      (m : OrderManager)
      → Outcome AnyFault (λ _ d. Sent limit m d) (taker_on_trade_update ops check u bbo f cfg m)
  unfolding taker_on_trade_update
  taker-Sent u bbo f cfg m = elim (Bool-cases (is_two_sided bbo)) [
    | inl e ↦
        rw (e, taker_on_trade_update)
          (bind (in_range_lem (ltb u.ticker_id me_max_tickers) m) λ _ t same. rw same (
            either (ops.at_least f.agg_trade_qty_ratio (cfg u.ticker_id).threshold) _ _ m
              (either (is_buy u.side) _ _ m (move_orders-Sent limit check limited _ _ _ _ m)
                (move_orders-Sent limit check limited _ _ _ _ m))
              (returns (nothing_sent limit m m refl refl))))
    | inr e ↦ rw (e, taker_on_trade_update) (returns (nothing_sent limit m m refl refl))
  ]

pub order_response-Sent :
    (limit : TickerId → Qty) (r : MeClientResponse) (m : OrderManager)
    → Outcome AnyFault (λ _ d. Sent limit m d) (OrderManager.on_order_update r m)
unfolding OrderManager.on_order_update update_by_type
order_response-Sent limit r m = bind (in_range_lem (ltb r.ticker_id me_max_tickers) m) λ _ t same.
    rw same (
      returns (
        nothing_sent limit m _ (by_type r.type r.ticker_id (side_to_index r.side)).0
          (by_type r.type r.ticker_id (side_to_index r.side)).1))
  where
    by_type :
        (type : ClientResponseType) (t i : ℕ)
        → ((update_by_type type t i r m).client_id ≡ m.client_id)
          × ((update_by_type type t i r m).client_requests ≡ m.client_requests)
    by_type type t i = ground arith
