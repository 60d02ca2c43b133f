-- ===== src/Trading/TradeEngine/Sound.antt =====
-- trading/strategy/trade_engine.cpp: what a round of run() keeps of the positions, and which requests
-- it sends, whatever responses and market updates it reads.
use zquant_system.Prelude.{
  ℕ, ◌≡◌, ◌≤◌, refl, inl, inr, List, [], ◌∷◌, ltb, ◌==◌, update, Bool-cases, arith,
}
use zquant_system.Common.Types.{TickerId, Qty, Side, AlgoType, me_max_tickers}
use zquant_system.Common.Fault.{
  Result, ok, err, Cmd, Outcome, AnyFault, and_then, returns, stops, bind, weaken, holds, Holds,
}
use zquant_system.Messages.{MeMarketUpdate, MeClientResponse}
use zquant_system.Trading.Doubles.{Doubles}
use zquant_system.Trading.MarketOrderBook.{
  Bbo, MarketOrderBook, Notice, on_trade_update, on_order_book_update, on_market_update,
}
use zquant_system.Trading.PositionKeeper.{PositionInfo, add_fill, update_bbo}
use zquant_system.Trading.PositionKeeper.Settled.{
  IsSettled, add_fill-IsSettled, update_bbo-IsSettled,
}
use zquant_system.Trading.RiskManager.{RiskCfg, RiskCheckResult, check_pre_trade_risk}
use zquant_system.Trading.OrderManager.{
  OrderManager, move_order, move_by_state, replace_order, new_order, cancel_order, move_orders,
  update_by_type,
}
use zquant_system.Trading.OrderManager
use zquant_system.Trading.Strategy.{
  TradeEngineCfg, update_mkt_price, update_agg_trade_qty_ratio, maker_on_order_book_update,
  taker_on_trade_update,
}
use zquant_system.Trading.TradeEngine.{
  TradeEngine, check, on_orders, algo_on_order_book_update, algo_on_trade_update,
  algo_on_order_update, update_position, on_book_update, on_trade, on_order_update, tell, tell_of,
  is_filled, process_market_update, process_responses, process_market_updates, run_round,
}
use zquant_system.Trading.TradeEngine.Sent.{
  Sent, in_range_lem, either, maker-Sent, taker-Sent, order_response-Sent, nothing_sent, Sent-trans,
}

module _ {Double : Type 0} (ops : Doubles Double) (order_ids : ℕ) (algo : AlgoType)
    (cfg : TickerId → TradeEngineCfg ops) (risk_cfg : TickerId → RiskCfg Double ops.less) where
  abbrev pub Engine : Type 0
  Engine = TradeEngine ops order_ids algo cfg risk_cfg

  abbrev pub limit_of : TickerId → Qty
  limit_of t = (risk_cfg t).max_order_size

  abbrev pub AllSettled : Engine → Type 0
  AllSettled s = (t : TickerId) → IsSettled ops (s.ticker_position t)

  -- What holds between two states of the engine.
  pub record Steps (s t : Engine) : Type 0 where
    pub settled : AllSettled s → AllSettled t
    pub sent : Sent limit_of s.order_manager t.order_manager

  Steps-trans : (s t u : Engine) → Steps s t → Steps t u → Steps s u
  Steps-trans s t u h k = record {
    settled = λ a. k.settled (h.settled a);
    sent = Sent-trans limit_of s.order_manager t.order_manager u.order_manager h.sent k.sent;
  }

  Steps-refl : (s : Engine) → Steps s s
  Steps-refl s = record {
    settled = λ a. a;
    sent = nothing_sent limit_of s.order_manager s.order_manager refl refl;
  }

  check-limited :
      (s : Engine) (t : TickerId) (side : Side) (qty : Qty)
      → check ops order_ids algo cfg risk_cfg s t side qty ≡ RiskCheckResult.allowed
      → qty ≤ limit_of t
  unfolding check check_pre_trade_risk
  check-limited s t side qty e = ground arith

  abbrev Does : (s : Engine) → Result (Unit {0} × Engine) → Type 0
  Does s r = Outcome AnyFault (λ _ t. Steps s t) r

  and-Does :
      (s : Engine) (r : Result (Unit {0} × Engine)) (k : Cmd Engine (Unit {0}))
      → Does s r
      → ((t : Engine) → Does t (k t))
      → Does s (and_then {S = Engine} r (λ _. k))
  and-Does s r k h next = bind h (λ _ t a. weaken (next t) (λ _ u b. Steps-trans s t u a b))

  on_orders-Does :
      (c : Engine → Cmd OrderManager (Unit {0})) (s : Engine)
      → Outcome AnyFault (λ _ d. Sent limit_of s.order_manager d) (c s s.order_manager)
      → Does s (on_orders ops order_ids algo cfg risk_cfg c s)
  on_orders-Does c s h = go (c s s.order_manager) (holds h)
    where
      go :
          (r : Result (Unit {0} × OrderManager))
          → Holds AnyFault (λ _ d. Sent limit_of s.order_manager d) r
          → Does s (elim r [ ok (a, m) ↦ ok (a, record s { order_manager = m }) | err e ↦ err e ])
      go (ok (a, m)) h = returns (record { settled = λ a. a; sent = h })
      go (err e) h = stops h

  updated-IsSettled :
      (s : Engine) (ticker_id : TickerId) (f : PositionInfo ops → PositionInfo ops)
      → ((p : PositionInfo ops) → IsSettled ops p → IsSettled ops (f p))
      → AllSettled s
      → (t : TickerId)
      → IsSettled ops (update s.ticker_position ticker_id (f (s.ticker_position ticker_id)) t)
  updated-IsSettled s ticker_id f h a t = elim (Bool-cases (ticker_id == t)) [
    | inl e ↦ rw e (h _ (a ticker_id))
    | inr e ↦ rw e (a t)
  ]

  update_position-Does :
      (ticker_id : TickerId) (f : PositionInfo ops → PositionInfo ops) (s : Engine)
      → ((p : PositionInfo ops) → IsSettled ops p → IsSettled ops (f p))
      → Does s (update_position ops order_ids algo cfg risk_cfg ticker_id f s)
  unfolding update_position
  update_position-Does ticker_id f s h =
      bind (in_range_lem (ltb ticker_id me_max_tickers) s) λ _ t same. rw same (
        returns (record {
          settled = λ a t. updated-IsSettled s ticker_id f h a t;
          sent = nothing_sent limit_of _ _ refl refl;
        }))

  algo_on_order_book_update-Does :
      (a : AlgoType) (ticker_id : TickerId) (bbo : Bbo) (s : Engine)
      → Does s (algo_on_order_book_update ops order_ids algo cfg risk_cfg a ticker_id bbo s)
  unfolding algo_on_order_book_update
  algo_on_order_book_update-Does AlgoType.maker ticker_id bbo s =
      on_orders-Does
        (λ x.
          maker_on_order_book_update ops (check ops order_ids algo cfg risk_cfg x) ticker_id bbo
            x.feature_engine cfg)
        s
        (maker-Sent ops limit_of (check ops order_ids algo cfg risk_cfg s) (check-limited s)
          ticker_id bbo s.feature_engine cfg s.order_manager)
  algo_on_order_book_update-Does AlgoType.invalid ticker_id bbo s = returns (Steps-refl s)
  algo_on_order_book_update-Does AlgoType.random ticker_id bbo s = returns (Steps-refl s)
  algo_on_order_book_update-Does AlgoType.taker ticker_id bbo s = returns (Steps-refl s)
  algo_on_order_book_update-Does AlgoType.max ticker_id bbo s = returns (Steps-refl s)

  algo_on_trade_update-Does :
      (a : AlgoType) (u : MeMarketUpdate) (bbo : Bbo) (s : Engine)
      → Does s (algo_on_trade_update ops order_ids algo cfg risk_cfg a u bbo s)
  unfolding algo_on_trade_update
  algo_on_trade_update-Does AlgoType.taker u bbo s =
      on_orders-Does
        (λ x.
          taker_on_trade_update ops (check ops order_ids algo cfg risk_cfg x) u bbo x.feature_engine
            cfg)
        s
        (taker-Sent ops limit_of (check ops order_ids algo cfg risk_cfg s) (check-limited s) u bbo
          s.feature_engine cfg s.order_manager)
  algo_on_trade_update-Does AlgoType.invalid u bbo s = returns (Steps-refl s)
  algo_on_trade_update-Does AlgoType.random u bbo s = returns (Steps-refl s)
  algo_on_trade_update-Does AlgoType.maker u bbo s = returns (Steps-refl s)
  algo_on_trade_update-Does AlgoType.max u bbo s = returns (Steps-refl s)

  algo_on_order_update-Does :
      (a : AlgoType) (r : MeClientResponse) (s : Engine)
      → Does s (algo_on_order_update ops order_ids algo cfg risk_cfg a r s)
  unfolding algo_on_order_update
  algo_on_order_update-Does AlgoType.maker r s =
      on_orders-Does (λ x. OrderManager.on_order_update r) s
        (order_response-Sent limit_of r s.order_manager)
  algo_on_order_update-Does AlgoType.taker r s =
      on_orders-Does (λ x. OrderManager.on_order_update r) s
        (order_response-Sent limit_of r s.order_manager)
  algo_on_order_update-Does AlgoType.invalid r s = returns (Steps-refl s)
  algo_on_order_update-Does AlgoType.random r s = returns (Steps-refl s)
  algo_on_order_update-Does AlgoType.max r s = returns (Steps-refl s)

  on_book_update-Does :
      (ticker_id : TickerId) (bbo : Bbo) (s : Engine)
      → Does s (on_book_update ops order_ids algo cfg risk_cfg ticker_id bbo s)
  unfolding on_book_update
  on_book_update-Does ticker_id bbo s =
      bind
        (update_position-Does ticker_id (update_bbo ops bbo.bid_price bbo.ask_price) s
          (update_bbo-IsSettled ops bbo.bid_price bbo.ask_price))
        λ _ t a.
          weaken
            (algo_on_order_book_update-Does algo ticker_id bbo
              (record t { feature_engine = update_mkt_price ops bbo t.feature_engine }))
            λ _ u b. Steps-trans s t u a (record { settled = b.settled; sent = b.sent })

  on_trade-Does :
      (u : MeMarketUpdate) (bbo : Bbo) (s : Engine)
      → Does s (on_trade ops order_ids algo cfg risk_cfg u bbo s)
  unfolding on_trade
  on_trade-Does u bbo s =
      weaken
        (algo_on_trade_update-Does algo u bbo
          (record s { feature_engine = update_agg_trade_qty_ratio ops u bbo s.feature_engine }))
        λ _ t b. record { settled = b.settled; sent = b.sent }

  on_order_update-Does :
      (r : MeClientResponse) (s : Engine)
      → Does s (on_order_update ops order_ids algo cfg risk_cfg r s)
  unfolding on_order_update
  on_order_update-Does r s =
      and-Does s _ (algo_on_order_update ops order_ids algo cfg risk_cfg algo r)
        (either (is_filled r.type) _ _ s
          (update_position-Does r.ticker_id (add_fill ops r.side r.price r.exec_qty) s
            (λ p h. add_fill-IsSettled ops r.side r.price r.exec_qty p))
          (returns (Steps-refl s)))
        (algo_on_order_update-Does algo r)

  tell-Does :
      (book : MarketOrderBook) (n : Notice) (s : Engine)
      → Does s (tell ops order_ids algo cfg risk_cfg book n s)
  unfolding tell
  tell-Does book (on_trade_update u) s = on_trade-Does u book.bbo s
  tell-Does book (on_order_book_update ticker_id price side) s =
      on_book_update-Does ticker_id book.bbo s

  tell_of-Does :
      (ticker_id : TickerId) (r : Result (Notice × MarketOrderBook)) (s : Engine)
      → Does s (tell_of ops order_ids algo cfg risk_cfg ticker_id r s)
  tell_of-Does ticker_id (err e) s = stops tt
  tell_of-Does ticker_id (ok (n, book)) s =
      weaken
        (tell-Does book n
          (record s { ticker_order_book = update s.ticker_order_book ticker_id book }))
        λ _ t b. record { settled = b.settled; sent = b.sent }

  process_market_update-Does :
      (u : MeMarketUpdate) (s : Engine)
      → Does s (process_market_update ops order_ids algo cfg risk_cfg u s)
  unfolding process_market_update
  process_market_update-Does u s = elim (Bool-cases (ltb u.ticker_id me_max_tickers)) [
    | inl e ↦
        rw (e, process_market_update)
          (tell_of-Does u.ticker_id (on_market_update order_ids u (s.ticker_order_book u.ticker_id))
            s)
    | inr e ↦ rw (e, process_market_update) (stops tt)
  ]

  process_responses-Does :
      (rs : List MeClientResponse) (s : Engine)
      → Does s (process_responses ops order_ids algo cfg risk_cfg rs s)
  unfolding process_responses
  process_responses-Does [] s = returns (Steps-refl s)
  process_responses-Does (r ∷ rs) s =
      and-Does s _ (process_responses ops order_ids algo cfg risk_cfg rs) (on_order_update-Does r s)
        (process_responses-Does rs)

  process_market_updates-Does :
      (us : List MeMarketUpdate) (s : Engine)
      → Does s (process_market_updates ops order_ids algo cfg risk_cfg us s)
  unfolding process_market_updates
  process_market_updates-Does [] s = returns (Steps-refl s)
  process_market_updates-Does (u ∷ us) s =
      and-Does s _ (process_market_updates ops order_ids algo cfg risk_cfg us)
        (process_market_update-Does u s) (process_market_updates-Does us)

  -- Unless it meets a fault, a round of run(), whatever responses and market updates it reads and
  -- whichever algorithm it has, keeps every ticker's profit settled, and every request that it sends
  -- bears the engine's client id and, if it is a new order, is no larger than the largest order size
  -- of its ticker.
  pub run_round-Steps :
      (rs : List MeClientResponse) (us : List MeMarketUpdate) (s : Engine)
      → Outcome AnyFault (λ _ t. Steps s t) (run_round ops order_ids algo cfg risk_cfg rs us s)
  unfolding run_round
  run_round-Steps rs us s =
      and-Does s _ (process_market_updates ops order_ids algo cfg risk_cfg us)
        (process_responses-Does rs s) (process_market_updates-Does us)
