-- ===== src/Exchange/MarketData/Snapshot.antt =====
-- exchange/market_data/snapshot_synthesizer.h and snapshot_synthesizer.cpp: the synthesizer keeps the
-- live orders, and publishes them as a snapshot that starts and ends with the number of the last
-- incremental update. The numbers of entries of the two arrays are parameters; the source's are
-- ME_MAX_TICKERS and ME_MAX_ORDER_IDS.
pub mod Live
pub mod Contents
use zquant_system.Prelude.{
  ℕ, zero, suc, ◌+◌, ◌*◌, ◌%◌, ◌^◌, Bool, true, false, not, Option, none, some, List, [], ◌∷◌, ◌++◌,
  ◌==◌, ltb, is_some, update₂, update, if◌then◌else◌, length, concat_map,
}
use zquant_system.Prelude.Int.{ltb_ℤ}
use zquant_system.Common.Types.{Side, TickerId, OrderId, same_side}
use zquant_system.Common.Fault.{
  ok, err, Cmd, pure, fail, ◌>>=◌, ◌>>◌, deref, in_range, get, modify, assert,
}
use zquant_system.Common.MemPool.{MemPool, allocate, deallocate}
use zquant_system.Messages.{
  MeMarketUpdate, MarketUpdateType, MdpMarketUpdate, default_market_update,
}
use zquant_system.Book.{Ptr}
use zquant_system.Exchange.MarketData.Publisher.{next_seq_num, numbered}

pub record SnapshotSynthesizer : Type 0 where
  pub num_tickers : ℕ
  pub num_order_ids : ℕ
  pub ticker_orders : TickerId → OrderId → Ptr
  pub last_inc_seq_num : ℕ
  pub last_snapshot_time : ℕ
  pub order_pool : MemPool MeMarketUpdate

abbrev pub order_at : ℕ → SnapshotSynthesizer → MeMarketUpdate
order_at p s = (s.order_pool.store p).object

abbrev pub on_pool : {A : Type 0} → Cmd (MemPool MeMarketUpdate) A → Cmd SnapshotSynthesizer A
on_pool c s = elim (c s.order_pool) [
  | ok (a, pool) ↦ ok (a, record s { order_pool = pool })
  | err e ↦ err e
]

-- `orders->at(order_id) = p`.
abbrev pub set_order : TickerId → OrderId → Ptr → Cmd SnapshotSynthesizer (Unit {0})
set_order ticker_id order_id p =
    modify (λ s. record s { ticker_orders = update₂ s.ticker_orders ticker_id order_id p })

-- The tests of `.at(ticker_id)` and `.at(order_id)`.
abbrev check_ticker : TickerId → Cmd SnapshotSynthesizer (Unit {0})
check_ticker ticker_id = get >>= λ s. in_range (ltb ticker_id s.num_tickers)

abbrev check_order_id : OrderId → Cmd SnapshotSynthesizer (Unit {0})
check_order_id order_id = get >>= λ s. in_range (ltb order_id s.num_order_ids)

-- The case ADD.
unfoldable pub add_order : MeMarketUpdate → Cmd SnapshotSynthesizer (Unit {0})
add_order u = do
  check_order_id u.order_id
  s ← get
  assert (not (is_some (s.ticker_orders u.ticker_id u.order_id)))
  p ← on_pool (allocate u)
  set_order u.ticker_id u.order_id (some p)

-- The asserts that MODIFY and CANCEL share, with the order found.
unfoldable pub expect_order : MeMarketUpdate → Cmd SnapshotSynthesizer ℕ
expect_order u = do
  check_order_id u.order_id
  s ← get
  assert (is_some (s.ticker_orders u.ticker_id u.order_id))
  p ← deref (s.ticker_orders u.ticker_id u.order_id)
  assert ((order_at p s).order_id == u.order_id)
  assert (same_side (order_at p s).side u.side)
  pure p

-- The case MODIFY.
unfoldable pub modify_order : MeMarketUpdate → Cmd SnapshotSynthesizer (Unit {0})
unfolding expect_order
modify_order u = do
  p ← expect_order u
  modify (λ s. record s {
    order_pool = record (s.order_pool) {
      store = update s.order_pool.store p (record (s.order_pool.store p) {
        object = record (order_at p s) { qty = u.qty; price = u.price };
      });
    };
  })

-- The case CANCEL.
unfoldable pub cancel_order : MeMarketUpdate → Cmd SnapshotSynthesizer (Unit {0})
unfolding expect_order
cancel_order u = do
  p ← expect_order u
  on_pool (deallocate p)
  set_order u.ticker_id u.order_id none

unfoldable pub apply_update : MeMarketUpdate → MarketUpdateType → Cmd SnapshotSynthesizer (Unit {0})
unfolding add_order modify_order cancel_order
apply_update u MarketUpdateType.add = add_order u
apply_update u MarketUpdateType.modify = modify_order u
apply_update u MarketUpdateType.cancel = cancel_order u
apply_update u MarketUpdateType.snapshot_start = pure tt
apply_update u MarketUpdateType.clear = pure tt
apply_update u MarketUpdateType.snapshot_end = pure tt
apply_update u MarketUpdateType.trade = pure tt
apply_update u MarketUpdateType.invalid = pure tt

unfoldable pub add_to_snapshot : MdpMarketUpdate → Cmd SnapshotSynthesizer (Unit {0})
unfolding apply_update
add_to_snapshot m = do
  check_ticker m.me_market_update.ticker_id
  apply_update m.me_market_update m.me_market_update.type
  s ← get
  assert (m.seq_num == next_seq_num s.last_inc_seq_num)
  modify (λ t. record t { last_inc_seq_num = m.seq_num })

-- The first and the last message, which carry the number of the last incremental update.
abbrev pub boundary : MarketUpdateType → ℕ → MeMarketUpdate
boundary type seq_num = record default_market_update { type = type; order_id = seq_num }

abbrev pub clear_update : TickerId → MeMarketUpdate
clear_update ticker_id = record default_market_update {
  type = MarketUpdateType.clear;
  ticker_id = ticker_id;
}

-- `for (const auto order : orders) if (order) …`, from order id `i` on, with the number left.
unfoldable pub live_orders : SnapshotSynthesizer → TickerId → (left i : ℕ) → List MeMarketUpdate
live_orders s ticker_id zero i = []
live_orders s ticker_id (suc left) i =
    let rest = live_orders s ticker_id left (i + 1) in
    elim (s.ticker_orders ticker_id i) [ none ↦ rest | some p ↦ order_at p s ∷ rest ]

-- The loop over the tickers, from `ticker_id` on, with the number left.
unfoldable pub ticker_updates : SnapshotSynthesizer → (left ticker_id : ℕ) → List MeMarketUpdate
unfolding live_orders
ticker_updates s zero ticker_id = []
ticker_updates s (suc left) ticker_id =
    clear_update ticker_id ∷ live_orders s ticker_id s.num_order_ids 0
    ++ ticker_updates s left (ticker_id + 1)

-- What is sent on the snapshot stream; `snapshot_size` numbers it from 0.
unfoldable pub publish_snapshot : SnapshotSynthesizer → List MdpMarketUpdate
unfolding ticker_updates
publish_snapshot s = numbered 0 (
    boundary MarketUpdateType.snapshot_start s.last_inc_seq_num ∷ ticker_updates s s.num_tickers 0
    ++ boundary MarketUpdateType.snapshot_end s.last_inc_seq_num ∷ [])

-- The loop over what the queue holds.
unfoldable pub add_all : List MdpMarketUpdate → Cmd SnapshotSynthesizer (Unit {0})
unfolding add_to_snapshot
add_all [] = pure tt
add_all (m ∷ ms) = add_to_snapshot m >> add_all ms

-- `now - last_snapshot_time_ > 60 * NANOS_TO_SECS`, of signed nanoseconds that do not run back.
unfoldable pub is_due : ℕ → SnapshotSynthesizer → Bool
is_due now s = ltb (s.last_snapshot_time + 60 * 1000000000) now

-- One round of the thread's loop, at the two readings of the clock; the result is what it sends.
unfoldable pub run_synthesizer :
    List MdpMarketUpdate → (now later : ℕ) → Cmd SnapshotSynthesizer (List MdpMarketUpdate)
unfolding add_all is_due publish_snapshot
run_synthesizer ms now later = do
  add_all ms
  s ← get
  (if is_due now s
      then (do modify (λ t. record t { last_snapshot_time = later }); pure (publish_snapshot s))
      else pure [])
