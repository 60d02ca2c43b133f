-- ===== src/Exchange/MarketData/Examples.antt =====
-- Concrete runs of the publisher and of the snapshot synthesizer.
use zquant_system.Prelude.{
  ℕ, ◌+◌, ◌≡◌, true, false, ◌&&◌, none, some, [], ◌∷◌, ◌++◌, ◌==◌, if◌then◌else◌, length, arith,
}
use zquant_system.Prelude.Int.{pos}
use zquant_system.Common.Types.{Side}
use zquant_system.Common.Fault.{Outcome, AnyFault}
use zquant_system.Messages.{MeMarketUpdate, MarketUpdateType, default_market_update}
use zquant_system.Exchange.MarketData.Publisher.{
  MarketDataPublisher, next_seq_num, numbered, run_publisher, run_publisher-numbered,
}
use zquant_system.Exchange.MarketData.Snapshot.{
  SnapshotSynthesizer, ticker_updates, add_to_snapshot,
}
use zquant_system.Exchange.MarketData.Snapshot.Live.{live, live_after, IsLive, add_to_snapshot-live}
use zquant_system.Exchange.MarketData.Snapshot.Contents.{replay, replay-snapshot}

abbrev pub added_order : MeMarketUpdate
added_order = record {
  type = MarketUpdateType.add;
  order_id = 2;
  ticker_id = 1;
  side = Side.buy;
  price = pos 100;
  qty = 30;
  priority = 1;
}

abbrev pub second_order : MeMarketUpdate
second_order = record added_order { order_id = 1; qty = 10; priority = 2 }

abbrev publisher : MarketDataPublisher
publisher = record { next_inc_seq_num = 5; incremental_stream = []; snapshot_md_updates = [] }

run_publisher-numbered_example :
    (((run_publisher (added_order ∷ second_order ∷ []) publisher).incremental_stream
        ≡ [] ++ numbered 5 (added_order ∷ second_order ∷ []))
      × ((run_publisher (added_order ∷ second_order ∷ []) publisher).snapshot_md_updates
          ≡ [] ++ numbered 5 (added_order ∷ second_order ∷ [])))
    × ((run_publisher (added_order ∷ second_order ∷ []) publisher).next_inc_seq_num
        ≡ 5 + length (added_order ∷ second_order ∷ []))
run_publisher-numbered_example =
    run_publisher-numbered (added_order ∷ second_order ∷ []) publisher (omega arith)

-- Two tickers with three order ids each, and one live order.
abbrev pub small_snapshot : SnapshotSynthesizer
small_snapshot = record {
  num_tickers = 2;
  num_order_ids = 3;
  ticker_orders = λ t i. if t == 1 && i == 2 then some 0 else none;
  last_inc_seq_num = 4;
  last_snapshot_time = 0;
  order_pool = record {
    store = λ p.
        if p == 0
        then record { object = added_order; is_free = false }
        else record { object = default_market_update; is_free = true };
    size = 4;
    next_free_index = 1;
  };
}

pub small_snapshot-IsLive : IsLive small_snapshot
small_snapshot-IsLive t i p e =
    let here : p ≡ 0 = ground arith in
    record {
      used = ground arith;
      added = ground arith;
      ticker = ground arith;
      order = ground arith;
    }

add_to_snapshot-live_example :
    Outcome AnyFault
      (λ _ d.
        IsLive d
        × ((t i : ℕ) → live d t i ≡ live_after second_order small_snapshot t i)
        × (5 ≡ next_seq_num 4)
        × (d.last_inc_seq_num ≡ 5))
      (add_to_snapshot (record { seq_num = 5; me_market_update = second_order }) small_snapshot)
add_to_snapshot-live_example =
    add_to_snapshot-live (record { seq_num = 5; me_market_update = second_order }) small_snapshot
      small_snapshot-IsLive

replay-snapshot_example : replay (ticker_updates small_snapshot 2 0) 1 2 none ≡ some added_order
replay-snapshot_example =
    replay-snapshot small_snapshot small_snapshot-IsLive 1 2 none (omega arith) (omega arith)
