-- ===== src/Trading/MarketDataConsumer/Examples.antt =====
-- Concrete runs of the consumer on the publisher's and the synthesizer's messages.
use zquant_system.Prelude.{◌≡◌, refl, true, false, [], ◌∷◌, arith}
use zquant_system.Common.Fault.{ok}
use zquant_system.Exchange.MarketData.Publisher.{MarketDataPublisher, run_publisher}
use zquant_system.Exchange.MarketData.Snapshot.{live_orders, ticker_updates, publish_snapshot}
use zquant_system.Exchange.MarketData.Examples.{
  added_order, second_order, small_snapshot, small_snapshot-IsLive,
}
use zquant_system.Trading.MarketDataConsumer.{MarketDataConsumer, recv_callback}
use zquant_system.Trading.MarketDataConsumer.InOrder.{delivered, recv_callback-run_publisher}
use zquant_system.Trading.MarketDataConsumer.Recovery.{recovered, recv_callback-publish_snapshot}

abbrev publisher : MarketDataPublisher
publisher = record { next_inc_seq_num = 5; incremental_stream = []; snapshot_md_updates = [] }

abbrev consumer : MarketDataConsumer
consumer = record {
  next_exp_inc_seq_num = 5;
  in_recovery = false;
  snapshot_queued_msgs = [];
  incremental_queued_msgs = [];
  incoming_md_updates = [];
}

recv_callback-run_publisher_example :
    recv_callback true true false
      ((run_publisher (added_order ∷ second_order ∷ []) publisher).incremental_stream)
      consumer
    ≡ ok (tt, delivered consumer (added_order ∷ second_order ∷ []))
recv_callback-run_publisher_example =
    recv_callback-run_publisher true true (added_order ∷ second_order ∷ []) publisher consumer refl
      refl refl (omega arith)

-- It missed number 5, and has queued that number since it recovers.
abbrev recovering : MarketDataConsumer
recovering = record consumer {
  next_exp_inc_seq_num = 3;
  in_recovery = true;
  incremental_queued_msgs = (5, second_order) ∷ [];
}

recv_callback-publish_snapshot_example :
    recv_callback true true true (publish_snapshot small_snapshot) recovering
    ≡ ok (tt, recovered (ticker_updates small_snapshot 2 0) (second_order ∷ []) 6 recovering)
unfolding ticker_updates live_orders
recv_callback-publish_snapshot_example =
    recv_callback-publish_snapshot true true small_snapshot (second_order ∷ []) recovering refl refl
      refl small_snapshot-IsLive ((refl, refl), tt) (omega arith) (omega arith)
