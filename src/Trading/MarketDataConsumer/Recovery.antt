-- ===== src/Trading/MarketDataConsumer/Recovery.antt =====
-- A consumer in recovery, and the snapshot of exchange/market_data/snapshot_synthesizer.cpp.
use zquant_system.Prelude.{
  ℕ, ◌+◌, ◌^◌, ◌<◌, ◌≡◌, refl, ◌∙◌, ap, Bool, true, false, some, List, [], ◌∷◌, ◌++◌, All,
  append_assoc, append-nil, length, length-append, arith,
}
use zquant_system.Common.Fault.{ok}
use zquant_system.Messages.{MeMarketUpdate, MarketUpdateType, MdpMarketUpdate}
use zquant_system.Exchange.MarketData.Publisher.{next_seq_num, numbered}
use zquant_system.Exchange.MarketData.Snapshot.{
  SnapshotSynthesizer, ticker_updates, publish_snapshot, boundary,
}
use zquant_system.Exchange.MarketData.Snapshot.Live.{IsLive}
use zquant_system.Exchange.MarketData.Snapshot.Contents.{ticker_updates-IsEvent}
use zquant_system.Trading.MarketDataConsumer.{
  MarketDataConsumer, QueuedMarketUpdates, assign, contains, is_start, is_end, gather_snapshot,
  gather_incrementals, join_streams, check_snapshot_sync, queue_message, receive, receive_all,
  recv_callback,
}
use zquant_system.Trading.MarketDataConsumer.Queued.{
  entries, IsEvent, assign-entries, contains-entries, gather_snapshot-entries,
  gather_snapshot-ended, gather_incrementals-entries, last_message-entries, last_message-append,
}

abbrev pub recovered :
    List MeMarketUpdate → List MeMarketUpdate → ℕ → MarketDataConsumer → MarketDataConsumer
recovered events incrementals next c = record {
  next_exp_inc_seq_num = next;
  in_recovery = false;
  snapshot_queued_msgs = [];
  incremental_queued_msgs = [];
  incoming_md_updates = c.incoming_md_updates ++ (events ++ incrementals);
}

All-snoc :
    (us : List MeMarketUpdate) (u : MeMarketUpdate)
    → All IsEvent us
    → IsEvent u
    → All IsEvent (us ++ u ∷ [])
All-snoc [] u all e = (e, tt)
All-snoc (v ∷ us) u (x, all) e = (x, All-snoc us u all e)

abbrev with_queue : MarketDataConsumer → QueuedMarketUpdates → MarketDataConsumer
with_queue c queued = record c { snapshot_queued_msgs = queued }

module _ (first : MeMarketUpdate) (starts : is_start first.type ≡ true) where
  -- Until the end of the snapshot has come, the messages wait.
  check_snapshot_sync-waits :
      (pre : List MeMarketUpdate) (c : MarketDataConsumer)
      → is_end first.type ≡ false
      → All IsEvent pre
      → gather_snapshot 0 (entries 0 (first ∷ pre)) ≡ some pre
      → check_snapshot_sync (with_queue c (entries 0 (first ∷ pre)))
        ≡ with_queue c (entries 0 (first ∷ pre))
  unfolding check_snapshot_sync
  check_snapshot_sync-waits pre c e events gathered =
      let last = last_message-entries pre 1 first e events in ground arith

  check_snapshot_sync-joins :
      (pre : List MeMarketUpdate) (end : MeMarketUpdate) (c : MarketDataConsumer)
      (us : List MeMarketUpdate) (n : ℕ)
      → is_end end.type ≡ true
      → gather_snapshot 0 (entries 0 (first ∷ pre ++ end ∷ [])) ≡ some pre
      → gather_incrementals (next_seq_num end.order_id) c.incremental_queued_msgs ≡ (some us, n)
      → check_snapshot_sync (with_queue c (entries 0 (first ∷ pre ++ end ∷ [])))
        ≡ recovered pre us n c
  unfolding check_snapshot_sync join_streams
  check_snapshot_sync-joins pre end c us n e gathered incrementals =
      let last = last_message-append pre 1 first end in ground arith

  gather-first :
      (pre : List MeMarketUpdate)
      → All IsEvent pre
      → 1 + length pre < 2 ^ 64
      → gather_snapshot 0 (entries 0 (first ∷ pre)) ≡ some pre
  unfolding gather_snapshot
  gather-first pre events h =
      let later = gather_snapshot-entries pre 1 events (omega arith) in ground arith

  gather-whole :
      (pre : List MeMarketUpdate) (end : MeMarketUpdate)
      → All IsEvent pre
      → is_end end.type ≡ true
      → 2 + length pre < 2 ^ 64
      → gather_snapshot 0 (entries 0 (first ∷ pre ++ end ∷ [])) ≡ some pre
  unfolding gather_snapshot
  gather-whole pre end events e h =
      let later = gather_snapshot-ended pre 1 end events e (omega arith) in ground arith

  queue_message-next :
      (pre : List MeMarketUpdate) (u : MeMarketUpdate) (c : MarketDataConsumer)
      → queue_message true
          (record { seq_num = 1 + length pre; me_market_update = u })
          (with_queue c (entries 0 (first ∷ pre)))
        ≡ check_snapshot_sync (with_queue c (entries 0 (first ∷ pre ++ u ∷ [])))
  unfolding queue_message
  queue_message-next pre u c = rw (
    contains-entries (first ∷ pre) 0 (1 + length pre) (omega arith),
    assign-entries (first ∷ pre) 0 (1 + length pre) u (omega arith),
  )

  queue_message-first :
      (c : MarketDataConsumer)
      → c.snapshot_queued_msgs ≡ []
      → is_end first.type ≡ false
      → queue_message true (record { seq_num = 0; me_market_update = first }) c
        ≡ with_queue c (entries 0 (first ∷ []))
  unfolding queue_message assign contains
  queue_message-first c empty e =
      rw empty (check_snapshot_sync-waits [] c e tt (gather-first [] tt (omega arith)))

module _ (init join : Bool) where
  -- In recovery every message is queued.
  receive-queued :
      (m : MdpMarketUpdate) (c : MarketDataConsumer)
      → c.in_recovery ≡ true
      → receive init join true m c ≡ ok (tt, queue_message true m c)
  unfolding receive
  receive-queued m c r = ground arith

  recv_callback-recovering :
      (ms : List MdpMarketUpdate) (c : MarketDataConsumer)
      → c.in_recovery ≡ true
      → recv_callback init join true ms c ≡ receive_all init join true ms c
  unfolding recv_callback
  recv_callback-recovering ms c r = ground arith

  receive_all-body :
      (first : MeMarketUpdate) (starts : is_start first.type ≡ true)
      (rest pre : List MeMarketUpdate) (end : MeMarketUpdate) (c : MarketDataConsumer)
      (us : List MeMarketUpdate) (n : ℕ)
      → is_end first.type ≡ false
      → c.in_recovery ≡ true
      → All IsEvent pre
      → All IsEvent rest
      → is_end end.type ≡ true
      → 2 + (length pre + length rest) < 2 ^ 64
      → gather_incrementals (next_seq_num end.order_id) c.incremental_queued_msgs ≡ (some us, n)
      → receive_all init join true
          (numbered (1 + length pre) (rest ++ end ∷ []))
          (with_queue c (entries 0 (first ∷ pre)))
        ≡ ok (tt, recovered (pre ++ rest) us n c)
  unfolding receive_all
  receive_all-body first starts [] pre end c us n f r before after e h g =
      rw
        (
          receive-queued (record { seq_num = 1 + length pre; me_market_update = end })
              (with_queue c (entries 0 (first ∷ pre))) r,
          queue_message-next first starts pre end c,
          check_snapshot_sync-joins first starts pre end c us n e
              (gather-whole first starts pre end before e (omega arith)) g,
          append-nil,
        )
        refl
  receive_all-body first starts (u ∷ rest) pre end c us n f r before (event, after) e h g =
      let longer : All IsEvent (pre ++ u ∷ []) = All-snoc pre u before event in
      let len : length (pre ++ u ∷ []) ≡ length pre + 1 = length-append pre (u ∷ []) in
      let index : 1 + length pre + 1 ≡ 1 + length (pre ++ u ∷ []) = omega arith in
      let later =
        receive_all-body first starts rest (pre ++ u ∷ []) end c us n f r longer after e
          (omega arith) g in
      rw
        (
          receive-queued (record { seq_num = 1 + length pre; me_market_update = u })
              (with_queue c (entries 0 (first ∷ pre))) r,
          queue_message-next first starts pre u c,
          check_snapshot_sync-waits first starts (pre ++ u ∷ []) c f longer
              (gather-first first starts (pre ++ u ∷ []) longer (omega arith)),
          index,
        )
        (later ∙ ap (λ l. ok (tt, recovered l us n c)) (append_assoc pre (u ∷ []) rest))

  -- A consumer in recovery, with no snapshot message yet and the incrementals that follow the
  -- snapshot queued, hands on the snapshot's updates and then these, and leaves the recovery with the
  -- number after the last of them, when it gets a whole snapshot of orders that were added, as long
  -- as no incremental is a boundary and the numbers stay below 2 ^ 64.
  pub recv_callback-publish_snapshot :
      (s : SnapshotSynthesizer) (us : List MeMarketUpdate) (c : MarketDataConsumer)
      → c.in_recovery ≡ true
      → c.snapshot_queued_msgs ≡ []
      → c.incremental_queued_msgs ≡ entries (s.last_inc_seq_num + 1) us
      → IsLive s
      → All IsEvent us
      → 2 + length (ticker_updates s s.num_tickers 0) < 2 ^ 64
      → s.last_inc_seq_num + 1 + length us < 2 ^ 64
      → recv_callback init join true (publish_snapshot s) c
        ≡ ok (
          tt,
          recovered (ticker_updates s s.num_tickers 0) us (s.last_inc_seq_num + 1 + length us) c,
        )
  unfolding recv_callback publish_snapshot receive_all
  recv_callback-publish_snapshot s us c r empty queued lives incrementals h k =
      let events = ticker_updates-IsEvent s lives s.num_tickers 0 in
      let first = boundary MarketUpdateType.snapshot_start s.last_inc_seq_num in
      let next : next_seq_num s.last_inc_seq_num ≡ s.last_inc_seq_num + 1 = omega arith in
      let gathered = gather_incrementals-entries us (s.last_inc_seq_num + 1) incrementals k in
      let body =
        receive_all-body first refl (ticker_updates s s.num_tickers 0) []
          (boundary MarketUpdateType.snapshot_end s.last_inc_seq_num) c us
          (s.last_inc_seq_num + 1 + length us) refl r tt events refl (omega arith)
          (rw (next, queued) gathered) in
      recv_callback-recovering (publish_snapshot s) c r
      ∙ rw
          (
            receive-queued (record { seq_num = 0; me_market_update = first }) c r,
            queue_message-first first refl c empty refl,
          )
          body
