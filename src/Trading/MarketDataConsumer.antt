-- ===== src/Trading/MarketDataConsumer.antt =====
-- trading/market_data/market_data_consumer.h and market_data_consumer.cpp: hands on the incremental
-- stream in order, and recovers from a gap with a snapshot and the incrementals queued meanwhile.
-- The trade engine's queue is the list of what has been written to it.
pub mod InOrder
pub mod Queued
pub mod Recovery
mod Examples
use zquant_system.Prelude.{
  ℕ, ◌+◌, ◌%◌, ◌^◌, Bool, true, false, not, ◌&&◌, ◌||◌, Option, none, some, List, [], ◌∷◌, ◌++◌,
  ◌==◌, ltb, if◌then◌else◌,
}
use zquant_system.Common.Fault.{Cmd, pure, ◌>>=◌, ◌>>◌, get, modify, assert}
use zquant_system.Messages.{MeMarketUpdate, MarketUpdateType, MdpMarketUpdate}
use zquant_system.Exchange.MarketData.Publisher.{next_seq_num}

-- `std::map<size_t, MEMarketUpdate>`, in the order of its iterators.
abbrev pub QueuedMarketUpdates : Type 0
QueuedMarketUpdates = List (ℕ × MeMarketUpdate)

-- `m[seq] = u`.
unfoldable pub assign : ℕ → MeMarketUpdate → QueuedMarketUpdates → QueuedMarketUpdates
assign seq u [] = (seq, u) ∷ []
assign seq u ((k, v) ∷ m) =
    let rest = assign seq u m in
    if ltb seq k then (seq, u) ∷ (k, v) ∷ m else if seq == k then (seq, u) ∷ m else (k, v) ∷ rest

-- `m.find(seq) != m.end()`.
unfoldable pub contains : ℕ → QueuedMarketUpdates → Bool
contains seq [] = false
contains seq ((k, v) ∷ m) = seq == k || contains seq m

pub record MarketDataConsumer : Type 0 where
  pub next_exp_inc_seq_num : ℕ
  pub in_recovery : Bool
  pub snapshot_queued_msgs : QueuedMarketUpdates
  pub incremental_queued_msgs : QueuedMarketUpdates
  pub incoming_md_updates : List MeMarketUpdate

abbrev pub is_start : MarketUpdateType → Bool
is_start MarketUpdateType.snapshot_start = true
is_start _ = false

abbrev pub is_end : MarketUpdateType → Bool
is_end MarketUpdateType.snapshot_end = true
is_end _ = false

-- `final_events.push_back(u)`, unless it is a boundary; the later events follow.
abbrev pub keep : MeMarketUpdate → List MeMarketUpdate → List MeMarketUpdate
keep u events = if is_start u.type || is_end u.type then events else u ∷ events

abbrev keep_some : MeMarketUpdate → Option (List MeMarketUpdate) → Option (List MeMarketUpdate)
keep_some u none = none
keep_some u (some events) = some (keep u events)

-- The loop over the queued snapshot: its events, unless a number is missing.
unfoldable pub gather_snapshot : ℕ → QueuedMarketUpdates → Option (List MeMarketUpdate)
gather_snapshot next [] = some []
gather_snapshot next ((seq, u) ∷ m) =
    let rest = gather_snapshot (next_seq_num next) m in
    if seq == next then keep_some u rest else none

-- The loop over the queued incrementals: their events from number `next` on, unless a number is
-- missing, and `next_exp_inc_seq_num_` afterwards.
unfoldable pub gather_incrementals : ℕ → QueuedMarketUpdates → Option (List MeMarketUpdate) × ℕ
gather_incrementals next [] = (some [], next)
gather_incrementals next ((seq, u) ∷ m) =
    let old = ltb seq next in
    let rest = gather_incrementals (if old then next else next_seq_num next) m in
    if old then rest else if seq == next then (keep_some u rest.0, rest.1) else (none, next)

-- `rbegin()->second`.
unfoldable pub last_message : MeMarketUpdate → QueuedMarketUpdates → MeMarketUpdate
last_message u [] = u
last_message u ((k, v) ∷ m) = last_message v m

abbrev pub clear_snapshot : MarketDataConsumer → MarketDataConsumer
clear_snapshot c = record c { snapshot_queued_msgs = [] }

-- The end of a recovery, or a gap in the incrementals, after a snapshot up to number `seq`.
unfoldable pub join_streams : List MeMarketUpdate → ℕ → MarketDataConsumer → MarketDataConsumer
unfolding gather_incrementals
join_streams events seq c =
    let gathered = gather_incrementals (next_seq_num seq) c.incremental_queued_msgs in
    elim (gathered.0) [
      | none ↦ record c { snapshot_queued_msgs = []; next_exp_inc_seq_num = gathered.1 }
      | some incrementals ↦ record {
        next_exp_inc_seq_num = gathered.1;
        in_recovery = false;
        snapshot_queued_msgs = [];
        incremental_queued_msgs = [];
        incoming_md_updates = c.incoming_md_updates ++ (events ++ incrementals);
      }
    ]

abbrev sync_with : MeMarketUpdate → QueuedMarketUpdates → MarketDataConsumer → MarketDataConsumer
sync_with last queued c = elim (gather_snapshot 0 queued) [
  | none ↦ clear_snapshot c
  | some events ↦ if is_end last.type then join_streams events last.order_id c else c
]

unfoldable pub check_snapshot_sync : MarketDataConsumer → MarketDataConsumer
unfolding gather_snapshot last_message join_streams
check_snapshot_sync c = elim (c.snapshot_queued_msgs) [
  | [] ↦ c
  | (seq, first) ∷ m ↦
      if is_start first.type
      then sync_with (last_message first m) ((seq, first) ∷ m) c
      else clear_snapshot c
]

unfoldable pub queue_message : Bool → MdpMarketUpdate → MarketDataConsumer → MarketDataConsumer
unfolding assign contains check_snapshot_sync
queue_message true request c =
    let before =
      if contains request.seq_num c.snapshot_queued_msgs then [] else c.snapshot_queued_msgs in
    check_snapshot_sync
      (record c { snapshot_queued_msgs = assign request.seq_num request.me_market_update before })
queue_message false request c = check_snapshot_sync (record c {
  incremental_queued_msgs =
      assign request.seq_num request.me_market_update c.incremental_queued_msgs;
})

-- The results of the snapshot socket's `init(…) >= 0` and `join(…)`.
module _ (init join : Bool) where
  unfoldable pub start_snapshot_sync : Cmd MarketDataConsumer (Unit {0})
  start_snapshot_sync = do
    modify (λ c. record c { snapshot_queued_msgs = []; incremental_queued_msgs = [] })
    assert init
    assert join

  -- One message of the loop of recvCallback().
  unfoldable pub receive : Bool → MdpMarketUpdate → Cmd MarketDataConsumer (Unit {0})
  unfolding start_snapshot_sync queue_message
  receive is_snapshot request = do
    c ← get
    let in_recovery = c.in_recovery || not (request.seq_num == c.next_exp_inc_seq_num)
    modify (λ d. record d { in_recovery = in_recovery })
    (if in_recovery
        then (do
          (if c.in_recovery then pure tt else start_snapshot_sync)
          modify (queue_message is_snapshot request))
        else if is_snapshot
        then pure tt
        else modify (λ d. record d {
          next_exp_inc_seq_num = next_seq_num d.next_exp_inc_seq_num;
          incoming_md_updates = d.incoming_md_updates ++ request.me_market_update ∷ [];
        }))

  unfoldable pub receive_all : Bool → List MdpMarketUpdate → Cmd MarketDataConsumer (Unit {0})
  unfolding receive
  receive_all is_snapshot [] = pure tt
  receive_all is_snapshot (m ∷ ms) = receive is_snapshot m >> receive_all is_snapshot ms

  -- recvCallback(), on the whole messages that the socket's buffer holds.
  unfoldable pub recv_callback : Bool → List MdpMarketUpdate → Cmd MarketDataConsumer (Unit {0})
  unfolding receive_all
  recv_callback is_snapshot messages = do
    c ← get
    (if is_snapshot && not c.in_recovery then pure tt else receive_all is_snapshot messages)
