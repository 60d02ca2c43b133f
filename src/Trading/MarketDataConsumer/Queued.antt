-- ===== src/Trading/MarketDataConsumer/Queued.antt =====
-- Maps of queued messages whose numbers are consecutive.
use zquant_system.Prelude.{
  ℕ, ◌+◌, ◌^◌, ◌≤◌, ◌<◌, ◌≡◌, refl, true, false, some, List, [], ◌∷◌, ◌++◌, All, length, arith,
}
use zquant_system.Messages.{MeMarketUpdate}
use zquant_system.Exchange.MarketData.Publisher.{next_seq_num}
use zquant_system.Trading.MarketDataConsumer.{
  QueuedMarketUpdates, assign, contains, is_start, is_end, gather_snapshot, gather_incrementals,
  last_message,
}

abbrev pub entries : ℕ → List MeMarketUpdate → QueuedMarketUpdates
entries k [] = []
entries k (u ∷ us) = (k, u) ∷ entries (k + 1) us

-- Neither SNAPSHOT_START nor SNAPSHOT_END.
abbrev pub IsEvent : MeMarketUpdate → Type 0
IsEvent u = (is_start u.type ≡ false) × (is_end u.type ≡ false)

pub assign-entries :
    (us : List MeMarketUpdate) (k n : ℕ) (u : MeMarketUpdate)
    → n ≡ k + length us
    → assign n u (entries k us) ≡ entries k (us ++ u ∷ [])
unfolding assign
assign-entries [] k n u h = ground arith
assign-entries (v ∷ us) k n u h =
    let later = assign-entries us (k + 1) n u (omega arith) in ground arith

pub contains-entries :
    (us : List MeMarketUpdate) (k n : ℕ) → k + length us ≤ n → contains n (entries k us) ≡ false
unfolding contains
contains-entries [] k n h = refl
contains-entries (v ∷ us) k n h =
    let later = contains-entries us (k + 1) n (omega arith) in ground arith

pub gather_snapshot-entries :
    (us : List MeMarketUpdate) (k : ℕ)
    → All IsEvent us
    → k + length us < 2 ^ 64
    → gather_snapshot k (entries k us) ≡ some us
unfolding gather_snapshot
gather_snapshot-entries [] k events h = refl
gather_snapshot-entries (u ∷ us) k ((s, e), events) h =
    let next : next_seq_num k ≡ k + 1 = omega arith in
    let later = gather_snapshot-entries us (k + 1) events (omega arith) in ground arith

pub gather_snapshot-ended :
    (us : List MeMarketUpdate) (k : ℕ) (end : MeMarketUpdate)
    → All IsEvent us
    → is_end end.type ≡ true
    → k + length us + 1 < 2 ^ 64
    → gather_snapshot k (entries k (us ++ end ∷ [])) ≡ some us
unfolding gather_snapshot
gather_snapshot-ended [] k end events e h = ground arith
gather_snapshot-ended (u ∷ us) k end ((s, e), events) t h =
    let next : next_seq_num k ≡ k + 1 = omega arith in
    let later = gather_snapshot-ended us (k + 1) end events t (omega arith) in ground arith

pub gather_incrementals-entries :
    (us : List MeMarketUpdate) (k : ℕ)
    → All IsEvent us
    → k + length us < 2 ^ 64
    → gather_incrementals k (entries k us) ≡ (some us, k + length us)
unfolding gather_incrementals
gather_incrementals-entries [] k events h = ground arith
gather_incrementals-entries (u ∷ us) k ((s, e), events) h =
    let next : next_seq_num k ≡ k + 1 = omega arith in
    let later = gather_incrementals-entries us (k + 1) events (omega arith) in ground arith

pub last_message-entries :
    (us : List MeMarketUpdate) (k : ℕ) (first : MeMarketUpdate)
    → is_end first.type ≡ false
    → All IsEvent us
    → is_end (last_message first (entries k us)).type ≡ false
unfolding last_message
last_message-entries [] k first e events = e
last_message-entries (u ∷ us) k first e (event, events) =
    last_message-entries us (k + 1) u event.1 events

pub last_message-append :
    (us : List MeMarketUpdate) (k : ℕ) (first end : MeMarketUpdate)
    → last_message first (entries k (us ++ end ∷ [])) ≡ end
unfolding last_message
last_message-append [] k first end = refl
last_message-append (u ∷ us) k first end = last_message-append us (k + 1) u end
