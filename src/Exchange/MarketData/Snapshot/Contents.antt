-- ===== src/Exchange/MarketData/Snapshot/Contents.antt =====
-- exchange/market_data/snapshot_synthesizer.cpp, publishSnapshot(): the contents of a snapshot as a map
-- of live orders.
use zquant_system.Prelude.{
  ℕ, zero, suc, ◌+◌, ◌<◌, ◌≡◌, refl, ap, inl, inr, ◌&&◌, Option, none, some, List, [], ◌∷◌, ◌++◌,
  All, ◌==◌, ltb, leb, if◌then◌else◌, arith, Option-cases,
}
use zquant_system.Messages.{MeMarketUpdate, MarketUpdateType}
use zquant_system.Exchange.MarketData.Snapshot.{
  SnapshotSynthesizer, order_at, clear_update, live_orders, ticker_updates,
}
use zquant_system.Exchange.MarketData.Snapshot.Live.{live, IsLive}
use zquant_system.Trading.MarketDataConsumer.Queued.{IsEvent}

-- The order under `t` and `i` after a CLEAR of its ticker or an ADD.
abbrev pub replay_one :
    MarketUpdateType → MeMarketUpdate → ℕ → ℕ → Option MeMarketUpdate → Option MeMarketUpdate
replay_one MarketUpdateType.clear u t i o = if t == u.ticker_id then none else o
replay_one MarketUpdateType.add u t i o = if t == u.ticker_id && i == u.order_id then some u else o
replay_one _ u t i o = o

abbrev pub replay : List MeMarketUpdate → ℕ → ℕ → Option MeMarketUpdate → Option MeMarketUpdate
replay [] t i o = o
replay (u ∷ us) t i o = replay us t i (replay_one u.type u t i o)

replay-append :
    (us vs : List MeMarketUpdate) (t i : ℕ) (o : Option MeMarketUpdate)
    → replay (us ++ vs) t i o ≡ replay vs t i (replay us t i o)
replay-append [] vs t i o = refl
replay-append (u ∷ us) vs t i o = replay-append us vs t i (replay_one u.type u t i o)

replay-add :
    (u : MeMarketUpdate) (us : List MeMarketUpdate) (t i : ℕ) (o : Option MeMarketUpdate)
    → u.type ≡ MarketUpdateType.add
    → replay (u ∷ us) t i o ≡ replay us t i (replay_one MarketUpdateType.add u t i o)
replay-add u us t i o e = ap (λ type. replay us t i (replay_one type u t i o)) e

abbrev or_else : Option MeMarketUpdate → Option MeMarketUpdate → Option MeMarketUpdate
or_else none o = o
or_else (some u) o = some u

module _ (s : SnapshotSynthesizer) (h : IsLive s) where
  -- The turn of the loop at an order id with no order, and at one with an order.
  live_orders-none :
      (left j t : ℕ)
      → s.ticker_orders t j ≡ none
      → live_orders s t (suc left) j ≡ live_orders s t left (j + 1)
  unfolding live_orders
  live_orders-none left j t e = ground arith

  live_orders-zero : (j t : ℕ) → live_orders s t zero j ≡ []
  unfolding live_orders
  live_orders-zero j t = refl

  live_orders-some :
      (left j t p : ℕ)
      → s.ticker_orders t j ≡ some p
      → live_orders s t (suc left) j ≡ order_at p s ∷ live_orders s t left (j + 1)
  unfolding live_orders
  live_orders-some left j t p e = ground arith

  replay-live_orders :
      (left j t₀ t i : ℕ) (o : Option MeMarketUpdate)
      → replay (live_orders s t₀ left j) t i o
        ≡ (if t == t₀ && (leb j i && ltb i (j + left)) then or_else (live s t i) o else o)
  replay-live_orders zero j t₀ t i o = rw (live_orders-zero j t₀) (ground arith)
  replay-live_orders (suc left) j t₀ t i o = elim (Option-cases (s.ticker_orders t₀ j)) [
    | inl e ↦
        rw (live_orders-none left j t₀ e) (ground (arith, replay-live_orders left (j + 1) t₀ t i o))
    | inr (p, e) ↦
        let entry = h t₀ j p e in
        rw
          (
            live_orders-some left j t₀ p e,
            replay-add (order_at p s) (live_orders s t₀ left (j + 1)) t i o entry.added,
          )
          (ground (
            arith,
            replay-live_orders left (j + 1) t₀ t i
                (replay_one MarketUpdateType.add (order_at p s) t i o),
            entry.ticker,
            entry.order,
          ))
  ]

  live_orders-IsEvent : (left j t : ℕ) → All IsEvent (live_orders s t left j)
  live_orders-IsEvent zero j t = rw (live_orders-zero j t) tt
  live_orders-IsEvent (suc left) j t = elim (Option-cases (s.ticker_orders t j)) [
    | inl e ↦ rw (live_orders-none left j t e) (live_orders-IsEvent left (j + 1) t)
    | inr (p, e) ↦
        rw (live_orders-some left j t p e) (
          (rw (h t j p e).added refl, rw (h t j p e).added refl),
          live_orders-IsEvent left (j + 1) t,
        )
  ]

  abbrev replay_ticker : ℕ → ℕ → Option MeMarketUpdate
  replay_ticker t i = if ltb i s.num_order_ids then live s t i else none

  ticker_updates-zero : (t : ℕ) → ticker_updates s zero t ≡ []
  unfolding ticker_updates
  ticker_updates-zero t = refl

  ticker_updates-suc :
      (left t : ℕ)
      → ticker_updates s (suc left) t
        ≡ clear_update t ∷ live_orders s t s.num_order_ids 0 ++ ticker_updates s left (t + 1)
  unfolding ticker_updates
  ticker_updates-suc left t = refl

  or_else-none : (o : Option MeMarketUpdate) → or_else o none ≡ o
  or_else-none none = refl
  or_else-none (some u) = refl

  replay-ticker_updates :
      (left t₀ t i : ℕ) (o : Option MeMarketUpdate)
      → replay (ticker_updates s left t₀) t i o
        ≡ (if leb t₀ t && ltb t (t₀ + left) then replay_ticker t i else o)
  replay-ticker_updates zero t₀ t i o = rw (ticker_updates-zero t₀) (ground arith)
  replay-ticker_updates (suc left) t₀ t i o =
      rw
        (
          ticker_updates-suc left t₀,
          replay-append (live_orders s t₀ s.num_order_ids 0) (ticker_updates s left (t₀ + 1)) t i
              (if t == t₀ then none else o),
          replay-ticker_updates left (t₀ + 1) t i
              (replay (live_orders s t₀ s.num_order_ids 0) t i (if t == t₀ then none else o)),
          replay-live_orders s.num_order_ids 0 t₀ t i (if t == t₀ then none else o),
        )
        (ground (arith, or_else-none (live s t i)))

  -- Replayed from any map, the updates of a snapshot give the synthesizer's live order under every
  -- ticker and order id in range.
  pub replay-snapshot :
      (t i : ℕ) (o : Option MeMarketUpdate)
      → t < s.num_tickers
      → i < s.num_order_ids
      → replay (ticker_updates s s.num_tickers 0) t i o ≡ live s t i
  replay-snapshot t i o ht hi = rw (replay-ticker_updates s.num_tickers 0 t i o) (ground arith)

  All-append :
      (us vs : List MeMarketUpdate) → All IsEvent us → All IsEvent vs → All IsEvent (us ++ vs)
  All-append [] vs a b = b
  All-append (u ∷ us) vs (e, a) b = (e, All-append us vs a b)

  -- They are neither start nor end of a snapshot.
  pub ticker_updates-IsEvent : (left t : ℕ) → All IsEvent (ticker_updates s left t)
  ticker_updates-IsEvent zero t = rw (ticker_updates-zero t) tt
  ticker_updates-IsEvent (suc left) t = rw (ticker_updates-suc left t) (
    (refl, refl),
    All-append (live_orders s t s.num_order_ids 0) (ticker_updates s left (t + 1))
        (live_orders-IsEvent s.num_order_ids 0 t) (ticker_updates-IsEvent left (t + 1)),
  )
