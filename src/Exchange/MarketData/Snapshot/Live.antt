-- ===== src/Exchange/MarketData/Snapshot/Live.antt =====
-- The orders that the synthesizer keeps, as a map from ticker and order id to an update, and
-- addToSnapshot() on that map.
use zquant_system.Prelude.{
  ℕ, ◌≡◌, refl, inl, inr, true, false, ◌&&◌, Option, none, some, ◌==◌, if◌then◌else◌, update, arith,
  ltb, Bool-cases, Option-cases, update₂,
}
use zquant_system.Common.Fault.{
  Result, ok, err, Outcome, returns, stops, Holds, holds, outcome, AnyFault, bind, for_all,
}
use zquant_system.Common.MemPool.{MemPool, allocate, deallocate}
use zquant_system.Common.MemPool.Usage.{freed, Allocates, allocate-Allocates}
use zquant_system.Messages.{MeMarketUpdate, MarketUpdateType, MdpMarketUpdate}
use zquant_system.Exchange.MarketData.Publisher.{next_seq_num}
use zquant_system.Exchange.MarketData.Snapshot.{
  SnapshotSynthesizer, on_pool, order_at, add_order, expect_order, modify_order, cancel_order,
  apply_update, add_to_snapshot,
}

-- The abstract view: the order under a ticker and an order id.
abbrev pub live : SnapshotSynthesizer → ℕ → ℕ → Option MeMarketUpdate
live s t i = elim (s.ticker_orders t i) [ none ↦ none | some p ↦ some (order_at p s) ]

-- An entry is a block in use, whose order was added under the entry's ids.
pub record IsEntry (s : SnapshotSynthesizer) (t i p : ℕ) : Type 0 where
  pub used : (s.order_pool.store p).is_free ≡ false
  pub added : (order_at p s).type ≡ MarketUpdateType.add
  pub ticker : (order_at p s).ticker_id ≡ t
  pub order : (order_at p s).order_id ≡ i

abbrev pub IsLive : SnapshotSynthesizer → Type 0
IsLive s = (t i p : ℕ) → s.ticker_orders t i ≡ some p → IsEntry s t i p

-- What an update does to the order under its ids.
abbrev pub updated :
    MarketUpdateType → MeMarketUpdate → Option MeMarketUpdate → Option MeMarketUpdate
updated MarketUpdateType.add u o = some u
updated MarketUpdateType.modify u none = none
updated MarketUpdateType.modify u (some o) = some (record o { qty = u.qty; price = u.price })
updated MarketUpdateType.cancel u o = none
updated _ u o = o

abbrev pub live_after : MeMarketUpdate → SnapshotSynthesizer → ℕ → ℕ → Option MeMarketUpdate
live_after u s t i =
    if t == u.ticker_id && i == u.order_id then updated u.type u (live s t i) else live s t i

-- The entry under `t` and `i` after an update.
pub record Entry (u : MeMarketUpdate) (s : SnapshotSynthesizer) (t i : ℕ) (d : SnapshotSynthesizer)
    : Type 0 where
  pub kept : (p : ℕ) → d.ticker_orders t i ≡ some p → IsEntry d t i p
  pub cell : live d t i ≡ live_after u s t i
  pub number : d.last_inc_seq_num ≡ s.last_inc_seq_num

module _ (u : MeMarketUpdate) (s : SnapshotSynthesizer) (h : IsLive s) (t i : ℕ) where
  expected-order :
      Outcome AnyFault
        (λ p d. (d ≡ s) × (s.ticker_orders u.ticker_id u.order_id ≡ some p))
        (expect_order u s)
  unfolding expect_order
  expected-order = outcome _ (ground arith)

  added :
      (p : ℕ) (d : SnapshotSynthesizer)
      → u.type ≡ MarketUpdateType.add
      → s.ticker_orders u.ticker_id u.order_id ≡ none
      → (s.order_pool.store p).is_free ≡ true
      → d.order_pool.store
        ≡ (λ j. if p == j then record { object = u; is_free = false } else s.order_pool.store j)
      → d.ticker_orders ≡ update₂ s.ticker_orders u.ticker_id u.order_id (some p)
      → d.last_inc_seq_num ≡ s.last_inc_seq_num
      → Entry u s t i d
  added p d type vacant free store orders number = record {
    kept = λ q e. ground (arith, h t i q);
    cell = elim (Option-cases (s.ticker_orders t i)) [
      | inl e ↦ ground arith
      | inr (q, e) ↦ ground (arith, h t i q e)
    ];
    number = number;
  }

  -- A new order takes a free block.
  taken :
      (r : Result (ℕ × MemPool MeMarketUpdate))
      → Holds AnyFault (Allocates s.order_pool u) r
      → Outcome AnyFault
          (λ p d.
            (q : MemPool MeMarketUpdate) × (d ≡ record s { order_pool = q })
            × Allocates s.order_pool u p q)
          (elim r [ ok (p, pool) ↦ ok (p, record s { order_pool = pool }) | err e ↦ err e ])
  taken (ok (p, pool)) a = returns (pool, refl, a)
  taken (err e) a = stops tt

  add_order-Entry :
      u.type ≡ MarketUpdateType.add → Outcome AnyFault (λ _ d. Entry u s t i d) (add_order u s)
  unfolding add_order
  add_order-Entry type = elim (Bool-cases (ltb u.order_id s.num_order_ids)) [
    | inl e ↦ elim (Option-cases (s.ticker_orders u.ticker_id u.order_id)) [
      | inl vacant ↦
          rw (e, vacant)
            (bind (taken (allocate u s.order_pool) (holds (allocate-Allocates s.order_pool u)))
              λ p d (q, same, a).
                rw same (returns (added p _ type vacant a.was_free a.store refl refl)))
      | inr (p, taken) ↦ rw (e, taken) (stops tt)
    ]
    | inr e ↦ rw e (stops tt)
  ]

  modify_order-Entry :
      u.type ≡ MarketUpdateType.modify
      → Outcome AnyFault (λ _ d. Entry u s t i d) (modify_order u s)
  unfolding modify_order
  modify_order-Entry type = bind expected-order λ p d (same, e). rw same (
      returns (record {
        kept = λ q f. ground (arith, h t i q, h u.ticker_id u.order_id p);
        cell = elim (Option-cases (s.ticker_orders t i)) [
          | inl n ↦ ground arith
          | inr (q, f) ↦ ground (arith, h t i q f, h u.ticker_id u.order_id p e)
        ];
        number = refl;
      }))

  canceled :
      (p : ℕ) (pool : MemPool MeMarketUpdate)
      → u.type ≡ MarketUpdateType.cancel
      → s.ticker_orders u.ticker_id u.order_id ≡ some p
      → pool.store ≡ update s.order_pool.store p (freed (s.order_pool.store p))
      → Entry u s t i (record s {
        order_pool = pool;
        ticker_orders = update₂ s.ticker_orders u.ticker_id u.order_id none;
      })
  canceled p pool type e store = record {
    kept = λ q f. ground (arith, h t i q, h u.ticker_id u.order_id p);
    cell = elim (Option-cases (s.ticker_orders t i)) [
      | inl n ↦ ground arith
      | inr (q, f) ↦ ground (arith, h t i q f, h u.ticker_id u.order_id p e)
    ];
    number = refl;
  }

  released :
      (p : ℕ)
      → Outcome AnyFault
          (λ _ d. d ≡ record s {
            order_pool = record (s.order_pool) {
              store = update s.order_pool.store p (freed (s.order_pool.store p));
            };
          })
          (on_pool (deallocate p) s)
  unfolding deallocate
  released p = outcome _ (ground arith)

  cancel_order-Entry :
      u.type ≡ MarketUpdateType.cancel
      → Outcome AnyFault (λ _ d. Entry u s t i d) (cancel_order u s)
  unfolding cancel_order
  cancel_order-Entry type = bind expected-order λ p d (same, e).
      rw same (bind (released p) λ _ d' same'. rw same' (returns (canceled p _ type e refl)))

  unchanged :
      updated u.type u (live s u.ticker_id u.order_id) ≡ live s u.ticker_id u.order_id
      → Entry u s t i s
  unchanged same = record { kept = λ p e. h t i p e; cell = ground arith; number = refl }

apply_update-Entry :
    (u : MeMarketUpdate) (s : SnapshotSynthesizer) (type : MarketUpdateType)
    → u.type ≡ type
    → IsLive s
    → (t i : ℕ) → Outcome AnyFault (λ _ d. Entry u s t i d) (apply_update u type s)
unfolding apply_update
apply_update-Entry u s MarketUpdateType.add e h t i = add_order-Entry u s h t i e
apply_update-Entry u s MarketUpdateType.modify e h t i = modify_order-Entry u s h t i e
apply_update-Entry u s MarketUpdateType.cancel e h t i = cancel_order-Entry u s h t i e
apply_update-Entry u s MarketUpdateType.snapshot_start e h t i =
    returns (unchanged u s h t i (rw e refl))
apply_update-Entry u s MarketUpdateType.clear e h t i = returns (unchanged u s h t i (rw e refl))
apply_update-Entry u s MarketUpdateType.snapshot_end e h t i =
    returns (unchanged u s h t i (rw e refl))
apply_update-Entry u s MarketUpdateType.trade e h t i = returns (unchanged u s h t i (rw e refl))
apply_update-Entry u s MarketUpdateType.invalid e h t i = returns (unchanged u s h t i (rw e refl))

-- Unless addToSnapshot() meets a fault, the update is the next in number, it does to the map of live
-- orders what its type says, at its ticker and order id alone, and entries still lead to orders in
-- use that were added under their ids.
pub add_to_snapshot-live :
    (m : MdpMarketUpdate) (s : SnapshotSynthesizer)
    → IsLive s
    → Outcome AnyFault
        (λ _ d.
          IsLive d
          × ((t i : ℕ) → live d t i ≡ live_after m.me_market_update s t i)
          × (m.seq_num ≡ next_seq_num s.last_inc_seq_num)
          × (d.last_inc_seq_num ≡ m.seq_num))
        (add_to_snapshot m s)
unfolding add_to_snapshot
add_to_snapshot-live m s h = elim (Bool-cases (ltb m.me_market_update.ticker_id s.num_tickers)) [
  | inl e ↦ rw e (
      bind
        (for_all _ (λ t.
          for_all _
            (λ i. apply_update-Entry m.me_market_update s m.me_market_update.type refl h t i)))
        λ _ d entry. elim (Bool-cases (m.seq_num == next_seq_num d.last_inc_seq_num)) [
          | inl f ↦ rw f (
              returns (
                (λ t i p g. record {
                  used = ((entry t i).kept p g).used;
                  added = ((entry t i).kept p g).added;
                  ticker = ((entry t i).kept p g).ticker;
                  order = ((entry t i).kept p g).order;
                }),
                (λ t i. (entry t i).cell),
                ground (arith, (entry 0 0).number),
                refl,
              ))
          | inr f ↦ rw f (stops tt)
        ])
  | inr e ↦ rw e (stops tt)
]
