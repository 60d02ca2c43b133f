-- ===== src/Exchange/OrderBook/Matching.antt =====
-- exchange/matcher/me_order_book.cpp, checkForMatch(): the report of a whole matching run.
use zquant_system.Prelude.{
  ℕ, zero, suc, ◌+◌, ◌%◌, ◌^◌, ◌≤◌, ◌<◌, min, ◌≡◌, refl, sym, ◌∙◌, ◌⊎◌, inl, inr, Bool, true, false,
  none, some, List, [], ◌∷◌, ◌++◌, arith, ◌==◌, Bool-cases, Option-cases, append-nil, All,
  concat_map,
}
use zquant_system.Prelude.Int.{ltb_ℤ}
use zquant_system.Common.Types.{TickerId, ClientId, OrderId, Price, Qty, Side}
use zquant_system.Common.Fault.{Outcome, returns, stops, IsFault, bind, weaken}
use zquant_system.Common.MemPool.Usage.{used-le}
use zquant_system.Book.{Ptr, Book, order_at, level_at}
use zquant_system.Exchange.OrderBook.{
  MeOrderKey, ClientOrderHashMap, MeOrderBook, match_loop, check_for_match,
}
use zquant_system.Exchange.OrderBook.Frame.{append_trans}
use zquant_system.Exchange.OrderBook.MatchOrder.{
  Fill, rest_of, fill_responses, fill_updates, in_use, Matched, match_order-Matched,
}

pub total_qty : List Fill → Qty
total_qty [] = 0
total_qty (f ∷ fs) = f.qty + total_qty fs

-- An execution is at a price that does not break the loop, of no more than the passive order has,
-- and it uses up the passive order or the new one.
pub record IsProper (stops_at : Price → Bool) (f : Fill) : Type 0 where
  pub allowed : stops_at f.passive.price ≡ false
  pub covered : f.qty ≤ f.passive.qty
  pub exhausts : (rest_of f ≡ 0) ⊎ (f.leaves ≡ 0)

module _ (ticker_id : TickerId) (client_id : ClientId) (side : Side)
    (client_order_id market_order_id : OrderId) (queue : Book MeOrderKey ClientOrderHashMap → Ptr)
    (stops_at : Price → Bool) where
  -- Why the loop ended: nothing is left, the other side is empty, or its first order is too dear.
  abbrev Ended : MeOrderBook → Qty → Type 0
  Ended t left =
      (left ≡ 0)
      ⊎ (queue t.book ≡ none)
      ⊎ ((level : ℕ) × (p : ℕ) × (queue t.book ≡ some level)
          × ((level_at level t.book).first_order ≡ some p)
          × (stops_at (order_at p t.book).price ≡ true))

  pub record Report (s : MeOrderBook) (qty : Qty) (fills : List Fill) (left : Qty) (t : MeOrderBook)
      : Type 0 where
    pub responses :
        t.client_responses
        ≡ s.client_responses
          ++ concat_map
              (fill_responses ticker_id client_id side client_order_id market_order_id)
              fills
    pub updates :
        t.market_updates ≡ s.market_updates ++ concat_map (fill_updates ticker_id side) fills
    pub conserved : total_qty fills + left ≡ qty
    pub proper : All (IsProper stops_at) fills
    pub next_id : t.next_market_order_id ≡ s.next_market_order_id
    pub ended : Ended t left

  -- The executions of a run, with its report.
  abbrev pub Reported : MeOrderBook → Qty → Qty → MeOrderBook → Type 0
  Reported s qty left t = (fills : List Fill) × Report s qty fills left t

  nothing : (s : MeOrderBook) (qty : Qty) → Ended s qty → Reported s qty qty s
  unfolding total_qty
  nothing s qty e = (
    [],
    record {
      responses = sym (append-nil _);
      updates = sym (append-nil _);
      conserved = omega arith;
      proper = tt;
      next_id = refl;
      ended = e;
    },
  )

  one_more :
      (s t u : MeOrderBook) (itr : ℕ) (qty mid left : Qty)
      → stops_at (order_at itr s.book).price ≡ false
      → Matched ticker_id client_id side client_order_id market_order_id s itr qty mid t
      → Reported t mid left u
      → Reported s qty left u
  unfolding total_qty
  one_more s t u itr qty mid left ok m (fs, r) = (
    f ∷ fs,
    record {
      responses = append_trans _ _ _ _ _ m.responses r.responses;
      updates = append_trans _ _ _ _ _ m.updates r.updates;
      conserved = omega (arith, r.conserved, m.left_is);
      proper = (
        record { allowed = ok; covered = omega arith; exhausts = ground (arith, m.left_is) },
        r.proper,
      );
      next_id = r.next_id ∙ m.next_id;
      ended = r.ended;
    },
  )
    where
      f : Fill
      f = record {
        passive = order_at itr s.book;
        qty = min qty (order_at itr s.book).qty;
        leaves = mid;
      }

  -- With fuel for every block in use the loop ends by itself.
  match_loop-Reported :
      (fuel : ℕ) (qty : Qty) (s : MeOrderBook)
      → ((qty ≡ 0) × (0 < fuel)) ⊎ (in_use s + 1 < fuel)
      → Outcome IsFault (Reported s qty) (
          match_loop fuel ticker_id client_id side client_order_id market_order_id queue stops_at
            qty s)
  unfolding match_loop
  match_loop-Reported zero qty s h = absurd (omega arith)
  match_loop-Reported (suc fuel) qty s h = elim (Bool-cases (qty == 0)) [
    | inl e ↦ rw (e, match_loop) (returns (nothing s qty (inl (ground arith))))
    | inr more ↦ elim (Option-cases (queue s.book)) [
      | inl e ↦ rw (more, e, match_loop) (returns (nothing s qty (inr (inl e))))
      | inr (level, e) ↦ elim (Option-cases (level_at level s.book).first_order) [
        | inl n ↦ rw (more, e, n, match_loop) (stops (λ x. cc))
        | inr (p, first) ↦ elim (Bool-cases (stops_at (order_at p s.book).price)) [
          | inl dear ↦
              rw (more, e, first, dear, match_loop)
                (returns (nothing s qty (inr (inr (level, p, e, first, dear)))))
          | inr fits ↦
              rw (more, e, first, fits, match_loop)
                (bind
                  (match_order-Matched ticker_id client_id side client_order_id market_order_id p
                    qty s)
                  (λ mid t m.
                    weaken (match_loop-Reported fuel mid t (ground (arith, m.progress)))
                      (λ left u r. one_more s t u p qty mid left fits m r)))
        ]
      ]
    ]
  ]

module _ (client_id : ClientId) (client_order_id : OrderId) (ticker_id : TickerId) (price : Price)
    (qty : Qty) (new_market_order_id : OrderId) (s : MeOrderBook) where
  enough : in_use s + 1 < suc (suc s.book.order_pool.size)
  enough = omega (arith, used-le s.book.order_pool.size s.book.order_pool.store)

  pub check_for_match-buy :
      Outcome IsFault
        (Reported ticker_id client_id Side.buy client_order_id
          (new_market_order_id % 2 ^ 32)
          (λ b. b.asks_by_price)
          (λ p. ltb_ℤ price p)
          s
          qty)
        (check_for_match client_id client_order_id ticker_id Side.buy price qty new_market_order_id
          s)
  unfolding check_for_match
  check_for_match-buy =
      bind
        (match_loop-Reported ticker_id client_id Side.buy client_order_id
          (new_market_order_id % 2 ^ 32) (λ b. b.asks_by_price) (λ p. ltb_ℤ price p) _ qty s
          (inr enough))
        (λ left t r. returns r)

  pub check_for_match-sell :
      Outcome IsFault
        (Reported ticker_id client_id Side.sell client_order_id
          (new_market_order_id % 2 ^ 32)
          (λ b. b.bids_by_price)
          (λ p. ltb_ℤ p price)
          s
          qty)
        (check_for_match client_id client_order_id ticker_id Side.sell price qty new_market_order_id
          s)
  unfolding check_for_match
  check_for_match-sell =
      match_loop-Reported ticker_id client_id Side.sell client_order_id
        (new_market_order_id % 2 ^ 32) (λ b. b.bids_by_price) (λ p. ltb_ℤ p price) _ qty s
        (inr enough)
