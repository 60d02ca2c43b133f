-- ===== src/Exchange/OrderBook/Sweep/Loop.antt =====
-- exchange/matcher/me_order_book.cpp, the loop of checkForMatch() as a sweep of a list of orders.
use zquant_system.Prelude.{
  ℕ, zero, suc, ◌-◌, min, ◌≡◌, refl, sym, ◌∙◌, ap, subst, inl, inr, Bool, true, false, not, List,
  [], ◌∷◌, ◌++◌, append-nil, arith, ◌==◌, Bool-cases, concat_map,
}
use zquant_system.Common.Types.{TickerId, ClientId, OrderId, Price, Qty, Side, is_buy}
use zquant_system.Common.Fault.{
  Fault, Result, Outcome, NoFault, out_of_fuel, returns, stops, bind, weaken,
}
use zquant_system.Book.{Ptr, Book, order_at, best_of}
use zquant_system.Book.Ring.{has, IsDistinct}
use zquant_system.Book.Ladder.Sorted.{is_traded}
use zquant_system.Book.View.{View, Represents, orders}
use zquant_system.Book.View.Shape.{SameOrder}
use zquant_system.Messages.{MeClientResponse}
use zquant_system.Exchange.OrderBook.Frame.{append_trans}
use zquant_system.Exchange.OrderBook.{MeOrderKey, ClientOrderHashMap, MeOrderBook, match_loop}
use zquant_system.Exchange.OrderBook.MatchOrder.{fill_responses}
use zquant_system.Exchange.OrderBook.PriceTime.{
  Execution, fill_of, IsFiled, Stepped, match_order-Stepped,
}
use zquant_system.Exchange.OrderBook.Sweep.{after, sweep, sweep-same, best_first, no_first}

no_fault :
    {S A : Type 0} {F : Fault → Type 0} {P : A → S → Type 0} {r : Result (A × S)}
    → Outcome NoFault P r
    → Outcome F P r
no_fault (returns p) = returns p
no_fault (stops f) = absurd (ground arith)

module _ (ticker_id : TickerId) (client_id : ClientId) (side : Side)
    (client_order_id market_order_id : OrderId) (passive_side : Side)
    (stops_at : Price → Bool) where
  abbrev pub reported : Book MeOrderKey ClientOrderHashMap → Execution → List MeClientResponse
  reported b e =
      fill_responses ticker_id client_id side client_order_id market_order_id (fill_of b e)

  -- What the loop does is the sweep of the list of orders, and the book stands for what is left.
  pub record SweptBook (s : MeOrderBook) (v : View) (os : List ℕ) (leaves left : Qty)
      (t : MeOrderBook) : Type 0 where
    pub view : View
    pub represents : Represents t.book view
    pub left_is : left ≡ (sweep stops_at s.book leaves os).left
    pub orders_are : orders passive_side view ≡ (sweep stops_at s.book leaves os).stay
    pub other_side :
        (z : Side)
        → is_traded z ≡ true
        → is_buy z ≡ not (is_buy passive_side)
        → orders z view ≡ orders z v
    pub responses :
        t.client_responses
        ≡ s.client_responses
          ++ concat_map (reported s.book) (sweep stops_at s.book leaves os).executions

  abbrev pub IsOutOfFuel : Fault → Type 0
  IsOutOfFuel e = e ≡ out_of_fuel

  -- The executions of a sweep are reported from the orders that it reads.
  reported-same :
      (b c : Book MeOrderKey ClientOrderHashMap) (leaves : Qty) (ps : List ℕ)
      → ((i : ℕ) → has i ps ≡ true → SameOrder i b c)
      → concat_map (reported c) (sweep stops_at b leaves ps).executions
        ≡ concat_map (reported b) (sweep stops_at b leaves ps).executions
  unfolding sweep
  reported-same b c leaves [] h = refl
  reported-same b c leaves (p ∷ ps) h = elim (Bool-cases (leaves == 0)) [
    | inl e ↦ rw e refl
    | inr e ↦ elim (Bool-cases (stops_at (order_at p b).price)) [
      | inl f ↦ rw (e, f) refl
      | inr f ↦ elim (Bool-cases ((order_at p b).qty - min leaves (order_at p b).qty == 0)) [
        | inl g ↦
            rw (e, f, g)
              (ap (λ rs. reported c one ++ rs)
                  (reported-same b c (leaves - min leaves (order_at p b).qty) ps
                    (λ i m. h i (ground arith)))
                ∙ ap
                    (λ rs.
                      rs
                      ++ concat_map (reported b)
                          (sweep stops_at b (leaves - min leaves (order_at p b).qty) ps).executions)
                    one_same)
        | inr g ↦ rw (e, f, g) (ap (λ rs. rs ++ []) one_same)
      ]
    ]
  ]
    where
      one : Execution
      one = record {
        order = p;
        qty = min leaves (order_at p b).qty;
        leaves = leaves - min leaves (order_at p b).qty;
      }

      same : SameOrder p b c
      same = h p (ground arith)

      one_same : reported c one ≡ reported b one
      one_same = rw (same.key, same.side, same.price, same.qty) refl

  stopped :
      (s : MeOrderBook) (v : View) (os : List ℕ) (leaves : Qty)
      → Represents s.book v
      → orders passive_side v ≡ os
      → sweep stops_at s.book leaves os ≡ record { executions = []; left = leaves; stay = os }
      → SweptBook s v os leaves leaves s
  stopped s v os leaves r e f = record {
    view = v;
    represents = r;
    left_is = ap (λ x. x.left) (sym f);
    orders_are = e ∙ ap (λ x. x.stay) (sym f);
    other_side = λ z hz eq. refl;
    responses = sym (
        ap (λ x. s.client_responses ++ concat_map (reported s.book) x.executions) f
        ∙ append-nil s.client_responses);
  }

  abbrev one_of : MeOrderBook → Qty → ℕ → Execution
  one_of s leaves p = record {
    order = p;
    qty = min leaves (order_at p s.book).qty;
    leaves = leaves - min leaves (order_at p s.book).qty;
  }

  module _ (s t : MeOrderBook) (v : View) (p : ℕ) (ps : List ℕ) (leaves left : Qty)
      (d : IsDistinct (p ∷ ps))
      (k : Stepped ticker_id client_id side client_order_id market_order_id passive_side s v p ps
        leaves left t)
      (more : (leaves == 0) ≡ false) (goes_on : stops_at (order_at p s.book).price ≡ false) where
    rest_same : (i : ℕ) → has i ps ≡ true → SameOrder i s.book t.book
    rest_same i m = k.same i (λ e. ground arith)

    -- The order is used up, and the rest of the list is swept.
    used_up :
        (left' : Qty) (u : MeOrderBook)
        → ((order_at p s.book).qty - min leaves (order_at p s.book).qty == 0) ≡ true
        → SweptBook t k.view ps left left' u
        → SweptBook s v (p ∷ ps) leaves left' u
    unfolding sweep
    used_up left' u g h = record {
      view = h.view;
      represents = h.represents;
      left_is = h.left_is ∙ ap (λ x. x.left) rest_is ∙ sym (ap (λ x. x.left) step);
      orders_are = h.orders_are ∙ ap (λ x. x.stay) rest_is ∙ sym (ap (λ x. x.stay) step);
      other_side = λ z hz eq. h.other_side z hz eq ∙ k.other_side z hz eq;
      responses =
          append_trans _ _ _ _ _ k.responses (
            h.responses
            ∙ ap (λ x. t.client_responses ++ concat_map (reported t.book) x.executions) rest_is
            ∙ ap (λ rs. t.client_responses ++ rs) (reported-same s.book t.book _ ps rest_same))
          ∙ sym (ap (λ x. s.client_responses ++ concat_map (reported s.book) x.executions) step);
    }
      where
        rest_is :
            sweep stops_at t.book left ps
            ≡ sweep stops_at s.book (leaves - min leaves (order_at p s.book).qty) ps
        rest_is =
            sweep-same stops_at s.book t.book left ps rest_same
            ∙ ap (λ x. sweep stops_at s.book x ps) k.left_is

        step :
            sweep stops_at s.book leaves (p ∷ ps)
            ≡ after
                (one_of s leaves p)
                (sweep stops_at s.book (leaves - min leaves (order_at p s.book).qty) ps)
        step = rw (more, goes_on, g) refl

    -- The new order is used up.
    not_used_up :
        ((order_at p s.book).qty - min leaves (order_at p s.book).qty == 0) ≡ false
        → SweptBook s v (p ∷ ps) leaves left t
    unfolding sweep
    not_used_up g = record {
      view = k.view;
      represents = k.represents;
      left_is = k.left_is ∙ sym (ap (λ x. x.left) step);
      orders_are = k.orders_are ∙ rw g refl ∙ sym (ap (λ x. x.stay) step);
      other_side = k.other_side;
      responses =
          k.responses
          ∙ ap (λ rs. s.client_responses ++ rs) (sym (append-nil _))
          ∙ sym (ap (λ x. s.client_responses ++ concat_map (reported s.book) x.executions) step);
    }
      where
        step : sweep stops_at s.book leaves (p ∷ ps) ≡ record {
          executions = one_of s leaves p ∷ [];
          left = leaves - min leaves (order_at p s.book).qty;
          stay = p ∷ ps;
        }
        step = rw (more, goes_on, g) refl

    nothing_left :
        ((order_at p s.book).qty - min leaves (order_at p s.book).qty == 0) ≡ false → left ≡ 0
    nothing_left g = ground (arith, k.left_is)

  SameOrder-IsFiled :
      (b c : Book MeOrderKey ClientOrderHashMap) (i : ℕ)
      → SameOrder i b c
      → IsFiled b i
      → IsFiled c i
  SameOrder-IsFiled b c i k h = rw (k.key) h

  module _ (queue : Book MeOrderKey ClientOrderHashMap → Ptr)
      (queue_is : (b : Book MeOrderKey ClientOrderHashMap) → queue b ≡ best_of passive_side b)
      (traded : is_traded passive_side ≡ true) where
    -- With nothing left the loop ends.
    match_loop_done :
        (fuel : ℕ) (s : MeOrderBook)
        → Outcome IsOutOfFuel
            (λ left t. (left ≡ 0) × (t ≡ s))
            (match_loop fuel ticker_id client_id side client_order_id market_order_id queue stops_at
              0 s)
    unfolding match_loop
    match_loop_done zero s = stops refl
    match_loop_done (suc fuel) s = returns (refl, refl)

    pub match_loop-SweptBook :
        (fuel : ℕ) (leaves : Qty) (s : MeOrderBook) (v : View) (os : List ℕ)
        → Represents s.book v
        → orders passive_side v ≡ os
        → IsDistinct os
        → ((i : ℕ) → has i os ≡ true → IsFiled s.book i)
        → Outcome IsOutOfFuel
            (λ left t. SweptBook s v os leaves left t)
            (match_loop fuel ticker_id client_id side client_order_id market_order_id queue stops_at
              leaves s)
    unfolding match_loop sweep
    match_loop-SweptBook zero leaves s v os r e d filed = stops refl
    match_loop-SweptBook (suc fuel) leaves s v [] r e d filed = elim (Bool-cases (leaves == 0)) [
      | inl z ↦ rw (z, match_loop) (returns (stopped s v [] leaves r e refl))
      | inr z ↦
          rw (z, queue_is s.book, no_first s.book v passive_side r traded e, match_loop)
            (returns (stopped s v [] leaves r e refl))
    ]
    match_loop-SweptBook (suc fuel) leaves s v (p ∷ ps) r e d filed =
        let (l, best, first) = best_first s.book v passive_side r traded p ps e in
        elim (Bool-cases (leaves == 0)) [
          | inl z ↦ rw (z, match_loop) (returns (stopped s v (p ∷ ps) leaves r e (rw z refl)))
          | inr z ↦ elim (Bool-cases (stops_at (order_at p s.book).price)) [
            | inl f ↦
                rw (z, queue_is s.book, best, first, f, match_loop)
                  (returns (stopped s v (p ∷ ps) leaves r e (rw (z, f) refl)))
            | inr f ↦
                rw (z, queue_is s.book, best, first, f, match_loop)
                  (bind
                    (no_fault (
                      match_order-Stepped ticker_id client_id side client_order_id market_order_id
                        passive_side s v p ps leaves r traded e (filed p (ground arith))))
                    (λ left t k.
                      elim (Bool-cases
                        ((order_at p s.book).qty - min leaves (order_at p s.book).qty == 0)) [
                          | inl g ↦
                              weaken
                                (match_loop-SweptBook fuel left t k.view ps k.represents
                                  (k.orders_are ∙ rw g refl) d.1
                                  (λ i m.
                                    SameOrder-IsFiled s.book t.book i (k.same i (λ e. ground arith))
                                      (filed i (ground arith))))
                                (λ left' u h. used_up s t v p ps leaves left d k z f left' u g h)
                          | inr g ↦
                              subst
                                (λ n. Outcome IsOutOfFuel (SweptBook s v (p ∷ ps) leaves) (
                                  match_loop fuel ticker_id client_id side client_order_id
                                    market_order_id queue stops_at n t))
                                (sym (nothing_left s t v p ps leaves left d k z f g))
                                (weaken (match_loop_done fuel t) (λ left' u h.
                                  subst (λ n. SweptBook s v (p ∷ ps) leaves n u)
                                    (nothing_left s t v p ps leaves left d k z f g ∙ sym h.0)
                                    (subst (SweptBook s v (p ∷ ps) leaves left) (sym h.1)
                                      (not_used_up s t v p ps leaves left d k z f g))))
                        ]))
          ]
        ]
