-- ===== src/Book/Ladder.antt =====
-- The price levels of one side as a list, best price first: what link_after() and link_before() of
-- Book/Levels, and the removal of a level, do to the pointers between levels.
pub mod Drop
pub mod Locate
pub mod Sorted
pub mod Link
pub mod Insert
pub mod Remove
use zquant_system.Prelude.{
  ℕ, ◌≡◌, ◌≢◌, refl, sym, ◌∙◌, ap, subst, inl, inr, Bool, true, false, Option, none, some, List, [],
  ◌∷◌, ◌++◌, arith, ◌==◌, Bool-cases, Option-cases, if◌then◌else◌, update,
}
use zquant_system.Common.Types.{Side, Price, is_buy}
use zquant_system.Common.Fault.{Outcome, NoFault, bind, outcome, weaken, both, for_all}
use zquant_system.Book.{Ptr, Book, order_at, level_at, is_at, best_of, goes_before}
use zquant_system.Book.Levels.{link_after, splice_before, take_over, link_before}
use zquant_system.Book.Ring.Splice.{Inserted, Taken}

module _ {K I : Type 0} where
  abbrev pub next_entry_of : Book K I → ℕ → Ptr
  next_entry_of b l = (level_at l b).next_entry

  abbrev pub prev_entry_of : Book K I → ℕ → Ptr
  prev_entry_of b l = (level_at l b).prev_entry

  -- All of a level but its pointers to levels is the same, and so are the orders.
  pub record LevelKept (i : ℕ) (b c : Book K I) : Type 0 where
    pub orders : c.order_pool ≡ b.order_pool
    pub index : c.order_index ≡ b.order_index
    pub table : c.price_orders_at_price ≡ b.price_orders_at_price
    pub size : c.orders_at_price_pool.size ≡ b.orders_at_price_pool.size
    pub next_free : c.orders_at_price_pool.next_free_index ≡ b.orders_at_price_pool.next_free_index
    pub used : (c.orders_at_price_pool.store i).is_free ≡ (b.orders_at_price_pool.store i).is_free
    pub side : (level_at i c).side ≡ (level_at i b).side
    pub price : (level_at i c).price ≡ (level_at i b).price
    pub first_order : (level_at i c).first_order ≡ (level_at i b).first_order

  -- The level `new` is put between `u` and `w`, and the bests of the sides become `bids` and `asks`.
  pub record Placed (u new w : ℕ) (bids asks : Ptr) (b c : Book K I) : Type 0 where
    pub kept : (i : ℕ) → LevelKept i b c
    pub links :
        Inserted (next_entry_of b) (prev_entry_of b) (next_entry_of c) (prev_entry_of c) u new w
    pub bids_is : c.bids_by_price ≡ bids
    pub asks_is : c.asks_by_price ≡ asks

  -- The links at the entry `i`, and the bests.
  abbrev PlacedAt : (i u new w : ℕ) → (bids asks : Ptr) → Book K I → Book K I → Type 0
  PlacedAt i u new w bids asks b c =
      (next_entry_of c u ≡ some new)
      × (next_entry_of c new ≡ some w)
      × (prev_entry_of c new ≡ some u)
      × (prev_entry_of c w ≡ some new)
      × (i ≢ u → i ≢ new → next_entry_of c i ≡ next_entry_of b i)
      × (i ≢ w → i ≢ new → prev_entry_of c i ≡ prev_entry_of b i)
      × (c.bids_by_price ≡ bids)
      × (c.asks_by_price ≡ asks)

  placed :
      (u new w : ℕ) (bids asks : Ptr) (b c : Book K I)
      → ((i : ℕ) → LevelKept i b c × PlacedAt i u new w bids asks b c)
      → Placed u new w bids asks b c
  placed u new w bids asks b c h = record {
    kept = λ i. (h i).0;
    links = record {
      next_before = (h 0).1.0;
      next_new = (h 0).1.1;
      prev_new = (h 0).1.2;
      prev_behind = (h 0).1.3;
      next_others = λ i. (h i).1.4;
      prev_others = λ i. (h i).1.5;
    };
    bids_is = (h 0).1.6;
    asks_is = (h 0).1.7;
  }

  module _ (u new best : ℕ) (b : Book K I) (e : prev_entry_of b best ≡ some u)
      (f : next_entry_of b u ≡ some best) (m : new ≢ best) (n : new ≢ u) where
    link_after-kept :
        (i : ℕ) → Outcome NoFault (λ _ c. LevelKept i b c) (link_after new best best b)
    unfolding link_after
    link_after-kept i = outcome _ (ground arith)

    link_after-at :
        (i : ℕ)
        → Outcome NoFault
            (λ _ c. PlacedAt i u new best b.bids_by_price b.asks_by_price b c)
            (link_after new best best b)
    unfolding link_after
    link_after-at i = outcome _ (ground arith)

    pub link_after-Placed :
        Outcome NoFault
          (λ _ c. Placed u new best b.bids_by_price b.asks_by_price b c)
          (link_after new best best b)
    link_after-Placed =
        weaken (for_all _ (λ i. both (link_after-kept i) (link_after-at i)))
          (λ _ c h. placed u new best _ _ b c h)

  module _ (u new w : ℕ) (b : Book K I) (e : prev_entry_of b w ≡ some u)
      (f : next_entry_of b u ≡ some w) (m : new ≢ w) (n : new ≢ u) where
    splice_before-kept : (i : ℕ) → Outcome NoFault (λ _ c. LevelKept i b c) (splice_before new w b)
    unfolding splice_before
    splice_before-kept i = outcome _ (ground arith)

    splice_before-at :
        (i : ℕ)
        → Outcome NoFault
            (λ _ c. PlacedAt i u new w b.bids_by_price b.asks_by_price b c)
            (splice_before new w b)
    unfolding splice_before
    splice_before-at i = outcome _ (ground arith)

    splice_before-Placed :
        Outcome NoFault
          (λ _ c. Placed u new w b.bids_by_price b.asks_by_price b c)
          (splice_before new w b)
    splice_before-Placed =
        weaken (for_all _ (λ i. both (splice_before-kept i) (splice_before-at i)))
          (λ _ c h. placed u new w _ _ b c h)

  abbrev pub is_ahead : Book K I → ℕ → ℕ → Bool
  is_ahead b new best =
      goes_before (level_at new b).side (level_at new b).price (level_at best b).price

  -- Nothing but the best of the side changes.
  record TakenOver (bids asks : Ptr) (i : ℕ) (b c : Book K I) : Type 0 where
    pub kept : LevelKept i b c
    pub next : next_entry_of c i ≡ next_entry_of b i
    pub prev : prev_entry_of c i ≡ prev_entry_of b i
    pub bids_is : c.bids_by_price ≡ bids
    pub asks_is : c.asks_by_price ≡ asks

  take_over-behind :
      (new best target i : ℕ) (b : Book K I)
      → is_ahead b new best ≡ false
      → Outcome NoFault
          (λ _ c. TakenOver b.bids_by_price b.asks_by_price i b c)
          (take_over new best target b)
  unfolding take_over
  take_over-behind new best target i b h = outcome _ (ground arith)

  take_over-ahead :
      (new best i : ℕ) (b : Book K I)
      → is_ahead b new best ≡ true
      → next_entry_of b best ≢ some best
      → Outcome NoFault
          (λ _ c.
            TakenOver
              (if is_buy (level_at new b).side then some new else b.bids_by_price)
              (if is_buy (level_at new b).side then b.asks_by_price else some new)
              i
              b
              c)
          (take_over new best best b)
  unfolding take_over
  take_over-ahead new best i b h ne = outcome _ (ground arith)

  LevelKept-trans : (i : ℕ) (b c d : Book K I) → LevelKept i b c → LevelKept i c d → LevelKept i b d
  LevelKept-trans i b c d h k = record {
    orders = k.orders ∙ h.orders;
    index = k.index ∙ h.index;
    table = k.table ∙ h.table;
    size = k.size ∙ h.size;
    next_free = k.next_free ∙ h.next_free;
    used = k.used ∙ h.used;
    side = k.side ∙ h.side;
    price = k.price ∙ h.price;
    first_order = k.first_order ∙ h.first_order;
  }

  best_after :
      (u new w : ℕ) (bids asks bids' asks' bids'' asks'' : Ptr) (b c d : Book K I)
      → Placed u new w bids asks b c
      → ((i : ℕ) → TakenOver bids'' asks'' i c d)
      → bids'' ≡ bids'
      → asks'' ≡ asks'
      → Placed u new w bids' asks' b d
  best_after u new w bids asks bids' asks' bids'' asks'' b c d h k eb ea = record {
    kept = λ i. LevelKept-trans i b c d (h.kept i) (k i).kept;
    links = record {
      next_before = (k u).next ∙ h.links.next_before;
      next_new = (k new).next ∙ h.links.next_new;
      prev_new = (k new).prev ∙ h.links.prev_new;
      prev_behind = (k w).prev ∙ h.links.prev_behind;
      next_others = λ i m n. (k i).next ∙ h.links.next_others i m n;
      prev_others = λ i m n. (k i).prev ∙ h.links.prev_others i m n;
    };
    bids_is = (k 0).bids_is ∙ eb;
    asks_is = (k 0).asks_is ∙ ea;
  }

  is_ahead_kept :
      (new best : ℕ) (b c : Book K I)
      → ((i : ℕ) → LevelKept i b c)
      → is_ahead c new best ≡ is_ahead b new best
  is_ahead_kept new best b c h = rw ((h new).side, (h new).price, (h best).price) refl

  module _ (u new w best : ℕ) (b : Book K I) (e : prev_entry_of b w ≡ some u)
      (f : next_entry_of b u ≡ some w) (m : new ≢ w) (n : new ≢ u) where
    pub link_before-Placed :
        is_ahead b new best ≡ false
        → Outcome NoFault
            (λ _ c. Placed u new w b.bids_by_price b.asks_by_price b c)
            (link_before new best w b)
    unfolding link_before
    link_before-Placed behind = bind (splice_before-Placed u new w b e f m n) λ _ c h.
        weaken
          (for_all _
            (λ i. take_over-behind new best w i c (is_ahead_kept new best b c h.kept ∙ behind)))
          λ _ d k. best_after u new w _ _ _ _ _ _ b c d h k h.bids_is h.asks_is

  module _ (u new best : ℕ) (b : Book K I) (e : prev_entry_of b best ≡ some u)
      (f : next_entry_of b u ≡ some best) (m : new ≢ best) (n : new ≢ u)
      (alone : next_entry_of b best ≡ some best → u ≡ best) where
    pub link_before-ahead :
        is_ahead b new best ≡ true
        → Outcome NoFault
            (λ _ c.
              Placed u new best
                (if is_buy (level_at new b).side then some new else b.bids_by_price)
                (if is_buy (level_at new b).side then b.asks_by_price else some new)
                b
                c)
            (link_before new best best b)
    unfolding link_before
    link_before-ahead ahead = bind (splice_before-Placed u new best b e f m n) λ _ c h.
        weaken
          (for_all _ (λ i.
            take_over-ahead new best i c (is_ahead_kept new best b c h.kept ∙ ahead)
              (λ x. ground (arith, h.links.next_others best))))
          λ _ d k.
            best_after u new best _ _ _ _ _ _ b c d h k (rw ((h.kept new).side, h.bids_is) refl)
              (rw ((h.kept new).side, h.asks_is) refl)
