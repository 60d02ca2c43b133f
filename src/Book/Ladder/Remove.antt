-- ===== src/Book/Ladder/Remove.antt =====
-- A level leaves its side: remove_orders_at_price() of Book/Levels on the list of the levels.
use zquant_system.Prelude.{
  ℕ, ◌≡◌, ◌≢◌, ◌<◌, refl, sym, ◌∙◌, ap, subst, fun_ext, inl, inr, true, false, none, some, List, [],
  ◌∷◌, arith, Bool-cases, if◌then◌else◌,
}
use zquant_system.Common.Types.{Side, Price, is_buy}
use zquant_system.Common.Fault.{Outcome, NoFault, weaken, for_all}
use zquant_system.Book.{Ptr, Book, level_at, is_at, best_of, get_orders_at_price}
use zquant_system.Book.Levels.{remove_orders_at_price}
use zquant_system.Book.Ladder.{next_entry_of, prev_entry_of}
use zquant_system.Book.Ladder.Drop.{DroppedAt, next_best, remove_only_level, remove_level-Dropped}
use zquant_system.Book.Ladder.Sorted.{IsLadder, IsSorted, IsSorted-erase, level_price}
use zquant_system.Book.Ladder.Link.{other_best}
use zquant_system.Book.Ring.{has, erase, split, head?, Ring, IsDistinct, IsDistinct-erase}
use zquant_system.Book.Ring.Splice.{
  Ring-take, Ring-Neighbours, Neighbours, alone, between, head?-erase,
}

module _ {K I : Type 0} where
  -- `l` left the levels `ls`, its block is free and its price has no level: all else is as it was.
  pub record LevelRemoved (side : Side) (l : ℕ) (at_price : Price) (ls : List ℕ) (b c : Book K I)
      : Type 0 where
    pub dropped : (i : ℕ) → DroppedAt l at_price c.bids_by_price c.asks_by_price i b c
    pub others :
        (y : ℕ)
        → has y ls ≡ false
        → (next_entry_of c y ≡ next_entry_of b y) × (prev_entry_of c y ≡ prev_entry_of b y)
    pub other_best_is : other_best side c ≡ other_best side b

  own_bests :
      (l : ℕ) (price : Price) (bids asks : Ptr) (i : ℕ) (b c : Book K I)
      → DroppedAt l price bids asks i b c
      → DroppedAt l price c.bids_by_price c.asks_by_price i b c
  own_bests l price bids asks i b c d = record {
    orders = d.orders;
    index = d.index;
    table = d.table;
    size = d.size;
    next_free = d.next_free;
    used = d.used;
    side = d.side;
    price = d.price;
    first_order = d.first_order;
    bids_is = refl;
    asks_is = refl;
  }

  both_bests :
      (side : Side) (x : Ptr) (b c : Book K I)
      → c.bids_by_price ≡ (if is_buy side then x else b.bids_by_price)
      → c.asks_by_price ≡ (if is_buy side then b.asks_by_price else x)
      → (best_of side c ≡ x) × (other_best side c ≡ other_best side b)
  both_bests side x b c e f = elim (Bool-cases (is_buy side)) [
    | inl t ↦ rw (e, f, t) (refl, refl)
    | inr t ↦ rw (e, f, t) (refl, refl)
  ]

  abbrev pub Shortened : Side → ℕ → Price → List ℕ → Book K I → Book K I → Type 0
  Shortened side l price ls b c = IsLadder side c (erase l ls) × LevelRemoved side l price ls b c

  module _ (side : Side) (l : ℕ) (price : Price) (ls : List ℕ) (b : Book K I)
      (h : IsLadder side b ls) (member : has l ls ≡ true)
      (slot : get_orders_at_price price b ≡ some l) (in_pool : l < b.orders_at_price_pool.size)
      (in_use : (b.orders_at_price_pool.store l).is_free ≡ false) where
    shortened :
        (c : Book K I)
        → ((i : ℕ) → (level_at i c).price ≡ (level_at i b).price)
        → best_of side c ≡ head? (erase l ls)
        → Ring (next_entry_of c) (prev_entry_of c) (erase l ls)
        → IsLadder side c (erase l ls)
    shortened c e f r = record {
      best = f;
      ring = r;
      distinct = IsDistinct-erase l ls h.distinct;
      sorted =
          subst (λ p. IsSorted side p (erase l ls)) (sym (fun_ext e))
            (IsSorted-erase side (level_price side b) l ls h.distinct h.sorted);
    }

    remove_last :
        ls ≡ l ∷ []
        → next_entry_of b l ≡ some l
        → Outcome NoFault
            (λ _ c. Shortened side l price ls b c)
            (remove_orders_at_price side price b)
    remove_last e n =
        weaken (for_all _ (λ i. remove_only_level l side price b slot in_pool in_use i n)) λ _ c d.
          (
            shortened c (λ i. (d i).0.price)
                ((both_bests side none b c (d 0).0.bids_is (d 0).0.asks_is).0 ∙ sym (ap head? gone))
                (subst (Ring (next_entry_of c) (prev_entry_of c)) (sym gone) tt),
            record {
              dropped = λ i. own_bests l price _ _ i b c (d i).0;
              others = λ y out. ((d y).1, (d y).2);
              other_best_is = (both_bests side none b c (d 0).0.bids_is (d 0).0.asks_is).1;
            },
          )
      where
        gone : erase l ls ≡ []
        gone = ap (erase l) e ∙ ground arith

    remove_between :
        (u w : ℕ)
        → prev_entry_of b l ≡ some u
        → next_entry_of b l ≡ some w
        → l ≢ u
        → l ≢ w
        → has u ls ≡ true
        → has w ls ≡ true
        → Outcome NoFault
            (λ _ c. Shortened side l price ls b c)
            (remove_orders_at_price side price b)
    remove_between u w e f m n hu hw =
        let (front, back, s, out, g) = split l ls member in
        weaken (remove_level-Dropped l side price b slot in_pool in_use u w e f m n) λ _ c d. (
          shortened c (λ i. (d.dropped i).price)
              ((both_bests side (next_best l w side b) b c (d.dropped 0).bids_is
                  (d.dropped 0).asks_is).0
                ∙ ap (λ o. if is_at o l then some w else o) h.best
                ∙ sym (head?-erase (next_entry_of b) (prev_entry_of b) l w ls n f h.ring))
              (subst (Ring _ _) (sym g) (
                Ring-take (next_entry_of b) (prev_entry_of b) _ _ u l w front back d.links
                  (subst IsDistinct s h.distinct) e f m (subst (Ring _ _) s h.ring))),
          record {
            dropped = λ i. own_bests l price _ _ i b c (d.dropped i);
            others = λ y out. (
              d.links.next_others y (ground arith) (ground arith),
              d.links.prev_others y (ground arith) (ground arith),
            );
            other_best_is =
                (both_bests side (next_best l w side b) b c (d.dropped 0).bids_is
                  (d.dropped 0).asks_is).1;
          },
        )

    -- The level goes, whether it has neighbours or not.
    pub remove_orders_at_price-Shortened :
        Outcome NoFault (λ _ c. Shortened side l price ls b c) (remove_orders_at_price side price b)
    remove_orders_at_price-Shortened =
        by_neighbours
          (Ring-Neighbours (next_entry_of b) (prev_entry_of b) l ls h.distinct member h.ring)
      where
        by_neighbours :
            Neighbours (next_entry_of b) (prev_entry_of b) l ls
            → Outcome NoFault
                (λ _ c. Shortened side l price ls b c)
                (remove_orders_at_price side price b)
        by_neighbours (alone e p n) = remove_last e n
        by_neighbours (between u w e f m n hu hw) = remove_between u w e f m n hu hw
