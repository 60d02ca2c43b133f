-- ===== src/Book/Ladder/Insert.antt =====
-- A level comes into its side: add_orders_at_price() of Book/Levels.
use zquant_system.Prelude.{
  ℕ, ◌≡◌, ◌≢◌, ◌≤◌, refl, sym, ◌∙◌, ap, subst, inl, inr, Bool, true, false, none, some, List, [],
  ◌∷◌, arith, Bool-cases, update, length,
}
use zquant_system.Common.Types.{Side, is_buy}
use zquant_system.Common.Fault.{
  Outcome, NoFault, Result, ok, err, and_then, outcome, weaken, for_all,
}
use zquant_system.Book.{Book, level_at, best_of, price_to_index}
use zquant_system.Book.Levels.{add_orders_at_price, find_target, link_at}
use zquant_system.Book.Ladder.{LevelKept, next_entry_of, prev_entry_of}
use zquant_system.Book.Ladder.Locate.{find_target-locate}
use zquant_system.Book.Ladder.Sorted.{IsLadder, level_price, place, located, is_traded}
use zquant_system.Book.Ring.{has}
use zquant_system.Book.Ladder.Link.{other_best, Laddered, at_place}

module _ {K I : Type 0} where
  -- The book once the price of the level `new` has it as its level.
  abbrev pub tabled : ℕ → Book K I → Book K I
  tabled new b = record b {
    price_orders_at_price =
        update b.price_orders_at_price (price_to_index (level_at new b).price) (some new);
  }

  -- The only level of its side.
  abbrev OnlyAt : ℕ → ℕ → Book K I → Book K I → Type 0
  OnlyAt new i b c =
      LevelKept i (tabled new b) c
      × (next_entry_of c new ≡ some new)
      × (prev_entry_of c new ≡ some new)
      × (i ≢ new → next_entry_of c i ≡ next_entry_of b i)
      × (i ≢ new → prev_entry_of c i ≡ prev_entry_of b i)
      × (best_of (level_at new b).side c ≡ some new)
      × (other_best (level_at new b).side c ≡ other_best (level_at new b).side b)

  add_only_level :
      (new i : ℕ) (b : Book K I)
      → best_of (level_at new b).side b ≡ none
      → Outcome NoFault (λ _ c. OnlyAt new i b c) (add_orders_at_price new b)
  unfolding add_orders_at_price
  add_only_level new i b e = elim (Bool-cases (is_buy (level_at new b).side)) [
    | inl t ↦ rw (e, add_orders_at_price) (outcome _ (ground arith))
    | inr t ↦ rw (e, add_orders_at_price) (outcome _ (ground arith))
  ]

  abbrev then_link : ℕ → ℕ → Book K I → Result (ℕ × Bool) → Result (Unit {0} × Book K I)
  then_link new best b (ok spot) = link_at new best spot b
  then_link new best b (err e) = err e

  link_after_search :
      (new best : ℕ) (b : Book K I) (r : Result (ℕ × Bool))
      → and_then {S = Book K I}
          (elim r [ ok a ↦ ok (a, b) | err e ↦ err e ])
          (λ spot. link_at new best spot)
        ≡ then_link new best b r
  link_after_search new best b (ok spot) = refl
  link_after_search new best b (err e) = refl

  add_next_level :
      (new : ℕ) (b : Book K I) (best : ℕ) (spot : ℕ × Bool)
      → best_of (level_at new b).side b ≡ some best
      → find_target (level_at new b).side (level_at new b).price best (tabled new b) ≡ ok spot
      → add_orders_at_price new b ≡ link_at new best spot (tabled new b)
  unfolding add_orders_at_price
  add_next_level new b best spot e f =
      rw (e, add_orders_at_price)
        (link_after_search new best (tabled new b) _ ∙ ap (then_link new best (tabled new b)) f)

  only-Laddered :
      (new : ℕ) (b c : Book K I)
      → ((i : ℕ) → OnlyAt new i b c)
      → Laddered (level_at new b).side new [] (tabled new b) c
  unfolding place
  only-Laddered new b c h = (
    record {
      best = (h 0).5;
      ring = ((h 0).1, (h 0).2);
      distinct = (refl, tt);
      sorted = (λ y k. absurd (ground arith), tt);
    },
    record {
      kept = λ i. (h i).0;
      others = λ y out. ((h y).3 (ground arith), (h y).4 (ground arith));
      other_best_is = (h 0).6;
    },
  )

  module _ (new : ℕ) (b : Book K I) where
    abbrev own_side : Side
    own_side = (level_at new b).side

    tabled-IsLadder : (ls : List ℕ) → IsLadder own_side b ls → IsLadder own_side (tabled new b) ls
    tabled-IsLadder ls h = record {
      best = h.best;
      ring = h.ring;
      distinct = h.distinct;
      sorted = h.sorted;
    }

    inserted-Laddered :
        (ls : List ℕ)
        → is_traded own_side ≡ true
        → has new ls ≡ false
        → length ls ≤ b.orders_at_price_pool.size
        → ((y : ℕ) → has y ls ≡ true → level_price own_side b new ≢ level_price own_side b y)
        → IsLadder own_side b ls
        → Outcome NoFault
            (λ _ c. Laddered own_side new ls (tabled new b) c)
            (add_orders_at_price new b)
    inserted-Laddered [] t fresh enough differs h =
        weaken (for_all _ (λ i. add_only_level new i b h.best)) (λ _ c k. only-Laddered new b c k)
    inserted-Laddered (l ∷ ls) t fresh enough differs h =
        subst (Outcome NoFault (λ _ c. Laddered own_side new (l ∷ ls) (tabled new b) c))
          (sym (
            add_next_level new b l _ h.best (
              find_target-locate own_side (level_at new b).price (tabled new b) l ls (omega arith)
                h.distinct h.ring)))
          (at_place own_side new l ls (tabled new b) t refl fresh differs
            (tabled-IsLadder (l ∷ ls) h) (located own_side (tabled new b) l new l ls))

    -- What differs between a book and the one that the level `new` has come into.
    pub record LevelCame (ls : List ℕ) (c : Book K I) : Type 0 where
      pub ladder : IsLadder own_side c (place own_side (level_price own_side b) new ls)
      pub table :
          c.price_orders_at_price
          ≡ update b.price_orders_at_price (price_to_index (level_at new b).price) (some new)
      pub orders : c.order_pool ≡ b.order_pool
      pub index : c.order_index ≡ b.order_index
      pub size : c.orders_at_price_pool.size ≡ b.orders_at_price_pool.size
      pub next_free :
          c.orders_at_price_pool.next_free_index ≡ b.orders_at_price_pool.next_free_index
      pub used :
          (i : ℕ)
          → (c.orders_at_price_pool.store i).is_free ≡ (b.orders_at_price_pool.store i).is_free
      pub side : (i : ℕ) → (level_at i c).side ≡ (level_at i b).side
      pub price : (i : ℕ) → (level_at i c).price ≡ (level_at i b).price
      pub first_order : (i : ℕ) → (level_at i c).first_order ≡ (level_at i b).first_order
      pub others :
          (y : ℕ)
          → has y (new ∷ ls) ≡ false
          → (next_entry_of c y ≡ next_entry_of b y) × (prev_entry_of c y ≡ prev_entry_of b y)
      pub other_best_is : other_best own_side c ≡ other_best own_side b

    -- A new level, not in the list of its side and at a price that no level there has, on a side with
    -- no more levels than the pool has blocks, comes without a fault to its place by price in the
    -- ring of the side's levels, and is the best level if it is first. The entry of the table of
    -- prices at the index of its price becomes the new level, whatever the entry was. The orders with
    -- their map, the pool of levels but for links, the links of all levels that are not in this ring
    -- and the other side's best level stay as they are.
    pub add_orders_at_price-Laddered :
        (ls : List ℕ)
        → is_traded own_side ≡ true
        → has new ls ≡ false
        → length ls ≤ b.orders_at_price_pool.size
        → ((y : ℕ) → has y ls ≡ true → level_price own_side b new ≢ level_price own_side b y)
        → IsLadder own_side b ls
        → Outcome NoFault (λ _ c. LevelCame ls c) (add_orders_at_price new b)
    add_orders_at_price-Laddered ls t fresh enough differs h =
        weaken (inserted-Laddered ls t fresh enough differs h) λ _ c k. record {
          ladder = k.0;
          table = (k.1.kept 0).table;
          orders = (k.1.kept 0).orders;
          index = (k.1.kept 0).index;
          size = (k.1.kept 0).size;
          next_free = (k.1.kept 0).next_free;
          used = λ i. (k.1.kept i).used;
          side = λ i. (k.1.kept i).side;
          price = λ i. (k.1.kept i).price;
          first_order = λ i. (k.1.kept i).first_order;
          others = k.1.others;
          other_best_is = k.1.other_best_is;
        }
