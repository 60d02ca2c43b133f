-- ===== src/Book/Ladder/Link.antt =====
-- The links of a new level among the levels of its side: link_at() of Book/Levels.
use zquant_system.Prelude.{
  ℕ, ◌≡◌, ◌≢◌, refl, sym, ◌∙◌, ap, subst, fun_ext, inl, inr, true, false, some, List, [], ◌∷◌, ◌++◌,
  arith, Bool-cases, if◌then◌else◌,
}
use zquant_system.Common.Types.{Side, is_buy}
use zquant_system.Common.Fault.{Outcome, NoFault, weaken}
use zquant_system.Book.{Ptr, Book, level_at, best_of, goes_after, goes_before}
use zquant_system.Book.Levels.{link_at, link_after, link_before}
use zquant_system.Book.Ladder.{
  LevelKept, Placed, is_ahead, next_entry_of, prev_entry_of, link_after-Placed, link_before-Placed,
  link_before-ahead,
}
use zquant_system.Book.Ladder.Locate.{locate}
use zquant_system.Book.Ladder.Sorted.{
  IsLadder, IsSorted, level_price, place, Located, behind, ahead, between, is_traded,
  IsDistinct-place, IsSorted-place, not_after-before, after-not_before,
}
use zquant_system.Book.Ring.{has, has-append, head?, Ring, IsDistinct}
use zquant_system.Book.Ring.Splice.{Ring-append, Ring-insert, Ring-Before, Ring-alone}

module _ {K I : Type 0} where
  -- The best level of the other side.
  abbrev pub other_best : Side → Book K I → Ptr
  other_best side b = if is_buy side then b.asks_by_price else b.bids_by_price

  -- `new` came among `ls`: all else is as it was.
  pub record LevelAdded (side : Side) (new : ℕ) (ls : List ℕ) (b c : Book K I) : Type 0 where
    pub kept : (i : ℕ) → LevelKept i b c
    pub others :
        (y : ℕ)
        → has y (new ∷ ls) ≡ false
        → (next_entry_of c y ≡ next_entry_of b y) × (prev_entry_of c y ≡ prev_entry_of b y)
    pub other_best_is : other_best side c ≡ other_best side b

  abbrev pub Laddered : Side → ℕ → List ℕ → Book K I → Book K I → Type 0
  Laddered side new ls b c =
      IsLadder side c (place side (level_price side b) new ls) × LevelAdded side new ls b c

  module _ (side : Side) (new : ℕ) (ls : List ℕ) (b c : Book K I) (u w : ℕ) (bids asks : Ptr)
      (t : is_traded side ≡ true) (fresh : has new ls ≡ false)
      (differs : (y : ℕ) → has y ls ≡ true → level_price side b new ≢ level_price side b y)
      (p : Placed u new w bids asks b c) (h : IsLadder side b ls) where
    same_prices : level_price side c ≡ level_price side b
    same_prices = fun_ext λ i. (p.kept i).price

    placed-IsLadder :
        (xs : List ℕ)
        → place side (level_price side b) new ls ≡ xs
        → best_of side c ≡ head? xs
        → Ring (next_entry_of c) (prev_entry_of c) xs
        → IsLadder side c (place side (level_price side b) new ls)
    placed-IsLadder xs e f r = record {
      best = f ∙ ap head? (sym e);
      ring = subst (Ring (next_entry_of c) (prev_entry_of c)) (sym e) r;
      distinct = IsDistinct-place side (level_price side b) new ls h.distinct fresh;
      sorted =
          subst (λ f. IsSorted side f (place side (level_price side b) new ls)) (sym same_prices)
            (IsSorted-place side (level_price side b) new ls t differs h.sorted);
    }

    placed-LevelAdded :
        has u ls ≡ true
        → has w ls ≡ true
        → other_best side c ≡ other_best side b
        → LevelAdded side new ls b c
    placed-LevelAdded hu hw e = record {
      kept = p.kept;
      others = λ y out. (
        p.links.next_others y (ground arith) (ground arith),
        p.links.prev_others y (ground arith) (ground arith),
      );
      other_best_is = e;
    }

  module _ (side : Side) (new l : ℕ) (ls : List ℕ) (b : Book K I) (t : is_traded side ≡ true)
      (own : (level_at new b).side ≡ side) (fresh : has new (l ∷ ls) ≡ false)
      (differs : (y : ℕ) → has y (l ∷ ls) ≡ true → level_price side b new ≢ level_price side b y)
      (h : IsLadder side b (l ∷ ls)) where
    is_ahead_is :
        (best : ℕ)
        → is_ahead b new best ≡ goes_before side (level_price side b new) (level_price side b best)
    is_ahead_is best =
        ap (λ s. goes_before s (level_price side b new) (level_price side b best)) own

    insert_behind :
        place side (level_price side b) new (l ∷ ls) ≡ l ∷ ls ++ new ∷ []
        → Outcome NoFault (λ _ c. Laddered side new (l ∷ ls) b c) (link_after new l l b)
    insert_behind e =
        let (u, f, g, i) =
          Ring-Before (next_entry_of b) (prev_entry_of b) (l ∷ ls) l (ground arith) h.ring in
        weaken (link_after-Placed u new l b f g (ground arith) (ground arith)) λ _ c p. (
          placed-IsLadder side new (l ∷ ls) b c u l _ _ t fresh differs p h (l ∷ ls ++ new ∷ []) e
              (rw (p.bids_is, p.asks_is) h.best)
              (Ring-append _ _ _ _ u new l ls p.links h.distinct fresh f h.ring),
          placed-LevelAdded side new (l ∷ ls) b c u l _ _ t fresh differs p h i (ground arith)
              (rw (p.bids_is, p.asks_is) refl),
        )

    module _ (u : ℕ) (f : prev_entry_of b l ≡ some u) (g : next_entry_of b u ≡ some l)
        (i : has u (l ∷ ls) ≡ true)
        (e : place side (level_price side b) new (l ∷ ls) ≡ new ∷ l ∷ ls)
        (not_after : goes_after side (level_price side b new) (level_price side b l) ≡ false) where
      took_over :
          (c : Book K I)
          → c.bids_by_price ≡ (if is_buy (level_at new b).side then some new else b.bids_by_price)
          → c.asks_by_price ≡ (if is_buy (level_at new b).side then b.asks_by_price else some new)
          → (best_of side c ≡ some new) × (other_best side c ≡ other_best side b)
      took_over c eb ea = elim (Bool-cases (is_buy side)) [
        | inl buy ↦ rw (eb, ea, own, buy) (refl, refl)
        | inr sell ↦ rw (eb, ea, own, sell) (refl, refl)
      ]

      insert_ahead_of :
          Outcome NoFault (λ _ c. Laddered side new (l ∷ ls) b c) (link_before new l l b)
      insert_ahead_of =
          weaken
            (link_before-ahead u new l b f g (ground arith) (ground arith)
              (Ring-alone (next_entry_of b) (prev_entry_of b) u l ls i h.distinct h.ring)
              (is_ahead_is l
                ∙ not_after-before side (level_price side b new) (level_price side b l) t
                    (differs l (ground arith)) not_after))
            λ _ c p. (
              placed-IsLadder side new (l ∷ ls) b c u l _ _ t fresh differs p h (new ∷ l ∷ ls) e
                  (took_over c p.bids_is p.asks_is).0
                  (Ring-insert _ _ _ _ u new l [] ls p.links h.distinct fresh f h.ring),
              placed-LevelAdded side new (l ∷ ls) b c u l _ _ t fresh differs p h i (ground arith)
                  (took_over c p.bids_is p.asks_is).1,
            )

    insert_ahead :
        place side (level_price side b) new (l ∷ ls) ≡ new ∷ l ∷ ls
        → goes_after side (level_price side b new) (level_price side b l) ≡ false
        → Outcome NoFault (λ _ c. Laddered side new (l ∷ ls) b c) (link_before new l l b)
    insert_ahead e not_after =
        let (u, f, g, i) =
          Ring-Before (next_entry_of b) (prev_entry_of b) (l ∷ ls) l (ground arith) h.ring in
        insert_ahead_of u f g i e not_after

    insert_between :
        (front : List ℕ) (target : ℕ) (back : List ℕ)
        → ls ≡ front ++ target ∷ back
        → place side (level_price side b) new (l ∷ ls) ≡ l ∷ front ++ new ∷ target ∷ back
        → goes_after side (level_price side b new) (level_price side b l) ≡ true
        → Outcome NoFault (λ _ c. Laddered side new (l ∷ ls) b c) (link_before new l target b)
    insert_between front target back s e after =
        let inside : has target (l ∷ ls) ≡ true =
          ground (arith, has-append target front (target ∷ back)) in
        let (u, f, g, i) =
          Ring-Before (next_entry_of b) (prev_entry_of b) (l ∷ ls) target inside h.ring in
        weaken
          (link_before-Placed u new target l b f g (ground arith) (ground arith) (
            is_ahead_is l
            ∙ after-not_before side (level_price side b new) (level_price side b l) after))
          λ _ c p. (
            placed-IsLadder side new (l ∷ ls) b c u target _ _ t fresh differs p h
                (l ∷ front ++ new ∷ target ∷ back) e (rw (p.bids_is, p.asks_is) h.best)
                (Ring-insert _ _ _ _ u new target (l ∷ front) back p.links
                  (subst IsDistinct (ap (λ x. l ∷ x) s) h.distinct)
                  (subst (λ x. has new (l ∷ x) ≡ false) s fresh) f
                  (subst (Ring _ _) (ap (λ x. l ∷ x) s) h.ring)),
            placed-LevelAdded side new (l ∷ ls) b c u target _ _ t fresh differs p h i inside
                (rw (p.bids_is, p.asks_is) refl),
          )

    pub at_place :
        Located side b l new l ls
        → Outcome NoFault
            (λ _ c. Laddered side new (l ∷ ls) b c)
            (link_at new l (locate side (level_price side b new) b l (l ∷ ls)) b)
    unfolding link_at
    at_place (behind e f) = rw e (insert_behind f)
    at_place (ahead e f g) = rw e (insert_ahead f g)
    at_place (between front target back s e f g) = rw e (insert_between front target back s f g)
