-- ===== src/Book/Ladder/Sorted.antt =====
-- Levels by price, the best first: the place of a new price among them.
use zquant_system.Prelude.{
  ℕ, ◌≡◌, ◌≢◌, refl, sym, ap, subst, inl, inr, Bool, true, false, ◌||◌, List, [], ◌∷◌, ◌++◌, arith,
  ◌==◌, Bool-cases, if◌then◌else◌,
}
use zquant_system.Common.Types.{Side, Price, is_buy, is_sell}
use zquant_system.Book.{Book, level_at, goes_after, goes_before, best_of}
use zquant_system.Book.Ring.{head?, Ring, has, has-erase, erase, IsDistinct}
use zquant_system.Book.Ladder.{next_entry_of, prev_entry_of}
use zquant_system.Book.Ladder.Locate.{locate}

abbrev pub is_traded : Side → Bool
is_traded side = is_buy side || is_sell side

goes_before_trans :
    (side : Side) (p q r : Price)
    → goes_before side p q ≡ true
    → goes_before side q r ≡ true
    → goes_before side p r ≡ true
goes_before_trans side p q r h k = ground arith

goes_after-before :
    (side : Side) (p q : Price) → goes_after side p q ≡ true → goes_before side q p ≡ true
goes_after-before side p q h = ground arith

pub not_after-before :
    (side : Side) (p q : Price)
    → is_traded side ≡ true
    → p ≢ q
    → goes_after side p q ≡ false
    → goes_before side p q ≡ true
not_after-before side p q t ne h = ground arith

pub after-not_before :
    (side : Side) (p q : Price) → goes_after side p q ≡ true → goes_before side p q ≡ false
after-not_before side p q h = ground arith

module _ (side : Side) (price_of : ℕ → Price) where
  abbrev pub IsSorted : List ℕ → Type 0
  IsSorted [] = Unit
  IsSorted (l ∷ ls) =
      ((y : ℕ) → has y ls ≡ true → goes_before side (price_of l) (price_of y) ≡ true) × IsSorted ls

  -- The level `new` before the first one that its price does not go after.
  unfoldable pub place : ℕ → List ℕ → List ℕ
  place new [] = new ∷ []
  place new (l ∷ ls) =
      if goes_after side (price_of new) (price_of l) then l ∷ place new ls else new ∷ l ∷ ls

  pub has-place : (a new : ℕ) (ls : List ℕ) → has a (place new ls) ≡ ((a == new) || has a ls)
  unfolding place
  has-place a new [] = ground arith
  has-place a new (l ∷ ls) = ground (arith, has-place a new ls)

  pub IsDistinct-place :
      (new : ℕ) (ls : List ℕ) → IsDistinct ls → has new ls ≡ false → IsDistinct (place new ls)
  unfolding place
  IsDistinct-place new [] d h = (refl, tt)
  IsDistinct-place new (l ∷ ls) d h = ground (arith, has-place l new ls, IsDistinct-place new ls)

  before_place :
      (new l y : ℕ) (ls : List ℕ)
      → goes_after side (price_of new) (price_of l) ≡ true
      → ((z : ℕ) → has z ls ≡ true → goes_before side (price_of l) (price_of z) ≡ true)
      → has y (place new ls) ≡ true
      → goes_before side (price_of l) (price_of y) ≡ true
  before_place new l y ls after first h = elim (Bool-cases (y == new)) [
    | inl e ↦
        subst (λ z. goes_before side (price_of l) (price_of z) ≡ true) (sym (ground arith))
          (goes_after-before side (price_of new) (price_of l) after)
    | inr e ↦ first y (ground (arith, has-place y new ls))
  ]

  before_all :
      (new l y : ℕ) (ls : List ℕ)
      → goes_before side (price_of new) (price_of l) ≡ true
      → ((z : ℕ) → has z ls ≡ true → goes_before side (price_of l) (price_of z) ≡ true)
      → has y (l ∷ ls) ≡ true
      → goes_before side (price_of new) (price_of y) ≡ true
  before_all new l y ls ahead first h = elim (Bool-cases (y == l)) [
    | inl e ↦
        subst (λ z. goes_before side (price_of new) (price_of z) ≡ true) (sym (ground arith)) ahead
    | inr e ↦
        goes_before_trans side (price_of new) (price_of l) (price_of y) ahead
          (first y (ground arith))
  ]

  pub IsSorted-place :
      (new : ℕ) (ls : List ℕ)
      → is_traded side ≡ true
      → ((y : ℕ) → has y ls ≡ true → price_of new ≢ price_of y)
      → IsSorted ls
      → IsSorted (place new ls)
  unfolding place
  IsSorted-place new [] t ne s = (λ y h. absurd (ground arith), tt)
  IsSorted-place new (l ∷ ls) t ne (first, s) =
      elim (Bool-cases (goes_after side (price_of new) (price_of l))) [
        | inl after ↦ rw after (
          λ y h. before_place new l y ls after first h,
          IsSorted-place new ls t (λ y h. ne y (ground arith)) s,
        )
        | inr ahead ↦ rw ahead (
          λ y h.
              before_all new l y ls
                (not_after-before side (price_of new) (price_of l) t (ne l (ground arith)) ahead)
                first h,
          (first, s),
        )
      ]

  pub IsSorted-erase : (l : ℕ) (ls : List ℕ) → IsDistinct ls → IsSorted ls → IsSorted (erase l ls)
  IsSorted-erase l [] d s = tt
  IsSorted-erase l (x ∷ ls) (out, d) (first, s) = elim (Bool-cases (l == x)) [
    | inl here ↦ rw here s
    | inr other ↦
        rw other (λ y h. first y (ground (arith, has-erase y l ls d)), IsSorted-erase l ls d s)
  ]

module _ {K I : Type 0} (side : Side) (b : Book K I) where
  -- The price of each level.
  abbrev pub level_price : ℕ → Price
  level_price l = (level_at l b).price

  -- The search finds the place, behind all levels, ahead of them, or between two.
  pub data Located (best new l : ℕ) (ls : List ℕ) : Type 0 where
    behind :
        locate side (level_price new) b best (l ∷ ls) ≡ (best, true)
        → place side level_price new (l ∷ ls) ≡ l ∷ ls ++ new ∷ []
        → Located best new l ls
    ahead :
        locate side (level_price new) b best (l ∷ ls) ≡ (l, false)
        → place side level_price new (l ∷ ls) ≡ new ∷ l ∷ ls
        → goes_after side (level_price new) (level_price l) ≡ false
        → Located best new l ls
    between :
        (front : List ℕ) (target : ℕ) (back : List ℕ)
        → ls ≡ front ++ target ∷ back
        → locate side (level_price new) b best (l ∷ ls) ≡ (target, false)
        → place side level_price new (l ∷ ls) ≡ l ∷ front ++ new ∷ target ∷ back
        → goes_after side (level_price new) (level_price l) ≡ true
        → Located best new l ls

  later :
      (best new l k : ℕ) (ls : List ℕ)
      → goes_after side (level_price new) (level_price l) ≡ true
      → Located best new k ls
      → Located best new l (k ∷ ls)
  unfolding place locate
  later best new l k ls e (behind f g) = behind (rw e f) (rw e (ap (λ x. l ∷ x) g))
  later best new l k ls e (ahead f g h) = between [] k ls refl (rw e f) (rw e (ap (λ x. l ∷ x) g)) e
  later best new l k ls e (between front target back split f g h) =
      between (k ∷ front) target back (ap (λ x. k ∷ x) split) (rw e f) (rw e (ap (λ x. l ∷ x) g)) e

  pub located : (best new l : ℕ) (ls : List ℕ) → Located best new l ls
  unfolding place locate
  located best new l [] = elim (Bool-cases (goes_after side (level_price new) (level_price l))) [
    | inr e ↦ ahead (rw e refl) (rw e refl) e
    | inl e ↦ behind (rw e refl) (rw e refl)
  ]
  located best new l (k ∷ ls) =
      elim (Bool-cases (goes_after side (level_price new) (level_price l))) [
        | inr e ↦ ahead (rw e refl) (rw e refl) e
        | inl e ↦ later best new l k ls e (located best new k ls)
      ]

  -- The levels of a side: the pointers make a ring, and the best price comes first.
  pub record IsLadder (ls : List ℕ) : Type 0 where
    pub best : best_of side b ≡ head? ls
    pub ring : Ring (next_entry_of b) (prev_entry_of b) ls
    pub distinct : IsDistinct ls
    pub sorted : IsSorted side level_price ls
