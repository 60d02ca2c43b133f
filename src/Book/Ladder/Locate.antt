-- ===== src/Book/Ladder/Locate.antt =====
-- Where a new level goes: the walk of addOrdersAtPrice() over the ring, find_target() of Book/Levels.
use zquant_system.Prelude.{
  ap, ℕ, zero, suc, ◌+◌, ◌<◌, ◌≡◌, ◌≢◌, refl, ◌∙◌, inl, inr, Bool, true, false, some, List, [], ◌∷◌,
  arith, ◌==◌, Bool-cases, if◌then◌else◌, length,
}
use zquant_system.Common.Types.{Side, Price}
use zquant_system.Common.Fault.{ok}
use zquant_system.Book.{Book, level_at, goes_after}
use zquant_system.Book.Levels.{walk, find_target}
use zquant_system.Book.Ladder.{next_entry_of, prev_entry_of}
use zquant_system.Book.Ring.{has, IsDistinct, Links}

module _ {K I : Type 0} (side : Side) (price : Price) (b : Book K I) where
  -- The first level that the price does not go after; behind all levels, `best` and true.
  unfoldable pub locate : (best : ℕ) → List ℕ → ℕ × Bool
  locate best [] = (best, true)
  locate best (l ∷ ls) =
      if goes_after side price (level_at l b).price then locate best ls else (l, false)

  walk_best : (fuel best : ℕ) → walk (suc fuel) side price best best true b ≡ ok (best, true)
  unfolding walk
  walk_best fuel best = ground arith

  walk_stop : (fuel best l : ℕ) → walk (suc fuel) side price best l false b ≡ ok (l, false)
  unfolding walk
  walk_stop fuel best l = refl

  walk_stay :
      (fuel best l : ℕ)
      → best ≢ l
      → goes_after side price (level_at l b).price ≡ false
      → walk (suc (suc fuel)) side price best l true b ≡ ok (l, false)
  unfolding walk
  walk_stay fuel best l ne e = rw (e, other) refl
    where
      other : (l == best) ≡ false
      other = ground arith

  walk_on :
      (fuel best l next : ℕ)
      → best ≢ l
      → goes_after side price (level_at l b).price ≡ true
      → next_entry_of b l ≡ some next
      → walk (suc fuel) side price best l true b ≡ walk fuel side price best next true b
  unfolding walk
  walk_on fuel best l next ne e f = rw (e, other, f) refl
    where
      other : (l == best) ≡ false
      other = ground arith

  walk-locate :
      (fuel best l : ℕ) (ls : List ℕ)
      → length ls + 1 < fuel
      → has best (l ∷ ls) ≡ false
      → Links (next_entry_of b) (prev_entry_of b) l ls best
      → walk fuel side price best l true b ≡ ok (locate best (l ∷ ls))
  unfolding locate
  walk-locate zero best l ls h out k = absurd (omega arith)
  walk-locate (suc zero) best l ls h out k = absurd (omega arith)
  walk-locate (suc (suc fuel)) best l ls h out k =
      elim (Bool-cases (goes_after side price (level_at l b).price)) [
        | inl e ↦
            elim ls
                as (λ ls.
                  length ls + 1 < suc (suc fuel)
                  → has best (l ∷ ls) ≡ false
                  → Links (next_entry_of b) (prev_entry_of b) l ls best
                  → walk (suc (suc fuel)) side price best l true b ≡ ok (locate best (l ∷ ls))) [
                    | [] ↦ λ h out k.
                        walk_on (suc fuel) best l best (ground arith) e k.0
                        ∙ walk_best fuel best
                        ∙ rw e refl
                    | (x ∷ ls) ↦ λ h out k.
                        walk_on (suc fuel) best l x (ground arith) e k.0
                        ∙ walk-locate (suc fuel) best x ls (omega arith) (ground arith) k.2
                        ∙ rw e refl
                  ]
              h out k
        | inr e ↦ walk_stay fuel best l (ground arith) e ∙ rw e refl
      ]

  -- The walk starts with the test of its first level done.
  walk_from :
      (fuel best l : ℕ) (ls : List ℕ)
      → length ls + 1 < suc fuel
      → has best (l ∷ ls) ≡ false
      → Links (next_entry_of b) (prev_entry_of b) l ls best
      → walk (suc fuel) side price best l (goes_after side price (level_at l b).price) b
        ≡ ok (locate best (l ∷ ls))
  unfolding locate
  walk_from fuel best l ls h out k =
      elim (Bool-cases (goes_after side price (level_at l b).price)) [
        | inl e ↦
            ap (λ g. walk (suc fuel) side price best l g b) e
            ∙ walk-locate (suc fuel) best l ls h out k
        | inr e ↦
            ap (λ g. walk (suc fuel) side price best l g b) e ∙ walk_stop fuel best l ∙ rw e refl
      ]

  -- In a ring of different levels, no more than the pool's blocks, the search for the place comes to
  -- an end, at the first level that the price does not go after, or back at the best one.
  pub find_target-locate :
      (best : ℕ) (ls : List ℕ)
      → length ls < b.orders_at_price_pool.size
      → IsDistinct (best ∷ ls)
      → Links (next_entry_of b) (prev_entry_of b) best ls best
      → find_target side price best b ≡ ok (locate best (best ∷ ls))
  unfolding find_target locate
  find_target-locate best ls h d k =
      elim (Bool-cases (goes_after side price (level_at best b).price)) [
        | inr e ↦ rw (e, find_target) (walk_stop _ best best)
        | inl e ↦
            elim ls
                as (λ ls.
                  length ls < b.orders_at_price_pool.size
                  → IsDistinct (best ∷ ls)
                  → Links (next_entry_of b) (prev_entry_of b) best ls best
                  → find_target side price best b ≡ ok (locate best (best ∷ ls))) [
                    | [] ↦ λ h d k.
                        rw (e, k.0, find_target)
                          (ap
                              (λ g.
                                walk (suc (suc b.orders_at_price_pool.size)) side price best best g
                                  b)
                              e
                            ∙ walk_best (suc b.orders_at_price_pool.size) best)
                    | (l ∷ ls) ↦ λ h d k.
                        rw (e, k.0, find_target) (walk_from _ best l ls (omega arith) d.0 k.2)
                  ]
              h d k
      ]
