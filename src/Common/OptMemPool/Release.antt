-- ===== src/Common/OptMemPool/Release.antt =====
-- common/opt_mem_pool.h against common/mem_pool.h.
use zquant_system.Prelude.{ℕ, zero, suc, ◌≡◌, refl, inl, inr, Bool, true, Bool-cases, arith}
use zquant_system.Common.Fault.{Result, ok, err, and_then, pure}
use zquant_system.Common.MemPool.{ObjectBlock, MemPool, next_index, move_to}
use zquant_system.Common.MemPool
use zquant_system.Common.OptMemPool

module _ (debug : Bool) {T : Type 0} where
  find_free-same :
      (fuel : ℕ) (store : ℕ → ObjectBlock T) (size initial i j : ℕ)
      → MemPool.find_free fuel store size initial i ≡ ok j
      → OptMemPool.find_free debug fuel store size initial i ≡ ok j
  unfolding MemPool.find_free OptMemPool.find_free
  find_free-same zero store size initial i j e = absurd (ground arith)
  find_free-same (suc fuel) store size initial i j e =
      ground (arith, find_free-same fuel store size initial (next_index size i) j)

  passes : (b : Bool) (s : MemPool T) → b ≡ true → OptMemPool.debug_assert debug b s ≡ ok (tt, s)
  passes b s e = ground arith

  -- The rest of allocate() behind the scan.
  move_on-same :
      (filled q : MemPool T) (next i : ℕ) (r s : Result ℕ)
      → ((j : ℕ) → r ≡ ok j → s ≡ ok j)
      → and_then {S = MemPool T} (move_to r filled) (λ _. pure next) ≡ ok (i, q)
      → and_then {S = MemPool T} (move_to s filled) (λ _. pure next) ≡ ok (i, q)
  move_on-same filled q next i (ok j) s h e = rw (h j refl) e
  move_on-same filled q next i (err a) s h e = absurd (ground arith)

  -- What allocate() of the checked pool returns, with the pool that it leaves, that of the pool
  -- without the checks returns and leaves as well, in a debug build and in a release build.
  pub allocate-same :
      (x : T) (p q : MemPool T) (i : ℕ)
      → MemPool.allocate x p ≡ ok (i, q)
      → OptMemPool.allocate debug x p ≡ ok (i, q)
  unfolding MemPool.allocate OptMemPool.allocate MemPool.update_next_free_index
      OptMemPool.update_next_free_index
  allocate-same x p q i e = elim (Bool-cases (p.store p.next_free_index).is_free) [
    | inl free ↦ rw (passes _ p free) (
        move_on-same _ q p.next_free_index i _ _
          (λ j. find_free-same (suc p.size) _ p.size p.next_free_index p.next_free_index j)
          (rw free at e))
    | inr used ↦ absurd (ground arith)
  ]

  -- What deallocate() of the checked pool does, that of the pool without the checks does as well.
  pub deallocate-same :
      (i : ℕ) (p q : MemPool T)
      → MemPool.deallocate i p ≡ ok (tt, q)
      → OptMemPool.deallocate debug i p ≡ ok (tt, q)
  unfolding MemPool.deallocate OptMemPool.deallocate
  deallocate-same i p q e = ground arith
