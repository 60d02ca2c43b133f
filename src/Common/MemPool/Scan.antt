-- ===== src/Common/MemPool/Scan.antt =====
-- common/mem_pool.h, updateNextFreeIndex(): the outcome of the scan.
use zquant_system.Prelude.{
  ℕ, zero, suc, ◌+◌, ◌-◌, ◌≤◌, ◌<◌, ◌≡◌, refl, ◌≢◌, inl, inr, true, false, arith, ◌==◌, ℕ_discrete,
  Bool-cases, if◌then◌else◌, leb,
}
use zquant_system.Common.Fault.{Result, ok, err, assertion_failed}
use zquant_system.Common.MemPool.{ObjectBlock, next_index, find_free}

-- How many blocks the scan at `i` may still look at before it is back at `initial`.
abbrev distance : ℕ → ℕ → ℕ → ℕ
distance size initial i = if leb (i + 1) initial then initial - i else size - i + initial

-- The outcome of the whole scan: a free block in range, or all blocks are in use.
abbrev pub Found : {T : Type 0} → (ℕ → ObjectBlock T) → ℕ → Result ℕ → Type 0
Found store size (ok j) = (j < size) × ((store j).is_free ≡ true)
Found store size (err e) = (e ≡ assertion_failed) × ((j : ℕ) → j < size → (store j).is_free ≡ false)

module _ {T : Type 0} (store : ℕ → ObjectBlock T) (size initial : ℕ) (small : initial < size) where
  -- The outcome of the scan at `i`: a free block in range, or none free among those not yet seen.
  abbrev Scanned : ℕ → Result ℕ → Type 0
  Scanned i (ok j) = (j < size) × ((store j).is_free ≡ true)
  Scanned i (err e) =
      (e ≡ assertion_failed)
      × ((j : ℕ)
          → j < size
          → distance size initial j ≤ distance size initial i
          → (store j).is_free ≡ false)

  next_closer :
      (i : ℕ)
      → i < size
      → (initial == next_index size i) ≡ false
      → (next_index size i < size)
        × (distance size initial (next_index size i) + 1 ≡ distance size initial i)
  unfolding next_index
  next_closer i h e = ground arith

  only_here :
      (i j : ℕ)
      → i < size
      → j < size
      → (initial == next_index size i) ≡ true
      → distance size initial j ≤ distance size initial i
      → j ≡ i
  unfolding next_index
  only_here i j h k e le = ground arith

  not_later :
      (i j : ℕ)
      → i < size
      → j < size
      → j ≢ i
      → distance size initial j ≤ distance size initial i
      → distance size initial j + 1 ≤ distance size initial i
  not_later i j h k ne le = ground arith

  extend :
      (i : ℕ) (r : Result ℕ)
      → i < size
      → (store i).is_free ≡ false
      → (initial == next_index size i) ≡ false
      → Scanned (next_index size i) r
      → Scanned i r
  extend i (ok j) h used e s = s
  extend i (err x) h used e s = (
    s.0,
    λ j k le. elim (ℕ_discrete j i) [
      | yes here ↦ rw here used
      | no ne ↦ s.1 j k (omega (arith, next_closer i h e, not_later i j h k ne le))
    ],
  )

  find_free-Scanned :
      (fuel i : ℕ)
      → i < size
      → distance size initial i ≤ fuel
      → Scanned i (find_free fuel store size initial i)
  unfolding find_free
  find_free-Scanned zero i h f = absurd (ground arith)
  find_free-Scanned (suc fuel) i h f = elim (Bool-cases (store i).is_free) [
    | inl free ↦ rw free (h, free)
    | inr used ↦ elim (Bool-cases (initial == next_index size i)) [
      | inl back ↦ rw (used, back) (refl, λ j k le. rw (only_here i j h k back le) used)
      | inr on ↦
          rw (used, on)
            (extend i _ h used on (
              find_free-Scanned fuel (next_index size i) (next_closer i h on).0
                (omega (arith, next_closer i h on))))
    ]
  ]

  -- From `initial` the scan sees every block.
  all_seen : (r : Result ℕ) → Scanned initial r → Found store size r
  all_seen (ok j) s = s
  all_seen (err e) s = (s.0, λ j k. s.1 j k (ground arith))

  pub find_free-Found : Found store size (find_free (suc size) store size initial initial)
  find_free-Found = all_seen _ (find_free-Scanned (suc size) initial small (ground arith))
