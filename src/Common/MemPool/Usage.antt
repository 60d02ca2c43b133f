-- ===== src/Common/MemPool/Usage.antt =====
-- common/mem_pool.h, allocate() and deallocate(): what they return, and how many blocks are in use.
use zquant_system.Prelude.{
  ℕ, zero, suc, ◌+◌, ◌≤◌, ◌<◌, ◌≡◌, refl, ◌≢◌, ◌⊎◌, inl, inr, true, false, not, arith, ◌==◌, ◌&&◌,
  ltb, ltb→lt, Bool-cases, update, if◌then◌else◌,
}
use zquant_system.Common.Fault.{
  Result, ok, err, assertion_failed, and_then, pure, Outcome, returns, stops, AnyFault,
}
use zquant_system.Common.MemPool.{
  ObjectBlock, MemPool, find_free, move_to, update_next_free_index, allocate, deallocate,
}
use zquant_system.Common.MemPool.Scan.{Found, find_free-Found}

module _ {T : Type 0} where
  abbrev pub used_block : T → ObjectBlock T
  used_block x = record { object = x; is_free = false }

  abbrev pub freed : ObjectBlock T → ObjectBlock T
  freed b = record { object = b.object; is_free = true }

  -- `next_free_index_` names a free block.
  pub record IsReady (p : MemPool T) : Type 0 where
    pub in_range : p.next_free_index < p.size
    pub next_is_free : (p.store p.next_free_index).is_free ≡ true

  -- The pool once `x` is in block `next_free_index`, before the scan.
  abbrev pub filled : MemPool T → T → MemPool T
  filled p x = record p { store = update p.store p.next_free_index (used_block x) }

  -- What allocate() comes to: the scan's outcome decides.
  abbrev pub Allocated : MemPool T → T → Result ℕ → Result (ℕ × MemPool T) → Type 0
  Allocated p x (ok i) r = r ≡ ok (p.next_free_index, record (filled p x) { next_free_index = i })
  Allocated p x (err e) r = r ≡ err e

  pub scan : MemPool T → T → Result ℕ
  scan p x = find_free (suc p.size) (filled p x).store p.size p.next_free_index p.next_free_index

  move_on :
      (p : MemPool T) (x : T) (r : Result ℕ)
      → Allocated p x r
          (and_then {S = MemPool T} (move_to r (filled p x)) (λ _. pure p.next_free_index))
  move_on p x (ok i) = refl
  move_on p x (err e) = refl

  allocate_cases : (p : MemPool T) (x : T) → IsReady p → Allocated p x (scan p x) (allocate x p)
  unfolding allocate update_next_free_index scan
  allocate_cases p x h = rw (h.next_is_free, update_next_free_index) (move_on p x (scan p x))

  abbrev pub moved : MemPool T → T → ℕ → MemPool T
  moved p x i = record (filled p x) { next_free_index = i }

  abbrev pub AllocateOutcome : MemPool T → T → Type 0
  AllocateOutcome p x =
      ((i : ℕ) × (allocate x p ≡ ok (p.next_free_index, moved p x i)) × IsReady (moved p x i))
      ⊎ ((allocate x p ≡ err assertion_failed)
          × ((j : ℕ) → j < p.size → j ≢ p.next_free_index → (p.store j).is_free ≡ false))

  allocate_by :
      (p : MemPool T) (x : T) (r : Result ℕ)
      → Allocated p x r (allocate x p)
      → Found (filled p x).store p.size r
      → AllocateOutcome p x
  allocate_by p x (ok i) e f = inl (i, e, record { in_range = f.0; next_is_free = f.1 })
  allocate_by p x (err a) e f = inr (rw f.0 at e, λ j k ne. ground (arith, f.1 j k))

  -- From a pool whose next block is free, allocate() hands out that block, now in use and holding
  -- the new object, and leaves all other blocks and a free next block; or every other block was
  -- already in use, and the assertion on the space of the pool stops the program although the
  -- block asked for was free.
  pub allocate_lem : (p : MemPool T) (x : T) → IsReady p → AllocateOutcome p x
  unfolding scan
  allocate_lem p x h =
      allocate_by p x (scan p x) (allocate_cases p x h)
        (find_free-Found (filled p x).store p.size p.next_free_index h.in_range)

  -- deallocate() stops at an index out of range or a block that is free, and otherwise frees just
  -- that block; its object can still be read.
  pub deallocate_lem :
      (p : MemPool T) (i : ℕ)
      → deallocate i p ≡ (
          if ltb i p.size && not (p.store i).is_free
          then ok (tt, record p { store = update p.store i (freed (p.store i)) })
          else err assertion_failed)
  unfolding deallocate
  deallocate_lem p i = ground arith

  pub deallocate-IsReady :
      (p : MemPool T) (i : ℕ)
      → IsReady p
      → IsReady (record p { store = update p.store i (freed (p.store i)) })
  deallocate-IsReady p i h = ground arith

  pub used : ℕ → (ℕ → ObjectBlock T) → ℕ
  used zero store = 0
  used (suc n) store = used n store + (if (store n).is_free then 0 else 1)

  used-update_of_le :
      (n : ℕ) (store : ℕ → ObjectBlock T) (i : ℕ) (b : ObjectBlock T)
      → n ≤ i
      → used n (update store i b) ≡ used n store
  unfolding used
  used-update_of_le zero store i b h = refl
  used-update_of_le (suc n) store i b h = ground (arith, used-update_of_le n store i b)

  pub used-update :
      (n : ℕ) (store : ℕ → ObjectBlock T) (i : ℕ) (b : ObjectBlock T)
      → i < n
      → used n (update store i b) + (if (store i).is_free then 0 else 1)
        ≡ used n store + (if b.is_free then 0 else 1)
  unfolding used
  used-update zero store i b h = absurd (omega arith)
  used-update (suc n) store i b h = elim (Bool-cases (ltb i n)) [
    | inl below ↦ ground (arith, used-update n store i b)
    | inr last ↦ ground (arith, used-update_of_le n store i b)
  ]

  pub used-le : (n : ℕ) (store : ℕ → ObjectBlock T) → used n store ≤ n
  unfolding used
  used-le zero store = omega arith
  used-le (suc n) store = ground (arith, used-le n store)

  pub used-eq :
      (n : ℕ) (s t : ℕ → ObjectBlock T)
      → ((i : ℕ) → (t i).is_free ≡ (s i).is_free)
      → used n t ≡ used n s
  unfolding used
  used-eq zero s t h = refl
  used-eq (suc n) s t h = ground (arith, h n, used-eq n s t h)

  used-eq_below :
      (n p : ℕ) (s t : ℕ → ObjectBlock T)
      → n ≤ p
      → ((i : ℕ) → (t i).is_free ≡ (if p == i then true else (s i).is_free))
      → used n t ≡ used n s
  unfolding used
  used-eq_below zero p s t le h = refl
  used-eq_below (suc n) p s t le h = ground (arith, h n, used-eq_below n p s t (omega arith) h)

  -- Freeing a block that is in use.
  pub used-freed :
      (n p : ℕ) (s t : ℕ → ObjectBlock T)
      → p < n
      → (s p).is_free ≡ false
      → ((i : ℕ) → (t i).is_free ≡ (if p == i then true else (s i).is_free))
      → used n t + 1 ≡ used n s
  unfolding used
  used-freed zero p s t lt was h = absurd (omega arith)
  used-freed (suc n) p s t lt was h = elim (Bool-cases (ltb p n)) [
    | inl below ↦ ground (arith, h n, used-freed n p s t (ltb→lt p n below) was h)
    | inr last ↦ ground (arith, h n, used-eq_below n p s t (ground arith) h)
  ]

  -- What a run of allocate() that returns has done.
  pub record Allocates (p : MemPool T) (x : T) (i : ℕ) (q : MemPool T) : Type 0 where
    pub block : i ≡ p.next_free_index
    pub was_free : (p.store i).is_free ≡ true
    pub store : q.store ≡ update p.store i (used_block x)
    pub size : q.size ≡ p.size

  pub allocate-Allocates : (p : MemPool T) (x : T) → Outcome AnyFault (Allocates p x) (allocate x p)
  unfolding allocate update_next_free_index
  allocate-Allocates p x = elim (Bool-cases (p.store p.next_free_index).is_free) [
    | inl e ↦ rw e (
        go (find_free (suc p.size) (filled p x).store p.size p.next_free_index p.next_free_index) e)
    | inr e ↦ rw e (stops tt)
  ]
    where
      go :
          (r : Result ℕ)
          → (p.store p.next_free_index).is_free ≡ true
          → Outcome AnyFault
              (Allocates p x)
              (and_then {S = MemPool T} (move_to r (filled p x)) (λ _. pure p.next_free_index))
      go (ok i) e = returns (record { block = refl; was_free = e; store = refl; size = refl })
      go (err a) e = stops tt
