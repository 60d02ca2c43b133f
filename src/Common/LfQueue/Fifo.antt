-- ===== src/Common/LfQueue/Fifo.antt =====
-- common/lf_queue.h: the queue as the list of its contents, and its test for a full one.
use zquant_system.Prelude.{
  ℕ, zero, suc, ◌+◌, ◌-◌, ◌%◌, ◌^◌, ◌≤◌, ◌<◌, ◌≡◌, refl, ◌≢◌, ◌∙◌, ap, ◌⊎◌, inl, inr, none, some,
  List, [], ◌∷◌, ◌++◌, arith, ltb, ltb→lt, Bool-cases, sym, update, update_self, if◌then◌else◌,
}
use zquant_system.Common.LfQueue.{
  LfQueue, mask, masked, is_full, try_get_next_to_write_to, push, update_write_index,
  get_next_to_read, update_read_index,
}

different_slots : (cap a d : ℕ) → 0 < d → d < cap → a % cap ≢ (a + d) % cap
different_slots cap a d h k e = grind arith

same_slot : (cap r w : ℕ) → w ≡ r + cap → w % cap ≡ r % cap
same_slot cap r w e = grind arith

module _ {T : Type 0} where
  -- `n` slots from index `r` on.
  window : (ℕ → T) → ℕ → ℕ → ℕ → List T
  window store cap r zero = []
  window store cap r (suc n) = store (r % cap) ∷ window store cap (r + 1) n

  window-snoc :
      (store : ℕ → T) (cap r n : ℕ)
      → window store cap r (suc n) ≡ window store cap r n ++ store ((r + n) % cap) ∷ []
  unfolding window
  window-snoc store cap r zero = ap (λ i. store (i % cap) ∷ []) (omega arith)
  window-snoc store cap r (suc n) =
      let e : r + 1 + n ≡ r + suc n = omega arith in
      ap (λ l. store (r % cap) ∷ l)
        (window-snoc store cap (r + 1) n
          ∙ ap (λ i. window store cap (r + 1) n ++ store (i % cap) ∷ []) e)

  -- A write to the slot behind the window.
  window-update :
      (store : ℕ → T) (cap r n w : ℕ) (a : T)
      → n < cap
      → w ≡ r + n
      → window (update store (w % cap) a) cap r n ≡ window store cap r n
  unfolding window
  window-update store cap r zero w a h e = refl
  window-update store cap r (suc n) w a h e = ground (
    arith,
    different_slots cap r (suc n) (omega arith) h,
    window-update store cap (r + 1) n w a (omega arith) (omega arith),
  )

  -- The elements not yet read, oldest first.
  pub contents : LfQueue T → List T
  unfolding window
  contents q = window q.store q.capacity q.next_read_index q.num_elements

  -- The three indices agree, and no index is about to wrap.
  pub record IsQueue (q : LfQueue T) : Type 0 where
    pub counted : q.next_write_index ≡ q.next_read_index + q.num_elements
    pub bounded : q.num_elements ≤ q.capacity
    pub some_room : 1 < q.capacity
    pub no_wrap : q.next_write_index + 1 < 2 ^ 64

  -- The queue behind an accepted push.
  unfoldable pub pushed : T → LfQueue T → LfQueue T
  unfolding update_write_index
  pushed a q =
      update_write_index (record q { store = update q.store (masked q q.next_write_index) a })

  push_cases : (a : T) (q : LfQueue T) → push a q ≡ (if is_full q then none else some (pushed a q))
  unfolding push try_get_next_to_write_to pushed
  push_cases a q = ground arith

  contents-pushed :
      (a : T) (q : LfQueue T)
      → IsQueue q
      → q.num_elements < q.capacity
      → contents (pushed a q) ≡ contents q ++ a ∷ []
  unfolding contents pushed
  contents-pushed a q v room =
      let num : (q.num_elements + 1) % 2 ^ 64 ≡ suc q.num_elements = omega arith in
      rw
        (
          num,
          window-snoc,
          window-update q.store q.capacity q.next_read_index q.num_elements q.next_write_index a
              room v.counted,
          v.counted,
        )
        (ap (λ x. window q.store q.capacity q.next_read_index q.num_elements ++ x ∷ [])
          (update_self q.store ((q.next_read_index + q.num_elements) % q.capacity) a))

  -- With a free slot, a push that is not held back puts its element behind the others.
  pub contents-push :
      (a : T) (q t : LfQueue T)
      → IsQueue q
      → q.num_elements < q.capacity
      → push a q ≡ some t
      → contents t ≡ contents q ++ a ∷ []
  contents-push a q t v room e = ground (arith, push_cases a q, contents-pushed a q v room)

  read_window :
      (store : ℕ → T) (cap r n : ℕ)
      → 0 < n
      → window store cap r n ≡ store (r % cap) ∷ window store cap (r + 1) (n - 1)
  unfolding window
  read_window store cap r zero h = absurd (omega arith)
  read_window store cap r (suc n) h =
      ap (λ k. store (r % cap) ∷ window store cap (r + 1) k) (omega arith)

  read_next : (q : LfQueue T) → IsQueue q → 0 < q.num_elements → IsQueue (update_read_index q)
  unfolding update_read_index
  read_next q v h = omega arith

  read_contents :
      (q : LfQueue T)
      → IsQueue q
      → 0 < q.num_elements
      → contents (update_read_index q)
        ≡ window q.store q.capacity (q.next_read_index + 1) (q.num_elements - 1)
  unfolding contents update_read_index
  read_contents q v h =
      let r : (q.next_read_index + 1) % 2 ^ 64 ≡ q.next_read_index + 1 = omega arith in
      let n : (q.num_elements + 2 ^ 64 - 1) % 2 ^ 64 ≡ q.num_elements - 1 = omega arith in rw (r, n)

  -- A queue with unread elements gives the oldest to a read, and the step of the read index takes
  -- just that one off; a queue without any gives null.
  pub contents-read :
      (q : LfQueue T)
      → IsQueue q
      → ((contents q ≡ []) × (get_next_to_read q ≡ none))
        ⊎ ((a : T) × (get_next_to_read q ≡ some a)
            × (contents q ≡ a ∷ contents (update_read_index q))
            × IsQueue (update_read_index q))
  unfolding contents get_next_to_read window
  contents-read q v = elim (Bool-cases (ltb 0 q.num_elements)) [
    | inl some_left ↦ inr (
      q.store (masked q q.next_read_index),
      rw some_left,
      read_window q.store q.capacity q.next_read_index q.num_elements (ltb→lt _ _ some_left)
          ∙ sym (
              ap (λ l. q.store (masked q q.next_read_index) ∷ l)
                (read_contents q v (ltb→lt _ _ some_left))),
      read_next q v (ltb→lt _ _ some_left),
    )
    | inr empty ↦ inl (ground arith, rw empty)
  ]

  -- When the reader is not at index `mask_`, the writer is never held back, however many elements
  -- are unread.
  pub never_full :
      (a : T) (q : LfQueue T)
      → q.next_read_index ≢ mask q
      → (t : LfQueue T) × (push a q ≡ some t) × (t.num_elements ≡ (q.num_elements + 1) % 2 ^ 64)
  unfolding is_full pushed
  never_full a q ne = (pushed a q, ground (arith, push_cases a q), ground arith)

  -- So a push to a full queue overwrites its oldest element: the next read gives the new one.
  pub push_overwrites :
      (a : T) (q : LfQueue T)
      → IsQueue q
      → q.num_elements ≡ q.capacity
      → q.next_read_index ≢ mask q
      → (t : LfQueue T) × (push a q ≡ some t) × (get_next_to_read t ≡ some a)
  unfolding is_full pushed get_next_to_read
  push_overwrites a q v full ne = (
    pushed a q,
    ground (arith, push_cases a q),
    ground (arith, same_slot q.capacity q.next_read_index q.next_write_index),
  )
