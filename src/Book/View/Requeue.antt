-- ===== src/Book/View/Requeue.antt =====
-- A change of the orders of one level of a book.
use zquant_system.Prelude.{
  ℕ, ◌≡◌, ◌≢◌, ◌<◌, refl, sym, ◌∙◌, ap, subst, fun_ext, inl, inr, true, false, some, List, [], ◌∷◌,
  ◌++◌, ◌==◌, arith, Bool-cases, update,
}
use zquant_system.Common.Types.{Side}
use zquant_system.Common.Fault.{Outcome, NoFault, weaken}
use zquant_system.Book.{Book, level_at, get_orders_at_price, price_to_index}
use zquant_system.Book.Orders.{append_order, unlink_order}
use zquant_system.Book.Ring.{has, head?, erase, Ring-frame, has-append, has-erase}
use zquant_system.Book.Ring.Splice.{Ring-Before}
use zquant_system.Book.Queue.{
  IsQueue, Relinked, append_order-Appended, Appended-IsQueue, Appended-others,
  unlink_order-Unlinked, Unlinked-IsQueue, Unlinked-others, next_order_of, prev_order_of,
}
use zquant_system.Book.Ladder.{prev_entry_of}
use zquant_system.Book.Ladder.Sorted.{IsLadder, IsSorted, is_traded}
use zquant_system.Book.View.{View, IsNowhere, Represents, IsLevel, IsOrderOf, ladder, with_queue}

some_head : (u : ℕ) (xs : List ℕ) → has u xs ≡ true → (p : ℕ) × (head? xs ≡ some p)
some_head u [] h = absurd (ground arith)
some_head u (x ∷ xs) h = (x, refl)

module _ {K I : Type 0} where
  -- An order stands at one level only.
  pub one_level :
      (b : Book K I) (v : View) (r : Represents b v) (s t : Side) (l k p : ℕ)
      → is_traded s ≡ true
      → is_traded t ≡ true
      → has l (ladder s v) ≡ true
      → has k (ladder t v) ≡ true
      → has p (v.queue l) ≡ true
      → has p (v.queue k) ≡ true
      → l ≡ k
  one_level b v r s t l k p hs ht hl hk pl pk =
      let one = r.levels s hs l hl in
      let two = r.levels t ht k hk in
      some_inj (
        sym one.slot
        ∙ ap (λ x. get_orders_at_price x b)
            (sym (one.members p pl).price ∙ (two.members p pk).price)
        ∙ two.slot)
    where
      some_inj : {x y : ℕ} → some x ≡ some y → x ≡ y
      some_inj e = ground arith

  IsOrderOf-Relinked :
      (b c : Book K I) (l p : ℕ) → ((i : ℕ) → Relinked i b c) → IsOrderOf b l p → IsOrderOf c l p
  IsOrderOf-Relinked b c l p k o = record {
    used = (k p).used ∙ o.used;
    in_pool = subst (λ n. p < n) (sym (k p).size) o.in_pool;
    side = (k p).side ∙ o.side ∙ sym (k l).level_side;
    price = (k p).price ∙ o.price ∙ sym (k l).level_price;
  }

  IsLadder-Relinked :
      (b c : Book K I) (side : Side) (ls : List ℕ)
      → ((i : ℕ) → Relinked i b c)
      → IsLadder side b ls
      → IsLadder side c ls
  IsLadder-Relinked b c side ls k h = record {
    best = rw ((k 0).bids, (k 0).asks) h.best;
    ring =
        Ring-frame {prev = prev_entry_of b} ls (λ y _. ((k y).next_entry, (k y).prev_entry)) h.ring;
    distinct = h.distinct;
    sorted = subst (λ f. IsSorted side f ls) (sym (fun_ext (λ i. (k i).level_price))) h.sorted;
  }

  IsLevel-Relinked :
      (b c : Book K I) (side : Side) (l : ℕ) (queue queue' : List ℕ)
      → ((i : ℕ) → Relinked i b c)
      → IsLevel b side l queue
      → IsQueue c l queue'
      → (p : ℕ) × (head? queue' ≡ some p)
      → ((p : ℕ) → has p queue' ≡ true → IsOrderOf b l p)
      → IsLevel c side l queue'
  IsLevel-Relinked b c side l queue queue' k h q first members = record {
    used = (k l).level_used ∙ h.used;
    in_pool = subst (λ n. l < n) (sym (k l).levels_size) h.in_pool;
    side = (k l).level_side ∙ h.side;
    slot =
        rw ((k l).level_price)
          (ap (λ t. t (price_to_index (level_at l b).price)) (k l).table ∙ h.slot);
    orders = q;
    first = first;
    members = λ p m. IsOrderOf-Relinked b c l p k (members p m);
  }

  pub requeue :
      (b c : Book K I) (v : View) (l : ℕ) (queue' : List ℕ)
      → Represents b v
      → ((i : ℕ) → Relinked i b c)
      → IsQueue c l queue'
      → (p : ℕ) × (head? queue' ≡ some p)
      → ((p : ℕ) → has p queue' ≡ true → IsOrderOf b l p)
      → ((k : ℕ) (side : Side)
          → is_traded side ≡ true
          → has k (ladder side v) ≡ true
          → k ≢ l
          → IsQueue c k (v.queue k))
      → Represents c (with_queue l queue' v)
  requeue b c v l queue' r k q first members others = record {
    ladders = λ side t. IsLadder-Relinked b c side _ k (r.ladders side t);
    levels = λ side t m h. level side t m h;
    table = λ i m e.
        let (f, side, t, h) = r.table i m (sym (ap (λ t. t i) (k 0).table) ∙ e) in
        (ap price_to_index (k m).level_price ∙ f, side, t, h);
  }
    where
      own :
          (side : Side)
          → is_traded side ≡ true
          → (m : ℕ) → l ≡ m
          → has m (ladder side v) ≡ true
          → IsLevel c side m queue'
      own side t m e =
          subst (λ x. has x (ladder side v) ≡ true → IsLevel c side x queue') e
            (λ h.
              IsLevel-Relinked b c side l (v.queue l) queue' k (r.levels side t l h) q first
                members)

      level :
          (side : Side)
          → is_traded side ≡ true
          → (m : ℕ) → has m (ladder side v) ≡ true
          → IsLevel c side m (update v.queue l queue' m)
      level side t m h = elim (Bool-cases (l == m)) [
        | inl e ↦ rw e (own side t m (ground arith) h)
        | inr e ↦
            let kept = r.levels side t m h in
            rw e (
              IsLevel-Relinked b c side m (v.queue m) (v.queue m) k kept
                (others m side t h (λ f. ground arith)) kept.first kept.members)
      ]

  pub apart :
      (b : Book K I) (v : View) (r : Represents b v) (s t : Side) (l k p : ℕ)
      → is_traded s ≡ true
      → is_traded t ≡ true
      → has l (ladder s v) ≡ true
      → has k (ladder t v) ≡ true
      → k ≢ l
      → has p (v.queue l) ≡ true
      → has p (v.queue k) ≡ false
  apart b v r s t l k p hs ht hl hk ne pl = elim (Bool-cases (has p (v.queue k))) [
    | inl pk ↦ absurd (ne (sym (one_level b v r s t l k p hs ht hl hk pl pk)))
    | inr e ↦ e
  ]

  -- On a book that stands for lists of orders, an order `p` that no level has, and whose side and
  -- price are those of the level `l`, goes without a fault behind the orders of `l`. The book stands
  -- for the same lists otherwise, and nothing changes but pointers between orders.
  pub append_order-Represents :
      (p l : ℕ) (side : Side) (b : Book K I) (v : View)
      → Represents b v
      → is_traded side ≡ true
      → has l (ladder side v) ≡ true
      → IsNowhere p v
      → IsOrderOf b l p
      → Outcome NoFault
          (λ _ c. Represents c (with_queue l (v.queue l ++ p ∷ []) v) × ((i : ℕ) → Relinked i b c))
          (append_order p l b)
  append_order-Represents p l side b v r t h out o = go (v.queue l) refl (r.levels side t l h)
    where
      go :
          (q : List ℕ)
          → v.queue l ≡ q
          → IsLevel b side l q
          → Outcome NoFault
              (λ _ c. Represents c (with_queue l (q ++ p ∷ []) v) × ((i : ℕ) → Relinked i b c))
              (append_order p l b)
      go [] e level = absurd (ground (arith, level.first.1))
      go (w ∷ q) e level =
          let (u, f, g, i) =
            Ring-Before (next_order_of b) (prev_order_of b) (w ∷ q) w (ground arith)
              level.orders.ring in
          weaken
            (append_order-Appended p l u w b level.orders.first f (ground (arith, fresh))
              (ground (arith, fresh, i)))
            λ _ c a. (
              requeue b c v l (w ∷ q ++ p ∷ []) r a.relinked
                  (Appended-IsQueue p u w l q b c a f fresh level.orders) (w, refl)
                  (λ y m. with_new y m)
                  (λ k s t' h' ne.
                    Appended-others p u w k (v.queue k) b c a
                      (apart b v r side s l k u t t' h h' ne (ap (has u) e ∙ i)) (out s k t' h')
                      (apart b v r side s l k w t t' h h' ne (ap (has w) e ∙ ground arith))
                      (r.levels s t' k h').orders),
              a.relinked,
            )
        where
          fresh : has p (w ∷ q) ≡ false
          fresh = ap (has p) (sym e) ∙ out side l t h

          with_new : (y : ℕ) → has y (w ∷ q ++ p ∷ []) ≡ true → IsOrderOf b l y
          with_new y m = elim (Bool-cases (y == p)) [
            | inl same ↦ subst (IsOrderOf b l) (sym (ground arith)) o
            | inr other ↦ level.members y (ground (arith, has-append y q (p ∷ [])))
          ]

  -- The order `p`, between `u` and `w` of the level `l`, goes.
  pub unlink_order-Represents :
      (p l u w : ℕ) (side : Side) (b : Book K I) (v : View)
      → Represents b v
      → is_traded side ≡ true
      → has l (ladder side v) ≡ true
      → has p (v.queue l) ≡ true
      → prev_order_of b p ≡ some u
      → next_order_of b p ≡ some w
      → p ≢ u
      → p ≢ w
      → has u (v.queue l) ≡ true
      → has w (v.queue l) ≡ true
      → Outcome NoFault
          (λ _ c. Represents c (with_queue l (erase p (v.queue l)) v) × ((i : ℕ) → Relinked i b c))
          (unlink_order p (some l) b)
  unlink_order-Represents p l u w side b v r t h inside e f m n hu hw =
      weaken (unlink_order-Unlinked p l u w b e f n m) λ _ c a. (
        requeue b c v l (erase p (v.queue l)) r a.relinked
            (Unlinked-IsQueue p l u w (v.queue l) b c a e f m n inside level.orders)
            (some_head u (erase p (v.queue l))
              (has-erase u p (v.queue l) level.orders.distinct ∙ ground arith))
            (λ y k.
              level.members y (ground (arith, has-erase y p (v.queue l) level.orders.distinct)))
            (λ k s t' h' ne.
              Unlinked-others p l u w k (v.queue k) b c a ne
                (apart b v r side s l k u t t' h h' ne hu)
                (apart b v r side s l k p t t' h h' ne inside)
                (apart b v r side s l k w t t' h h' ne hw) (r.levels s t' k h').orders),
        a.relinked,
      )
    where
      level : IsLevel b side l (v.queue l)
      level = r.levels side t l h
