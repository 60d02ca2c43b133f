-- ===== src/Book/Ring/Splice.antt =====
-- A block put into a ring between two neighbours, and a block taken out of it.
use zquant_system.Prelude.{
  if◌then◌else◌, Bool-cases, ℕ, ◌≡◌, ◌≢◌, refl, sym, ◌∙◌, ap, subst, inl, inr, true, false, ◌||◌,
  Option, some, List, [], ◌∷◌, ◌++◌, ◌==◌, arith, append-nil, append_assoc,
}
use zquant_system.Book.{is_at}
use zquant_system.Book.Ring.{
  head?, erase, split, has, IsDistinct, last_of, Links, Ring, has-last, has-append, Links-retarget,
  Links-last, Ring-rotate,
}

pub IsDistinct-insert :
    (xs ys : List ℕ) (p : ℕ)
    → IsDistinct (xs ++ ys)
    → has p (xs ++ ys) ≡ false
    → IsDistinct (xs ++ p ∷ ys)
IsDistinct-insert [] ys p d h = (h, d)
IsDistinct-insert (x ∷ xs) ys p (out, d) h = (
  ground (arith, has-append x xs ys, has-append x xs (p ∷ ys)),
  IsDistinct-insert xs ys p d (ground arith),
)

pub IsDistinct-rotate : (xs ys : List ℕ) → IsDistinct (xs ++ ys) → IsDistinct (ys ++ xs)
IsDistinct-rotate [] ys d = subst IsDistinct (sym (append-nil ys)) d
IsDistinct-rotate (x ∷ xs) ys (out, d) =
    IsDistinct-insert ys xs x (IsDistinct-rotate xs ys d)
      (ground (arith, has-append x xs ys, has-append x ys xs))

-- `p` comes between `u` and `w`.
pub record Inserted (next prev next' prev' : ℕ → Option ℕ) (u p w : ℕ) : Type 0 where
  pub next_before : next' u ≡ some p
  pub next_new : next' p ≡ some w
  pub prev_new : prev' p ≡ some u
  pub prev_behind : prev' w ≡ some p
  pub next_others : (y : ℕ) → y ≢ u → y ≢ p → next' y ≡ next y
  pub prev_others : (y : ℕ) → y ≢ w → y ≢ p → prev' y ≡ prev y

-- `p` is gone from between `u` and `w`.
pub record Taken (next prev next' prev' : ℕ → Option ℕ) (u p w : ℕ) : Type 0 where
  pub next_before : next' u ≡ some w
  pub prev_behind : prev' w ≡ some u
  pub next_others : (y : ℕ) → y ≢ u → y ≢ p → next' y ≡ next y
  pub prev_others : (y : ℕ) → y ≢ w → y ≢ p → prev' y ≡ prev y

module _ (next prev next' prev' : ℕ → Option ℕ) (u p w : ℕ) where
  Links-end :
      (a : ℕ) (xs : List ℕ) (q : ℕ)
      → Links next' prev' a xs p
      → next' p ≡ some q
      → prev' q ≡ some p
      → Links next' prev' a (xs ++ p ∷ []) q
  Links-end a [] q (n, m) e f = (n, m, (e, f))
  Links-end a (x ∷ xs) q (n, m, l) e f = (n, m, Links-end x xs q l e f)

  -- At the end, which is before the first.
  pub Ring-append :
      (xs : List ℕ)
      → Inserted next prev next' prev' u p w
      → IsDistinct (w ∷ xs)
      → has p (w ∷ xs) ≡ false
      → prev w ≡ some u
      → Ring next prev (w ∷ xs)
      → Ring next' prev' (w ∷ xs ++ p ∷ [])
  Ring-append xs i d out e r =
      Links-end w xs w
        (Links-retarget w xs w p d (λ y h ne. i.next_others y (λ f. ne (f ∙ u_is)) (ground arith))
          (λ y h. i.prev_others y (ground arith) (ground arith))
          (subst (λ y. next' y ≡ some p) u_is i.next_before)
          (subst (λ y. prev' p ≡ some y) u_is i.prev_new) r)
        i.next_new i.prev_behind
    where
      u_is : u ≡ last_of w xs
      u_is = ground (arith, Links-last next prev w xs w r)

  pub Ring-insert :
      (xs ys : List ℕ)
      → Inserted next prev next' prev' u p w
      → IsDistinct (xs ++ w ∷ ys)
      → has p (xs ++ w ∷ ys) ≡ false
      → prev w ≡ some u
      → Ring next prev (xs ++ w ∷ ys)
      → Ring next' prev' (xs ++ p ∷ w ∷ ys)
  Ring-insert xs ys i d out e r = subst (Ring next' prev') (append_assoc xs (p ∷ []) (w ∷ ys)) (
      Ring-rotate next' prev' (w ∷ ys) (xs ++ p ∷ []) (
        subst (Ring next' prev') (append_assoc (w ∷ ys) xs (p ∷ [])) (
          Ring-append (ys ++ xs) i (IsDistinct-rotate xs (w ∷ ys) d)
            (ground (arith, has-append p xs (w ∷ ys), has-append p ys xs)) e
            (Ring-rotate next prev xs (w ∷ ys) r))))

  -- The first is taken.
  Ring-tail :
      (xs : List ℕ)
      → Taken next prev next' prev' u p w
      → IsDistinct (p ∷ xs)
      → prev p ≡ some u
      → next p ≡ some w
      → p ≢ u
      → Ring next prev (p ∷ xs)
      → Ring next' prev' xs
  Ring-tail [] i d e f ne r = tt
  Ring-tail (x ∷ xs) i (out, d) e f ne (n, m, l) =
      Links-retarget x xs p x d
        (λ y h other. i.next_others y (λ g. other (g ∙ u_is)) (ground arith))
        (λ y h. i.prev_others y (ground (arith, w_is)) (ground arith))
        (sym (ap next' u_is) ∙ i.next_before ∙ ap some w_is)
        (sym (ap prev' w_is) ∙ i.prev_behind ∙ ap some u_is) l
    where
      u_is : u ≡ last_of x xs
      u_is = ground (arith, Links-last next prev x xs p l)

      w_is : w ≡ x
      w_is = ground arith

  pub Ring-take :
      (xs ys : List ℕ)
      → Taken next prev next' prev' u p w
      → IsDistinct (xs ++ p ∷ ys)
      → prev p ≡ some u
      → next p ≡ some w
      → p ≢ u
      → Ring next prev (xs ++ p ∷ ys)
      → Ring next' prev' (xs ++ ys)
  Ring-take xs ys i d e f ne r = Ring-rotate next' prev' ys xs (
      Ring-tail (ys ++ xs) i (IsDistinct-rotate xs (p ∷ ys) d) e f ne
        (Ring-rotate next prev xs (p ∷ ys) r))

-- The neighbours of `p`, which are `p` itself if it is alone.
pub data Neighbours (next prev : ℕ → Option ℕ) (p : ℕ) (xs : List ℕ) : Type 0 where
  alone : xs ≡ p ∷ [] → prev p ≡ some p → next p ≡ some p → Neighbours next prev p xs
  between :
      (u w : ℕ)
      → prev p ≡ some u
      → next p ≡ some w
      → p ≢ u
      → p ≢ w
      → has u xs ≡ true
      → has w xs ≡ true
      → Neighbours next prev p xs

module _ (next prev : ℕ → Option ℕ) (p : ℕ) where
  Links-Neighbours :
      (xs rest : List ℕ)
      → (rest ≡ [] → xs ≡ p ∷ [])
      → ((z : ℕ) → has z rest ≡ true → has z xs ≡ true)
      → IsDistinct (p ∷ rest)
      → Links next prev p rest p
      → Neighbours next prev p xs
  Links-Neighbours xs [] one sub d (n, m) = alone (one refl) m n
  Links-Neighbours xs (y ∷ ys) one sub (out, d) (n, m, l) =
      between (last_of y ys) y (Links-last next prev y ys p l) n
        (λ e. ground (arith, has-last y ys)) (ground arith) (sub (last_of y ys) (has-last y ys))
        (sub y (ground arith))

  nothing_else : (front back : List ℕ) → back ++ front ≡ [] → front ++ p ∷ back ≡ p ∷ []
  nothing_else [] [] e = refl
  nothing_else (x ∷ front) [] e = absurd (ground arith)
  nothing_else front (y ∷ back) e = absurd (ground arith)

  in_either :
      (z : ℕ) (front back : List ℕ)
      → has z (back ++ front) ≡ true
      → has z (front ++ p ∷ back) ≡ true
  in_either z front back h = ground (arith, has-append z back front, has-append z front (p ∷ back))

  pub Ring-Neighbours :
      (xs : List ℕ)
      → IsDistinct xs
      → has p xs ≡ true
      → Ring next prev xs
      → Neighbours next prev p xs
  Ring-Neighbours xs d h r =
      let (front, back, e, out, f) = split p xs h in
      Links-Neighbours xs (back ++ front) (λ none_left. e ∙ nothing_else front back none_left)
        (λ z k. ap (has z) e ∙ in_either z front back k)
        (IsDistinct-rotate front (p ∷ back) (subst IsDistinct e d))
        (Ring-rotate next prev front (p ∷ back) (subst (Ring next prev) e r))

module _ (next prev : ℕ → Option ℕ) where
  -- What comes before `y`.
  abbrev pub Before : ℕ → List ℕ → Type 0
  Before y xs = (u : ℕ) × (prev y ≡ some u) × (next u ≡ some y) × (has u xs ≡ true)

  Links-Before :
      (a : ℕ) (xs : List ℕ) (q y : ℕ)
      → ((y == q) || has y xs) ≡ true
      → Links next prev a xs q
      → Before y (a ∷ xs)
  Links-Before a [] q y h (n, p) = (a, ground arith, ground arith, ground arith)
  Links-Before a (x ∷ xs) q y h (n, p, l) = elim (Bool-cases (y == x)) [
    | inl e ↦ (a, ground arith, ground arith, ground arith)
    | inr e ↦ let (u, f, g, i) = Links-Before x xs q y (ground arith) l in (u, f, g, ground arith)
  ]

  pub Ring-Before : (xs : List ℕ) (y : ℕ) → has y xs ≡ true → Ring next prev xs → Before y xs
  Ring-Before [] y h r = absurd (ground arith)
  Ring-Before (x ∷ xs) y h r = Links-Before x xs x y h r

  -- Only a block alone in its ring is before itself.
  pub Ring-alone :
      (u l : ℕ) (ls : List ℕ)
      → has u (l ∷ ls) ≡ true
      → IsDistinct (l ∷ ls)
      → Ring next prev (l ∷ ls)
      → next l ≡ some l
      → u ≡ l
  Ring-alone u l [] h d r e = ground arith
  Ring-alone u l (x ∷ ls) h d r e = absurd (ground arith)

-- The first once `p`, which is before `w`, is gone.
pub head?-erase :
    (next prev : ℕ → Option ℕ) (p w : ℕ) (xs : List ℕ)
    → p ≢ w
    → next p ≡ some w
    → Ring next prev xs
    → head? (erase p xs) ≡ (if is_at (head? xs) p then some w else head? xs)
head?-erase next prev p w [] m e r = refl
head?-erase next prev p w (x ∷ []) m e r = ground arith
head?-erase next prev p w (x ∷ y ∷ ys) m e r = ground arith
