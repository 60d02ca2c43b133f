-- ===== src/Book/View/Flatten.antt =====
-- The orders of a side as one list: what a change of one level's orders comes to there.
use zquant_system.Prelude.{
  ℕ, ◌≡◌, ◌≢◌, refl, sym, ◌∙◌, ap, inl, inr, true, false, List, [], ◌∷◌, ◌++◌, ◌==◌, arith,
  Bool-cases, update, concat_map,
}
use zquant_system.Book.Ring.{has, erase, IsDistinct, has-append}

erase-append_here :
    (p : ℕ) (xs ys : List ℕ) → has p xs ≡ true → erase p (xs ++ ys) ≡ erase p xs ++ ys
erase-append_here p [] ys h = absurd (ground arith)
erase-append_here p (x ∷ xs) ys h = elim (Bool-cases (p == x)) [
  | inl e ↦ rw e refl
  | inr e ↦ rw e (ap (λ l. x ∷ l) (erase-append_here p xs ys (ground arith)))
]

erase-append_there :
    (p : ℕ) (xs ys : List ℕ) → has p xs ≡ false → erase p (xs ++ ys) ≡ xs ++ erase p ys
erase-append_there p [] ys h = refl
erase-append_there p (x ∷ xs) ys h = ground (arith, erase-append_there p xs ys)

pub erase-absent : (p : ℕ) (xs : List ℕ) → has p xs ≡ false → erase p xs ≡ xs
erase-absent p [] h = refl
erase-absent p (x ∷ xs) h = ground (arith, erase-absent p xs)

pub erase_first : (p : ℕ) (xs : List ℕ) → erase p (p ∷ xs) ≡ xs
erase_first p xs = ground arith

module _ (queue : ℕ → List ℕ) where
  pub has-concat_map :
      (p : ℕ) (ls : List ℕ)
      → has p (concat_map queue ls) ≡ true
      → (l : ℕ) × (has l ls ≡ true) × (has p (queue l) ≡ true)
  has-concat_map p [] h = absurd (ground arith)
  has-concat_map p (l ∷ ls) h = elim (Bool-cases (has p (queue l))) [
    | inl e ↦ (l, ground arith, e)
    | inr e ↦
        let (k, m, f) =
          has-concat_map p ls (ground (arith, has-append p (queue l) (concat_map queue ls))) in
        (k, ground arith, f)
  ]

  -- An order that no level has.
  pub has-concat_map_none :
      (p : ℕ) (ls : List ℕ)
      → ((l : ℕ) → has l ls ≡ true → has p (queue l) ≡ false)
      → has p (concat_map queue ls) ≡ false
  has-concat_map_none p [] h = refl
  has-concat_map_none p (l ∷ ls) h = ground (
    arith,
    has-append p (queue l) (concat_map queue ls),
    h l,
    has-concat_map_none p ls (λ k m. h k (ground arith)),
  )

  pub erase-concat_map_none :
      (p : ℕ) (ls : List ℕ)
      → ((l : ℕ) → has l ls ≡ true → has p (queue l) ≡ false)
      → erase p (concat_map queue ls) ≡ concat_map queue ls
  erase-concat_map_none p ls h = erase-absent p (concat_map queue ls) (has-concat_map_none p ls h)

  pub concat_map-update :
      (l : ℕ) (ps : List ℕ) (ls : List ℕ)
      → has l ls ≡ false
      → concat_map (update queue l ps) ls ≡ concat_map queue ls
  concat_map-update l ps [] h = refl
  concat_map-update l ps (k ∷ ls) h = ground (arith, concat_map-update l ps ls)

  -- The order `p` goes from the level `l`.
  pub concat_map-erase_order :
      (p l : ℕ) (ls : List ℕ)
      → IsDistinct ls
      → has l ls ≡ true
      → has p (queue l) ≡ true
      → ((k : ℕ) → has k ls ≡ true → k ≢ l → has p (queue k) ≡ false)
      → concat_map (update queue l (erase p (queue l))) ls ≡ erase p (concat_map queue ls)
  concat_map-erase_order p l [] d h m out = absurd (ground arith)
  concat_map-erase_order p l (k ∷ ls) (fresh, d) h m out = elim (Bool-cases (l == k)) [
    | inl e ↦ rw e (
        ap (λ q. erase p (queue l) ++ q) (concat_map-update l (erase p (queue l)) ls (ground arith))
        ∙ sym (erase-append_here p (queue l) (concat_map queue ls) m)
        ∙ ap (λ k. erase p (queue k ++ concat_map queue ls)) (ground arith))
    | inr e ↦ rw e (
        ap (λ q. queue k ++ q)
          (concat_map-erase_order p l ls d (ground arith) m (λ j n. out j (ground arith)))
        ∙ sym (
            erase-append_there p (queue k) (concat_map queue ls)
              (out k (ground arith) (ground arith))))
  ]

  -- The level `l` goes with its only order.
  pub concat_map-erase_level :
      (p l : ℕ) (ls : List ℕ)
      → IsDistinct ls
      → has l ls ≡ true
      → queue l ≡ p ∷ []
      → ((k : ℕ) → has k ls ≡ true → k ≢ l → has p (queue k) ≡ false)
      → concat_map queue (erase l ls) ≡ erase p (concat_map queue ls)
  concat_map-erase_level p l [] d h m out = absurd (ground arith)
  concat_map-erase_level p l (k ∷ ls) (fresh, d) h m out = elim (Bool-cases (l == k)) [
    | inl e ↦ rw e (
        sym (
          ap (λ k. erase p (queue k ++ concat_map queue ls)) (ground arith)
          ∙ ap (λ q. erase p (q ++ concat_map queue ls)) m
          ∙ erase_first p (concat_map queue ls)))
    | inr e ↦ rw e (
        ap (λ q. queue k ++ q)
          (concat_map-erase_level p l ls d (ground arith) m (λ j n. out j (ground arith)))
        ∙ sym (
            erase-append_there p (queue k) (concat_map queue ls)
              (out k (ground arith) (ground arith))))
  ]
