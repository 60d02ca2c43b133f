-- ===== src/Book/Ring.antt =====
-- Rings of blocks linked by pointers to the next and the previous one, as the orders of a level and
-- the levels of a side are. The pointers are given as two tables over the blocks.
pub mod Splice
use zquant_system.Prelude.{
  ℕ, zero, suc, ◌≤◌, ◌<◌, length, ◌≡◌, ◌≢◌, refl, sym, ◌∙◌, ap, inl, inr, Bool, true, false, ◌||◌,
  Option, none, some, List, [], ◌∷◌, ◌++◌, ◌==◌, subst, append-nil, if◌then◌else◌, arith,
  Bool-cases,
}

abbrev pub has : ℕ → List ℕ → Bool
has a [] = false
has a (x ∷ xs) = (a == x) || has a xs

abbrev pub IsDistinct : List ℕ → Type 0
IsDistinct [] = Unit
IsDistinct (x ∷ xs) = (has x xs ≡ false) × IsDistinct xs

abbrev pub head? : List ℕ → Option ℕ
head? [] = none
head? (x ∷ xs) = some x

-- The last of a list with a first element.
abbrev pub last_of : ℕ → List ℕ → ℕ
last_of a [] = a
last_of a (x ∷ xs) = last_of x xs

abbrev pub head_or : List ℕ → ℕ → ℕ
head_or [] q = q
head_or (x ∷ xs) q = x

abbrev pub erase : ℕ → List ℕ → List ℕ
erase p [] = []
erase p (x ∷ xs) = if p == x then xs else x ∷ erase p xs

pub has-last : (a : ℕ) (xs : List ℕ) → has (last_of a xs) (a ∷ xs) ≡ true
has-last a [] = ground arith
has-last a (x ∷ xs) = ground (arith, has-last x xs)

pub has-append : (a : ℕ) (xs ys : List ℕ) → has a (xs ++ ys) ≡ (has a xs || has a ys)
has-append a [] ys = refl
has-append a (x ∷ xs) ys = ground (arith, has-append a xs ys)

pub IsDistinct-append :
    (xs : List ℕ) (x : ℕ) → IsDistinct xs → has x xs ≡ false → IsDistinct (xs ++ x ∷ [])
IsDistinct-append [] x d h = (refl, tt)
IsDistinct-append (y ∷ xs) x (out, d) h =
    (ground (arith, has-append y xs (x ∷ [])), IsDistinct-append xs x d (ground arith))

pub has-erase :
    (a p : ℕ) (xs : List ℕ)
    → IsDistinct xs
    → has a (erase p xs) ≡ (if p == a then false else has a xs)
has-erase a p [] d = ground arith
has-erase a p (x ∷ xs) (out, d) = ground (arith, has-erase a p xs d)

pub IsDistinct-erase : (p : ℕ) (xs : List ℕ) → IsDistinct xs → IsDistinct (erase p xs)
IsDistinct-erase p [] d = tt
IsDistinct-erase p (x ∷ xs) (out, d) = ground (arith, has-erase x p xs d, IsDistinct-erase p xs d)

-- A member splits the list.
pub split :
    (p : ℕ) (xs : List ℕ)
    → has p xs ≡ true
    → (front back : List ℕ) × (xs ≡ front ++ p ∷ back)
      × (has p front ≡ false)
      × (erase p xs ≡ front ++ back)
split p [] h = absurd (ground arith)
split p (x ∷ xs) h = elim (Bool-cases (p == x)) [
  | inl here ↦ ([], xs, ground arith, refl, ground arith)
  | inr other ↦
      let (front, back, e, out, f) = split p xs (ground arith) in
      (x ∷ front, back, ap (λ l. x ∷ l) e, ground arith, ground arith)
]

-- Different numbers below `n` are at most `n` many.
length-erase : (p : ℕ) (xs : List ℕ) → has p xs ≡ true → suc (length (erase p xs)) ≡ length xs
length-erase p [] h = absurd (ground arith)
length-erase p (x ∷ xs) h = elim (Bool-cases (p == x)) [
  | inl here ↦ rw here refl
  | inr other ↦ rw other (ap suc (length-erase p xs (ground arith)))
]

pub bounded_length :
    (n : ℕ) (xs : List ℕ) → IsDistinct xs → ((y : ℕ) → has y xs ≡ true → y < n) → length xs ≤ n
bounded_length n [] d h = omega arith
bounded_length zero (x ∷ xs) d h = absurd (ground (arith, h x))
bounded_length (suc n) (x ∷ xs) d h = elim (Bool-cases (has n (x ∷ xs))) [
  | inl inside ↦ omega (
    arith,
    length-erase n (x ∷ xs) inside,
    bounded_length n (erase n (x ∷ xs)) (IsDistinct-erase n (x ∷ xs) d)
        (λ y k. ground (arith, h y, has-erase y n (x ∷ xs) d)),
  )
  | inr outside ↦ omega (arith, bounded_length n (x ∷ xs) d (λ y k. ground (arith, h y)))
]

-- From `a` through `xs` to `q`, with the pointers back.
abbrev pub Links : (next prev : ℕ → Option ℕ) → ℕ → List ℕ → ℕ → Type 0
Links next prev a [] q = (next a ≡ some q) × (prev q ≡ some a)
Links next prev a (x ∷ xs) q = (next a ≡ some x) × (prev x ≡ some a) × Links next prev x xs q

abbrev pub Ring : (next prev : ℕ → Option ℕ) → List ℕ → Type 0
Ring next prev [] = Unit
Ring next prev (x ∷ xs) = Links next prev x xs x

module _ (next prev : ℕ → Option ℕ) where
  pub Links-last :
      (a : ℕ) (xs : List ℕ) (q : ℕ) → Links next prev a xs q → prev q ≡ some (last_of a xs)
  Links-last a [] q l = l.1
  Links-last a (x ∷ xs) q l = Links-last x xs q l.2

  pub Links-head :
      (a : ℕ) (xs : List ℕ) (q : ℕ) → Links next prev a xs q → next a ≡ some (head_or xs q)
  Links-head a [] q l = l.0
  Links-head a (x ∷ xs) q l = l.0

  Links-split :
      (a : ℕ) (xs : List ℕ) (y : ℕ) (ys : List ℕ) (q : ℕ)
      → Links next prev a (xs ++ y ∷ ys) q
      → Links next prev a xs y × Links next prev y ys q
  Links-split a [] y ys q (n, p, l) = ((n, p), l)
  Links-split a (x ∷ xs) y ys q (n, p, l) =
      let (one, two) = Links-split x xs y ys q l in ((n, p, one), two)

  Links-join :
      (a : ℕ) (xs : List ℕ) (y : ℕ) (ys : List ℕ) (q : ℕ)
      → Links next prev a xs y
      → Links next prev y ys q
      → Links next prev a (xs ++ y ∷ ys) q
  Links-join a [] y ys q (n, p) m = (n, p, m)
  Links-join a (x ∷ xs) y ys q (n, p, l) m = (n, p, Links-join x xs y ys q l m)

  -- A ring has no beginning.
  pub Ring-rotate : (xs ys : List ℕ) → Ring next prev (xs ++ ys) → Ring next prev (ys ++ xs)
  Ring-rotate [] ys r = subst (Ring next prev) (sym (append-nil ys)) r
  Ring-rotate (x ∷ xs) [] r = subst (Ring next prev) (append-nil (x ∷ xs)) r
  Ring-rotate (x ∷ xs) (y ∷ ys) r =
      let (one, two) = Links-split x xs y ys x r in Links-join y ys x xs y two one

-- Two tables of pointers, before and after some writes.
module _ {next prev next' prev' : ℕ → Option ℕ} where
  -- What the writes leave alone.
  pub Links-frame :
      (a : ℕ) (xs : List ℕ) (q : ℕ)
      → ((y : ℕ) → has y (a ∷ xs) ≡ true → next' y ≡ next y)
      → ((y : ℕ) → has y xs ≡ true → prev' y ≡ prev y)
      → prev' q ≡ prev q
      → Links next prev a xs q
      → Links next' prev' a xs q
  Links-frame a [] q n p e l = ground (arith, n a)
  Links-frame a (x ∷ xs) q n p e l = (
    ground (arith, n a),
    ground (arith, p x),
    Links-frame x xs q (λ y h. n y (ground arith)) (λ y h. p y (ground arith)) e l.2,
  )

  pub Ring-frame :
      (xs : List ℕ)
      → ((y : ℕ) → has y xs ≡ true → (next' y ≡ next y) × (prev' y ≡ prev y))
      → Ring next prev xs
      → Ring next' prev' xs
  Ring-frame [] same r = tt
  Ring-frame (x ∷ xs) same r =
      Links-frame x xs x (λ y h. (same y h).0) (λ y h. (same y (ground arith)).1)
        (same x (ground arith)).1 r

  -- The last link leads to `w` instead.
  pub Links-retarget :
      (a : ℕ) (xs : List ℕ) (q w : ℕ)
      → IsDistinct (a ∷ xs)
      → ((y : ℕ) → has y (a ∷ xs) ≡ true → y ≢ last_of a xs → next' y ≡ next y)
      → ((y : ℕ) → has y xs ≡ true → prev' y ≡ prev y)
      → next' (last_of a xs) ≡ some w
      → prev' w ≡ some (last_of a xs)
      → Links next prev a xs q
      → Links next' prev' a xs w
  Links-retarget a [] q w d n p e f l = (e, f)
  Links-retarget a (x ∷ xs) q w (out, d) n p e f l = (
    n a (ground arith) (λ same. ground (arith, has-last x xs)) ∙ l.0,
    p x (ground arith) ∙ l.1,
    Links-retarget x xs q w d (λ y h ne. n y (ground arith) ne) (λ y h. p y (ground arith)) e f l.2,
  )
