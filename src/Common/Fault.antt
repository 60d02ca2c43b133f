-- ===== src/Common/Fault.antt =====
-- How an operation of the program can stop: common/macros.h and the undefined or terminating
-- behaviour that the source relies on not meeting. Commands pass a state along explicitly.
use zquant_system.Prelude.{ℕ, ◌≡◌, refl, ◌≢◌, subst, Bool, true, false, Option, none, some}

pub data Fault : Type 0 where
  -- A null pointer is followed.
  null_pointer : Fault
  -- `.at()` out of range, which ends the program inside a `noexcept` function, or an array indexed
  -- out of range, which is undefined.
  out_of_range : Fault
  -- `ASSERT` fails and the program exits.
  assertion_failed : Fault
  -- `FATAL`: the program exits.
  fatal : Fault
  -- No outcome of the program: the model's bound on a loop was too small.
  out_of_fuel : Fault

pub data Result (A : Type 0) : Type 0 where
  ok : A → Result A
  err : Fault → Result A

-- A command reads and writes a state `S`.
abbrev pub Cmd : Type 0 → Type 0 → Type 0
Cmd S A = S → Result (A × S)

module _ {S : Type 0} where
  abbrev pub pure : {A : Type 0} → A → Cmd S A
  pure a s = ok (a, s)

  abbrev pub fail : {A : Type 0} → Fault → Cmd S A
  fail e s = err e

  abbrev pub and_then : {A B : Type 0} → Result (A × S) → (A → Cmd S B) → Result (B × S)
  and_then (ok (a, s)) k = k a s
  and_then (err e) k = err e

  infixl 5 ◌>>=◌ ◌>>◌
  abbrev pub ◌>>=◌ : {A B : Type 0} → Cmd S A → (A → Cmd S B) → Cmd S B
  ◌>>=◌ m k s = and_then (m s) k

  abbrev pub ◌>>◌ : {A B : Type 0} → Cmd S A → Cmd S B → Cmd S B
  m >> k = m >>= λ _. k

  -- `ASSERT(cond, msg)`.
  abbrev pub assert : Bool → Cmd S (Unit {0})
  assert true s = ok (tt, s)
  assert false s = err assertion_failed

  abbrev pub get : Cmd S S
  get s = ok (s, s)

  abbrev pub modify : (S → S) → Cmd S (Unit {0})
  modify f s = ok (tt, f s)

  -- A part that only reads the state.
  abbrev pub reading : {A : Type 0} → (S → Result A) → Cmd S A
  reading f s = elim (f s) [ ok a ↦ ok (a, s) | err e ↦ err e ]

  -- `p->`, where `p` may be null.
  abbrev pub deref : {A : Type 0} → Option A → Cmd S A
  deref none s = err null_pointer
  deref (some p) s = ok (p, s)

  -- `.at(i)` of an array: the test that `i` is in range.
  abbrev pub in_range : Bool → Cmd S (Unit {0})
  in_range true s = ok (tt, s)
  in_range false s = err out_of_range

-- What a run may end in: a state with `P`, or a fault with `F`. With `F` empty this is total
-- correctness.
pub data Outcome {S A : Type 0} (F : Fault → Type 0) (P : A → S → Type 0)
    : Result (A × S) → Type 0 where
  returns : {a : A} {s : S} → P a s → Outcome F P (ok (a, s))
  stops : {e : Fault} → F e → Outcome F P (err e)

-- The loops have enough fuel.
abbrev pub IsFault : Fault → Type 0
IsFault e = e ≢ out_of_fuel

-- No fault at all.
abbrev pub NoFault : Fault → Type 0
NoFault e = true ≡ false

module _ {S : Type 0} {F : Fault → Type 0} where
  pub bind :
      {A B : Type 0} {P : A → S → Type 0} {Q : B → S → Type 0} {r : Result (A × S)}
      {k : A → Cmd S B}
      → Outcome F P r
      → ((a : A) (s : S) → P a s → Outcome F Q (k a s))
      → Outcome F Q (and_then r k)
  bind (returns p) next = next _ _ p
  bind (stops f) next = stops f

  pub weaken :
      {A : Type 0} {P Q : A → S → Type 0} {r : Result (A × S)}
      → Outcome F P r
      → ((a : A) (s : S) → P a s → Q a s)
      → Outcome F Q r
  weaken (returns p) h = returns (h _ _ p)
  weaken (stops f) h = stops f

abbrev pub Holds : {S A : Type 0} → (Fault → Type 0) → (A → S → Type 0) → Result (A × S) → Type 0
Holds F P (ok (a, s)) = P a s
Holds F P (err e) = F e

module _ {S A : Type 0} {F : Fault → Type 0} {P : A → S → Type 0} where
  pub holds : {r : Result (A × S)} → Outcome F P r → Holds F P r
  holds (returns p) = p
  holds (stops f) = f

  -- What is known of a run that returned.
  pub returned : {r : Result (A × S)} {a : A} {s : S} → Outcome F P r → r ≡ ok (a, s) → P a s
  returned o e = subst (Holds F P) e (holds o)

  pub outcome : (r : Result (A × S)) → Holds F P r → Outcome F P r
  outcome (ok (a, s)) h = returns h
  outcome (err e) h = stops h

  -- A read-only part.
  pub reads :
      (f : S → Result A) (s : S)
      → ((a : A) → f s ≡ ok a → P a s)
      → ((e : Fault) → f s ≡ err e → F e)
      → Outcome F P (reading f s)
  reads f s good bad = go (f s) refl
    where
      go : (r : Result A) → f s ≡ r → Outcome F P (elim r [ ok a ↦ ok (a, s) | err e ↦ err e ])
      go (ok a) e = returns (good a e)
      go (err x) e = stops (bad x e)

-- Any fault, for what holds of the runs that return.
abbrev pub AnyFault : Fault → Type 0
AnyFault e = Unit {0}

pub any_fault :
    {S A : Type 0} {F : Fault → Type 0} {P : A → S → Type 0} {r : Result (A × S)}
    → Outcome F P r
    → Outcome AnyFault P r
any_fault (returns p) = returns p
any_fault (stops f) = stops tt

-- A run does not depend on what is asked of it.
pub for_all :
    {S A : Type 0} {F : Fault → Type 0} {P : ℕ → A → S → Type 0} (r : Result (A × S))
    → ((i : ℕ) → Outcome F (P i) r)
    → Outcome F (λ a s. (i : ℕ) → P i a s) r
for_all (ok (a, s)) h = returns (λ i. holds (h i))
for_all (err e) h = stops (holds (h 0))

pub both :
    {S A : Type 0} {F : Fault → Type 0} {P Q : A → S → Type 0} {r : Result (A × S)}
    → Outcome F P r
    → Outcome F Q r
    → Outcome F (λ a s. P a s × Q a s) r
both (returns p) q = returns (p, holds q)
both (stops f) q = stops f
