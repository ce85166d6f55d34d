-- ===== src/Prelude/Lists.antt =====
-- Lists measured by native numbers, Boolean quantifiers, and the lemmas on them.
use contract_management.Prelude.{
  ℕ, suc, ◌≡◌, refl, Bool, true, false, ◌&&◌, ◌||◌, Option, none, some, List, [], ◌∷◌, arith,
  if◌then◌else◌, Eq, ◌==◌,
}

abbrev pub All {ℓ κ} : {A : Type ℓ} → (A → Type κ) → List A → Type κ
All P [] = Unit
All P (x ∷ xs) = P x × All P xs

module _ {ℓ} {A : Type ℓ} where
  abbrev pub length : List A → ℕ
  length [] = 0
  length (x ∷ xs) = suc (length xs)

  -- xs + ys
  abbrev pub append : List A → List A → List A
  append [] ys = ys
  append (x ∷ xs) ys = x ∷ append xs ys

  -- xs[-1]
  abbrev pub last : List A → Option A
  last [] = none
  last (x ∷ []) = some x
  last (x ∷ y ∷ xs) = last (y ∷ xs)

  -- any(test(x) for x in xs)
  unfoldable pub any : (A → Bool) → List A → Bool
  any test [] = false
  any test (x ∷ xs) = test x || any test xs

  -- all(test(x) for x in xs)
  unfoldable pub all : (A → Bool) → List A → Bool
  all test [] = true
  all test (x ∷ xs) = test x && all test xs

  -- [x for x in xs if test(x)]
  unfoldable pub filter : (A → Bool) → List A → List A
  filter test [] = []
  filter test (x ∷ xs) = let rest = filter test xs in if test x then x ∷ rest else rest

  -- The first item that passes the test.
  unfoldable pub first : (A → Bool) → List A → Option A
  first test [] = none
  first test (x ∷ xs) = if test x then some x else first test xs

  pub all-All : (test : A → Bool) (xs : List A) → all test xs ≡ true → All (λ x. test x ≡ true) xs
  unfolding all
  all-All test [] h = tt
  all-All test (x ∷ xs) h = ground (arith, all-All test xs)

  pub All-all : (test : A → Bool) (xs : List A) → All (λ x. test x ≡ true) xs → all test xs ≡ true
  unfolding all
  All-all test [] h = refl
  All-all test (x ∷ xs) h = ground (arith, All-all test xs)

  pub first-test : (test : A → Bool) (xs : List A) (a : A) → first test xs ≡ some a → test a ≡ true
  unfolding first
  first-test test [] a h = ground arith
  first-test test (x ∷ xs) a h = ground (arith, first-test test xs a)

  pub first-none : (test : A → Bool) (xs : List A) → first test xs ≡ none → any test xs ≡ false
  unfolding first any
  first-none test [] h = refl
  first-none test (x ∷ xs) h = ground (arith, first-none test xs)

-- x in xs
unfoldable pub contains {ℓ} : {A : Type ℓ} ⦃e : Eq A⦄ → List A → A → Bool
contains [] a = false
contains (x ∷ xs) a = a == x || contains xs a
