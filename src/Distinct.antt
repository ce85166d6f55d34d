-- ===== src/Distinct.antt =====
-- The loops over a list of rows that keep a set of the values seen so far and throw at a value
-- that is in it already.
use contract_management.Prelude.{◌≡◌, refl, ◌↔◌, false, List, [], ◌∷◌, arith, if◌then◌else◌, Eq}
use contract_management.Prelude.Lists.{All, contains}
use contract_management.Failure.{Error, Result, ok, err}

module _ {ℓ} {A : Type ℓ} ⦃e : Eq A⦄ where
  unfoldable pub check_distinct : Error → List A → List A → Result (Unit {0})
  unfolding contains
  check_distinct x seen [] = ok tt
  check_distinct x seen (a ∷ rest) =
      let others = check_distinct x (a ∷ seen) rest in if contains seen a then err x else others

  -- No value stands twice in the list.
  abbrev pub Distinct : List A → Type 0
  Distinct [] = Unit
  Distinct (a ∷ rest) = (contains rest a ≡ false) × Distinct rest

  abbrev Unseen : List A → List A → Type 0
  Unseen seen = All (λ a. contains seen a ≡ false)

  Unseen-cons :
      (a : A) (seen xs : List A) → Unseen (a ∷ seen) xs ↔ ((contains xs a ≡ false) × Unseen seen xs)
  unfolding contains
  Unseen-cons a seen [] = ground arith
  Unseen-cons a seen (x ∷ xs) = ground (arith, Unseen-cons a seen xs, e.beq_iff a x, e.beq_iff x a)

  check_distinct_iff :
      (x : Error) (seen xs : List A)
      → (check_distinct x seen xs ≡ ok tt) ↔ (Distinct xs × Unseen seen xs)
  unfolding check_distinct
  check_distinct_iff x seen [] = ground arith
  check_distinct_iff x seen (a ∷ xs) =
      ground (arith, check_distinct_iff x (a ∷ seen) xs, Unseen-cons a seen xs)

  Unseen-nil : (xs : List A) → Unseen [] xs
  unfolding contains
  Unseen-nil [] = tt
  Unseen-nil (x ∷ xs) = (refl, Unseen-nil xs)

  -- The loop ends without an exception exactly when no value stands twice in the list.
  pub check_distinct-iff-Distinct :
      (x : Error) (xs : List A) → (check_distinct x [] xs ≡ ok tt) ↔ Distinct xs
  check_distinct-iff-Distinct x xs = (
    λ h. ((check_distinct_iff x [] xs).0 h).0,
    λ d. (check_distinct_iff x [] xs).1 (d, Unseen-nil xs),
  )
