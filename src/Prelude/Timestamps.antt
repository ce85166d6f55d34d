-- ===== src/Prelude/Timestamps.antt =====
-- The order of timestamps as texts, and of other keys by which the queries sort.
use Prim.Native.Nat.compare as compare_ℕ
use Prim.Native.Nat.{Ordering, compare as compare_ℕ}
use Prim.Native.String.compare
use Prim.Native.String.{compare, then}
use Prim.Native.Char.{code}
use contract_management.Prelude.{◌≡◌, refl, ℕ, zero, suc, String, Bool, true, false}

-- s >= t
abbrev pub not_before : String → String → Bool
not_before s t = elim (compare s t) [ Ordering.lt ↦ false | _ ↦ true ]

abbrev reverse : Ordering → Ordering
reverse Ordering.lt = Ordering.gt
reverse Ordering.eq = Ordering.eq
reverse Ordering.gt = Ordering.lt

compare_ℕ-reverse : (m n : ℕ) → compare_ℕ n m ≡ reverse (compare_ℕ m n)
compare_ℕ-reverse zero zero = rw compare_ℕ.zero-zero refl
compare_ℕ-reverse zero (suc n) = rw (compare_ℕ.zero-suc, compare_ℕ.suc-zero) refl
compare_ℕ-reverse (suc m) zero = rw (compare_ℕ.zero-suc, compare_ℕ.suc-zero) refl
compare_ℕ-reverse (suc m) (suc n) =
    rw (compare_ℕ.suc-suc n m, compare_ℕ.suc-suc m n) (compare_ℕ-reverse m n)

then-reverse : (a b : Ordering) → then (reverse a) (reverse b) ≡ reverse (then a b)
then-reverse Ordering.lt b = refl
then-reverse Ordering.eq b = refl
then-reverse Ordering.gt b = refl

compare-reverse : (s t : String) → compare t s ≡ reverse (compare s t)
compare-reverse String.[] String.[] = rw compare.nil-nil refl
compare-reverse String.[] (String.◌∷◌ d t) = rw (compare.nil-cons, compare.cons-nil) refl
compare-reverse (String.◌∷◌ c s) String.[] = rw (compare.nil-cons, compare.cons-nil) refl
compare-reverse (String.◌∷◌ c s) (String.◌∷◌ d t) =
    rw
      (
        compare.cons-cons d c t s,
        compare.cons-cons c d s t,
        compare_ℕ-reverse (code c) (code d),
        compare-reverse s t,
      )
      (then-reverse (compare_ℕ (code c) (code d)) (compare s t))

-- Of two timestamps one is not before the other.
pub not_before_total : (s t : String) → not_before s t ≡ false → not_before t s ≡ true
not_before_total s t h = go (compare s t) (compare t s) (compare-reverse s t) h
  where
    go :
        (a b : Ordering)
        → b ≡ reverse a
        → elim a [ Ordering.lt ↦ false | _ ↦ true ] ≡ false
        → elim b [ Ordering.lt ↦ false | _ ↦ true ] ≡ true
    go Ordering.lt b e k = rw e refl
    go Ordering.eq b e k = cc
    go Ordering.gt b e k = cc
