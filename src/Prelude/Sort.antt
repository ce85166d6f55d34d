-- ===== src/Prelude/Sort.antt =====
-- Python's `sorted` on integers, as an insertion sort: its result is the only sorted arrangement of
-- the items, so the algorithm does not matter.
use mathlib.Core.Logic.{∥∥₁_elim}
use mathlib.Core.List.{Perm, Permᴰ}
use mathlib.Core.List.Perm
use contract_management.Prelude.{
  ℕ, zero, suc, ◌+◌, ◌≡◌, refl, ◌∙◌, ◌↔◌, List, [], ◌∷◌, arith, if◌then◌else◌, inl, inr, Bool-cases,
}
use contract_management.Prelude.Int.{ℤ, pos, leb_ℤ, leb_ℤ_total, leb_ℤ_antisymm, leb_ℤ_trans}

insert : ℤ → List ℤ → List ℤ
insert a [] = a ∷ []
insert a (b ∷ l) = if leb_ℤ a b then a ∷ b ∷ l else b ∷ insert a l

-- sorted(xs)
unfoldable pub sorted : List ℤ → List ℤ
unfolding insert
sorted [] = []
sorted (x ∷ xs) = insert x (sorted xs)

insert-perm : (a : ℤ) (l : List ℤ) → Perm (insert a l) (a ∷ l)
unfolding insert
insert-perm a [] = Perm.refl (a ∷ [])
insert-perm a (b ∷ l) = elim (Bool-cases (leb_ℤ a b)) [
  | inl before ↦ rw before (Perm.refl (a ∷ b ∷ l))
  | inr after ↦ rw after (Perm.trans (Perm.cons b (insert-perm a l)) (Perm.swap a b l))
]

pub sorted-perm : (xs : List ℤ) → Perm (sorted xs) xs
unfolding sorted
sorted-perm [] = Perm.refl []
sorted-perm (x ∷ xs) = Perm.trans (insert-perm x (sorted xs)) (Perm.cons x (sorted-perm xs))

insert_comm : (a b : ℤ) (l : List ℤ) → insert a (insert b l) ≡ insert b (insert a l)
unfolding insert
insert_comm a b [] = ground (arith, leb_ℤ_total a b, leb_ℤ_antisymm a b)
insert_comm a b (c ∷ l) = ground (
  arith,
  leb_ℤ_total a b,
  leb_ℤ_antisymm a b,
  insert_comm a b l,
  leb_ℤ_trans a b c,
  leb_ℤ_trans b a c,
)

sorted-Permᴰ : {xs ys : List ℤ} → Permᴰ xs ys → sorted xs ≡ sorted ys
unfolding sorted
sorted-Permᴰ Permᴰ.nil = refl
sorted-Permᴰ (Permᴰ.cons e p) = cc (sorted-Permᴰ p)
sorted-Permᴰ (Permᴰ.swap {a = a} {b = b} {l = l} e f) = rw (← e, ← f) (insert_comm a b (sorted l))
sorted-Permᴰ (Permᴰ.trans p q) = sorted-Permᴰ p ∙ sorted-Permᴰ q

ℤ_list-set : IsSet (List ℤ)
ℤ_list-set = hlevel

pub sorted_eq_of_perm : (xs ys : List ℤ) → Perm xs ys → sorted xs ≡ sorted ys
sorted_eq_of_perm xs ys p = ∥∥₁_elim p (ℤ_list-set (sorted xs) (sorted ys)) sorted-Permᴰ

-- list(range(k, k + n))
unfoldable pub range : ℕ → ℕ → List ℤ
range k zero = []
range k (suc n) = pos k ∷ range (k + 1) n

insert-range : (k n : ℕ) → insert (pos k) (range (k + 1) n) ≡ pos k ∷ range (k + 1) n
unfolding insert range
insert-range k zero = refl
insert-range k (suc n) = ground arith

pub sorted-range : (k n : ℕ) → sorted (range k n) ≡ range k n
unfolding sorted range
sorted-range k zero = refl
sorted-range k (suc n) = rw (sorted-range (k + 1) n) (insert-range k n)

-- The sorted list is k, k + 1, … exactly when the list is an arrangement of these numbers.
pub sorted-eq-range_iff : (xs : List ℤ) (k n : ℕ) → (sorted xs ≡ range k n) ↔ Perm xs (range k n)
sorted-eq-range_iff xs k n = (
  λ e. Perm.trans (Perm.symm (sorted-perm xs)) (rw e (Perm.refl (range k n))),
  λ p. sorted_eq_of_perm xs (range k n) p ∙ sorted-range k n,
)
