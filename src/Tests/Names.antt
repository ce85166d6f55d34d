-- ===== src/Tests/Names.antt =====
-- A naming series: a text longer than all names that there are.
use contract_management.Prelude.{
  Eq, Bool, ℕ, suc, ◌+◌, ◌≡◌, ◌≢◌, ◌≤◌, ◌<◌, refl, ap, sym, false, List, [], ◌∷◌, arith, String,
  string_eq, beq_false, ◌==◌, ◌||◌,
}
use contract_management.Prelude.Lists.{contains}

abbrev size : String → ℕ
size String.[] = 0
size (String.◌∷◌ c s) = suc (size s)

abbrev concat : String → String → String
concat String.[] t = t
concat (String.◌∷◌ c s) t = String.◌∷◌ c (concat s t)

size-concat : (s t : String) → size (concat s t) ≡ size s + size t
size-concat String.[] t = omega arith
size-concat (String.◌∷◌ c s) t = ground (arith, size-concat s t)

abbrev pub join : List String → String
join [] = "N"
join (s ∷ ss) = concat "N" (concat s (join ss))

size-join : (s : String) (ss : List String) → size (join (s ∷ ss)) ≡ suc (size s + size (join ss))
size-join s ss = rw (size-concat s (join ss)) refl

join-pos : (ss : List String) → 0 < size (join ss)
join-pos [] = omega arith
join-pos (s ∷ ss) = rw (size-join s ss) (omega arith)

or_false : (a b : Bool) → a ≡ false → b ≡ false → (a || b) ≡ false
or_false a b h k = ground arith

contains_cons {ℓ} :
    {A : Type ℓ} ⦃e : Eq A⦄ (a b : A) (xs : List A)
    → (b == a) ≡ false
    → contains xs b ≡ false
    → contains (a ∷ xs) b ≡ false
unfolding contains
contains_cons a b xs differ absent = or_false (b == a) (contains xs b) differ absent

below : (x : String) (ss : List String) → size (join ss) ≤ size x → contains ss x ≡ false
unfolding contains
below x [] h = refl
below x (s ∷ ss) h =
    let bound : suc (size s + size (join ss)) ≤ size x = rw (← size-join s ss) h in
    let differ : x ≢ s = λ e. go bound (ap size (sym e)) (join-pos ss) in
    contains_cons s x ss (beq_false x s differ) (below x ss (omega arith))
  where
    go : suc (size s + size (join ss)) ≤ size x → size s ≡ size x → 0 < size (join ss) → ⊥
    go b e k = omega arith

pub join-fresh : (ss : List String) → contains ss (join ss) ≡ false
join-fresh ss = below (join ss) ss (omega arith)
