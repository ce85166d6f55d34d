-- ===== src/Prelude/Order.antt =====
-- ORDER BY and list.sort: a stable insertion sort, membership, and what sorting keeps.
use contract_management.Prelude.{
  ◌≡◌, refl, ◌⊎◌, ◌↔◌, inl, inr, Bool, true, false, List, [], ◌∷◌, arith, if◌then◌else◌, String,
  some, str_eq,
}
use contract_management.Prelude.Lists.{filter}
use contract_management.Prelude.Table

-- x in xs, with its place.
abbrev pub In : {A : Type 0} → A → List A → Type 0
In a [] = ⊥
In a (x ∷ xs) = (x ≡ a) ⊎ In a xs

-- Each item may stand before the next.
abbrev pub Ordered : {A : Type 0} → (A → A → Bool) → List A → Type 0
Ordered leq [] = Unit
Ordered leq (x ∷ []) = Unit
Ordered leq (x ∷ y ∷ l) = (leq x y ≡ true) × Ordered leq (y ∷ l)

module _ {A : Type 0} (leq : A → A → Bool) where
  unfoldable pub place : A → List A → List A
  place a [] = a ∷ []
  place a (b ∷ l) = let rest = place a l in if leq a b then a ∷ b ∷ l else b ∷ rest

  -- sorted(xs, key = …), where `leq x y` compares the keys
  unfoldable pub sort_by : List A → List A
  unfolding place
  sort_by [] = []
  sort_by (x ∷ xs) = place x (sort_by xs)

  place_there : (a b : A) (l : List A) → In b (a ∷ l) → In b (place a l)
  unfolding place
  place_there a b [] h = h
  place_there a b (c ∷ l) h = go (leq a c) (place_there a b l) h
    where
      go :
          (t : Bool)
          → (In b (a ∷ l) → In b (place a l))
          → In b (a ∷ c ∷ l)
          → In b (if t then a ∷ c ∷ l else c ∷ place a l)
      go true rest k = k
      go false rest (inl e) = inr (rest (inl e))
      go false rest (inr (inl e)) = inl e
      go false rest (inr (inr k)) = inr (rest (inr k))

  place_back : (a b : A) (l : List A) → In b (place a l) → In b (a ∷ l)
  unfolding place
  place_back a b [] h = h
  place_back a b (c ∷ l) h = go (leq a c) (place_back a b l) h
    where
      swap : In b (a ∷ l) → In b (a ∷ c ∷ l)
      swap (inl e) = inl e
      swap (inr k) = inr (inr k)

      go :
          (t : Bool)
          → (In b (place a l) → In b (a ∷ l))
          → In b (if t then a ∷ c ∷ l else c ∷ place a l)
          → In b (a ∷ c ∷ l)
      go true rest k = k
      go false rest (inl e) = inr (inl e)
      go false rest (inr k) = swap (rest k)

  -- Sorting neither loses nor adds an item.
  pub In-sort_by : (b : A) (l : List A) → In b (sort_by l) ↔ In b l
  unfolding sort_by
  In-sort_by b [] = (λ h. h, λ h. h)
  In-sort_by b (x ∷ xs) = (
    λ h. there (In-sort_by b xs).0 (place_back x b (sort_by xs) h),
    λ h. place_there x b (sort_by xs) (back (In-sort_by b xs).1 h),
  )
    where
      there : (In b (sort_by xs) → In b xs) → In b (x ∷ sort_by xs) → In b (x ∷ xs)
      there f (inl e) = inl e
      there f (inr k) = inr (f k)

      back : (In b xs → In b (sort_by xs)) → In b (x ∷ xs) → In b (x ∷ sort_by xs)
      back f (inl e) = inl e
      back f (inr k) = inr (f k)

  module _ (total : (x y : A) → leq x y ≡ false → leq y x ≡ true) where
    place-Ordered : (a : A) (l : List A) → Ordered leq l → Ordered leq (place a l)
    unfolding place
    place-Ordered a [] h = tt
    place-Ordered a (b ∷ []) h = ground (arith, total a b)
    place-Ordered a (b ∷ c ∷ l) h = ground (arith, total a b, total a c, place-Ordered a (c ∷ l))

    -- The result of sorting is in order.
    pub sort_by-Ordered : (l : List A) → Ordered leq (sort_by l)
    unfolding sort_by
    sort_by-Ordered [] = tt
    sort_by-Ordered (x ∷ xs) = place-Ordered x (sort_by xs) (sort_by-Ordered xs)

-- A comprehension with a condition holds the items that pass it.
pub In-filter :
    {A : Type 0} (test : A → Bool) (b : A) (l : List A)
    → In b (filter test l) ↔ (In b l × (test b ≡ true))
unfolding filter
In-filter test b [] = (λ h. absurd h, λ h. absurd h.0)
In-filter test b (x ∷ xs) = (
  there (In-filter test b xs).0 (test x) refl,
  λ h. back (In-filter test b xs).1 (test x) refl h.0 h.1,
)
  where
    there :
        (In b (filter test xs) → In b xs × (test b ≡ true))
        → (t : Bool) → test x ≡ t
        → In b (if t then x ∷ filter test xs else filter test xs)
        → In b (x ∷ xs) × (test b ≡ true)
    there rest true e (inl same) = (inl same, rw (← same) e)
    there rest true e (inr k) = (inr (rest k).0, (rest k).1)
    there rest false e k = (inr (rest k).0, (rest k).1)

    back :
        (In b xs × (test b ≡ true) → In b (filter test xs))
        → (t : Bool) → test x ≡ t
        → In b (x ∷ xs)
        → test b ≡ true
        → In b (if t then x ∷ filter test xs else filter test xs)
    back rest true e (inl same) k = inl same
    back rest true e (inr h) k = inr (rest (h, k))
    back rest false e (inl same) k = let fails : test b ≡ false = rw (← same) e in cc
    back rest false e (inr h) k = rest (h, k)

-- A search by key finds a row of the table.
pub In-find :
    {A : Type 0} (key : A → String) (k : String) (rows : List A) (a : A)
    → Table.find key k rows ≡ some a
    → In a rows
unfolding Table.find
In-find key k [] a h = cc
In-find key k (r ∷ rows) a h = go (In-find key k rows a) (str_eq (key r) k) h
  where
    go :
        (Table.find key k rows ≡ some a → In a rows)
        → (t : Bool) → (if t then some r else Table.find key k rows) ≡ some a
        → In a (r ∷ rows)
    go rest true e = inl (cc)
    go rest false e = inr (rest e)
