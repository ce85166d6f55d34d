-- ===== src/Prelude/Table.antt =====
-- A database table: the rows of one doctype, read and written by their primary key.
use contract_management.Prelude.{
  String, ◌≡◌, refl, true, string_eq, Option, none, some, List, [], ◌∷◌, map, arith, str_eq, eq_iff,
  if◌then◌else◌,
}
use mathlib.Core.Option
use contract_management.Prelude.Lists.{contains}

module _ {ℓ} {A : Type ℓ} (key : A → String) where
  -- SELECT … WHERE name = k
  unfoldable pub find : String → List A → Option A
  find k [] = none
  find k (r ∷ rows) = if str_eq (key r) k then some r else find k rows

  -- UPDATE or INSERT of the row with the key of `r`.
  unfoldable pub put : A → List A → List A
  put r [] = r ∷ []
  put r (s ∷ rows) = if str_eq (key s) (key r) then r ∷ rows else s ∷ put r rows

  -- UPDATE … SET … WHERE name = k
  unfoldable pub modify : String → (A → A) → List A → List A
  modify k f [] = []
  modify k f (r ∷ rows) = if str_eq (key r) k then f r ∷ rows else r ∷ modify k f rows

  pub find-put :
      (r : A) (k : String) (rows : List A)
      → find k (put r rows) ≡ (if str_eq (key r) k then some r else find k rows)
  unfolding find put
  find-put r k [] = refl
  find-put r k (s ∷ rows) =
      ground (arith, find-put r k rows, eq_iff (key s) (key r), eq_iff (key s) k, eq_iff (key r) k)

  pub find-key : (k : String) (rows : List A) (r : A) → find k rows ≡ some r → key r ≡ k
  unfolding find
  find-key k [] r h = ground arith
  find-key k (s ∷ rows) r h = ground (arith, find-key k rows r, eq_iff (key s) k)

  module _ (f : A → A) (same_key : (r : A) → key (f r) ≡ key r) where
    pub find-map : (k : String) (rows : List A) → find k (map f rows) ≡ Option.map f (find k rows)
    unfolding find
    find-map k [] = refl
    find-map k (r ∷ rows) = rw same_key (ground (arith, find-map k rows))

    pub find-modify :
        (j k : String) (rows : List A)
        → find k (modify j f rows)
          ≡ (if str_eq j k then Option.map f (find k rows) else find k rows)
    unfolding find modify
    find-modify j k [] = ground arith
    find-modify j k (r ∷ rows) = ground (
      arith,
      find-modify j k rows,
      same_key r,
      eq_iff (key r) j,
      eq_iff (key r) k,
      eq_iff (key (f r)) k,
      eq_iff j k,
    )

  -- A row that is found has its key among the keys.
  pub contains-find :
      (k : String) (rows : List A) (r : A) → find k rows ≡ some r → contains (map key rows) k ≡ true
  unfolding find contains
  contains-find k [] r h = ground arith
  contains-find k (s ∷ rows) r h =
      ground (arith, contains-find k rows r, eq_iff (key s) k, eq_iff k (key s))
