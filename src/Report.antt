-- ===== src/Report.antt =====
-- report/: what the reports share. A report answers with its columns and its rows.
pub mod Expiring
pub mod Summary
pub mod PendingSignatures
use contract_management.Prelude.{
  ℕ, zero, suc, ◌+◌, ◌-◌, ◌≤◌, ◌⊎◌, eq_iff, ◌≡◌, refl, ◌↔◌, inl, inr, ap, ◌∙◌, Bool, true, false,
  not, ◌||◌, ◌==◌, string_eq, String, Option, none, some, List, [], ◌∷◌, map, leb, if◌then◌else◌,
  arith,
}
use contract_management.Prelude.Int.{ℤ, pos, negsuc}
use contract_management.Prelude.Text.{truthy}
use contract_management.Prelude.Lists.{filter}
use contract_management.Prelude.Order.{In, sort_by, In-sort_by, In-filter}

pub record Column : Type 0 where
  pub fieldname : String
  pub label : String
  pub fieldtype : String
  pub options : String
  pub width : ℕ

abbrev pub column : String → String → String → String → ℕ → Column
column fieldname label fieldtype options width = record {
  fieldname = fieldname;
  label = label;
  fieldtype = fieldtype;
  options = options;
  width = width;
}

-- A condition "column = value" that stands in the query only if the filter has a value.
abbrev pub equals_filter : String → String → Bool
equals_filter filter value = not (truthy filter) || (value == filter)

-- "column >= day": NULL does not pass.
unfoldable pub from_filter : Option ℕ → Option ℕ → Bool
from_filter none value = true
from_filter (some day) none = false
from_filter (some day) (some d) = leb day d

-- "column <= day"
unfoldable pub to_filter : Option ℕ → Option ℕ → Bool
to_filter none value = true
to_filter (some day) none = false
to_filter (some day) (some d) = leb d day

-- (a - b).days
unfoldable pub days_between : ℕ → ℕ → ℤ
days_between a b = if leb b a then pos (a - b) else negsuc ((b - a) - 1)

-- The number of days from one day to another.
abbrev pub DaysUntil : ℕ → ℕ → ℤ → Type 0
DaysUntil today day (pos n) = today + n ≡ day
DaysUntil today day (negsuc n) = day + (n + 1) ≡ today

pub days_between-DaysUntil : (day today : ℕ) → DaysUntil today day (days_between day today)
unfolding days_between
days_between-DaysUntil day today = go (leb today day) refl
  where
    go :
        (b : Bool)
        → leb today day ≡ b
        → DaysUntil today day (if b then pos (day - today) else negsuc ((today - day) - 1))
    go true h = ground arith
    go false h = ground arith

-- What a condition of a query asks for: nothing without a filter, and else a value in the range.
abbrev pub Equals : String → String → Type 0
Equals filter value = (filter ≡ "") ⊎ (value ≡ filter)

abbrev pub From : Option ℕ → Option ℕ → Type 0
From none value = Unit
From (some day) none = ⊥
From (some day) (some d) = day ≤ d

abbrev pub UpTo : Option ℕ → Option ℕ → Type 0
UpTo none value = Unit
UpTo (some day) none = ⊥
UpTo (some day) (some d) = d ≤ day

pub equals_filter_iff : (f v : String) → (equals_filter f v ≡ true) ↔ Equals f v
equals_filter_iff f v = ground (arith, eq_iff f "", eq_iff v f)

pub from_filter-iff-From : (f v : Option ℕ) → (from_filter f v ≡ true) ↔ From f v
unfolding from_filter
from_filter-iff-From none v = (λ h. tt, λ h. refl)
from_filter-iff-From (some day) none = (λ h. cc, λ h. absurd h)
from_filter-iff-From (some day) (some d) = (λ h. ground arith, λ h. ground arith)

pub to_filter-iff-UpTo : (f v : Option ℕ) → (to_filter f v ≡ true) ↔ UpTo f v
unfolding to_filter
to_filter-iff-UpTo none v = (λ h. tt, λ h. refl)
to_filter-iff-UpTo (some day) none = (λ h. cc, λ h. absurd h)
to_filter-iff-UpTo (some day) (some d) = (λ h. ground arith, λ h. ground arith)

-- What a comprehension makes of the items.
pub In-map :
    {A B : Type 0} (f : A → B) (y : B) (xs : List A)
    → In y (map f xs) ↔ ((x : A) × In x xs × (f x ≡ y))
In-map f y [] = (λ h. absurd h, λ h. absurd h.1)
In-map {A} f y (x ∷ xs) = (to (In-map f y xs).0, from (In-map f y xs).1)
  where
    to :
        (In y (map f xs) → (z : A) × In z xs × (f z ≡ y))
        → In y (map f (x ∷ xs))
        → (z : A) × In z (x ∷ xs) × (f z ≡ y)
    to rest (inl same) = (x, inl refl, same)
    to rest (inr place) = let (z, there, same) = rest place in (z, inr there, same)

    from :
        ((z : A) × In z xs × (f z ≡ y) → In y (map f xs))
        → (z : A) × In z (x ∷ xs) × (f z ≡ y)
        → In y (map f (x ∷ xs))
    from rest (z, inl same, e) = inl (ap f same ∙ e)
    from rest (z, inr there, e) = inr (rest (z, there, e))

-- What a query with a condition and an order, and a column for each row, answers with.
pub In-query :
    {A B : Type 0} (leq : B → B → Bool) (f : A → B) (test : A → Bool) (y : B) (xs : List A)
    → In y (sort_by leq (map f (filter test xs)))
      ↔ ((x : A) × In x xs × (test x ≡ true) × (f x ≡ y))
In-query {A} leq f test y xs = (λ h. to h, λ h. from h)
  where
    to :
        In y (sort_by leq (map f (filter test xs)))
        → (x : A) × In x xs × (test x ≡ true) × (f x ≡ y)
    to h =
        let (x, place, same) =
          (In-map f y (filter test xs)).0 ((In-sort_by leq y (map f (filter test xs))).0 h) in
        let (there, passing) = (In-filter test x xs).0 place in (x, there, passing, same)

    from :
        (x : A) × In x xs × (test x ≡ true) × (f x ≡ y)
        → In y (sort_by leq (map f (filter test xs)))
    from (x, there, passing, same) =
        (In-sort_by leq y (map f (filter test xs))).1
          ((In-map f y (filter test xs)).1 (x, (In-filter test x xs).1 (there, passing), same))
