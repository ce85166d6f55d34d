-- ===== src/Report/Expiring.antt =====
-- report/expiring_contracts/expiring_contracts.py
use contract_management.Prelude.{
  ◌≡◌, ◌≤◌, refl, ◌↔◌, sym, ap, ◌∙◌, ℕ, Bool, true, false, ◌&&◌, String, Option, none, some, List,
  [], ◌∷◌, map, leb, arith,
}
use mathlib.Core.Option
use contract_management.Prelude.Int.{ℤ, pos, negsuc}
use contract_management.Prelude.Lists.{filter}
use contract_management.Prelude.Order.{In, Ordered, sort_by, sort_by-Ordered}
use contract_management.Site.{Contract, Site}
use contract_management.Platform.{Platform}
use contract_management.Report.{
  Column, column, equals_filter, from_filter, to_filter, days_between, DaysUntil,
  days_between-DaysUntil, Equals, From, UpTo, equals_filter_iff, from_filter-iff-From,
  to_filter-iff-UpTo, In-query,
}

pub record Filters : Type 0 where
  pub status : String
  pub counterparty : String
  pub expiration_date_from : Option ℕ
  pub expiration_date_to : Option ℕ

pub record Row : Type 0 where
  pub contract : String
  pub contract_title : String
  pub counterparty : String
  pub status : String
  pub effective_date : Option ℕ
  pub expiration_date : Option ℕ
  pub owner : String
  pub modified : String
  pub days_remaining : Option ℤ

-- `get_columns`
abbrev pub columns : List Column
columns =
    column "contract" "Contract" "Link" "Contract" 140
    ∷ column "contract_title" "Contract Title" "Data" "" 250
    ∷ column "counterparty" "Counterparty" "Link" "Counterparty" 180
    ∷ column "status" "Status" "Data" "" 130
    ∷ column "effective_date" "Effective Date" "Date" "" 130
    ∷ column "expiration_date" "Expiration Date" "Date" "" 130
    ∷ column "days_remaining" "Days Remaining" "Int" "" 120
    ∷ column "owner" "Owner" "Link" "User" 180
    ∷ column "modified" "Modified" "Datetime" "" 160
    ∷ []

-- The WHERE clause.
unfoldable pub passes : Filters → Contract → Bool
unfolding from_filter to_filter
passes f c =
    (equals_filter f.status c.status && equals_filter f.counterparty c.counterparty)
    && (from_filter f.expiration_date_from c.expiration_date
        && to_filter f.expiration_date_to c.expiration_date)

unfoldable pub row_of : Platform → ℕ → Contract → Row
unfolding days_between
row_of p today c = record {
  contract = c.name;
  contract_title = c.contract_title;
  counterparty = c.counterparty;
  status = c.status;
  effective_date = c.effective_date;
  expiration_date = c.expiration_date;
  owner = p.owner "Contract" c.name;
  modified = p.modified "Contract" c.name;
  days_remaining = Option.map (λ d. days_between d today) c.expiration_date;
}

-- ORDER BY c.expiration_date IS NULL ASC, c.expiration_date ASC
unfoldable pub no_later : Option ℕ → Option ℕ → Bool
no_later none none = true
no_later none (some d) = false
no_later (some d) none = true
no_later (some d) (some e) = leb d e

abbrev pub row_order : Row → Row → Bool
row_order a b = no_later a.expiration_date b.expiration_date

-- `get_data`
unfoldable pub get_data : Platform → ℕ → Filters → Site → List Row
unfolding filter passes row_of sort_by no_later
get_data p today f site =
    sort_by row_order (map (row_of p today) (filter (passes f) site.contracts))

-- `execute`
abbrev pub execute : Platform → ℕ → Filters → Site → List Column × List Row
execute p today f site = (columns, get_data p today f site)

no_later_total : (a b : Option ℕ) → no_later a b ≡ false → no_later b a ≡ true
unfolding no_later
no_later_total none none h = cc
no_later_total none (some e) h = refl
no_later_total (some d) none h = cc
no_later_total (some d) (some e) h = ground arith

-- What the filters ask for: the status, the counterparty, and the range of the expiration date.
abbrev pub IsSelected : Filters → Contract → Type 0
IsSelected f c =
    Equals f.status c.status
    × Equals f.counterparty c.counterparty
    × From f.expiration_date_from c.expiration_date
    × UpTo f.expiration_date_to c.expiration_date

-- The columns of a contract's row, but for the days remaining.
abbrev pub Describes : Platform → Contract → Row → Type 0
Describes p c row =
    (row.contract ≡ c.name)
    × (row.contract_title ≡ c.contract_title)
    × (row.counterparty ≡ c.counterparty)
    × (row.status ≡ c.status)
    × (row.effective_date ≡ c.effective_date)
    × (row.expiration_date ≡ c.expiration_date)
    × (row.owner ≡ p.owner "Contract" c.name)
    × (row.modified ≡ p.modified "Contract" c.name)

-- The days from today until an expiration date, in a column that is empty without the date.
abbrev pub CountsDays : ℕ → Option ℕ → Option ℤ → Type 0
CountsDays today none days = days ≡ none
CountsDays today (some day) none = ⊥
CountsDays today (some day) (some n) = DaysUntil today day n

-- The next to expire first, those without an expiration date last.
abbrev pub NoLater : Option ℕ → Option ℕ → Type 0
NoLater a none = Unit
NoLater none (some e) = ⊥
NoLater (some d) (some e) = d ≤ e

abbrev pub Ascending : List Row → Type 0
Ascending [] = Unit
Ascending (x ∷ []) = Unit
Ascending (x ∷ y ∷ l) = NoLater x.expiration_date y.expiration_date × Ascending (y ∷ l)

passes-iff-IsSelected : (f : Filters) (c : Contract) → (passes f c ≡ true) ↔ IsSelected f c
unfolding passes
passes-iff-IsSelected f c = ground (
  arith,
  equals_filter_iff f.status c.status,
  equals_filter_iff f.counterparty c.counterparty,
  from_filter-iff-From f.expiration_date_from c.expiration_date,
  to_filter-iff-UpTo f.expiration_date_to c.expiration_date,
)

CountsDays-same :
    (today : ℕ) (o : Option ℕ) → CountsDays today o (Option.map (λ d. days_between d today) o)
CountsDays-same today none = refl
CountsDays-same today (some d) = days_between-DaysUntil d today

-- Two numbers of days until the same day are the same.
DaysUntil-unique : (today d : ℕ) (m n : ℤ) → DaysUntil today d m → DaysUntil today d n → m ≡ n
DaysUntil-unique today d (pos a) (pos b) h k = ground arith
DaysUntil-unique today d (pos a) (negsuc b) h k = ground arith
DaysUntil-unique today d (negsuc a) (pos b) h k = ground arith
DaysUntil-unique today d (negsuc a) (negsuc b) h k = ground arith

CountsDays-unique :
    (today : ℕ) (o : Option ℕ) (m n : Option ℤ)
    → CountsDays today o m
    → CountsDays today o n
    → m ≡ n
CountsDays-unique today none m n h k = h ∙ sym k
CountsDays-unique today (some d) none n h k = absurd h
CountsDays-unique today (some d) (some a) none h k = absurd k
CountsDays-unique today (some d) (some a) (some b) h k = ap some (DaysUntil-unique today d a b h k)

module _ (p : Platform) (today : ℕ) (c : Contract) (row : Row) where
  abbrev IsRowOf : Type 0
  IsRowOf = Describes p c row × CountsDays today c.expiration_date row.days_remaining

  row_of-Describes : row_of p today c ≡ row → IsRowOf
  unfolding row_of
  row_of-Describes same =
      rw (← same)
        ((refl, refl, refl, refl, refl, refl, refl, refl), CountsDays-same today c.expiration_date)

  Describes-row_of : IsRowOf → row_of p today c ≡ row
  unfolding row_of
  Describes-row_of (d, days) =
      let counted =
        CountsDays-unique today c.expiration_date _ _ (CountsDays-same today c.expiration_date)
          days in
      ground arith

Ordered-Ascending : (rows : List Row) → Ordered row_order rows → Ascending rows
unfolding no_later
Ordered-Ascending [] h = tt
Ordered-Ascending (x ∷ []) h = tt
Ordered-Ascending (x ∷ y ∷ l) h =
    (next x.expiration_date y.expiration_date h.0, Ordered-Ascending (y ∷ l) h.1)
  where
    next : (a b : Option ℕ) → no_later a b ≡ true → NoLater a b
    next none none k = tt
    next none (some e) k = cc
    next (some d) none k = tt
    next (some d) (some e) k = ground arith

-- The report on expiring contracts holds exactly one kind of row, that of a contract that has the
-- filter's status and counterparty and whose expiration date lies in the filter's range, where each of
-- these asks for nothing if it is not given. The row has the fields of the contract and, if that has
-- an expiration date, the days from today until then, negative ones after it. The next to expire
-- stand first, and those without an expiration date last.
pub execute-Lists :
    (p : Platform) (today : ℕ) (f : Filters) (site : Site)
    → ((row : Row)
        → In row (execute p today f site).1 ↔ (
            (c : Contract) × In c site.contracts
            × IsSelected f c
            × Describes p c row
            × CountsDays today c.expiration_date row.days_remaining))
      × Ascending (execute p today f site).1
unfolding get_data
execute-Lists p today f site = (
  λ row. (
    λ h.
        (let (c, there, passing, same) =
            (In-query row_order (row_of p today) (passes f) row site.contracts).0 h in
          let (fields, days) = row_of-Describes p today c row same in
          (c, there, (passes-iff-IsSelected f c).0 passing, fields, days)),
    λ h.
        (let (c, there, selected, fields, days) = h in
          (In-query row_order (row_of p today) (passes f) row site.contracts).1 (
            c,
            there,
            (passes-iff-IsSelected f c).1 selected,
            Describes-row_of p today c row (fields, days),
          )),
  ),
  Ordered-Ascending _ (
      sort_by-Ordered row_order (λ x y. no_later_total x.expiration_date y.expiration_date)
        (map (row_of p today) (filter (passes f) site.contracts))),
)
