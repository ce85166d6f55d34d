-- ===== src/Report/Summary.antt =====
-- report/contract_summary/contract_summary.py. The join with the counterparties adds no rows and selects
-- nothing, since a contract names one counterparty.
pub mod Shows
use contract_management.Prelude.{
  ◌≡◌, refl, ◌↔◌, ◌⊎◌, inl, inr, subst, sym, ℕ, Bool, true, false, ◌&&◌, String, Option, none, some,
  List, [], ◌∷◌, map, ◌==◌, string_eq, eq_iff, arith, if◌then◌else◌,
}
use contract_management.Prelude.Int.{ℤ}
use contract_management.Prelude.Lists.{filter, append}
use contract_management.Prelude.Order.{In, Ordered, sort_by, In-sort_by, In-filter, sort_by-Ordered}
use contract_management.Prelude.Timestamps.{not_before, not_before_total}
use contract_management.Site.{Contract, ContractVersion, Site}
use contract_management.Platform.{Platform}
use contract_management.Report.{Column, column, equals_filter, from_filter, to_filter, In-map}

pub record Filters : Type 0 where
  pub status : String
  pub counterparty : String
  pub effective_date_from : Option ℕ
  pub effective_date_to : Option ℕ

pub record Row : Type 0 where
  pub contract : String
  pub contract_title : String
  pub counterparty : String
  pub current_version : Option ℤ
  pub status : String
  pub effective_date : Option ℕ
  pub expiration_date : Option ℕ
  pub owner : String
  pub modified : String

-- `get_columns`
abbrev pub columns : List Column
columns =
    column "contract" "Contract" "Link" "Contract" 140
    ∷ column "contract_title" "Contract Title" "Data" "" 250
    ∷ column "counterparty" "Counterparty" "Link" "Counterparty" 180
    ∷ column "current_version" "Current Version" "Int" "" 100
    ∷ column "status" "Status" "Data" "" 130
    ∷ column "effective_date" "Effective Date" "Date" "" 130
    ∷ column "expiration_date" "Expiration Date" "Date" "" 130
    ∷ column "owner" "Owner" "Link" "User" 180
    ∷ column "modified" "Modified" "Datetime" "" 160
    ∷ []

-- The WHERE clause.
unfoldable pub passes : Filters → Contract → Bool
unfolding from_filter to_filter
passes f c =
    (equals_filter f.status c.status && equals_filter f.counterparty c.counterparty)
    && (from_filter f.effective_date_from c.effective_date
        && to_filter f.effective_date_to c.effective_date)

abbrev pub row_of : Platform → Contract → Option ℤ → Row
row_of p c number = record {
  contract = c.name;
  contract_title = c.contract_title;
  counterparty = c.counterparty;
  current_version = number;
  status = c.status;
  effective_date = c.effective_date;
  expiration_date = c.expiration_date;
  owner = p.owner "Contract" c.name;
  modified = p.modified "Contract" c.name;
}

-- ON cv.contract = c.name AND cv.is_current = 1
unfoldable pub is_joined : Contract → ContractVersion → Bool
is_joined c v = (v.contract == c.name) && v.is_current

-- LEFT JOIN: a contract with no such version has one row, with NULL for the version's number.
unfoldable pub rows_with : Platform → Contract → List ContractVersion → List Row
rows_with p c [] = row_of p c none ∷ []
rows_with p c (v ∷ rest) = map (λ u. row_of p c u.version_number) (v ∷ rest)

unfoldable pub joined : Platform → List ContractVersion → List Contract → List Row
unfolding rows_with is_joined filter
joined p versions [] = []
joined p versions (c ∷ rest) =
    append (rows_with p c (filter (is_joined c) versions)) (joined p versions rest)

-- ORDER BY c.modified DESC
abbrev pub row_order : Row → Row → Bool
row_order a b = not_before a.modified b.modified

-- `get_data`
unfoldable pub get_data : Platform → Filters → Site → List Row
unfolding filter passes joined sort_by
get_data p f site = sort_by row_order (joined p site.versions (filter (passes f) site.contracts))

-- `execute`
abbrev pub execute : Platform → Filters → Site → List Column × List Row
execute p f site = (columns, get_data p f site)
