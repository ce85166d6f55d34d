-- ===== src/Report/PendingSignatures.antt =====
-- report/pending_signature_requests/pending_signature_requests.py. `day_of` is the day of a timestamp.
use contract_management.Prelude.{
  ◌≡◌, refl, ◌↔◌, sym, ◌∙◌, ℕ, Bool, true, false, not, ◌&&◌, ◌||◌, arith, String, Option, none,
  some, List, [], ◌∷◌, map, ◌==◌, string_eq, if◌then◌else◌,
}
use mathlib.Core.Option
use contract_management.Prelude.Int.{ℤ}
use contract_management.Prelude.Lists.{filter}
use contract_management.Prelude.Order.{In, Ordered, sort_by, sort_by-Ordered}
use contract_management.Prelude.Text.{truthy}
use contract_management.Prelude.Timestamps.{not_before, not_before_total}
use contract_management.Workflow.{SignatureRequestStatus, request_status_eq}
use contract_management.Site.{
  Contract, ContractVersion, SignatureRequest, Site, find_contract, find_version,
}
use contract_management.Platform.{Platform}
use contract_management.Report.{Column, column, days_between, In-query}
use contract_management.Portal.Detail.{awaits_signature}

-- The status of the filter is one of the statuses of a request.
pub record Filters : Type 0 where
  pub status : Option SignatureRequestStatus
  pub requested_date_from : String
  pub requested_date_to : String

pub record Row : Type 0 where
  pub signature_request : String
  pub contract : Option String
  pub contract_title : Option String
  pub version : Option ℤ
  pub status : SignatureRequestStatus
  pub requested_on : String
  pub modified : String
  pub days_pending : Option ℤ

-- `get_columns`
abbrev pub columns : List Column
columns =
    column "signature_request" "Signature Request" "Link" "Signature Request" 140
    ∷ column "contract" "Contract" "Link" "Contract" 140
    ∷ column "contract_title" "Contract Title" "Data" "" 250
    ∷ column "version" "Version" "Int" "" 80
    ∷ column "status" "Status" "Data" "" 130
    ∷ column "requested_on" "Requested On" "Datetime" "" 170
    ∷ column "days_pending" "Days Pending" "Int" "" 110
    ∷ column "modified" "Modified" "Datetime" "" 160
    ∷ []

-- sr.status = …, or else sr.status IN ('Pending', 'Sent', 'Viewed')
unfoldable pub has_status : Option SignatureRequestStatus → SignatureRequestStatus → Bool
has_status none SignatureRequestStatus.pending = true
has_status none SignatureRequestStatus.sent = true
has_status none SignatureRequestStatus.viewed = true
has_status none _ = false
has_status (some wanted) status = status == wanted

-- The conditions on "requested_on"; NULL passes neither.
abbrev pub not_sooner : String → String → Bool
not_sooner limit at = not (truthy limit) || (truthy at && not_before at limit)

abbrev pub not_later : String → String → Bool
not_later limit at = not (truthy limit) || (truthy at && not_before limit at)

-- The WHERE clause.
unfoldable pub passes : Filters → SignatureRequest → Bool
unfolding has_status
passes f r =
    has_status f.status r.status
    && (not_sooner f.requested_date_from r.requested_on
        && not_later f.requested_date_to r.requested_on)

abbrev pub contract_of : Option ContractVersion → List Contract → Option Contract
contract_of none contracts = none
contract_of (some v) contracts = find_contract v.contract contracts

abbrev pub number_of : Option ContractVersion → Option ℤ
number_of none = none
number_of (some v) = v.version_number

-- The SELECT list over the two left joins, and "days_pending".
unfoldable pub row_of : Platform → (String → ℕ) → ℕ → Site → SignatureRequest → Row
unfolding days_between
row_of p day_of today site r =
    let version = find_version r.contract_version site.versions in
    record {
      signature_request = r.name;
      contract = Option.map (λ c. c.name) (contract_of version site.contracts);
      contract_title = Option.map (λ c. c.contract_title) (contract_of version site.contracts);
      version = number_of version;
      status = r.status;
      requested_on = r.requested_on;
      modified = p.modified "Signature Request" r.name;
      days_pending =
          if truthy r.requested_on then some (days_between today (day_of r.requested_on)) else none;
    }

-- ORDER BY sr.requested_on ASC; NULL comes first, and is the empty text.
abbrev pub row_order : Row → Row → Bool
row_order a b = not_before b.requested_on a.requested_on

-- `get_data`
unfoldable pub get_data : Platform → (String → ℕ) → ℕ → Filters → Site → List Row
unfolding filter passes row_of sort_by
get_data p day_of today f site =
    sort_by row_order (map (row_of p day_of today site) (filter (passes f) site.requests))

-- `execute`
abbrev pub execute : Platform → (String → ℕ) → ℕ → Filters → Site → List Column × List Row
execute p day_of today f site = (columns, get_data p day_of today f site)

abbrev pub no_filters : Filters
no_filters = record { status = none; requested_date_from = ""; requested_date_to = "" }

has_status-none : (s : SignatureRequestStatus) → has_status none s ≡ awaits_signature s
unfolding has_status awaits_signature
has_status-none SignatureRequestStatus.unset = refl
has_status-none SignatureRequestStatus.in_progress = refl
has_status-none SignatureRequestStatus.draft = refl
has_status-none SignatureRequestStatus.pending = refl
has_status-none SignatureRequestStatus.sent = refl
has_status-none SignatureRequestStatus.viewed = refl
has_status-none SignatureRequestStatus.completed = refl
has_status-none SignatureRequestStatus.declined = refl
has_status-none SignatureRequestStatus.cancelled = refl
has_status-none SignatureRequestStatus.expired = refl

and_true : (b : Bool) → (b && true) ≡ b
and_true b = ground arith

passes-no_filters : (r : SignatureRequest) → passes no_filters r ≡ awaits_signature r.status
unfolding passes
passes-no_filters r = and_true (has_status none r.status) ∙ has_status-none r.status

-- Without filters, the report on pending signature requests holds exactly the rows of the requests
-- that the portal takes to await a signature, the one requested first in front.
pub execute-Awaiting :
    (p : Platform) (day_of : String → ℕ) (today : ℕ) (site : Site)
    → ((row : Row)
        → In row (execute p day_of today no_filters site).1 ↔ (
            (r : SignatureRequest) × In r site.requests
            × (awaits_signature r.status ≡ true)
            × (row_of p day_of today site r ≡ row)))
      × Ordered row_order (execute p day_of today no_filters site).1
unfolding get_data
execute-Awaiting p day_of today site = (
  λ row. (λ h. to row h, λ h. from row h),
  sort_by-Ordered row_order (λ x y. not_before_total y.requested_on x.requested_on)
      (map (row_of p day_of today site) (filter (passes no_filters) site.requests)),
)
  where
    Listed : Row → Type 0
    Listed row =
        (r : SignatureRequest) × In r site.requests
        × (awaits_signature r.status ≡ true)
        × (row_of p day_of today site r ≡ row)

    to : (row : Row) → In row (get_data p day_of today no_filters site) → Listed row
    to row h =
        let (r, there, passing, same) =
          (In-query row_order (row_of p day_of today site) (passes no_filters) row site.requests).0
            h in
        (r, there, sym (passes-no_filters r) ∙ passing, same)

    from : (row : Row) → Listed row → In row (get_data p day_of today no_filters site)
    from row (r, there, awaits, same) =
        (In-query row_order (row_of p day_of today site) (passes no_filters) row site.requests).1
          (r, there, passes-no_filters r ∙ awaits, same)
