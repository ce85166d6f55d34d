-- ===== src/Portal/Dashboard.antt =====
-- portal_api.py: `get_dashboard` and its query.
use contract_management.Prelude.{
  ℕ, Bool, ◌&&◌, ◌||◌, String, Option, none, some, List, [], ◌∷◌, ◌==◌, string_eq, ltb, nat_eq,
  if◌then◌else◌,
}
use contract_management.Prelude.Int.{ℤ}
use contract_management.Prelude.Order.{sort_by}
use contract_management.Prelude.Timestamps.{not_before}
use contract_management.Failure.{Result, ok, ◌>>=◌}
use contract_management.Workflow.{VersionStatus}
use contract_management.Site.{Contract, ContractVersion, Site, find_contract}
use contract_management.Platform.{Platform}
use contract_management.Portal.{Member, require_counterparty}

pub record Row : Type 0 where
  pub name : String
  pub contract_title : String
  pub status : String
  pub version_status : VersionStatus
  pub version_number : Option ℤ
  pub effective_date : Option ℕ
  pub expiration_date : Option ℕ
  pub modified : String

-- FIELD(cv.status, …): the place in the list, from 1, and 0 for a value that is not in it.
unfoldable pub field_rank : VersionStatus → ℕ
field_rank VersionStatus.signature_requested = 1
field_rank VersionStatus.under_review = 2
field_rank VersionStatus.approved = 3
field_rank VersionStatus.draft = 4
field_rank VersionStatus.executed = 5
field_rank _ = 0

-- ORDER BY FIELD(cv.status, …), c.modified DESC
unfoldable pub row_order : Row → Row → Bool
unfolding field_rank
row_order a b =
    ltb (field_rank a.version_status) (field_rank b.version_status)
    || (nat_eq (field_rank a.version_status) (field_rank b.version_status)
        && not_before a.modified b.modified)

-- The SELECT list.
abbrev pub row_of : Platform → Contract → ContractVersion → Row
row_of p c v = record {
  name = v.contract;
  contract_title = c.contract_title;
  status = c.status;
  version_status = v.status;
  version_number = v.version_number;
  effective_date = c.effective_date;
  expiration_date = c.expiration_date;
  modified = p.modified "Contract" c.name;
}

-- The WHERE clause.
unfoldable pub is_listed : Member → Contract → ContractVersion → Bool
is_listed counterparty c v =
    (c.counterparty == counterparty.name) && (v.is_current && nat_eq c.docstatus 1)

-- A row of the join, where its contract is there and the condition holds.
unfoldable pub joined : Platform → Member → Option Contract → ContractVersion → List Row → List Row
unfolding is_listed
joined p counterparty none v rest = rest
joined p counterparty (some c) v rest =
    if is_listed counterparty c v then row_of p c v ∷ rest else rest

unfoldable pub select_rows : Platform → Member → List Contract → List ContractVersion → List Row
unfolding joined
select_rows p counterparty contracts [] = []
select_rows p counterparty contracts (v ∷ rows) =
    joined p counterparty (find_contract v.contract contracts) v
      (select_rows p counterparty contracts rows)

pub record Dashboard : Type 0 where
  pub counterparty : Member
  pub contracts : List Row

-- `get_dashboard`
unfoldable pub get_dashboard : Platform → Site → Result Dashboard
unfolding require_counterparty select_rows sort_by row_order
get_dashboard p site = do
  counterparty ← require_counterparty p site
  ok (record {
    counterparty = counterparty;
    contracts = sort_by row_order (select_rows p counterparty site.contracts site.versions);
  })
