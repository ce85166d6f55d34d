-- ===== src/Portal.antt =====
-- portal_api.py: who may use the portal, and what belongs to a counterparty.
pub mod Dashboard
pub mod Listing
pub mod Access
pub mod Timeline
pub mod Detail
pub mod GetDetail
pub mod Download
pub mod Review
pub mod Atomic
pub mod Decision
pub mod Flags
pub mod Signed
use mathlib.Core.Option
use contract_management.Prelude.{
  Bool, true, false, not, ◌&&◌, ◌||◌, String, Option, none, some, List, ◌==◌, string_eq,
}
use contract_management.Prelude.Lists.{filter}
use contract_management.Prelude.Text.{truthy}
use contract_management.Failure.{Error, Result, ok, err, no_portal_access}
use contract_management.Site.{Counterparty, Contract, Site, find_contract}
use contract_management.Platform.{Platform}

-- The fields that the query selects.
pub record Member : Type 0 where
  pub name : String
  pub counterparty_name : String
  pub email : String

abbrev pub member_of : Counterparty → Member
member_of c = record { name = c.name; counterparty_name = c.counterparty_name; email = c.email }

-- The filters of the query in `_get_counterparty_for_user`.
unfoldable pub is_portal_user : String → Counterparty → Bool
is_portal_user user c = (c.portal_user == user) && c.portal_enabled

-- `_get_counterparty_for_user`, for the session's user.
unfoldable pub get_counterparty_for_user : Platform → Site → Option Member
unfolding is_portal_user filter
get_counterparty_for_user p site = elim (not (truthy site.user) || (site.user == "Guest")) [
  | true ↦ none
  | false ↦
      Option.map member_of
        (p.one_counterparty.one (filter (is_portal_user site.user) site.counterparties))
]

abbrev pub or_throw {ℓ} : {A : Type ℓ} → Option A → Error → Result A
or_throw none e = err e
or_throw (some a) e = ok a

-- `_require_counterparty`
unfoldable pub require_counterparty : Platform → Site → Result Member
unfolding get_counterparty_for_user
require_counterparty p site = or_throw (get_counterparty_for_user p site) no_portal_access

pub record SessionInfo : Type 0 where
  pub user : String
  pub counterparty : Option Member

-- `get_session_info`
unfoldable pub get_session_info : Platform → Site → SessionInfo
unfolding get_counterparty_for_user
get_session_info p site = record {
  user = site.user;
  counterparty = get_counterparty_for_user p site;
}

-- contract and contract.counterparty == counterparty.name
unfoldable pub owned_contract : Member → Option Contract → Option Contract
owned_contract counterparty none = none
owned_contract counterparty (some c) = elim (c.counterparty == counterparty.name) [
  | true ↦ some c
  | false ↦ none
]
