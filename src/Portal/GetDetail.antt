-- ===== src/Portal/GetDetail.antt =====
-- portal_api.py: the answer of `get_contract_detail`, put together.
use contract_management.Prelude.{
  Bool, false, ◌&&◌, String, Option, none, some, List, [], ◌∷◌, ◌==◌, string_eq, if◌then◌else◌,
}
use contract_management.Prelude.Lists.{filter}
use mathlib.Core.Option
use contract_management.Prelude.Text.{truthy}
use contract_management.Failure.{Result, ok, ◌>>=◌, no_contract_access}
use contract_management.Workflow.{
  ApprovalStatus, VersionStatus, approval_status_eq, version_status_eq,
}
use contract_management.Site.{
  Contract, ContractVersion, Approval, SignatureRequest, Site, find_contract, find_counterparty,
  Counterparty,
}
use contract_management.Platform.{Platform}
use contract_management.Portal.{Member, require_counterparty, owned_contract, or_throw}
use contract_management.Portal.Timeline.{Names, Event, timeline}
use contract_management.Portal.Detail.{
  Detail, versions_of, current_version_of, requests_for, latest_request, latest_approval,
  version_info, approval_info, signature_info, url_shown, own_approval, has_status, review_state_of,
}

-- `frappe.db.get_value` of a field of the counterparty.
abbrev field_of : (Counterparty → String) → Option Counterparty → String
field_of get none = ""
field_of get (some c) = get c

-- The time of the first event.
abbrev newest : List Event → String
newest [] = ""
newest (e ∷ events) = e.at

-- What depends on the current version: its approval, its signature request, the session user's own
-- approval, and the URL.
unfoldable pub approval_of : Site → Option ContractVersion → Option Approval
unfolding latest_approval
approval_of site none = none
approval_of site (some v) = latest_approval v.name site.approvals

unfoldable pub request_of : Site → Option ContractVersion → Option SignatureRequest
unfolding latest_request
request_of site none = none
request_of site (some v) = latest_request v.name site.requests

unfoldable pub decision_of : Platform → Site → Option ContractVersion → Option Approval
unfolding own_approval
decision_of p site none = none
decision_of p site (some v) = own_approval p site.user v.name site.approvals

unfoldable pub signing_url_of : Member → Site → Option ContractVersion → String
unfolding url_shown request_of
signing_url_of member site none = ""
signing_url_of member site (some v) =
    if v.status == VersionStatus.signature_requested
    then url_shown member (request_of site (some v))
    else ""

abbrev pub version_has : VersionStatus → Option ContractVersion → Bool
version_has status none = false
version_has status (some v) = v.status == status

abbrev pub executed_available : Option ContractVersion → Bool
executed_available none = false
executed_available (some v) = (v.status == VersionStatus.executed) && truthy v.executed_document

-- The answer, once the timeline is known.
unfoldable pub answer :
    Platform → Names → Site → Member → Contract → Option ContractVersion → List Event → Detail
unfolding approval_of request_of decision_of signing_url_of review_state_of
answer p names site member contract current events =
    let url = signing_url_of member site current in
    let own = decision_of p site current in
    record {
      contract_name = contract.name;
      contract_title = contract.contract_title;
      contract_status = contract.status;
      effective_date = contract.effective_date;
      expiration_date = contract.expiration_date;
      creation = p.creation "Contract" contract.name;
      counterparty = member;
      counterparty_type =
          field_of (λ c. c.counterparty_type) (find_counterparty member.name site.counterparties);
      contact_person =
          field_of (λ c. c.contact_person) (find_counterparty member.name site.counterparties);
      current_version = Option.map (version_info p) current;
      approval = Option.map (approval_info p names) (approval_of site current);
      signature = Option.map signature_info (request_of site current);
      events = events;
      last_activity = newest events;
      can_review =
          version_has VersionStatus.under_review current && has_status ApprovalStatus.pending own;
      can_sign = truthy url;
      signing_url = url;
      review_state = review_state_of own;
      executed_available = executed_available current;
    }

-- `get_contract_detail`
unfoldable pub get_contract_detail : Platform → Names → String → Site → Result Detail
unfolding require_counterparty owned_contract versions_of requests_for current_version_of filter
get_contract_detail p names contract_name site = do
  member ← require_counterparty p site
  contract ←
      or_throw (owned_contract member (find_contract contract_name site.contracts))
        no_contract_access
  let versions = versions_of contract_name site.versions
  let current = current_version_of p contract_name site.versions
  events ←
      timeline p names contract versions (filter (λ a. a.contract == contract_name) site.approvals)
        (requests_for versions site.requests)
  ok (answer p names site member contract current events)
