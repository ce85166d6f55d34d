-- ===== src/Portal/Review.antt =====
-- portal_api.py: `review_contract`.
use contract_management.Prelude.{
  Bool, not, ◌&&◌, ◌||◌, String, Option, List, ◌==◌, string_eq, if◌then◌else◌,
}
use contract_management.Prelude.Lists.{filter, last}
use contract_management.Prelude.Table
use contract_management.Prelude.Text.{truthy, strip}
use contract_management.Failure.{
  invalid_action, no_contract_access, no_version_to_review, no_pending_review,
}
use contract_management.Exec.{
  Outcome, returned, raised, lift, gets, or_raise, modify, throw_if, when, ◌>>=◌, ◌>>◌,
}
use contract_management.Workflow.{ApprovalStatus, approval_status_eq}
use contract_management.Site.{ContractVersion, Approval, Site, M, find_contract}
use contract_management.Platform.{Platform}
use contract_management.Service.Approval
use contract_management.Service.Workflow.{as_user}
use contract_management.Portal.{require_counterparty, owned_contract}
use contract_management.Portal.Timeline.{Names}
use contract_management.Portal.Detail.{Detail, or_else, is_current_of}
use contract_management.Portal.GetDetail.{get_contract_detail}

-- The version that is marked current, or else the one that was created last.
unfoldable pub version_to_review : Platform → String → List ContractVersion → Option ContractVersion
unfolding filter
version_to_review p contract rows =
    or_else (p.one_version.one (filter (is_current_of contract) rows))
      (last (filter (λ v. v.contract == contract) rows))

-- The filters of the query for the session user's pending approval.
unfoldable pub is_pending_of : String → String → Approval → Bool
is_pending_of user version a =
    (a.contract_version == version)
    && ((a.approver == user) && (a.status == ApprovalStatus.pending))

unfoldable pub pending_approval : Platform → String → String → List Approval → Option Approval
unfolding is_pending_of filter
pending_approval p user version rows = p.one_approval.one (filter (is_pending_of user version) rows)

-- Everything before the first write: the approval to decide.
unfoldable pub approval_to_review : Platform → String → String → M Approval
unfolding require_counterparty owned_contract version_to_review pending_approval
approval_to_review p contract_name action = do
  found ← gets (require_counterparty p)
  member ← lift found
  throw_if (not ((action == "approve") || (action == "reject"))) invalid_action
  contract ← gets (λ s. owned_contract member (find_contract contract_name s.contracts))
  or_raise contract no_contract_access
  version ← gets (λ s. version_to_review p contract_name s.versions)
  current ← or_raise version no_version_to_review
  approval ← gets (λ s. pending_approval p s.user current.name s.approvals)
  or_raise approval no_pending_review

-- frappe.db.set_value("Approval", name, "remarks", remarks.strip())
unfoldable pub set_remarks : String → String → M (Unit {0})
unfolding strip
set_remarks name remarks = modify λ s. record s {
  approvals =
      Table.modify (λ a. a.name) name (λ a. record a { remarks = strip remarks }) s.approvals;
}

-- frappe.db.rollback(): the tables are as the request found them; what has been sent stays sent.
unfoldable pub rollback_to : Site → Site → Site
rollback_to start s = record s {
  counterparties = start.counterparties;
  contracts = start.contracts;
  versions = start.versions;
  approvals = start.approvals;
  requests = start.requests;
  files = start.files;
}

-- except Exception: frappe.db.rollback(); raise
unfoldable pub undo {ℓ} : {A : Type ℓ} → Site → Outcome Site A → Outcome Site A
unfolding rollback_to
undo start (returned a s) = returned a s
undo start (raised e s) = raised e (rollback_to start s)

unfoldable pub or_rollback {ℓ} : {A : Type ℓ} → Site → M A → M A
unfolding undo
or_rollback start call site = undo start (call site)

-- The service's decision, as Administrator.
unfoldable pub apply_decision : Platform → String → String → M (Unit {0})
apply_decision p action name =
    if action == "approve" then Approval.approve p name else Approval.reject p name

-- The writes of a review.
unfoldable pub decide_review : Platform → String → Approval → String → M (Unit {0})
unfolding set_remarks or_rollback as_user apply_decision
decide_review p action approval remarks = do
  start ← gets (λ s. s)
  when (truthy remarks) (set_remarks approval.name remarks)
  as_user "Administrator" (or_rollback start (apply_decision p action approval.name))

-- `review_contract`
unfoldable pub review_contract : Platform → Names → String → String → String → M Detail
unfolding approval_to_review decide_review get_contract_detail
review_contract p names contract_name action remarks = do
  approval ← approval_to_review p contract_name action
  decide_review p action approval remarks
  detail ← gets (get_contract_detail p names contract_name)
  lift detail
