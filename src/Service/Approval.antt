-- ===== src/Service/Approval.antt =====
-- services/approval.py
use contract_management.Prelude.{
  Bool, true, false, not, String, List, [], ◌∷◌, map, if◌then◌else◌, ◌==◌, string_eq,
}
use contract_management.Prelude.Lists.{any, all, filter, contains}
use contract_management.Prelude.Table
use contract_management.Failure.{
  Error, does_not_exist, no_approvers, approval_not_pending, cannot_approve, cannot_reject,
}
use contract_management.Exec.{or_raise, gets, modify, skip, throw_if, when, for_each, ◌>>=◌, ◌>>◌}
use contract_management.Workflow.{
  ApprovalStatus, VersionStatus, approval_status_eq, can_transition, approval_roles,
}
use contract_management.Site.{
  Contract, ContractVersion, Approval, Collaborator, decision, M, find_approval,
}
use contract_management.Platform.{Platform}
use contract_management.Doctype.Contract
use contract_management.Doctype.ContractVersion
use contract_management.Doctype.Approval
use contract_management.Service.Notification.{
  get_contract, get_version, notify_safely, notify_about, approval_doc, approval_assigned,
  approval_approved, approval_rejected,
}

-- frappe.get_doc("Approval", name)
unfoldable pub get_approval : String → M Approval
get_approval name = do row ← gets (λ s. find_approval name s.approvals); or_raise row does_not_exist

-- The values that frappe.db.set_value writes, without the controller's checks.
abbrev pub decide : ApprovalStatus → String → Approval → Approval
decide status now a = record a { status = status; approval_date = now }

unfoldable pub set_decision : String → ApprovalStatus → M (Unit {0})
set_decision approval_name status = modify λ s. record s {
  approvals = Table.modify (λ a. a.name) approval_name (decide status s.now) s.approvals;
}

-- The first collaborator who is the approver gets the status.
unfoldable pub review_first : String → ApprovalStatus → List Collaborator → List Collaborator
review_first approver status [] = []
review_first approver status (c ∷ cs) =
    if c.user == approver
    then record c { review_status = decision status } ∷ cs
    else c ∷ review_first approver status cs

-- `_update_collaborator_status`: a contract without such a collaborator is not saved.
unfoldable pub update_collaborator_status : Platform → Approval → ApprovalStatus → M (Unit {0})
unfolding get_contract review_first any
update_collaborator_status p approval status = do
  contract ← get_contract approval.contract
  when (any (λ c. c.user == approval.approver) contract.collaborators) (do
    Contract.save p (record contract {
      collaborators = review_first approval.approver status contract.collaborators;
    })
    skip)

-- The statuses of the approvals of a version.
unfoldable pub statuses_for : String → List Approval → List ApprovalStatus
unfolding filter
statuses_for version rows = map (λ a. a.status) (filter (λ a. a.contract_version == version) rows)

-- not approvals or some status is not Approved
abbrev pub all_are_approved : List ApprovalStatus → Bool
all_are_approved [] = false
all_are_approved (s ∷ ss) = all (λ t. t == ApprovalStatus.approved) (s ∷ ss)

-- `_check_all_approved`
unfoldable pub check_all_approved : String → List Approval → Bool
unfolding statuses_for all
check_all_approved version rows = all_are_approved (statuses_for version rows)

-- `_approve_version` and `_reject_version`, which differ in the status and the message.
unfoldable pub set_version_status : Platform → VersionStatus → Error → String → M (Unit {0})
unfolding get_version
set_version_status p new_status message name = do
  version ← get_version name
  throw_if (not (can_transition version.status new_status)) message
  ContractVersion.save p false (record version { status = new_status })
  skip

unfoldable pub approve_version : Platform → String → M (Unit {0})
unfolding set_version_status
approve_version p name = set_version_status p VersionStatus.approved cannot_approve name

unfoldable pub reject_version : Platform → String → M (Unit {0})
unfolding set_version_status
reject_version p name = set_version_status p VersionStatus.rejected cannot_reject name

-- `ApprovalService.approve`
unfoldable pub approve : Platform → String → M (Unit {0})
unfolding get_approval set_decision
approve p approval_name = do
  approval ← get_approval approval_name
  throw_if (not (approval.status == ApprovalStatus.pending)) approval_not_pending
  set_decision approval_name ApprovalStatus.approved
  update_collaborator_status p approval ApprovalStatus.approved
  all_approved ← gets (λ s. check_all_approved approval.contract_version s.approvals)
  when all_approved (approve_version p approval.contract_version)
  notify_safely "APPROVAL_APPROVED" (notify_about p approval_approved (approval_doc approval))

-- `ApprovalService.reject`
unfoldable pub reject : Platform → String → M (Unit {0})
unfolding get_approval set_decision
reject p approval_name = do
  approval ← get_approval approval_name
  throw_if (not (approval.status == ApprovalStatus.pending)) approval_not_pending
  set_decision approval_name ApprovalStatus.rejected
  update_collaborator_status p approval ApprovalStatus.rejected
  reject_version p approval.contract_version
  notify_safely "APPROVAL_REJECTED" (notify_about p approval_rejected (approval_doc approval))

-- `_get_approvers`
unfoldable pub get_approvers : Contract → List Collaborator
unfolding filter contains approval_roles
get_approvers contract = filter (λ c. contains approval_roles c.role) contract.collaborators

-- `_create_approval`
unfoldable pub create_approval : Platform → Contract → ContractVersion → Collaborator → M Approval
create_approval p contract version collaborator = Approval.insert p (record {
  name = "";
  contract = contract.name;
  contract_version = version.name;
  approver = collaborator.user;
  status = ApprovalStatus.pending;
  approval_date = "";
  remarks = "";
})

unfoldable pub assign : Platform → Contract → ContractVersion → Collaborator → M (Unit {0})
unfolding create_approval
assign p contract version collaborator = do
  approval ← create_approval p contract version collaborator
  notify_safely "APPROVAL_ASSIGNED" (notify_about p approval_assigned (approval_doc approval))

abbrev pub is_empty {ℓ} : {A : Type ℓ} → List A → Bool
is_empty [] = true
is_empty (x ∷ xs) = false

-- `ApprovalService.create_for_version`
unfoldable pub create_for_version : Platform → ContractVersion → M (Unit {0})
unfolding get_contract assign
create_for_version p version = do
  contract ← get_contract version.contract
  throw_if (is_empty (get_approvers contract)) no_approvers
  for_each (get_approvers contract) (assign p contract version)
