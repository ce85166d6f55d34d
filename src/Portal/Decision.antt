-- ===== src/Portal/Decision.antt =====
-- portal_api.py: which approval `review_contract` decides.
use contract_management.Prelude.{
  ◌≡◌, true, String, some, ◌==◌, string_eq, eq_iff, arith, if◌then◌else◌,
}
use contract_management.Prelude.Order.{In}
use contract_management.Workflow.{ApprovalStatus, approval_status_eq}
use contract_management.Site.{Contract, ContractVersion, Approval, Site, find_contract}
use contract_management.Platform.{Platform}
use contract_management.Service.Approval as Approvals
use contract_management.Portal.{Member}
use contract_management.Portal.Access.{IsPortalUser}
use contract_management.Portal.Detail.{Detail}
use contract_management.Portal.Review.{version_to_review, is_pending_of}

-- The session's user stands for the contract's counterparty, and the approval is the user's own
-- Pending one of the version to review.
abbrev pub MayDecide : Platform → String → Site → Approval → Type 0
MayDecide p contract_name site a =
    (member : Member) × (contract : Contract) × (version : ContractVersion) × IsPortalUser site
      member
    × (find_contract contract_name site.contracts ≡ some contract)
    × (contract.counterparty ≡ member.name)
    × (version_to_review p contract_name site.versions ≡ some version)
    × In a site.approvals
    × (a.contract_version ≡ version.name)
    × (a.approver ≡ site.user)
    × (a.status ≡ ApprovalStatus.pending)

pub is_pending_of-true :
    (user version : String) (a : Approval)
    → is_pending_of user version a ≡ true
    → (a.contract_version ≡ version) × (a.approver ≡ user) × (a.status ≡ ApprovalStatus.pending)
unfolding is_pending_of
is_pending_of-true user version a h = ground (
  arith,
  eq_iff a.contract_version version,
  eq_iff a.approver user,
  approval_status_eq.beq_iff a.status ApprovalStatus.pending,
)

abbrev pub status_of : String → ApprovalStatus
status_of action = if action == "approve" then ApprovalStatus.approved else ApprovalStatus.rejected
