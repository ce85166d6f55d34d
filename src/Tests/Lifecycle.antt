-- ===== src/Tests/Lifecycle.antt =====
-- The theorems on sequences of service calls, at a review by two approvers.
use contract_management.Prelude.{inl, ◌≡◌, ◌↔◌, refl, true, some, [], ◌∷◌}
use contract_management.Exec.{◌>>=◌, returned, state_of}
use contract_management.Prelude.Lists
use contract_management.Prelude.Text
use contract_management.Distinct.{check_distinct}
use contract_management.Doctype.Contract
use contract_management.Doctype.ContractVersion
use contract_management.Service.Notification
use contract_management.Safety.Decisions.{decided, IsDecided, reject-returned, approve-last}
use contract_management.Site.{Approval as ApprovalRow, find_approval}
use contract_management.Prelude.Table
use contract_management.Workflow.{
  can_transition, VersionStatus, ApprovalStatus, SignatureRequestStatus,
}
use contract_management.Workflow.Fixture.{Action, next_state, can_transition-iff-next_state}
use contract_management.Workflow.Reachable.{Run, AnyStatus, under_review}
use contract_management.Site.{Site}
use contract_management.Service.Approval
use contract_management.Safety.Status.{status_at}
use contract_management.Safety.History.{Reach, serve, approve, reject, here, call}
use contract_management.Safety.Lifecycle.{status_follows_transitions, terminal_statuses_stay}
use contract_management.Safety.Rejection.{
  HasRejected, IsUnapproved, rejection_is_final, check_all_approved-status,
}
use contract_management.Tests.Sample.{
  sample, sample-FollowsFixture, sample-NamesAreFresh, site_with, approval,
}

abbrev review : Site
review =
    site_with VersionStatus.under_review
      (approval "A1" "ann" ApprovalStatus.pending
        ∷ approval "A2" "bob" ApprovalStatus.rejected
        ∷ [])
      SignatureRequestStatus.draft

abbrev approved_by_ann : Site
approved_by_ann = state_of (serve sample (approve "A1") review)

abbrev rejected_again : Site
rejected_again = state_of (serve sample (reject "A1") approved_by_ann)

abbrev history : Reach sample review rejected_again
history = call (reject "A1") (call (approve "A1") here)

bob_rejected : HasRejected "V1" review.approvals
unfolding Table.find
bob_rejected = ("A2", approval "A2" "bob" ApprovalStatus.rejected, refl, refl, refl)

in_review : status_at "V1" review.versions ≡ some VersionStatus.under_review
unfolding Table.find
in_review = refl

unapproved : IsUnapproved (status_at "V1" review.versions)
unfolding Table.find
unapproved = under_review

rejection_is_final_example :
    HasRejected "V1" rejected_again.approvals
    × IsUnapproved (status_at "V1" rejected_again.versions)
rejection_is_final_example =
    rejection_is_final sample sample-FollowsFixture sample-NamesAreFresh "V1" review rejected_again
      history bob_rejected unapproved

status_follows_transitions_example :
    (t : VersionStatus) × (status_at "V1" rejected_again.versions ≡ some t)
    × Run AnyStatus VersionStatus.under_review t
status_follows_transitions_example =
    status_follows_transitions sample sample-FollowsFixture sample-NamesAreFresh "V1" review
      rejected_again VersionStatus.under_review history in_review

abbrev executed_site : Site
executed_site =
    site_with VersionStatus.executed (approval "A1" "ann" ApprovalStatus.pending ∷ [])
      SignatureRequestStatus.completed

is_executed : status_at "V1" executed_site.versions ≡ some VersionStatus.executed
unfolding Table.find
is_executed = refl

terminal_statuses_stay_example :
    status_at "V1" (state_of (serve sample (approve "A1") executed_site)).versions
    ≡ some VersionStatus.executed
terminal_statuses_stay_example =
    terminal_statuses_stay sample sample-FollowsFixture sample-NamesAreFresh "V1" executed_site
      (state_of (serve sample (approve "A1") executed_site)) VersionStatus.executed (inl refl)
      (call (approve "A1") here) is_executed

-- Decisions on the approval of the one approver.
abbrev single : Site
single =
    site_with VersionStatus.under_review (approval "A1" "ann" ApprovalStatus.pending ∷ [])
      SignatureRequestStatus.draft

abbrev rejecting : Site
rejecting = state_of (Approval.reject sample "A1" single)

abbrev approving : Site
approving = state_of (Approval.approve sample "A1" single)

rejects : Approval.reject sample "A1" single ≡ returned tt rejecting
unfolding Approval.reject Approval.approve Approval.reject_version Approval.approve_version
    Approval.update_collaborator_status Approval.check_all_approved ◌>>=◌ Table.find Table.put
    Table.modify can_transition Lists.any Lists.filter Approval.review_first Contract.save
    Contract.validate Contract.normalize_fields Contract.validate_required_fields
    Contract.validate_dates Contract.validate_unique_collaborators check_distinct
    ContractVersion.save ContractVersion.accept ContractVersion.validate
    ContractVersion.normalize_fields ContractVersion.validate_required_fields
    ContractVersion.validate_unique_version_number ContractVersion.validate_status_consistency
    ContractVersion.validate_current_version_exists Notification.notify_safely
    Notification.notify_about Text.strip
rejects = refl

approves : Approval.approve sample "A1" single ≡ returned tt approving
unfolding Approval.reject Approval.approve Approval.reject_version Approval.approve_version
    Approval.update_collaborator_status Approval.check_all_approved ◌>>=◌ Table.find Table.put
    Table.modify can_transition Lists.any Lists.filter Approval.review_first Contract.save
    Contract.validate Contract.normalize_fields Contract.validate_required_fields
    Contract.validate_dates Contract.validate_unique_collaborators check_distinct
    ContractVersion.save ContractVersion.accept ContractVersion.validate
    ContractVersion.normalize_fields ContractVersion.validate_required_fields
    ContractVersion.validate_unique_version_number ContractVersion.validate_status_consistency
    ContractVersion.validate_current_version_exists Notification.notify_safely
    Notification.notify_about Text.strip
approves = refl

reject-returned_example :
    (a : ApprovalRow) × (find_approval "A1" single.approvals ≡ some a)
    × (a.status ≡ ApprovalStatus.pending)
    × IsDecided ApprovalStatus.rejected "A1" a single rejecting
    × (status_at a.contract_version rejecting.versions ≡ some VersionStatus.rejected)
reject-returned_example = reject-returned sample "A1" single rejecting rejects

approve-last_example :
    (ApprovalStatus.pending ≡ ApprovalStatus.pending)
    × (approving.approvals ≡ decided ApprovalStatus.approved "A1" single)
    × IsDecided ApprovalStatus.approved "A1"
        (approval "A1" "ann" ApprovalStatus.pending)
        single
        approving
    × (status_at "V1" approving.versions ≡ some VersionStatus.approved)
unfolding Table.find Table.modify Approval.check_all_approved
approve-last_example =
    approve-last sample "A1" single approving (approval "A1" "ann" ApprovalStatus.pending) refl refl
      approves

can_transition-iff-next_state_example :
    (can_transition VersionStatus.approved VersionStatus.superseded ≡ true)
    ↔ ((a : Action) × (next_state VersionStatus.approved a ≡ some VersionStatus.superseded))
can_transition-iff-next_state_example =
    can_transition-iff-next_state VersionStatus.approved VersionStatus.superseded

check_all_approved-status_example :
    (approval "A1" "ann" ApprovalStatus.approved).status ≡ ApprovalStatus.approved
unfolding Table.find Approval.check_all_approved
check_all_approved-status_example =
    check_all_approved-status "V1" "A1" (approval "A1" "ann" ApprovalStatus.approved ∷ [])
      (approval "A1" "ann" ApprovalStatus.approved) refl refl refl
