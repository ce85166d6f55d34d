-- ===== src/Tests/Portal.antt =====
-- The theorems on the portal, at the portal user of a counterparty with one contract.
use contract_management.Prelude.{◌≡◌, ◌↔◌, ◌⊎◌, refl, true, false, String, some, [], ◌∷◌, string_eq}
use contract_management.Prelude.Order.{In, Ordered}
use contract_management.Prelude.Table
use contract_management.Failure.{Error, ok, err}
use contract_management.Exec.{◌>>=◌, returned, raised, state_of}
use contract_management.Workflow.{ApprovalStatus, VersionStatus, SignatureRequestStatus}
use contract_management.Distinct.{check_distinct}
use contract_management.Prelude.Lists
use contract_management.Doctype.Contract
use contract_management.Doctype.ContractVersion
use contract_management.Service.Approval as Approvals
use contract_management.Service.Notification
use contract_management.Workflow.{can_transition}
use contract_management.Site.{
  Approval, ContractVersion as Version, FileDoc, SignatureRequest, Site, find_approval,
}
use contract_management.Platform.{Platform}
use contract_management.Portal.{Member, require_counterparty, member_of}
use contract_management.Portal.Dashboard.{Row, Dashboard, row_order, get_dashboard}
use contract_management.Portal.Listing.{IsListed, get_dashboard-Listed}
use contract_management.Portal.Download.{Download, download_document}
use contract_management.Portal.Access.{IsPortalUser, IsOwned, IsDownload, download_document-Owned}
use contract_management.Prelude.Text
use contract_management.Prelude.Lists.{filter}
use contract_management.Portal.Timeline.{timeline}
use contract_management.Portal.Detail.{Detail, SignatureInfo, current_version_of}
use contract_management.Portal.GetDetail.{answer, request_of, get_contract_detail}
use contract_management.Portal.Flags.{
  AwaitsMember, get_contract_detail-CanSign, get_contract_detail-Exposes,
  get_contract_detail-CanReview,
}
use contract_management.Portal.Review.{
  approval_to_review, apply_decision, decide_review, review_contract,
}
use contract_management.Portal.Atomic.{SameTables, review_contract-Atomic}
use contract_management.Tests.Sample.{sample, acme, version, approval, signature_request, site_with}

abbrev under_review : Site
under_review =
    site_with VersionStatus.under_review (approval "A1" "ann" ApprovalStatus.pending ∷ [])
      SignatureRequestStatus.draft

ann_may_enter : require_counterparty sample under_review ≡ ok (member_of acme)
unfolding require_counterparty
ann_may_enter = refl

get_dashboard-Listed_example :
    (d : Dashboard) × (get_dashboard sample under_review ≡ ok d)
    × (d.counterparty ≡ member_of acme)
    × ((row : Row)
        → In row d.contracts
          ↔ IsListed sample (member_of acme) under_review.contracts under_review.versions row)
    × Ordered row_order d.contracts
get_dashboard-Listed_example =
    get_dashboard-Listed sample under_review (member_of acme) ann_may_enter

-- The signed file of an executed version.
abbrev signed_file : FileDoc
signed_file = record {
  file_url = "/private/files/signed.pdf";
  file_name = "signed.pdf";
  attached_to_doctype = "Contract Version";
  attached_to_name = "V1";
  attached_to_field = "executed_document";
  is_private = true;
  content = "%PDF-signed";
}

abbrev executed_site : Site
executed_site = record (site_with VersionStatus.executed [] SignatureRequestStatus.completed) {
  versions =
      record (version VersionStatus.executed) { executed_document = "/private/files/signed.pdf" }
      ∷ [];
  files = signed_file ∷ [];
}

abbrev signed_download : Download
signed_download = record {
  filename = "V1-signed.pdf";
  display_content_as = "attachment";
  content = "%PDF-signed";
}

downloads : download_document sample "V1" "executed" executed_site ≡ ok signed_download
unfolding download_document Table.find
downloads = refl

download_document-Owned_example :
    (member : Member) × (v : Version) × IsPortalUser executed_site member
    × IsOwned executed_site member "V1" v
    × IsDownload executed_site v true signed_download
download_document-Owned_example =
    download_document-Owned sample executed_site "V1" "executed" signed_download downloads

-- A review that returns, and one that raises.
abbrev approve_action : String
approve_action = "approve"

abbrev approving : Site
approving = state_of (review_contract sample [] "C1" "approve" " fine " under_review)

-- The save of the version is refused when the decision and the collaborator are already written.
abbrev strict : Platform
strict = record sample {
  check_version = λ user ignore before v. some (Error.external "Not permitted");
}

abbrev denied : Site
denied = state_of (review_contract strict [] "C1" "approve" " fine " under_review)

refused :
    review_contract strict [] "C1" "approve" " fine " under_review
    ≡ raised (Error.external "Not permitted") denied
unfolding review_contract get_contract_detail timeline answer ◌>>=◌ Table.find Table.put
    Table.modify Approvals.approve Approvals.approve_version Approvals.update_collaborator_status
    Approvals.check_all_approved Approvals.review_first can_transition Lists.any Lists.filter
    Contract.save Contract.validate Contract.normalize_fields Contract.validate_required_fields
    Contract.validate_dates Contract.validate_unique_collaborators check_distinct
    ContractVersion.save ContractVersion.accept ContractVersion.validate
    ContractVersion.normalize_fields ContractVersion.validate_required_fields
    ContractVersion.validate_unique_version_number ContractVersion.validate_status_consistency
    ContractVersion.validate_current_version_exists Notification.notify_safely
    Notification.notify_about Text.strip
refused = refl

-- What the decision had written before the raise, without the rollback.
written :
    find_approval "A1" (state_of (apply_decision strict "approve" "A1" under_review)).approvals
    ≡ some
        (record (approval "A1" "ann" ApprovalStatus.approved) { approval_date = under_review.now })
unfolding apply_decision get_contract_detail timeline answer ◌>>=◌ Table.find Table.put Table.modify
    Approvals.approve Approvals.approve_version Approvals.update_collaborator_status
    Approvals.check_all_approved Approvals.review_first can_transition Lists.any Lists.filter
    Contract.save Contract.validate Contract.normalize_fields Contract.validate_required_fields
    Contract.validate_dates Contract.validate_unique_collaborators check_distinct
    ContractVersion.save ContractVersion.accept ContractVersion.validate
    ContractVersion.normalize_fields ContractVersion.validate_required_fields
    ContractVersion.validate_unique_version_number ContractVersion.validate_status_consistency
    ContractVersion.validate_current_version_exists Notification.notify_safely
    Notification.notify_about Text.strip
written = refl

review_contract-Atomic_example :
    (denied.user ≡ under_review.user)
    × (SameTables under_review denied
        ⊎ ((a : Approval) × (decide_review strict "approve" a " fine " under_review
              ≡ returned tt denied)
            × (get_contract_detail strict [] "C1" denied ≡ err (Error.external "Not permitted"))))
review_contract-Atomic_example =
    review_contract-Atomic strict [] "C1" "approve" " fine " under_review
      (Error.external "Not permitted") denied refused

-- The page of a contract that waits for the signature of its counterparty.
abbrev to_sign : Site
to_sign = record (site_with VersionStatus.signature_requested [] SignatureRequestStatus.sent) {
  requests =
      record (signature_request SignatureRequestStatus.sent) { signing_url = "https://sign/ann" }
      ∷ [];
}

signing_page :
    (d : Detail) × (get_contract_detail sample [] "C1" to_sign ≡ ok d) × (d.can_sign ≡ true)
unfolding get_contract_detail Table.find timeline answer Text.lower Text.strip
signing_page = (_, refl, refl)

get_contract_detail-CanSign_example :
    (member : Member) × (v : Version) × (r : SignatureRequest) × (require_counterparty sample
        to_sign
      ≡ ok member)
    × (current_version_of sample "C1" to_sign.versions ≡ some v)
    × (v.status ≡ VersionStatus.signature_requested)
    × (request_of to_sign (some v) ≡ some r)
    × (signing_page.0.signing_url ≡ r.signing_url)
    × AwaitsMember member r
get_contract_detail-CanSign_example =
    get_contract_detail-CanSign sample [] "C1" to_sign signing_page.0 signing_page.1 signing_page.2

-- The same, with the URL of another recipient of a request that is only a draft.
abbrev bobs_request : SignatureRequest
bobs_request = record (signature_request SignatureRequestStatus.draft) {
  signing_url = "https://sign/bob";
}

abbrev not_to_sign : Site
not_to_sign = record to_sign { requests = bobs_request ∷ [] }

other_page :
    (d : Detail) × (get_contract_detail sample [] "C1" not_to_sign ≡ ok d) × (d.can_sign ≡ false)
unfolding get_contract_detail Table.find timeline answer Text.lower Text.strip
other_page = (_, refl, refl)

current :
    current_version_of sample "C1" not_to_sign.versions
    ≡ some (version VersionStatus.signature_requested)
unfolding current_version_of
current = refl

latest :
    request_of not_to_sign (some (version VersionStatus.signature_requested)) ≡ some bobs_request
unfolding request_of
latest = refl

get_contract_detail-Exposes_example :
    (s : SignatureInfo) × (other_page.0.signature ≡ some s) × (s.signing_url ≡ "https://sign/bob")
get_contract_detail-Exposes_example =
    get_contract_detail-Exposes sample [] "C1" not_to_sign other_page.0
      (version VersionStatus.signature_requested) bobs_request other_page.1 current latest

review_page :
    (d : Detail) × (get_contract_detail sample [] "C1" under_review ≡ ok d) × (d.can_review ≡ true)
unfolding get_contract_detail Table.find timeline answer
review_page = (_, refl, refl)

get_contract_detail-CanReview_example :
    (a : Approval) × (approval_to_review sample "C1" "reject" under_review
      ≡ returned a under_review)
    × (VersionStatus.under_review ≡ VersionStatus.under_review)
    × (a.contract_version ≡ "V1")
    × (a.approver ≡ "ann")
    × (a.status ≡ ApprovalStatus.pending)
unfolding filter
get_contract_detail-CanReview_example =
    get_contract_detail-CanReview sample [] "C1" "reject" under_review review_page.0
      (version VersionStatus.under_review) review_page.1 review_page.2 refl refl
