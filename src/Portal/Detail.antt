-- ===== src/Portal/Detail.antt =====
-- portal_api.py: `get_contract_detail`. The rows of a table stand in the order of their creation.
use contract_management.Prelude.{
  ℕ, Bool, true, false, ◌&&◌, String, Option, none, some, List, map, ◌==◌, string_eq, if◌then◌else◌,
}
use contract_management.Prelude.Int.{ℤ, leb_ℤ}
use contract_management.Prelude.Lists.{filter, first, last, contains}
use contract_management.Prelude.Order.{sort_by}
use contract_management.Prelude.Text.{truthy, strip, lower}
use contract_management.Workflow.{
  ApprovalStatus, VersionStatus, SignatureRequestStatus, SignatureRecipientStatus,
  approval_status_eq, version_status_eq, recipient_status_eq,
}
use contract_management.Site.{ContractVersion, Approval, SignatureRequest, SignatureRecipient}
use contract_management.Platform.{Platform}
use contract_management.Portal.{Member}
use contract_management.Portal.Timeline.{Names, Event, user_full_name}
use contract_management.Prelude.Timestamps.{not_before}

-- The current version as it leaves the API: "executed_document" is popped.
pub record VersionInfo : Type 0 where
  pub name : String
  pub version_number : Option ℤ
  pub status : VersionStatus
  pub document : String
  pub creation : String

pub record ApprovalInfo : Type 0 where
  pub name : String
  pub approver : String
  pub approver_name : String
  pub status : ApprovalStatus
  pub remarks : String
  pub approval_date : String

pub record RecipientInfo : Type 0 where
  pub signer : String
  pub email : Option String
  pub status : SignatureRecipientStatus
  pub signed_on : String

pub record SignatureInfo : Type 0 where
  pub name : String
  pub status : SignatureRequestStatus
  pub requested_on : String
  pub completed_on : String
  pub requested_by : String
  pub signing_url : String
  pub recipients : List RecipientInfo

-- The keys "contract" and "counterparty" of the answer are the fields down to `contact_person`.
pub record Detail : Type 0 where
  pub contract_name : String
  pub contract_title : String
  pub contract_status : String
  pub effective_date : Option ℕ
  pub expiration_date : Option ℕ
  pub creation : String
  pub counterparty : Member
  pub counterparty_type : String
  pub contact_person : String
  pub current_version : Option VersionInfo
  pub approval : Option ApprovalInfo
  pub signature : Option SignatureInfo
  pub events : List Event
  pub last_activity : String
  pub can_review : Bool
  pub can_sign : Bool
  pub signing_url : String
  pub review_state : String
  pub executed_available : Bool

-- a.version_number <= b.version_number; NULL stands first.
abbrev pub number_order : ContractVersion → ContractVersion → Bool
number_order a b = elim a.version_number [
  | none ↦ true
  | some m ↦ elim b.version_number [ none ↦ false | some n ↦ leb_ℤ m n ]
]

-- The versions of a contract, in the order of their numbers.
unfoldable pub versions_of : String → List ContractVersion → List ContractVersion
unfolding filter sort_by
versions_of contract rows = sort_by number_order (filter (λ v. v.contract == contract) rows)

abbrev pub or_else : Option ContractVersion → Option ContractVersion → Option ContractVersion
or_else (some v) other = some v
or_else none other = other

abbrev pub is_current_of : String → ContractVersion → Bool
is_current_of contract v = (v.contract == contract) && v.is_current

-- The version that is marked current, or else the one with the highest number.
unfoldable pub current_version_of :
    Platform → String → List ContractVersion → Option ContractVersion
unfolding filter versions_of
current_version_of p contract rows =
    or_else (p.one_version.one (filter (is_current_of contract) rows))
      (last (versions_of contract rows))

abbrev pub requested_order : SignatureRequest → SignatureRequest → Bool
requested_order a b = not_before b.requested_on a.requested_on

-- The signature requests of some versions, in the order of "requested_on".
unfoldable pub requests_for : List ContractVersion → List SignatureRequest → List SignatureRequest
unfolding filter sort_by contains
requests_for versions rows =
    sort_by requested_order
      (filter (λ r. contains (map (λ v. v.name) versions) r.contract_version) rows)

-- The first row in the order "requested_on desc".
unfoldable pub latest_request : String → List SignatureRequest → Option SignatureRequest
unfolding filter sort_by first
latest_request version rows =
    first (λ _. true)
      (sort_by (λ a b. not_before a.requested_on b.requested_on)
        (filter (λ r. r.contract_version == version) rows))

-- The first row in the order "creation desc".
unfoldable pub latest_approval : String → List Approval → Option Approval
unfolding filter
latest_approval version rows = last (filter (λ a. a.contract_version == version) rows)

abbrev pub version_info : Platform → ContractVersion → VersionInfo
version_info p v = record {
  name = v.name;
  version_number = v.version_number;
  status = v.status;
  document = v.document;
  creation = p.creation "Contract Version" v.name;
}

unfoldable pub approval_info : Platform → Names → Approval → ApprovalInfo
unfolding user_full_name
approval_info p names a = record {
  name = a.name;
  approver = a.approver;
  approver_name = user_full_name p names a.approver;
  status = a.status;
  remarks = a.remarks;
  approval_date = a.approval_date;
}

abbrev pub recipient_info : SignatureRecipient → RecipientInfo
recipient_info s = record {
  signer = s.signer;
  email = s.email;
  status = s.status;
  signed_on = s.signed_on;
}

abbrev pub signature_info : SignatureRequest → SignatureInfo
signature_info r = record {
  name = r.name;
  status = r.status;
  requested_on = r.requested_on;
  completed_on = r.completed_on;
  requested_by = r.requested_by;
  signing_url = r.signing_url;
  recipients = map recipient_info r.signature_recipients;
}

-- latest_signature["status"] in {"Pending", "Sent", "Viewed"}
unfoldable pub awaits_signature : SignatureRequestStatus → Bool
awaits_signature SignatureRequestStatus.pending = true
awaits_signature SignatureRequestStatus.sent = true
awaits_signature SignatureRequestStatus.viewed = true
awaits_signature _ = false

-- r.get("email") or ""
abbrev pub address_of : SignatureRecipient → String
address_of s = elim s.email [ none ↦ "" | some email ↦ email ]

-- The first recipient with the address of the counterparty.
unfoldable pub matched_recipient : String → List SignatureRecipient → Option SignatureRecipient
unfolding first
matched_recipient email = first (λ s. lower (strip (address_of s)) == lower (strip email))

abbrev pub is_pending_recipient : Option SignatureRecipient → Bool
is_pending_recipient none = false
is_pending_recipient (some s) = s.status == SignatureRecipientStatus.pending

-- `signing_url` of the answer, once the version is known to wait for signatures.
unfoldable pub url_shown : Member → Option SignatureRequest → String
unfolding awaits_signature matched_recipient
url_shown member none = ""
url_shown member (some r) =
    if awaits_signature r.status
      && (truthy r.signing_url
          && is_pending_recipient (matched_recipient member.email r.signature_recipients))
    then r.signing_url
    else ""

-- The status of the session user's approval of the version.
unfoldable pub own_approval : Platform → String → String → List Approval → Option Approval
unfolding filter
own_approval p user version rows =
    p.one_approval.one (filter (λ a. (a.contract_version == version) && (a.approver == user)) rows)

abbrev pub has_status : ApprovalStatus → Option Approval → Bool
has_status status none = false
has_status status (some a) = a.status == status

unfoldable pub review_state_of : Option Approval → String
review_state_of none = ""
review_state_of (some a) = elim a.status [
  | ApprovalStatus.pending ↦ "pending"
  | ApprovalStatus.approved ↦ "approved"
  | ApprovalStatus.rejected ↦ "rejected"
  | _ ↦ ""
]
