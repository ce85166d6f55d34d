-- ===== src/Site.antt =====
-- The documents of the program's doctypes, as their JSON schemas and controllers name the fields,
-- and the state of a site: a table for each doctype, the session, and what has been sent out.
-- An empty field and a field that holds None are both the empty text.
use contract_management.Prelude.{ℕ, String, Bool, Option, List}
use contract_management.Prelude.Int.{ℤ}
use contract_management.Prelude.Table
use contract_management.Exec.{Exec}
use contract_management.Workflow.{
  ApprovalStatus, VersionStatus, SignatureRequestStatus, SignatureRecipientStatus,
}

-- Collaborator.review_status: "In Review", or what an approval sets it to.
pub data ReviewStatus : Type 0 where
  in_review : ReviewStatus
  decision : ApprovalStatus → ReviewStatus

pub record Collaborator : Type 0 where
  pub user : String
  pub role : String
  pub review_status : ReviewStatus

-- Dates are day numbers.
pub record Contract : Type 0 where
  pub name : String
  pub contract_title : String
  pub counterparty : String
  pub status : String
  pub effective_date : Option ℕ
  pub expiration_date : Option ℕ
  pub docstatus : ℕ
  pub collaborators : List Collaborator

-- `portal_enabled` is a check box.
pub record Counterparty : Type 0 where
  pub name : String
  pub counterparty_type : String
  pub counterparty_name : String
  pub contact_person : String
  pub email : String
  pub address : String
  pub portal_user : String
  pub portal_enabled : Bool

pub record ContractVersion : Type 0 where
  pub name : String
  pub contract : String
  pub version_number : Option ℤ
  pub is_current : Bool
  pub document : String
  pub executed_document : String
  pub status : VersionStatus
  pub notes : String

pub record Approval : Type 0 where
  pub name : String
  pub contract : String
  pub contract_version : String
  pub approver : String
  pub status : ApprovalStatus
  pub approval_date : String
  pub remarks : String

-- An address that is None makes the controller raise, so `email` tells it from the empty text.
pub record SignatureRecipient : Type 0 where
  pub signer : String
  pub email : Option String
  pub signing_order : Option ℤ
  pub status : SignatureRecipientStatus
  pub signed_on : String
  pub documenso_recipient_id : String

pub record SignatureRequest : Type 0 where
  pub name : String
  pub contract_version : String
  pub status : SignatureRequestStatus
  pub requested_by : String
  pub requested_on : String
  pub completed_on : String
  pub envelope_id : String
  pub signing_url : String
  pub signature_recipients : List SignatureRecipient

-- A row of Frappe's own doctype File.
pub record FileDoc : Type 0 where
  pub file_url : String
  pub file_name : String
  pub attached_to_doctype : String
  pub attached_to_name : String
  pub attached_to_field : String
  pub is_private : Bool
  pub content : String

-- The document that `enqueue_create_notification` is given, with the users that it goes to.
pub record Notification : Type 0 where
  pub recipients : List String
  pub document_type : String
  pub document_name : String
  pub subject : String
  pub from_user : String

-- What `_build_documenso_payload` builds.
pub record PayloadRecipient : Type 0 where
  pub name : String
  pub email : Option String
  pub signing_order : Option ℤ

pub record Payload : Type 0 where
  pub title : String
  pub external_id : String
  pub recipients : List PayloadRecipient

-- The requests that the program makes of Documenso.
pub data Call : Type 0 where
  create_document : Payload → String → Call
  distribute_document : String → Call
  get_envelope : String → Call
  download_envelope_item : String → String → Call

pub record Site : Type 0 where
  pub counterparties : List Counterparty
  pub contracts : List Contract
  pub versions : List ContractVersion
  pub approvals : List Approval
  pub requests : List SignatureRequest
  pub files : List FileDoc
  -- frappe.session.user
  pub user : String
  -- now_datetime() during the request that is being served
  pub now : String
  -- the notifications enqueued, the events logged as failed, the calls of Documenso made so far
  pub notifications : List Notification
  pub logged : List String
  pub calls : List Call

abbrev pub M {ℓ} : Type ℓ → Type ℓ
M A = Exec Site A

abbrev pub find_counterparty : String → List Counterparty → Option Counterparty
find_counterparty = Table.find (λ c. c.name)

abbrev pub find_contract : String → List Contract → Option Contract
find_contract = Table.find (λ c. c.name)

abbrev pub find_version : String → List ContractVersion → Option ContractVersion
find_version = Table.find (λ v. v.name)

abbrev pub find_approval : String → List Approval → Option Approval
find_approval = Table.find (λ a. a.name)

abbrev pub find_request : String → List SignatureRequest → Option SignatureRequest
find_request = Table.find (λ r. r.name)
