-- ===== src/Tests/Sample.antt =====
-- A site, and a Platform whose engine follows the installed workflow.
use Prim.Native.String.{◌++◌}
use contract_management.Prelude.{◌≡◌, inl, true, String, Option, none, some, List, [], ◌∷◌}
use contract_management.Prelude.Int.{pos}
use contract_management.Prelude.Order.{In}
use contract_management.Failure.{external, Result, ok, err}
use contract_management.Workflow.{
  VersionStatus, ApprovalStatus, SignatureRequestStatus, SignatureRecipientStatus,
}
use contract_management.Workflow.Fixture.{next_state}
use contract_management.Site.{
  Counterparty, Contract, ContractVersion, Approval, SignatureRequest, SignatureRecipient, Site,
  in_review,
}
use contract_management.Platform.{
  Platform, OneRow, Body, FollowsFixture, NamesAreFresh, pages, text,
}
use contract_management.Tests.Names.{join, join-fresh}

abbrev pub take_action : Option VersionStatus → Result VersionStatus
take_action none = err (external "WorkflowTransitionError")
take_action (some t) = ok t

abbrev pub head : {A : Type 0} → List A → Option A
head [] = none
head (a ∷ rows) = some a

pub head_of : {A : Type 0} (rows : List A) (a : A) → head rows ≡ some a → In a rows
head_of [] a e = cc
head_of (b ∷ rows) a e = inl (cc)

abbrev pub first_row : {A : Type 0} → OneRow A
first_row = record { one = head; one_of = head_of; one_nonempty = λ a rows e. cc }

abbrev pub sample : Platform
sample = record {
  workflow = λ user ignore s a. take_action (next_state s a);
  check_contract = λ user ignore before c. none;
  check_version = λ user ignore before v. none;
  check_approval = λ user ignore before a. none;
  check_request = λ user ignore before r. none;
  new_name = join;
  get_user = λ name. ok (record { email = name; full_name = name });
  get_file = λ url. ok "%PDF";
  save_file = λ files name content. ok ("/private/files/" ++ name);
  read_pdf = λ content. pages ("{{signature,r1}}" ∷ []);
  local_time = λ t. ok t;
  enqueue = λ n. none;
  create_document = λ calls payload pdf. ok (record { id = some "E1" });
  distribute_document = λ calls id. ok (
      record {
        email = text "ann@example.com";
        recipient_id = some "7";
        id = none;
        signing_url = text "https://sign/ann";
      }
      ∷ []);
  one_counterparty = first_row;
  one_version = first_row;
  one_approval = first_row;
  one_file = first_row;
  creation = λ doctype name. "2026-01-01";
  modified = λ doctype name. "2026-01-02";
  owner = λ doctype name. "ann";
  full_name = λ user. none;
  webhook_secret = ok "s3cret";
  parse_body = λ body. Body.not_json;
  get_envelope = λ calls id. ok (record { status = "COMPLETED"; items = "item1" ∷ [] });
  download_envelope_item = λ calls id. ok "%PDF-signed";
}

taken : (o : Option VersionStatus) (t : VersionStatus) → take_action o ≡ ok t → o ≡ some t
taken none t h = cc
taken (some s) t h = cc

pub sample-FollowsFixture : FollowsFixture sample
sample-FollowsFixture = record { along = λ user ignore s a t h. taken (next_state s a) t h }

pub sample-NamesAreFresh : NamesAreFresh sample
sample-NamesAreFresh = record { fresh = join-fresh }

abbrev pub acme : Counterparty
acme = record {
  name = "CP1";
  counterparty_type = "Company";
  counterparty_name = "ACME";
  contact_person = "Ann";
  email = "ann@example.com";
  address = "";
  portal_user = "ann";
  portal_enabled = true;
}

abbrev pub lease : Contract
lease = record {
  name = "C1";
  contract_title = "Lease";
  counterparty = "CP1";
  status = "Draft";
  effective_date = some 10;
  expiration_date = some 20;
  docstatus = 1;
  collaborators =
      record { user = "ann"; role = "Legal"; review_status = in_review }
      ∷ record { user = "bob"; role = "Finance"; review_status = in_review }
      ∷ [];
}

abbrev pub version : VersionStatus → ContractVersion
version status = record {
  name = "V1";
  contract = "C1";
  version_number = some (pos 1);
  is_current = true;
  document = "/private/files/lease.pdf";
  executed_document = "";
  status = status;
  notes = "";
}

abbrev pub approval : String → String → ApprovalStatus → Approval
approval name user status = record {
  name = name;
  contract = "C1";
  contract_version = "V1";
  approver = user;
  status = status;
  approval_date = "";
  remarks = "";
}

abbrev pub recipient : SignatureRecipient
recipient = record {
  signer = "ann";
  email = some "ann@example.com";
  signing_order = some (pos 1);
  status = SignatureRecipientStatus.pending;
  signed_on = "";
  documenso_recipient_id = "7";
}

abbrev pub signature_request : SignatureRequestStatus → SignatureRequest
signature_request status = record {
  name = "R1";
  contract_version = "V1";
  status = status;
  requested_by = "ann";
  requested_on = "2026-01-01";
  completed_on = "";
  envelope_id = "E1";
  signing_url = "";
  signature_recipients = recipient ∷ [];
}

abbrev pub site_with : VersionStatus → List Approval → SignatureRequestStatus → Site
site_with status approvals request_status = record {
  counterparties = acme ∷ [];
  contracts = lease ∷ [];
  versions = version status ∷ [];
  approvals = approvals;
  requests = signature_request request_status ∷ [];
  files = [];
  user = "ann";
  now = "2026-01-02";
  notifications = [];
  logged = [];
  calls = [];
}
