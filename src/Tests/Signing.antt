-- ===== src/Tests/Signing.antt =====
-- The theorems of the signature service, at a request with one recipient.
use Prim.Native.String.{◌++◌}
use contract_management.Exec.{Outcome}
use contract_management.Prelude.Lists
use contract_management.Site.{Notification as Note}
use contract_management.Service.Notification.{signature_completed}
use contract_management.Service.Notification.Subject.{notify_signature-subject}
use contract_management.Prelude.{List, none, String, ◌⊎◌}
use contract_management.Prelude.Int.{pos}
use contract_management.Site.{SignatureRecipient, SignatureRequest}
use contract_management.Platform.{DistributedRecipient, text}
use contract_management.Service.Signature.Send
use contract_management.Service.Signature.Send.Ready.{Ready, send_signature_request-Ready}
use contract_management.Service.Signature.Send.SigningUrl.{apply_recipient_metadata-last}
use contract_management.Tests.Sample.{recipient, signature_request}
use contract_management.Prelude.{◌≡◌, refl, true, some, [], ◌∷◌}
use contract_management.Exec.{◌>>=◌, returned, state_of}
use contract_management.Workflow.{VersionStatus, SignatureRequestStatus}
use contract_management.Site.{Site, find_request}
use contract_management.Distinct
use contract_management.Prelude.Text
use contract_management.Prelude.Sort
use contract_management.Prelude.Table
use contract_management.Workflow
use contract_management.Workflow.Fixture
use contract_management.Doctype.ContractVersion
use contract_management.Doctype.SignatureRequest
use contract_management.Service.Notification
use contract_management.Service.Workflow as System
use contract_management.Service.Signature.Complete
use contract_management.Service.Signature.Executed
use contract_management.Service.Signature.Webhook.{
  mark_webhook_recipients, DocumentPayload, process_document_completed,
}
use contract_management.Service.Signature.Webhook.Idempotent.{
  any_settled, process_document_completed-settles, process_document_completed-idempotent,
}
use contract_management.Tests.Sample.{sample, site_with}

abbrev signed : DocumentPayload
signed = record {
  external_id = "R1";
  status = "COMPLETED";
  recipients = record { id = some "7"; signing_status = "SIGNED"; signed_at = "2026-01-02" } ∷ [];
}

abbrev awaiting : Site
awaiting = site_with VersionStatus.signature_requested [] SignatureRequestStatus.pending

abbrev after : Site
after = state_of (process_document_completed sample signed awaiting)

delivered : process_document_completed sample signed awaiting ≡ returned tt after
unfolding process_document_completed ◌>>=◌ Table.find Table.put Table.modify mark_webhook_recipients
    Complete.apply_completion_transitions Complete.execute_version Executed.store_executed_document
    Executed.download_signed Executed.set_executed_document Executed.add_file
    System.apply_system_action Fixture.next_state Workflow.can_transition ContractVersion.save
    ContractVersion.accept ContractVersion.validate ContractVersion.normalize_fields
    ContractVersion.validate_required_fields ContractVersion.validate_unique_version_number
    ContractVersion.validate_status_consistency ContractVersion.validate_current_version_exists
    SignatureRequest.save SignatureRequest.accept SignatureRequest.validate
    SignatureRequest.normalize_fields SignatureRequest.validate_required_fields
    SignatureRequest.set_requested_on SignatureRequest.set_completed_on
    SignatureRequest.validate_duplicate_active_request
    SignatureRequest.validate_unique_signer_emails SignatureRequest.validate_unique_signing_order
    SignatureRequest.validate_signing_order_sequence SignatureRequest.update_recipient_signed_on
    Distinct.check_distinct Sort.sorted Sort.range Text.strip Text.lower Text.has_prefix
    Notification.get_version
delivered = refl

process_document_completed-settles_example : any_settled (find_request "R1" after.requests) ≡ true
process_document_completed-settles_example =
    process_document_completed-settles sample signed awaiting after refl refl delivered

process_document_completed-idempotent_example :
    process_document_completed sample signed after ≡ returned tt after
process_document_completed-idempotent_example =
    process_document_completed-idempotent sample signed awaiting after delivered

abbrev drafted : Site
drafted = site_with VersionStatus.approved [] SignatureRequestStatus.draft

send_signature_request-Ready_example :
    (state_of (Send.send_signature_request sample "R1" drafted) ≡ drafted) ⊎ Ready "R1" drafted
send_signature_request-Ready_example = send_signature_request-Ready sample "R1" drafted

-- Two recipients with a URL each.
abbrev bob : SignatureRecipient
bob = record recipient {
  signer = "bob";
  email = some "bob@example.com";
  signing_order = some (pos 2);
}

abbrev link : String → String → DistributedRecipient
link email url = record {
  email = text email;
  recipient_id = some "8";
  id = none;
  signing_url = text url;
}

abbrev for_two : SignatureRequest
for_two = record (signature_request SignatureRequestStatus.draft) {
  signature_recipients = recipient ∷ bob ∷ [];
}

abbrev links : List DistributedRecipient
links = link "ann@example.com" "https://sign/ann" ∷ link "bob@example.com" "https://sign/bob" ∷ []

apply_recipient_metadata-last_example :
    (Send.apply_recipient_metadata for_two links).signing_url ≡ "https://sign/bob"
unfolding Send.with_email
apply_recipient_metadata-last_example =
    apply_recipient_metadata-last for_two links (recipient ∷ []) bob
      (link "bob@example.com" "https://sign/bob") "https://sign/bob" refl refl refl

abbrev notify_completed : Site → Outcome Site (Unit {0})
notify_completed =
    Notification.notify_signature sample signature_completed
      (signature_request SignatureRequestStatus.pending)

notified : notify_completed awaiting ≡ returned tt (state_of (notify_completed awaiting))
unfolding Notification.notify_signature Notification.resolve_contract ◌>>=◌ Table.find
    Notification.given_or_resolved Notification.distinct_users Lists.filter
    Notification.create_notification Notification.get_contract Notification.get_version
    Notification.get_recipients Notification.build_message
notified = refl

notify_signature-subject_example :
    (state_of (notify_completed awaiting) ≡ awaiting)
    ⊎ ((n : Note) × ((state_of (notify_completed awaiting)).notifications
          ≡ n ∷ awaiting.notifications)
        × (n.subject ≡ Notification.message_prefix signature_completed ++ "None"))
notify_signature-subject_example =
    notify_signature-subject sample signature_completed
      (signature_request SignatureRequestStatus.pending) awaiting
      (state_of (notify_completed awaiting)) refl notified
