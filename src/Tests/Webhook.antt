-- ===== src/Tests/Webhook.antt =====
-- The theorems on the webhook, at a delivery that brings the secret.
use contract_management.Prelude.{◌≡◌, ◌↔◌, ◌⊎◌, refl, some, [], ◌∷◌, string_eq}
use contract_management.Failure.{ok}
use contract_management.Exec.{◌>>=◌, returned, state_of}
use contract_management.Platform.{Platform, DocumentPayload, webhook, document}
use contract_management.Prelude.Text.{strip}
use contract_management.Site.{Site}
use contract_management.Workflow.{VersionStatus, SignatureRequestStatus}
use contract_management.Service.Signature.Webhook.{
  process_document_completed, mark_webhook_recipients,
}
use contract_management.Webhook.Auth.{Headers, extract_secret, verify}
use contract_management.Webhook.Secret.{KnowsSecret, verify-accepts_iff}
use contract_management.Webhook.Endpoint.{received, acknowledged, handle_webhook}
use contract_management.Webhook.Trust.{Delivers, handle_webhook-Trusted, handle_webhook-idempotent}
use contract_management.Distinct
use contract_management.Prelude.Text
use contract_management.Prelude.Sort
use contract_management.Prelude.Table
use contract_management.Workflow
use contract_management.Workflow.Fixture
use contract_management.Doctype.ContractVersion
use contract_management.Doctype.SignatureRequest
use contract_management.Service.Notification
use contract_management.Service.Workflow as System
use contract_management.Service.Signature.Complete
use contract_management.Service.Signature.Executed
use contract_management.Tests.Sample.{sample, site_with}

abbrev signed : DocumentPayload
signed = record {
  external_id = "R1";
  status = "COMPLETED";
  recipients = record { id = some "7"; signing_status = "SIGNED"; signed_at = "2026-01-02" } ∷ [];
}

-- What `json.loads` makes of the one body of these deliveries.
abbrev hooked : Platform
hooked = record sample {
  parse_body = λ raw. webhook (some " DOCUMENT_COMPLETED") (document signed);
}

abbrev headers : Headers
headers = ("Host", "site") ∷ ("x-documenso-SECRET", "s3cret") ∷ []

abbrev awaiting : Site
awaiting = site_with VersionStatus.signature_requested [] SignatureRequestStatus.pending

verify-accepts_iff_example :
    (verify hooked headers ≡ ok tt) ↔ KnowsSecret hooked (extract_secret headers)
verify-accepts_iff_example = verify-accepts_iff hooked headers

handle_webhook-Trusted_example :
    (state_of (handle_webhook hooked "{}" headers awaiting) ≡ awaiting)
    ⊎ ((d : DocumentPayload) × Delivers hooked "{}" headers d
        × (handle_webhook hooked "{}" headers awaiting
            ≡ acknowledged (process_document_completed hooked d) awaiting))
handle_webhook-Trusted_example = handle_webhook-Trusted hooked "{}" headers awaiting

abbrev after : Site
after = state_of (handle_webhook hooked "{}" headers awaiting)

handled : handle_webhook hooked "{}" headers awaiting ≡ returned received after
unfolding handle_webhook process_document_completed ◌>>=◌ Table.find Table.put Table.modify
    mark_webhook_recipients Complete.apply_completion_transitions Complete.execute_version
    Executed.store_executed_document Executed.download_signed Executed.set_executed_document
    Executed.add_file System.apply_system_action Fixture.next_state Workflow.can_transition
    ContractVersion.save ContractVersion.accept ContractVersion.validate
    ContractVersion.normalize_fields ContractVersion.validate_required_fields
    ContractVersion.validate_unique_version_number ContractVersion.validate_status_consistency
    ContractVersion.validate_current_version_exists SignatureRequest.save SignatureRequest.accept
    SignatureRequest.validate SignatureRequest.normalize_fields
    SignatureRequest.validate_required_fields SignatureRequest.set_requested_on
    SignatureRequest.set_completed_on SignatureRequest.validate_duplicate_active_request
    SignatureRequest.validate_unique_signer_emails SignatureRequest.validate_unique_signing_order
    SignatureRequest.validate_signing_order_sequence SignatureRequest.update_recipient_signed_on
    Distinct.check_distinct Sort.sorted Sort.range Text.strip Text.lower Text.has_prefix
    Notification.get_version
handled = refl

handle_webhook-idempotent_example :
    handle_webhook hooked "{}" headers after ≡ returned received after
handle_webhook-idempotent_example =
    handle_webhook-idempotent hooked "{}" headers awaiting after received handled
