-- ===== src/Service/Signature/Webhook.antt =====
-- services/signature.py: `process_document_completed`, the handler of the DOCUMENT_COMPLETED
-- webhook.
pub mod Idempotent
use contract_management.Prelude.{
  Bool, true, false, not, String, Option, none, some, List, [], ◌∷◌, if◌then◌else◌, ◌==◌, string_eq,
}
use contract_management.Prelude.Text.{truthy}
use contract_management.Failure.{Result, ok, err, key_error}
use contract_management.Exec.{gets, lift, skip, ◌>>=◌, ◌>>◌}
use contract_management.Workflow.{
  SignatureRequestStatus, version_status_eq, request_status_eq, recipient_status_eq,
}
use contract_management.Site.{SignatureRequest, SignatureRecipient, M, find_request}
use contract_management.Platform.{Platform}
pub use contract_management.Platform.{WebhookRecipient, DocumentPayload}
use contract_management.Service.Notification.{get_version}
use contract_management.Service.Signature.Complete.{apply_completion_transitions}
use contract_management.Service.Signature.Sign.{mark_first, mark_signature_recipient_signed}

-- One round of the loop over the recipients of the payload.
unfoldable pub mark_webhook_recipient :
    Platform
    → String
    → WebhookRecipient
    → List SignatureRecipient
    → Result (List SignatureRecipient)
unfolding mark_first mark_signature_recipient_signed
mark_webhook_recipient p now w rows =
    if w.signing_status == "SIGNED"
    then elim w.id [
      | none ↦ err key_error
      | some id ↦
          mark_first (λ s. s.documenso_recipient_id == id)
            (mark_signature_recipient_signed p now w.signed_at) rows
    ]
    else ok rows

-- Step 5 of `process_document_completed`.
unfoldable pub mark_webhook_recipients :
    Platform
    → String
    → List WebhookRecipient
    → List SignatureRecipient
    → Result (List SignatureRecipient)
unfolding mark_webhook_recipient
mark_webhook_recipients p now [] rows = ok rows
mark_webhook_recipients p now (w ∷ ws) rows = elim (mark_webhook_recipient p now w rows) [
  | ok rows' ↦ mark_webhook_recipients p now ws rows'
  | err e ↦ err e
]

-- A request in these states is left alone by the webhook.
unfoldable pub is_settled : SignatureRequestStatus → Bool
is_settled SignatureRequestStatus.completed = true
is_settled SignatureRequestStatus.cancelled = true
is_settled SignatureRequestStatus.expired = true
is_settled _ = false

-- Steps 3 to 6, for the row that step 2 found, if any.
unfoldable pub complete_found : Platform → DocumentPayload → Option SignatureRequest → M (Unit {0})
unfolding is_settled get_version
complete_found p payload none = skip
complete_found p payload (some request) = if is_settled request.status then skip else (do
  version ← get_version request.contract_version
  now ← gets (λ s. s.now)
  rows ← lift (mark_webhook_recipients p now payload.recipients request.signature_recipients)
  apply_completion_transitions p (record request { signature_recipients = rows }) version
  skip)

-- `process_document_completed`
unfoldable pub process_document_completed : Platform → DocumentPayload → M (Unit {0})
unfolding complete_found
process_document_completed p payload =
    if not (truthy payload.external_id)
    then skip
    else if not (payload.status == "COMPLETED")
    then skip
    else (do
      row ← gets (λ s. find_request payload.external_id s.requests)
      complete_found p payload row)
