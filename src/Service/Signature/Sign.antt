-- ===== src/Service/Signature/Sign.antt =====
-- services/signature.py: `mark_recipient_signed` and its helpers.
use contract_management.Prelude.{Bool, false, String, List, [], ◌∷◌, if◌then◌else◌, ◌==◌, string_eq}
use contract_management.Prelude.Lists.{first, all}
use contract_management.Prelude.Text.{truthy}
use contract_management.Failure.{Result, ok, err, not_a_recipient}
use contract_management.Exec.{pure, gets, lift, or_raise, ◌>>=◌, ◌>>◌}
use contract_management.Workflow.{
  SignatureRecipientStatus, version_status_eq, request_status_eq, recipient_status_eq,
}
use contract_management.Site.{SignatureRequest, SignatureRecipient, M}
use contract_management.Platform.{Platform}
use contract_management.Doctype.SignatureRequest
use contract_management.Service.Signature.Checks.{
  validate_signature_request_for_signing, validate_signature_recipient,
}
use contract_management.Service.Signature.Create.{get_request}
use contract_management.Service.Signature.Complete.{complete_signature_request}

-- `_mark_signature_recipient_signed`
unfoldable pub mark_signature_recipient_signed :
    Platform → String → String → SignatureRecipient → Result SignatureRecipient
mark_signature_recipient_signed p now signed_on s =
    if truthy signed_on
    then elim (p.local_time signed_on) [
      | ok local ↦ ok (record s { status = SignatureRecipientStatus.signed; signed_on = local })
      | err e ↦ err e
    ]
    else ok (record s { status = SignatureRecipientStatus.signed; signed_on = now })

-- The first row that passes the test is marked; a list without one is left alone.
unfoldable pub mark_first :
    (SignatureRecipient → Bool)
    → (SignatureRecipient → Result SignatureRecipient)
    → List SignatureRecipient
    → Result (List SignatureRecipient)
mark_first test mark [] = ok []
mark_first test mark (s ∷ rows) =
    let others = mark_first test mark rows in
    if test s
    then elim (mark s) [ ok s' ↦ ok (s' ∷ rows) | err e ↦ err e ]
    else elim others [ ok rest ↦ ok (s ∷ rest) | err e ↦ err e ]

-- `_all_recipients_signed`
unfoldable pub all_recipients_signed : List SignatureRecipient → Bool
unfolding all
all_recipients_signed = all (λ s. s.status == SignatureRecipientStatus.signed)

-- `mark_recipient_signed`
unfoldable pub mark_recipient_signed : Platform → String → String → M SignatureRequest
unfolding get_request first mark_first mark_signature_recipient_signed
mark_recipient_signed p signature_request_name signer = do
  request ← get_request signature_request_name
  lift (validate_signature_request_for_signing request)
  recipient ←
      or_raise (first (λ s. s.signer == signer) request.signature_recipients) not_a_recipient
  lift (validate_signature_recipient recipient)
  now ← gets (λ s. s.now)
  rows ← lift (
      mark_first (λ s. s.signer == signer) (mark_signature_recipient_signed p now "")
        request.signature_recipients)
  saved ← SignatureRequest.save p false (record request { signature_recipients = rows })
  (if all_recipients_signed saved.signature_recipients
      then complete_signature_request p saved
      else pure saved)
