-- ===== src/Service/Signature/Send.antt =====
-- services/signature.py: `send_signature_request` and its helpers.
pub mod Ready
pub mod SigningUrl
use contract_management.Prelude.{
  Bool, true, false, not, String, Option, none, some, List, [], ◌∷◌, map, if◌then◌else◌, ◌==◌,
  string_eq,
}
use contract_management.Prelude.Text.{truthy}
use contract_management.Failure.{Result, ok, err, key_error, no_document, cannot_request_signature}
use contract_management.Exec.{returned, raised, pure, lift, throw_if, ◌>>=◌, ◌>>◌}
use contract_management.Workflow.{VersionStatus, SignatureRequestStatus, can_transition}
use contract_management.Workflow.Fixture.{Action}
use contract_management.Site.{
  ContractVersion, SignatureRequest, SignatureRecipient, Payload, PayloadRecipient, Call,
  create_document, distribute_document, M,
}
use contract_management.Platform.{
  Platform, CreateResponse, JsonText, missing_key, null, text, DistributedRecipient,
}
use contract_management.Doctype.SignatureRequest
use contract_management.Service.Notification.{
  get_contract, get_version, notify_safely, notify_signature, signature_request_sent,
}
use contract_management.Service.Workflow.{apply_action}
use contract_management.Service.Signature.Checks.{
  validate_contract_version, validate_recipients, validate_pdf_placeholders,
  validate_signature_request,
}
use contract_management.Service.Signature.Create.{get_request}

unfoldable pub answer {ℓ} : {A : Type ℓ} → Result A → M A
answer (ok a) site = returned a site
answer (err e) site = raised e site

-- A call of Documenso, which answers or fails; that it was made stays on record.
unfoldable pub ask {ℓ} : {A : Type ℓ} → Call → (List Call → Result A) → M A
unfolding answer
ask c reply site = answer (reply site.calls) (record site { calls = c ∷ site.calls })

-- The recipients of the payload, with the full names of the signers.
unfoldable pub payload_recipients :
    Platform → List SignatureRecipient → Result (List PayloadRecipient)
payload_recipients p [] = ok []
payload_recipients p (s ∷ rows) = elim (p.get_user s.signer) [
  | err e ↦ err e
  | ok user ↦ elim (payload_recipients p rows) [
    | err e ↦ err e
    | ok rest ↦
        ok (
          record { name = user.full_name; email = s.email; signing_order = s.signing_order } ∷ rest)
  ]
]

-- `_build_documenso_payload`
unfoldable pub build_documenso_payload : Platform → SignatureRequest → ContractVersion → M Payload
unfolding get_contract payload_recipients
build_documenso_payload p request version = do
  contract ← get_contract version.contract
  recipients ← lift (payload_recipients p request.signature_recipients)
  pure (record {
    title = if truthy contract.contract_title then contract.contract_title else version.name;
    external_id = request.name;
    recipients = recipients;
  })

-- `_get_pdf_content`
unfoldable pub get_pdf_content : Platform → ContractVersion → M String
get_pdf_content p version = do
  throw_if (not (truthy version.document)) no_document
  lift (p.get_file version.document)

-- `_apply_envelope_metadata`
unfoldable pub apply_envelope_metadata : SignatureRequest → CreateResponse → Result SignatureRequest
apply_envelope_metadata request response = elim response.id [
  | none ↦ err key_error
  | some id ↦ ok (record request { envelope_id = id })
]

-- The key under which the dictionary has a recipient is the address `email`.
abbrev pub is_key : Option String → JsonText → Bool
is_key email missing_key = false
is_key none null = true
is_key (some e) null = false
is_key none (text k) = false
is_key (some e) (text k) = k == e

abbrev pub has_email : Option String → DistributedRecipient → Bool
has_email email d = is_key email d.email

-- email_map.get(email): of two entries for one address the dictionary keeps the later.
unfoldable pub with_email : Option String → List DistributedRecipient → Option DistributedRecipient
with_email email [] = none
with_email email (d ∷ ds) = elim (with_email email ds) [
  | some later ↦ some later
  | none ↦ if has_email email d then some d else none
]

-- documenso_recipient.get("recipientId") or documenso_recipient.get("id")
abbrev pub id_of : DistributedRecipient → Option String
id_of d = elim d.recipient_id [ some id ↦ some id | none ↦ d.id ]

abbrev pub id_or : String → Option String → String
id_or before none = before
id_or before (some id) = id

-- What the loop does to a row.
unfoldable pub recipient_after : List DistributedRecipient → SignatureRecipient → SignatureRecipient
unfolding with_email
recipient_after ds s = elim (with_email s.email ds) [
  | none ↦ s
  | some d ↦ record s { documenso_recipient_id = id_or s.documenso_recipient_id (id_of d) }
]

-- str(documenso_recipient["signingUrl"]), if there is such a key: null reads "None".
abbrev pub url_or : String → JsonText → String
url_or before missing_key = before
url_or before null = "None"
url_or before (text url) = url

-- What the loop does to the signing URL of the request, at one row.
unfoldable pub url_at : List DistributedRecipient → String → SignatureRecipient → String
unfolding with_email
url_at ds url s = elim (with_email s.email ds) [ none ↦ url | some d ↦ url_or url d.signing_url ]

-- The signing URL of the request after the loop.
unfoldable pub url_after : List DistributedRecipient → String → List SignatureRecipient → String
unfolding url_at
url_after ds url [] = url
url_after ds url (s ∷ rows) = url_after ds (url_at ds url s) rows

-- `_apply_recipient_metadata`
unfoldable pub apply_recipient_metadata :
    SignatureRequest → List DistributedRecipient → SignatureRequest
unfolding recipient_after url_after
apply_recipient_metadata request ds = record request {
  signature_recipients = map (recipient_after ds) request.signature_recipients;
  signing_url = url_after ds request.signing_url request.signature_recipients;
}

-- `_transition_contract_version`
unfoldable pub transition_contract_version : Platform → ContractVersion → M ContractVersion
transition_contract_version p version = do
  throw_if (not (can_transition version.status VersionStatus.signature_requested))
      cannot_request_signature
  apply_action p version Action.request_signature false

-- The part of `send_signature_request` that raises before anything leaves the site.
unfoldable pub prepare : Platform → SignatureRequest → M (ContractVersion × String × Payload)
unfolding get_version get_pdf_content
prepare p request = do
  lift (validate_signature_request request)
  lift (validate_recipients request.signature_recipients)
  version ← get_version request.contract_version
  lift (validate_contract_version version)
  pdf_content ← get_pdf_content p version
  lift (validate_pdf_placeholders p pdf_content request)
  payload ← build_documenso_payload p request version
  pure (version, pdf_content, payload)

-- The exchange with Documenso, each answer saved on the request.
unfoldable pub exchange : Platform → SignatureRequest → String → Payload → M SignatureRequest
unfolding ask
exchange p request pdf_content payload = do
  created ←
      ask (create_document payload pdf_content)
        (λ calls. p.create_document calls payload pdf_content)
  enveloped ← lift (apply_envelope_metadata request created)
  persisted ← SignatureRequest.save p false enveloped
  distributed ←
      ask (distribute_document persisted.envelope_id)
        (λ calls. p.distribute_document calls persisted.envelope_id)
  SignatureRequest.save p false (apply_recipient_metadata persisted distributed)

-- `SignatureService.send_signature_request`
unfoldable pub send_signature_request : Platform → String → M SignatureRequest
unfolding get_request
send_signature_request p signature_request_name = do
  request ← get_request signature_request_name
  (version, pdf_content, payload) ← prepare p request
  sent ← exchange p request pdf_content payload
  transition_contract_version p version
  pending ← SignatureRequest.save p false (record sent { status = SignatureRequestStatus.pending })
  notify_safely "SIGNATURE_REQUEST_SENT" (notify_signature p signature_request_sent pending)
  pure pending
