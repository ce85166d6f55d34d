-- ===== src/Service/Signature/Checks.antt =====
-- services/signature.py: the guards of the signature service, which raise or do nothing.
use Prim.Native.String.{◌++◌}
use contract_management.Prelude.{
  ℕ, ◌+◌, Bool, true, false, not, ◌||◌, String, Option, none, some, List, [], ◌∷◌, if◌then◌else◌,
  ◌==◌,
}
use contract_management.Prelude.Int.{ℤ}
use contract_management.Prelude.Text.{truthy, lower, remove_spaces, occurs_in, decimal}
use contract_management.Failure.{
  Result, ok, err, ◌>>=◌, ◌>>◌, throw_if, not_current, not_approved, no_recipients, signer_required,
  signing_order_required, placeholders_missing, request_not_draft, request_not_pending,
  recipient_not_pending, request_not_cancellable,
}
use contract_management.Workflow.{
  VersionStatus, SignatureRequestStatus, SignatureRecipientStatus, version_status_eq,
  request_status_eq, recipient_status_eq,
}
use contract_management.Site.{ContractVersion, SignatureRequest, SignatureRecipient}
use contract_management.Platform.{Platform, Extraction, pages, no_resources, unreadable}

-- `_validate_contract_version`
unfoldable pub validate_contract_version : ContractVersion → Result (Unit {0})
validate_contract_version v = do
  throw_if (not v.is_current) not_current
  throw_if (not (v.status == VersionStatus.approved)) not_approved

abbrev pub is_none : Option ℤ → Bool
is_none none = true
is_none (some n) = false

-- The loop of `_validate_recipients`.
check_each : List SignatureRecipient → Result (Unit {0})
check_each [] = ok tt
check_each (s ∷ rows) = do
  throw_if (not (truthy s.signer)) signer_required
  throw_if (is_none s.signing_order) signing_order_required
  check_each rows

-- `_validate_recipients`
unfoldable pub validate_recipients : List SignatureRecipient → Result (Unit {0})
unfolding check_each
validate_recipients [] = err no_recipients
validate_recipients (s ∷ rows) = check_each (s ∷ rows)

-- "{{signature,r1}}" for the first recipient, and so on
unfoldable pub placeholder : ℕ → String
placeholder index = "{{signature,r" ++ (decimal index ++ "}}")

-- The placeholders of the recipients from an index on that the text lacks.
unfoldable pub missing_placeholders : String → ℕ → List SignatureRecipient → List String
missing_placeholders text index [] = []
missing_placeholders text index (s ∷ rows) =
    let rest = missing_placeholders text (index + 1) rows in
    if occurs_in (placeholder index) text then rest else placeholder index ∷ rest

join_pages : List String → String
join_pages [] = ""
join_pages (t ∷ ts) = t ++ join_pages ts

extracted_text : Extraction → Result String
unfolding join_pages
extracted_text (pages ts) = ok (join_pages ts)
extracted_text no_resources = ok ""
extracted_text (unreadable e) = err e

abbrev pub is_nonempty {ℓ} : {A : Type ℓ} → List A → Bool
is_nonempty [] = false
is_nonempty (x ∷ xs) = true

-- `_validate_pdf_placeholders`
unfoldable pub validate_pdf_placeholders : Platform → String → SignatureRequest → Result (Unit {0})
unfolding missing_placeholders extracted_text
validate_pdf_placeholders p pdf_content request = do
  extracted ← extracted_text (p.read_pdf pdf_content)
  let normalized = remove_spaces (lower extracted)
  throw_if (is_nonempty (missing_placeholders normalized 1 request.signature_recipients))
      placeholders_missing

-- `_validate_signature_request`
unfoldable pub validate_signature_request : SignatureRequest → Result (Unit {0})
validate_signature_request r = do
  throw_if (not (r.status == SignatureRequestStatus.draft)) request_not_draft
  throw_if (not (is_nonempty r.signature_recipients)) no_recipients

-- `_validate_signature_request_for_signing`
unfoldable pub validate_signature_request_for_signing : SignatureRequest → Result (Unit {0})
validate_signature_request_for_signing r =
    throw_if (not (r.status == SignatureRequestStatus.pending)) request_not_pending

-- `_validate_signature_recipient`
unfoldable pub validate_signature_recipient : SignatureRecipient → Result (Unit {0})
validate_signature_recipient s =
    throw_if (not (s.status == SignatureRecipientStatus.pending)) recipient_not_pending

-- `_validate_signature_request_for_cancellation`
unfoldable pub validate_signature_request_for_cancellation : SignatureRequest → Result (Unit {0})
validate_signature_request_for_cancellation r =
    throw_if
      (not (
        (r.status == SignatureRequestStatus.draft) || (r.status == SignatureRequestStatus.pending)))
      request_not_cancellable
