-- ===== src/Failure.antt =====
-- The exceptions that the code raises, one for each message, and those that come out of the
-- framework and of the services that it talks to.
use contract_management.Prelude.{◌≡◌, refl, ◌↔◌, Bool, true, false, Option, none, some, String}

pub data Error : Type 0 where
  -- frappe.DoesNotExistError
  does_not_exist : Error
  -- frappe.ValidationError, Contract
  title_empty effective_after_expiration duplicate_collaborator contract_not_submitted : Error
  -- frappe.ValidationError, Contract Version
  contract_required version_number_required version_number_not_positive : Error
  version_number_exists current_superseded no_current_version_left : Error
  cannot_submit_for_review cannot_approve cannot_reject : Error
  -- frappe.ValidationError, Approval
  contract_version_required approver_required status_required duplicate_pending_approval : Error
  status_changed_directly no_approvers approval_not_pending : Error
  -- frappe.ValidationError, Signature Request
  requested_by_required active_request_exists duplicate_signer_email : Error
  duplicate_signing_order signing_order_not_sequential : Error
  not_current not_approved no_recipients signer_required signing_order_required : Error
  placeholders_missing request_not_draft request_not_pending not_a_recipient : Error
  recipient_not_pending request_not_cancellable no_document : Error
  cannot_execute cannot_request_signature cannot_restore : Error
  -- frappe.ValidationError, Counterparty
  counterparty_name_empty contact_person_empty email_empty : Error
  -- DocumensoError
  no_envelope_id envelope_not_completed no_envelope_items no_item_id not_a_pdf : Error
  -- DocumensoWebhookAuthError and DocumensoConfigurationError
  missing_secret invalid_secret secret_not_configured integration_disabled : Error
  -- DocumensoRequestError, DocumensoAuthenticationError and DocumensoApiError
  request_failed authentication_failed : Error
  api_error : String → Error
  -- frappe.PermissionError, the portal
  no_portal_access no_contract_access no_such_version no_document_access : Error
  no_pending_review signed_file_not_private : Error
  -- frappe.ValidationError, the portal
  invalid_action no_version_to_review no_signed_document not_executed no_original_document : Error
  file_not_found : Error
  -- frappe.ValidationError, the webhook
  empty_body invalid_json not_an_object : Error
  -- frappe.ValidationError, Documenso Settings
  invalid_base_url : Error
  -- Python's own TypeError, KeyError, AttributeError and ValueError
  type_error key_error attribute_error value_error : Error
  -- raised inside Frappe, pypdf, requests or Documenso
  external : String → Error

-- Code that returns a value or raises, and writes nothing.
pub data Result {ℓ} (Value : Type ℓ) : Type ℓ where
  ok : Value → Result Value
  err : Error → Result Value

infixl 5 ◌>>◌
infixl 5 ◌>>=◌
abbrev pub ◌>>=◌ {ℓ κ} :
    {Value : Type ℓ} {Next : Type κ} → Result Value → (Value → Result Next) → Result Next
ok value >>= next = next value
err error >>= next = err error

abbrev pub ◌>>◌ {ℓ κ} : {Value : Type ℓ} {Next : Type κ} → Result Value → Result Next → Result Next
first >> second = first >>= λ _. second

-- if condition: frappe.throw(…)
abbrev pub throw_if : Bool → Error → Result (Unit {0})
throw_if true error = err error
throw_if false error = ok tt

abbrev pub check : Option Error → Result (Unit {0})
check none = ok tt
check (some e) = err e

-- A sequence that returned: its first part returned, and so did the rest.
pub >>=-eq-ok {ℓ κ} :
    {Value : Type ℓ} {Next : Type κ} (first : Result Value) (next : Value → Result Next)
    → {last : Next} → (first >>= next) ≡ ok last
    → (value : Value) × (first ≡ ok value) × (next value ≡ ok last)
>>=-eq-ok (ok value) next same = (value, refl, same)
>>=-eq-ok (err error) next same = cc

-- Code after a guard returns exactly when the guard does not fire and the code does.
pub throw_if->>=_iff {ℓ} :
    {A : Type ℓ} (b : Bool) (e : Error) (rest : Result A) (a : A)
    → ((throw_if b e >> rest) ≡ ok a) ↔ ((b ≡ false) × (rest ≡ ok a))
throw_if->>=_iff true e rest a = (λ h. cc, λ h. cc)
throw_if->>=_iff false e rest a = (λ h. (refl, h), λ h. h.1)

-- So it is for code after a check that returns nothing.
pub unit->>=_iff {ℓ} :
    {A : Type ℓ} (m : Result (Unit {0})) (rest : Result A) (a : A)
    → ((m >> rest) ≡ ok a) ↔ ((m ≡ ok tt) × (rest ≡ ok a))
unit->>=_iff (ok tt) rest a = (λ h. (refl, h), λ h. h.1)
unit->>=_iff (err e) rest a = (λ h. cc, λ h. cc)
