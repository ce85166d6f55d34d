-- ===== src/Service/Signature/Create.antt =====
-- services/signature.py: `create_signature_request`.
use contract_management.Prelude.{String, List, [], ◌∷◌, some}
use contract_management.Prelude.Int.{ℤ}
use contract_management.Failure.{does_not_exist}
use contract_management.Exec.{pure, or_raise, gets, lift, ◌>>=◌, ◌>>◌}
use contract_management.Workflow.{SignatureRequestStatus, SignatureRecipientStatus}
use contract_management.Site.{
  ContractVersion, SignatureRequest, SignatureRecipient, M, find_request,
}
use contract_management.Platform.{Platform}
use contract_management.Doctype.SignatureRequest
use contract_management.Service.Notification.{get_version}
use contract_management.Service.Signature.Checks.{validate_contract_version}

-- The keys of a recipient dictionary.
pub record RecipientData : Type 0 where
  pub signer : String
  pub signing_order : ℤ

-- frappe.get_doc("Signature Request", name)
unfoldable pub get_request : String → M SignatureRequest
get_request name = do row ← gets (λ s. find_request name s.requests); or_raise row does_not_exist

-- `_build_signature_request`
unfoldable pub build_signature_request : String → ContractVersion → SignatureRequest
build_signature_request user v = record {
  name = "";
  contract_version = v.name;
  status = SignatureRequestStatus.draft;
  requested_by = user;
  requested_on = "";
  completed_on = "";
  envelope_id = "";
  signing_url = "";
  signature_recipients = [];
}

-- `_append_recipients`
unfoldable pub append_recipients : Platform → List RecipientData → M (List SignatureRecipient)
append_recipients p [] = pure []
append_recipients p (d ∷ rest) = do
  user ← lift (p.get_user d.signer)
  rows ← append_recipients p rest
  pure (
      record {
        signer = d.signer;
        email = some user.email;
        signing_order = some d.signing_order;
        status = SignatureRecipientStatus.pending;
        signed_on = "";
        documenso_recipient_id = "";
      }
      ∷ rows)

-- `SignatureService.create_signature_request`
unfoldable pub create_signature_request :
    Platform → String → List RecipientData → M SignatureRequest
unfolding get_version build_signature_request append_recipients
create_signature_request p contract_version_name recipients = do
  version ← get_version contract_version_name
  lift (validate_contract_version version)
  user ← gets (λ s. s.user)
  rows ← append_recipients p recipients
  SignatureRequest.insert p
      (record (build_signature_request user version) { signature_recipients = rows })
