-- ===== src/Service/Signature/Complete.antt =====
-- services/signature.py: `_apply_completion_transitions` and `complete_signature_request`.
use contract_management.Prelude.{true, not, if◌then◌else◌, ◌==◌, string_eq}
use contract_management.Prelude.Text.{truthy}
use contract_management.Failure.{cannot_execute}
use contract_management.Exec.{pure, throw_if, when, ◌>>=◌, ◌>>◌}
use contract_management.Workflow.{
  VersionStatus, SignatureRequestStatus, can_transition, version_status_eq, request_status_eq,
  recipient_status_eq,
}
use contract_management.Workflow.Fixture.{Action}
use contract_management.Site.{ContractVersion, SignatureRequest, M}
use contract_management.Platform.{Platform}
use contract_management.Doctype.ContractVersion
use contract_management.Doctype.SignatureRequest
use contract_management.Service.Notification.{
  get_version, notify_safely, notify_signature, notify_about, signature_completed,
  contract_executed, version_doc,
}
use contract_management.Service.Workflow.{apply_system_action}
use contract_management.Service.Signature.Executed.{store_executed_document, set_executed_document}

-- The version becomes Executed, or is saved as it is if it is Executed already.
unfoldable pub execute_version : Platform → ContractVersion → M ContractVersion
execute_version p version =
    if version.status == VersionStatus.executed then ContractVersion.save p true version else (do
      throw_if (not (can_transition version.status VersionStatus.executed)) cannot_execute
      apply_system_action p version Action.complete_signing)

-- `_apply_completion_transitions`; both documents come back.
unfoldable pub apply_completion_transitions :
    Platform → SignatureRequest → ContractVersion → M (SignatureRequest × ContractVersion)
unfolding set_executed_document
apply_completion_transitions p request version = do
  stored ← store_executed_document p request version
  when (truthy stored.executed_document) (set_executed_document stored)
  executed ← execute_version p stored
  completed ←
      SignatureRequest.save p true (record request { status = SignatureRequestStatus.completed })
  pure (completed, executed)

-- `complete_signature_request`
unfoldable pub complete_signature_request : Platform → SignatureRequest → M SignatureRequest
unfolding get_version
complete_signature_request p request = do
  version ← get_version request.contract_version
  (completed, executed) ← apply_completion_transitions p request version
  notify_safely "SIGNATURE_COMPLETED" (notify_signature p signature_completed completed)
  notify_safely "CONTRACT_EXECUTED" (notify_about p contract_executed (version_doc executed))
  pure completed
