-- ===== src/Service/Signature/Cancel.antt =====
-- services/signature.py: `cancel_signature_request` and its helpers.
use contract_management.Prelude.{false, not, String, ◌==◌}
use contract_management.Failure.{cannot_restore}
use contract_management.Exec.{pure, skip, lift, throw_if, when, ◌>>=◌, ◌>>◌}
use contract_management.Workflow.{
  VersionStatus, SignatureRequestStatus, can_transition, request_status_eq,
}
use contract_management.Workflow.Fixture.{Action}
use contract_management.Site.{ContractVersion, SignatureRequest, M}
use contract_management.Platform.{Platform}
use contract_management.Doctype.SignatureRequest
use contract_management.Service.Notification.{
  get_version, notify_safely, notify_signature, signature_cancelled,
}
use contract_management.Service.Workflow.{apply_system_action}
use contract_management.Service.Signature.Checks.{validate_signature_request_for_cancellation}
use contract_management.Service.Signature.Create.{get_request}

-- `_restore_contract_version`
unfoldable pub restore_contract_version : Platform → ContractVersion → M (Unit {0})
restore_contract_version p version = do
  throw_if (not (can_transition version.status VersionStatus.approved)) cannot_restore
  apply_system_action p version Action.cancel_signature
  skip

-- `SignatureService.cancel_signature_request`
unfoldable pub cancel_signature_request : Platform → String → M SignatureRequest
unfolding get_request get_version
cancel_signature_request p signature_request_name = do
  request ← get_request signature_request_name
  lift (validate_signature_request_for_cancellation request)
  version ← get_version request.contract_version
  when (request.status == SignatureRequestStatus.pending) (restore_contract_version p version)
  cancelled ←
      SignatureRequest.save p false (record request { status = SignatureRequestStatus.cancelled })
  notify_safely "SIGNATURE_CANCELLED" (notify_signature p signature_cancelled cancelled)
  pure cancelled
