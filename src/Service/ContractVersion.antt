-- ===== src/Service/ContractVersion.antt =====
-- services/contract_version.py
use contract_management.Prelude.{not, false}
use contract_management.Failure.{cannot_submit_for_review}
use contract_management.Exec.{pure, throw_if, ◌>>=◌, ◌>>◌}
use contract_management.Workflow.{VersionStatus, can_transition}
use contract_management.Workflow.Fixture.{Action}
use contract_management.Site.{ContractVersion, M}
use contract_management.Platform.{Platform}
use contract_management.Service.Workflow.{apply_action}
use contract_management.Service.Approval.{create_for_version}

-- `ContractVersionService.submit_for_review`; `apply_workflow` reads the document itself again, so
-- what follows sees the saved row.
unfoldable pub submit_for_review : Platform → ContractVersion → M ContractVersion
submit_for_review p version = do
  throw_if (not (can_transition version.status VersionStatus.under_review)) cannot_submit_for_review
  reviewed ← apply_action p version Action.submit_for_review false
  create_for_version p reviewed
  pure reviewed
