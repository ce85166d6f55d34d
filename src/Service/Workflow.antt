-- ===== src/Service/Workflow.antt =====
-- services/workflow.py: `WorkflowService.apply_action` and `apply_system_action`.
use contract_management.Prelude.{Bool, true, String}
use contract_management.Exec.{Outcome, returned, raised, lift, gets, ◌>>=◌}
use contract_management.Workflow.Fixture.{Action}
use contract_management.Site.{Site, ContractVersion, M}
use contract_management.Platform.{Platform}
use contract_management.Doctype.ContractVersion
use contract_management.Service.Notification.{get_version}

-- Frappe's `apply_workflow` reads the document again, sets the state that the engine gives, and
-- saves it.
unfoldable pub apply_action : Platform → ContractVersion → Action → Bool → M ContractVersion
unfolding get_version
apply_action p doc action ignore_permissions = do
  stored ← get_version doc.name
  user ← gets (λ s. s.user)
  next ← lift (p.workflow user ignore_permissions stored.status action)
  ContractVersion.save p ignore_permissions (record stored { status = next })

-- finally: frappe.set_user(user)
unfoldable pub restore_user {ℓ} : {A : Type ℓ} → String → Outcome Site A → Outcome Site A
restore_user user (returned a after) = returned a (record after { user = user })
restore_user user (raised e after) = raised e (record after { user = user })

-- try: frappe.set_user(user); … finally: frappe.set_user(previous_user)
unfoldable pub as_user {ℓ} : {A : Type ℓ} → String → M A → M A
unfolding restore_user
as_user user call site = restore_user site.user (call (record site { user = user }))

unfoldable pub apply_system_action : Platform → ContractVersion → Action → M ContractVersion
unfolding as_user apply_action
apply_system_action p doc action = as_user "Administrator" (apply_action p doc action true)
