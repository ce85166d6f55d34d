-- ===== src/Safety/Signatures.antt =====
-- The signature service.
use contract_management.Prelude.{
  ◌≡◌, refl, subst, ap, String, true, false, not, Option, none, some, List, ◌==◌, Bool-cases, inl,
  inr,
}
use mathlib.Core.Option
use contract_management.Prelude.Text.{truthy}
use contract_management.Failure.{cannot_execute}
use contract_management.Exec.{◌>>=◌, ◌>>◌, state_of, returned, throw_if, pure, when}
use contract_management.Exec.Laws.{
  Keeps, state_of-bind, state_of-guard, state_of-skip, state_of-gets, state_of-lift, keeps_rules,
  Keeps-bind, Keeps-throw_if, Keeps-if, Keeps-when, Keeps-skip, Keeps-returned, state_of-then,
  Gives, Gives-bind, Gives-if, Gives-pure,
}
use contract_management.Workflow.{
  VersionStatus, SignatureRequestStatus, can_transition, version_status_eq,
}
use contract_management.Workflow.Fixture.{Action}
use contract_management.Site.{ContractVersion, Approval, SignatureRequest, Site}
use contract_management.Platform.{Platform, FollowsFixture}
use contract_management.Doctype.SignatureRequest
use contract_management.Service.Notification
use contract_management.Service.Workflow
use contract_management.Service.Signature.Send
use contract_management.Service.Signature.Executed
use contract_management.Service.Signature.Complete
use contract_management.Service.Signature.Sign
use contract_management.Service.Signature.Webhook
use contract_management.Service.Signature.Cancel
use contract_management.Safety.Frame
use contract_management.Safety.Frame.{On}
use contract_management.Safety.Status.{status_at, status_at-set_document}
use contract_management.Safety.Rules.{Admits, At, save-At, get_version-returned}
use contract_management.Safety.Moves
use contract_management.Safety.Signing

-- The document that comes back from the download is the version, but for one field.
abbrev SameVersion : ContractVersion → ContractVersion → Type 0
SameVersion v u = (u.name ≡ v.name) × (u.status ≡ v.status)

store-SameVersion :
    (p : Platform) (r : SignatureRequest) (v : ContractVersion)
    → Gives (SameVersion v) (Executed.store_executed_document p r v)
unfolding Executed.store_executed_document
store-SameVersion p r v = Gives-if (truthy v.executed_document) _ _ (Gives-pure v (refl, refl)) (
    Gives-bind _ _ λ content. Gives-bind _ _ λ files.
      Gives-bind _ _
        λ url. Gives-bind _ _ λ _. Gives-pure (Executed.with_executed_document url v) (refl, refl))

-- The status in memory is the one in the table.
abbrev Current : ContractVersion → List ContractVersion → Type 0
Current v rows = status_at v.name rows ≡ some v.status

module _ (n : String) (R : Option VersionStatus → List Approval → Type 0)
    (admits : Admits n R) where
  abbrev AtCurrent : ContractVersion → List ContractVersion → List Approval → Type 0
  AtCurrent v rows approvals = At n R rows approvals × Current v rows

  set_executed_document-Keeps :
      (v u : ContractVersion) → Keeps (On (AtCurrent v)) (Executed.set_executed_document u)
  unfolding Executed.set_executed_document ◌>>=◌
  set_executed_document-Keeps v u = record {
    at = λ site h. (
      rw (status_at-set_document n u.name u.executed_document site.versions) h.0,
      rw (status_at-set_document v.name u.name u.executed_document site.versions) h.1,
    );
  }

  as_stored :
      (v u : ContractVersion)
      → SameVersion v u
      → (site : Site) → On (AtCurrent v) site
      → On (AtCurrent u) site
  as_stored v u same site h = (h.0, rw (same.0, same.1) h.1)

  version-Current :
      (name : String) (site : Site) {v : ContractVersion} {after : Site}
      → Notification.get_version name site ≡ returned v after
      → Current v after.versions
  version-Current name site got =
      let (found, _, named) = get_version-returned name site got in
      rw named (ap (Option.map (λ (r : ContractVersion). r.status)) found)

  execute_version-At :
      (p : Platform) (follows : FollowsFixture p) (v : ContractVersion) (site : Site)
      → On (AtCurrent v) site
      → On (At n R) (state_of (Complete.execute_version p v site))
  unfolding Complete.execute_version
  execute_version-At p follows v site h = elim (Bool-cases (v.status == VersionStatus.executed)) [
    | inl done ↦ rw done (
        save-At n R p true v site h.0 λ same. subst (λ s. R s site.approvals) (rw (← same) h.1) h.0)
    | inr open_status ↦ rw open_status (
        state_of-guard (On (At n R)) (not (can_transition v.status VersionStatus.executed))
          cannot_execute _ site h.0
          λ _.
            Moves.apply_system_action-At n R admits p follows v Action.complete_signing site
              (λ e. cc) h.0)
  ]

  pub apply_completion_transitions-At :
      (p : Platform) (follows : FollowsFixture p) (r : SignatureRequest) (v : ContractVersion)
      (site : Site)
      → On (AtCurrent v) site
      → On (At n R) (state_of (Complete.apply_completion_transitions p r v site))
  unfolding Complete.apply_completion_transitions
  apply_completion_transitions-At p follows r v site h =
      state_of-bind (On (At n R)) (Executed.store_executed_document p r v) _ site
        ((Signing.store_executed_document-Keeps (At n R) p r v).at site h.0)
        λ stored w got h₁.
          let same = (store-SameVersion p r v).at site stored w got in
          let current : On (AtCurrent v) w =
            Keeps-returned (On (AtCurrent v))
              (Signing.store_executed_document-Keeps (AtCurrent v) p r v) site h got in
          let written =
            Keeps-when (truthy stored.executed_document) (Executed.set_executed_document stored)
              (λ _. set_executed_document-Keeps v stored) in
          state_of-bind (On (At n R))
            (when (truthy stored.executed_document) (Executed.set_executed_document stored)) _ w
            (written.at w current).0
            λ _ w₁ set _.
              state_of-bind (On (At n R)) (Complete.execute_version p stored) _ w₁
                (execute_version-At p follows stored w₁ (
                  as_stored v stored same w₁
                    (Keeps-returned (On (AtCurrent v)) written w current set)))
                λ executed w₂ _ h₃.
                  state_of-then (On (At n R))
                    (SignatureRequest.save p true
                      (record r { status = SignatureRequestStatus.completed }))
                    (λ completed. (completed, executed)) w₂
                    ((Frame.SignatureRequest_save-Keeps (At n R) p true _).at w₂ h₃)

  notified :
      (p : Platform) (r : SignatureRequest) (v : ContractVersion)
      → Keeps (On (At n R)) (
          Notification.notify_safely "SIGNATURE_COMPLETED"
            (Notification.notify_signature p Notification.signature_completed r)
          >> (Notification.notify_safely "CONTRACT_EXECUTED" (
                Notification.notify_about p Notification.contract_executed
                  (Notification.version_doc v))
              >> pure r))
  notified p r v =
      search (keeps_rules, Frame.notify_signature_safely-Keeps, Frame.notify_about_safely-Keeps)
        depth 12

  complete_signature_request-At :
      (p : Platform) (follows : FollowsFixture p) (r : SignatureRequest) (site : Site)
      → On (At n R) site
      → On (At n R) (state_of (Complete.complete_signature_request p r site))
  unfolding Complete.complete_signature_request
  complete_signature_request-At p follows r site h =
      state_of-bind (On (At n R)) (Notification.get_version r.contract_version) _ site
        ((Frame.get_version-Keeps (At n R) r.contract_version).at site h)
        λ v after got h₁.
          state_of-bind (On (At n R)) (Complete.apply_completion_transitions p r v) _ after
            (apply_completion_transitions-At p follows r v after
              (h₁, version-Current r.contract_version site got))
            λ (completed, executed) last _ h₂. (notified p completed executed).at last h₂

  complete_signature_request-Keeps :
      (p : Platform)
      → FollowsFixture p
      → (r : SignatureRequest) → Keeps (On (At n R)) (Complete.complete_signature_request p r)
  complete_signature_request-Keeps p follows r = record {
    at = λ site h. complete_signature_request-At p follows r site h;
  }

  pub mark_recipient_signed-Keeps :
      (p : Platform)
      → FollowsFixture p
      → (name signer : String) → Keeps (On (At n R)) (Sign.mark_recipient_signed p name signer)
  unfolding Sign.mark_recipient_signed
  mark_recipient_signed-Keeps p follows name signer =
      let complete = λ (r : SignatureRequest). complete_signature_request-Keeps p follows r in
      search (keeps_rules, Frame.get_request-Keeps, Frame.SignatureRequest_save-Keeps, complete)
        depth 14

  complete_found-Keeps :
      (p : Platform)
      → FollowsFixture p
      → (payload : Webhook.DocumentPayload) (row : Option SignatureRequest)
      → Keeps (On (At n R)) (Webhook.complete_found p payload row)
  unfolding Webhook.complete_found
  complete_found-Keeps p follows payload none = Keeps-skip
  complete_found-Keeps p follows payload (some r) =
      Keeps-if (Webhook.is_settled r.status) _ _ (λ _. Keeps-skip)
        λ _. record {
          at = λ site h.
              state_of-bind (On (At n R)) (Notification.get_version r.contract_version) _ site
                ((Frame.get_version-Keeps (At n R) r.contract_version).at site h)
                λ v after got h₁.
                  state_of-gets (On (At n R)) (λ s. s.now) _ after
                    (state_of-lift (On (At n R)) _ _ after h₁ λ rows _.
                      state_of-skip (On (At n R))
                        (Complete.apply_completion_transitions p
                          (record r { signature_recipients = rows }) v)
                        after
                        (apply_completion_transitions-At p follows _ v after
                          (h₁, version-Current r.contract_version site got)));
        }

  pub process_document_completed-Keeps :
      (p : Platform)
      → FollowsFixture p
      → (payload : Webhook.DocumentPayload)
      → Keeps (On (At n R)) (Webhook.process_document_completed p payload)
  unfolding Webhook.process_document_completed
  process_document_completed-Keeps p follows payload =
      search (keeps_rules, complete_found-Keeps p follows payload) depth 12

  restore-Keeps :
      (p : Platform)
      → FollowsFixture p
      → (v : ContractVersion) → Keeps (On (At n R)) (Cancel.restore_contract_version p v)
  unfolding Cancel.restore_contract_version
  restore-Keeps p follows v = Keeps-bind (throw_if _ _) _ (Keeps-throw_if _ _) λ _.
      Keeps-bind (Workflow.apply_system_action p v Action.cancel_signature) _
        (record {
          at = λ site h.
              Moves.apply_system_action-At n R admits p follows v Action.cancel_signature site
                (λ e. cc) h;
        })
        (λ _. Keeps-skip)

  pub cancel_signature_request-Keeps :
      (p : Platform)
      → FollowsFixture p
      → (name : String) → Keeps (On (At n R)) (Cancel.cancel_signature_request p name)
  unfolding Cancel.cancel_signature_request
  cancel_signature_request-Keeps p follows name =
      search
        (
          keeps_rules,
          Frame.get_request-Keeps,
          Frame.get_version-Keeps,
          Frame.SignatureRequest_save-Keeps,
          restore-Keeps p follows,
          Frame.notify_signature_safely-Keeps,
        )
        depth 14

  transition-Keeps :
      (p : Platform)
      → FollowsFixture p
      → (v : ContractVersion) → Keeps (On (At n R)) (Send.transition_contract_version p v)
  unfolding Send.transition_contract_version
  transition-Keeps p follows v = Keeps-bind (throw_if _ _) _ (Keeps-throw_if _ _) λ _. record {
    at = λ site h.
        Moves.apply_action-At n R admits p follows v Action.request_signature false site (λ e. cc)
          h;
  }

  pub send_signature_request-Keeps :
      (p : Platform)
      → FollowsFixture p
      → (name : String) → Keeps (On (At n R)) (Send.send_signature_request p name)
  unfolding Send.send_signature_request
  send_signature_request-Keeps p follows name =
      search
        (
          keeps_rules,
          Frame.get_request-Keeps,
          Signing.prepare-Keeps,
          Signing.exchange-Keeps,
          Frame.SignatureRequest_save-Keeps,
          transition-Keeps p follows,
          Frame.notify_signature_safely-Keeps,
        )
        depth 14
