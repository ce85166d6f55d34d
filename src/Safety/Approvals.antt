-- ===== src/Safety/Approvals.antt =====
-- The approval service and the submission for review.
use contract_management.Prelude.{
  ◌≡◌, ◌≢◌, refl, String, Bool, true, false, not, Option, none, some, List, map, arith, ◌==◌,
  string_eq,
}
use contract_management.Prelude.Lists.{contains}
use contract_management.Failure.{Error, Result, ok, err, approval_not_pending}
use contract_management.Exec.{◌>>=◌, state_of, returned, throw_if, or_raise}
use contract_management.Exec.Laws.{
  Keeps, state_of-bind, state_of-guard, state_of-gets, state_of-when, keeps_rules, Keeps-bind,
  Keeps-throw_if, Keeps-pure,
}
use contract_management.Workflow.{ApprovalStatus, VersionStatus, approval_status_eq}
use contract_management.Workflow.Fixture.{Action}
use contract_management.Site.{
  ContractVersion, Approval, Contract, Collaborator, Site, M, find_approval,
}
use contract_management.Platform.{Platform, FollowsFixture, NamesAreFresh}
use contract_management.Doctype.Approval as Row
use contract_management.Service.Notification
use contract_management.Service.Approval
use contract_management.Service.ContractVersion
use contract_management.Service.Workflow
use contract_management.Safety.Frame
use contract_management.Safety.Frame.{On}
use contract_management.Safety.Rules.{Admits, At}
use contract_management.Safety.Moves

not-false : (b : Bool) → not b ≡ false → b ≡ true
not-false b h = ground arith

is_pending :
    (s : ApprovalStatus) → not (s == ApprovalStatus.pending) ≡ false → s ≡ ApprovalStatus.pending
is_pending s h = (approval_status_eq.beq_iff s ApprovalStatus.pending).0 (not-false _ h)

get_approval-returned :
    (name : String) (site : Site) {a : Approval} {after : Site}
    → Approval.get_approval name site ≡ returned a after
    → find_approval name after.approvals ≡ some a
unfolding Approval.get_approval ◌>>=◌
get_approval-returned name site {a} {after} h = go (find_approval name site.approvals) refl h
  where
    go :
        (o : Option Approval)
        → find_approval name site.approvals ≡ o
        → or_raise o Error.does_not_exist site ≡ returned a after
        → find_approval name after.approvals ≡ some a
    go none e k = cc
    go (some b) e k = ground arith

accept-name :
    (p : Platform) (site : Site) (a saved : Approval)
    → Row.accept p site none a ≡ ok saved
    → saved.name ≡ a.name
unfolding Row.accept Row.validate Row.normalize_fields Row.set_approval_date
accept-name p site a saved h = ground arith

module _ (n : String) (R : Option VersionStatus → List Approval → Type 0)
    (admits : Admits n R) where
  update_collaborator_status-Keeps :
      (p : Platform) (a : Approval) (status : ApprovalStatus)
      → Keeps (On (At n R)) (Approval.update_collaborator_status p a status)
  unfolding Approval.update_collaborator_status
  update_collaborator_status-Keeps p a status =
      search (keeps_rules, Frame.get_contract-Keeps, Frame.Contract_save-Keeps) depth 12

  notified :
      (p : Platform) (a : Approval) (event : Notification.NotificationEvent) (name : String)
      → Keeps (On (At n R)) (
          Notification.notify_safely name
            (Notification.notify_about p event (Notification.approval_doc a)))
  notified p a event name =
      Frame.notify_about_safely-Keeps (At n R) p name event (Notification.approval_doc a)

  -- The decision is written, and the collaborator's row after it.
  decide-At :
      (p : Platform) (name : String) (a : Approval) (status : ApprovalStatus)
      (rest : Unit {0} → M (Unit {0})) (site : Site)
      → find_approval name site.approvals ≡ some a
      → a.status ≡ ApprovalStatus.pending
      → On (At n R) site
      → ((after : Site) → On (At n R) after → On (At n R) (state_of (rest tt after)))
      → On (At n R) (
          state_of (
            (Approval.set_decision name status >>= λ _.
            Approval.update_collaborator_status p a status >>= rest)
              site))
  unfolding Approval.set_decision
  decide-At p name a status rest site found pending h k =
      state_of-bind (On (At n R)) (Approval.set_decision name status) _ site
        (unfold ◌>>=◌ in admits.decide _ site.approvals name site.now status a found pending h)
        λ _ after _ h₁.
          state_of-bind (On (At n R)) (Approval.update_collaborator_status p a status) rest after
            ((update_collaborator_status-Keeps p a status).at after h₁) (λ _ last _ h₂. k last h₂)

  pub approve-At :
      (p : Platform) (name : String) (site : Site)
      → On (At n R) site
      → On (At n R) (state_of (Approval.approve p name site))
  unfolding Approval.approve Approval.approve_version
  approve-At p name site h =
      state_of-bind (On (At n R)) (Approval.get_approval name) _ site
        ((Frame.get_approval-Keeps (At n R) name).at site h)
        λ a after got h₁.
          state_of-guard (On (At n R)) (not (a.status == ApprovalStatus.pending))
            approval_not_pending _ after h₁
            λ pending.
              decide-At p name a ApprovalStatus.approved _ after
                (get_approval-returned name site got) (is_pending a.status pending) h₁
                λ w h₂.
                  state_of-gets (On (At n R))
                    (λ s. Approval.check_all_approved a.contract_version s.approvals) _ w
                    (state_of-when (On (At n R))
                      (Approval.check_all_approved a.contract_version w.approvals) _ _ w
                      (λ ready.
                        state_of-bind (On (At n R)) (Approval.approve_version p a.contract_version)
                          _ w
                          (Moves.set_version_status-At n R admits p VersionStatus.approved
                            Error.cannot_approve a.contract_version w (λ _. ready) h₂)
                          (λ _ last _ h₃.
                            (notified p a Notification.approval_approved _).at last h₃))
                      (λ _. (notified p a Notification.approval_approved _).at w h₂))

  pub reject-At :
      (p : Platform) (name : String) (site : Site)
      → On (At n R) site
      → On (At n R) (state_of (Approval.reject p name site))
  unfolding Approval.reject Approval.reject_version
  reject-At p name site h =
      state_of-bind (On (At n R)) (Approval.get_approval name) _ site
        ((Frame.get_approval-Keeps (At n R) name).at site h)
        λ a after got h₁.
          state_of-guard (On (At n R)) (not (a.status == ApprovalStatus.pending))
            approval_not_pending _ after h₁
            λ pending.
              decide-At p name a ApprovalStatus.rejected _ after
                (get_approval-returned name site got) (is_pending a.status pending) h₁
                λ w h₂.
                  state_of-bind (On (At n R)) (Approval.reject_version p a.contract_version) _ w
                    (Moves.set_version_status-At n R admits p VersionStatus.rejected
                      Error.cannot_reject a.contract_version w (λ e. cc) h₂)
                    (λ _ last _ h₃. (notified p a Notification.approval_rejected _).at last h₃)

  added :
      (site : Site) (r : Result Approval)
      → On (At n R) site
      → ((a : Approval) → r ≡ ok a → contains (map (λ x. x.name) site.approvals) a.name ≡ false)
      → On (At n R) (state_of (Row.store site r))
  unfolding Row.store
  added site (ok a) h fresh = admits.add _ site.approvals a (fresh a refl) h
  added site (err e) h fresh = h

  insert-Keeps :
      (p : Platform) → NamesAreFresh p → (a : Approval) → Keeps (On (At n R)) (Row.insert p a)
  unfolding Row.insert
  insert-Keeps p names a = record {
    at = λ site h.
        let name = p.new_name (map (λ (x : Approval). x.name) site.approvals) in
        added site (Row.accept p site none (record a { name = name })) h λ saved accepted.
          rw (accept-name p site (record a { name = name }) saved accepted)
            (names.fresh (map (λ (x : Approval). x.name) site.approvals));
  }

  assign-Keeps :
      (p : Platform)
      → NamesAreFresh p
      → (c : Contract) (v : ContractVersion) (m : Collaborator)
      → Keeps (On (At n R)) (Approval.assign p c v m)
  unfolding Approval.assign Approval.create_approval
  assign-Keeps p names c v m =
      search (keeps_rules, insert-Keeps p names, Frame.notify_about_safely-Keeps) depth 12

  pub create_for_version-Keeps :
      (p : Platform)
      → NamesAreFresh p
      → (v : ContractVersion) → Keeps (On (At n R)) (Approval.create_for_version p v)
  unfolding Approval.create_for_version
  create_for_version-Keeps p names v =
      search (keeps_rules, assign-Keeps p names, Frame.get_contract-Keeps) depth 12

  apply_action-Keeps :
      (p : Platform)
      → FollowsFixture p
      → (v : ContractVersion) (a : Action) → a ≢ Action.approve
      → Keeps (On (At n R)) (Workflow.apply_action p v a false)
  apply_action-Keeps p follows v a other = record {
    at = λ site h. Moves.apply_action-At n R admits p follows v a false site other h;
  }

  pub submit_for_review-Keeps :
      (p : Platform)
      → FollowsFixture p
      → NamesAreFresh p
      → (v : ContractVersion) → Keeps (On (At n R)) (ContractVersion.submit_for_review p v)
  unfolding ContractVersion.submit_for_review
  submit_for_review-Keeps p follows names v = Keeps-bind (throw_if _ _) _ (Keeps-throw_if _ _) λ _.
      Keeps-bind (Workflow.apply_action p v Action.submit_for_review false) _
        (apply_action-Keeps p follows v Action.submit_for_review (λ e. cc))
        λ reviewed.
          Keeps-bind (Approval.create_for_version p reviewed) _
            (create_for_version-Keeps p names reviewed) (λ _. Keeps-pure reviewed)
