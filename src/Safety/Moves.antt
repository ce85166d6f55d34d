-- ===== src/Safety/Moves.antt =====
-- The transitions that the approval service and the workflow engine make.
use contract_management.Prelude.{
  ◌≡◌, ◌≢◌, subst, inl, inr, String, Bool, true, false, not, Option, some, List, arith, ap,
}
use mathlib.Core.Option
use contract_management.Failure.{Error, Result, ok, err}
use contract_management.Exec.{state_of, returned, raised, Outcome, lift}
use contract_management.Exec.Laws.{
  state_of-bind, state_of-guard, state_of-skip, state_of-gets, state_of-lift,
}
use contract_management.Workflow.{VersionStatus, can_transition, version_status_eq}
use contract_management.Workflow.Fixture.{Action, next_state, can_transition_of_next_state}
use contract_management.Site.{ContractVersion, Approval, Site, find_version}
use contract_management.Platform.{Platform, FollowsFixture}
use contract_management.Doctype.ContractVersion
use contract_management.Service.Notification.{get_version}
use contract_management.Service.Workflow
use contract_management.Service.Approval
use contract_management.Safety.Frame
use contract_management.Safety.Frame.{On}
use contract_management.Safety.Rules.{Admits, At, save-At, get_version-returned}

next_state-approved :
    (s : VersionStatus) (a : Action)
    → a ≢ Action.approve
    → next_state s a ≡ some VersionStatus.approved
    → s ≡ VersionStatus.signature_requested
unfolding next_state
next_state-approved s a ne h = ground arith

lift-returned :
    {A : Type 0} (r : Result A) (site : Site) {a : A} {after : Site}
    → lift r site ≡ returned a after
    → (r ≡ ok a) × (after ≡ site)
unfolding lift
lift-returned (ok b) site h = ground arith
lift-returned (err e) site h = cc

not-false : (b : Bool) → not b ≡ false → b ≡ true
not-false b h = ground arith

module _ (n : String) (R : Option VersionStatus → List Approval → Type 0)
    (admits : Admits n R) where
  -- The row that was read has the status that `R` speaks of.
  read :
      (name : String) (v : ContractVersion) (site : Site)
      → find_version name site.versions ≡ some v
      → name ≡ n
      → On (At n R) site
      → R (some v.status) site.approvals
  read name v site found same h =
      subst (λ s. R s site.approvals)
        (rw (← same) (ap (Option.map (λ (r : ContractVersion). r.status)) found)) h

  -- `_approve_version` and `_reject_version`.
  pub set_version_status-At :
      (p : Platform) (status : VersionStatus) (message : Error) (name : String) (site : Site)
      → (status ≡ VersionStatus.approved → Approval.check_all_approved name site.approvals ≡ true)
      → On (At n R) site
      → On (At n R) (state_of (Approval.set_version_status p status message name site))
  unfolding Approval.set_version_status
  set_version_status-At p status message name site ready h =
      state_of-bind (On (At n R)) (get_version name) _ site
        ((Frame.get_version-Keeps (At n R) name).at site h)
        λ v after got h₁.
          let (found, unchanged, named) = get_version-returned name site got in
          state_of-guard (On (At n R)) (not (can_transition v.status status)) message _ after h₁
            λ allowed.
              state_of-skip (On (At n R))
                (ContractVersion.save p false (record v { status = status })) after
                (save-At n R p false (record v { status = status }) after h₁
                  λ same.
                    admits.move v.status status after.approvals (not-false _ allowed)
                      (λ approving. inr (rw (← same, named, unchanged) (ready approving)))
                      (read name v after found (rw (← named) same) h₁))

  -- `apply_action`, but for the action Approve, which the services never apply.
  pub apply_action-At :
      (p : Platform) (follows : FollowsFixture p) (doc : ContractVersion) (a : Action)
      (ignore : Bool) (site : Site)
      → a ≢ Action.approve
      → On (At n R) site
      → On (At n R) (state_of (Workflow.apply_action p doc a ignore site))
  unfolding Workflow.apply_action
  apply_action-At p follows doc a ignore site other h =
      state_of-bind (On (At n R)) (get_version doc.name) _ site
        ((Frame.get_version-Keeps (At n R) doc.name).at site h)
        λ v after got h₁.
          let (found, unchanged, named) = get_version-returned doc.name site got in
          state_of-gets (On (At n R)) (λ s. s.user) _ after
            (state_of-lift (On (At n R)) (p.workflow after.user ignore v.status a) _ after h₁
              λ next granted.
                let along = follows.along after.user ignore v.status a next granted in
                save-At n R p ignore (record v { status = next }) after h₁
                  λ same.
                    admits.move v.status next after.approvals
                      (can_transition_of_next_state v.status a next along)
                      (λ approving.
                        inl (next_state-approved v.status a other (rw approving at along)))
                      (read doc.name v after found (rw (← named) same) h₁))

  restored :
      {A : Type 0} (user : String) (o : Outcome Site A)
      → On (At n R) (state_of o)
      → On (At n R) (state_of (Workflow.restore_user user o))
  unfolding Workflow.restore_user
  restored user (returned a w) h = h
  restored user (raised e w) h = h

  pub apply_system_action-At :
      (p : Platform) (follows : FollowsFixture p) (doc : ContractVersion) (a : Action) (site : Site)
      → a ≢ Action.approve
      → On (At n R) site
      → On (At n R) (state_of (Workflow.apply_system_action p doc a site))
  unfolding Workflow.apply_system_action Workflow.as_user
  apply_system_action-At p follows doc a site other h =
      restored site.user
        (Workflow.apply_action p doc a true (record site { user = "Administrator" }))
        (apply_action-At p follows doc a true (record site { user = "Administrator" }) other h)
