-- ===== src/Safety/Lifecycle.antt =====
-- Over any sequence of calls the status of a version moves by allowed changes only.

use contract_management.Prelude.{
  ap, ◌∙◌, ◌⊎◌, inl, inr, ◌≡◌, refl, sym, subst, String, Option, none, some,
}
use contract_management.Workflow.{VersionStatus}
use contract_management.Workflow.Reachable.{Run, here, step, AnyStatus, lifecycle_order}
use contract_management.Site.{Site}
use contract_management.Platform.{Platform, FollowsFixture, NamesAreFresh}
use contract_management.Safety.Status.{status_at}
use contract_management.Safety.Rules.{Admits}
use contract_management.Safety.History.{Reach, Reach-Keeps}

-- The row is still there, and its status was reached from the first by allowed changes.
abbrev RunsTo : VersionStatus → Option VersionStatus → Type 0
RunsTo s none = ⊥
RunsTo s (some t) = Run AnyStatus s t

RunsTo-Admits : (n : String) (s : VersionStatus) → Admits n (λ o _. RunsTo s o)
RunsTo-Admits n s = record {
  move = λ t u rows allowed _ run. step run allowed tt;
  decide = λ o rows k now status a _ _ h. h;
  remark = λ o rows k remarks h. h;
  add = λ o rows a _ h. h;
}

found :
    (s : VersionStatus) (o : Option VersionStatus)
    → RunsTo s o
    → (t : VersionStatus) × (o ≡ some t) × Run AnyStatus s t
found s none h = absurd h
found s (some t) h = (t, refl, h)

-- However the service layer, the portal and the webhook are called, a Contract Version is never lost,
-- and its status is one that VERSION_TRANSITIONS reaches from the status that it had; the engine is
-- assumed to follow the installed workflow, and the naming series to give fresh names.
pub status_follows_transitions :
    (p : Platform)
    → FollowsFixture p
    → NamesAreFresh p
    → (n : String) (before after : Site) (s : VersionStatus) → Reach p before after
    → status_at n before.versions ≡ some s
    → (t : VersionStatus) × (status_at n after.versions ≡ some t) × Run AnyStatus s t
status_follows_transitions p follows names n before after s reach start =
    found s (status_at n after.versions) (
      Reach-Keeps p follows names n (λ o _. RunsTo s o) (RunsTo-Admits n s) reach
        (subst (RunsTo s) (sym start) (here tt)))

-- A status that nothing leads out of.
abbrev pub IsFinal : VersionStatus → Type 0
IsFinal s = (s ≡ VersionStatus.executed) ⊎ (s ≡ VersionStatus.superseded)

-- However the service layer, the portal and the webhook are called, a version that is Executed stays
-- Executed, and one that is Superseded stays Superseded, if the engine follows the installed workflow
-- and new names are fresh.
pub terminal_statuses_stay :
    (p : Platform)
    → FollowsFixture p
    → NamesAreFresh p
    → (n : String) (before after : Site) (s : VersionStatus) → IsFinal s
    → Reach p before after
    → status_at n before.versions ≡ some s
    → status_at n after.versions ≡ some s
terminal_statuses_stay p follows names n before after s final reach start =
    let (t, e, run) = status_follows_transitions p follows names n before after s reach start in
    elim final [
      | inl executed ↦
          e
          ∙ ap some
              (lifecycle_order.2 t (subst (λ x. Run AnyStatus x t) executed run) ∙ sym executed)
      | inr superseded ↦
          e
          ∙ ap some
              (lifecycle_order.3 t (subst (λ x. Run AnyStatus x t) superseded run) ∙ sym superseded)
    ]
