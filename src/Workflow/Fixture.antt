-- ===== src/Workflow/Fixture.antt =====
-- The workflow that fixtures/workflow.json installs for Contract Version, against the map
-- VERSION_TRANSITIONS of constants/transitions.py.
use contract_management.Prelude.{◌≡◌, true, arith, Option, none, some, ◌↔◌}
use contract_management.Workflow.{VersionStatus, can_transition}

pub data Action : Type 0 where
  submit_for_review approve reject revise request_signature supersede : Action
  complete_signing cancel_signature : Action

-- The entries of "transitions": from a state, by an action, to the next state.
unfoldable pub next_state : VersionStatus → Action → Option VersionStatus
next_state VersionStatus.draft Action.submit_for_review = some VersionStatus.under_review
next_state VersionStatus.under_review Action.approve = some VersionStatus.approved
next_state VersionStatus.under_review Action.reject = some VersionStatus.rejected
next_state VersionStatus.rejected Action.revise = some VersionStatus.draft
next_state VersionStatus.approved Action.request_signature = some VersionStatus.signature_requested
next_state VersionStatus.approved Action.supersede = some VersionStatus.superseded
next_state VersionStatus.signature_requested Action.complete_signing = some VersionStatus.executed
next_state VersionStatus.signature_requested Action.cancel_signature = some VersionStatus.approved
next_state _ _ = none

-- The action that the fixture gives a pair of states.
action_between : VersionStatus → VersionStatus → Action
action_between VersionStatus.draft _ = Action.submit_for_review
action_between VersionStatus.under_review VersionStatus.rejected = Action.reject
action_between VersionStatus.under_review _ = Action.approve
action_between VersionStatus.rejected _ = Action.revise
action_between VersionStatus.approved VersionStatus.superseded = Action.supersede
action_between VersionStatus.approved _ = Action.request_signature
action_between VersionStatus.signature_requested VersionStatus.executed = Action.complete_signing
action_between VersionStatus.signature_requested _ = Action.cancel_signature
action_between _ _ = Action.revise

pub can_transition_of_next_state :
    (s : VersionStatus) (a : Action) (t : VersionStatus)
    → next_state s a ≡ some t
    → can_transition s t ≡ true
unfolding next_state can_transition
can_transition_of_next_state s a t h = ground arith

next_state_of_can_transition :
    (s t : VersionStatus) → can_transition s t ≡ true → next_state s (action_between s t) ≡ some t
unfolding next_state can_transition action_between
next_state_of_can_transition s t h = ground arith

-- `can_transition` allows a change of status exactly when some action of the installed workflow
-- makes it.
pub can_transition-iff-next_state :
    (s t : VersionStatus) → (can_transition s t ≡ true) ↔ ((a : Action) × (next_state s a ≡ some t))
can_transition-iff-next_state s t = (
  λ h. (action_between s t, next_state_of_can_transition s t h),
  λ e. can_transition_of_next_state s e.0 t e.1,
)
