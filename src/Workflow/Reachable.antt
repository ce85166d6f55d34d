-- ===== src/Workflow/Reachable.antt =====
-- What the transition map lets the status of a Contract Version become over time.
use contract_management.Prelude.{◌≡◌, ◌≢◌, refl, true, arith}
use contract_management.Workflow.{VersionStatus, can_transition}

-- The status goes from one value to the other by allowed changes, and `P` holds at each of them.
pub data Run (P : VersionStatus → Type 0) (s : VersionStatus) : VersionStatus → Type 0 where
  here : P s → Run P s s
  step : {t u : VersionStatus} → Run P s t → can_transition t u ≡ true → P u → Run P s u

abbrev pub AnyStatus : VersionStatus → Type 0
AnyStatus _ = Unit

-- The statuses of a version that nobody has approved yet.
pub data Unapproved : VersionStatus → Type 0 where
  draft : Unapproved VersionStatus.draft
  under_review : Unapproved VersionStatus.under_review
  rejected : Unapproved VersionStatus.rejected

pub leave-Unapproved :
    {t : VersionStatus} (u : VersionStatus)
    → Unapproved t
    → can_transition t u ≡ true
    → u ≢ VersionStatus.approved
    → Unapproved u
unfolding can_transition
leave-Unapproved u draft h ne = grind (arith, Unapproved.draft, Unapproved.under_review)
leave-Unapproved u under_review h ne = grind (arith, Unapproved.rejected)
leave-Unapproved u rejected h ne = grind (arith, Unapproved.draft)

run-Unapproved :
    {t : VersionStatus} → Run (λ s. s ≢ VersionStatus.approved) VersionStatus.draft t → Unapproved t
run-Unapproved (here _) = Unapproved.draft
run-Unapproved (step {u = u} r h ne) = leave-Unapproved u (run-Unapproved r) h ne

executed_final :
    {t : VersionStatus} → Run AnyStatus VersionStatus.executed t → t ≡ VersionStatus.executed
unfolding can_transition
executed_final (here _) = refl
executed_final (step r h _) = ground (arith, executed_final r)

superseded_final :
    {t : VersionStatus} → Run AnyStatus VersionStatus.superseded t → t ≡ VersionStatus.superseded
unfolding can_transition
superseded_final (here _) = refl
superseded_final (step r h _) = ground (arith, superseded_final r)

not_Unapproved_executed : ¬ Unapproved VersionStatus.executed
not_Unapproved_executed h = elim h [ ]

Run-last : {P : VersionStatus → Type 0} {s t : VersionStatus} → Run P s t → P t
Run-last (here p) = p
Run-last (step r h p) = p

before_signing :
    {t : VersionStatus}
    → Run (λ s. s ≢ VersionStatus.signature_requested) VersionStatus.draft t
    → t ≢ VersionStatus.executed
unfolding can_transition
before_signing (here _) = λ e. cc
before_signing (step r h _) = λ e. ground (arith, before_signing r, Run-last r)

-- By allowed changes a draft becomes Executed only through Approved and only through Signature
-- Requested, and neither Executed nor Superseded is ever left.
pub lifecycle_order :
    (¬ Run (λ s. s ≢ VersionStatus.approved) VersionStatus.draft VersionStatus.executed)
    × (¬ Run
        (λ s. s ≢ VersionStatus.signature_requested)
        VersionStatus.draft
        VersionStatus.executed)
    × ((t : VersionStatus) → Run AnyStatus VersionStatus.executed t → t ≡ VersionStatus.executed)
    × ((t : VersionStatus)
        → Run AnyStatus VersionStatus.superseded t
        → t ≡ VersionStatus.superseded)
lifecycle_order = (
  λ r. not_Unapproved_executed (run-Unapproved r),
  λ r. before_signing r refl,
  λ t r. executed_final r,
  λ t r. superseded_final r,
)
