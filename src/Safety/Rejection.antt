-- ===== src/Safety/Rejection.antt =====
-- A version with a rejected approval on record.

use contract_management.Prelude.{
  ◌≡◌, ◌≢◌, refl, inl, inr, String, Bool, true, false, Option, none, some, List, [], ◌∷◌, map,
  arith, ◌==◌, string_eq, str_eq, eq_iff, Bool-cases, if◌then◌else◌,
}
use mathlib.Core.Option
use contract_management.Prelude.Lists.{contains, all, filter}
use contract_management.Prelude.Table
use contract_management.Workflow.{ApprovalStatus, VersionStatus, approval_status_eq, can_transition}
use contract_management.Workflow.Reachable.{
  Unapproved, draft, under_review, rejected, leave-Unapproved,
}
use contract_management.Site.{Approval, Site, find_approval}
use contract_management.Platform.{Platform, FollowsFixture, NamesAreFresh}
use contract_management.Service.Approval
use contract_management.Safety.Status.{status_at}
use contract_management.Safety.Rules.{Admits, Justified}
use contract_management.Safety.History.{Reach, Reach-Keeps}

-- The approvals of the version hold one that was rejected.
abbrev pub HasRejected : String → List Approval → Type 0
HasRejected n rows =
    (k : String) × (a : Approval) × (find_approval k rows ≡ some a)
    × (a.status ≡ ApprovalStatus.rejected)
    × (a.contract_version ≡ n)

abbrev pub IsUnapproved : Option VersionStatus → Type 0
IsUnapproved none = Unit
IsUnapproved (some s) = Unapproved s

all_approved :
    (n k : String) (rows : List Approval) (a : Approval)
    → all (λ t. t == ApprovalStatus.approved) (Approval.statuses_for n rows) ≡ true
    → find_approval k rows ≡ some a
    → a.contract_version ≡ n
    → a.status ≡ ApprovalStatus.approved
unfolding all Approval.statuses_for Table.find filter
all_approved n k [] a h e v = ground arith
all_approved n k (b ∷ rows) a h e v =
    ground (arith, all_approved n k rows a, eq_iff b.contract_version n)

all_of_check :
    (n : String) (rows : List Approval)
    → Approval.check_all_approved n rows ≡ true
    → all (λ t. t == ApprovalStatus.approved) (Approval.statuses_for n rows) ≡ true
unfolding Approval.check_all_approved
all_of_check n rows h = go (Approval.statuses_for n rows) h
  where
    go :
        (ss : List ApprovalStatus)
        → Approval.all_are_approved ss ≡ true
        → all (λ t. t == ApprovalStatus.approved) ss ≡ true
    go [] h = cc
    go (s ∷ ss) h = h

-- `_check_all_approved` answers true only if every approval of the version is Approved.
pub check_all_approved-status :
    (n k : String) (rows : List Approval) (a : Approval)
    → Approval.check_all_approved n rows ≡ true
    → find_approval k rows ≡ some a
    → a.contract_version ≡ n
    → a.status ≡ ApprovalStatus.approved
check_all_approved-status n k rows a h e v = all_approved n k rows a (all_of_check n rows h) e v

abbrev Blocked : String → Option VersionStatus → List Approval → Type 0
Blocked n o rows = IsUnapproved o × HasRejected n rows

Unapproved-ne : {s : VersionStatus} → Unapproved s → s ≢ VersionStatus.signature_requested
Unapproved-ne draft e = cc
Unapproved-ne under_review e = cc
Unapproved-ne rejected e = cc

move-Blocked :
    (n : String) (s t : VersionStatus) (rows : List Approval)
    → can_transition s t ≡ true
    → Justified n s t rows
    → Blocked n (some s) rows
    → Blocked n (some t) rows
move-Blocked n s t rows allowed just (low, (k, a, e, rej, v)) = (
  leave-Unapproved t low allowed λ approving. elim (just approving) [
    | inl signing ↦ Unapproved-ne low signing
    | inr ready ↦ cc (check_all_approved-status n k rows a ready e v)
  ],
  (k, a, e, rej, v),
)

decide-HasRejected :
    (n j now : String) (rows : List Approval) (status : ApprovalStatus) (b : Approval)
    → find_approval j rows ≡ some b
    → b.status ≡ ApprovalStatus.pending
    → HasRejected n rows
    → HasRejected n (Table.modify (λ r. r.name) j (Approval.decide status now) rows)
decide-HasRejected n j now rows status b found pending (k, a, e, rej, v) =
    elim (Bool-cases (str_eq j k)) [
      | inl same ↦ absurd (clash ((eq_iff j k).0 same))
      | inr other ↦ (
        k,
        a,
        rw
            (
              Table.find-modify (λ r. r.name) (Approval.decide status now) (λ r. refl) j k rows,
              other,
            )
            e,
        rej,
        v,
      )
    ]
  where
    clash : j ≡ k → ⊥
    clash same = let e' : find_approval j rows ≡ some a = rw same e in cc

remark-HasRejected :
    (n j remarks : String) (rows : List Approval)
    → HasRejected n rows
    → HasRejected n (Table.modify (λ r. r.name) j (λ r. record r { remarks = remarks }) rows)
remark-HasRejected n j remarks rows (k, a, e, rej, v) = go (str_eq j k) refl
  where
    remarked : Approval → Approval
    remarked r = record r { remarks = remarks }

    written :
        find_approval k (Table.modify (λ r. r.name) j remarked rows)
        ≡ (if str_eq j k then Option.map remarked (find_approval k rows) else find_approval k rows)
    written = Table.find-modify (λ r. r.name) remarked (λ r. refl) j k rows

    go : (b : Bool) → str_eq j k ≡ b → HasRejected n (Table.modify (λ r. r.name) j remarked rows)
    go true same = (k, remarked a, rw (written, same, e) refl, rej, v)
    go false other = (k, a, rw (written, other) e, rej, v)

add-HasRejected :
    (n : String) (rows : List Approval) (b : Approval)
    → contains (map (λ r. r.name) rows) b.name ≡ false
    → HasRejected n rows
    → HasRejected n (Table.put (λ r. r.name) b rows)
add-HasRejected n rows b fresh (k, a, e, rej, v) = elim (Bool-cases (str_eq b.name k)) [
  | inl same ↦ absurd (clash ((eq_iff b.name k).0 same))
  | inr other ↦ (k, a, rw (Table.find-put (λ r. r.name) b k rows, other) e, rej, v)
]
  where
    clash : b.name ≡ k → ⊥
    clash same =
        let taken = Table.contains-find (λ (r : Approval). r.name) k rows a e in
        let fresh' : contains (map (λ (r : Approval). r.name) rows) k ≡ false = rw (← same) fresh in
        cc

Blocked-Admits : (n : String) → Admits n (Blocked n)
Blocked-Admits n = record {
  move = λ s t rows. move-Blocked n s t rows;
  decide = λ o rows k now status a found pending h.
      (h.0, decide-HasRejected n k now rows status a found pending h.1);
  remark = λ o rows k remarks h. (h.0, remark-HasRejected n k remarks rows h.1);
  add = λ o rows a fresh h. (h.0, add-HasRejected n rows a fresh h.1);
}

-- Once an approval of a version is rejected, and the version is not Approved yet, no calls of the
-- service layer, the portal and the webhook ever make it Approved, if the engine follows the installed
-- workflow and new names are fresh: the rejected approval stays on record, and `_check_all_approved`
-- looks at all approvals of the version, those of earlier reviews included.
pub rejection_is_final :
    (p : Platform)
    → FollowsFixture p
    → NamesAreFresh p
    → (n : String) (before after : Site) → Reach p before after
    → HasRejected n before.approvals
    → IsUnapproved (status_at n before.versions)
    → HasRejected n after.approvals × IsUnapproved (status_at n after.versions)
rejection_is_final p follows names n before after reach rej low =
    let end = Reach-Keeps p follows names n (Blocked n) (Blocked-Admits n) reach (low, rej) in
    (end.1, end.0)
