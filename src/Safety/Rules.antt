-- ===== src/Safety/Rules.antt =====
-- How the calls that write Contract Versions move the status of one of them. `R` is any property of
-- that status and the approvals which allowed moves keep, those to Approved being justified.
use contract_management.Prelude.{
  ◌≡◌, refl, sym, subst, ◌⊎◌, inl, inr, String, Bool, true, false, Option, none, some, List, map,
  string_eq, arith, str_eq, eq_iff, Bool-cases,
}
use contract_management.Prelude.Table
use contract_management.Failure.{Error, Result, ok, err}
use contract_management.Exec.{◌>>=◌, state_of, returned, or_raise}
use contract_management.Workflow.{ApprovalStatus, VersionStatus, can_transition}
use contract_management.Site.{ContractVersion, Approval, Site, find_version, find_approval}
use contract_management.Prelude.Lists.{contains}
use contract_management.Platform.{Platform}
use contract_management.Doctype.ContractVersion
use contract_management.Service.Notification.{get_version}
use contract_management.Service.Approval
use contract_management.Safety.Frame.{On}
use contract_management.Safety.Status.{status_at, status_at-write, accept-same}

-- A move to Approved is a return from Signature Requested, or all approvals are Approved.
abbrev pub Justified : String → VersionStatus → VersionStatus → List Approval → Type 0
Justified n s t rows =
    t ≡ VersionStatus.approved
    → (s ≡ VersionStatus.signature_requested) ⊎ (Approval.check_all_approved n rows ≡ true)

-- `R` survives every allowed and justified move of the version `n`, and what the approval service
-- writes.
pub record Admits (n : String) (R : Option VersionStatus → List Approval → Type 0) : Type 0 where
  pub move :
      (s t : VersionStatus) (rows : List Approval)
      → can_transition s t ≡ true
      → Justified n s t rows
      → R (some s) rows
      → R (some t) rows
  -- A pending approval is decided.
  pub decide :
      (o : Option VersionStatus) (rows : List Approval) (k now : String) (status : ApprovalStatus)
      (a : Approval)
      → find_approval k rows ≡ some a
      → a.status ≡ ApprovalStatus.pending
      → R o rows
      → R o (Table.modify (λ r. r.name) k (Approval.decide status now) rows)
  -- An approval gets remarks.
  pub remark :
      (o : Option VersionStatus) (rows : List Approval) (k remarks : String)
      → R o rows
      → R o (Table.modify (λ r. r.name) k (λ r. record r { remarks = remarks }) rows)
  -- A new approval is added.
  pub add :
      (o : Option VersionStatus) (rows : List Approval) (a : Approval)
      → contains (map (λ r. r.name) rows) a.name ≡ false
      → R o rows
      → R o (Table.put (λ r. r.name) a rows)

pub get_version-returned :
    (name : String) (site : Site) {v : ContractVersion} {after : Site}
    → get_version name site ≡ returned v after
    → (find_version name after.versions ≡ some v) × (after ≡ site) × (v.name ≡ name)
unfolding get_version ◌>>=◌
get_version-returned name site {v} {after} h = go (find_version name site.versions) refl h
  where
    go :
        (o : Option ContractVersion)
        → find_version name site.versions ≡ o
        → or_raise o Error.does_not_exist site ≡ returned v after
        → (find_version name after.versions ≡ some v) × (after ≡ site) × (v.name ≡ name)
    go none e k = cc
    go (some u) e k = ground (arith, Table.find-key (λ r. r.name) name site.versions u e)

module _ (n : String) (R : Option VersionStatus → List Approval → Type 0) where
  abbrev pub At : List ContractVersion → List Approval → Type 0
  At rows approvals = R (status_at n rows) approvals

  stored :
      (site : Site) (r : Result ContractVersion)
      → On At site
      → ((v : ContractVersion) → r ≡ ok v → v.name ≡ n → R (some v.status) site.approvals)
      → On At (state_of (ContractVersion.store site r))
  unfolding ContractVersion.store
  stored site (err e) h k = h
  stored site (ok v) h k = elim (Bool-cases (str_eq v.name n)) [
    | inl same ↦ rw (status_at-write, same) (k v refl ((eq_iff v.name n).0 same))
    | inr other ↦ rw (status_at-write, other) h
  ]

  -- A save keeps `R` if `R` holds of the status that it writes.
  pub save-At :
      (p : Platform) (ignore : Bool) (v : ContractVersion) (site : Site)
      → On At site
      → (v.name ≡ n → R (some v.status) site.approvals)
      → On At (state_of (ContractVersion.save p ignore v site))
  unfolding ContractVersion.save
  save-At p ignore v site h k =
      stored site (ContractVersion.accept p ignore site v) h λ saved accepted same.
        let kept = accept-same p ignore site v saved accepted in
        subst (λ s. R (some s) site.approvals) (sym kept.1) (k (rw (← kept.0) same))
