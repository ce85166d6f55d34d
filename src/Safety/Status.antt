-- ===== src/Safety/Status.antt =====
-- The status of one Contract Version under the writes of its table.
use mathlib.Core.Option
use contract_management.Prelude.{
  ◌≡◌, refl, String, Bool, Option, none, some, List, arith, str_eq, if◌then◌else◌, inl, inr,
  Bool-cases,
}
use contract_management.Prelude.Table
use contract_management.Failure.{ok}
use contract_management.Workflow.{VersionStatus}
use contract_management.Site.{ContractVersion, Site, find_version}
use contract_management.Platform.{Platform}
use contract_management.Doctype.ContractVersion
use contract_management.Service.Signature.Executed

-- The status in the row with a name, if there is one.
abbrev pub status_at : String → List ContractVersion → Option VersionStatus
status_at n rows = Option.map (λ v. v.status) (find_version n rows)

demote-name : (v r : ContractVersion) → (ContractVersion.demote v r).name ≡ r.name
unfolding ContractVersion.demote
demote-name v r = ground arith

module _ (n : String) where
  demote-status :
      (v : ContractVersion) (o : Option ContractVersion)
      → Option.map (λ r. r.status) (Option.map (ContractVersion.demote v) o)
        ≡ Option.map (λ r. r.status) o
  unfolding ContractVersion.demote
  demote-status v none = refl
  demote-status v (some r) = ground arith

  status_at-before_save :
      (v : ContractVersion) (rows : List ContractVersion)
      → status_at n (ContractVersion.before_save v rows) ≡ status_at n rows
  unfolding ContractVersion.before_save ContractVersion.set_as_current_version
  status_at-before_save v rows = elim (Bool-cases v.is_current) [
    | inl current ↦ rw current (
        rw (Table.find-map (λ r. r.name) (ContractVersion.demote v) (demote-name v) n rows)
          (demote-status v (find_version n rows)))
    | inr old ↦ rw old
  ]

  pub status_at-write :
      (v : ContractVersion) (rows : List ContractVersion)
      → status_at n (ContractVersion.write v rows)
        ≡ (if str_eq v.name n then some v.status else status_at n rows)
  unfolding ContractVersion.write
  status_at-write v rows = elim (Bool-cases (str_eq v.name n)) [
    | inl same ↦ rw (Table.find-put, same)
    | inr other ↦ rw (Table.find-put, other) (status_at-before_save v rows)
  ]

  with_document-status :
      (url : String) (o : Option ContractVersion)
      → Option.map (λ r. r.status) (Option.map (Executed.with_executed_document url) o)
        ≡ Option.map (λ r. r.status) o
  with_document-status url none = refl
  with_document-status url (some r) = refl

  pub status_at-set_document :
      (k url : String) (rows : List ContractVersion)
      → status_at n (Table.modify (λ v. v.name) k (Executed.with_executed_document url) rows)
        ≡ status_at n rows
  status_at-set_document k url rows =
      rw
        (Table.find-modify (λ r. r.name) (Executed.with_executed_document url) (λ r. refl) k n rows)
        (elim (Bool-cases (str_eq k n)) [
          | inl same ↦ rw same (with_document-status url (find_version n rows))
          | inr other ↦ rw other
        ])

-- The controller changes neither the name nor the status of a version that it accepts.
pub accept-same :
    (p : Platform) (ignore : Bool) (site : Site) (v saved : ContractVersion)
    → ContractVersion.accept p ignore site v ≡ ok saved
    → (saved.name ≡ v.name) × (saved.status ≡ v.status)
unfolding ContractVersion.accept ContractVersion.validate ContractVersion.normalize_fields
accept-same p ignore site v saved h = ground arith
