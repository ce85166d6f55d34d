-- ===== src/Service/Contract.antt =====
-- services/contract.py
pub mod NextNumber
use contract_management.Prelude.{
  Bool, true, not, String, Option, none, some, List, [], ◌∷◌, if◌then◌else◌, ◌==◌, string_eq,
  nat_eq,
}
use contract_management.Prelude.Int.{ℤ, pos, leb_ℤ, succ_ℤ}
use contract_management.Prelude.Lists.{filter}
use contract_management.Failure.{Result, ok, ◌>>◌, throw_if, contract_not_submitted}
use contract_management.Workflow.{VersionStatus}
use contract_management.Site.{Contract, ContractVersion, Site}

-- The larger of two column values; a missing one comes last.
abbrev pub larger : Option ℤ → Option ℤ → Option ℤ
larger none b = b
larger (some a) none = some a
larger (some a) (some b) = if leb_ℤ a b then some b else some a

-- The first version number in the order "version_number desc".
unfoldable pub latest_version : List ContractVersion → Option ℤ
latest_version [] = none
latest_version (v ∷ rows) = larger v.version_number (latest_version rows)

-- (latest_version or 0) + 1
abbrev pub after_latest : Option ℤ → ℤ
after_latest none = pos 1
after_latest (some n) = succ_ℤ n

-- `_get_next_version_number`
unfoldable pub get_next_version_number : String → List ContractVersion → ℤ
unfolding latest_version filter
get_next_version_number contract_name rows =
    after_latest (latest_version (filter (λ v. v.contract == contract_name) rows))

-- The values that prefill the form of a new version.
pub record InitialValues : Type 0 where
  pub contract : String
  pub version_number : ℤ
  pub status : VersionStatus
  pub is_current : Bool

-- `ContractService.get_initial_version_values`
unfoldable pub get_initial_version_values : Site → Contract → Result InitialValues
unfolding get_next_version_number
get_initial_version_values site contract = do
  throw_if (not (nat_eq contract.docstatus 1)) contract_not_submitted
  ok (record {
    contract = contract.name;
    version_number = get_next_version_number contract.name site.versions;
    status = VersionStatus.draft;
    is_current = true;
  })
