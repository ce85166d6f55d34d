-- ===== src/Doctype/ContractVersion.antt =====
-- doctype/contract_version/contract_version.py, and a save of a Contract Version.
pub mod Current
pub mod Numbers
use contract_management.Prelude.{
  ◌≡◌, Bool, true, false, not, ◌&&◌, String, Option, none, some, List, map, arith, if◌then◌else◌,
  Eq, ◌==◌, string_eq,
}
use contract_management.Prelude.Int.{ℤ, pos, leb_ℤ, ℤ_eq}
use contract_management.Prelude.Lists.{any}
use contract_management.Prelude.Table
use contract_management.Prelude.Text.{strip, truthy}
use contract_management.Failure.{
  Error, Result, ok, err, ◌>>=◌, ◌>>◌, throw_if, check, contract_required, version_number_required,
  version_number_not_positive, status_required, version_number_exists, current_superseded,
  no_current_version_left,
}
use contract_management.Exec.{Outcome, returned, raised}
use contract_management.Workflow.{VersionStatus, version_status_eq}
use contract_management.Site.{ContractVersion, Site, M, find_version}
use contract_management.Platform.{Platform}

unfoldable pub normalize_fields : ContractVersion → ContractVersion
normalize_fields v = if truthy v.notes then record v { notes = strip v.notes } else v

-- self.version_number is None
abbrev pub is_none : Option ℤ → Bool
is_none none = true
is_none (some n) = false

-- self.version_number <= 0
abbrev pub not_positive : Option ℤ → Bool
not_positive none = false
not_positive (some n) = leb_ℤ n (pos 0)

unfoldable pub validate_required_fields : ContractVersion → Result (Unit {0})
validate_required_fields v = do
  throw_if (not (truthy v.contract)) contract_required
  throw_if (is_none v.version_number) version_number_required
  throw_if (not_positive v.version_number) version_number_not_positive
  throw_if (v.status == VersionStatus.unset) status_required

-- A column against a value, in SQL.
abbrev pub sql_eq : Option ℤ → Option ℤ → Bool
sql_eq (some a) (some b) = a == b
sql_eq (some a) none = false
sql_eq none b = false

-- Another row of the contract has the version number.
unfoldable pub same_number : ContractVersion → ContractVersion → Bool
same_number v r =
    (r.contract == v.contract)
    && (sql_eq r.version_number v.version_number && not (r.name == v.name))

unfoldable pub validate_unique_version_number :
    List ContractVersion → ContractVersion → Result (Unit {0})
unfolding any same_number
validate_unique_version_number rows v = throw_if (any (same_number v) rows) version_number_exists

unfoldable pub validate_status_consistency : ContractVersion → Result (Unit {0})
validate_status_consistency v =
    throw_if (v.is_current && v.status == VersionStatus.superseded) current_superseded

-- Another row of the contract is marked current.
unfoldable pub other_current : ContractVersion → ContractVersion → Bool
other_current v r = (r.contract == v.contract) && (r.is_current && not (r.name == v.name))

abbrev pub was_current : Option ContractVersion → Bool
was_current none = false
was_current (some previous) = previous.is_current

unfoldable pub validate_current_version_exists :
    List ContractVersion → Option ContractVersion → ContractVersion → Result (Unit {0})
unfolding any other_current
validate_current_version_exists rows previous v =
    throw_if (not v.is_current && (was_current previous && not (any (other_current v) rows)))
      no_current_version_left

-- `ContractVersion.validate`, with the rows of the table and the row that the document had.
unfoldable pub validate :
    List ContractVersion → Option ContractVersion → ContractVersion → Result ContractVersion
validate rows previous given = do
  let v = normalize_fields given
  validate_required_fields v
  validate_unique_version_number rows v
  validate_status_consistency v
  validate_current_version_exists rows previous v
  ok v

-- The flag is taken from a row that the query selects.
unfoldable pub demote : ContractVersion → ContractVersion → ContractVersion
unfolding other_current
demote v r = if other_current v r then record r { is_current = false } else r

-- The flag is taken from every other current row of the contract.
unfoldable pub set_as_current_version :
    ContractVersion → List ContractVersion → List ContractVersion
unfolding demote
set_as_current_version v rows = map (demote v) rows

unfoldable pub before_save : ContractVersion → List ContractVersion → List ContractVersion
unfolding set_as_current_version
before_save v rows = if v.is_current then set_as_current_version v rows else rows

-- The checks of a save: the framework's, then the controller's.
unfoldable pub accept : Platform → Bool → Site → ContractVersion → Result ContractVersion
accept p ignore site v = do
  check (p.check_version site.user ignore (find_version v.name site.versions) v)
  validate site.versions (find_version v.name site.versions) v

-- The tables after the row of an accepted document is written.
unfoldable pub write : ContractVersion → List ContractVersion → List ContractVersion
unfolding before_save
write v rows = Table.put (λ r. r.name) v (before_save v rows)

-- The rows are written if the checks have passed.
unfoldable pub store : Site → Result ContractVersion → Outcome Site ContractVersion
unfolding write
store site (ok saved) = returned saved (record site { versions = write saved site.versions })
store site (err e) = raised e site

-- version.save(ignore_permissions=ignore)
unfoldable pub save : Platform → Bool → ContractVersion → M ContractVersion
unfolding accept store
save p ignore v site = store site (accept p ignore site v)
