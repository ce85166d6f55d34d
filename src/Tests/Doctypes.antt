-- ===== src/Tests/Doctypes.antt =====
-- The theorems on the controllers, at one contract with one version.
use contract_management.Prelude.{
  Bool, if◌then◌else◌, sym, ◌∙◌, str_eq, eq_iff, ◌≡◌, ◌↔◌, refl, true, false, some, none, String,
  [], ◌∷◌,
}
use contract_management.Prelude.Int.{pos}
use contract_management.Prelude.Lists
use contract_management.Prelude.Table
use contract_management.Failure.{ok}
use contract_management.Exec.{state_of}
use contract_management.Workflow.{VersionStatus, SignatureRequestStatus}
use contract_management.Site.{ContractVersion, Site, find_version}
use contract_management.Doctype.Contract
use contract_management.Doctype.Contract.Acceptance.{IsWellFormed, validate-accepts_contract_iff}
use contract_management.Doctype.ContractVersion
use contract_management.Doctype.ContractVersion.Current.{OneCurrent, save-OneCurrent}
use contract_management.Doctype.ContractVersion.Numbers.{OneNumber, save-OneNumber}
use contract_management.Doctype.SignatureRequest
use contract_management.Doctype.SignatureRequest.Acceptance as Accepted
use contract_management.Service.Contract as ContractService
use contract_management.Service.Contract.NextNumber.{get_initial_version_values-IsUnique}
use contract_management.Tests.Sample.{sample, site_with, version, lease, signature_request}

abbrev shop : Site
shop = site_with VersionStatus.under_review [] SignatureRequestStatus.draft

-- A second version, to be saved as the current one.
abbrev second : ContractVersion
second = record (version VersionStatus.draft) { name = "V2"; version_number = some (pos 2) }

-- The table has one row, and any row that is found is that one.
only : (j : String) (v : ContractVersion) → find_version j shop.versions ≡ some v → "V1" ≡ j
unfolding Table.find
only j v h = go (str_eq "V1" j) refl h
  where
    go :
        (b : Bool)
        → str_eq "V1" j ≡ b
        → (if b then some (version VersionStatus.under_review) else none) ≡ some v
        → "V1" ≡ j
    go true e k = (eq_iff "V1" j).0 e
    go false e k = cc

shop-OneCurrent : OneCurrent "C1" shop.versions
shop-OneCurrent j k v w hv hw _ _ _ _ = sym (only j v hv) ∙ only k w hw

shop-OneNumber : OneNumber "C1" shop.versions
shop-OneNumber j k v w n hv hw _ _ _ _ = sym (only j v hv) ∙ only k w hw

save-OneCurrent_example :
    OneCurrent "C1" (state_of (ContractVersion.save sample false second shop)).versions
save-OneCurrent_example = save-OneCurrent sample false second shop "C1" shop-OneCurrent

save-OneNumber_example :
    OneNumber "C1" (state_of (ContractVersion.save sample false second shop)).versions
save-OneNumber_example = save-OneNumber sample false second shop "C1" shop-OneNumber

-- The save of the second version returns, and takes the flag from the first.
saved_second : state_of (ContractVersion.save sample false second shop) ≡ record shop {
  versions = record (version VersionStatus.under_review) { is_current = false } ∷ second ∷ [];
}
unfolding ContractVersion.save ContractVersion.validate ContractVersion.normalize_fields
    ContractVersion.validate_required_fields ContractVersion.validate_unique_version_number
    ContractVersion.validate_status_consistency ContractVersion.validate_current_version_exists
    Table.find Table.put
saved_second = refl

validate-accepts_iff_example :
    (SignatureRequest.validate "2026-01-02" [] (signature_request SignatureRequestStatus.draft)
      ≡ ok (
          SignatureRequest.update_recipient_signed_on "2026-01-02"
            (Accepted.completed "2026-01-02" (signature_request SignatureRequestStatus.draft))))
    ↔ Accepted.IsWellFormed [] (signature_request SignatureRequestStatus.draft)
validate-accepts_iff_example =
    Accepted.validate-accepts_iff "2026-01-02" [] (signature_request SignatureRequestStatus.draft)

validate-accepts_contract_iff_example :
    (Contract.validate lease ≡ ok (Contract.normalize_fields lease))
    ↔ IsWellFormed (Contract.normalize_fields lease)
validate-accepts_contract_iff_example = validate-accepts_contract_iff lease

abbrev prefill : ContractService.InitialValues
prefill = record {
  contract = "C1";
  version_number = pos 2;
  status = VersionStatus.draft;
  is_current = true;
}

prefilled : ContractService.get_initial_version_values shop lease ≡ ok prefill
unfolding ContractService.get_initial_version_values Lists.filter
prefilled = refl

get_initial_version_values-IsUnique_example :
    ContractVersion.validate_unique_version_number shop.versions second ≡ ok tt
get_initial_version_values-IsUnique_example =
    get_initial_version_values-IsUnique shop lease prefill second prefilled refl refl
