-- ===== src/Doctype/Contract/Acceptance.antt =====
-- When the controller of a Contract accepts a document.
use contract_management.Prelude.{◌≡◌, ◌↔◌, [], true, false, not, arith, string_eq}
use contract_management.Prelude.Text.{truthy}
use contract_management.Failure.{
  ok, ◌>>◌, throw_if, duplicate_collaborator, throw_if->>=_iff, unit->>=_iff, title_empty,
  effective_after_expiration,
}
use contract_management.Distinct.{Distinct, check_distinct, check_distinct-iff-Distinct}
use contract_management.Site.{Contract}
use contract_management.Doctype.Contract

abbrev pub IsWellFormed : Contract → Type 0
IsWellFormed c =
    (truthy c.contract_title ≡ true)
    × (Contract.is_later c.effective_date c.expiration_date ≡ false)
    × Distinct (Contract.collaborating_users c.collaborators)

-- `Contract.validate` accepts a document, and answers it with its title stripped, exactly when the
-- stripped title is not empty, the effective date is not after the expiration date, and no user
-- stands in two rows of the collaborators.
pub validate-accepts_contract_iff :
    (c : Contract)
    → (Contract.validate c ≡ ok (Contract.normalize_fields c))
      ↔ IsWellFormed (Contract.normalize_fields c)
unfolding Contract.validate Contract.validate_required_fields Contract.validate_dates
    Contract.validate_unique_collaborators
validate-accepts_contract_iff c =
    let d = Contract.normalize_fields c in
    let distinct =
      check_distinct duplicate_collaborator [] (Contract.collaborating_users d.collaborators) in
    ground (
      arith,
      throw_if->>=_iff (not (truthy d.contract_title)) title_empty
          (throw_if (Contract.is_later d.effective_date d.expiration_date)
              effective_after_expiration
            >> (distinct >> ok d))
          d,
      throw_if->>=_iff (Contract.is_later d.effective_date d.expiration_date)
          effective_after_expiration (distinct >> ok d) d,
      unit->>=_iff distinct (ok d) d,
      check_distinct-iff-Distinct duplicate_collaborator
          (Contract.collaborating_users d.collaborators),
    )
