-- ===== src/Doctype/Contract.antt =====
-- doctype/contract/contract.py, and a save of a Contract.
pub mod Acceptance
use contract_management.Prelude.{
  ℕ, ◌≡◌, Bool, true, false, not, ◌&&◌, String, Option, none, some, List, map, arith, ltb,
  if◌then◌else◌, string_eq,
}
use contract_management.Prelude.Lists.{filter}
use contract_management.Prelude.Table
use contract_management.Prelude.Text.{strip, truthy}
use contract_management.Failure.{
  Error, Result, ok, err, ◌>>=◌, ◌>>◌, throw_if, title_empty, effective_after_expiration,
  duplicate_collaborator, check,
}
use contract_management.Exec.{Outcome, returned, raised}
use contract_management.Distinct.{check_distinct}
use contract_management.Site.{Contract, Collaborator, Site, M, find_contract}
use contract_management.Platform.{Platform}

unfoldable pub normalize_fields : Contract → Contract
normalize_fields c =
    if truthy c.contract_title then record c { contract_title = strip c.contract_title } else c

unfoldable pub validate_required_fields : Contract → Result (Unit {0})
validate_required_fields c = throw_if (not (truthy c.contract_title)) title_empty

-- Both dates are given, and the first is later than the second.
abbrev pub is_later : Option ℕ → Option ℕ → Bool
is_later (some effective) (some expiration) = ltb expiration effective
is_later (some effective) none = false
is_later none expiration = false

unfoldable pub validate_dates : Contract → Result (Unit {0})
validate_dates c = throw_if (is_later c.effective_date c.expiration_date) effective_after_expiration

-- The rows without a user are passed over.
abbrev pub collaborating_users : List Collaborator → List String
collaborating_users cs = filter truthy (map (λ c. c.user) cs)

unfoldable pub validate_unique_collaborators : Contract → Result (Unit {0})
validate_unique_collaborators c =
    check_distinct duplicate_collaborator List.[] (collaborating_users c.collaborators)

-- `Contract.validate`; the document comes back as the save goes on with it.
unfoldable pub validate : Contract → Result Contract
validate given = do
  let c = normalize_fields given
  validate_required_fields c
  validate_dates c
  validate_unique_collaborators c
  ok c

-- The checks of a save: the framework's, then the controller's.
unfoldable pub accept : Platform → Site → Contract → Result Contract
unfolding validate
accept p site c = do
  check (p.check_contract site.user false (find_contract c.name site.contracts) c)
  validate c

-- The row is written if the checks have passed.
unfoldable pub store : Site → Result Contract → Outcome Site Contract
store site (ok saved) =
    returned saved (record site { contracts = Table.put (λ r. r.name) saved site.contracts })
store site (err e) = raised e site

-- contract.save()
unfoldable pub save : Platform → Contract → M Contract
unfolding accept store
save p c site = store site (accept p site c)
