-- ===== src/Doctype/Counterparty.antt =====
-- doctype/counterparty/counterparty.py
use contract_management.Prelude.{String, not, if◌then◌else◌}
use contract_management.Prelude.Text.{strip, lower, truthy}
use contract_management.Site.{Counterparty}
use contract_management.Failure.{
  Result, ok, ◌>>◌, throw_if, counterparty_name_empty, contact_person_empty, email_empty,
}

abbrev stripped : String → String
stripped s = if truthy s then strip s else s

unfoldable pub normalize_fields : Counterparty → Counterparty
normalize_fields c = record c {
  counterparty_name = stripped c.counterparty_name;
  contact_person = stripped c.contact_person;
  email = if truthy c.email then lower (strip c.email) else c.email;
  address = stripped c.address;
}

unfoldable pub validate_required_fields : Counterparty → Result (Unit {0})
validate_required_fields c = do
  throw_if (not (truthy c.counterparty_name)) counterparty_name_empty
  throw_if (not (truthy c.contact_person)) contact_person_empty
  throw_if (not (truthy c.email)) email_empty

unfoldable pub validate : Counterparty → Result Counterparty
validate given = do let c = normalize_fields given; validate_required_fields c; ok c
