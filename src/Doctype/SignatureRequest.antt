-- ===== src/Doctype/SignatureRequest.antt =====
-- doctype/signature_request/signature_request.py, with a save and an insertion of a Signature
-- Request. The table is read as it stands before the save.
pub mod Acceptance
use contract_management.Prelude.{
  ℕ, suc, ◌≡◌, ◌↔◌, Bool, true, false, not, ◌&&◌, ◌||◌, String, Option, none, some, List, [], ◌∷◌,
  map, arith, ltb, if◌then◌else◌, Eq, ◌==◌, string_eq,
}
use contract_management.Prelude.Int.{ℤ, ℤ_eq, eq_ℤ}
use contract_management.Prelude.Sort.{sorted, range}
use contract_management.Prelude.Lists.{any, contains, length}
use contract_management.Prelude.Table
use contract_management.Prelude.Text.{strip, lower, truthy}
use contract_management.Failure.{
  Error, Result, ok, err, attribute_error, ◌>>=◌, ◌>>◌, throw_if, check, contract_version_required,
  requested_by_required, status_required, active_request_exists, duplicate_signer_email,
  duplicate_signing_order, signing_order_not_sequential, type_error,
}
use contract_management.Exec.{Outcome, returned, raised}
use contract_management.Distinct.{check_distinct}
use contract_management.Workflow.{
  SignatureRequestStatus, SignatureRecipientStatus, request_status_eq, recipient_status_eq,
}
use contract_management.Site.{SignatureRequest, SignatureRecipient, Site, M, find_request}
use contract_management.Platform.{Platform}

unfoldable pub normalize_fields : SignatureRequest → SignatureRequest
normalize_fields r = record r {
  envelope_id = if truthy r.envelope_id then strip r.envelope_id else r.envelope_id;
  signing_url = if truthy r.signing_url then strip r.signing_url else r.signing_url;
}

unfoldable pub validate_required_fields : SignatureRequest → Result (Unit {0})
validate_required_fields r = do
  throw_if (not (truthy r.contract_version)) contract_version_required
  throw_if (not (truthy r.requested_by)) requested_by_required
  throw_if (r.status == SignatureRequestStatus.unset) status_required

unfoldable pub set_requested_on : String → SignatureRequest → SignatureRequest
set_requested_on now r = if truthy r.requested_on then r else record r { requested_on = now }

unfoldable pub set_completed_on : String → SignatureRequest → SignatureRequest
set_completed_on now r =
    if r.status == SignatureRequestStatus.completed
    then if truthy r.completed_on then r else record r { completed_on = now }
    else record r { completed_on = "" }

-- status in active_statuses
unfoldable pub is_active : SignatureRequestStatus → Bool
is_active SignatureRequestStatus.draft = true
is_active SignatureRequestStatus.pending = true
is_active SignatureRequestStatus.sent = true
is_active SignatureRequestStatus.viewed = true
is_active _ = false

-- Another row is an active request for the same version.
unfoldable pub same_active : SignatureRequest → SignatureRequest → Bool
unfolding is_active
same_active r s =
    (s.contract_version == r.contract_version) && (is_active s.status && not (s.name == r.name))

unfoldable pub validate_duplicate_active_request :
    List SignatureRequest → SignatureRequest → Result (Unit {0})
unfolding same_active any
validate_duplicate_active_request rows r =
    throw_if (is_active r.status && any (same_active r) rows) active_request_exists

-- The address that the loop compares.
abbrev pub normal_email : String → String
normal_email email = lower (strip email)

-- The loop, with the addresses seen so far: None has no method "strip".
unfoldable pub check_emails : List String → List SignatureRecipient → Result (Unit {0})
check_emails seen [] = ok tt
check_emails seen (s ∷ rows) = elim s.email [
  | none ↦ err attribute_error
  | some email ↦
      let rest = check_emails (normal_email email ∷ seen) rows in
      if contains seen (normal_email email) then err duplicate_signer_email else rest
]

unfoldable pub validate_unique_signer_emails : SignatureRequest → Result (Unit {0})
unfolding check_emails
validate_unique_signer_emails r = check_emails [] r.signature_recipients

abbrev pub order_eq : Option ℤ → Option ℤ → Bool
order_eq (some a) (some b) = eq_ℤ a b
order_eq (some a) none = false
order_eq none (some b) = false
order_eq none none = true

pub order_eq_iff : (a b : Option ℤ) → (order_eq a b ≡ true) ↔ (a ≡ b)
order_eq_iff none none = ground arith
order_eq_iff none (some b) = ground arith
order_eq_iff (some a) none = ground arith
order_eq_iff (some a) (some b) = ground (arith, ℤ_eq.beq_iff a b)

instance abbrev pub signing_order_eq : Eq (Option ℤ)
signing_order_eq = record { beq = order_eq; beq_iff = order_eq_iff }

unfoldable pub validate_unique_signing_order : SignatureRequest → Result (Unit {0})
validate_unique_signing_order r =
    check_distinct duplicate_signing_order [] (map (λ s. s.signing_order) r.signature_recipients)

-- The orders, if every row has one: `sorted` cannot compare None with a number.
unfoldable pub known_orders : List SignatureRecipient → Option (List ℤ)
known_orders [] = some []
known_orders (s ∷ rows) = elim s.signing_order [
  | none ↦ none
  | some n ↦ elim (known_orders rows) [ none ↦ none | some ns ↦ some (n ∷ ns) ]
]

abbrev pub orders_eq : List ℤ → List ℤ → Bool
orders_eq [] [] = true
orders_eq [] (b ∷ ys) = false
orders_eq (a ∷ xs) [] = false
orders_eq (a ∷ xs) (b ∷ ys) = eq_ℤ a b && orders_eq xs ys

unfoldable pub check_sequence : List SignatureRecipient → Option (List ℤ) → Result (Unit {0})
check_sequence rows (some orders) =
    throw_if (not (orders_eq (sorted orders) (range 1 (length orders))))
      signing_order_not_sequential
check_sequence rows none =
    err (if ltb 1 (length rows) then type_error else signing_order_not_sequential)

unfoldable pub validate_signing_order_sequence : SignatureRequest → Result (Unit {0})
unfolding known_orders check_sequence
validate_signing_order_sequence r =
    check_sequence r.signature_recipients (known_orders r.signature_recipients)

unfoldable pub recipient_signed_on : String → SignatureRecipient → SignatureRecipient
recipient_signed_on now s =
    if s.status == SignatureRecipientStatus.signed
    then if truthy s.signed_on then s else record s { signed_on = now }
    else record s { signed_on = "" }

unfoldable pub update_recipient_signed_on : String → SignatureRequest → SignatureRequest
unfolding recipient_signed_on
update_recipient_signed_on now r = record r {
  signature_recipients = map (recipient_signed_on now) r.signature_recipients;
}

-- `SignatureRequest.validate`, with the rows of the table.
unfoldable pub validate :
    String → List SignatureRequest → SignatureRequest → Result SignatureRequest
validate now rows given = do
  let r = normalize_fields given
  validate_required_fields r
  let dated = set_completed_on now (set_requested_on now r)
  validate_duplicate_active_request rows dated
  validate_unique_signer_emails dated
  validate_unique_signing_order dated
  validate_signing_order_sequence dated
  ok (update_recipient_signed_on now dated)

-- The checks of a save: the framework's, then the controller's.
unfoldable pub accept :
    Platform → Bool → Site → Option SignatureRequest → SignatureRequest → Result SignatureRequest
accept p ignore site before r = do
  check (p.check_request site.user ignore before r)
  validate site.now site.requests r

-- The row is written if the checks have passed.
unfoldable pub store : Site → Result SignatureRequest → Outcome Site SignatureRequest
store site (ok saved) =
    returned saved (record site { requests = Table.put (λ r. r.name) saved site.requests })
store site (err e) = raised e site

-- signature_request.save(ignore_permissions=ignore)
unfoldable pub save : Platform → Bool → SignatureRequest → M SignatureRequest
unfolding store
save p ignore r site = store site (accept p ignore site (find_request r.name site.requests) r)

-- signature_request.insert(): the naming series gives the new document its name.
unfoldable pub insert : Platform → SignatureRequest → M SignatureRequest
unfolding store
insert p r site =
    let named = record r { name = p.new_name (map (λ s. s.name) site.requests) } in
    store site (accept p false site none named)
