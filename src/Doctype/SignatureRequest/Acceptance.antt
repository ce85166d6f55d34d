-- ===== src/Doctype/SignatureRequest/Acceptance.antt =====
-- When the controller of a Signature Request accepts a document.
use mathlib.Core.List.{Perm}
use contract_management.Prelude.{
  string_eq, ◌≡◌, refl, ◌↔◌, Bool, true, false, not, ◌&&◌, String, Option, none, some, List, [],
  ◌∷◌, map, arith, ◌==◌, if◌then◌else◌,
}
use contract_management.Prelude.Int.{ℤ, eq_ℤ_iff}
use contract_management.Prelude.Sort.{sorted, range, sorted-eq-range_iff}
use contract_management.Prelude.Lists.{any, contains, length}
use contract_management.Prelude.Text.{truthy}
use contract_management.Failure.{
  Error, Result, ok, err, attribute_error, ◌>>=◌, ◌>>◌, throw_if, unit->>=_iff,
  duplicate_signer_email, duplicate_signing_order, active_request_exists,
  signing_order_not_sequential,
}
use contract_management.Distinct.{Distinct, check_distinct, check_distinct-iff-Distinct}
use contract_management.Workflow.{SignatureRequestStatus, request_status_eq}
use contract_management.Site.{SignatureRequest, SignatureRecipient}
use contract_management.Doctype.SignatureRequest
use contract_management.Doctype.SignatureRequest.{signing_order_eq}

pub orders_eq_iff : (xs ys : List ℤ) → (SignatureRequest.orders_eq xs ys ≡ true) ↔ (xs ≡ ys)
orders_eq_iff [] [] = ground arith
orders_eq_iff [] (b ∷ ys) = ground arith
orders_eq_iff (a ∷ xs) [] = ground arith
orders_eq_iff (a ∷ xs) (b ∷ ys) = ground (arith, orders_eq_iff xs ys, eq_ℤ_iff a b)

-- Every row has an order, and the orders are an arrangement of 1, …, n.
abbrev pub IsSequence : Option (List ℤ) → Type 0
IsSequence none = ⊥
IsSequence (some ns) = Perm ns (range 1 (length ns))

throw_if_iff : (b : Bool) (x : Error) → (throw_if b x ≡ ok tt) ↔ (b ≡ false)
throw_if_iff b x = ground arith

check_sequence_iff :
    (rows : List SignatureRecipient) (orders : Option (List ℤ))
    → (SignatureRequest.check_sequence rows orders ≡ ok tt) ↔ IsSequence orders
unfolding SignatureRequest.check_sequence
check_sequence_iff rows none = (λ h. cc, λ h. absurd h)
check_sequence_iff rows (some ns) =
    let (there, back) = sorted-eq-range_iff ns 1 (length ns) in
    let (eq_there, eq_back) = orders_eq_iff (sorted ns) (range 1 (length ns)) in
    (
      λ h. there (
          eq_there (
            ground (
              arith,
              throw_if_iff (not (SignatureRequest.orders_eq (sorted ns) (range 1 (length ns))))
                  signing_order_not_sequential,
            ))),
      λ h. rw (eq_back (back h)) refl,
    )

-- The addresses, if every row has one.
abbrev pub known_emails : List SignatureRecipient → Option (List String)
known_emails [] = some []
known_emails (s ∷ rows) = elim s.email [
  | none ↦ none
  | some email ↦ elim (known_emails rows) [ none ↦ none | some emails ↦ some (email ∷ emails) ]
]

-- Every row has an address, and no two are the same in lower case and without the spaces around
-- them.
abbrev pub AreDistinct : Option (List String) → Type 0
AreDistinct none = ⊥
AreDistinct (some emails) = Distinct (map SignatureRequest.normal_email emails)

abbrev ArePassed : List String → Option (List String) → Type 0
ArePassed seen none = ⊥
ArePassed seen (some emails) =
    check_distinct duplicate_signer_email seen (map SignatureRequest.normal_email emails) ≡ ok tt

-- One round of the loop, at a row with an address.
check_emails_step :
    (seen : List String) (e : String) (next : Result (Unit {0})) (emails : Option (List String))
    → (next ≡ ok tt) ↔ ArePassed (SignatureRequest.normal_email e ∷ seen) emails
    → ((if contains seen (SignatureRequest.normal_email e)
          then err duplicate_signer_email
          else next)
        ≡ ok tt)
      ↔ ArePassed seen (elim emails [ none ↦ none | some rest ↦ some (e ∷ rest) ])
unfolding check_distinct
check_emails_step seen e next none later = ground arith
check_emails_step seen e next (some rest) later = ground arith

-- The loop over the rows is the loop over the addresses, where every row has one.
check_emails-iff-ArePassed :
    (seen : List String) (rows : List SignatureRecipient)
    → (SignatureRequest.check_emails seen rows ≡ ok tt) ↔ ArePassed seen (known_emails rows)
unfolding SignatureRequest.check_emails check_distinct
check_emails-iff-ArePassed seen [] = (λ h. refl, λ h. refl)
check_emails-iff-ArePassed seen (s ∷ rows) =
    go s.email λ e. check_emails-iff-ArePassed (SignatureRequest.normal_email e ∷ seen) rows
  where
    go :
        (o : Option String)
        → ((e : String)
            → (SignatureRequest.check_emails (SignatureRequest.normal_email e ∷ seen) rows ≡ ok tt)
              ↔ ArePassed (SignatureRequest.normal_email e ∷ seen) (known_emails rows))
        → (elim o [
          | none ↦ err attribute_error
          | some email ↦
              if contains seen (SignatureRequest.normal_email email)
              then err duplicate_signer_email
              else SignatureRequest.check_emails (SignatureRequest.normal_email email ∷ seen) rows
        ]
            ≡ ok tt)
          ↔ ArePassed seen (elim o [
            | none ↦ none
            | some email ↦ elim (known_emails rows) [
              | none ↦ none
              | some emails ↦ some (email ∷ emails)
            ]
          ])
    go none later = (λ h. cc, λ h. absurd h)
    go (some e) later = check_emails_step seen e _ (known_emails rows) (later e)

emails_iff :
    (rows : List SignatureRecipient)
    → (SignatureRequest.check_emails [] rows ≡ ok tt) ↔ AreDistinct (known_emails rows)
emails_iff rows = go (known_emails rows) (check_emails-iff-ArePassed [] rows)
  where
    go :
        (o : Option (List String))
        → (SignatureRequest.check_emails [] rows ≡ ok tt) ↔ ArePassed [] o
        → (SignatureRequest.check_emails [] rows ≡ ok tt) ↔ AreDistinct o
    go none passed = passed
    go (some emails) passed =
        let (there, back) =
          check_distinct-iff-Distinct duplicate_signer_email
            (map SignatureRequest.normal_email emails) in
        (λ h. there (passed.0 h), λ h. passed.1 (back h))

-- The document with the fields that the controller sets.
abbrev pub completed : String → SignatureRequest → SignatureRequest
completed now r =
    SignatureRequest.set_completed_on now
      (SignatureRequest.set_requested_on now (SignatureRequest.normalize_fields r))

abbrev pub IsWellFormed : List SignatureRequest → SignatureRequest → Type 0
IsWellFormed rows r =
    (truthy r.contract_version ≡ true)
    × (truthy r.requested_by ≡ true)
    × ((r.status == SignatureRequestStatus.unset) ≡ false)
    × ((SignatureRequest.is_active r.status && any (SignatureRequest.same_active r) rows) ≡ false)
    × AreDistinct (known_emails r.signature_recipients)
    × Distinct (map (λ s. s.signing_order) r.signature_recipients)
    × IsSequence (SignatureRequest.known_orders r.signature_recipients)

required_iff :
    (r : SignatureRequest)
    → (SignatureRequest.validate_required_fields r ≡ ok tt) ↔ (
        (truthy r.contract_version ≡ true)
        × (truthy r.requested_by ≡ true)
        × ((r.status == SignatureRequestStatus.unset) ≡ false))
unfolding SignatureRequest.validate_required_fields
required_iff r = ground arith

normalize_required :
    (r : SignatureRequest)
    → SignatureRequest.validate_required_fields (SignatureRequest.normalize_fields r)
      ≡ SignatureRequest.validate_required_fields r
unfolding SignatureRequest.normalize_fields SignatureRequest.validate_required_fields
normalize_required r = ground arith

module _ (now : String) (r : SignatureRequest) where
  same_recipients : (completed now r).signature_recipients ≡ r.signature_recipients
  unfolding SignatureRequest.normalize_fields SignatureRequest.set_requested_on
      SignatureRequest.set_completed_on
  same_recipients = ground arith

  same_request :
      (rows : List SignatureRequest)
      → SignatureRequest.validate_duplicate_active_request rows (completed now r)
        ≡ SignatureRequest.validate_duplicate_active_request rows r
  unfolding SignatureRequest.normalize_fields SignatureRequest.set_requested_on
      SignatureRequest.set_completed_on SignatureRequest.validate_duplicate_active_request
  same_request rows = ground arith

all_checks_iff :
    (required active emails orders sequence : Result (Unit {0})) (a : SignatureRequest)
    → ((do required; active; emails; orders; sequence; ok a) ≡ ok a) ↔ (
        (required ≡ ok tt)
        × (active ≡ ok tt)
        × (emails ≡ ok tt)
        × (orders ≡ ok tt)
        × (sequence ≡ ok tt))
all_checks_iff required active emails orders sequence a = ground (
  arith,
  unit->>=_iff required (active >>= λ _. emails >>= λ _. orders >>= λ _. sequence >>= λ _. ok a) a,
  unit->>=_iff active (emails >>= λ _. orders >>= λ _. sequence >>= λ _. ok a) a,
  unit->>=_iff emails (orders >>= λ _. sequence >>= λ _. ok a) a,
  unit->>=_iff orders (sequence >>= λ _. ok a) a,
  unit->>=_iff sequence (ok a) a,
)

-- The fields that the checks read are those of the document that was given.
validate_eq :
    (now : String) (rows : List SignatureRequest) (r : SignatureRequest)
    → SignatureRequest.validate now rows r ≡ (do
      SignatureRequest.validate_required_fields r
      SignatureRequest.validate_duplicate_active_request rows r
      SignatureRequest.validate_unique_signer_emails r
      SignatureRequest.validate_unique_signing_order r
      SignatureRequest.validate_signing_order_sequence r
      ok (SignatureRequest.update_recipient_signed_on now (completed now r)))
unfolding SignatureRequest.validate SignatureRequest.validate_unique_signer_emails
    SignatureRequest.validate_unique_signing_order SignatureRequest.validate_signing_order_sequence
validate_eq now rows r =
    rw (normalize_required r, same_request now r rows, same_recipients now r) refl

-- `SignatureRequest.validate` accepts a document, and answers it with the fields that it sets,
-- exactly when version, requester and status are given, no other active request stands for the
-- version if the document is active, every recipient has an email address and no two share one or a
-- signing order, and the signing orders are an arrangement of 1, …, n.
pub validate-accepts_iff :
    (now : String) (rows : List SignatureRequest) (r : SignatureRequest)
    → (SignatureRequest.validate now rows r
        ≡ ok (SignatureRequest.update_recipient_signed_on now (completed now r)))
      ↔ IsWellFormed rows r
unfolding SignatureRequest.validate_duplicate_active_request
    SignatureRequest.validate_unique_signer_emails SignatureRequest.validate_unique_signing_order
    SignatureRequest.validate_signing_order_sequence
validate-accepts_iff now rows r = rw (validate_eq now rows r) (
    ground (
      arith,
      all_checks_iff (SignatureRequest.validate_required_fields r)
          (SignatureRequest.validate_duplicate_active_request rows r)
          (SignatureRequest.validate_unique_signer_emails r)
          (SignatureRequest.validate_unique_signing_order r)
          (SignatureRequest.validate_signing_order_sequence r)
          (SignatureRequest.update_recipient_signed_on now (completed now r)),
      required_iff r,
      throw_if_iff
          (SignatureRequest.is_active r.status && any (SignatureRequest.same_active r) rows)
          active_request_exists,
      emails_iff r.signature_recipients,
      check_distinct-iff-Distinct duplicate_signing_order
          (map (λ (s : SignatureRecipient). s.signing_order) r.signature_recipients),
      check_sequence_iff r.signature_recipients
          (SignatureRequest.known_orders r.signature_recipients),
    ))

checks-value :
    (required active emails orders sequence : Result (Unit {0})) (a s : SignatureRequest)
    → (do required; active; emails; orders; sequence; ok a) ≡ ok s
    → a ≡ s
checks-value required active emails orders sequence a s h = ground (
  arith,
  unit->>=_iff required (active >>= λ _. emails >>= λ _. orders >>= λ _. sequence >>= λ _. ok a) s,
  unit->>=_iff active (emails >>= λ _. orders >>= λ _. sequence >>= λ _. ok a) s,
  unit->>=_iff emails (orders >>= λ _. sequence >>= λ _. ok a) s,
  unit->>=_iff orders (sequence >>= λ _. ok a) s,
  unit->>=_iff sequence (ok a) s,
)

-- An accepted document is the one that was given, with the fields that the controller sets.
validate-value :
    (now : String) (rows : List SignatureRequest) (r s : SignatureRequest)
    → SignatureRequest.validate now rows r ≡ ok s
    → SignatureRequest.update_recipient_signed_on now (completed now r) ≡ s
validate-value now rows r s h =
    checks-value (SignatureRequest.validate_required_fields r)
      (SignatureRequest.validate_duplicate_active_request rows r)
      (SignatureRequest.validate_unique_signer_emails r)
      (SignatureRequest.validate_unique_signing_order r)
      (SignatureRequest.validate_signing_order_sequence r)
      (SignatureRequest.update_recipient_signed_on now (completed now r)) s
      (rw (← validate_eq now rows r) h)

completed-name : (now : String) (r : SignatureRequest) → (completed now r).name ≡ r.name
unfolding SignatureRequest.normalize_fields SignatureRequest.set_requested_on
    SignatureRequest.set_completed_on
completed-name now r = ground arith

completed-status : (now : String) (r : SignatureRequest) → (completed now r).status ≡ r.status
unfolding SignatureRequest.normalize_fields SignatureRequest.set_requested_on
    SignatureRequest.set_completed_on
completed-status now r = ground arith

-- The controller changes neither the name nor the status of a document.
pub validate-same :
    (now : String) (rows : List SignatureRequest) (r s : SignatureRequest)
    → SignatureRequest.validate now rows r ≡ ok s
    → (s.name ≡ r.name) × (s.status ≡ r.status)
unfolding SignatureRequest.update_recipient_signed_on
validate-same now rows r s h =
    rw (← validate-value now rows r s h) (completed-name now r, completed-status now r)
