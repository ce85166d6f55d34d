-- ===== src/Service/Signature/Send/Ready.antt =====
-- When `send_signature_request` reaches Documenso, and what it leaves on the request.
use contract_management.Prelude.{
  ◌≡◌, refl, ◌⊎◌, inl, inr, Bool, true, false, not, String, Option, none, some, arith, ◌==◌,
  string_eq,
}
use contract_management.Prelude.Text.{truthy}
use contract_management.Failure.{Result, ok, err, does_not_exist}
use contract_management.Exec.{◌>>=◌, state_of, returned, lift, or_raise}
use contract_management.Exec.Laws.{
  Keeps, keeps_rules, >>=-returned, state_of-bind, throw_if-returned,
}
use contract_management.Workflow.{
  VersionStatus, SignatureRequestStatus, version_status_eq, request_status_eq,
}
use contract_management.Site.{ContractVersion, SignatureRequest, Site, find_request, find_version}
use contract_management.Platform.{Platform}
use contract_management.Service.Notification.{get_version, get_contract}
use contract_management.Service.Signature.Checks
use contract_management.Service.Signature.Create.{get_request}
use contract_management.Service.Signature.Send
use contract_management.Site.{Payload}

-- The request is a draft with recipients, of the current and approved version, which has a document.
pub record IsReady (r : SignatureRequest) (v : ContractVersion) : Type 0 where
  pub draft : (r.status == SignatureRequestStatus.draft) ≡ true
  pub recipients : Checks.is_nonempty r.signature_recipients ≡ true
  pub current : v.is_current ≡ true
  pub approved : (v.status == VersionStatus.approved) ≡ true
  pub document : truthy v.document ≡ true

-- A site in which the request of a name can be sent.
abbrev pub Ready : String → Site → Type 0
Ready n w =
    (r : SignatureRequest) × (v : ContractVersion) × (find_request n w.requests ≡ some r)
    × (find_version r.contract_version w.versions ≡ some v)
    × IsReady r v

module _ (s : Site) where
  abbrev Same : Site → Type 0
  Same w = w ≡ s

  read_version-Keeps : (n : String) → Keeps Same (get_version n)
  unfolding get_version
  read_version-Keeps n = search (keeps_rules) depth 12

  read_contract-Keeps : (n : String) → Keeps Same (get_contract n)
  unfolding get_contract
  read_contract-Keeps n = search (keeps_rules) depth 12

  read_pdf-Keeps : (p : Platform) (v : ContractVersion) → Keeps Same (Send.get_pdf_content p v)
  unfolding Send.get_pdf_content
  read_pdf-Keeps p v = search (keeps_rules) depth 12

  payload-Keeps :
      (p : Platform) (r : SignatureRequest) (v : ContractVersion)
      → Keeps Same (Send.build_documenso_payload p r v)
  unfolding Send.build_documenso_payload
  payload-Keeps p r v = search (keeps_rules, read_contract-Keeps) depth 12

  prepare-Keeps : (p : Platform) (r : SignatureRequest) → Keeps Same (Send.prepare p r)
  unfolding Send.prepare
  prepare-Keeps p r =
      search (keeps_rules, read_version-Keeps, read_pdf-Keeps, payload-Keeps) depth 12

lift-returned {ℓ} :
    {A : Type ℓ} (m : Result A) (w : Site) {a : A} {v : Site}
    → lift m w ≡ returned a v
    → (m ≡ ok a) × (v ≡ w)
unfolding lift
lift-returned (ok b) w h = (cc, cc)
lift-returned (err e) w h = cc

read_version-returned :
    (n : String) (w : Site) {a : ContractVersion} {u : Site}
    → get_version n w ≡ returned a u
    → (find_version n w.versions ≡ some a) × (u ≡ w)
unfolding get_version ◌>>=◌
read_version-returned n w {a} {u} h = go (find_version n w.versions) h
  where
    go :
        (o : Option ContractVersion)
        → or_raise o does_not_exist w ≡ returned a u
        → (o ≡ some a) × (u ≡ w)
    go none k = cc
    go (some b) k = (cc, cc)

checked_request :
    (r : SignatureRequest) {u : Unit {0}}
    → Checks.validate_signature_request r ≡ ok u
    → ((r.status == SignatureRequestStatus.draft) ≡ true)
      × (Checks.is_nonempty r.signature_recipients ≡ true)
unfolding Checks.validate_signature_request
checked_request r h = ground arith

checked_version :
    (v : ContractVersion) {u : Unit {0}}
    → Checks.validate_contract_version v ≡ ok u
    → (v.is_current ≡ true) × ((v.status == VersionStatus.approved) ≡ true)
unfolding Checks.validate_contract_version
checked_version v h = ground arith

not-false : (b : Bool) → not b ≡ false → b ≡ true
not-false b h = ground arith

has_document :
    (p : Platform) (v : ContractVersion) (w : Site) {a : String} {u : Site}
    → Send.get_pdf_content p v w ≡ returned a u
    → truthy v.document ≡ true
unfolding Send.get_pdf_content
has_document p v w h =
    let (_, _, guard, _) = >>=-returned _ _ w h in
    not-false (truthy v.document) (throw_if-returned _ _ w guard).0

prepare-IsReady :
    (p : Platform) (r : SignatureRequest) (w : Site) {a : ContractVersion × String × Payload}
    {u : Site}
    → Send.prepare p r w ≡ returned a u
    → (v : ContractVersion) × (find_version r.contract_version w.versions ≡ some v) × IsReady r v
unfolding Send.prepare
prepare-IsReady p r w h =
    let (_, w1, e1, h1) = >>=-returned _ _ w h in
    let (draft, rows) = checked_request r (lift-returned _ w e1).0 in
    let (_, w2, e2, h2) = >>=-returned _ _ w1 h1 in
    let (v, w3, e3, h3) = >>=-returned _ _ w2 h2 in
    let (_, w4, e4, h4) = >>=-returned _ _ w3 h3 in
    let (current, approved) = checked_version v (lift-returned _ w3 e4).0 in
    let (_, w5, e5, h5) = >>=-returned _ _ w4 h4 in
    let found = (read_version-returned r.contract_version w2 e3).0 in
    let same1 = (lift-returned _ w e1).1 in
    let same2 = (lift-returned _ w1 e2).1 in
    let found' : find_version r.contract_version w.versions ≡ some v =
      rw (← same1, ← same2) found in
    (
      v,
      found',
      record {
        draft = draft;
        recipients = rows;
        current = current;
        approved = approved;
        document = has_document p v w4 e5;
      },
    )

read_request-Keeps : (n : String) (s : Site) → Keeps (λ w. w ≡ s) (get_request n)
unfolding get_request
read_request-Keeps n s = search (keeps_rules) depth 12

read_request-returned :
    (n : String) (w : Site) {a : SignatureRequest} {u : Site}
    → get_request n w ≡ returned a u
    → (find_request n w.requests ≡ some a) × (u ≡ w)
unfolding get_request ◌>>=◌
read_request-returned n w {a} {u} h = go (find_request n w.requests) h
  where
    go :
        (o : Option SignatureRequest)
        → or_raise o does_not_exist w ≡ returned a u
        → (o ≡ some a) × (u ≡ w)
    go none k = cc
    go (some b) k = (cc, cc)

prepare-Ready :
    (p : Platform) (n : String) (w v : Site) (r : SignatureRequest)
    {a : ContractVersion × String × Payload} {u : Site}
    → (find_request n w.requests ≡ some r) × (v ≡ w)
    → Send.prepare p r v ≡ returned a u
    → Ready n w
prepare-Ready p n w v r (found, same) h =
    let (c, version, ready) = prepare-IsReady p r v h in
    let version' : find_version r.contract_version w.versions ≡ some c = rw (← same) version in
    (r, c, found, version', ready)

-- `send_signature_request` either changes nothing, calls of Documenso included, or the request is a
-- draft with recipients, and its version exists, is current and Approved, and has a document.
pub send_signature_request-Ready :
    (p : Platform) (n : String) (w : Site)
    → (state_of (Send.send_signature_request p n w) ≡ w) ⊎ Ready n w
unfolding Send.send_signature_request
send_signature_request-Ready p n w =
    state_of-bind P (get_request n) _ w (inl ((read_request-Keeps n w).at w refl)) λ r v e _.
      state_of-bind P (Send.prepare p r) _ v
        (inl ((prepare-Keeps w p r).at v (read_request-returned n w e).1))
        λ a u e' _. inr (prepare-Ready p n w v r (read_request-returned n w e) e')
  where
    P : Site → Type 0
    P u = (u ≡ w) ⊎ Ready n w
