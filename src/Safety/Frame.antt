-- ===== src/Safety/Frame.antt =====
-- The calls of the service layer that write neither Contract Versions nor Approvals keep whatever
-- depends on these two tables alone.
use contract_management.Prelude.{String, Bool, Option, none, some, List, [], ◌∷◌}
use contract_management.Failure.{Error, Result, ok, err}
use contract_management.Exec.{◌>>=◌, state_of, Outcome, returned, raised}
use contract_management.Exec.Laws.{Keeps, keeps_rules}
use contract_management.Site.{
  Contract, ContractVersion, Approval, SignatureRequest, Notification, Site,
}
use contract_management.Platform.{Platform}
use contract_management.Doctype.Contract
use contract_management.Doctype.SignatureRequest
use contract_management.Service.Notification
use contract_management.Service.Notification.{
  Document, contract_doc, version_doc, approval_doc, request_doc, NotificationEvent,
  approval_assigned, signature_request_sent,
}
use contract_management.Service.Approval
use contract_management.Service.Signature.Create

-- A property of the two tables, as a property of the site.
abbrev pub On : (List ContractVersion → List Approval → Type 0) → Site → Type 0
On Q site = Q site.versions site.approvals

module _ (Q : List ContractVersion → List Approval → Type 0) where
  store_contract :
      (site : Site) (r : Result Contract) → On Q site → On Q (state_of (Contract.store site r))
  unfolding Contract.store
  store_contract site (ok c) h = h
  store_contract site (err e) h = h

  pub Contract_save-Keeps : (p : Platform) (c : Contract) → Keeps (On Q) (Contract.save p c)
  unfolding Contract.save
  Contract_save-Keeps p c = record {
    at = λ site h. store_contract site (Contract.accept p site c) h;
  }

  store_request :
      (site : Site) (r : Result SignatureRequest)
      → On Q site
      → On Q (state_of (SignatureRequest.store site r))
  unfolding SignatureRequest.store
  store_request site (ok c) h = h
  store_request site (err e) h = h

  pub SignatureRequest_save-Keeps :
      (p : Platform) (ignore : Bool) (r : SignatureRequest)
      → Keeps (On Q) (SignatureRequest.save p ignore r)
  unfolding SignatureRequest.save
  SignatureRequest_save-Keeps p ignore r = record { at = λ site h. store_request site _ h }

  pub SignatureRequest_insert-Keeps :
      (p : Platform) (r : SignatureRequest) → Keeps (On Q) (SignatureRequest.insert p r)
  unfolding SignatureRequest.insert
  SignatureRequest_insert-Keeps p r = record { at = λ site h. store_request site _ h }

  pub get_contract-Keeps : (name : String) → Keeps (On Q) (Notification.get_contract name)
  unfolding Notification.get_contract
  get_contract-Keeps name = search keeps_rules

  pub get_version-Keeps : (name : String) → Keeps (On Q) (Notification.get_version name)
  unfolding Notification.get_version
  get_version-Keeps name = search keeps_rules

  pub get_request-Keeps : (name : String) → Keeps (On Q) (Create.get_request name)
  unfolding Create.get_request
  get_request-Keeps name = search keeps_rules

  pub get_approval-Keeps : (name : String) → Keeps (On Q) (Approval.get_approval name)
  unfolding Approval.get_approval
  get_approval-Keeps name = search keeps_rules

  resolve_contract-Keeps : (doc : Document) → Keeps (On Q) (Notification.resolve_contract doc)
  unfolding Notification.resolve_contract
  resolve_contract-Keeps (approval_doc a) = search (keeps_rules, get_contract-Keeps)
  resolve_contract-Keeps (version_doc v) = search (keeps_rules, get_contract-Keeps)
  resolve_contract-Keeps (request_doc r) =
      search (keeps_rules, get_contract-Keeps, get_version-Keeps)
  resolve_contract-Keeps (contract_doc c) = search keeps_rules

  given_or_resolved-Keeps :
      (found : Option Contract) (doc : Document)
      → Keeps (On Q) (Notification.given_or_resolved found doc)
  unfolding Notification.given_or_resolved
  given_or_resolved-Keeps none doc = resolve_contract-Keeps doc
  given_or_resolved-Keeps (some c) doc = search keeps_rules

  approver_of-Keeps : (doc : Document) → Keeps (On Q) (Notification.approver_of doc)
  approver_of-Keeps (approval_doc a) = search keeps_rules
  approver_of-Keeps _ = search keeps_rules

  signers_of-Keeps : (doc : Document) → Keeps (On Q) (Notification.signers_of doc)
  signers_of-Keeps (request_doc r) = search keeps_rules
  signers_of-Keeps _ = search keeps_rules

  contract_of-Keeps : (doc : Document) → Keeps (On Q) (Notification.contract_of doc)
  contract_of-Keeps (approval_doc a) = search keeps_rules
  contract_of-Keeps _ = search keeps_rules

  get_recipients-Keeps :
      (doc : Document) (event : NotificationEvent) (found : Option Contract)
      → Keeps (On Q) (Notification.get_recipients doc event found)
  unfolding Notification.get_recipients
  get_recipients-Keeps doc approval_assigned found = approver_of-Keeps doc
  get_recipients-Keeps doc signature_request_sent found = search (keeps_rules, signers_of-Keeps doc)
  get_recipients-Keeps doc _ found = search (keeps_rules, given_or_resolved-Keeps)

  build_message-Keeps :
      (doc : Document) (event : NotificationEvent)
      → Keeps (On Q) (Notification.build_message doc event)
  unfolding Notification.build_message
  build_message-Keeps doc event = search (keeps_rules, contract_of-Keeps, resolve_contract-Keeps)

  deliver-Keeps : (e : Option Error) (n : Notification) → Keeps (On Q) (Notification.deliver e n)
  unfolding Notification.deliver ◌>>=◌
  deliver-Keeps none n = record { at = λ site h. h }
  deliver-Keeps (some e) n = record { at = λ site h. h }

  create_notification-Keeps :
      (p : Platform) (users : List String) (message : String) (doc : Document)
      → Keeps (On Q) (Notification.create_notification p users message doc)
  unfolding Notification.create_notification ◌>>=◌
  create_notification-Keeps p [] message doc = record { at = λ site h. h }
  create_notification-Keeps p (u ∷ us) message doc = record {
    at = λ site h. (deliver-Keeps _ _).at site h;
  }

  ruleset notification_rules = (
    keeps_rules, resolve_contract-Keeps, get_recipients-Keeps, build_message-Keeps,
    create_notification-Keeps,
  )

  notify_about-Keeps :
      (p : Platform) (event : NotificationEvent) (doc : Document)
      → Keeps (On Q) (Notification.notify_about p event doc)
  unfolding Notification.notify_about
  notify_about-Keeps p event doc = search notification_rules

  notify_signature-Keeps :
      (p : Platform) (event : NotificationEvent) (r : SignatureRequest)
      → Keeps (On Q) (Notification.notify_signature p event r)
  unfolding Notification.notify_signature
  notify_signature-Keeps p event r = search notification_rules

  dropped :
      (event : String) (o : Outcome Site (Unit {0}))
      → On Q (state_of o)
      → On Q (state_of (Notification.drop_error event o))
  unfolding Notification.drop_error
  dropped event (returned a w) h = h
  dropped event (raised e w) h = h

  notify_safely-Keeps :
      (event : String) (m : Site → Outcome Site (Unit {0}))
      → Keeps (On Q) m
      → Keeps (On Q) (Notification.notify_safely event m)
  unfolding Notification.notify_safely
  notify_safely-Keeps event m k = record { at = λ site h. dropped event (m site) (k.at site h) }

  pub notify_about_safely-Keeps :
      (p : Platform) (name : String) (event : NotificationEvent) (doc : Document)
      → Keeps (On Q) (Notification.notify_safely name (Notification.notify_about p event doc))
  notify_about_safely-Keeps p name event doc =
      notify_safely-Keeps name _ (notify_about-Keeps p event doc)

  pub notify_signature_safely-Keeps :
      (p : Platform) (name : String) (event : NotificationEvent) (r : SignatureRequest)
      → Keeps (On Q) (Notification.notify_safely name (Notification.notify_signature p event r))
  notify_signature_safely-Keeps p name event r =
      notify_safely-Keeps name _ (notify_signature-Keeps p event r)
