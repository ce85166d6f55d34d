-- ===== src/Service/Notification.antt =====
-- services/notification.py. Users come out of a set, so their order means nothing; the model keeps
-- the first occurrence of each. Messages are in English, as they are without a translation.
pub mod Subject
use Prim.Native.String.{◌++◌}
use contract_management.Prelude.{
  Bool, true, false, not, String, Option, none, some, List, [], ◌∷◌, map, if◌then◌else◌, string_eq,
}
use contract_management.Prelude.Lists.{filter, contains}
use contract_management.Prelude.Text.{truthy}
use contract_management.Failure.{Error, does_not_exist, attribute_error}
use contract_management.Exec.{
  Outcome, returned, raised, pure, raise, or_raise, gets, modify, skip, ◌>>=◌,
}
use contract_management.Site.{
  Site, Contract, ContractVersion, Approval, SignatureRequest, Notification, M, find_contract,
  find_version,
}
use contract_management.Platform.{Platform}

pub data NotificationEvent : Type 0 where
  approval_assigned approval_approved approval_rejected : NotificationEvent
  signature_request_sent signature_completed signature_cancelled : NotificationEvent
  contract_executed : NotificationEvent

-- A document of any of the doctypes that a notification is about.
pub data Document : Type 0 where
  contract_doc : Contract → Document
  version_doc : ContractVersion → Document
  approval_doc : Approval → Document
  request_doc : SignatureRequest → Document

-- frappe.get_doc("Contract", name)
unfoldable pub get_contract : String → M Contract
get_contract name = do row ← gets (λ s. find_contract name s.contracts); or_raise row does_not_exist

-- frappe.get_doc("Contract Version", name)
unfoldable pub get_version : String → M ContractVersion
get_version name = do row ← gets (λ s. find_version name s.versions); or_raise row does_not_exist

-- `_resolve_contract`
unfoldable pub resolve_contract : Document → M (Option Contract)
unfolding get_contract get_version
resolve_contract (approval_doc a) = do c ← get_contract a.contract; pure (some c)
resolve_contract (version_doc v) = do c ← get_contract v.contract; pure (some c)
resolve_contract (request_doc r) = do
  v ← get_version r.contract_version
  c ← get_contract v.contract
  pure (some c)
resolve_contract (contract_doc c) = pure none

-- list({x for x in xs if x})
unfoldable pub distinct_users : List String → List String
unfolding contains
distinct_users [] = []
distinct_users (u ∷ us) =
    let rest = distinct_users us in
    if truthy u then u ∷ filter (λ v. not (contains (u ∷ []) v)) rest else rest

abbrev pub users_of : Option Contract → List String
users_of none = []
users_of (some c) = map (λ m. m.user) c.collaborators

-- `contract`, or else what `_resolve_contract` finds.
unfoldable pub given_or_resolved : Option Contract → Document → M (Option Contract)
unfolding resolve_contract
given_or_resolved none doc = resolve_contract doc
given_or_resolved (some c) doc = pure (some c)

abbrev pub approver_of : Document → M (List String)
approver_of (approval_doc a) = pure (if truthy a.approver then a.approver ∷ [] else [])
approver_of _ = raise attribute_error

abbrev pub signers_of : Document → M (List String)
signers_of (request_doc r) = pure (map (λ s. s.signer) r.signature_recipients)
signers_of _ = raise attribute_error

-- `_get_recipients`
unfoldable pub get_recipients : Document → NotificationEvent → Option Contract → M (List String)
unfolding distinct_users given_or_resolved
get_recipients doc approval_assigned contract = approver_of doc
get_recipients doc signature_request_sent contract = do
  signers ← signers_of doc
  pure (distinct_users signers)
get_recipients doc _ contract = do
  found ← given_or_resolved contract doc
  pure (distinct_users (users_of found))

-- doc.contract
abbrev pub contract_of : Document → M String
contract_of (approval_doc a) = pure a.contract
contract_of (version_doc v) = pure v.contract
contract_of (request_doc r) = raise attribute_error
contract_of (contract_doc c) = raise attribute_error

-- doc.get("contract", ""): Frappe takes the second argument for filters and not for a default, so a
-- field that the doctype does not have is None.
abbrev pub get_contract_field : Document → Option String
get_contract_field (approval_doc a) = some a.contract
get_contract_field (version_doc v) = some v.contract
get_contract_field (request_doc r) = none
get_contract_field (contract_doc c) = none

-- What `format` writes.
abbrev pub formatted : Option String → String
formatted none = "None"
formatted (some name) = name

abbrev pub contract_name : Option Contract → Document → String
contract_name (some c) doc = c.name
contract_name none doc = formatted (get_contract_field doc)

-- The text in front of the contract's name.
abbrev pub message_prefix : NotificationEvent → String
message_prefix approval_assigned = "<b>Approval Required:</b> "
message_prefix approval_approved = "<b>Approval Approved:</b> "
message_prefix approval_rejected = "<b>Approval Rejected:</b> "
message_prefix signature_request_sent = "<b>Signature Request Sent:</b> "
message_prefix signature_completed = "<b>Signature Completed:</b> "
message_prefix signature_cancelled = "<b>Signature Cancelled:</b> "
message_prefix contract_executed = "<b>Contract Executed:</b> "

abbrev pub is_approval_event : NotificationEvent → Bool
is_approval_event approval_assigned = true
is_approval_event approval_approved = true
is_approval_event approval_rejected = true
is_approval_event _ = false

-- `_build_message`; no caller passes its third argument.
unfoldable pub build_message : Document → NotificationEvent → M String
unfolding resolve_contract
build_message doc event =
    if is_approval_event event
    then (do name ← contract_of doc; pure (message_prefix event ++ name))
    else (do found ← resolve_contract doc; pure (message_prefix event ++ contract_name found doc))

abbrev pub doctype : Document → String
doctype (contract_doc c) = "Contract"
doctype (version_doc v) = "Contract Version"
doctype (approval_doc a) = "Approval"
doctype (request_doc r) = "Signature Request"

abbrev pub name_of : Document → String
name_of (contract_doc c) = c.name
name_of (version_doc v) = v.name
name_of (approval_doc a) = a.name
name_of (request_doc r) = r.name

unfoldable pub deliver : Option Error → Notification → M (Unit {0})
deliver (some e) n = raise e
deliver none n = modify (λ s. record s { notifications = n ∷ s.notifications })

-- `_create_notification`; the newest notification stands first.
unfoldable pub create_notification : Platform → List String → String → Document → M (Unit {0})
unfolding deliver
create_notification p [] message doc site = skip site
create_notification p (u ∷ us) message doc site =
    let n : Notification = record {
      recipients = u ∷ us;
      document_type = doctype doc;
      document_name = name_of doc;
      subject = message;
      from_user = site.user;
    } in
    deliver (p.enqueue n) n site

-- notify_approval_assigned, notify_approval_approved, notify_approval_rejected and
-- notify_contract_executed, which differ in the event.
unfoldable pub notify_about : Platform → NotificationEvent → Document → M (Unit {0})
unfolding get_recipients build_message create_notification
notify_about p event doc = do
  recipients ← get_recipients doc event none
  message ← build_message doc event
  create_notification p recipients message doc

abbrev pub message_document : Option Contract → Document → Document
message_document (some c) doc = contract_doc c
message_document none doc = doc

-- notify_signature_request_sent, notify_signature_completed and notify_signature_cancelled: the
-- message is built from the contract, not from the request.
unfoldable pub notify_signature : Platform → NotificationEvent → SignatureRequest → M (Unit {0})
unfolding get_recipients build_message create_notification
notify_signature p event request = do
  contract ← resolve_contract (request_doc request)
  recipients ← get_recipients (request_doc request) event contract
  message ← build_message (message_document contract (request_doc request)) event
  create_notification p recipients message (request_doc request)

-- `except Exception`: the error is logged, and nothing is raised.
unfoldable pub drop_error : String → Outcome Site (Unit {0}) → Outcome Site (Unit {0})
drop_error event (returned _ after) = returned tt after
drop_error event (raised _ after) = returned tt (record after { logged = event ∷ after.logged })

-- `_notify_safely` of the approval and signature services.
unfoldable pub notify_safely : String → M (Unit {0}) → M (Unit {0})
unfolding drop_error
notify_safely event notify site = drop_error event (notify site)
