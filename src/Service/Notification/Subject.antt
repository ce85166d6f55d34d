-- ===== src/Service/Notification/Subject.antt =====
-- What a notification about a signature request says.
use Prim.Native.String.{◌++◌}
use contract_management.Prelude.{
  ◌≡◌, refl, ap, ◌∙◌, ◌⊎◌, inl, inr, Bool, true, false, String, Option, none, some, List, [], ◌∷◌,
  if◌then◌else◌,
}
use contract_management.Failure.{Error}
use contract_management.Exec.{◌>>=◌, returned, pure, skip, modify, raise}
use contract_management.Exec.Laws.{Keeps, keeps_rules, Keeps-returned, >>=-returned}
use contract_management.Site.{Contract, SignatureRequest, Site, Notification}
use contract_management.Platform.{Platform}
use contract_management.Service.Notification as Service

module _ (s : Site) where
  abbrev Same : Site → Type 0
  Same w = w ≡ s

  get_contract-Same : (n : String) → Keeps Same (Service.get_contract n)
  unfolding Service.get_contract
  get_contract-Same n = search (keeps_rules) depth 12

  get_version-Same : (n : String) → Keeps Same (Service.get_version n)
  unfolding Service.get_version
  get_version-Same n = search (keeps_rules) depth 12

  resolve-Same :
      (r : SignatureRequest) → Keeps Same (Service.resolve_contract (Service.request_doc r))
  unfolding Service.resolve_contract
  resolve-Same r = search (keeps_rules, get_contract-Same, get_version-Same) depth 12

  given-Same :
      (c : Option Contract) (r : SignatureRequest)
      → Keeps Same (Service.given_or_resolved c (Service.request_doc r))
  unfolding Service.given_or_resolved
  given-Same none r = resolve-Same r
  given-Same (some c) r = search (keeps_rules) depth 12

  recipients-Same :
      (r : SignatureRequest) (event : Service.NotificationEvent) (c : Option Contract)
      → Service.is_approval_event event ≡ false
      → Keeps Same (Service.get_recipients (Service.request_doc r) event c)
  unfolding Service.get_recipients
  recipients-Same r Service.approval_assigned c e = cc
  recipients-Same r Service.approval_approved c e = cc
  recipients-Same r Service.approval_rejected c e = cc
  recipients-Same r Service.signature_request_sent c e = search (keeps_rules) depth 12
  recipients-Same r Service.signature_completed c e = search (keeps_rules, given-Same) depth 12
  recipients-Same r Service.signature_cancelled c e = search (keeps_rules, given-Same) depth 12
  recipients-Same r Service.contract_executed c e = search (keeps_rules, given-Same) depth 12

-- `_resolve_contract` answers with a contract for a request, or raises.
resolve-some :
    (r : SignatureRequest) (w : Site) {o : Option Contract} {v : Site}
    → Service.resolve_contract (Service.request_doc r) w ≡ returned o v
    → (c : Contract) × (o ≡ some c)
unfolding Service.resolve_contract pure
resolve-some r w h =
    let (_, w1, _, h1) = >>=-returned _ _ w h in
    let (c, w2, _, h2) = >>=-returned _ _ w1 h1 in (c, cc)

-- The message that is built from a contract has no name in it.
message_of_contract :
    (event : Service.NotificationEvent) (c : Contract) (w : Site) {m : String} {v : Site}
    → Service.is_approval_event event ≡ false
    → Service.build_message (Service.contract_doc c) event w ≡ returned m v
    → (m ≡ Service.message_prefix event ++ "None") × (v ≡ w)
unfolding Service.build_message Service.resolve_contract ◌>>=◌
message_of_contract event c w {m} {v} e h = go (Service.is_approval_event event) e h
  where
    go :
        (b : Bool)
        → b ≡ false
        → (if b
              then (do
                name ← Service.contract_of (Service.contract_doc c)
                pure (Service.message_prefix event ++ name))
              else (do
                found ← Service.resolve_contract (Service.contract_doc c)
                pure (
                    Service.message_prefix event
                    ++ Service.contract_name found (Service.contract_doc c))))
            w
          ≡ returned m v
        → (m ≡ Service.message_prefix event ++ "None") × (v ≡ w)
    go true e k = cc
    go false e k = (cc, cc)

sent :
    (p : Platform) (us : List String) (message : String) (doc : Service.Document) (w : Site)
    {u : Unit {0}} {v : Site}
    → Service.create_notification p us message doc w ≡ returned u v
    → (v ≡ w)
      ⊎ ((n : Notification) × (v.notifications ≡ n ∷ w.notifications) × (n.subject ≡ message))
unfolding Service.create_notification Service.deliver skip modify raise
sent p [] message doc w h = inl (cc)
sent p (a ∷ us) message doc w {u} {v} h = go (p.enqueue n) h
  where
    n : Notification
    n = record {
      recipients = a ∷ us;
      document_type = Service.doctype doc;
      document_name = Service.name_of doc;
      subject = message;
      from_user = w.user;
    }

    go :
        (o : Option Error)
        → Service.deliver o n w ≡ returned u v
        → (v ≡ w)
          ⊎ ((n : Notification) × (v.notifications ≡ n ∷ w.notifications) × (n.subject ≡ message))
    go (some e) k = cc
    go none k =
        let same : record w { notifications = n ∷ w.notifications } ≡ v = cc in
        inr (n, rw (← same) refl, refl)

message_of_request :
    (event : Service.NotificationEvent) (r : SignatureRequest) (o : Option Contract) (c : Contract)
    (w : Site) {m : String} {v : Site}
    → o ≡ some c
    → Service.is_approval_event event ≡ false
    → Service.build_message (Service.message_document o (Service.request_doc r)) event w
      ≡ returned m v
    → (m ≡ Service.message_prefix event ++ "None") × (v ≡ w)
message_of_request event r none c w found e h = cc
message_of_request event r (some d) c w found e h = message_of_contract event d w e h

-- A notification that a signature request was sent, completed or cancelled names no contract: if it
-- is sent at all, its subject is the event's text with "None" in the place of the contract.
pub notify_signature-subject :
    (p : Platform) (event : Service.NotificationEvent) (request : SignatureRequest) (w v : Site)
    → Service.is_approval_event event ≡ false
    → Service.notify_signature p event request w ≡ returned tt v
    → (v ≡ w)
      ⊎ ((n : Notification) × (v.notifications ≡ n ∷ w.notifications)
          × (n.subject ≡ Service.message_prefix event ++ "None"))
unfolding Service.notify_signature
notify_signature-subject p event request w v e h =
    let (o, w1, e1, h1) = >>=-returned _ _ w h in
    let same1 : w1 ≡ w = Keeps-returned (Same w) (resolve-Same w request) w refl e1 in
    let (c, is_c) = resolve-some request w e1 in
    let (us, w2, e2, h2) = >>=-returned _ _ w1 h1 in
    let same2 : w2 ≡ w =
      Keeps-returned (Same w) (recipients-Same w request event o e) w1 same1 e2 in
    let (m, w3, e3, h3) = >>=-returned _ _ w2 h2 in
    let (said, same3) = message_of_request event request o c w2 is_c e e3 in
    elim (sent p us m (Service.request_doc request) w3 h3) [
      | inl same ↦ inl (same ∙ same3 ∙ same2)
      | inr (n, added, subject) ↦
          inr (n, added ∙ ap (λ x. n ∷ x.notifications) (same3 ∙ same2), subject ∙ said)
    ]
