-- ===== src/Service/Signature/Webhook/Idempotent.antt =====
-- What a DOCUMENT_COMPLETED webhook leaves behind, and what a second delivery of it does.
use contract_management.Prelude.{
  ◌≡◌, refl, Bool, true, false, not, String, Option, none, some, if◌then◌else◌, ◌==◌, string_eq,
  str_eq, eq_iff,
}
use contract_management.Prelude.Table
use contract_management.Prelude.Text.{truthy}
use contract_management.Failure.{Result, ok, err, >>=-eq-ok, check}
use contract_management.Exec.{returned, gets, lift, pure, skip, ◌>>=◌, ◌>>◌}
use contract_management.Exec.Laws.{>>=-returned}
use contract_management.Workflow.{SignatureRequestStatus, request_status_eq}
use contract_management.Site.{SignatureRequest, ContractVersion, Site, M, find_request}
use contract_management.Platform.{Platform}
use contract_management.Doctype.SignatureRequest
use contract_management.Doctype.SignatureRequest.Acceptance.{validate-same}
use contract_management.Service.Notification.{get_version}
use contract_management.Service.Signature.Complete
use contract_management.Service.Signature.Webhook.{
  DocumentPayload, complete_found, is_settled, mark_webhook_recipients, process_document_completed,
}

-- The row of an accepted document stands in the table after the save.
stored_request :
    (r t s : SignatureRequest) (w v : Site)
    → (t.name ≡ r.name) × (t.status ≡ r.status)
    → SignatureRequest.store w (ok t) ≡ returned s v
    → (find_request r.name v.requests ≡ some s) × (s.status ≡ r.status)
unfolding SignatureRequest.store
stored_request r t s w v (same_name, same_status) h =
    let is_s : t ≡ s = cc in
    let is_v : record w { requests = Table.put (λ (q : SignatureRequest). q.name) t w.requests }
        ≡ v =
      cc in
    let hit : str_eq t.name r.name ≡ true = (eq_iff t.name r.name).1 same_name in
    rw (← is_v, ← is_s)
      (
        rw (Table.find-put (λ (q : SignatureRequest). q.name) t r.name w.requests, hit) refl,
        same_status,
      )

accept-same :
    (p : Platform) (ignore : Bool) (w : Site) (o : Option SignatureRequest) (r t : SignatureRequest)
    → SignatureRequest.accept p ignore w o r ≡ ok t
    → (t.name ≡ r.name) × (t.status ≡ r.status)
unfolding SignatureRequest.accept
accept-same p ignore w o r t h =
    let (_, _, k) =
      >>=-eq-ok (check (p.check_request w.user ignore o r))
        (λ _. SignatureRequest.validate w.now w.requests r) h in
    validate-same w.now w.requests r t k

saved_request :
    (p : Platform) (ignore : Bool) (r s : SignatureRequest) (w v : Site)
    → SignatureRequest.save p ignore r w ≡ returned s v
    → (find_request r.name v.requests ≡ some s) × (s.status ≡ r.status)
unfolding SignatureRequest.save SignatureRequest.store
saved_request p ignore r s w v h =
    go (SignatureRequest.accept p ignore w (find_request r.name w.requests) r) refl h
  where
    go :
        (o : Result SignatureRequest)
        → SignatureRequest.accept p ignore w (find_request r.name w.requests) r ≡ o
        → SignatureRequest.store w o ≡ returned s v
        → (find_request r.name v.requests ≡ some s) × (s.status ≡ r.status)
    go (ok t) e k =
        stored_request r t s w v (accept-same p ignore w (find_request r.name w.requests) r t e) k
    go (err x) e k = cc

-- The request stands in the table as Completed.
abbrev pub CompletedAt : String → Site → Type 0
CompletedAt n site =
    (s : SignatureRequest) × (find_request n site.requests ≡ some s)
    × (s.status ≡ SignatureRequestStatus.completed)

completion_stored :
    (p : Platform) (r : SignatureRequest) (version : ContractVersion) (w v : Site)
    (out : SignatureRequest × ContractVersion)
    → Complete.apply_completion_transitions p r version w ≡ returned out v
    → CompletedAt r.name v
unfolding Complete.apply_completion_transitions pure
completion_stored p r version w v out h =
    let (stored, w1, _, h1) = >>=-returned _ _ w h in
    let (_, w2, _, h2) = >>=-returned _ _ w1 h1 in
    let (executed, w3, _, h3) = >>=-returned _ _ w2 h2 in
    let (done, w4, saved, h4) = >>=-returned _ _ w3 h3 in
    let (row, status) =
      saved_request p true (record r { status = SignatureRequestStatus.completed }) done w3 w4
        saved in
    let same : w4 ≡ v = cc in rw (← same) (done, row, status)

-- No request was found, or one that the webhook leaves alone.
abbrev pub any_settled : Option SignatureRequest → Bool
any_settled none = true
any_settled (some r) = is_settled r.status

settled_left :
    (p : Platform) (payload : DocumentPayload) (o : Option SignatureRequest) (w : Site)
    → any_settled o ≡ true
    → complete_found p payload o w ≡ returned tt w
unfolding complete_found skip
settled_left p payload none w h = refl
settled_left p payload (some r) w h = rw h refl

-- What step 2 finds after the handler returned is settled.
completed_settled :
    (p : Platform) (payload : DocumentPayload) (o : Option SignatureRequest) (w v : Site)
    → find_request payload.external_id w.requests ≡ o
    → complete_found p payload o w ≡ returned tt v
    → any_settled (find_request payload.external_id v.requests) ≡ true
unfolding complete_found skip
completed_settled p payload none w v e h = let same : w ≡ v = cc in rw (← same, e) refl
completed_settled p payload (some r) w v e h = go (is_settled r.status) refl h
  where
    go :
        (b : Bool)
        → is_settled r.status ≡ b
        → (if b then skip else (do
          version ← get_version r.contract_version
          now ← gets (λ s. s.now)
          rows ← lift (mark_webhook_recipients p now payload.recipients r.signature_recipients)
          Complete.apply_completion_transitions p (record r { signature_recipients = rows }) version
          skip))
            w
          ≡ returned tt v
        → any_settled (find_request payload.external_id v.requests) ≡ true
    go true s k = let same : w ≡ v = cc in rw (← same, e, s) refl
    go false s k =
        let (version, w1, _, k1) = >>=-returned _ _ w k in
        let (now, w2, _, k2) = >>=-returned _ _ w1 k1 in
        let (rows, w3, _, k3) = >>=-returned _ _ w2 k2 in
        let (out, w4, done, k4) = >>=-returned _ _ w3 k3 in
        let same : w4 ≡ v = cc in
        let (q, row, status) =
          completion_stored p (record r { signature_recipients = rows }) version w3 w4 out done in
        let named : r.name ≡ payload.external_id =
          Table.find-key (λ (x : SignatureRequest). x.name) payload.external_id w.requests r e in
        rw (← same, ← named, row, status) refl

-- `process_document_completed` over the results of its two guards.
abbrev handle : Platform → DocumentPayload → Bool → Bool → M (Unit {0})
handle p payload given complete = if not given then skip else if not complete then skip else (do
  row ← gets (λ s. find_request payload.external_id s.requests)
  complete_found p payload row)

-- A delivery of a COMPLETED payload that returned leaves the request that its external id names, if
-- there is one, Completed, Cancelled or Expired.
pub process_document_completed-settles :
    (p : Platform) (payload : DocumentPayload) (w v : Site)
    → truthy payload.external_id ≡ true
    → (payload.status == "COMPLETED") ≡ true
    → process_document_completed p payload w ≡ returned tt v
    → any_settled (find_request payload.external_id v.requests) ≡ true
unfolding process_document_completed ◌>>=◌
process_document_completed-settles p payload w v given complete h =
    completed_settled p payload (find_request payload.external_id w.requests) w v refl
      (go (truthy payload.external_id) (payload.status == "COMPLETED") given complete h)
  where
    go :
        (g c : Bool)
        → g ≡ true
        → c ≡ true
        → handle p payload g c w ≡ returned tt v
        → complete_found p payload (find_request payload.external_id w.requests) w ≡ returned tt v
    go true true _ _ k = k
    go true false _ e k = cc
    go false c e _ k = cc

-- A second delivery of a payload whose first delivery returned returns too, and changes nothing.
pub process_document_completed-idempotent :
    (p : Platform) (payload : DocumentPayload) (w v : Site)
    → process_document_completed p payload w ≡ returned tt v
    → process_document_completed p payload v ≡ returned tt v
unfolding process_document_completed ◌>>=◌
process_document_completed-idempotent p payload w v h =
    go (truthy payload.external_id) (payload.status == "COMPLETED") h
  where
    go :
        (given complete : Bool)
        → handle p payload given complete w ≡ returned tt v
        → handle p payload given complete v ≡ returned tt v
    go false complete k = refl
    go true false k = refl
    go true true k =
        settled_left p payload (find_request payload.external_id v.requests) v
          (completed_settled p payload (find_request payload.external_id w.requests) w v refl k)
