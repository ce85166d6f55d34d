-- ===== src/Webhook/Trust.antt =====
-- api/documenso_webhook.py: which requests change the site.
use contract_management.Prelude.{
  ◌≡◌, refl, sym, subst, ap, ◌∙◌, ◌⊎◌, inl, inr, Bool, true, false, not, String, Option, none, some,
  ◌==◌, string_eq, eq_iff, if◌then◌else◌,
}
use contract_management.Prelude.Lists.{first, first-test}
use contract_management.Prelude.Text.{truthy, strip}
use contract_management.Failure.{Result, ok, err, empty_body}
use contract_management.Exec.{
  Outcome, returned, raised, state_of, pure, raise, throw_if, skip, ◌>>=◌,
}
use contract_management.Exec.Laws.{>>=-returned}
use contract_management.Site.{Site, M}
use contract_management.Platform.{
  Platform, Body, webhook, InnerPayload, absent, not_a_dict, document, DocumentPayload,
}
use contract_management.Service.Signature.Webhook
use contract_management.Service.Signature.Webhook.Idempotent.{process_document_completed-idempotent}
use contract_management.Webhook.Auth.{Headers, verify}
use contract_management.Webhook.Dispatch.{
  DocumensoWebhookEvent, event_name, dispatch_table, get_handler, handle_document_completed,
  run_handler, dispatch,
}
use contract_management.Webhook.Endpoint.{
  Reply, received, unauthorized, is_auth_error, acknowledged, authenticated, answer_body,
  handle_webhook,
}

-- The request brings the secret and the payload of a completed document.
abbrev pub Delivers : Platform → String → Headers → DocumentPayload → Type 0
Delivers p raw headers payload =
    (truthy raw ≡ true)
    × ((event : String) × (p.parse_body raw ≡ webhook (some event) (document payload))
        × (verify p headers ≡ ok tt)
        × (strip event ≡ "DOCUMENT_COMPLETED"))

get_handler-name :
    (event : String) (e : DocumensoWebhookEvent) → get_handler event ≡ some e → event ≡ event_name e
unfolding get_handler
get_handler-name event e h =
    sym
      ((eq_iff (event_name e) event).0 (first-test (λ e. event_name e == event) dispatch_table e h))

-- What dispatching does to the site: nothing, or the completion of a document.
dispatched :
    (p : Platform) (event : Option String) (payload : InnerPayload) (site : Site)
    → (state_of (dispatch p event payload site) ≡ site)
      ⊎ ((name : String) × (d : DocumentPayload) × (event ≡ some name)
          × (payload ≡ document d)
          × (strip name ≡ "DOCUMENT_COMPLETED")
          × (dispatch p event payload site ≡ Webhook.process_document_completed p d site))
unfolding dispatch skip run_handler handle_document_completed raise
    Webhook.process_document_completed
dispatched p none payload site = inl refl
dispatched p (some name) payload site =
    go (truthy (strip name)) (get_handler (strip name)) refl payload
  where
    Runs : Bool → Option DocumensoWebhookEvent → InnerPayload → Type 0
    Runs b o inner =
        (state_of ((if b then run_handler p o inner else skip) site) ≡ site)
        ⊎ ((n : String) × (d : DocumentPayload) × (some name ≡ some n)
            × (inner ≡ document d)
            × (strip n ≡ "DOCUMENT_COMPLETED")
            × ((if b then run_handler p o inner else skip) site
                ≡ Webhook.process_document_completed p d site))

    go :
        (b : Bool) (o : Option DocumensoWebhookEvent)
        → get_handler (strip name) ≡ o
        → (inner : InnerPayload) → Runs b o inner
    go false o found inner = inl refl
    go true none found inner = inl refl
    go true (some DocumensoWebhookEvent.document_completed) found absent = inl refl
    go true (some DocumensoWebhookEvent.document_completed) found not_a_dict = inl refl
    go true (some DocumensoWebhookEvent.document_completed) found (document d) = inr (
      name,
      d,
      refl,
      refl,
      get_handler-name (strip name) DocumensoWebhookEvent.document_completed found,
      refl,
    )
    go true (some DocumensoWebhookEvent.document_deleted) found inner = inl refl
    go true (some DocumensoWebhookEvent.document_rejected) found inner = inl refl
    go true (some DocumensoWebhookEvent.document_sent) found inner = inl refl
    go true (some DocumensoWebhookEvent.recipient_completed) found inner = inl refl
    go true (some DocumensoWebhookEvent.recipient_signed) found inner = inl refl

pub state_of-acknowledged :
    (m : M (Unit {0})) (site : Site) → state_of (acknowledged m site) ≡ state_of (m site)
unfolding acknowledged pure ◌>>=◌
state_of-acknowledged m site = go (m site)
  where
    go :
        (o : Outcome Site (Unit {0}))
        → state_of (elim o [ returned a w ↦ returned received w | raised e w ↦ raised e w ])
          ≡ state_of o
    go (returned a w) = refl
    go (raised e w) = refl

acknowledged-same :
    (m n : M (Unit {0})) (site : Site) → m site ≡ n site → acknowledged m site ≡ acknowledged n site
unfolding acknowledged ◌>>=◌
acknowledged-same m n site h =
    ap
      (λ o. elim o as (λ _. Outcome Site Reply) [
        | returned a w ↦ pure received w
        | raised e w ↦ raised e w
      ])
      h

-- A request of the webhook either leaves the site as it is, or it brings the secret and the payload
-- of a DOCUMENT_COMPLETED event: then it does what `process_document_completed` does with that
-- payload, and acknowledges it if that returns.
pub handle_webhook-Trusted :
    (p : Platform) (raw : String) (headers : Headers) (site : Site)
    → (state_of (handle_webhook p raw headers site) ≡ site)
      ⊎ ((d : DocumentPayload) × Delivers p raw headers d
          × (handle_webhook p raw headers site
              ≡ acknowledged (Webhook.process_document_completed p d) site))
unfolding handle_webhook answer_body authenticated throw_if ◌>>=◌ raise pure
handle_webhook-Trusted p raw headers site =
    go (truthy raw) (p.parse_body raw) (verify p headers) refl refl
  where
    Changes : Outcome Site Reply → Bool → Body → Result (Unit {0}) → Type 0
    Changes o filled b r =
        (state_of o ≡ site)
        ⊎ ((d : DocumentPayload) × ((filled ≡ true)
              × ((event : String) × (b ≡ webhook (some event) (document d))
                  × (r ≡ ok tt)
                  × (strip event ≡ "DOCUMENT_COMPLETED")))
            × (o ≡ acknowledged (Webhook.process_document_completed p d) site))

    checked :
        (event : Option String) (inner : InnerPayload) (r : Result (Unit {0}))
        → Changes (authenticated r (dispatch p event inner) site) true (webhook event inner) r
    checked event inner (ok u) = elim (dispatched p event inner site) [
      | inl same ↦ inl (state_of-acknowledged (dispatch p event inner) site ∙ same)
      | inr (name, d, is_event, is_inner, named, runs) ↦ inr (
        d,
        (refl, (name, rw (is_event, is_inner) refl, refl, named)),
        acknowledged-same (dispatch p event inner) (Webhook.process_document_completed p d) site
            runs,
      )
    ]
    checked event inner (err e) = by_kind (is_auth_error e)
      where
        by_kind :
            (t : Bool)
            → Changes
                ((elim t as (λ _. M Reply) [ true ↦ pure unauthorized | false ↦ raise e ]) site)
                true
                (webhook event inner)
                (err e)
        by_kind true = inl refl
        by_kind false = inl refl

    go :
        (filled : Bool) (b : Body) (r : Result (Unit {0}))
        → p.parse_body raw ≡ b
        → verify p headers ≡ r
        → Changes
            ((throw_if (not filled) empty_body >>= λ _. answer_body p headers b) site)
            filled
            b
            r
    go false b r e k = inl refl
    go true Body.not_json r e k = inl refl
    go true Body.not_a_dict r e k = inl refl
    go true (webhook event inner) r e k = rw k (checked event inner r)

-- What is left of the endpoint at such a delivery.
handle_webhook-delivered :
    (p : Platform) (raw : String) (headers : Headers) (d : DocumentPayload) (site : Site)
    → Delivers p raw headers d
    → handle_webhook p raw headers site ≡ acknowledged (Webhook.process_document_completed p d) site
unfolding handle_webhook answer_body authenticated throw_if ◌>>=◌ dispatch get_handler run_handler
    handle_document_completed first event_name dispatch_table
handle_webhook-delivered p raw headers d site (filled, (event, parsed, known, named)) =
    rw (filled, parsed, known, named) refl

completed_again :
    (p : Platform) (d : DocumentPayload) (site after : Site) (reply : Reply)
    → acknowledged (Webhook.process_document_completed p d) site ≡ returned reply after
    → acknowledged (Webhook.process_document_completed p d) after ≡ returned reply after
unfolding acknowledged pure skip ◌>>=◌
completed_again p d site after reply h =
    let (u, w, first, rest) = >>=-returned (Webhook.process_document_completed p d) _ site h in
    let is_after : w ≡ after = cc in
    let again : Webhook.process_document_completed p d after ≡ returned tt after =
      rw (← is_after) (process_document_completed-idempotent p d site w first) in
    let same : received ≡ reply = cc in
    acknowledged-same (Webhook.process_document_completed p d) skip after again
    ∙ ap (λ (r : Reply). returned r after) same

-- A request that is answered, and then delivered a second time, gets the same answer again and
-- changes nothing more.
pub handle_webhook-idempotent :
    (p : Platform) (raw : String) (headers : Headers) (site after : Site) (reply : Reply)
    → handle_webhook p raw headers site ≡ returned reply after
    → handle_webhook p raw headers after ≡ returned reply after
handle_webhook-idempotent p raw headers site after reply h =
    elim (handle_webhook-Trusted p raw headers site) [
      | inl same ↦
          let unchanged : after ≡ site = subst (λ o. state_of o ≡ site) h same in
          subst (λ w. handle_webhook p raw headers w ≡ returned reply after) (sym unchanged) h
      | inr (d, delivers, runs) ↦
          handle_webhook-delivered p raw headers d after delivers
          ∙ completed_again p d site after reply (sym runs ∙ h)
    ]
