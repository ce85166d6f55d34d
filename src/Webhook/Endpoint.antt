-- ===== src/Webhook/Endpoint.antt =====
-- api/documenso_webhook.py
use contract_management.Prelude.{Bool, true, false, not, String}
use contract_management.Prelude.Text.{truthy}
use contract_management.Failure.{
  Error, Result, ok, err, missing_secret, invalid_secret, empty_body, invalid_json, not_an_object,
}
use contract_management.Exec.{raise, pure, throw_if, ◌>>◌}
use contract_management.Site.{M}
use contract_management.Platform.{Platform, Body, webhook}
use contract_management.Webhook.Auth.{Headers, verify}
use contract_management.Webhook.Dispatch.{dispatch}

-- {"status": "ok", …}, and {"status": "error", "message": "Unauthorized"} with the HTTP status 401.
pub data Reply : Type 0 where
  received unauthorized : Reply

-- DocumensoWebhookAuthError
unfoldable pub is_auth_error : Error → Bool
is_auth_error missing_secret = true
is_auth_error invalid_secret = true
is_auth_error _ = false

-- `WebhookService.handle` and the acknowledgment.
unfoldable pub acknowledged : M (Unit {0}) → M Reply
acknowledged m = do m; pure received

-- The handling, behind what `WebhookAuthenticator.verify` says.
unfoldable pub authenticated : Result (Unit {0}) → M (Unit {0}) → M Reply
unfolding acknowledged is_auth_error
authenticated (ok _) m = acknowledged m
authenticated (err e) m = elim (is_auth_error e) [ true ↦ pure unauthorized | false ↦ raise e ]

unfoldable pub answer_body : Platform → Headers → Body → M Reply
unfolding authenticated verify dispatch
answer_body p headers Body.not_json = raise invalid_json
answer_body p headers Body.not_a_dict = raise not_an_object
answer_body p headers (webhook event payload) =
    authenticated (verify p headers) (dispatch p event payload)

-- `handle_webhook`
unfoldable pub handle_webhook : Platform → String → Headers → M Reply
unfolding answer_body
handle_webhook p raw headers = do
  throw_if (not (truthy raw)) empty_body
  answer_body p headers (p.parse_body raw)
