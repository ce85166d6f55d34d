-- ===== src/Safety/History.antt =====
-- Any sequence of calls of the service layer, the portal and the webhook, each made by some user at
-- some time. A request that fails and is rolled back leaves the site as it was, which is no step.
use contract_management.Prelude.{String, Option, List, string_eq}
use contract_management.Exec.{◌>>=◌, ◌>>◌, state_of, skip}
use contract_management.Exec.Laws.{Keeps, keeps_rules}
use contract_management.Workflow.{VersionStatus, approval_status_eq}
use contract_management.Site.{Approval, Site, M}
use contract_management.Platform.{Platform, FollowsFixture, NamesAreFresh}
use contract_management.Service.Notification.{get_version}
use contract_management.Service.Approval
use contract_management.Service.ContractVersion
use contract_management.Service.Signature.Create
use contract_management.Service.Signature.Create.{RecipientData}
use contract_management.Service.Signature.Send
use contract_management.Service.Signature.Sign
use contract_management.Service.Signature.Webhook
use contract_management.Service.Signature.Webhook.{DocumentPayload}
use contract_management.Service.Signature.Cancel
use contract_management.Safety.Frame
use contract_management.Safety.Frame.{On}
use contract_management.Safety.Rules.{Admits, At}
use contract_management.Safety.Approvals
use contract_management.Safety.Signing
use contract_management.Safety.Signatures
use contract_management.Safety.Outside
use contract_management.Portal.Timeline.{Names}
use contract_management.Portal.Review
use contract_management.Webhook.Auth.{Headers}
use contract_management.Webhook.Endpoint

-- The calls of the service layer, a review from the portal, and a webhook request.
pub data Command : Type 0 where
  approve reject submit_for_review : String → Command
  create_signature_request : String → List RecipientData → Command
  send_signature_request cancel_signature_request : String → Command
  mark_recipient_signed : String → String → Command
  document_completed : DocumentPayload → Command
  review_contract : Names → (contract_name action remarks : String) → Command
  handle_webhook : String → Headers → Command

unfoldable pub serve : Platform → Command → M (Unit {0})
serve p (approve name) = Approval.approve p name
serve p (reject name) = Approval.reject p name
serve p (submit_for_review name) = do
  version ← get_version name
  ContractVersion.submit_for_review p version
  skip
serve p (create_signature_request name rows) = do Create.create_signature_request p name rows; skip
serve p (send_signature_request name) = do Send.send_signature_request p name; skip
serve p (cancel_signature_request name) = do Cancel.cancel_signature_request p name; skip
serve p (mark_recipient_signed name signer) = do Sign.mark_recipient_signed p name signer; skip
serve p (document_completed payload) = Webhook.process_document_completed p payload
serve p (review_contract names contract_name action remarks) = do
  Review.review_contract p names contract_name action remarks
  skip
serve p (handle_webhook raw headers) = do Endpoint.handle_webhook p raw headers; skip

-- What a sequence of requests makes of a site.
pub data Reach (p : Platform) (start : Site) : Site → Type 0 where
  here : Reach p start start
  call :
      {site : Site} (c : Command) → Reach p start site → Reach p start (state_of (serve p c site))
  request :
      {site : Site} (user now : String)
      → Reach p start site
      → Reach p start (record site { user = user; now = now })

module _ (p : Platform) (follows : FollowsFixture p) (names : NamesAreFresh p) (n : String)
    (R : Option VersionStatus → List Approval → Type 0) (admits : Admits n R) where
  approve-Keeps : (name : String) → Keeps (On (At n R)) (Approval.approve p name)
  approve-Keeps name = record { at = λ site h. Approvals.approve-At n R admits p name site h }

  reject-Keeps : (name : String) → Keeps (On (At n R)) (Approval.reject p name)
  reject-Keeps name = record { at = λ site h. Approvals.reject-At n R admits p name site h }

  serve-Keeps : (c : Command) → Keeps (On (At n R)) (serve p c)
  unfolding serve
  serve-Keeps (approve name) = approve-Keeps name
  serve-Keeps (reject name) = reject-Keeps name
  serve-Keeps (submit_for_review name) =
      search
        (
          keeps_rules,
          Frame.get_version-Keeps,
          Approvals.submit_for_review-Keeps n R admits p follows names,
        )
        depth 12
  serve-Keeps (create_signature_request name rows) =
      search (keeps_rules, Signing.create-Keeps) depth 12
  serve-Keeps (send_signature_request name) =
      search (keeps_rules, Signatures.send_signature_request-Keeps n R admits p follows) depth 12
  serve-Keeps (cancel_signature_request name) =
      search (keeps_rules, Signatures.cancel_signature_request-Keeps n R admits p follows) depth 12
  serve-Keeps (mark_recipient_signed name signer) =
      search (keeps_rules, Signatures.mark_recipient_signed-Keeps n R admits p follows) depth 12
  serve-Keeps (document_completed payload) =
      Signatures.process_document_completed-Keeps n R admits p follows payload
  serve-Keeps (review_contract names contract_name action remarks) =
      search (keeps_rules, Outside.review_contract-Keeps n R admits p) depth 12
  serve-Keeps (handle_webhook raw headers) =
      search (keeps_rules, Outside.handle_webhook-Keeps n R admits p follows) depth 12

  pub Reach-Keeps : {s t : Site} → Reach p s t → On (At n R) s → On (At n R) t
  Reach-Keeps here h = h
  Reach-Keeps (call {site = w} c r) h = (serve-Keeps c).at w (Reach-Keeps r h)
  Reach-Keeps (request user now r) h = Reach-Keeps r h
