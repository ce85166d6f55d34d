-- ===== src/Safety/Outside.antt =====
-- What comes in from outside the service layer: a review from the portal, and a webhook request.
use contract_management.Prelude.{
  sym, subst, inl, inr, String, Bool, true, false, Option, List, ◌==◌, string_eq, if◌then◌else◌,
}
use contract_management.Prelude.Text.{truthy, strip}
use contract_management.Prelude.Table
use contract_management.Exec.{Outcome, returned, raised, state_of, when, modify}
use contract_management.Exec.Laws.{Keeps, keeps_rules}
use contract_management.Workflow.{VersionStatus}
use contract_management.Site.{Approval, Site}
use contract_management.Platform.{Platform, FollowsFixture}
use contract_management.Service.Approval as Approving
use contract_management.Service.Workflow.{restore_user}
use contract_management.Safety.Frame.{On}
use contract_management.Safety.Rules.{Admits, At}
use contract_management.Safety.Approvals
use contract_management.Safety.Signatures
use contract_management.Portal.Timeline.{Names}
use contract_management.Portal.Review.{
  set_remarks, undo, rollback_to, apply_decision, decide_review, review_contract,
}
use contract_management.Portal.Atomic.{
  approval_to_review-Keeps, with_remarks, as_administrator, decision_in, decide_review-eq,
}
use contract_management.Webhook.Auth.{Headers}
use contract_management.Webhook.Endpoint.{handle_webhook}
use contract_management.Webhook.Trust.{handle_webhook-Trusted, state_of-acknowledged}
use contract_management.Service.Signature.Webhook

module _ (n : String) (R : Option VersionStatus → List Approval → Type 0) (admits : Admits n R)
    (p : Platform) where
  -- The tables are those at the start, or what the call made of them.
  undone-At :
      (start : Site) (user : String) (o : Outcome Site (Unit {0}))
      → On (At n R) start
      → On (At n R) (state_of o)
      → On (At n R) (state_of (restore_user user (undo start o)))
  unfolding restore_user undo rollback_to
  undone-At start user (returned a w) h k = k
  undone-At start user (raised e w) h k = h

  with_remarks-At :
      (remarks name : String) (site : Site)
      → On (At n R) site
      → On (At n R) (with_remarks remarks name site)
  unfolding with_remarks set_remarks when modify Table.modify
  with_remarks-At remarks name site h = go (truthy remarks)
    where
      go : (b : Bool) → On (At n R) (state_of (when b (set_remarks name remarks) site))
      go true = admits.remark _ site.approvals name (strip remarks) h
      go false = h

  applied-At :
      (action name : String) (site : Site)
      → On (At n R) site
      → On (At n R) (state_of (apply_decision p action name site))
  unfolding apply_decision
  applied-At action name site h = go (action == "approve")
    where
      go :
          (b : Bool)
          → On
              (At n R)
              (state_of ((if b then Approving.approve p name else Approving.reject p name) site))
      go true = Approvals.approve-At n R admits p name site h
      go false = Approvals.reject-At n R admits p name site h

  decide_review-Keeps :
      (action : String) (a : Approval) (remarks : String)
      → Keeps (On (At n R)) (decide_review p action a remarks)
  unfolding decision_in
  decide_review-Keeps action a remarks = record {
    at = λ site h.
        subst (λ o. On (At n R) (state_of o)) (sym (decide_review-eq p action a remarks site))
          (undone-At site site.user _ h (
            applied-At action a.name (as_administrator (with_remarks remarks a.name site))
              (with_remarks-At remarks a.name site h)));
  }

  pub review_contract-Keeps :
      (names : Names) (contract_name action remarks : String)
      → Keeps (On (At n R)) (review_contract p names contract_name action remarks)
  unfolding review_contract
  review_contract-Keeps names contract_name action remarks =
      search (keeps_rules, approval_to_review-Keeps, decide_review-Keeps) depth 12

  pub handle_webhook-Keeps :
      FollowsFixture p
      → (raw : String) (headers : Headers) → Keeps (On (At n R)) (handle_webhook p raw headers)
  handle_webhook-Keeps follows raw headers = record {
    at = λ site h. elim (handle_webhook-Trusted p raw headers site) [
      | inl same ↦ subst (On (At n R)) (sym same) h
      | inr (d, delivers, runs) ↦
          subst (λ o. On (At n R) (state_of o)) (sym runs)
            (subst (On (At n R))
              (sym (state_of-acknowledged (Webhook.process_document_completed p d) site))
              ((Signatures.process_document_completed-Keeps n R admits p follows d).at site h))
    ];
  }
