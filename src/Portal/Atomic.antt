-- ===== src/Portal/Atomic.antt =====
-- portal_api.py: `review_contract` as a transaction.
use contract_management.Prelude.{
  ◌≡◌, refl, ◌⊎◌, inl, inr, Bool, true, false, String, string_eq, ap, sym, ◌∙◌, subst,
}
use contract_management.Prelude.Text.{truthy}
use contract_management.Failure.{Error, err}
use contract_management.Exec.{Outcome, returned, raised, state_of, gets, lift, when, ◌>>=◌, ◌>>◌}
use contract_management.Exec.Laws.{Keeps, keeps_rules, Keeps-returned}
use contract_management.Exec.Steps.{>>=-raised, query-raised}
use contract_management.Site.{Approval, Site}
use contract_management.Platform.{Platform}
use contract_management.Service.Workflow.{as_user, restore_user}
use contract_management.Portal.Timeline.{Names}
use contract_management.Portal.GetDetail.{get_contract_detail}
use contract_management.Portal.Review.{
  approval_to_review, set_remarks, undo, rollback_to, or_rollback, apply_decision, decide_review,
  review_contract,
}

-- The tables of the site are the same.
abbrev pub SameTables : Site → Site → Type 0
SameTables s t =
    (t.counterparties ≡ s.counterparties)
    × (t.contracts ≡ s.contracts)
    × (t.versions ≡ s.versions)
    × (t.approvals ≡ s.approvals)
    × (t.requests ≡ s.requests)
    × (t.files ≡ s.files)

-- The site with the remarks on the approval, if there are any.
unfoldable pub with_remarks : String → String → Site → Site
unfolding set_remarks
with_remarks remarks name site = state_of (when (truthy remarks) (set_remarks name remarks) site)

abbrev pub as_administrator : Site → Site
as_administrator site = record site { user = "Administrator" }

-- The writes of a review, as one call in the site that they start from.
unfoldable pub decision_in : Platform → String → String → Site → Outcome Site (Unit {0})
decision_in p action name site = apply_decision p action name (as_administrator site)

pub decide_review-eq :
    (p : Platform) (action : String) (a : Approval) (remarks : String) (site : Site)
    → decide_review p action a remarks site
      ≡ restore_user site.user
          (undo site (decision_in p action a.name (with_remarks remarks a.name site)))
unfolding decide_review decision_in with_remarks as_user or_rollback ◌>>=◌ set_remarks
decide_review-eq p action a remarks site = go (truthy remarks)
  where
    go :
        (b : Bool)
        → ((gets (λ s. s) >>= λ start.
              (when b (set_remarks a.name remarks)
                >> as_user "Administrator" (or_rollback start (apply_decision p action a.name))))
            site)
          ≡ restore_user site.user (
              undo site (
                apply_decision p action a.name
                  (as_administrator (state_of (when b (set_remarks a.name remarks) site)))))
    go true = refl
    go false = refl

-- What is undone after a raise, and what stays after a return.
pub undone :
    (start : Site) (user : String) (o : Outcome Site (Unit {0})) (e : Error) (after : Site)
    → restore_user user (undo start o) ≡ raised e after
    → SameTables start after × (after.user ≡ user)
unfolding restore_user undo rollback_to
undone start user (returned t w) e after h = cc
undone start user (raised x w) e after h =
    let is_after : record (rollback_to start w) { user = user } ≡ after = cc in
    rw (← is_after) ((refl, refl, refl, refl, refl, refl), refl)

pub stays :
    (start : Site) (user : String) (o : Outcome Site (Unit {0})) (after : Site)
    → restore_user user (undo start o) ≡ returned tt after
    → (w : Site) × (o ≡ returned tt w) × (after ≡ record w { user = user })
unfolding restore_user undo
stays start user (returned tt w) after h = (w, refl, cc)
stays start user (raised x w) after h = cc

-- The checks write nothing.
pub approval_to_review-Keeps :
    (p : Platform) (contract_name action : String) (P : Site → Type 0)
    → Keeps P (approval_to_review p contract_name action)
unfolding approval_to_review
approval_to_review-Keeps p contract_name action P = search keeps_rules depth 12

-- A review that raises leaves every table as it was, unless the decision was made and only the
-- answer that reads the site again raised; in every case the session's user is the same as before.
pub review_contract-Atomic :
    (p : Platform) (names : Names) (contract_name action remarks : String) (site : Site) (e : Error)
    (after : Site)
    → review_contract p names contract_name action remarks site ≡ raised e after
    → (after.user ≡ site.user)
      × (SameTables site after
          ⊎ ((a : Approval) × (decide_review p action a remarks site ≡ returned tt after)
              × (get_contract_detail p names contract_name after ≡ err e)))
unfolding review_contract
review_contract-Atomic p names contract_name action remarks site e after h =
    elim (>>=-raised (approval_to_review p contract_name action) _ site h) [
      | inl early ↦
          let same : after ≡ site =
            subst (λ o. state_of o ≡ site) early
              ((approval_to_review-Keeps p contract_name action (λ w. w ≡ site)).at site refl) in
          rw same (refl, inl (refl, refl, refl, refl, refl, refl))
      | inr (a, u, got, rest) ↦
          let same : u ≡ site =
            Keeps-returned (λ w. w ≡ site)
              (approval_to_review-Keeps p contract_name action (λ w. w ≡ site)) site refl got in
          in_decision a (rw (← same) rest)
    ]
  where
    in_decision :
        (a : Approval)
        → (decide_review p action a remarks >>= λ _.
              gets (get_contract_detail p names contract_name) >>= lift)
            site
          ≡ raised e after
        → (after.user ≡ site.user)
          × (SameTables site after
              ⊎ ((a : Approval) × (decide_review p action a remarks site ≡ returned tt after)
                  × (get_contract_detail p names contract_name after ≡ err e)))
    in_decision a h = elim (>>=-raised (decide_review p action a remarks) _ site h) [
      | inl failed ↦
          let kept =
            undone site site.user _ e after
              (sym (decide_review-eq p action a remarks site) ∙ failed) in
          (kept.1, inl kept.0)
      | inr (t, w, decided, rest) ↦
          let (failed, same) = query-raised (get_contract_detail p names contract_name) w rest in
          let left =
            stays site site.user _ w (sym (decide_review-eq p action a remarks site) ∙ decided) in
          (ap (λ (s : Site). s.user) (same ∙ left.2), inr (a, rw same decided, rw same failed))
    ]
