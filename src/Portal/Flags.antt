-- ===== src/Portal/Flags.antt =====
-- portal_api.py: what the flags of `get_contract_detail` promise.
use contract_management.Prelude.{
  ◌≡◌, refl, sym, ap, ◌∙◌, subst, Bool, true, false, ◌&&◌, ◌||◌, String, Option, none, some, List,
  [], ◌∷◌, ◌==◌, string_eq, arith, if◌then◌else◌,
}
use contract_management.Prelude.Order.{In, In-filter}
use contract_management.Prelude.Lists.{filter}
use contract_management.Prelude.Text.{truthy}
use contract_management.Failure.{ok, >>=-eq-ok, no_contract_access}
use contract_management.Exec.{returned, or_raise, throw_if, gets, lift, ◌>>=◌}
use contract_management.Workflow.{
  ApprovalStatus, VersionStatus, SignatureRecipientStatus, approval_status_eq, version_status_eq,
  recipient_status_eq,
}
use contract_management.Site.{
  Contract, ContractVersion, Approval, SignatureRequest, SignatureRecipient, Site, find_contract,
}
use contract_management.Platform.{Platform, OneRow}
use contract_management.Portal.{Member, require_counterparty, owned_contract, or_throw}
use contract_management.Portal.Timeline.{Names, Event, timeline}
use contract_management.Portal.Detail.{
  Detail, SignatureInfo, versions_of, requests_for, current_version_of, awaits_signature,
  matched_recipient, is_pending_recipient, url_shown, own_approval, has_status, signature_info,
  is_current_of,
}
use contract_management.Portal.GetDetail.{
  answer, request_of, decision_of, signing_url_of, version_has, get_contract_detail,
}
use contract_management.Portal.Decision.{is_pending_of-true}
use contract_management.Portal.Review.{
  version_to_review, is_pending_of, pending_approval, approval_to_review,
}

-- How an answer came about.
answered :
    (p : Platform) (names : Names) (contract_name : String) (site : Site) (d : Detail)
    → get_contract_detail p names contract_name site ≡ ok d
    → (member : Member) × (contract : Contract) × (events : List Event) × (require_counterparty p
          site
        ≡ ok member)
      × (owned_contract member (find_contract contract_name site.contracts) ≡ some contract)
      × (answer p names site member contract
            (current_version_of p contract_name site.versions)
            events
          ≡ d)
unfolding get_contract_detail
answered p names contract_name site d h =
    let (member, user, h1) = >>=-eq-ok (require_counterparty p site) _ h in
    let (contract, owned, h2) = >>=-eq-ok (or_throw _ no_contract_access) _ h1 in
    let versions = versions_of contract_name site.versions in
    let (events, timed, h3) =
      >>=-eq-ok
        (timeline p names contract versions
          (filter (λ a. a.contract == contract_name) site.approvals)
          (requests_for versions site.requests))
        _ h2 in
    (member, contract, events, user, found _ contract owned, cc)
  where
    found : (o : Option Contract) (c : Contract) → or_throw o no_contract_access ≡ ok c → o ≡ some c
    found none c e = cc
    found (some b) c e = cc

-- The request waits for the recipient with the counterparty's address.
abbrev pub AwaitsMember : Member → SignatureRequest → Type 0
AwaitsMember member r =
    (awaits_signature r.status ≡ true)
    × ((s : SignatureRecipient) × (matched_recipient member.email r.signature_recipients ≡ some s)
        × (s.status ≡ SignatureRecipientStatus.pending))

status_is :
    (s : SignatureRecipientStatus)
    → (s == SignatureRecipientStatus.pending) ≡ true
    → s ≡ SignatureRecipientStatus.pending
status_is s h = ground arith

url_shown-Awaits :
    (member : Member) (o : Option SignatureRequest)
    → truthy (url_shown member o) ≡ true
    → (r : SignatureRequest) × (o ≡ some r)
      × (url_shown member o ≡ r.signing_url)
      × AwaitsMember member r
unfolding url_shown
url_shown-Awaits member none h = ground arith
url_shown-Awaits member (some r) h =
    go (awaits_signature r.status) (truthy r.signing_url)
      (matched_recipient member.email r.signature_recipients) refl refl h
  where
    go :
        (a b : Bool) (o : Option SignatureRecipient)
        → awaits_signature r.status ≡ a
        → matched_recipient member.email r.signature_recipients ≡ o
        → truthy (if a && (b && is_pending_recipient o) then r.signing_url else "") ≡ true
        → (q : SignatureRequest) × (some r ≡ some q)
          × ((if a && (b && is_pending_recipient o) then r.signing_url else "") ≡ q.signing_url)
          × AwaitsMember member q
    go false b o e found k = ground arith
    go true false o e found k = ground arith
    go true true none e found k = ground arith
    go true true (some s) e found k =
        by_status (s.status == SignatureRecipientStatus.pending) refl k
      where
        by_status :
            (t : Bool)
            → (s.status == SignatureRecipientStatus.pending) ≡ t
            → truthy (if t then r.signing_url else "") ≡ true
            → (q : SignatureRequest) × (some r ≡ some q)
              × ((if t then r.signing_url else "") ≡ q.signing_url)
              × AwaitsMember member q
        by_status true is_pending last =
            (r, refl, refl, (e, (s, found, status_is s.status is_pending)))
        by_status false is_pending last = ground arith

signing_url_of-Awaits :
    (member : Member) (site : Site) (current : Option ContractVersion)
    → truthy (signing_url_of member site current) ≡ true
    → (v : ContractVersion) × (r : SignatureRequest) × (current ≡ some v)
      × (v.status ≡ VersionStatus.signature_requested)
      × (request_of site (some v) ≡ some r)
      × (signing_url_of member site current ≡ r.signing_url)
      × AwaitsMember member r
unfolding signing_url_of
signing_url_of-Awaits member site none h = ground arith
signing_url_of-Awaits member site (some v) h =
    go (v.status == VersionStatus.signature_requested) refl h
  where
    go :
        (b : Bool)
        → (v.status == VersionStatus.signature_requested) ≡ b
        → truthy (if b then url_shown member (request_of site (some v)) else "") ≡ true
        → (u : ContractVersion) × (r : SignatureRequest) × (some v ≡ some u)
          × (u.status ≡ VersionStatus.signature_requested)
          × (request_of site (some u) ≡ some r)
          × ((if b then url_shown member (request_of site (some v)) else "") ≡ r.signing_url)
          × AwaitsMember member r
    go true e k =
        let (r, found, url, awaits) = url_shown-Awaits member (request_of site (some v)) k in
        (v, r, refl, ground arith, found, url, awaits)
    go false e k = ground arith

-- If the page offers to sign, then the contract's version in question has the status Signature
-- Requested, its latest request waits for signatures, the first of its recipients who has the
-- counterparty's address is Pending, and the URL that the page opens is the one on that request.
pub get_contract_detail-CanSign :
    (p : Platform) (names : Names) (contract_name : String) (site : Site) (d : Detail)
    → get_contract_detail p names contract_name site ≡ ok d
    → d.can_sign ≡ true
    → (member : Member) × (v : ContractVersion) × (r : SignatureRequest) × (require_counterparty p
          site
        ≡ ok member)
      × (current_version_of p contract_name site.versions ≡ some v)
      × (v.status ≡ VersionStatus.signature_requested)
      × (request_of site (some v) ≡ some r)
      × (d.signing_url ≡ r.signing_url)
      × AwaitsMember member r
unfolding answer
get_contract_detail-CanSign p names contract_name site d h can =
    let (member, contract, events, user, owned, is_d) = answered p names contract_name site d h in
    let shown : truthy
          (signing_url_of member site (current_version_of p contract_name site.versions))
        ≡ true =
      ap (λ (x : Detail). x.can_sign) is_d ∙ can in
    let (v, r, current, status, latest, url, awaits) = signing_url_of-Awaits member site _ shown in
    (
      member,
      v,
      r,
      user,
      current,
      status,
      latest,
      sym (ap (λ (x : Detail). x.signing_url) is_d) ∙ url,
      awaits,
    )

-- The answer names the latest signature request of the version together with its signing URL,
-- whoever of its recipients the URL belongs to, and whether or not the page offers to sign.
pub get_contract_detail-Exposes :
    (p : Platform) (names : Names) (contract_name : String) (site : Site) (d : Detail)
    (v : ContractVersion) (r : SignatureRequest)
    → get_contract_detail p names contract_name site ≡ ok d
    → current_version_of p contract_name site.versions ≡ some v
    → request_of site (some v) ≡ some r
    → (s : SignatureInfo) × (d.signature ≡ some s) × (s.signing_url ≡ r.signing_url)
unfolding answer
get_contract_detail-Exposes p names contract_name site d v r h current latest =
    let (member, contract, events, user, owned, is_d) = answered p names contract_name site d h in
    (
      signature_info r,
      sym (ap (λ (x : Detail). x.signature) is_d) ∙ rw (current, latest) refl,
      refl,
    )

-- A query with "limit 1" that has a row to answer with answers with one.
pub one-some :
    {A : Type 0} (q : OneRow A) (rows : List A) (a : A)
    → In a rows
    → (b : A) × (q.one rows ≡ some b) × In b rows
one-some q [] a h = absurd h
one-some {A} q (x ∷ rows) a h = go (q.one (x ∷ rows)) refl
  where
    go :
        (o : Option A)
        → q.one (x ∷ rows) ≡ o
        → (b : A) × (q.one (x ∷ rows) ≡ some b) × In b (x ∷ rows)
    go none e = absurd (q.one_nonempty x rows e)
    go (some b) e = (b, e, q.one_of (x ∷ rows) b e)

-- The user's approval that the answer looks at, if it is Pending, is one that a review may decide.
own-pending :
    (p : Platform) (user name : String) (rows : List Approval)
    → has_status ApprovalStatus.pending (own_approval p user name rows) ≡ true
    → (b : Approval) × (pending_approval p user name rows ≡ some b)
      × (is_pending_of user name b ≡ true)
unfolding own_approval pending_approval is_pending_of
own-pending p user name rows h =
    go
      (p.one_approval.one (filter (λ a. (a.contract_version == name) && (a.approver == user)) rows))
      refl h
  where
    go :
        (o : Option Approval)
        → p.one_approval.one
            (filter (λ a. (a.contract_version == name) && (a.approver == user)) rows)
          ≡ o
        → has_status ApprovalStatus.pending o ≡ true
        → (b : Approval) × (pending_approval p user name rows ≡ some b)
          × (is_pending_of user name b ≡ true)
    go none e k = cc
    go (some a) e k =
        let (listed, own) =
          (In-filter (λ a. (a.contract_version == name) && (a.approver == user)) a rows).0
            (p.one_approval.one_of _ a e) in
        let pending : is_pending_of user name a ≡ true = ground (arith, own, k) in
        let (b, found, listed') =
          one-some p.one_approval (filter (is_pending_of user name) rows) a
            ((In-filter (is_pending_of user name) a rows).1 (listed, pending)) in
        (b, found, ((In-filter (is_pending_of user name) b rows).0 listed').1)

status_of_version :
    (s : VersionStatus) → (s == VersionStatus.under_review) ≡ true → s ≡ VersionStatus.under_review
status_of_version s h = ground arith

both : (a b : Bool) → (a && b) ≡ true → (a ≡ true) × (b ≡ true)
both a b h = ground arith

-- If the page offers to review a contract with a version that is marked current, then the checks of
-- `review_contract` let the session's user through, with either action.
pub get_contract_detail-CanReview :
    (p : Platform) (names : Names) (contract_name action : String) (site : Site) (d : Detail)
    (v : ContractVersion)
    → get_contract_detail p names contract_name site ≡ ok d
    → d.can_review ≡ true
    → p.one_version.one (filter (is_current_of contract_name) site.versions) ≡ some v
    → ((action == "approve") || (action == "reject")) ≡ true
    → (a : Approval) × (approval_to_review p contract_name action site ≡ returned a site)
      × (v.status ≡ VersionStatus.under_review)
      × (a.contract_version ≡ v.name)
      × (a.approver ≡ site.user)
      × (a.status ≡ ApprovalStatus.pending)
unfolding answer current_version_of version_to_review decision_of approval_to_review or_raise
    throw_if gets lift ◌>>=◌
get_contract_detail-CanReview p names contract_name action site d v h can marked valid =
    let (member, contract, events, user, owned, is_d) = answered p names contract_name site d h in
    let current : current_version_of p contract_name site.versions ≡ some v = rw marked refl in
    let reviewed : version_to_review p contract_name site.versions ≡ some v = rw marked refl in
    let flags : (version_has VersionStatus.under_review (some v)
          && has_status ApprovalStatus.pending (decision_of p site (some v)))
        ≡ true =
      subst
        (λ o.
          (version_has VersionStatus.under_review o
            && has_status ApprovalStatus.pending (decision_of p site o))
          ≡ true)
        current (ap (λ (x : Detail). x.can_review) is_d ∙ can) in
    let (under_review, pending) = both _ _ flags in
    let (a, found, own) = own-pending p site.user v.name site.approvals pending in
    let mine = is_pending_of-true site.user v.name a own in
    (
      a,
      rw (user, valid, owned, reviewed, found) refl,
      status_of_version v.status under_review,
      mine.0,
      mine.1,
      mine.2,
    )
