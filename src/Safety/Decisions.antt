-- ===== src/Safety/Decisions.antt =====
-- What a decision on an approval leaves behind.
use contract_management.Prelude.{
  ◌≡◌, refl, ◌⊎◌, inl, inr, sym, ap, ◌∙◌, String, Bool, true, false, not, Option, none, some, List,
  arith, ◌==◌, string_eq, str_eq, eq_iff, if◌then◌else◌,
}
use mathlib.Core.Option
use contract_management.Prelude.Table
use contract_management.Failure.{Error, Result, ok, err}
use contract_management.Exec.{◌>>=◌, returned, skip, when, modify, gets, or_raise}
use contract_management.Exec.Laws.{
  Keeps, Keeps-returned, keeps_rules, >>=-returned, throw_if-returned,
}
use contract_management.Exec.Steps.{gets-then}
use contract_management.Workflow.{ApprovalStatus, VersionStatus, approval_status_eq}
use contract_management.Site.{Approval, ContractVersion, Site, M, find_approval}
use contract_management.Platform.{Platform}
use contract_management.Doctype.ContractVersion
use contract_management.Service.Approval
use contract_management.Service.Notification
use contract_management.Safety.Frame
use contract_management.Safety.Frame.{On}
use contract_management.Safety.Rules.{get_version-returned}
use contract_management.Safety.Status.{status_at, status_at-write, accept-same}

-- A save that returned: the status of the document stands in the table.
saved_version :
    (p : Platform) (ignore : Bool) (v s : ContractVersion) (w u : Site)
    → ContractVersion.save p ignore v w ≡ returned s u
    → (status_at v.name u.versions ≡ some v.status) × (u.approvals ≡ w.approvals)
unfolding ContractVersion.save ContractVersion.store
saved_version p ignore v s w u h = go (ContractVersion.accept p ignore w v) refl h
  where
    go :
        (o : Result ContractVersion)
        → ContractVersion.accept p ignore w v ≡ o
        → ContractVersion.store w o ≡ returned s u
        → (status_at v.name u.versions ≡ some v.status) × (u.approvals ≡ w.approvals)
    go (err x) e k = cc
    go (ok t) e k =
        let is_u : record w { versions = ContractVersion.write t w.versions } ≡ u = cc in
        let (named, same) = accept-same p ignore w v t e in
        let hit : str_eq t.name v.name ≡ true = (eq_iff t.name v.name).1 named in
        rw (← is_u) (rw (status_at-write v.name t w.versions, hit) (ap some same), refl)

-- The version has the new status if the call returns.
set_version_status-returned :
    (p : Platform) (t : VersionStatus) (x : Error) (n : String) (w u : Site)
    → Approval.set_version_status p t x n w ≡ returned tt u
    → (status_at n u.versions ≡ some t) × (u.approvals ≡ w.approvals)
unfolding Approval.set_version_status skip
set_version_status-returned p t x n w u h =
    let (v, w1, e1, h1) = >>=-returned _ _ w h in
    let (found, unchanged, named) = get_version-returned n w e1 in
    let (_, w2, e2, h2) = >>=-returned _ _ w1 h1 in
    let same2 = (throw_if-returned _ _ w1 e2).1 in
    let (s, w3, e3, h3) = >>=-returned _ _ w2 h2 in
    let (status, kept) = saved_version p false (record v { status = t }) s w2 w3 e3 in
    let last : w3 ≡ u = cc in
    (
      rw (← last, ← named) status,
      ap (λ (z : Site). z.approvals) (sym last)
          ∙ kept
          ∙ ap (λ (z : Site). z.approvals) (same2 ∙ unchanged),
    )

-- The approval that the call reads, from the table as it was.
get_approval-found :
    (k : String) (w : Site) {a : Approval} {u : Site}
    → Approval.get_approval k w ≡ returned a u
    → (find_approval k w.approvals ≡ some a) × (u ≡ w)
unfolding Approval.get_approval ◌>>=◌
get_approval-found k w {a} {u} h = go (find_approval k w.approvals) h
  where
    go :
        (o : Option Approval)
        → or_raise o Error.does_not_exist w ≡ returned a u
        → (o ≡ some a) × (u ≡ w)
    go none e = cc
    go (some b) e = (cc, cc)

abbrev pub decided : ApprovalStatus → String → Site → List Approval
decided status k w = Table.modify (λ a. a.name) k (Approval.decide status w.now) w.approvals

decision_written :
    (status : ApprovalStatus) (k : String) (w u : Site)
    → Approval.set_decision k status w ≡ returned tt u
    → u.approvals ≡ decided status k w
unfolding Approval.set_decision modify
decision_written status k w u h =
    let is_u : record w { approvals = decided status k w } ≡ u = cc in rw (← is_u) refl

module _ (Q : List ContractVersion → List Approval → Type 0) where
  collaborator-Keeps :
      (p : Platform) (a : Approval) (status : ApprovalStatus)
      → Keeps (On Q) (Approval.update_collaborator_status p a status)
  unfolding Approval.update_collaborator_status
  collaborator-Keeps p a status =
      search (keeps_rules, Frame.get_contract-Keeps, Frame.Contract_save-Keeps) depth 12

is_pending :
    (s : ApprovalStatus) → not (s == ApprovalStatus.pending) ≡ false → s ≡ ApprovalStatus.pending
is_pending s h = ground (arith, approval_status_eq.beq_iff s ApprovalStatus.pending)

-- A notification leaves the versions and the approvals as they are.
notified :
    (p : Platform) (name : String) (event : Notification.NotificationEvent)
    (doc : Notification.Document) (n : String) (t : VersionStatus) (w v : Site)
    → status_at n w.versions ≡ some t
    → Notification.notify_safely name (Notification.notify_about p event doc) w ≡ returned tt v
    → (status_at n v.versions ≡ some t) × (v.approvals ≡ w.approvals)
notified p name event doc n t w v status h =
    let Y : List ContractVersion → List Approval → Type 0 =
      λ versions rows. (status_at n versions ≡ some t) × (rows ≡ w.approvals) in
    Keeps-returned (On Y) (Frame.notify_about_safely-Keeps Y p name event doc) w (status, refl) h

-- What a decision on the approval `a` makes of the table: this row has the new status and the current
-- time as its date, and every other row is as it was.
abbrev pub IsDecided : ApprovalStatus → String → Approval → Site → Site → Type 0
IsDecided status k a w v =
    (n : String)
    → find_approval n v.approvals ≡ (
        if str_eq k n
        then some (record a { status = status; approval_date = w.now })
        else find_approval n w.approvals)

decided-IsDecided :
    (status : ApprovalStatus) (k : String) (a : Approval) (w v : Site)
    → find_approval k w.approvals ≡ some a
    → v.approvals ≡ decided status k w
    → IsDecided status k a w v
decided-IsDecided status k a w v found written n =
    rw (written, Table.find-modify (λ a. a.name) (Approval.decide status w.now) (λ r. refl) k n)
      (go (str_eq k n) refl)
  where
    go :
        (b : Bool)
        → str_eq k n ≡ b
        → (if b
            then Option.map (Approval.decide status w.now) (find_approval n w.approvals)
            else find_approval n w.approvals)
          ≡ (if b
              then some (record a { status = status; approval_date = w.now })
              else find_approval n w.approvals)
    go true e =
        let same : k ≡ n = (eq_iff k n).0 e in
        let found' : find_approval n w.approvals ≡ some a = rw (← same) found in
        ap (Option.map (Approval.decide status w.now)) found'
    go false e = refl

-- The effect of a call of `reject` that returned.
pub reject_effect :
    (p : Platform) (k : String) (w v : Site)
    → Approval.reject p k w ≡ returned tt v
    → (a : Approval) × (find_approval k w.approvals ≡ some a)
      × (a.status ≡ ApprovalStatus.pending)
      × (v.approvals ≡ decided ApprovalStatus.rejected k w)
      × (status_at a.contract_version v.versions ≡ some VersionStatus.rejected)
unfolding Approval.reject Approval.reject_version
reject_effect p k w v h =
    let (a, w1, e1, h1) = >>=-returned _ _ w h in
    let (found, same1) = get_approval-found k w e1 in
    let (_, w2, e2, h2) = >>=-returned _ _ w1 h1 in
    let (pending, same2) = throw_if-returned _ _ w1 e2 in
    let (_, w3, e3, h3) = >>=-returned _ _ w2 h2 in
    let written = decision_written ApprovalStatus.rejected k w2 w3 e3 in
    let (_, w4, e4, h4) = >>=-returned _ _ w3 h3 in
    let X : List ContractVersion → List Approval → Type 0 = λ _ rows. rows ≡ w3.approvals in
    let kept4 =
      Keeps-returned (On X) (collaborator-Keeps X p a ApprovalStatus.rejected) w3 refl e4 in
    let (_, w5, e5, h5) = >>=-returned _ _ w4 h4 in
    let (status, kept5) =
      set_version_status-returned p VersionStatus.rejected _ a.contract_version w4 w5 e5 in
    let (status', kept6) =
      notified p _ _ _ a.contract_version VersionStatus.rejected w5 v status h5 in
    (
      a,
      found,
      is_pending a.status pending,
      kept6 ∙ kept5 ∙ kept4 ∙ written ∙ ap (decided ApprovalStatus.rejected k) (same2 ∙ same1),
      status',
    )

-- A call of `reject` that returned found the approval Pending. Afterwards the approval is Rejected
-- with the current time as its date, the other approvals are as they were, and the version that it
-- is about is Rejected.
pub reject-returned :
    (p : Platform) (k : String) (w v : Site)
    → Approval.reject p k w ≡ returned tt v
    → (a : Approval) × (find_approval k w.approvals ≡ some a)
      × (a.status ≡ ApprovalStatus.pending)
      × IsDecided ApprovalStatus.rejected k a w v
      × (status_at a.contract_version v.versions ≡ some VersionStatus.rejected)
reject-returned p k w v h =
    let (a, found, pending, written, status) = reject_effect p k w v h in
    (a, found, pending, decided-IsDecided ApprovalStatus.rejected k a w v found written, status)

when-returned :
    (b : Bool) (m : M (Unit {0})) (w : Site) {v : Site}
    → when b m w ≡ returned tt v
    → ((b ≡ true) × (m w ≡ returned tt v)) ⊎ ((b ≡ false) × (v ≡ w))
unfolding when skip
when-returned true m w h = inl (refl, h)
when-returned false m w h = inr (refl, cc)

-- The version is Approved if all its approvals are.
approve_version-when :
    (p : Platform) (b : Bool) (n : String) (w v : Site)
    → when b (Approval.approve_version p n) w ≡ returned tt v
    → (v.approvals ≡ w.approvals)
      × (b ≡ true → status_at n v.versions ≡ some VersionStatus.approved)
unfolding Approval.approve_version
approve_version-when p b n w v h = elim (when-returned b (Approval.approve_version p n) w h) [
  | inl (e, k) ↦
      let (status, kept) = set_version_status-returned p VersionStatus.approved _ n w v k in
      (kept, λ _. status)
  | inr (e, same) ↦ (ap (λ (x : Site). x.approvals) same, λ f. cc)
]

-- A call of `approve` that returned found the approval Pending and decided it.
pub approve-returned :
    (p : Platform) (k : String) (w v : Site)
    → Approval.approve p k w ≡ returned tt v
    → (a : Approval) × (find_approval k w.approvals ≡ some a)
      × (a.status ≡ ApprovalStatus.pending)
      × (v.approvals ≡ decided ApprovalStatus.approved k w)
      × (Approval.check_all_approved a.contract_version (decided ApprovalStatus.approved k w) ≡ true
          → status_at a.contract_version v.versions ≡ some VersionStatus.approved)
unfolding Approval.approve gets
approve-returned p k w v h =
    let (b, w1, e1, h1) = >>=-returned _ _ w h in
    let (found, same1) = get_approval-found k w e1 in
    let (_, w2, e2, h2) = >>=-returned _ _ w1 h1 in
    let (pending, same2) = throw_if-returned _ _ w1 e2 in
    let (_, w3, e3, h3) = >>=-returned _ _ w2 h2 in
    let written = decision_written ApprovalStatus.approved k w2 w3 e3 in
    let (_, w4, e4, h4) = >>=-returned _ _ w3 h3 in
    let X : List ContractVersion → List Approval → Type 0 = λ _ rows. rows ≡ w3.approvals in
    let kept4 =
      Keeps-returned (On X) (collaborator-Keeps X p b ApprovalStatus.approved) w3 refl e4 in
    let so_far : w4.approvals ≡ decided ApprovalStatus.approved k w =
      kept4 ∙ written ∙ ap (decided ApprovalStatus.approved k) (same2 ∙ same1) in
    let h5 = gets-then _ w4 _ h4 in
    let (_, w6, e6, h6) = >>=-returned _ _ w4 h5 in
    let (kept6, approves) = approve_version-when p _ b.contract_version w4 w6 e6 in
    let Y : List ContractVersion → List Approval → Type 0 =
      λ versions rows. (versions ≡ w6.versions) × (rows ≡ w6.approvals) in
    let (kept_versions, kept7) =
      Keeps-returned (On Y) (Frame.notify_about_safely-Keeps Y p _ _ _) w6 (refl, refl) h6 in
    (
      b,
      found,
      is_pending b.status pending,
      kept7 ∙ kept6 ∙ so_far,
      λ all.
          let ready : Approval.check_all_approved b.contract_version w4.approvals ≡ true =
            rw so_far all in
          rw kept_versions (approves ready),
    )

-- A call of `approve` that returned, on an approval without which all approvals of its version would
-- be Approved: it was Pending, is Approved afterwards with the current time as its date, the other
-- approvals are as they were, and the version is Approved.
pub approve-last :
    (p : Platform) (k : String) (w v : Site) (a : Approval)
    → find_approval k w.approvals ≡ some a
    → Approval.check_all_approved a.contract_version (decided ApprovalStatus.approved k w) ≡ true
    → Approval.approve p k w ≡ returned tt v
    → (a.status ≡ ApprovalStatus.pending)
      × (v.approvals ≡ decided ApprovalStatus.approved k w)
      × IsDecided ApprovalStatus.approved k a w v
      × (status_at a.contract_version v.versions ≡ some VersionStatus.approved)
approve-last p k w v a found all h =
    let (b, found', pending, written, approves) = approve-returned p k w v h in
    let same : b ≡ a = cc in
    (
      rw (← same) pending,
      written,
      decided-IsDecided ApprovalStatus.approved k a w v found written,
      rw (← same) (approves (rw same all)),
    )
