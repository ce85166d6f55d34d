-- ===== src/Portal/Timeline.antt =====
-- portal_api.py: the timeline of `get_contract_detail`.
use Prim.Native.String.{◌++◌}
use contract_management.Prelude.{
  ◌+◌, String, Option, none, some, List, [], ◌∷◌, ◌==◌, string_eq, if◌then◌else◌,
}
use contract_management.Prelude.Int.{ℤ, pos, negsuc}
use contract_management.Prelude.Order.{sort_by}
use contract_management.Prelude.Lists.{append}
use contract_management.Prelude.Text.{truthy, decimal}
use contract_management.Failure.{Result, ok, err, key_error, ◌>>=◌}
use contract_management.Workflow.{ApprovalStatus, VersionStatus, approval_status_eq}
use contract_management.Site.{Contract, ContractVersion, Approval, SignatureRequest}
use contract_management.Platform.{Platform}
use contract_management.Prelude.Timestamps.{not_before}

-- The process's dictionary _USER_FULL_NAME as a request finds it. What the request itself adds to it
-- are the names that it would look up again.
abbrev pub Names : Type 0
Names = List (String × String)

unfoldable pub cached : String → Names → Option String
cached user [] = none
cached user ((u, name) ∷ rest) = if u == user then some name else cached user rest

-- frappe.db.get_value(…) or user
abbrev pub name_or : String → Option String → String
name_or user none = user
name_or user (some name) = if truthy name then name else user

-- `_user_full_name`
unfoldable pub user_full_name : Platform → Names → String → String
unfolding cached
user_full_name p names user =
    if truthy user
    then elim (cached user names) [ some name ↦ name | none ↦ name_or user (p.full_name user) ]
    else ""

pub record Event : Type 0 where
  pub type : String
  pub title : String
  pub subtitle : String
  pub at : String
  pub tone : String

-- `_add`: an event without a time is left out.
abbrev pub add : Event → List Event → List Event
add e events = if truthy e.at then e ∷ events else events

-- str(n)
unfoldable pub number_text : Option ℤ → String
number_text none = "None"
number_text (some (pos n)) = decimal n
number_text (some (negsuc n)) = "-" ++ decimal (n + 1)

abbrev pub version_text : Option ℤ → String
version_text n = "Version " ++ number_text n

abbrev pub event : String → String → String → String → String → Event
event type title at subtitle tone = record {
  type = type;
  title = title;
  subtitle = subtitle;
  at = at;
  tone = tone;
}

-- The event of a version, in front of those after it.
unfoldable pub version_event : VersionStatus → Option ℤ → String → List Event → List Event
unfolding number_text
version_event VersionStatus.under_review n at rest =
    add (event "review" "Sent for review" at (version_text n) "amber") rest
version_event VersionStatus.draft n at rest =
    add (event "draft" (version_text n ++ " drafted") at "" "gray") rest
version_event VersionStatus.executed n at rest =
    add (event "executed" "Contract executed" at (version_text n) "emerald") rest
version_event _ n at rest = rest

unfoldable pub version_events : Platform → List ContractVersion → List Event → List Event
unfolding version_event
version_events p [] rest = rest
version_events p (v ∷ rows) rest =
    version_event v.status v.version_number (p.creation "Contract Version" v.name)
      (version_events p rows rest)

-- ap["approval_date"] or ap["creation"], where the query does not select "creation".
abbrev pub decision_date : Approval → Result String
decision_date a = if truthy a.approval_date then ok a.approval_date else err key_error

unfoldable pub approval_event : Platform → Names → ApprovalStatus → Approval → Result (List Event)
approval_event p names ApprovalStatus.approved a = do
  at ← decision_date a
  ok (
      add
        (event "approved" ("Approved by " ++ user_full_name p names a.approver) at "Review approved"
          "blue")
        [])
approval_event p names ApprovalStatus.rejected a = do
  at ← decision_date a
  ok (add (event "rejected" "Review declined" at a.remarks "red") [])
approval_event p names _ a = ok []

unfoldable pub approval_events : Platform → Names → List Approval → Result (List Event)
unfolding approval_event
approval_events p names [] = ok []
approval_events p names (a ∷ rows) = do
  first ← approval_event p names a.status a
  rest ← approval_events p names rows
  ok (append first rest)

-- version_num.get(…): the number of the version, if the version is in the list.
unfoldable pub number_of : String → List ContractVersion → Option ℤ
number_of name [] = none
number_of name (v ∷ rows) = if v.name == name then v.version_number else number_of name rows

abbrev pub signing_subtitle : Option ℤ → String
signing_subtitle none = ""
signing_subtitle (some n) = version_text (some n)

unfoldable pub request_events : List ContractVersion → List SignatureRequest → List Event
unfolding number_of number_text
request_events versions [] = []
request_events versions (r ∷ rows) =
    let sub = signing_subtitle (number_of r.contract_version versions) in
    add (event "sign" "Signature requested" r.requested_on sub "indigo") (
      add (event "signed" "Signature completed" r.completed_on sub "emerald")
        (request_events versions rows))

-- timeline.sort(key=lambda e: e["at"], reverse=True)
unfoldable pub newest_first : List Event → List Event
unfolding sort_by
newest_first = sort_by (λ x y. not_before x.at y.at)

unfoldable pub timeline :
    Platform
    → Names
    → Contract
    → List ContractVersion
    → List Approval
    → List SignatureRequest
    → Result (List Event)
unfolding version_events approval_events request_events newest_first
timeline p names contract versions approvals requests = do
  decisions ← approval_events p names approvals
  ok (
      newest_first (
        add (event "created" "Contract created" (p.creation "Contract" contract.name) "" "")
          (version_events p versions (append decisions (request_events versions requests)))))
