-- ===== src/Doctype/Approval.antt =====
-- doctype/approval/approval.py, with a save and an insertion of an Approval.
use contract_management.Prelude.{
  Bool, false, not, ◌&&◌, String, Option, none, some, List, map, if◌then◌else◌, ◌==◌, string_eq,
}
use contract_management.Prelude.Lists.{any}
use contract_management.Prelude.Table
use contract_management.Prelude.Text.{strip, truthy}
use contract_management.Failure.{
  Result, ok, err, ◌>>◌, throw_if, check, contract_required, contract_version_required,
  approver_required, status_required, duplicate_pending_approval, status_changed_directly,
}
use contract_management.Exec.{Outcome, returned, raised}
use contract_management.Workflow.{ApprovalStatus, approval_status_eq}
use contract_management.Site.{Approval, Site, M, find_approval}
use contract_management.Platform.{Platform}

unfoldable pub normalize_fields : Approval → Approval
normalize_fields a = if truthy a.remarks then record a { remarks = strip a.remarks } else a

unfoldable pub validate_required_fields : Approval → Result (Unit {0})
validate_required_fields a = do
  throw_if (not (truthy a.contract)) contract_required
  throw_if (not (truthy a.contract_version)) contract_version_required
  throw_if (not (truthy a.approver)) approver_required
  throw_if (a.status == ApprovalStatus.unset) status_required

unfoldable pub set_approval_date : String → Approval → Approval
set_approval_date now a =
    if a.status == ApprovalStatus.pending
    then record a { approval_date = "" }
    else if truthy a.approval_date
    then a
    else record a { approval_date = now }

-- Another row is pending for the same version and approver.
unfoldable pub same_pending : Approval → Approval → Bool
same_pending a r =
    (r.contract_version == a.contract_version)
    && ((r.approver == a.approver)
        && ((r.status == ApprovalStatus.pending) && not (r.name == a.name)))

unfoldable pub validate_duplicate_pending_approval : List Approval → Approval → Result (Unit {0})
unfolding any same_pending
validate_duplicate_pending_approval rows a =
    throw_if ((a.status == ApprovalStatus.pending) && any (same_pending a) rows)
      duplicate_pending_approval

-- `none` is a new document, or one whose row could not be read.
unfoldable pub validate_status_change : Option Approval → Approval → Result (Unit {0})
validate_status_change none a = ok tt
validate_status_change (some before) a =
    throw_if (not (before.status == a.status)) status_changed_directly

-- `Approval.validate`, with the rows of the table and the row that the document had.
unfoldable pub validate : String → List Approval → Option Approval → Approval → Result Approval
validate now rows before given = do
  let a = normalize_fields given
  validate_required_fields a
  let dated = set_approval_date now a
  validate_duplicate_pending_approval rows dated
  validate_status_change before dated
  ok dated

-- The checks of a save: the framework's, then the controller's.
unfoldable pub accept : Platform → Site → Option Approval → Approval → Result Approval
accept p site before a = do
  check (p.check_approval site.user false before a)
  validate site.now site.approvals before a

-- The row is written if the checks have passed.
unfoldable pub store : Site → Result Approval → Outcome Site Approval
store site (ok saved) =
    returned saved (record site { approvals = Table.put (λ r. r.name) saved site.approvals })
store site (err e) = raised e site

-- approval.save()
unfoldable pub save : Platform → Approval → M Approval
unfolding store
save p a site = store site (accept p site (find_approval a.name site.approvals) a)

-- approval.insert(): the naming series gives the new document its name.
unfoldable pub insert : Platform → Approval → M Approval
unfolding store
insert p a site =
    let named = record a { name = p.new_name (map (λ r. r.name) site.approvals) } in
    store site (accept p site none named)
