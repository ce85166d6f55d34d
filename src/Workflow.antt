-- ===== src/Workflow.antt =====
-- constants/workflow.py, constants/transitions.py and `WorkflowService.can_transition` of
-- services/workflow.py. Each status type has one more constructor, `unset`, for the empty field
-- that the `if not self.status` guards test for.
pub mod Fixture
pub mod Reachable
use contract_management.Prelude.{
  ℕ, ◌≡◌, ◌↔◌, Bool, true, false, String, List, [], ◌∷◌, arith, nat_eq, Eq, ◌==◌,
}
use contract_management.Prelude.Lists.{contains}

-- Roles that participate in the approval workflow.
unfoldable pub approval_roles : List String
approval_roles = "Approver" ∷ "Legal" ∷ "Finance" ∷ "Business Owner" ∷ []

pub data ApprovalStatus : Type 0 where
  unset pending approved rejected : ApprovalStatus

pub data VersionStatus : Type 0 where
  unset draft under_review approved rejected signature_requested executed superseded : VersionStatus

pub data SignatureRequestStatus : Type 0 where
  unset draft pending sent viewed in_progress completed declined : SignatureRequestStatus
  cancelled expired : SignatureRequestStatus

pub data SignatureRecipientStatus : Type 0 where
  unset pending sent viewed signed declined : SignatureRecipientStatus

abbrev pub approval_code : ApprovalStatus → ℕ
approval_code ApprovalStatus.unset = 0
approval_code ApprovalStatus.pending = 1
approval_code ApprovalStatus.approved = 2
approval_code ApprovalStatus.rejected = 3

abbrev pub version_code : VersionStatus → ℕ
version_code VersionStatus.unset = 0
version_code VersionStatus.draft = 1
version_code VersionStatus.under_review = 2
version_code VersionStatus.approved = 3
version_code VersionStatus.rejected = 4
version_code VersionStatus.signature_requested = 5
version_code VersionStatus.executed = 6
version_code VersionStatus.superseded = 7

abbrev pub request_code : SignatureRequestStatus → ℕ
request_code SignatureRequestStatus.unset = 0
request_code SignatureRequestStatus.draft = 1
request_code SignatureRequestStatus.pending = 2
request_code SignatureRequestStatus.sent = 3
request_code SignatureRequestStatus.viewed = 4
request_code SignatureRequestStatus.in_progress = 5
request_code SignatureRequestStatus.completed = 6
request_code SignatureRequestStatus.declined = 7
request_code SignatureRequestStatus.cancelled = 8
request_code SignatureRequestStatus.expired = 9

abbrev pub recipient_code : SignatureRecipientStatus → ℕ
recipient_code SignatureRecipientStatus.unset = 0
recipient_code SignatureRecipientStatus.pending = 1
recipient_code SignatureRecipientStatus.sent = 2
recipient_code SignatureRecipientStatus.viewed = 3
recipient_code SignatureRecipientStatus.signed = 4
recipient_code SignatureRecipientStatus.declined = 5

pub approval_code_iff :
    (a b : ApprovalStatus) → (nat_eq (approval_code a) (approval_code b) ≡ true) ↔ (a ≡ b)
approval_code_iff a b = ground arith

pub version_code_iff :
    (a b : VersionStatus) → (nat_eq (version_code a) (version_code b) ≡ true) ↔ (a ≡ b)
version_code_iff a b = ground arith

pub request_code_iff :
    (a b : SignatureRequestStatus) → (nat_eq (request_code a) (request_code b) ≡ true) ↔ (a ≡ b)
request_code_iff a b = ground arith

pub recipient_code_iff :
    (a b : SignatureRecipientStatus)
    → (nat_eq (recipient_code a) (recipient_code b) ≡ true) ↔ (a ≡ b)
recipient_code_iff a b = ground arith

instance abbrev pub approval_status_eq : Eq ApprovalStatus
approval_status_eq = record {
  beq = λ a b. nat_eq (approval_code a) (approval_code b);
  beq_iff = approval_code_iff;
}

instance abbrev pub version_status_eq : Eq VersionStatus
version_status_eq = record {
  beq = λ a b. nat_eq (version_code a) (version_code b);
  beq_iff = version_code_iff;
}

instance abbrev pub request_status_eq : Eq SignatureRequestStatus
request_status_eq = record {
  beq = λ a b. nat_eq (request_code a) (request_code b);
  beq_iff = request_code_iff;
}

instance abbrev pub recipient_status_eq : Eq SignatureRecipientStatus
recipient_status_eq = record {
  beq = λ a b. nat_eq (recipient_code a) (recipient_code b);
  beq_iff = recipient_code_iff;
}

-- VERSION_TRANSITIONS, with the empty set that `.get` falls back to on a missing key.
unfoldable pub version_transitions : VersionStatus → List VersionStatus
version_transitions VersionStatus.draft = VersionStatus.under_review ∷ []
version_transitions VersionStatus.under_review =
    VersionStatus.approved ∷ VersionStatus.rejected ∷ []
version_transitions VersionStatus.rejected = VersionStatus.draft ∷ []
version_transitions VersionStatus.approved =
    VersionStatus.signature_requested ∷ VersionStatus.superseded ∷ []
version_transitions VersionStatus.signature_requested =
    VersionStatus.executed ∷ VersionStatus.approved ∷ []
version_transitions VersionStatus.executed = []
version_transitions VersionStatus.superseded = []
version_transitions VersionStatus.unset = []

-- `WorkflowService.can_transition` with the map VERSION_TRANSITIONS.
unfoldable pub can_transition : VersionStatus → VersionStatus → Bool
unfolding version_transitions contains
can_transition current_status new_status = contains (version_transitions current_status) new_status
