-- ===== src/Platform.antt =====
-- What the program calls and does not implement, as one record that the definitions take: Frappe's
-- workflow engine and the checks that it makes on a save, its naming series, users and files,
-- pypdf, and the answers of Documenso. An answer of Documenso may depend on all earlier calls.
use contract_management.Prelude.{
  ◌≡◌, ◌≢◌, String, Bool, false, Option, none, some, List, ◌∷◌, string_eq,
}
use contract_management.Prelude.Lists.{contains}
use contract_management.Prelude.Order.{In}
use contract_management.Failure.{Error, Result, ok}
use contract_management.Workflow.{VersionStatus}
use contract_management.Workflow.Fixture.{Action, next_state}
use contract_management.Site.{
  Counterparty, Contract, ContractVersion, Approval, SignatureRequest, FileDoc, Notification,
  Payload, Call,
}

-- A record of Frappe's doctype User.
pub record UserDoc : Type 0 where
  pub email : String
  pub full_name : String

-- What pypdf finds in a file: the texts of its pages, or the TypeError of a page with no resources.
pub data Extraction : Type 0 where
  pages : List String → Extraction
  no_resources : Extraction
  unreadable : Error → Extraction

-- The body of the answer to envelope/create; `none` where the key is missing.
pub record CreateResponse : Type 0 where
  pub id : Option String

-- The value of a key of a JSON object that is a text or null, if the object has the key.
pub data JsonText : Type 0 where
  missing_key null : JsonText
  text : String → JsonText

-- A recipient in the answer to envelope/distribute, each id as `str` prints it. An id is `none` if
-- there is no such key, or null; `recipient_id` also if its value is false.
pub record DistributedRecipient : Type 0 where
  pub email : JsonText
  pub recipient_id : Option String
  pub id : Option String
  pub signing_url : JsonText

-- An envelope: its status and the ids of its items, the empty text where an item has none.
pub record Envelope : Type 0 where
  pub status : String
  pub items : List String

-- A recipient in the payload of the webhook; `none` where the key "id" is missing.
pub record WebhookRecipient : Type 0 where
  pub id : Option String
  pub signing_status : String
  pub signed_at : String

-- The fields of the payload that the handler of DOCUMENT_COMPLETED reads.
pub record DocumentPayload : Type 0 where
  pub external_id : String
  pub status : String
  pub recipients : List WebhookRecipient

-- The value of the key "payload" in the body of a webhook.
pub data InnerPayload : Type 0 where
  absent not_a_dict : InnerPayload
  document : DocumentPayload → InnerPayload

-- What `json.loads` makes of the body of a webhook. `event` is empty where the key is missing, and
-- `none` where it holds anything but a text.
pub data Body : Type 0 where
  not_json not_a_dict : Body
  webhook : (event : Option String) → (payload : InnerPayload) → Body

-- A query with "limit 1" answers with some row of those that it selects.
pub record OneRow (A : Type 0) : Type 0 where
  pub one : List A → Option A
  pub one_of : (rows : List A) (a : A) → one rows ≡ some a → In a rows
  pub one_nonempty : (a : A) (rows : List A) → one (a ∷ rows) ≢ none

-- The framework's own checks before a document is written: the session's user, whether permissions
-- are ignored, the row before (`none` for a new document), and the document.
abbrev pub Check : Type 0 → Type 0
Check A = String → Bool → Option A → A → Option Error

pub record Platform : Type 0 where
  -- apply_workflow, for a user: the next state, if the engine accepts the action
  pub workflow : String → Bool → VersionStatus → Action → Result VersionStatus
  pub check_contract : Check Contract
  pub check_version : Check ContractVersion
  pub check_approval : Check Approval
  pub check_request : Check SignatureRequest
  -- the naming series: a name for a new document, from the names that there are
  pub new_name : List String → String
  pub get_user : String → Result UserDoc
  -- frappe.utils.file_manager
  pub get_file : String → Result String
  pub save_file : List FileDoc → String → String → Result String
  pub read_pdf : String → Extraction
  -- a timestamp of Documenso in the site's time zone
  pub local_time : String → Result String
  pub enqueue : Notification → Option Error
  pub create_document : List Call → Payload → String → Result CreateResponse
  pub distribute_document : List Call → String → Result (List DistributedRecipient)
  pub get_envelope : List Call → String → Result Envelope
  pub download_envelope_item : List Call → String → Result String
  -- "limit 1" without an order that tells which row comes first
  pub one_counterparty : OneRow Counterparty
  pub one_version : OneRow ContractVersion
  pub one_approval : OneRow Approval
  pub one_file : OneRow FileDoc
  -- the columns that Frappe itself keeps of a row, by doctype and name
  pub creation : String → String → String
  pub modified : String → String → String
  pub owner : String → String → String
  -- User.full_name
  pub full_name : String → Option String
  -- get_password("webhook_secret") of Documenso Settings
  pub webhook_secret : Result String
  -- json.loads on the body of a request
  pub parse_body : String → Body

-- What Frappe documents of the engine: an action leads where the installed workflow says.
pub record FollowsFixture (p : Platform) : Type 0 where
  pub along :
      (user : String) (ignore : Bool) (s : VersionStatus) (a : Action) (t : VersionStatus)
      → p.workflow user ignore s a ≡ ok t
      → next_state s a ≡ some t

-- A naming series never gives out a name that is taken.
pub record NamesAreFresh (p : Platform) : Type 0 where
  pub fresh : (names : List String) → contains names (p.new_name names) ≡ false
