-- ===== src/Lib.antt =====
-- Contract management: the controllers of the doctypes, the service layer, the portal's API and
-- the webhook of the Frappe app contract_management, which takes the versions of a contract from a
-- draft over review, approval and electronic signature by Documenso to an executed document.
--
-- All paths, but for those of the app docusign_integration, are below
-- frappe-bench/apps/contract_management/contract_management/contract_management/.
--
-- - Workflow: constants/workflow.py, constants/transitions.py and `can_transition` of
--   services/workflow.py; Workflow.Fixture is the workflow that fixtures/workflow.json installs,
--   Workflow.Reachable what the transition map lets a status become.
-- - Site: the rows of the doctypes (doctype/*/*.json) and the state of a site, one table for each
--   doctype, with the session and a record of the notifications and the calls of Documenso.
-- - Platform: what the program calls and does not implement, as a record of functions that the
--   definitions take: Frappe's workflow engine, its checks on a save, naming series, users and
--   files, pypdf, and the answers of Documenso. Its assumptions have names: FollowsFixture and
--   NamesAreFresh; a query that is limited to one row and not ordered answers with some row of
--   those that it selects (OneRow).
-- - Doctype.Contract, Doctype.ContractVersion, Doctype.Approval, Doctype.SignatureRequest and
--   Doctype.Counterparty: the controllers doctype/*/*.py, method by method under their names.
--   `validate` runs the checks, `save` and `insert` are the document's own with the controller's
--   hooks in them. Distinct is the loop over seen values that several controllers have.
-- - Service.*: the modules of services/ under the names of their methods. Service.Signature has
--   one module for each part of services/signature.py: Checks, Create, Send, Sign, Complete,
--   Executed (the download of the signed file), Cancel and Webhook.
-- - Portal: portal_api.py. Portal has the access of a counterparty's user, Portal.Dashboard,
--   .Detail, .Timeline, .GetDetail, .Download and .Review one endpoint each or a part of one;
--   Listing, Access, Flags, Atomic and Decision hold the proofs about them.
-- - Webhook: the endpoint of Documenso's webhook. Webhook.Auth is services/webhook_auth.py,
--   Webhook.Dispatch constants/webhook_events.py, services/webhook_dispatcher.py and
--   services/webhook.py, Webhook.Endpoint api/documenso_webhook.py; Secret and Trust hold the
--   proofs.
-- - Documenso: the app docusign_integration (frappe-bench/apps/docusign_integration/
--   docusign_integration/). Documenso.Settings is integration_config.py and the settings'
--   controller, Documenso.Http http_client.py, Documenso.Provider provider.py, which fills
--   Platform's part for Documenso (over_http); Errors holds the proofs. Portal.Signed
--   follows the signed document from the signature service to the portal.
-- - Report: report/. Report.Expiring, Report.PendingSignatures and Report.Summary are the reports
--   on expiring contracts, pending signature requests and all contracts; Report.Summary.Shows says
--   which rows the latter holds. Today's date, and the day of a timestamp, are arguments.
-- - Safety: theorems over sequences of calls of the services, the portal and the webhook
--   (Safety.History has the calls), with what each module of the service layer keeps in
--   Safety.Approvals, Safety.Signing and Safety.Signatures, and what a decision on an approval
--   leaves behind in Safety.Decisions.
-- - Exec and Failure: Python code that may raise, with and without the site's state. What was
--   written before a raise stays in the state; the rollback is the framework's, but for
--   `review_contract`, which rolls its own writes back.
-- - Tests: the theorems at concrete inputs.
--
-- The services call each other as in the code: the approval service and the submission for review
-- save Contract Versions, the signature service moves them through the engine, and all of them
-- notify, a failed notification being logged and dropped. The portal decides approvals through the
-- approval service as Administrator, and the webhook passes completed documents to the signature
-- service.
--
-- Modelled more simply than the program has it: a field that holds None is the empty text, but for the
-- address of a signature's recipient, whose None makes the controller raise; tables are lists, and a query reads the table as it is before the save; texts are ASCII where they are
-- stripped or lowered; a request sees one `now`; the rows of a table stand in the order of their
-- creation, and rows that an ORDER BY ties stand in that order too; the names that the portal
-- remembers between requests are an argument; on a save the framework's own checks come before the
-- controller's, in one function; messages are in English. All loops are over lists and by
-- structural recursion, so there is no fuel.
--
-- Not modelled: the report on pending approvals, hooks, the user interface and the program's own
-- tests; of the webhook, the log and the debugging prints; of the HTTP client, what urljoin
-- makes of a URL and the library requests of a request (Channel).
pub mod Prelude
pub mod Failure
pub mod Exec
pub mod Distinct
pub mod Workflow
pub mod Site
pub mod Platform
pub mod Doctype
pub mod Service
pub mod Portal
pub mod Webhook
pub mod Documenso
pub mod Report
pub mod Safety
mod Tests
