-- ===== src/Lib.antt =====
-- The expense service (internal/): people of an organization draft transactions, submit them, and
-- approvers decide them step by step. This library models the approval flow down to the rows of
-- the tables.
--
-- The parts and their files:
-- - Base: the names and lemmas that all share; Base/Lists, Base/Members and Base/Words hold lists,
--   what holds of their members, and text as a list of character codes.
-- - Store: internal/repository. Store/Rows and Store/DocumentRows have the rows of models.go,
--   Store/World the database, the environment and the monad of a service call. Store/Transactions,
--   Items, Approvals, Rules, Access, Projects, Roles, Documents, Outbox and Queue have one function
--   for each statement of the *.sql.go files, named after the method of Querier, with the
--   constraints, indexes and triggers of db/migrations that bear on it. Store/Hoare, Store/Keeps,
--   Store/Frames and Store/Leads hold the rules to reason about service calls.
-- - Authz: internal/authz/authz.go.
-- - Amount: internal/service/approval/amount.go.
-- - Approval: internal/service/approval. Approval/Notify is notify.go; Approval/Submit and
--   Approval/Decide are engine.go, with submitTx as submit_tx, activateNext as activate_next and
--   so on; long bodies are cut into helpers that are named for what they do. Approval/Chain is the
--   invariant of the approval rows and its preservation by each change of the tables,
--   Approval/Valid its preservation by each request, Approval/Requests the requests in any order.
--   Approval/Rules is service.go and reassign.go, Approval/RuleChanges what their requests keep,
--   Approval/LastRule what a deletion leaves of the default rules.
-- - Drafts: internal/service/transaction/service.go, with Update as update_draft and Delete as
--   delete_draft in Drafts/Edit. Their requests are not among those of Approval/Requests.
-- - Roles and Projects: internal/service/role/service.go and internal/service/project/service.go,
--   with the placements in Projects/Members; each function has its Go name. Staff has the requests on
--   both, in any order, and what they keep; Projects/Placing is the map that the placements
--   implement.
-- - Worker: internal/service/outbox/service.go, the worker that publishes the outbox;
--   Worker/Leases has the statements that can come between two claims.
-- - Ocr: internal/service/ocrconsumer/service.go; Ocr/Sweep is sweep.go.
-- - Documents: internal/service/document/service.go, with the uploads in Documents/Uploads and
--   ReserveDocumentUpload in Store/Reservations; Documents/Changes has the requests in any order.
--
-- A service call takes an environment and a world to a result or an error and a world. ExecTx runs
-- its body on the tables and puts them back where the body or the commit fails. The environment
-- says for each statement whether it fails, what the clock reads, and what the identity service
-- and the notification contract answer, all of it unknown to the theorems; an id is a number that
-- no row had before, and uuid.Nil is 0. Statements of one database transaction are not
-- interleaved with those of another: Submit locks the transaction's row, and Decide the
-- transaction of the approval, before they read what they decide on. The checks of Submit before
-- its transaction may be outdated, so that submit_tx is a request of its own in Approval/Requests.
-- A request on rules, on roles or on projects is taken whole, its checks included, so that what its
-- checks find is still so where it writes; the code does not always ensure that.
--
-- The Kafka producer, the OCR gateway and the storage of files are arguments, each asked at a moment;
-- so are the hash of a file and the text of an id. The system roles of
-- a project are made in the order of a list, an argument too, since Go ranges over a map in any.
--
-- The only fuel is that of the decimal digits of a number n: n + 1 digits are always enough.
--
-- Not modelled are tracing and logging, JSON, and the listings of transactions and approvals for
-- screens; the views of the transaction service; what the storage of files holds; the reminder; handlers,
-- servers and configuration.
pub mod Amount
pub mod Approval
pub mod Authz
pub mod Base
pub mod Documents
pub mod Drafts
pub mod Ocr
pub mod Projects
pub mod Roles
pub mod Staff
pub mod Store
pub mod Worker
