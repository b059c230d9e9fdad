-- ===== src/Lib.antt =====
-- Fillable keeps users' DOCX documents: bytes in private files that are charged to quotas,
-- documents with immutable revisions that one editor at a time may add to, and background jobs
-- that inspect each revision. This library models the transactions of backend/app/ and proves what
-- holds across them.
--
-- The parts, by file:
--   Common/            tables as lists with a key (Table), transactions that roll back on an error
--                      (Transactions), Boolean tests and lists.
--   Storage/           backend/app/storage/. Schema and Quota: schema.py, with `calculate_usage`.
--                      Service: `lock_account`, `_capacity`, `_operation` of service.py. Reserving:
--                      `_begin`, `_advance`. Finishing: the transactions of `_finish` and `_clean`.
--                      FileSystem: filesystem.py. World: the database beside the files, and methods
--                      as sequences of transactions and file steps. Store: `store` whole, with its
--                      exception handlers. Recovering: `recover`. Reading: `read`. Validation: the
--                      tests on a request. Maintenance: `delete_file`, `reconcile_account` and
--                      `capacity` of maintenance.py, and quotas.py; its Batches: `reconcile` and
--                      `reconcile_accounts`. Accounting, Limits, Safety, Settled, every Books,
--                      Marking and Reconciling of Maintenance and the children of Store (Held,
--                      Keeping, Writing, Content, Storing, RoundTrip) hold proofs.
--   Accounts/          backend/app/accounts/. Service: sessions, `lock_attempt`, `login` and `logout`
--                      of service.py. Passwords: `provision`, `reset_password`, `bootstrap` and
--                      `change_password` of profile.py. Throttle, Sessions and Fencing hold
--                      proofs.
--   Documents/         backend/app/documents/. Schema: the tables of documents, jobs and accounts.
--                      Session: `active_user` of accounts/profile.py. Rows: `query` of service.py.
--                      Leases: `change` of leases.py. RevisionCommit: `holder` and `commit` of
--                      revision_commit.py. Titles: titles.py. Trash: trash.py. Deletion: the
--                      transaction of `purge` of deletion.py. Retention: retention.py, whose
--                      pruning calls the storage's `delete_file` with `authorize`. Copies:
--                      `finalize` of copies.py, with `copy_intent` of jobs/service.py. Calls: runs
--                      of these transactions in any order.
--   Fields/            backend/app/fields/. Schema and References: the records of schema.py with
--                      their checks. Model: `paragraphs` of validation.py. Validation:
--                      `validate_snapshot`. Working: working_schema.py (Review) and working.py:
--                      UTF-16 (Encoding), `index` (Tree), `validate_span` (Spans) and
--                      `_validate_working` (Validating).
--                      Rebase: `rebase_discovery` of documents/rebase.py.
--   Scheduler          backend/app/maintenance.py: `perform`, `fence` and `tick`, with the row of
--                      maintenance_schema.py. What the tasks answer is an argument.
--   Jobs/              backend/app/jobs/. Service: service.py. Worker: worker.py. Dispatcher:
--                      dispatcher.py. Calls: runs of the worker and the dispatcher.
--                      Validity, Soundness, Rounds, Lifecycle and Attempts hold proofs.
--
-- How they interact: documents and jobs share one database, whose storage part is the storage
-- service's own; a commit of a revision calls `intent` of the jobs; a deletion marks rows that
-- `delete_file` then clears; the worker and the dispatcher move the rows that `intent` wrote.
--
-- Conventions. UUIDs, digests, session tokens and opaque JSON are numbers, times are numbers of
-- seconds. A transaction is a function from the database to an error or a result and a database:
-- an error carries no database, since the transaction is rolled back, and row locks make the
-- transactions follow one another. A method of the storage service keeps what was committed before
-- an exception. What comes from outside is an argument: the clock, fresh UUIDs, free disk space,
-- SHA-256, password hashes, faults of the file system and of locks, the answers of the queue, the
-- inspection of a file, and the `finalize` and `authorize` callbacks, which touch no table of the
-- storage here.
-- Foreign keys between the tables of documents, jobs and accounts are not checked on an INSERT.
-- One transaction sees one clock: `now` stands for the application's and the database's.
--
-- Fuel: `parts_of` cuts a chunk into parts with the length of the chunk as its fuel, which is enough,
-- since every part has a byte (Store/Writing). `paragraphs` of the fields walks a stack with the limit of
-- nodes and one more as its fuel, which is enough, since the limit stops it (Fields/Model/Budget).
-- Nothing else runs on fuel.
--
-- The document of an editor is a tree of nodes with the keys that the code knows: `bounded` and the
-- tests of JSON types that come before are not modelled, and identities are numbers there too.
-- `bisect_right` and the UTF-16 codec of Python are defined as documented.
--
-- Not modelled: an exception of the iterator of chunks, a commit whose answer is lost, audit rows,
-- creation times, permissions and fsync of the file tree, HTTP routes, the inventory of directories,
-- uploads, what copies, saves and restores read before the storage stores it, history, display
-- names and languages, parsing and export of DOCX, the field discovery, and the scripts.
pub mod Common
pub mod Storage
pub mod Accounts
pub mod Documents
pub mod Fields
pub mod Jobs
pub mod Scheduler
