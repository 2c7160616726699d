-- ===== src/Lib.antt =====
-- Verification library of the marketplace MCP infrastructure: the shared core of the Wildberries
-- and Ozon servers under app/core.
--
-- The program calls marketplace APIs for several cabinets. A call goes through a safety gate
-- (app/core/safety.py), a rate limiter that all processes share (app/core/rate_limit.py) and, for
-- long lists, a page walker (app/core/paginate.py); the client (app/core/client.py) sends it, and
-- every failure is one error envelope (app/core/errors.py). A durable queue
-- (app/core/archive_queue.py) downloads weekly finance reports page by page into annual CSV files
-- and a registry (app/core/wb_finance_archive.py); a worker step does one bounded piece of work
-- and saves the job; a large annual file is uploaded to Drive in chunks and promoted when it is
-- exact (app/core/archive_resumable_worker.py); a job carries telemetry
-- (app/core/archive_finalize_telemetry.py). A coverage registry (app/core/archive_coverage.py)
-- says whether the archive alone can answer a question, and app/core/request_join_controller.py
-- puts the results of several sources side by side when each has passed its checks.
--
-- Files and code:
--   Prelude, Prelude/*: lists, Boolean tests and equality on the native numbers and texts, and a
--     stable insertion sort for `sorted`. Text: the methods of `str` that the code uses. Dict: a
--     dict in insertion order. Json: JSON values.
--   RateLimit/Rules: `RateRule`, `parse_rate_limit`, `key_prefix`, `configured_global_rps`,
--     `build_rules`. RateLimit/Sqlite, RateLimit/Redis: the transactions and the Lua scripts.
--     RateLimit/Controller: `acquire`, `try_acquire`, `defer`. RateLimit/Spacing,
--     RateLimit/Refinement, RateLimit/Cooldown: what they guarantee.
--   Errors: `make_error`, `classify_status`, `error_from_exception`. Safety: `infer_safety`,
--     `check_gate`. Errors/Classes, Safety/Gate: what they guarantee.
--   Paginate/Page: `_dig`, `_to_int` and one page. Paginate/Walk: `fetch_all`. Paginate/Bounds,
--     Paginate/Offset: what the walk guarantees.
--   Finance/Csv: `_stringify`, `parse_csv_bytes`, `encode_csv`. Finance/Annual:
--     `merge_annual_csv`. Finance/Registry: `merge_registry`, `registry_complete_ids`.
--     Finance/Fragments: `logical_week`, `normalize_main_fragments`. Their child modules: what
--     they guarantee.
--   Queue/State: the job and the stores. Queue/Waiting: `_wait_or_fail`. Queue/Discover,
--     Queue/Download, Queue/Finalize: `_discover_step`, `_download_step`, `_finalize_step`.
--     Queue/Worker: `enqueue`, `worker_step`. Queue/Status: `status`. Queue/Telemetry: the
--     telemetry. Queue/Worker/*, Queue/State/Earliest, Queue/Telemetry/Capped: what a step
--     guarantees.
--   Upload/Remote, Upload/Act: the memory of an upload step, the cloud, and operations that give
--     a value, a storage error or another exception. Upload/Session:
--     app/core/archive_drive_resumable.py. Upload/Promote: `file_metadata` and
--     `promote_verified_file` of app/core/archive_google.py. Upload/Record, Upload/Finish,
--     Upload/Chunk, Upload/Step, Upload/Worker: app/core/archive_resumable_worker.py.
--     Upload/Logic: triples of a precondition, an operation and its ends. Upload/Sound to
--     Upload/Verified, Upload/Once, Upload/Agrees: what a step guarantees.
--   Join/Leg, Join/Control: app/core/request_join_controller.py. Join/Index, Join/Passes,
--     Join/Closed: what a join guarantees.
--   Finance/Lock: `ArchiveLock`, with the steps of the workers that use it.
--     Finance/Lock/Excludes: that it excludes. RateLimit/Repair: app/core/rate_limit_repair.py.
--   Coverage: app/core/archive_coverage.py, `merge_coverage_registry`, `complete_request_keys`,
--     `evaluate_coverage`. Coverage/Proof: what they guarantee.
--   Client/Delay: the delays after a 429. Client/Attempt: the retry loop of
--     `MarketplaceClient.request`. Client/Request: its guards. Client/Retries, Client/Guards:
--     what they guarantee.
--   Tests: the properties at concrete inputs.
--
-- State is passed explicitly: a rate table or a Redis store, the variables of the page loop, the
-- stores of the queue. A transaction, a script and a worker step are each one function of the
-- state and of the time, so an interleaving is a list of them. An exception is a value (`none`,
-- `raised`). Times and delays are whole milliseconds, counts and periods of a limit are
-- thousandths, rates are hundredths, and numbers of JSON are natural numbers.
--
-- The page loop runs on fuel, max_pages + 1, which is enough: each round fetches a page, and the
-- loop ends when max_pages are fetched. The retry loop of the client recurses on the retries
-- left, MAX_RETRIES at first. All other loops are structural.
--
-- Parameters stand for what is not in the modelled files: SQLite and Redis by the laws of their
-- reads and writes, SHA-256, the modules csv and json, calendar dates, `int` and `str`, the
-- environment, the marketplace servers. The writes of a worker step are one transition: a store
-- that fails between two of them (after `upload_bytes`, before `_save` or `_schedule`) is not
-- modelled, so a step of the model that returns is a step of the code in which every write
-- succeeded. Nor are two keys of one name in a row. An upload step makes its requests and writes
-- one by one, and each request may fail; its store is the hybrid one, of which the annual files
-- of the model are the mirror in the object store.
--
-- Not modelled: the HTTP connections, the OAuth tokens of Ozon Performance, the connection and
-- cache of the limiter, credentials, the MCP registration of tools, the semantic routing of
-- questions, the advertising archive, the object stores, the Telegram reader, the Drive bridge,
-- and the deployment.
mod Prelude
pub mod Text
pub mod Dict
pub mod Json
pub mod RateLimit
pub mod Errors
pub mod Safety
pub mod Paginate
pub mod Finance
pub mod Queue
pub mod Coverage
pub mod Client
pub mod Upload
pub mod Join
mod Tests
