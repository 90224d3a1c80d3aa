-- ===== src/Lib.antt =====
-- The NexoBank backend: the services of a bank (accounts, transfers, sign-in, cards, push tokens) on
-- their tables.
--
-- How the parts fit. A request runs on one database session (`get_db` of app/api/v1/deps.py). A
-- router calls one function of app/services/, which checks its arguments, reads and writes rows through
-- app/repositories/, writes an audit entry, and raises a domain exception of app/core/exceptions.py
-- where it refuses. The authentication and device-token services commit themselves; for the others the
-- router commits.
--
-- Base            tests on numbers, integers over the native numbers, texts, tables as lists of rows
-- Models          the rows and enumerations of app/models/
-- Money           `Decimal`, `Numeric(18, 2)`, the 28 digits of sums, and the
--                 rounding between; Money/Context and Money/Rounding have its laws
-- Session         the tables, the session, the exceptions, and the actions of a request: a function
--                 from a session to a result and a session; `Env` holds what the code calls and does
--                 not implement (clock, UUIDs and their texts, random texts, base64, SHA-256, Argon2,
--                 JWT)
-- Repositories/   one module per class of app/repositories/; Transactions/Paging has the cursor
--                 and the pages of transaction_repository.py
-- Security        app/core/security.py
-- Transfers       app/services/transaction_service.py: `execute_transfer`, step by step, and
--                 `get_account_transactions`
-- Accounts        app/services/account_service.py
-- Auth            app/services/auth_service.py
-- Cards           app/services/card_service.py
-- Devices         app/services/device_token_service.py
-- Dependencies    the guards of app/api/v1/deps.py
-- Requests        the end of the routes that move money or open an account, each on its own session, and
--                 the databases that requests lead to
-- Schemas         the checks of request bodies and the response models of app/schemas/
-- Routers         the routes of app/api/v1/routers/ from the token to the response model; Routers/Auth,
--                 Routers/Internal and Routers/Socket have auth.py, internal.py and websockets.py,
--                 Routers/Reading the routes that read, Routers/Queueing the task that a transfer queues,
--                 Routers/Risk what a risk event leaves
-- Responses       app/core/exception_handlers.py and the middleware of app/main.py
-- Workers         the tasks of app/workers/
-- Logging         app/core/logging.py: the JSON formatter and the set-up of the loggers, and the check of
--                 the secret key of app/core/config.py
-- Migrations      the revisions of alembic/versions/ as lists of operations
-- Concurrency     any number of transfers at once: each is cut at its queries (the key, the ownership
--                 check, one step for each row of `_lock_accounts_for_update`, and the writes with
--                 the commit), and the steps of the requests interleave in any order. A row lock is
--                 held until the session ends; the rows are read when they are locked
-- Ledger          the double-entry view of the tables, and the invariant of accounts and transactions
-- Scenario        a small bank; Examples/ runs the services on it
--
-- A definition has the name of the function it models, without a leading underscore and in the module
-- of its file. The keyword arguments of `execute_transfer` are the record `Transfer`; long functions
-- are cut at the numbered steps of their comments.
--
-- Numbers. UUIDs and moments are natural numbers, a moment in microseconds; the code only compares,
-- orders and adds them. Balances and amounts are integers in cents; a deposit is any finite Decimal and
-- is rounded where a column stores it, and a new balance first to the 28 digits of Python's decimal
-- context, half to even; a value of more than 18 digits is refused by the column. A generator is a
-- function of the number of calls before it, so that two calls may differ and may collide: an insert
-- checks the unique indexes and raises `integrity_error`. A SELECT without ORDER BY returns its rows
-- in an order of the database's choice (`account_scan`, `card_scan`, `token_scan`). The JSONB column of
-- the audit log takes finite numbers, and of the texts that a caller sends freely those that
-- `jsonb_accepts`; an address of a connection fits its column. passlib raises for a password that
-- `is_oversized`. Texts longer than their column raise
-- `data_error` where a client chooses them (transactions). `str.upper` and `str.lower` are modelled on
-- ASCII. The search for an account number recurses on the rounds that are left, ten as in the source, so
-- that it needs no other bound.
--
-- The notification task is tried four times, as in the source, and its loop recurs on the
-- retries that are left.
--
-- Not modelled: deposits and new accounts beside a transfer that holds locks, the retry of a task that
-- was interrupted, rate limits, the check of the database at start, the text form of a log line and
-- the set-up of the migration tool. `updated_at` is left out, since nothing reads it, and so are the texts that services give to exceptions. The texts of amounts and moments in
-- JSON are left out: a response has the cents and the microseconds.
pub mod Base
pub mod Models
pub mod Logging
pub mod Money
pub mod Session
pub mod Repositories
pub mod Ledger
pub mod Security
pub mod Transfers
pub mod Auth
pub mod Cards
pub mod Devices
pub mod Accounts
pub mod Dependencies
pub mod Schemas
pub mod Requests
pub mod Concurrency
pub mod Routers
pub mod Workers
pub mod Responses
pub mod Migrations
pub mod Scenario
pub mod Examples
