-- ===== src/Lib.antt =====
-- Verification of the transaction ledger API: idempotent money movement that conserves value.
--
-- The program (Python, app/) keeps three tables in PostgreSQL: accounts, ledger_entries and
-- idempotency_keys. Two requests change them, POST /transfers and POST /accounts. Each goes through
-- execute_once, which claims the client's Idempotency-Key by inserting its row, performs the work
-- and stores the response in the same transaction, and answers a retry from the stored row.
--
-- Files and code:
-- - Base, Base.Int, Base.Text: shared names; signed amounts in ten-thousandths; text length.
-- - Json: dictionaries as the handlers build them.
-- - Models: rows and row changes of app/models.py; Models.Constraints: its CHECKs and widths, and
--   the trigger of migrations/versions/c4b8f2e07a13_conservation_as_a_schema_constraint.py;
--   Models.Lookup and Models.Sums: lookups, and the sums of the reconciliation queries;
--   Models.Conservation: what the trigger is for.
-- - Migrations: what migrations/versions/7d1e9b4c2a80_idempotent_account_creation.py makes of the
--   rows of idempotency_keys; Migrations.Replays: what a downgrade forgets; Migrations.Revisions:
--   the statements of the three files in migrations/versions/, on the names of Migrations.Catalog;
--   Migrations.Steps and Migrations.Chain: what these make of the names; Migrations.Back: their
--   downgrades; Migrations.Metadata: what app/models.py declares.
-- - Schemas: app/schemas.py; Schemas.Money: its serialiser of money, and Schemas.Money.Reads: a reader
--   of its texts; Schemas.Limits: the requests' constraints against
--   those of the tables; Schemas.Parsing: the requests from their JSON; Schemas.Parsing.Bodies and
--   Schemas.Parsing.Fingerprint: what their fingerprint tells of it.
-- - Errors: app/errors.py, and sqlstate of app/services/idempotency.py; Errors.Documented:
--   openapi_responses, and the lists of errors in app/routers/.
-- - Config: app/config.py. Logging: app/logging.py. Ops: lifespan, health and ready of app/main.py.
-- - Database: the session as a parameter; Database.Exec: calls that may raise; Database.Rules:
--   reasoning about them; Database.Sessions: app/db.py; Database.Quiet: a database that nothing
--   disturbs.
-- - Idempotency: fingerprint, replay and execute_once of app/services/idempotency.py;
--   Idempotency.Key: require_key; the other files in Idempotency: what they do, with the contract of
--   execute_once in Idempotency.Contract and its proof in Idempotency.Once, and the errors that it
--   raises in Idempotency.Kinds. Idempotency.Logged: the same functions with the lines that they log
--   (execute_once is execute_once_noted there, and so on); Idempotency.Logged.Erased: that the lines
--   change nothing else; Idempotency.Logged.Tells: which lines a call leaves.
-- - Transfers: app/services/transfers.py (_lock_accounts is lock_accounts, the loop of it
--   lock_each, _move_money is move_money with move_between); Transfers.Sorted, .Asked, .Locks,
--   .Moves, .Lands, .Refines and .Retry: what they do; Transfers.Retry.Bodies: which bodies a replay
--   can answer; Transfers.Waits: requests that wait for one
--   another's rows; Transfers.Calm and .Succeeds: when a transfer is made; Transfers.Logged: its line
--   of the log.
-- - Accounts: app/services/accounts.py (_open_account is open_account, get_account is
--   read_account); Accounts.History: list_transactions, with the query's join, order and limit
--   written out; Accounts.Opens, .Refines and the files in Accounts/History: what they do;
--   Accounts.Logged: the lines of create_account.
-- - Ledger: the abstract ledger, one relation for each kind of committed request;
--   Ledger.Invariant and Ledger.Reach: what holds after any number of them.
-- - Api: the exception handlers and the middleware of app/main.py, and the endpoints of
--   app/routers/transfers.py and app/routers/accounts.py; Api.Envelope: what a client is told;
--   Api.Routes: what the two endpoints that change the tables commit; Api.Served: the same from a
--   request's session to its response; Api.Kinds: the errors that they raise; Api.Reads: the two
--   endpoints that read; Api.Bodies: the endpoints from the JSON of a body; Api.Context: the request
--   id in the log; Api.Logged: POST /transfers with its lines; Api.Succeeds: when a transfer is
--   answered with a 201.
-- - Memory: an engine in memory, which is no code of the repository. It shows that the laws of the
--   session can hold together, and runs the services in Tests.
--
-- State and errors. A service is a function from the session to a result, a value or an exception,
-- and the next session. Every except and finally clause is written out.
--
-- Parameters. SQLAlchemy and PostgreSQL are the parameter Engine of Database. Its laws state
-- documented behaviour at READ COMMITTED: other sessions may commit at any moment, but not to a row
-- that this session holds; FOR UPDATE returns the committed row and holds it; an inserted primary
-- key is held; a flush that returns has written rows that the constraints admit; a commit applies
-- the pending row changes as a whole and passes the deferred trigger; a commit that raises has done
-- nothing, or has committed, its answer was lost and the error has no SQLSTATE. The texts of a UUID
-- and of a time, json.dumps, SHA-256 and what a JSON value is read back as from a column of type JSONB
-- are the parameter Codec, and what pydantic reads a JSON value as the parameter Reading. Of these a
-- theorem assumes no more than it names: the length of a hash, that ids with the same text are the
-- same, or that SHA-256 tells two given texts apart. SessionMaker of Database.Sessions is
-- sessionmaker. Quiet of Database.Quiet is what the session does on a database that nothing disturbs,
-- where row changes that break no constraint are written, foreign keys and primary keys included, and
-- the ids that uuid4 draws are new. Ddl of Migrations.Catalog is what the operations of Alembic have
-- done, where they are not refused, to the tables, indexes, functions and triggers, by their names.
--
-- Numbers. A UUID is its 128-bit number, a time a number of microseconds, an amount a number of
-- ten-thousandths. The recursion of Schemas.Money.digits is on fuel; whole gives one more than the
-- number, and each round divides it by ten. No other definition needs fuel.
--
-- Not modelled: the texts of exceptions in the log, the resource_id of the line
-- idempotency.committed, and what structlog makes of a line; the zero with a sign,
-- which Decimal has and the integers here have not; row changes that update or remove an entry, which
-- no code of app/ makes; the HTTPExceptions of Starlette; which list of errors FastAPI reports
-- for a request that is not valid; the prose of the OpenAPI document; the limiter of AnyIO and the
-- pool of SQLAlchemy, whose sizes app/main.py and app/db.py set; migrations/env.py, which hands the
-- configuration to Alembic; in Migrations.Catalog, what a foreign key or the type of a column means;
-- and PostgreSQL's locks as a scheduler: in a service a wait is either over when a statement returns,
-- or an error. Transfers.Waits speaks of the waiting itself, by the rows that a request asks for.
pub mod Base
pub mod Json
pub mod Models
pub mod Migrations
pub mod Logging
pub mod Ops
pub mod Config
pub mod Schemas
pub mod Errors
pub mod Database
pub mod Idempotency
pub mod Transfers
pub mod Accounts
pub mod Ledger
pub mod Api
pub mod Memory
mod Tests
