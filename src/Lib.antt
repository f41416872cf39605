-- ===== src/Lib.antt =====
-- A model of the api_starter service: an HTTP API in Rust (Axum, sqlx, PostgreSQL) with logins, users,
-- roles and permissions.
--
-- The parts. A request passes the authentication layer (src/server/middlewares/authentication.rs),
-- which turns its bearer token into an identity, and, on the list of users, the guard
-- (authorization.rs), which asks the role engine (src/package/rbac). Behind them the handlers of
-- src/module/auth and src/module/iam call the authentication service (src/package/auth) and the user
-- service (src/module/iam/core/service), whose stores and repositories work on the tables of the
-- schema `iam`. Every failure is an `Error` (src/package/errdef.rs), rendered as an envelope
-- (src/package/response.rs).
--
-- The files.
-- Base and its children: shared notation and lemmas, results, `i64`, texts, maps, JSON, clock.
-- Errdef, Response: the error type, its codes, its rendering.
-- Pagination: list requests and page metadata, src/package/pagination.rs.
-- Validation: password rules and flattened validator output, src/package/validation.rs.
-- Database: the tables of migrations/iam, error codes of src/database/mod.rs, and calls: an
--   operation is a function of the world (tables, mails sent, and which of the calls to come fail)
--   to a result and a world. A transaction is a copy of the tables that `commit` puts in place.
-- Crypto, Jwt: src/package/crypto.rs and src/package/jwt/mod.rs over the crates of External.
-- Rbac: the engine and its store, src/package/rbac.
-- Auth: src/package/auth; Auth/Service is the service, `login` its `generate_token`, Auth/Postgres
--   the store, the other children its laws.
-- Iam: src/module/iam; Iam/Sql has the statements that are built, Iam/Rows what the fixed ones do to
--   the tables, Iam/Users the repository, Iam/Permissions the permissions, Iam/Service the user
--   service, Iam/Handlers the handlers; the other children are laws, Iam/Roles and Iam/RoleChanges those
--   of who holds which role, Iam/Columns, Iam/Hashing and Iam/ColumnChanges those of what an update
--   writes.
-- AuthHandlers: the handlers of src/module/auth. Extract: the extractors of src/package/extract.rs and
--   the rules of the payloads.
-- Server: the two layers; Server/Routes has the routers as the calls that build them (`routes` and
--   `mount` of the source), Server/Endpoints the handlers behind their extractors, the layers around
--   them and the fallback of src/server/mod.rs, Server/Context the record of a request in the log,
--   Server/Documented what src/server/openapi.yaml says; the other children are laws, Server/Guards
--   those of the list of users, Server/Promotion of the update of a user, Server/Rights and
--   Server/Standing of requests that change no rights and no users, Server/Runs of sequences of requests.
-- Logger: where the log goes, src/package/logger.rs.
-- State: the operations of both services as calls, the tables that sequences of calls reach, and what
--   these keep: State/Stable has what a property must be closed under, State/Keys the keys of the
--   schema, State/History and State/Sessions what is never lost, State/NewPassword the login after an
--   update.
-- Env, Config: the readers of src/package/env.rs, the settings of src/config and how they load,
--   Config/Given and Config/Variables how they stand to the variables, masked bytes.
-- Emailer: src/package/emailer. Migrations: src/database/migrations.rs. Startup: src/main.rs and the
--   wiring of src/provider/mod.rs; its children what the commands do.
-- Tests: runs at concrete inputs, and in Tests/Unit what the unit tests of the source files assert.
--
-- Bounds and termination. `i64` is an integer with the wrap-around of a release build. All loops are
-- recursions on lists and texts; the printing of a number alone has fuel, the number itself, which has
-- no more digits than that. Times are nanoseconds since the epoch; the
-- current time, random bytes, salts and the ids that the database draws are arguments.
--
-- Not in src, and so parameters: bcrypt, SHA-256, hex, UUID texts, JWT signing (External, with what
-- their documentation promises as hypotheses), URL decoding, Unicode tables, lettre, the decoding of
-- JSON bodies and of path segments, the tests of `validator` for addresses and URLs, connecting,
-- running a migrator, listening, and what the server selects for the two statements of a listing. What
-- Axum makes of a router's calls, and `derive(Validate)` of an attribute, follows their documentation.
-- A fixed SQL statement is written as what its text selects or changes, with the keys that the
-- migrations declare; lengths of columns are not modelled, so that a text that is too long is one of the
-- calls that may fail. That an update leaves the rows in their order is a convention of the model, which
-- PostgreSQL does not promise. A call that fails has no effect; a COMMIT whose reply is lost, and that
-- may have been carried out, is not modelled. Calls of different clients may be interleaved between
-- operations, not within one. A panic ends the process: at the start it is an error, when the log
-- directory cannot be made; the one of chrono on lifetimes that its durations or times cannot hold is not
-- modelled, there the sum is taken as it is.
--
-- Not modelled: reading the file .env, the events that the program logs besides those of a request, the
-- shutdown signal, the layers of Tower that do not touch an answer, and the schemas and the page of the
-- API documentation, which are text.
pub mod Base
pub mod Response
pub mod Errdef
pub mod Pagination
pub mod Validation
pub mod Database
pub mod Rbac
pub mod External
pub mod Crypto
pub mod Jwt
pub mod Logger
pub mod Auth
pub mod Iam
pub mod Server
pub mod State
pub mod Extract
pub mod Emailer
pub mod Migrations
pub mod Startup
pub mod AuthHandlers
pub mod Config
pub mod Env
pub mod Tests
