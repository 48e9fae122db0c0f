-- ===== src/Lib.antt =====
-- ezAuth, a multi-tenant authentication service (src/ezauth): the token, session, key, rate-limit
-- and redirect services, the flows of services/auth.py that use them, and the transaction of a
-- request; and the object storage and custom tables of an application. Paths are from the root of the repository.
--
-- The parts. services/auth.py holds the flows of the frontend: signup, magic link, code, password
-- sign-in, password change and logout. A flow counts the call in the rate limiter (ratelimiter.py,
-- counters in Redis), checks the redirect target (redirects.py), issues or consumes a one-time
-- credential (services/tokens.py), opens a session (services/sessions.py) whose access token a key
-- of the application signs (services/keys.py), and writes an audit row. A route runs a flow in the
-- database transaction of `get_db`, which rolls back on any exception.
--
-- The files.
--   Prelude      numbers, lists, equality, and the database statements: a table is the list of its
--                rows, a query is `select` or `first`, a write is `update`, `delete` or an append.
--   Config       src/ezauth/config.py: the settings that the modelled services read.
--   Platform     the calls into libraries: digests, urlparse, texts, the password hasher, the signer.
--   Models       src/ezauth/models: the rows.
--   Tokens       src/ezauth/services/tokens.py and src/ezauth/crypto.py, function by function.
--   Sessions     src/ezauth/services/sessions.py.
--   Keys         src/ezauth/services/keys.py.
--   Redis        the Redis commands that are used, with their documented effects and expiry.
--   RateLimiter  src/ezauth/ratelimiter.py.
--   Redirects    src/ezauth/redirects.py.
--   Outcome      results and errors: an `AuthError` is the `code` it carries.
--   World        the tables, the Redis counters and the outbox that a flow works on, and `get_db` of
--                src/ezauth/dependencies.py.
--   Auth         src/ezauth/services/auth.py: the shared steps (Steps), signup and magic links
--                (Signup), links and codes (Consume), passwords and logout (Signin), and the route of
--                src/ezauth/api/frontend/verify_code.py (VerifyCode).
--   Bots         src/ezauth/services/bots.py: signup and sign-in of bots, with the signature check as a
--                parameter.
--   Hashcash     src/ezauth/services/hashcash.py.
--   Billing      the ledger of src/ezauth/services/billing.py: credits and charges.
--   Objects      buckets and objects of src/ezauth/services/objects.py, and their quotas.
--                Listing has the listing with its cursor.
--   Json         JSON values, and the base64 of cursors.
--   Tables       src/ezauth/services/tables.py: validation (Values), tables and columns (Columns), rows and
--                their storage (Rows), filters (Filter) and the rows they select (Selects), queries
--                with sorting and cursors (Query);
--                and the routes of src/ezauth/api/tables.py (Routes).
--   Cleanup      `run_cleanup` of src/ezauth/services/cleanup.py.
--   Tests        a platform with concrete functions, and each theorem at a concrete input.
--
-- Choices. A UUID is a number: the code only compares it. An instant is a number of microseconds. The
-- clock, fresh ids and random tokens are arguments of the function that draws them. Library calls are
-- fields of the record Platform, so every theorem holds for all of them, and what a theorem needs of a
-- digest (that two tokens differ under it, say) is one of its hypotheses. Loops run over
-- lists. A filter is compiled by recursion on the levels of nesting that are left, which the code's
-- own cap starts at nine. Only a client that reads page after page has fuel: one page more than there
-- are rows is enough; a client that runs out of it has no result. What a database compares and casts
-- is a record of functions (Sql), with its laws as hypotheses. Its casts may raise: a query fails where
-- a cast of its filter or its sort raises on any row of its table and user, while the database is free
-- to leave some of these unevaluated. What was written before an exception stays in the state beside the
-- error, until `in_transaction` puts the tables back.
--
-- Python's str.lower and the lower() of PostgreSQL are one function, and the unique indexes of users,
-- whose violation two requests at once could meet, are left out. An instant has no time zone, so naive
-- and aware times are alike. Limits of buckets are natural numbers: the negative ones, which the code
-- refuses, have no value here. An update of a row always sets updated_at, though one that changes
-- nothing is not written by SQLAlchemy.
--
-- Not modelled. Other failures of the database, Redis or the mailer; the wording of messages and mails; the
-- order of rows that no query asks for (a table keeps insertion order); `parse_limits` (the settings
-- hold the parsed limits); key generation and JWK encoding; the deletion of a bucket and the cached
-- usage of objects; the session of SQLAlchemy with its copies of rows; the loop around a cleanup pass; billing accounts' creation,
-- metering, mails and payment providers; the OAuth, domain and mail services,
-- cookies and CSRF, the dashboard, hosted pages and remaining routes, the migrations,
-- the command line and the clients in other languages.
pub mod Prelude
pub mod Config
pub mod Platform
pub mod Models
pub mod Json
pub mod Tokens
pub mod Keys
pub mod Sessions
pub mod Redis
pub mod RateLimiter
pub mod Outcome
pub mod Redirects
pub mod World
pub mod Auth
pub mod Bots
pub mod Hashcash
pub mod Objects
pub mod Tables
pub mod Cleanup
pub mod Billing
pub mod Tests
