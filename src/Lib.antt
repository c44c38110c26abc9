-- ===== src/Lib.antt =====
-- A control panel for DigitalOcean accounts: users link provider accounts, and jobs synchronise,
-- create, change and delete droplets in batches. This library models the Go program of the
-- repository (internal/...) and proves what makes its parts correct.
--
-- The parts, and how they interact. The HTTP API (internal/httpapi) authenticates a request,
-- checks its input and writes rows through the store (internal/store) into PostgreSQL; what takes
-- long is enqueued as a row of the table `jobs`. The background worker (internal/worker) claims
-- one job at a time, calls the provider through its client (internal/digitalocean) and writes the
-- result back; a scheduler enqueues the synchronisation of accounts.
--
-- The files, and the code that they model.
-- - Prelude: shared notation, lists and tables, Go's 64-bit integers, `strings` and `strconv`.
-- - Model: internal/model/model.go, and the errors and JSON values that the program passes on.
-- - Store: the tables of internal/database/migrations/001_initial.sql as lists of rows, and the
--   methods of internal/store/store.go as functions on them (Users, Sessions, Tokens, Accounts,
--   Droplets, Jobs, Settings, Listings). Store.Jobs.Queue has every interleaving of API requests,
--   scheduler and workers as a sequence of steps, each of them one transaction.
-- - Provider: the types of internal/digitalocean/client.go, the calls and the replies.
-- - Effects: programs over the database and the provider, with failures. Effects.Frame,
--   Effects.Yields and Effects.Runs reason about them.
-- - Config: internal/config/config.go, with its loader in Config.Load. Mail: the types of SMTP of
--   internal/httpapi/auth.go.
-- - Security: passwords, tokens and hashes of internal/security/security.go, with base64.
-- - Digitalocean: the methods of `Client` of internal/digitalocean/client.go.
-- - Worker: internal/worker/worker.go (Selection, Requests, Quota, Accounts, Create, Droplets,
--   Process); Worker.Frame, Worker.Reports and Worker.Turn are about its runs.
-- - Httpapi: internal/httpapi. Handler is the monad of the handlers, and its Logic, Steps and
--   After are rules for what a handler leaves behind, however it ends. Guards and Limits are about
--   server.go; Auth and Mail about auth.go; Admin and Settings about admin.go; Accounts and Remote
--   about accounts.go; Droplets, Selection and Names about droplets.go.
--
-- How code becomes definitions. A method of the store is a function from the database and the time
-- to its result and the new database; constraints of the schema that a statement can meet are
-- tests that answer an error. Ids that the database generates are arguments. A program of the
-- worker is a function of an environment that gives, effect by effect, which statements fail, what
-- the clock says, what the provider replies, what a step of SMTP gives, and what the cipher,
-- Argon2, the hash of tokens, the fingerprint, the random source and the parsers of addresses and
-- time zones give; each of these is a parameter. A handler is such a program that answers, or
-- stops with a refusal: the status and the code of `writeError`; its body is an argument that is
-- there when it decodes. A failing statement changes nothing. A Go function that returns an error
-- returns a result with `err`; a handler that returns a result, a state, action ids and an error
-- returns a `Report`.
--
-- Bounds and fuel. `int` and `int64` are integers with the wrap-around at 64 bits written out. The
-- loops of `ListDroplets` and `WaitDropletAction` follow replies of the provider and recurse on
-- fuel; the other loops follow lists. The second loop sleeps three seconds in each round until its
-- deadline, so its fuel counts the rounds before it; the first goes on as long as the provider
-- sends a link to a next page, and nothing in the program bounds it.
--
-- What is not modelled: routing, response texts, headers and logging; the loops that call the
-- worker on a timer; durations below zero; the metadata of audit records; TLS, the client of SMTP,
-- AES-GCM, Argon2 and SHA-256. `RequestURI` of a link to the next page is taken to have the prefix
-- `/v2`: Go stops with a panic on a shorter one. A password is a text of the characters that its
-- random bytes choose. The advisory lock around a creation is a statement that may fail. A turn of
-- one worker claims its job with no row locked by another; Store.Jobs.Queue is about several workers.
-- A payload of another kind than its job's, which the API does not write, is an error. The web client
-- and the scripts are not modelled.
pub mod Prelude
pub mod Model
pub mod Store
pub mod Provider
pub mod Config
pub mod Mail
pub mod Effects
pub mod Security
pub mod Digitalocean
pub mod Worker
pub mod Httpapi
