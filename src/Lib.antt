-- ===== src/Lib.antt =====
-- mcp-authflow, a library of the parts of an OAuth 2.1 authorization server: token storage, rate
-- limiting, client authentication by signed assertions, the device flow, dynamic client registration,
-- PKCE, CORS and input validation.
--
-- What is modelled, file by file (paths of the code from the repository's root):
--   Storage, Storage/Memory    mcp_authflow/storage/base.py, exceptions.py and memory.py: the storage
--       that keeps access and refresh tokens in two dicts by the digest of the token. Ledger is what
--       it promises, Contents what each method leaves, Refinement compares sequences of calls with the
--       ledger, Laws is about a store, a clean-up, a revocation and a restart, and Sharing about the
--       lists of scopes as objects.
--   Storage/Postgres           mcp_authflow/storage/postgres.py: the storage in PostgreSQL, over the
--       record of SQL statements with laws in Storage/Database, whose children are the check of the
--       schema and the status of a deletion; Storage/Scopes joins and splits scopes. Outcomes,
--       Counts and Sizes are about single methods, Lifecycle and Drift about `initialize` and `close`,
--       Calls, Ledger, Steps, Loads and Refinement compare sequences of calls with a ledger of grants, and
--       Storage/Backends compares the two storages. Storage/Interface is `TokenStorage` of
--       mcp_authflow/storage/base.py, which both fill, and Loads compares behind it what their loads
--       find. Their counts and `created_at` differ and are not compared: in the second of an expiry a
--       clean-up removes the row in PostgreSQL and keeps the record in memory, and a row that is stored
--       again keeps its first `created_at`.
--   RateLimiting               mcp_authflow/rate_limiting.py: the sliding window. Log is a limiter that
--       forgets nothing, Bound, Retry and Isolation follow the one in memory, and RedisSets is the one
--       in Redis, over sorted sets that are a record of operations; RedisLog and RedisRuns compare it
--       with Log, one call running after the other, and RedisRetry is about its waiting time.
--       RedisCallers lets callers that run at once send their commands in any order, and RedisBound
--       is about these.
--   ClientAuth                 mcp_authflow/client_auth/jwt.py: Keys finds the key, Fits says which, Authenticate is the
--       pipeline of `authenticate`, ReplayCache the cache of used `jti`s in memory. Authenticate takes
--       the check of the cache as an argument, as the code has two of them; Replay puts the cache in
--       memory there and RedisReplay the one of RedisCache in Redis, and they look at sequences of
--       calls; Accept and Frame are about one call, with either cache.
--   Cors                       mcp_authflow/cors.py. Listing is how a text lists origins, Written
--       that every text does, Origins which of them are told.
--   Device                     mcp_authflow/device.py: `evaluate_device_poll`; Device/UserCode the user
--       codes and Device/Response the authorization response.
--   Validation, Json           mcp_authflow/validation.py.
--   Pkce                       mcp_authflow/pkce.py.
--   Responses                  mcp_authflow/responses.py: the JSON error responses and their headers.
--   Registration               mcp_authflow/registration/base.py, memory.py and handler.py. The registry
--       and the rate limiter are interfaces: ClientRegistry is filled by Memory, RateLimiter by the
--       limiter of RateLimiting in Limited. Redirect is the default policy for redirect URIs, Payload
--       reads the fields, Types says which types they may have, Handler is `register_handler`, with
--       `handle` for the making of its answer. Effects and Outcomes say what a request does to the
--       registry, Issued and Limited what it does over the registry and limiter in memory, and
--       Uncaught when it raises.
--   Prelude, Dict, Text        helpers: numbers, lists, methods that may raise, Python's dict with
--       string keys, and texts as lists of code points with the patterns of the code.
--   Tests                      runs on concrete inputs.
--
-- How the code is read. A method of an object is a function from the object to an answer or an
-- exception and the object after it, which is kept when the method raises. A clock reading is an
-- argument, a natural number of microseconds since the epoch, one for each reading of the code; a
-- difference of readings can be negative in the code, so a test of it is written with the terms on
-- the side where nothing is subtracted. Floating-point rounding is not modelled. Every method runs
-- as one step: the code has no `await` between the reads and writes of one dict, and a lock round
-- those that threads share; a registration request and a call that sends commands to Redis or
-- statements to PostgreSQL, which do wait in between, are looked at alone (but for RedisCallers), and
-- a statement that the driver fails is taken to have changed nothing. The loops are over lists or
-- count down a bound of the code; only `digits`, the decimal text of a number, has fuel,
-- one more than the number, of which each digit takes one.
--
-- Parameters, for code that is not the program's: SHA-256, `json.loads` with what it raises, whether
-- Starlette can render an answer as UTF-8, PyJWT, Redis with the laws of the commands that the code
-- sends, PostgreSQL and asyncpg with the laws of the statements, the JWKS provider's answer,
-- `urlparse` and the rest of `urllib.parse`, the draws of `secrets`, and the character tables of
-- Python for what is not ASCII. User identifiers that are integers are taken to be natural, and so are
-- the limits and the widths.
--
-- Not modelled: the log messages with their token fingerprints, the texts of exceptions and the lists
-- of exported names. A list of scopes is a value but for Storage/Memory/Sharing, where it is an object
-- on a heap. Texts are sequences of Unicode characters, without the lone surrogates that `json.loads`
-- admits; whether an answer that would repeat one can be rendered is what the parameter of `handle`
-- tells. Other JSON responses are kept as content, status and headers, before they are rendered.
pub mod Prelude
pub mod ClientAuth
pub mod Cors
pub mod Device
pub mod Dict
pub mod Json
pub mod Pkce
pub mod RateLimiting
pub mod Registration
pub mod Responses
pub mod Storage
pub mod Tests
pub mod Text
pub mod Validation
