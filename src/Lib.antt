-- ===== src/Lib.antt =====
-- The Terraform backend service (Go): an HTTP service that keeps the states of Terraform projects with
-- their locks, and takes uploads of resource data, for organizations that authenticate by an API key.
--
-- A request passes internal/auth (the middleware, which asks a credential store), then
-- internal/middleware (the rate limiter), and reaches a handler of internal/handlers, which validates
-- with internal/validation and calls a storage of internal/storage. Effects are explicit: a handler
-- takes the request and the state of the service and returns the new state with the response; a method
-- of a storage or a store takes its state and returns it with its result; Go errors are values (Errors).
--
-- Files and code:
--   Base, Base/*         Booleans, lists and integers over the native numbers, equality as an interface
--   Text, Text/*         byte strings: comparison, strings.Contains and HasPrefix, TrimSpace, decimals; Laws,
--                        and Fuel, that the fuel of the last two is enough
--   Maps                 Go maps as association lists; a range over a map is in the order of the list
--   Errors, Io, Http     error values; readers and the line scanner; requests, responses and contexts
--   Uuid, Float          github.com/google/uuid and float64 as parameters with their laws, and an instance
--   Storage              internal/storage/storage.go
--   Storage/Memory       internal/storage/memory.go: the methods. Keys: the map keys. Spec: cells, one per
--                        organization and name. Refinement: the methods implement the cells. History:
--                        sequences of calls
--   Auth/InMemoryStore   internal/auth/store.go, InMemoryStore
--   Auth/Config          the tests on a line of auth.cfg
--   Auth/FileStore       internal/auth/store.go, FileStore: LoadFromFile (Load), ValidateCredentials
--                        (Validate), the loop of watchFile and Close (Watch, with Debounce, End and Outage)
--   Auth/Middleware      internal/auth/middleware.go
--   RateLimit            internal/middleware/ratelimit.go: Bucket, Orgs (the limiter of all
--                        organizations), Cleanup (the sweep), Requests (the middleware)
--   Validation           internal/validation/validation.go: Names, Dynamic (values as package reflect
--                        shows them), Depth, Complexity
--   Handlers/State       internal/handlers/state.go, with Guards, Steps (which calls a handler makes) and
--                        Memory (over the in-memory storage)
--   Handlers/Resource    internal/handlers/upload.go: the types, and the row of an instance
--   Handlers/Upload      internal/handlers/upload.go: the handlers, with Rows, Process (the loop), Outcome
--                        and Limits
--   Handlers/Value       decoded JSON values, their %v text and their reflect view
--   Handlers/Health      internal/handlers/health.go
--   RateLimit/Shared     internal/middleware/ratelimit.go with goroutines: pointers to buckets, and each section
--                        under a lock as one step. Apart and Current: which buckets goroutines hold;
--                        Sequential: the answers against those of the limiter in RateLimit; its lemmas on
--                        buckets are in RateLimit/Refill
--   Storage/Dual         internal/storage/dual.go: Each (the two storages), Upload (an upload to both)
--   Config               internal/config/config.go, with Valid
--   Storage/Csv          internal/storage/csv.go: Paths (the file of an organization), Writes (one append), History
--                        (appends), with Reads (what is read after them, and the full disk) and Joined (two runs
--                        of appends)
--   Storage/Mysql        internal/storage/mysql.go: Connect (the pings), Tables (names), Working (a database
--                        that works), History (appends), with Reads
--   Csv, Path            encoding/csv and path/filepath, as internal/storage/csv.go uses them; Io/Buffer is
--                        bufio.Writer over a disk that fills up
--   Keygen               cmd/keygen/main.go, readInitConfig; Agreement with LoadFromFile
--   Keygen/Generate      cmd/keygen/main.go, generateAuthConfig: Bcrypt (what is relied on), Written and
--                        Sections (what is written), Accepted (by LoadFromFile and ValidateCredentials); Main:
--                        main, from the input to the keys that are accepted; Random: generateRandomAPIKey
--   Server               cmd/server/main.go: the chain and the routes of states, with the storage type
--                        memory: Tenants (organizations apart), States (through the whole chain); Data: the
--                        routes of uploads and of health, with Chain (requests that pass it); Csv: the same over
--                        CSV files, with the clock and Recoverer; Start: the storage of a configured type;
--                        Main: main from its start to its end, with Routes; Deployed: the service with a file of
--                        the key generator
--   Testutil             internal/auth/testutil/helpers.go: the helpers of the tests; Substring, InitConfig,
--                        AuthConfig, Corrupted, Fixture
--   Tests/*              the theorems at concrete inputs
--
-- Names are the source's in lower case with underscores: put_state is PutState. A receiver comes last, as
-- the state. Machine integers: the version of a state wraps at 2^64. Recursion is structural; two
-- functions count down: trim_by has the length of the text as its fuel, and takes at least a byte away at
-- a step, and the decimal printing of n has n + 1, and divides by ten (Text/Fuel). A line of the scanner
-- is at most 65536 bytes, as in bufio.
--
-- Locks: a method of a storage or a store that holds its mutex for its whole body is one step. Allow of the
-- rate limiter takes the map's mutex and then the bucket's: RateLimit has it as one step, its child
-- Shared has the sections under the locks as separate steps, with any other goroutine and the sweep
-- between them. A sweep reads a bucket's time as one value, also where the Go memory model has a race.
-- Waiting for a lock is not modelled, so nothing is said of deadlocks. The functions that the timer of
-- Auth/FileStore/Watch starts run beside the loop, and their loads may come after its end.
-- Times are nanoseconds of a monotonic clock, and milliseconds in Auth/FileStore/Watch.
--
-- Parameters: the text form of UUIDs, gopkg.in/ini.v1, bcrypt (its hash takes the number of the call, for
-- the salt), encoding/json, the RFC3339 format, the arithmetic of float64 and its printing, the database
-- behind database/sql (what is relied on: Storage/Mysql/Working). The disk of a CSV storage takes a number
-- of bytes more and may refuse a file; a write goes through a buffer of 4096 bytes, as in bufio. The
-- pings of a MySQL storage are 30 at most, and a table of it takes 2^31 - 1 rows.
-- Not modelled: log lines, signals and the timeouts of the server, the middlewares of chi but
-- Recoverer (its router is represented by the route it finds), the delays between pings and the
-- connection pool of internal/storage/mysql.go, and the sample constants of
-- internal/auth/testutil/helpers.go. What os, fsnotify, net/http, database/sql and the MySQL server give
-- is a parameter, with its faults.
pub mod Base
pub mod Text
pub mod Errors
pub mod Maps
pub mod Uuid
pub mod Validation
pub mod Storage
pub mod Io
pub mod Http
pub mod Auth
pub mod Float
pub mod RateLimit
pub mod Handlers
pub mod Server
pub mod Keygen
pub mod Config
pub mod Path
pub mod Csv
pub mod Testutil
pub mod Tests
