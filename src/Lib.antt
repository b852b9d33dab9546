-- ===== src/Lib.antt =====
-- forge-go: models and proofs of the parts of the library that carry its own logic.
--
-- The modules and the code that they model, by paths from the root of the repository:
--
-- Prelude: what the other modules share. Numbers are native naturals, a Go int or int64 is an
--   integer (Prelude/Int), a string is the list of its bytes (Prelude/Strings), UTF-8 decoding and
--   encoding, unicode.IsSpace, unicode.IsControl and TrimSpace are written out (Prelude/Utf8).
--
-- Portable: share/portable, the operations behind the JSON bridge of the WebAssembly component.
--   Errors is errors.go, Abi is abi.go and manifest.go, Json is json.go, Text is text.go, Binary is
--   binary.go, Crypto is crypto.go, Dispatcher holds NewDispatcher and validateRequest of
--   dispatcher.go, and Dispatch the rest of it and execute of operations.go. A function that returns
--   *ABIError gives a Result; a sequence of early returns is a chain of refuse_if. DispatchJSON
--   decodes a request, Dispatch validates it, execute calls one operation, and encodeResponse bounds
--   the answer. A document is the list of its tokens; the token stream, the typed decoders and the
--   encoders of encoding/json are the parameter Codec, and the primitives of crypto/... the
--   parameter Primitives, with what is documented of AES-GCM in the record IsAead. The recursion of
--   scanValue has fuel: twice the number of tokens and one more, which is proved to be enough.
--
-- Atomic: cmd/go-openssl/code/atomic.go. Host is what it uses of package os: the named files, the
--   temporary files apart from them, and a script that says which calls fail. Stage stages a batch,
--   Commit validates, renames and rolls back. An error is the list of its reasons. View is what a
--   reader sees of the named files; other programs act between staging and validation. Different
--   names are different files: links in the parent directory of a target are not modelled.
--
-- Pkcs11: encrypt/pkcs11. Uri is the parser of uri.go, and Uri/Format its printer. Sessions is the
--   session pool of session.go: the semaphore is a count, the idle channel a list, and each select of
--   acquire and each part of release a step; sending to a full semaphore is a step that is not
--   enabled, and a cancelled context changes nothing. Handles come from the token, which is outside.
--   Modules is the rest of session.go: the registry of libraries, slotFor, the login and Shutdown.
--
-- Security: security/auth/jwt/jwt.go. Jwt/Strategy holds the signing strategies, Jwt/Service the
--   service and its options, Jwt/Config its construction from the configuration, Jwt/Tokens parsing,
--   time claims and decoding, Jwt/Creation creation, and Jwt/Segment the Base64 of a segment. A nil
--   is none, a context is what it answers, a float64 its bit pattern. HMAC and the signature
--   repository are the parameter Crypto, what the code takes of encoding/json, strconv and the
--   clock the parameter Platform.
--
-- Workers: tools/workers/workers.go. System holds the package's variables, the runs and the tasks in
--   goroutines of their own. Each function is what is done under stateMu; waiting on stateChanged is
--   a step that is not enabled. Steps has one constructor for each atomic action of a caller, of the
--   dispatcher or of a task, and a trace is any finite interleaving of them from the state after
--   init. A channel is a count of its closes, since a second close would panic.
--
-- Jobs: tools/jobs/jobs.go. Jobs is one scheduler with its lists, its controls, its stop channels
--   and the goroutines of its wait group, each with the channel that it listens to, Trigger is the
--   cron trigger and nextRun, and Scheduler the sequences of calls. startJobs is the composition
--   of the part before the lock, the copies and the launches, so that a registration can also come
--   in between, and a registration the part under the lock and the launch, so that a stop can
--   (Scheduler/Race). Registry is the combined answer of a call on all schedulers, and Process the
--   schedulers of the process with the calls that start, stop and restart them or ask each, in one
--   of the orders that Go allows. time.Date is a parameter, since it rests on the time zone
--   database; the model of nextRun is that of the years for which it does not overflow
--   (InCalendar).
--
-- Not modelled: the cloud key-management repositories, the logger's and servers' wiring and the
--   command-line tools, which are mostly calls of SDKs and frameworks; clearing of buffers; the texts
--   of error messages; the generated identifiers of jobs and the timers
--   inside their goroutines.
pub mod Prelude
pub mod Atomic
pub mod Pkcs11
pub mod Portable
pub mod Security
pub mod Workers
pub mod Jobs
