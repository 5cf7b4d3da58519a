-- ===== src/Lib.antt =====
-- The book guard API ("ex-libris"): a server that keeps each user's books by ISBN and fetches what
-- is known of an ISBN in the background. This library models its Go code and proves what makes it
-- correct.
--
-- The parts, and how they meet. cmd/api/main.go puts a store behind the HTTP handlers of
-- internal/books/handlers.go and behind the enrichment worker of internal/enrich/worker.go. The
-- auth middleware of internal/auth/auth.go leaves an identity in the request; its subject is the
-- user under which the handlers call the store. A book belongs to one user and names an ISBN; the
-- edition and the cover of an ISBN are shared by all users. When a handler stores a new ISBN it
-- makes sure of the edition and enqueues the ISBN; a worker takes it from the queue, asks a
-- provider, and writes the edition and the cover; a periodic sweep enqueues what was missed.
--
-- Base: what the others share. A Go string is a list of code points (Text), a map an association
-- list with distinct keys (Map), a fallible call a Result, and a call that also changes a state an
-- Action, which do blocks chain. Base/Spaces and Base/Sorting are `strings` and `sort`.
-- Auth: internal/auth/auth.go. verify is OIDCVerifier.Verify, parse_bearer is parseBearer,
--   huma_middleware is NewHumaMiddleware. Bearer and Policy hold the proofs.
-- Books/Isbn: internal/books/isbn.go. canonical_isbn is canonicalISBN, with the regular expression
--   as a matcher by clauses.
-- Books/Book, Books/Status: internal/books/book.go and enrichmentStatusFor of store_postgres.go.
-- Books/Memory, Books/Memory/Editions: internal/books/store_memory.go, one function to a method
--   under the method's name. Books/Spec is the contract of the store without a representation, and
--   Books/Memory/Refines compares the methods with it.
-- Books/Repository: the interfaces of internal/books/store.go, as a record of operations that the
--   handlers take as a parameter; Books/Memory/Instance fills it.
-- Books/Handlers: internal/books/handlers.go, one function to a handler, over any repository and
--   any enqueuer; Errors and Refusals say whom they refuse. Books/Requests chooses the handler of a
--   route and runs it on the memory store: what a request leaves (Create, Update, Covers, Hidden),
--   what it can change (Change, Isolation), and the states between requests (History). A request is
--   one step there, its whole handler; in the code each call of the store is a critical section of
--   its own, and what other requests do between two calls of one handler is not looked at.
-- Enrich/Provider, Enrich/Worker: internal/enrich/provider.go and worker.go. Queue has single calls
--   of Enqueue; Jobs has the goroutines as an interleaving relation on a crew: the queue, the marks,
--   and what each caller and each worker holds. A step is one action on the channel or under the
--   mutex; the goroutine that sweeps is a caller like others.
-- Enrich/Fallback: internal/enrich/fallback.go, over any two providers.
-- Enrich/Network: httpGetWithRetry of internal/enrich/httpclient.go, a recursion on the attempts that
--   are left, which are three. Enrich/OpenLibrary and Enrich/GoogleBooks: openlibrary.go and
--   googlebooks.go, over that; ol_lookup, ol_search, ol_fetch_cover, gb_lookup and gb_fetch_cover are
--   their methods. Enrich/Images is the end of FetchCover, which both write alike. after_... in these
--   files is what follows the call of that name.
-- Books/Postgres: internal/books/store_postgres.go. Books/Rows has tables as lists of rows with the
--   statements of SQL on them; create, get and the others are the methods, in Books/Postgres and
--   Books/Postgres/Editions. Migrations is Migrate with migrations/embed.go. Mirrors says when tables
--   and the maps of the memory store hold the same, Steps what calls do to both, Faults what is left
--   when statements fail, Constraint what the check on ISBNs lets through. Routes compares the
--   handlers on the two stores.
-- Search: internal/search/handlers.go. put and cached are the methods of the cache, search_editions
--   is the handler. Eviction and Bounds have the cache's size, Answers what the route answers.
-- Server: the worker on the memory store behind the handlers, as in cmd/api/main.go; Recorded looks
--   at the states that the writes of one job leave, Backup at a job with two providers; Config is
--   what newStore, newEnricher and newAuthMiddleware choose by the environment.
-- Tests: sample data, runs at concrete inputs, and the theorems applied to them.
--
-- What stands for code from elsewhere. The check of a token by go-oidc is a parameter (`check`),
-- as are the case mappings of the Unicode tables beyond ASCII (CaseTable), a provider and a
-- searcher, each with its outside world. The ids that uuid draws and the times that the clock
-- gives are arguments. Times are natural numbers of nanoseconds, whole numbers are integers
-- without bounds: the code compares and stores them and adds the minute of the cache to a time.
-- Every loop is a recursion on a list, the retries on the attempts that are left; only the digits
-- of strconv.Itoa are computed on fuel, and Base/Decimals proves that a number is fuel enough for
-- itself.
-- The network and the decoding of JSON are parameters of the providers: a request is made or not,
-- an exchange answers with a response or an error, a wait ends or is cancelled, and a body is what
-- arrives of it before it breaks off, if it does. pgx and PostgreSQL are a script of faults: each
-- statement takes the next entry, which lets it run or makes it fail without an effect, as does a
-- failure of Begin or Commit; a failure while rows are read counts as one of the query. When none are
-- left, statements run. Both stores keep a status as one of the three that the code writes. Times in
-- tables are the same numbers, cut to whole microseconds where the code cuts them; `now()` of the
-- server is an argument, and the time at which a cover was stored, which nothing reads, is zero.
-- The ISBNs of a sweep are sorted by code point: collations of PostgreSQL agree on digits and X.
-- The SQL of a migration is a text that a parameter runs; the tables that it makes are the record
-- Tables with their keys, the foreign key of the covers and the check on the ISBNs of books.
--
-- Not modelled: the 32 bits of INTEGER columns and the texts that PostgreSQL refuses (those with a
-- NUL); a Commit whose answer is lost after it took effect; the registration of routes, validation of
-- bodies, JSON and logging, which are the libraries' work or leave no trace in a state; main itself,
-- which starts and stops the server. The ticker and the shutdown of the worker are left out too: a
-- sweep is modelled, not when it runs.
pub mod Base
pub mod Http
pub mod Auth
pub mod Books
pub mod Enrich
pub mod Search
pub mod Server
pub mod Tests
