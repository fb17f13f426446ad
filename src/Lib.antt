-- ===== src/Lib.antt =====
-- A verification library for pincher: for pinchQL, its graph query language, from the text of a query
-- to the parsed query, from its WHERE to the truth on a row and to SQL, and from the rows that the
-- database gives to the result (internal/cypher/engine.go); for the transitive closure of the call
-- graph and the traces that read it (internal/db/closure.go, internal/db/db.go,
-- internal/index/indexer.go); for the names that it gives to symbols with the same name
-- (internal/ast/extractor.go); for the lock of a project between processes
-- (internal/index/lockfile.go); for the paging, the event bus and the tool latencies of the server
-- (internal/server); and for the supervisor that keeps the inner server alive
-- (internal/supervisor/supervisor.go).
--
-- The parts and how they interact. `tokenize` splits a query text into tokens; `parseQuery` turns
-- them into a `queryAST`, asking `parseHops` for path lengths, the typo helpers for hints and
-- `flattenWhere` for the flat form of WHERE. The executor pushes WHERE to SQL with `appendWhereOp`
-- (if the pushdown gate allows it) or `whereExprToSQL`, evaluates what is left of it in Go with
-- `matchesWhere`, and hands the rows to `buildResult`; beside the rows it reports warnings, most of them read off the
-- parsed query alone. The executor itself is not modelled. Apart from
-- queries, `TraceByID` asks the closure table that `BuildClosure` fills, or a recursive query on the
-- edges, and makes hops of what it gets. Each extractor's symbols go through
-- `disambiguateDuplicates`. The server cuts its lists into pages and tells its HTTP
-- clients of events over the bus.
--
-- - Prelude: the shared names; Prelude/Text: Go strings as lists of bytes and the operations of
--   `strings` and `strconv` that the source uses; Prelude/Sorting: the sort of a list by a Boolean
--   comparison, and lists without repetition; Prelude/Outcome: results with an error, a panic and
--   lack of fuel.
-- - Cypher/Token, Cypher/Lexer: `token`, `tokenize`, `unescapeString`. The index into the text is
--   the list of bytes from it on. Lexer/Literals, Lexer/Totality, Lexer/Reading: proofs.
-- - Cypher/Ast: `queryAST`, `pattern`, `condition`, `returnVar` and the `whereExpr` types. The
--   operator and connector strings are constructors, and `LIMIT`'s -1 is `none`.
-- - Cypher/Parser: `peek`, `next`, `skip`, `expect`; the position is the list of tokens left.
--   Parser/Condition: `parseOneCondition`; Parser/WhereClause: `parseWhere`, `parseOrExpr`,
--   `parseAndExpr`, `parseFactor`; Parser/PatternClause: `parsePattern`, `parseProps`;
--   Parser/ReturnClause: `parseReturn`; Parser/Query: `parseQuery`, `parse`. An error is a
--   constructor with what its message shows of the query. Parser/Total and the files named Totality,
--   Parser/Ranges, Parser/WellFormed: proofs.
-- - Cypher/Typos: `nearestClauseKeyword`, `isCypherWriteKeyword`, `editDistanceAtMost1`.
-- - Cypher/Hops: `parseHops`.
-- - Cypher/Flatten: `flattenWhere`, `pushdownAllowed`, `andChainFromConds`.
-- - Cypher/Columns: `cypherPropToCol`, `isBoolCol`, `boolCoerceEqual` and their like.
-- - Cypher/Where: `evalCondition`, the `eval` methods, `matchesWhere`, `matchesConditions` and
--   `matchesInlineProps`. The cache of regular expressions, a map that the source changes in place,
--   is passed on from call to call.
-- - Cypher/Sql: `condLeafToSQL`, `whereExprToSQL`, `appendWhereOp`, `appendInlinePropFilters`,
--   `escapeLikePattern`, `scanLimitFor`. A statement is its text with its arguments. Sql/Scan: how
--   `runNodeScan` and `runJoinQuery` divide WHERE between SQL and Go.
-- - Cypher/Result: the columns, aggregates and comparisons of `buildResult`; Result/Build: grouping,
--   DISTINCT, ORDER BY, LIMIT and the trim of `Execute`. The other files below it: proofs.
-- - Cypher/Warnings: the warnings, a constructor for each message, and the walks over conditions that
--   the collectors share; a set, a Go map, is the list of its members. Warnings/Names, Types and Clauses:
--   what each of the collectors keeps while it walks; Warnings/Collect: the collectors, which report
--   their names sorted. Warnings/Reported, Unique, Pushed: proofs.
-- - Cypher/Examples and the files below it: the theorems at concrete inputs, and runs of the code.
-- - Db/Closure: the search of `BuildClosure`, a map as a list of its entries; Db/Closure/Build: its
--   transaction, where the rows of the table are a list, and each call of the database that can fail
--   is asked of a record of faults; Db/Closure/Trace: `TraceViaClosure`. Rounds, Walks, Reached,
--   Found, Table, Sources, Distances, Keys, Traced below it: proofs.
-- - Db/Cte: `traceViaCTE`. Its recursive query is the function on the rows of `edges` that SQLite
--   documents for such a query: the rows of one depth are joined with the edges to give those of the
--   next, UNION ALL keeps every row, and the outer query groups them by id. The files below it:
--   proofs, and the agreement with the closure table.
-- - Db/Version: `CompareBinaryVersion` and `parseBinaryVersion`; Version/Order: proofs.
-- - Db/Examples and the files below it: runs.
-- - Ast/Duplicates: `disambiguateDuplicates`, its maps as functions. Duplicates/Names,
--   Duplicates/Keys: proofs. Ast/Examples: runs.
-- - Index/Trace: `TraceByID`, `materializeHops`, `isDefaultTraceKinds`, `RiskLabel`. Trace/Hops,
--   Trace/Paths: proofs. Index/Examples: runs.
-- - Index/Lock: `acquireProjectLock`, `isStaleLockfile` and the release function, as a step relation on
--   the lockfile and on where each process is. Processes may die, files grow old, and calls of the file
--   system fail. Lock/Exclusion, Lock/Race: proofs.
-- - Server/Pages: `parsePageParams` and `sliceWindow`; Server/Events: `eventBus` with its mutex held
--   for a whole operation, so that a run is a list of operations, and channels with their buffers.
--   Pages/Tiling, Events/Safety: proofs. Server/Latency: `recordToolLatency`, whose
--   calls interleave at their atomic operations, and `topToolsByTotalTime`; Latency/Counts, Finish,
--   Ranking: proofs. Server/Examples: runs.
-- - Supervisor/Breaker: `recordRestart` and the rounds of `pumpInnerToClient`, each with the instant
--   of its respawn. Supervisor/Breaker/Window, Supervisor/Breaker/History: proofs.
-- - Supervisor/Probe: `sendProbe`, its timer and `killInner`, each with one step for every access to a
--   field that the goroutines share and for the write; `classifyInnerLine` and
--   `forwardInnerStdoutWithProbeFilter` on decoded lines, a line being one step; the quiet window and
--   the swap of the inner in `respawn`. The goroutines interleave between steps. Probe/Watch, Kills,
--   Sentinels: proofs.
-- - Supervisor/Session: `pumpClientToInner`, `maybeCaptureInit`, `handleStatusToolCall`, `writeToInner`,
--   `respawn`, `Status` and the rounds of `pumpInnerToClient`; the stdin of the inner is the list of
--   the lines written to it, and a run is a list of events. Session/Restarts, Writes, Replay: proofs.
-- - Supervisor/Examples: the theorems at concrete inputs, and runs.
--
-- Parameters. `Host` holds `regexp.Compile`, `MatchString` and `strconv.ParseFloat` with the order of
-- floats; `Numbers` holds the arithmetic of floats that aggregates use. Nothing is assumed of them.
-- `Codec` is `json.Unmarshal` of a line of the supervisor's client. `Faults` and `TraceFaults` say which
-- calls of the database fail, and `RespawnFaults` which steps of a respawn. The order in which Go iterates over
-- a map is a function from the map to a list of its keys; a theorem that needs that each key is in the
-- list has this as a hypothesis.
--
-- Fuel. The scanner has one round for each byte of the text. The loop over clauses has one for each
-- token, the loops over IN lists, inline properties, edge kinds and RETURN items one more than there
-- are tokens left, and WHERE three for each token left and three more: each level of the grammar
-- between two tokens takes one. A run that lacks fuel has a result of its own, `out_of_fuel`. The
-- searches for traces go on for as many rounds as their depth, as the source does.
--
-- Bounds. A number of a row is a natural number, as in every integer column of the symbols.
-- `strconv.Atoi` has Go's 64-bit limits. The texts that `strings.ToUpper` and `strings.ToLower`
-- get are taken to be ASCII, as every word of a query is; a quoted text may be otherwise. A map of
-- properties is a list of pairs with no key twice, in some order. `sort.SliceStable` is a stable
-- insertion sort, which gives its result where the comparison is a strict weak order. The depth of a
-- trace is a natural number: the source takes a negative one as it takes 0. Instants and durations of
-- the supervisor are natural numbers of nanoseconds, and latencies natural numbers of milliseconds; the
-- breaker's limit and window are not negative.
--
-- Not modelled: of internal/cypher/engine.go, the executor, and the warnings on kinds and enum
-- values that ask the database; of internal/db, the
-- schema, the migrations and the statements beside those of the closure and the traces; of
-- internal/index, the walk over files and the resolution of edges; of internal/server, the handlers
-- of MCP and HTTP; the extractors of internal/ast; internal/init and cmd, which are setup and input and
-- output around these; of the supervisor, `Run`,
-- `shutdownInner` and the processes themselves.
pub mod Prelude
pub mod Ast
pub mod Cypher
pub mod Db
pub mod Index
pub mod Server
pub mod Supervisor
