-- ===== src/Lib.antt =====
-- worker-informer: a FastCGI service that answers requests for advertising informers.
--
-- The service loads the informers of a Mongo database into an SQLite table, keeps the table up to date
-- from two message queues, and answers web requests: an informer is looked up by its guid, its page is
-- made from a template, and the visitor is given a cookie. A request goes from `CgiService` through
-- `UrlParser` and `Params` to `Core` and back; a message goes from `BaseCore` to `ParentDB`.
--
-- Base: shared helpers. Signed integers, Boolean tests, lists measured by native numbers, texts as lists
--   of bytes, `std::map` as an association list, `strtol` (Base/Decimal).
-- Url: src/UrlParser.cpp. Hex has `is_hex_digit` and `hex_digit_to_int`; Percent has `percent_decode`, a
--   fold of the loop's switch over the bytes, with a grammar of escapes (Percent/Grammar) and an encoder
--   (Percent/Encoding) to compare it with. Query has `parse` and `param`: positions are 64-bit `size_t`
--   numbers, `npos` is 2^64 - 1 and `++pos` wraps around. Query/Strings has `find_first_of` and `substr`,
--   which throws behind the end; Query/Grammar is an independent description of query texts, Query/Order a
--   quotient of parameters by what `param` gives of them.
-- Queue: `ProcessMQ` of src/BaseCore.cpp. Broker describes the queue by what a `Get` replies, Drain is the
--   loop that both halves share, Process the handlers and the `catch` block; Backlog has the loop of `run`
--   in src/CgiService.cpp, which checks again and again.
-- Informers: src/ParentDB.cpp. Json and Table hold what is taken from the JSON library and from SQLite,
--   Values computes the columns of a document, beside a description of them in Document; Update has
--   `InformerUpdate` and `InformerRemove`; Laws has what is relied on of SQLite, for statements whose text
--   reaches it whole; Upsert and Guids describe the table after them. Memory and Library are a table in
--   memory and a small JSON library, by which the laws of these parameters are seen to hold together.
-- Sql: the texts of the statements that src/ParentDB.cpp writes into its buffer of 262144 bytes (`buf` of
--   include/ParentDB.h), and of the query that src/Core_DataBase.cpp writes from
--   db_dump/requests/getInformer.sql into its buffer of 2621440 bytes (`CMD_SIZE`). Format has what
--   `sqlite3_snprintf` makes of a format string, whose conversions are parameters with the laws that SQLite
--   documents; Statements and Query have the format strings with their arguments; Literals reads the string
--   literals of a SQL text. Whole, Pasted and Cut are about texts that fit, that are pasted unquoted, and
--   that the buffer cuts. Elsewhere a statement is a value, its table in Informers/Table.
-- Helpers: src/BoostHelpers.cpp. Path has `checkPath`, whose permission tests are translated bit by bit,
--   beside a plain description of accessible paths in Accessible; Clock has `getSeconds`.
-- Schema: src/DataBase.cpp. Files has `runSqlFile`, `runSqlFiles`, `readDir` and `getSqlFile`, Open has
--   `openDb`, Starts says where the statements of a file begin, Reindex has `indexRebuild`, `exec` and the
--   destructor.
-- Core: src/Core.cpp, src/Core_DataBase.cpp, src/Informer.cpp and src/Params.cpp. State is a heap of
--   `Informer` objects with the pointer `informer`; a step ends with a result, an exception, or undefined
--   behaviour. Process has `getInformer`, `Process`, `UserCode`, `resultHtml`, `log`, `clear` and
--   `ProcessClean`; Counter is about `request_processed_`, which the threads share: its increment is a
--   load and a store there, and part of the one step of a thread elsewhere.
-- Config: src/Config.cpp. Load has `Load` by its sections, made of the steps in Steps, which end early by
--   `exit(1)`, an exception or undefined behaviour. Expected describes the settings of a file by functions
--   on records; Rules, Fragments, Required, Sections and Refinement compare the two, Returned
--   says when false is returned, Geo is about the geographical paths.
-- Daemon: src/Server.cpp. Search has `getProcIdByName`, First what it finds, PidFile `writePid`, User the
--   change of the user; Launch has the launcher and the process that it forks as a step relation, Detach
--   the other calls on the new process, Stale what a left lock does.
-- Cgi: src/CgiService.cpp. Body reads CONTENT_LENGTH by `strtol` and the body into a buffer, Visitor takes
--   the visitor's number from the cookie, Request has `ProcessRequest` and the two `Response` functions,
--   composed of the parts above; Open has the constructor; Printed has the texts of the responses, beside
--   a reader of such texts;
--   Expected says which response a request is due; Serving, Replies and Answers follow a request to its
--   response, Leak one whose page cannot be made; Loop says what it leaves of its core. Threads has the
--   threads of `Serve` with `accept_mutex` as a step relation. `ProcessRequest` is two steps there: `look_up`
--   is the query, with the status page, the cookie's text and `server_name` as they are then, and `answer`
--   sends what they give; the steps of the other threads and the changes of the surroundings come between
--   them. What a request finds is an arbitrary function of the number of changes so far, so that two
--   requests with a change between them may find anything. Ready says what a step sends; Mutex, Once, Since
--   and Progress are about every order of the steps.
-- Status: `Status` of src/BaseCore.cpp. Rates has its arithmetic of `unsigned long` and `int`, Page the
--   counters that it reads and leaves and the page, Meter what the rates say.
-- Startup: src/main.cpp and the constructor of `BaseCore`. Options has the command line and `main` up to the
--   point where requests are served, Served the settings with which that point is reached; Queues has
--   `InitMessageQueue` as calls of the broker that may throw, `LoadAllEntities`, and the first `ProcessMQ`
--   on the pointers that are left; Unconnected is about a broker that refuses.
-- Service: the parts together. Wiring joins `BaseCore` to `ParentDB` and the rows of the table to the columns
--   of a request's query (db_dump/requests/getInformer.sql); Updated goes from a message to a page,
--   Configured from a configuration file to the answers of the threads.
-- Cpu: src/CpuStat.cpp. Measure has `getUsage`, `cpuUsage` and `freeMem`, Path the file that is measured.
-- Branch: src/EBranch.cpp, the names of the branches.
-- Log: src/Log.cpp. Stream has the stream buffer with `overflow` and `sync`, Lines what the system's log gets;
--   Messages has `err`, `warn`, `info` and `gdb`, Race the buffer that they share as a step relation, where
--   `vsprintf` is one step; Memory has `memUsage`.
--
-- Texts are lists of numbers, one for a byte. Code that is not the repository's is a parameter: the AMQP
-- client and its circular buffer, SQLite, the Mongo cursor, the JSON library, boost's text functions and
-- regular expressions, the cookie library, floating-point numbers (the type `Real`), the clock. Where a
-- theorem relies on such code, a named law or hypothesis says on what.
--
-- Bounds and fuel. The loop of `parse` runs on fuel, two more than the text has bytes: each round but the
-- first moves the position on by at least one byte. Texts have fewer than 2^64 - 1 bytes, which `size_t`
-- can count. The digits of a number are made on fuel, one more than the number, which has no more digits
-- than that. All other loops are structural: over the bytes, the documents, or the 1000 messages that one
-- check handles at most (`MAXCOUNT`).
--
-- Not modelled: the stack size of the threads of `CgiService`; the bytes of `server_name` while two threads
-- use the text without a lock (its reads and writes are whole); how SQLite runs the text of a statement,
-- which is given by laws on statements as values. src/File.cpp is not part of the build. src/base64.cpp,
-- src/Cookie.cpp and include/json.h are copies of other projects' libraries.
pub mod Base
pub mod Url
pub mod Queue
pub mod Informers
pub mod Sql
pub mod Helpers
pub mod Schema
pub mod Core
pub mod Config
pub mod Cgi
pub mod Daemon
pub mod Status
pub mod Service
pub mod Startup
pub mod Log
pub mod Cpu
pub mod Branch
