-- ===== src/Lib.antt =====
-- sqliteproxy: a MySQL wire proxy over SQLite files, with one database for each tenant.
--
-- The program has six parts. sqlite/ opens pools of connections to a file. storage/ keeps the
-- registry of databases, in memory and in a management database, and creates, imports, lists and
-- closes them. server/ logs a client in, binds its session to the one database of its user, and runs
-- its statements there, through translator/, which rewrites MySQL's SQL to SQLite's. management/ is
-- an HTTP API over the store, and proxy.go accepts the connections. cmd/ starts the proxy, and has a client. A client reaches its database by
-- the pool of the `Database` that its login has bound.
--
-- Which file is about which part, under the package's name:
--   Base, Errors, Effect       Go's strings as byte lists, maps, integers; errors as values; a
--                              function with an error and a state as an `Action`
--   Sqlite                     sqlite/pool.go: `new_pool` is NewPool, Sqlite.Authorizer the
--                              restricted driver; Sqlite.Interface is the record
--                              of the operating system and the driver, with what the code relies on
--   Storage                    storage/database.go and storage/store.go: Registry (publishLocked,
--                              Get, GetByUsername, List, Export, Close), Label (normalizeLabel),
--                              Provision (Create and Import), Boot (Open, reconcile, loadReady),
--                              Query; Storage.Catalog is the record of the management database
--   Server.Binding             server/auth.go: ConnectionBinding and CredentialProvider
--   Server.Session             server/session.go: Session, and SessionManager in Manager, whose Contract is
--                              about what is known of each session
--   Server.Handler             server/handler.go and the queries of server/infoschema.go:
--                              Dispatch (HandleQuery), Prepared, Marker and Reconstruct (MODIFY
--                              COLUMN), InfoQueries; Protocol is a client's commands one after the other;
--                              Verbatim has the handler run with the translator of the program
--   Server.InfoSchema          server/infoschema.go: what is read out of a query; Server.Statement
--                              and Server.Engine are the SQL parser's trees and the SQL engine;
--                              Server.Resultset is buildResultset, a part of what an engine is
--   Server.Connection          proxy.go: handleConnection
--   Regexp                     Go's package regexp, for the expressions of the translator: the search
--                              in Go's order of preference (`runs`), what it is to match (Relation),
--                              and ReplaceAllString and FindStringSubmatch over a text (Replace)
--   Translator                 translator/translator.go: Translate (Translate and TranslateAST), Commands
--                              (handleSpecialCommands), Tables (translateDDL), Types
--                              (translateColumnTypes), Rows (translateDML), Functions, Options (the
--                              helpers) and Escapes (translateStringEscapes)
--   Management                 management/handler.go: Routes (ServeHTTP) and Api (the handlers)
--   Config                     config.go, and Config, DefaultConfig and the defaults of New in proxy.go
--   Proxy                      proxy.go: the accept loop, the ends of the handlers, and Stop, as the
--                              steps of goroutines in any order (Steps); New in Creation
--   Commands                   cmd/: the configuration of sqlite-proxy and service (Precedence is about
--                              flags over the file), and in Terminal the client: its command line and
--                              prompt loop (Lines), what it prints (Screen), and its tables
--                              (Layout), in whose padding fmt counts runes (Runes)
--   Examples                   concrete environments, and the theorems at concrete inputs
--
-- State is passed explicitly. A World of storage/ holds the store, the committed content of the
-- management database and the state of the host; Create and Import take what other goroutines do at
-- the points where no lock protects them as arguments. A Client of server/ holds the session, the
-- login, the engine's state, and the list of the statements that the engine was asked to run, each
-- with the connection, transaction or pool that it runs at. What is not the program's own code is an
-- argument: the host, the management database, the engine, the SQL parser, the decoders of JSON and
-- forms, and the translator where the handler uses it. A call through a nil pointer, which panics, is
-- the error `nil_dereference`.
--
-- A regular expression is a data type, written by hand from the pattern in the source; the search is a
-- list of all matches from a place, the preferred one first. The order in which Go visits the type map
-- is an argument of the translator. A connection of a proxy is a number. A read from a
-- connection that is closed fails, a command that a handler executes ends, and Stop is called once.
--
-- Every loop is a structural recursion, so there is no fuel, but for the digits of a number, where the
-- number itself is enough, and for the repetitions of a regular expression, where the length of the
-- text is: each repetition takes a byte. Go's int and time.Duration are integers without a bound, since
-- the program only compares and halves them, but for the timeout of the configuration file, whose
-- product wraps around. Letters and spaces are those of ASCII; no byte of 128 or more folds to a letter.
--
-- Not modelled: sockets and the errors of Start; how the commands parse flags, wait for signals, connect,
-- edit lines and keep a history; the error texts of the client library. The handler takes the translation as an
-- argument, since what it guarantees does not depend on it. A failure to scan a row of the management
-- database is counted with the failures of its query.
pub mod Base
pub mod Errors
pub mod Effect
pub mod Sqlite
pub mod Storage
pub mod Server
pub mod Regexp
pub mod Translator
pub mod Management
pub mod Commands
pub mod Config
pub mod Proxy
pub mod Examples
