-- ===== src/Lib.antt =====
-- order-mock-payment: orders, their payments with a mock provider, and the provider's callbacks.
--
-- The program is a Go server. A user creates orders (internal/order), asks for the payment of a
-- pending order (internal/payment), which registers it with a gateway, and the provider reports the
-- outcome by a signed callback (internal/webhook), which settles the payment and then advances the
-- order. A user may also upload files to an order (internal/upload). The services share one
-- PostgreSQL database, one gateway and one directory (cmd/server/main.go), and gin routes requests
-- to their handlers (internal/server).
--
-- Which file models what:
--   Order/Model, Errors, Service, Repository, Handler: the files of internal/order with these names;
--     dto.go is in Service (requests) and Handler (responses).
--   Payment/Model, Errors, Gateway, Service, Repository, Handler: those of internal/payment;
--     Threads is Create and ApplyProviderCallback of its service.go, cut at their statements.
--   Webhook/Errors, Service, Handler: those of internal/webhook; Hex is encoding/hex.
--   Middleware, Http: internal/middleware and internal/httpresp.
--   Auth/Model, Errors, Jwt, Service, Repository, Handler: those of internal/auth.
--   Upload/Model, Errors, Storage, Service, Repository, Handler: those of internal/upload; Text/Path
--     is what they use of path/filepath.
--   Config, Logger, Startup, Server: internal/config; internal/logger; main and run of cmd/server
--     with internal/database, internal/cache and Run of internal/server; New and the routes of
--     internal/server with the routes.go of each package.
--   Outside: what the operating system, the libraries and the settings fix for the services.
--   Database, Schema: tables as lists of rows, the statements of database/sql on them, and the
--     constraints of migrations/.
--   System: the services wired as in cmd/server/main.go, and sequences of their calls; Changes is the
--     rule by which the calls keep what every change of the tables keeps, and Concurrent is about
--     calls in progress at the same time.
--   Go, Text, Numeric, Prelude: errors and fallible methods of Go, strings, decimals, shared names.
--   Examples: the theorems at a concrete database.
-- A method of the source is the function of its name in snake case, such as `advance_status` for
-- AdvanceStatus. It is a function of the state that answers a result and the new state, so what was
-- written before an error stays written. An interface of the source is a record of functions, and a
-- service is a function of the record, so that its theorems hold for every implementation.
--
-- The environment. The server draws identifiers and times from functions of the number of the
-- statement. It may execute a statement, refuse it, or lose the reply of one that it has executed;
-- the theorems hold for every choice unless they name one. A statement is one step. In System.run
-- each call runs to its end before the next one begins; for the creation of payments and the
-- callbacks, Payment/Threads has the interleaving as well, where any number of them take turns of
-- one statement or one call of the gateway each, as a schedule says. The other calls are not
-- interleaved, and the time-outs of contexts and transactions are not modelled (the source opens
-- none). For a payment's reference, which several payments may have, the server reads from a row that
-- the environment chooses for each statement, and then the rows before it. Every other query for one
-- row names a key. In a sorted list equal times keep the table's order.
--
-- Parameters: decimal arithmetic and what a column numeric(24, 8) keeps (Numeric), the case
-- mappings of Unicode (Text), HMAC with SHA-256, bcrypt, the library for JSON web tokens, viper,
-- http.DetectContentType, the printing of addresses by net and net/url, and the parsing of JSON,
-- forms, UUIDs and mail addresses. Strings that the source walks are lists of code points, and
-- their length is that of their UTF-8 form; strings that it only compares are native strings. UUIDs
-- and times are numbers. The gateway's counter wraps around at 2 ^ 64, and a number below it has at
-- most 20 digits, the fuel of the printer. The clock and the time to live of tokens count nanoseconds,
-- and what a token keeps of a time is the library's.
--
-- The disk is a list of files. The operating system may fail each of the calls of Save; directories
-- are made as they are needed and are no part of the state. The size of an upload is that of a
-- form's file, a count of bytes, so it is not negative. The integers of the settings are compared
-- and printed only.
--
-- Not modelled: the records that are logged, recovery from panics, the choice of a route by gin,
-- the work of the pool and of the time-outs, of which the settings are modelled, and the encoding
-- of JSON, which are calls of libraries or input and output. The settings are given to the server
-- in Outside, and are not taken from what Load returns.
pub mod Auth
pub mod Config
pub mod Database
pub mod Examples
pub mod Go
pub mod Http
pub mod Logger
pub mod Middleware
pub mod Numeric
pub mod Order
pub mod Outside
pub mod Payment
pub mod Prelude
pub mod Schema
pub mod Server
pub mod Startup
pub mod System
pub mod Text
pub mod Upload
pub mod Webhook
