-- ===== src/Lib.antt =====
-- Holler's server: join tokens, the lockout of addresses that fail to authenticate, the roster of
-- sessions, the registry of live connections, the connections themselves, the control socket of the
-- command line, the talk log, the debug output, and the wire protocol.
--
-- A client mints nothing itself: an operator mints a join token, the client redeems its secret once over
-- the wire (`join`) for a credential, and authenticates every later connection with it (`auth`). The
-- connection handler asks the lockout before it looks at a first frame and tells it of failures, asks the
-- token store to redeem or verify, puts the connection into the registry, and passes what the client
-- advertises to the roster. Commands of the operator resolve a session by the roster, or a name by the
-- registry, and wait in the registry for the client's answer; prompts and replies go to the talk log.
--
-- Files, by the part of the repository that they model:
--   Lockout, Lockout/*      src/wire/lockout.rs: LockoutTracker is a record, `is_locked_out` and
--                           `record_failure` are functions from a tracker to a tracker
--   Roster, Roster/*        src/wire/roster.rs: every operation of Roster; Steps has them as calls of a
--                           history
--   Token/Record, Open, Disk, Secret, Store, Hex
--                           src/token/mod.rs: the records, the file under its lock, hashes, the operations
--                           of TokenStore
--   Token/Records, History, Steps, Lifecycle, Circuit, Refusals
--                           proofs about them: what each request does to the list of records, and what
--                           holds over any sequence of requests
--   Token/Ttl, Message      src/token/mod.rs: parse_ttl; the texts of the errors
--   Proto, Proto/*          src/proto/mod.rs: envelopes, bodies, `encode`, `decode` and its classification
--                           of errors
--   Wire/Frames             src/wire/hello.rs: the frames that the server builds
--   Wire/Registry, Wire/Registry/*
--                           src/wire/registry.rs: Resolve has what a connection's task calls for an
--                           incoming frame, Waiting the calls that wait for an answer
--   Wire/Query, Wire/Query/*
--                           src/wire/query.rs: the answers to status, caps, support and protocol
--   Wire/Connection, Wire/Connection/*
--                           src/wire/connection.rs: Admission has the first frame with `join` and `auth`,
--                           Dispatch what a frame of an admitted client does, Session a connection from
--                           its start to its teardown; Calls, Cases, Gate, Deleted, Guesses, Isolation,
--                           Heartbeat, Presence, Teardown, Replies and Typed are proofs about them
--   Wire/Control, Wire/Control/*
--                           src/wire/control.rs: the requests of the command line as the server handles
--                           them, in Client the side that asks, and in Socket how the processes of a host
--                           take and leave the socket's file, and in Lines the loop over a connection's
--                           lines; Calm, Requests and Confirmed are proofs
--   System, System/*        src/wire/connection.rs, control.rs and mod.rs together: all tasks of a running
--                           server, and the requests to its store, as steps that come in any order; Task
--                           has the theorem that the model of one connection is made of these steps,
--                           Reconnect what a client meets that connects twice
--   Wire/Accept, Wire/Accept/*
--                           src/wire/mod.rs: the start of the server, the accept loop with its cap, and
--                           the sweep of the roster
--   Wire/TalkLog, Wire/TalkLog/*
--                           src/wire/talklog.rs: the log of prompts and replies, over a map of files
--   Debug, Debug/*          src/debug.rs: levels, the lines that are written, and in Redact the redaction;
--                           Scrubbed describes what the redaction is to make of a text
--   Advertise               src/advertise.rs: the address that is advertised, and its file
--   Command, Command/*      src/main.rs: the start of `serve` and the query commands; Tokens has the token
--                           and client commands, Table the tables, Answers the printing of queries'
--                           answers, Talk the commands `say`, `interrupt` and `answer`, and Deletion what a deletion does here and at a running server
--   Net, Text, Text/*       what these parts use of the standard library: addresses, texts, UTF-8, sorting
--   Prelude, Prelude/*      names passed on, Boolean tests, lists, keys and dictionaries
-- The files named Tests hold the concrete inputs at which the theorems are applied.
--
-- Numbers are natural numbers. Times are nanoseconds since a start that is
-- arbitrary in the lockout, the roster and the registry; clocks, random bytes and environment variables
-- are arguments. A mutex makes a call one step of a history. The calls of the registry that wait give the
-- lock back in between: what other tasks do there is an argument (World), as is what ends the wait. In the
-- same way a connection is given what other tasks do between two of its steps, and a request of the
-- command line what it meets. The calls that one frame makes are taken as made in a row.
-- System has the same as steps of all tasks together, from one point where a task waits to the next; there
-- a request of the command line is one step, in which no connection begins (IsCalm). What the other tasks
-- do between two steps of a connection is then a path of steps, from the state in which the connection
-- waits to one in which it still waits (Interlude).
-- Channels and waiters are numbers, and what is sent into them is a list of effects. Every loop is a
-- recursion on a list or a text, save that of `redact_hlr_tokens`, which continues after the match that it found: it runs on
-- fuel, one more than the characters of the text, and the theorem on it gives a result for every text.
--
-- Parameters: the crates hmac, sha2, time and serde_json, and the file system. Token/Record states as
-- IsLawful what the theorems on the store rely on: HMACs are bytes, times and records that were written
-- are read back, a time and a duration are added as numbers, and JSON can always be made and is never blank. Token/Tests/Sample has an instance.
-- Wire/TalkLog/Exchange has the same for the entries of a talk log. Proto/Encode states with IsWritten that
-- serde_json reads back the body and the text that it wrote. The calls of the operating system on the
-- control socket (Calls) succeed or fail with a text.
--
-- Not modelled: sockets with the WebSocket handshake, and the variants for systems without Unix sockets;
-- the parser of arguments, which a crate generates; the format of times and the making of ids. A path is
-- its directory and its last name. An exit status is the one that is seen on Unix. The order in which a
-- hash map is iterated is that of its association list, and no theorem tells which of several matches is
-- found first.
pub mod Prelude
pub mod Net
pub mod Text
pub mod Lockout
pub mod Token
pub mod Proto
pub mod Roster
pub mod Wire
pub mod System
pub mod Debug
pub mod Advertise
pub mod Command
