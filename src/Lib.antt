-- ===== src/Lib.antt =====
-- aircd is an IRC server for agents: clients send lines over a socket, a connection parses them into
-- commands, and the commands work on an SQLite database and on the server's table of connected
-- clients. This library models the server, file by file.
--
-- Base is shared vocabulary: text as lists of Unicode scalar values (Base/Text), i64 with its
-- wrap-around (Base/Int), and the queries of SQL over lists of rows (Base/Lists: `select` is WHERE,
-- `update_where` is UPDATE, `sort_by` is ORDER BY). Strings has the functions of Rust's `str` that the
-- server calls, with `parse::<i64>` and the printing of numbers in Strings/Numbers and what is a word
-- of a line in Strings/Words. Maps has HashMap and HashSet; a set is walked in the order of its list.
--
--   Protocol          src/protocol.rs: `parse_command` and what it calls
--   Protocol/Client   clients/python/aircd/client.py: the lines that `AircdClient` sends, and `_send`
--   Client            clients/python/aircd/client.py: `_parse_irc_line`, and `_reader_loop` on one line
--   Daemon            clients/python/aircd/daemon.py: the inbox between the IRC client and Claude
--   Daemon/TaskActions    daemon.py: `_request_task_action`, and the notices that answer it
--   Daemon/Routing    daemon.py: `_irc_reader_loop` on one message
--   Tokens            src/tokens.rs: `generate`, `parse`, `hex_encode`
--   Tokens/Hashing    src/tokens.rs: `hash`, `verify`
--   Tags              src/server.rs: `normalize_channel` and the message tags
--   Database          the tables that src/store.rs creates, and their rows
--   History, Tasks    src/history.rs and src/tasks.rs: the two stores
--   Auth              src/auth.rs: `authenticate`
--   Store             src/store.rs: migrations, seeds, backfill
--   World             src/server.rs: the server's state, and actions that may fail
--   Server/Members    src/server.rs: the queries on memberships and principals
--   Server/Delivery   src/server.rs: broadcasts
--   Server/Chat       src/server.rs: `cap`, `join`, `part`, `privmsg`, `replay_history`
--   Server/TaskCommands   src/server.rs: the TASK commands
--   Server/Registration   src/server.rs: `try_register`, `ensure_registered`, `disconnect`
--   Server/Connection src/server.rs: `handle_command`, `handle_stream`
--   Server/System     connections that take their turns in any order
--   Startup           src/main.rs, `open` of src/store.rs, `listen` and `listen_tls` of src/server.rs
--
-- Each part's proofs are in modules named for their subject: Protocol/Lines, Protocol/Understood,
-- Protocol/Bounds and Protocol/Stream (what the server makes of a client's line, and of the stream of
-- its lines); History/Log and History/Paging; Tasks/Rows, Tasks/Outcomes and Tasks/Decisions (one
-- call), Tasks/Operations and Tasks/Lifecycle (sequences of calls), Tasks/Board (the abstract board of
-- tasks) with Tasks/View, Tasks/Refinement and Tasks/Progress (that the table implements it);
-- Tokens/RoundTrip; Tags/Escaping; Client/Pieces, Client/Tags, Client/Lines and Client/Reading (what
-- the client makes of the server's lines), Client/CatchingUp, Client/Talking and Client/Returning
-- (from the server's state to the client's queue); Daemon/Holding, Daemon/Redelivery, Daemon/Contents
-- and Daemon/Answers (what the inbox keeps), Daemon/Dedup and Daemon/Once (what it refuses),
-- Daemon/MsgIds and Daemon/Replayed (the server's ids), Client/Notices, Daemon/TaskAnswers,
-- Daemon/Winner and Daemon/Loser (from a claim to its answer); Auth/Soundness and Auth/Issue;
-- Store/Backfill and Store/Seeding; Startup/Configuration, Startup/Outcome and Startup/Listening.
-- World/Returns, World/Succeeds and World/Keeps have the rules for actions; of the server, Fanout is
-- about deliveries, Posting about PRIVMSG, Replay about CHATHISTORY, Returning, Greeting and Arrival
-- about what a session is sent when it registers, Racing about TASK CLAIM, Joining, Membership and
-- Positions about JOIN, PART and read positions, Guards, Takeover, Handover and Departure about
-- sessions that register, are replaced and leave, Endings about what a connection leaves behind, and
-- Invariants, Guarantees and Agreement about all interleavings.
--
-- Methods keep their names; a helper stands for a `match` or a branch of the method above it. An
-- operation of a store takes the reading of the clock and the uuid as arguments and returns its result
-- with the new database; an action of the server (`Exec`) goes from a state to a result and a state,
-- so what was written before an error stays written. An error is the text that it displays. A lock is
-- held for a whole store operation, so these are single steps; Server/System interleaves whole rounds
-- of the connections' loops, over arbitrary sessions. The source holds no lock for a whole round,
-- which matters where a round writes both the database and the table of clients (Server/Agreement).
--
-- Taken from outside: the clock, the uuids, the random bytes, the opening of a database file, the file
-- system, rustls with the handshakes, the outcomes of `bind` and `accept`, tokio's reader of lines and
-- the argon2 crate are parameters (`Env` of World, `lines` of Protocol/Stream with the documented
-- `IsLineReader`, `Python` of Client for `str.upper` and `int`, `Entropy` of Store, `Argon2` of
-- Tokens/Hashing, `Outside` and `Sockets` of Startup); of argon2 one theorem assumes, as `IsSound`,
-- that a hash can be read and accepts its password. Of SQLite the model has what the statements rely
-- on: tables in rowid order, the UNIQUE and PRIMARY KEY constraints, AUTOINCREMENT, INSERT OR IGNORE
-- and the BINARY collation; failures of the disk below it are not modelled, and rows that ORDER BY
-- does not tell apart keep their order. Sums of i64 wrap around, as in a release build. Every function
-- is structurally recursive but the printing of numbers, whose fuel is the number's successor and so
-- more than its digits: printed numbers are read back as themselves (Strings/Numbers/RoundTrip). The
-- loops that the program leaves only by an error or at the end of a connection, the two accept loops
-- and the loop of `handle_stream`, go by the list of what they are handed.
--
-- Not modelled: the bytes of the server's own lines, the writer task, the order in which spawned tasks
-- run, interleavings within one round, what is printed to the console, and of the Python programs what
-- they do besides: connecting and reconnecting, the handlers of raw lines, when the daemon sends its
-- requests and how long it waits for them, its HTTP server and the process of Claude, and the bridge.
-- Of the daemon's clock it is a parameter whether a delivery has expired, and of `re.match` what its
-- patterns find in a notice without tags (`Patterns`) and in a listed task.
pub mod Base
pub mod Strings
pub mod Protocol
pub mod Tokens
pub mod Tags
pub mod Database
pub mod History
pub mod Tasks
pub mod Auth
pub mod Store
pub mod Startup
pub mod Client
pub mod Daemon
pub mod Maps
pub mod World
pub mod Server
pub mod Tests
