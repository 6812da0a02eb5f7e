-- ===== src/Lib.antt =====
-- Dust Devil: a socks5 proxy server (crate dust-devil) that managers watch and control over its own
-- protocol, sandstorm, with a client for it (crate sandstorm) and what both share (crate
-- dust-devil-core). This library models the shared crate's serialization and messages whole, and of
-- the server the users, their file, the state that managers change, the handling of their requests
-- and the answers, the reading of socks5 handshakes and requests, the relay of a client's bytes, the
-- metrics and the main loop; of the client the requests, the reader of responses and its queues; the
-- command lines of both programs, and the line of text that the client's terminal interface edits.
--
-- A text is the list of its Unicode scalar values, bytes are numbers below 256, and an integer is a
-- natural number with its range as a hypothesis or its wrap-around written out (`% 2 ^ 32`).
--
-- Base: names that all modules share, Boolean tests, lists measured by native numbers.
-- Io: `std::io::Error`; Reader and Writer, the two monads of the `read` and `write` functions, over
--   the bytes that are still to come and the bytes written so far; Wire, what it means that a value
--   travels: the writer succeeds and appends some bytes whatever stands before them, and from these
--   the reader takes the value and no byte of what follows.
-- Utf8: `char::encode_utf8`, `str::as_bytes` and `str::from_utf8` of Rust's standard library, written
--   out from the definition of UTF-8.
-- Serialize (dust-devil-core/src/serialize.rs, u8_repr_enum.rs): Numbers, Texts, Addresses, Containers
--   and Errors, each with its Laws; Rules, which `search` composes the proofs of messages from.
-- Protocol (the rest of dust-devil-core/src): Users (users.rs), Socks (socks5.rs), Events (logging.rs),
--   Commands, Results, Requests, Metrics, Handshake and Responses (sandstorm/). Requests are read as
--   dust-devil/src/sandstorm/request_handler.rs reads them and responses as
--   sandstorm/src/sandstorm.rs does, behind the type of the command. BufferSize (buffer_size.rs): sizes
--   as people write them.
-- Args (dust-devil/src/args.rs and sandstorm/src/args.rs, which have these parts word for word): the
--   tests of an argument, and the parsing of socket addresses. Distinct: no address twice.
-- Server (dust-devil/src):
--   Args (args.rs): `parse_arguments`, one option at a time, with the option's name looked up in the
--     order of the source's tests. Gathered and Laws: what the values always are; Append: a command line
--     that goes on.
--   Table: the map of users by name. `DashMap` locks the entry that an operation works on, so that
--     operations on the map are atomic; it is an association list in an order that no theorem uses.
--   Users (users.rs): `UserManager`. Laws: what each operation keeps; Runs: histories of changes;
--     Lookup: what each operation answers and changes, by name. The counter of administrators is the
--     `AtomicU32`; it is changed in one step with the map, as it is where no two managers change
--     users at the same time.
--   UsersFile (users.rs): a line of the file and the bytes of a user. RoundTrip, SaveLoad and Bounds
--     hold what the loader makes of what the saver wrote.
--   Lines (utils/process_lines.rs): a function called on each line of an input. Split: the lines of an
--     input; Each: what is to be made of them one by one; Laws: the buffer against these.
--   Loading (users.rs): `UserManager::from` over the bytes of a reader, and `save_to`. Lines and
--     Sorting: what was saved, read again; RoundTrip puts them together.
--   Startup (users.rs, server.rs): the users of a file that is cut into lines, and of the command line.
--   Context (context.rs): the shared state and the events sent to the logger.
--   Sandstorm (sandstorm/mod.rs, request_handler.rs, messaging.rs): the handshake and the loop over
--     requests, with the messages to the main loop and the notifications for the writing side as
--     lists in their order. Laws: what a client writes is what is run; Invariant: what is kept.
--   Socks (socks5/mod.rs, responses.rs, parsers.rs, utils/chunk_reader.rs): the choice of a method,
--     answers, connecting, authentication (Auth: socks5/auth.rs) and parsing. Where the source reads
--     pieces of whatever size the socket has ready (Domain), the sizes are a parameter.
--     Session: a client's connection up to the relay; Served: what a client is to be served, with the
--     bytes of every answer; Agree and Flow: that it is.
--   Relay (socks5/copy.rs, and the counters of context.rs): the bytes of a client and of its
--     destination. Each direction is a state machine over the answers that the sockets give to polls.
--     Laws: what is written and counted; Delivery: sockets that are ready.
--   Responding (sandstorm/response_handler.rs, error_handling.rs): the answers to a manager. A receiver
--     is what will be received from it, and the branches of `select!` that run are a schedule, whatever
--     it is; a branch that is not ready changes nothing. Queues, Kinds, Notified, Turns and Laws: the
--     order of answers.
--   Logger (logger.rs): the metrics task.
--   Loop (server.rs, utils/accept_from_any.rs): the listening sockets, the main loop and the end of the
--     server. Sockets: adding and removing; Numbers: the ids of connections; Replies: the answers to
--     messages.
-- Client (sandstorm/src/sandstorm.rs): the client's side of the protocol, `SandstormRequestManager`. The
--   functions that wait for responses are numbers, and calling them is recorded. Kinds, Order: which
--   function is called with which response; Session: the responses from the server's writing on.
--   Args (sandstorm/src/args.rs): Users, a user as it is written in an argument, with its RoundTrip;
--     Options, what stands behind an option; Parse, `parse_arguments`; Order, the requests that the words
--     of a command line ask for.
--   Requests (sandstorm/src/handle_requests.rs): the requests that are made.
--   Program (sandstorm/src/client.rs): what the client writes to the server. Its Laws put a command line,
--     the client and the server's session together.
-- Tui (sandstorm/src/tui): TextEntry (elements/text_entry.rs), a text with the byte and the character index
--   of a cursor, and the keys. Laws, Edited and Refine: the same as characters before and behind the cursor.
--
-- The parts meet in these: Sandstorm's messages are what Loop handles, and its notifications, with
-- what their receivers give, are what Responding answers; the events of Loop and Relay are what Logger
-- counts; Startup gives Context its users. The client's Args gives Requests what to ask of the server,
-- Requests the manager in Client, and Program what Sandstorm reads.
--
-- Tests: the theorems at concrete values.
--
-- Fuel. The server's `handle_requests` takes one unit for each request and one for the end of the
-- stream.
-- `read_domain_loop` takes one unit for each read, and each read but at the end of the input gives a
-- byte, so that as many units as bytes are enough. `decode_all` takes a unit for each character.
-- `process_loop`, and `from` with it, takes a unit for each read: the bytes and one are enough.
-- `reader_task_inner` takes one unit for each response and one for the end of the stream.
-- `copy_bidirectional` counts the polls of its future; each poll ends by itself.
--
-- Parameters. What the operating system makes of an address (`Attempt`) and of a name (`lookup`), the
-- address that a socket is bound to, and how many bytes a socket has ready (`sizes`) are arguments, with
-- nothing assumed of them. So are the answers of polled sockets, the connections that are accepted, what
-- comes of `TcpListener::bind`, the order in which the channels of a `select!` have something, the
-- receiver of events that a client's function returns, and whether it still takes events; and what
-- `to_socket_addrs` makes of a text (`resolve`), `char::is_alphanumeric`, what the environment says of
-- SANDSTORM_USER, what the handler of a text entry answers, and what the terminal interface asks of the
-- server.
--
-- Not modelled: errors while writing to the network, cancellation, the rest of startup, the tasks that
-- print events, the texts of help and errors, the client's `MutexedSandstormRequestManager`, which only
-- locks, and its terminal interface but for the text entry: widgets, layout and drawing.
pub mod Base
pub mod Io
pub mod Utf8
pub mod Serialize
pub mod Protocol
pub mod Args
pub mod Server
pub mod Client
pub mod Tui
pub mod Tests
