-- ===== src/Lib.antt =====
-- A verification library for kannader, a mail server: SMTP messages, the server's session, the
-- queue with its files, and the client.
--
-- The program. smtp-message knows the syntax of SMTP: commands, replies, addresses and the stream of
-- a message's text. smtp-server runs a session over a connection: it reads commands into a buffer,
-- asks a configuration what to decide, and writes replies; for DATA it hands the configuration a
-- reader that stops at the end of the message, and takes over again what follows in the buffer.
-- smtp-server-types holds the types and the usual replies of that conversation. smtp-queue has one
-- task for each mail: it waits for the time of the mail, moves it to the mails in flight, hands it to
-- a transport, and cleans it up or puts it back, over a storage that is an interface; smtp-queue-fs is
-- the storage whose mails are links in folders. smtp-client finds the servers of a destination,
-- connects to one, with TLS where it can, and sends it a mail; it is the transport of the queue. The
-- binary with its WASM configuration (kannader) stands around these.
--
-- The files, with the code that they are about:
--   Prelude             shared names, Boolean tests, byte strings, lists over native numbers
--   Message.Io          what AsyncRead, AsyncWrite and io::Error of futures and std promise
--   Message.Data        smtp-message/src/data.rs: Data.Writer is EscapingDataWriter, Data.Reader is
--                       EscapedDataReader, Data.Unescaper is DataUnescaper; Data.Spec says what
--                       dot-stuffing is, apart from the code
--   Message.Text        smtp-message/src/misc.rs: MaybeUtf8
--   Message.Address     smtp-message/src/misc.rs: Hostname, Localpart, Email, Path (SourceRoute here)
--   Message.Crlf        smtp-message/src/misc.rs: next_crlf
--   Message.Reply       smtp-message/src/reply.rs: codes, lines and replies, and how they are printed
--   Message.Command     smtp-message/src/command.rs: Command and how it is printed
--   Server.Types        smtp-server-types/src/lib.rs, smtp-server/src/protocol.rs
--   Server.Replies      smtp-server-types/src/reply.rs
--   Server.Config       smtp-server/src/lib.rs: the trait Config as a record; Config.Defaults, its
--                       default methods
--   Server.Session      smtp-server/src/lib.rs: interact. Session.Line is advance_until_crlf,
--                       Session.Receive the branch of DATA, Session.Commands the match on the
--                       command, Session.Loop the loop; Answers, Decisions and Order hold proofs
--   Queue.Types         smtp-queue-types/src/lib.rs, and MailMetadata and TransportFailure of smtp-queue
--   Queue.Storage       smtp-queue/src/lib.rs: the traits Storage, Config and Transport as records, and
--                       what the documentation of Storage promises (IsStorage)
--   Queue.Tasks         smtp-queue/src/lib.rs: cleanup, try_send, send and the retry loops
--   Queue.Scan          smtp-queue/src/lib.rs: new, the scans, and Enqueuer
--   Queue.Runs, Queue.Kept, Queue.Ends, Queue.Delays   proofs on these
--   Fs.System           openat, walkdir, serde_json and uuid as parameters
--   Fs.Types, Fs.Moves, Fs.Cleanup, Fs.Enqueue, Fs.Scan, Fs.Storage   smtp-queue-fs/src/lib.rs
--   Fs.Laws             what that code relies on of the file system
--   Fs.Refines          the storage in folders against Queue.Storage; Fs.Queue puts both together
--   Fs.Memory, Queue.One   a file system that satisfies Fs.Laws, and a queue of one mail, for the tests
--   Client.Types, Client.Replies, Client.Connect, Client.Sender   smtp-client/src/lib.rs
--   Client.Transport    kannader/src/queue_transport.rs
--   Client.Severity, Client.Tls, Client.Encrypted, Client.Leftover, Client.Buffer, Client.Stream,
--   Client.Ends, Client.Sent, Client.Delivery   proofs on these
--   Message.Tests, Message.Data.Tests, Server.Tests, Queue.Tests, Fs.Tests, Client.Tests   concrete input
--
-- The model. A byte is a number, a string its UTF-8 bytes, a vectored buffer a list of byte strings,
-- a range its two ends. An asynchronous function is the function of what it has awaited; a poll is a
-- function that gives the new state and an answer. What is borrowed mutably is passed in and given
-- back. A panic (a slice out of range, a failed assertion, `unwrap` of nothing) is the value `none`
-- or `panic`. In `Message.Io.AsyncRead`, `AsyncWrite` and `Server.Config.Transport` stand the laws
-- on streams that the code relies on: a call that succeeds with a count has passed on so many bytes.
-- A configuration is any record `Config`; where a theorem needs more of it, a hypothesis says so.
-- In the queue and its files all that calls change is one value, the world, which every call takes and
-- gives; where the mails are is a view of the world, and the laws of the storage and of the file
-- system are stated over that view.
--
-- Fuel. `interact` and its inner loops (`advance_until_crlf`, the reading of a message that was left
-- unread) run as long as the peer sends bytes, so no bound holds for every peer: they take fuel, as
-- do the reading of a reply and the sending of a mail in the client, and a model that runs out of it
-- says so by `out_of_fuel` or `unfinished`, which no theorem takes for an end of the session.
-- `DataUnescaper::unescape` is given one unit more than its buffer has bytes, and each round of its
-- loop uses up three of them, so it always ends. A task of the queue goes on as long as the storage
-- fails and the configuration puts the mail off; its loops take fuel, `running` is a task that has
-- used it up, and `Queue.Ends` says how much is enough for a storage that works; `Client.Ends` says
-- it for the reading of a reply. All other functions are total, by structural recursion.
--
-- Not modelled: the parsers of smtp-message, of which the session takes `Command::parse` and the
-- client `Reply::parse` as a parameter; the time limits of the server, which are among the errors of
-- the transport; the conversions between owned and borrowed strings, which keep the bytes; the parts
-- of a second in durations; the interleaving of the queue's tasks, and other
-- processes that change its folders; and the binary with its configuration.
pub mod Prelude
pub mod Message
pub mod Server
pub mod Queue
pub mod Fs
pub mod Client
