-- ===== src/Lib.antt =====
-- The server of the JiTong instant messenger (im_server), with the parts of client_core that it shares
-- with its clients. A client keeps one TLS connection. On it a Session runs an application-level secure
-- channel: it answers a ClientHello, derives keys with X25519 and HKDF, verifies a Finished message, and
-- from then on only reads and writes AES-GCM frames, each with the next sequence number. The packets
-- that come out of it go through the dispatcher to handlers, which use the database, the online map, the
-- token service and the assistant. Files go over HTTPS to a file server with the same tokens, and a chat
-- message claims what was uploaded.
--
-- Files, with paths below IMproject-main:
--   Base (Tests, Lists, Int)      Boolean tests, lists and signed integers that all parts share
--   Text                          std::to_string, std::stoi and std::string::find as the parts use them
--   Db/Tables, Db/Sql             im_server/src/Database.h and the schema in Database.cpp; one connection
--                                 as a state monad, with BEGIN, COMMIT, ROLLBACK, prepare and step
--   Db/Users                      registerUser, loginUser, getUser and the other queries of accounts
--   Db/Friends                    isFriend, addFriendBidirectional, createFriendRequest,
--                                 resolveFriendRequest, removeFriendBidirectional
--   Db/Messages                   saveMessage, pullUndelivered, markDelivered, roamMessages and others
--   Db/AuthSessions               the auth sessions, their rotation and revocation
--   Db/Queue                      im_server/src/DbWriteQueue.cpp and DbWriteQueue.h, as steps of threads
--   Db/Migration                  migrateConversationIds and the version check of Database.cpp
--   Tokens                        im_server/src/auth/TokenService.cpp
--   Wire                          the codecs of im_server/src/Session.h, the framing of Session.cpp and of
--                                 client_core/src/TcpTransport.cpp, utf8Truncate of Protocol.h
--   Crypto                        im_server/src/crypto/AppCrypto.cpp
--   Channel                       im_server/src/Session.cpp: State (the fields of Session), Frames
--                                 (encryptBusinessFrame, handleEncryptedFrame), Handshake
--                                 (handleClientHello, handleClientFinished), Session (the callbacks)
--   Presence                      im_server/src/Presence.cpp
--   Ai, Ai/Config                 im_server/src/ai/AiRequestLimiter.cpp and AiContextBuilder.cpp; AiConfig.cpp
--   Sha256                        protocol/sha256.h
--   Packets                       the messages of protocol/im.proto and their numbers
--   World                         the state that the handlers share, and the monad of their methods
--   Chat                          im_server/src/handlers/MessageHandler.cpp with the upload records of
--                                 HttpFileServer.cpp
--   Handlers                      im_server/src/handlers: HandlerUtils.h, and in Auth, Friend, Roam, System
--                                 and Assistant the handlers AuthHandler.cpp to AiHandler.cpp
--   Server                        im_server/src/Server.cpp, Dispatcher.cpp, routing/ProtocolRouter.cpp
--   Media                         im_server/src/MediaUtil.h and protocol/image_format.h
--   Files                         im_server/src/HttpFileServer.cpp
--   Client                        client_core/src/ClientCore.cpp: its state; in Send what it sends, in
--                                 Transfer its uploads and downloads, in Receive what it receives
--   Client/Transport              client_core/src/TcpTransport.cpp: its tasks, write queue and two loops
--   Examples                      the properties at concrete inputs
-- A method is a function of the state that the source's method reads, and returns the state that it
-- leaves; names are the source's in snake case. Child modules hold the proofs about their parent.
--
-- State and failures. Each call of the SQLite engine may fail: a connection holds a function that says
-- which calls the engine carries out, and the theorems hold for every such function unless they say
-- otherwise. The writing thread runs one task at a time, so a write is a function on a connection. A
-- read on a pooled connection sees what is committed. The connection of a client is a state with the
-- outstanding asynchronous operations and the tasks that are posted on its strand, and Step is the
-- relation of the event loop; what other threads post may arrive at any time.
--
-- The handler of a packet is an action on the World, which records the calls of sessions' methods in the
-- order in which they are made. A worker's task of the assistant is two actions, with the call of the
-- model between them, where other packets may come in. An exception of a handler is the close of the
-- session with which the router answers it.
--
-- Numbers are natural numbers; a cast to 32 or 64 bits keeps its wrap-around written out. Ids are signed.
-- Times and sizes, which the source keeps in 64 bits, are unbounded. The loop of hkdfSha256 has the
-- length that is asked for as its fuel, and every round makes at least one byte; the reading of a stream
-- of frames has the number of frames. The digits of a number have one more than the number as fuel.
--
-- Parameters: the primitives of OpenSSL, Argon2id and the old hash of passwords, the hash of tokens, the
-- generated protobuf code, std::regex_replace of the redaction, the answers of the model, the headers and
-- the content that httplib reads, the environment, and which weak pointers can be locked. What a call
-- draws from a random generator, and the time, are arguments.
--
-- Not modelled: the sockets, TLS and threads of asio and httplib, the start and stop of the server, and
-- the files on the disk; the HTTP calls of the AI providers; the counters and texts that only the log or
-- an error message shows; the seed data and the connection pool of the database; SqliteStorage; the
-- desktop client and the former server, which hold no part of this one; the copies of other projects' libraries.
pub mod Base
pub mod Db
pub mod Tokens
pub mod Wire
pub mod Crypto
pub mod Channel
pub mod Presence
pub mod Ai
pub mod Text
pub mod Sha256
pub mod Packets
pub mod World
pub mod Client
pub mod Handlers
pub mod Server
pub mod Chat
pub mod Media
pub mod Files
pub mod Examples
