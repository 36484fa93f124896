-- ===== src/Lib.antt =====
-- Verification of MiniChat, a distributed chat service: a gate (HTTP, registration and login), a status
-- server that assigns users to chat servers, and the chat servers that keep the TCP connections. The
-- model follows the chat server (ChatSever/, of which ChatServer2/ is a copy), the status server's
-- service (StatusServer/) and the gate's requests (GateServer/).
--
-- How the parts interact. A connection (ChatSever/CSession.cpp, `Session`) reads frames from its socket
-- (`Session.Reader`, `Wire` for MsgNode.h) and posts each to the LogicSystem, which puts it into the
-- queue of the connection's shard (`LogicQueue`). A worker takes it out and calls the handler of its id
-- (`Chat`). A handler reads and writes the user manager (`UserMgr`), asks Redis and MySQL, calls the
-- other chat servers by gRPC, sends on connections and hands messages to the persistence queue
-- (`Persist`), whose worker writes batches to MySQL. The connections to MySQL are pooled (`MysqlPool`),
-- the io_contexts are handed out in turn (`IoServicePool`), and the sizes of all pools come from the
-- environment (`Settings`). A user registers and logs in at the gate (`Gate`), which asks the status
-- server (`Status`) for a chat server and a token; the chat server's login looks the token up in Redis.
--
-- Files and code:
--   Base/      bytes, integers, decimal numerals, association lists, lists
--   Const/     ChatSever/const.h
--   Wire/      ChatSever/MsgNode.h, MsgNode.cpp
--   Session/   ChatSever/CSession.h, CSession.cpp: Outbox is Send and HandleWrite, Reader is AsyncReadHead,
--              AsyncReadBody, asyncReadFull and asyncReadLen, Stream says what a whole stream leads to,
--              and Transfer what one connection reads of what another sends
--   UserMgr/   ChatSever/UserMgr.cpp
--   LogicQueue/  PostMsgToQue, SelectQueue and DealMsg of ChatSever/LogicSystem.cpp
--   Persist/   ChatSever/MsgPersistMgr.cpp
--   Settings/, IoServicePool/  ReadSizeEnv, ChatSever/AsioIOServicePool.cpp
--   MysqlPool/  the pool of ChatSever/MysqlDao.h: Startup is its constructor and check thread, Refresh is
--              checkConnection, and Conservation counts the connections of checkConnectionPro; Gate is
--              getConnection of GateServer/MysqlDao.cpp, which differs
--   MysqlDao/  the transactions of ChatSever/MysqlDao.cpp; Rules are the rules of proof for a transaction
--   Dao/       the other operations of ChatSever/MysqlDao.cpp (Users, Reports) and those of
--              GateServer/MysqlDao.cpp that differ (Gate, Registration), with the connections they take;
--              Operations lists those that open no transaction, Leases has the rules of proof, Paging is a
--              client that reads the pages of GetChatMsgList
--   Peers/     ChatSever/ChatGrpcClient.cpp: the pools of stubs and the notifications of the other servers
--   Chat/      the handlers of ChatSever/LogicSystem.cpp: World has the state and the calls, Redis is
--              RedisMgr.cpp, Json is JsonCpp, Trace has the rules of proof; Online, Users, Text, Friends,
--              Groups, History and Login are the handlers by subject, Server is
--              ChatSever/Cserver.cpp, Service is ChatSever/ChatServiceImpl.cpp
--   Status/    StatusServer/StatusServiceImpl.cpp
--   Gate/      GateServer/HttpConnection.cpp (Url, Request) and GateServer/LogicSystem.cpp (Accounts)
--   Examples/  concrete inputs for the theorems
--
-- The handlers run in a monad of a state and a log of calls: Redis, MySQL, the peers and the sockets
-- are an `Env` whose answers may depend on all earlier calls, and an exception that nothing catches is
-- `none`. Threads meet at mutexes, so a run of concurrent code is a sequence of whole critical sections,
-- in any order; checkConnectionPro takes what other threads do between its sections as arguments, as the
-- gate's getConnection does. A number beyond int in the environment is `none`, since atoi is undefined
-- there. Loops recurse on their lists. The loop over a persistence queue is a sequence of rounds,
-- and the client of Dao.Paging asks for a bounded number of pages; a theorem says how many are enough.
--
-- Not modelled: the generated protobuf code, sockets and timers, logging, what an SQL statement does,
-- the Redis manager of the gate and the status server, and the servers in Go and JavaScript.
pub mod Base
pub mod Chat
pub mod Const
pub mod Dao
pub mod Examples
pub mod Gate
pub mod IoServicePool
pub mod LogicQueue
pub mod MysqlDao
pub mod MysqlPool
pub mod Peers
pub mod Persist
pub mod Session
pub mod Settings
pub mod Status
pub mod UserMgr
pub mod Wire
