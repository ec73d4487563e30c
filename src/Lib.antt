-- ===== src/Lib.antt =====
-- pushSystem sends a message to every selected user of a range of user ids. A daemon keeps a
-- registry of servers and hands a push, cut into ranges, to the producers among them; a producer
-- reads from Redis which users of its range are selected, and sends a message for each of them to
-- RocketMQ; an updater fills the bitmaps in Redis out of MySQL.
--
-- The parts, and the files that model them:
--
-- - Common and its children: names of the libraries, Boolean tests, lists and counts, machine
--   words (`% 2 ^ w`), and integers. StdMap: std::map, std::unordered_map and std::set as sorted
--   association lists. Double: what the program relies on of double, as operations with laws.
--   Shared: common/common.cpp and common/errCode.h.
--
-- - Daemon.State: the globals of daemonServer/daemonServer.cpp that gSvrInfoMutex guards. Every
--   critical section is one function on this state. Daemon.Registry: ClientRegister, HeartBeat
--   and LoadBalance. Daemon.Balance: Rebalance and gRank2SvrId. Daemon.Dispatch:
--   SelectProducerAndSend, one round of its loop as `select_turn` and the loop as `rounds`.
--   Daemon.Replies: ProduceMsgAsyncCall, its circuit breaker, and DecreaseProducerTask.
--   Daemon.Alive: CheckProcAlive. Daemon.Invariant and Daemon.Queue: what each of them keeps.
--
-- - System: the running daemon. Handlers, timer threads, threads inside SelectProducerAndSend and
--   answers on gCQ come in any order, as steps of the relation `Step`. System.Bound and
--   System.Tasks count the calls and the tasks of the producers over a run; System.Drain has the
--   steps that bring a push to its end.
--
-- - Rpc: the objects CallData of common/handler_interface.h, one per request, with the three
--   steps of their Proceed, and the loops HandleRpcs of the daemon, the consumer and the
--   producer. What a handler does with its request is in Daemon and Producer.
--
-- - Client: common/daemonClient/daemonClient.cpp, the status machine of a server that registers
--   and sends heart beats, with its threads interleaved at the locks.
--
-- - Redis: commands and replies of hiredis, and the interface `RedisClient` of a connection.
--   Redis.Handler: common/dataHandler/redisHandler.cpp. Redis.Strings: what the updater and the
--   producers rely on of the strings in Redis, as laws of a parameter. Redis.Attempts: what stays
--   true through the attempts of a command; Redis.Server: one attempt, whose reply may be lost,
--   and from it those laws. Mysql: common/dataHandler/mysqlHandler.cpp.
--
-- - Producer: producer/producer.cpp. Producer.Prepare is the Redis part of ProduceMsg,
--   Producer.Bitmap the uids out of the bytes, Producer.Chosen both together, Producer.Task the
--   life of one call, with the messages that it sends, their callbacks and retries.
--
-- - Producer.Report: the load reports, from TpsReportService of common/rocketmq.h to the score
--   that SendLoadBalanceInfo sends.
--
-- - Updater: userInfoUpdate/userInfoUpdate.cpp. Updater.Page is the bitmap of one query, Updater
--   itself the whole update, over a connection to Redis and one to MySQL; Updater.Written and
--   Updater.Atomic what it leaves in Redis. Updater.Main: the loop of userInfoUpdate/main.cpp,
--   and the producers after it.
--
-- - Consumer: consumeMessage of consumer/consumer.cpp, its threads and the report thread in any
--   order. StartPush: the request of startPush/main.cpp, and the users of a whole push.
--
-- - Examples: concrete inputs for the theorems.
--
-- Bounds and fuel: uid and id are uint64_t and wrap at 2⁶⁴, counters are uint32_t and wrap at
-- 2³²; a theorem that needs room below the modulus says so. The loop of SelectProducerAndSend
-- runs on fuel in `rounds`; one round more than there are chunks is enough, and near 2⁶⁴ no fuel
-- is. The loop of UpdateUserInfo takes one round more than (END_UID + 10240) / 10240. The loops
-- of RedisHandler and MysqlHandler have three attempts, as in the source.
--
-- Undefined behaviour (end() or rbegin() of an empty map that is read, a null stub, bytes beyond
-- a reply) is the result `none` or `overread`, and a theorem that it does not come about says so.
-- boost::split, what a client sends, the clock and the random draws are parameters. A command to
-- Redis is a constructor in place of its text. Each critical section is one step; OnResponseFail
-- has two, with other steps between them.
--
-- A statement to MySQL is a constructor too, and its result the numbers that are read out of the
-- first column, up to the NULL of mysql_fetch_row, which the source takes for the end of the rows
-- also where it is an error. The completion queue gives back each tag once, in any order; a tag
-- of a Request that is not ok comes only after a shutdown, which no program calls while it runs.
-- Not modelled: gRPC channels and sockets, RocketMQ, hiredis and the MySQL client themselves, the
-- settings of the consumer, the printing and the option parsing of common/rocketmq.cpp, which is
-- a copy of the examples of the RocketMQ client that no program calls, logging, and the waits,
-- which only delay a step.
pub mod Common
pub mod StdMap
pub mod Double
pub mod Shared
pub mod Daemon
pub mod System
pub mod Rpc
pub mod Client
pub mod Redis
pub mod Mysql
pub mod Producer
pub mod Consumer
pub mod StartPush
pub mod Updater
pub mod Examples
