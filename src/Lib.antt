-- ===== src/Lib.antt =====
-- The OTA service and the sherry library under it.
--
-- The parts, and how they work together. `OTAHttpManager` (sherry/ota_http_manager.cc) answers HTTP
-- requests: it reads Redis, and puts commands on a queue in Redis. `OTAMqttManager`
-- (sherry/ota_mqtt_manager.cc) takes them off the queue in a thread of its own, hands each to
-- `OTACommandDispatcher` (sherry/ota_command_dispatcher.cc), and that to the `OTADevice`
-- (sherry/ota/ota_device.cc) of the device type. A device stores the published version in Redis
-- and has an `OTANotifier` (sherry/ota_notifier.cc) publish a message by a recurring timer of
-- the `TimerManager` (sherry/timer.cc). The `ByteArray` (sherry/bytearray.cc) is the buffer in
-- which the library's protocols encode their integers and texts.
--
-- Under the service runs the library's own machine. The threads of a `Scheduler` (sherry/scheduler.cc)
-- take fibers and callbacks off one queue; the `IOManager` (sherry/iomanager.cc), which is a scheduler and
-- a timer manager, puts there what waited for an event or for a timer. A request comes in over a `Stream`
-- (sherry/stream.cc), `HttpSession` (sherry/http/http_session.cc) puts it together, and the
-- `ServletDispatch` (sherry/http/servlet.cc) finds the handler that `OTAHttpManager` registered for
-- its path. Outgoing requests share the connections of an `HttpConnectionPool`.
--
-- Files and code:
--   ByteArray                 sherry/bytearray.h and .cc. The chain of nodes is the list `nodes`, m_cur
--                             the number of nodes before it; ByteArray.Chain has the loops.
--                             ByteArray.Stream is the array as one piece with one cursor, ByteArray.Buffers
--                             what a SocketStream sends of it.
--   ByteArray.Codec           the integers and strings of bytearray.cc, sherry/endian.h
--   Timer                     sherry/timer.h and .cc. The set is an ordered list, a handle the
--                             timer's id, which is its address.
--   Ota.Keys                  sherry/hash.h
--   Ota.Redis                 sherry/db/redis_util.cc, RedisUtil::Cmd of sherry/db/redis.cc
--   Ota.Http                  what the handlers use of sherry/http/http.h
--   Ota.HttpManager, Query,   sherry/ota_http_manager.cc: notify and stop_notify; the queries and
--     Download                the page; the download of a file
--   Ota.Notifier, Device      sherry/ota_notifier.cc, sherry/ota/ota_device.cc
--   Ota.Callbacks             sherry/ota_client_callback.cc
--   Ota.Manager, Consumer     sherry/ota_mqtt_manager.cc, sherry/ota_command_dispatcher.cc
--   Ota.Routes                register_routes of sherry/ota_http_manager.cc
--   Scheduler                 sherry/scheduler.h and .cc, sherry/fiber.cc. The loop of `run` is cut at its locks,
--                             at the switches of contexts and where the count of active threads
--                             is taken down behind them; Scheduler.Reach has the interleavings.
--   IoManager                 sherry/iomanager.h and .cc. A context is the index of its descriptor;
--                             IoManager.Both has the operations on
--                             both of its events, IoManager.Idle the round of idle with the timers.
--   Stream, HttpSession       sherry/stream.cc, sherry/socket_stream.cc, sherry/http/http_session.cc. What the
--                             calls of read return, in order, is a list.
--   Servlet                   sherry/http/servlet.cc
--   Http                      sherry/http/http.h and http.cc: the methods, statuses and headers, and how messages
--                             are printed; the reader that Http.Printed has is that of the standard.
--   HttpConnection            the sending and receiving of sherry/http/http_connection.cc
--   Address                   sherry/address.cc
--   Config                    sherry/config.h and .cc. A pointer to a variable is its place in the list of all
--                             that were made; Config.Kept has the calls that a run is made of.
--   Log                       LogFormatter of sherry/log.cc; Log.Logger has its loggers and appenders
--   ConnectionPool            HttpConnectionPool of sherry/http/http_connection.cc
--   FdManager                 sherry/fd_manager.cc
-- The tests and the examples of the theorems are in the modules named Tests.
--
-- Conventions. A call that changes state takes the state and returns it with its result. Each
-- locked section is one step, so that a call is a run of it without interference. What the other
-- parts log is left out. A `uint64_t` wraps where a sum is taken of the clock; the sizes of an array are
-- below 2^53, where the `ceil` of `addCapacity` is exact. Texts are lists of bytes without a
-- zero byte, which `strcmp` and the formats of hiredis stop at.
--
-- Fuel. `recv_response` takes as much as there are chunks, and `read_pieces` more than the pattern is long.
-- `varint_bytes` runs on the room of the buffer that the writer fills, 5 or 10 bytes, and
-- `read_varint` on the rounds of the reader's loop, the same numbers. `decimal` runs on a number
-- above the one printed. All other loops are recursions on a list.
--
-- Parameters. The bytes of a new block, the Redis server with its pool of connections, the JSON
-- library, the clock, addresses of new timers and the sizes of files are arguments. The
-- hypotheses on the server (Ota.Redis.Store) are what Redis documents: a SET that is answered has
-- stored its text, a GET answers what is stored, and a command touches no key but its own.
--
-- The results of epoll_ctl and of recv, what epoll_wait reports, fnmatch, fstat, inet_pton, strftime,
-- zlib, what yaml-cpp reads and the parsers that Ragel generates are arguments as well; a thread's steps
-- may be taken in any order with those of others.
--
-- Not modelled: the MQTT client, sockets, hooks and the switches of contexts (third-party and system calls),
-- the parsers that Ragel generates and the lookup of addresses; of the library the change of the loggers
-- by the configuration, the conversions of LexicalCast, the parsing of URLs, the start and the joining of
-- threads, and myfiber.cc; of the service the responders over MQTT; HttpBuffer, OTAMessage and the older
-- OTAHttpCommandDispatcher with its builders, which no target of the build names; of `ByteArray` the files,
-- the buffers for vectored reads, and floats, which are bit patterns that the fixed integers carry.
pub mod Address
pub mod ByteArray
pub mod Common
pub mod Config
pub mod ConnectionPool
pub mod FdManager
pub mod Http
pub mod HttpConnection
pub mod HttpSession
pub mod IoManager
pub mod Log
pub mod Ota
pub mod Scheduler
pub mod Servlet
pub mod Stream
pub mod Timer
