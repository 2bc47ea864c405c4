-- ===== src/Lib.antt =====
-- Verification library of the instrument script server: a daemon that runs scripts against laboratory
-- instruments, each of which a worker process of its own drives through a plugin.
--
-- How the parts interact. The server holds one InstrumentWorkerProxy for each instrument. `execute` gives a
-- command an id, writes it as JSON, sends it through a shared-memory queue and hands out a future.
-- The worker (generic_worker_main.cpp) reads the command, calls the plugin and sends the response, and
-- for a command of a parallel block an acknowledgement; the proxy fulfils the future, and passes
-- acknowledgements to the SyncCoordinator that all proxies share. The InstrumentRegistry holds the
-- proxies by name and what the instruments' API definitions say. A script calls a RuntimeContext, which
-- turns its calls and parallel blocks into commands for the registry's proxies, with one token for each
-- block, and later releases the tokens. The JobManager runs jobs, scripts among them, one after the
-- other on a thread of its own. HttpRpcServer reads requests, and its command handlers act on the
-- registry, the jobs and the plugins.
--
-- Which file models what:
--   Base, Base/*            names of the libraries passed on, Boolean tests, keys, maps as lists of
--                           entries (sorted by key, as std::map and nlohmann::json keep them), sets as
--                           lists without repetition, decimal numerals.
--   Json, Json/*            JSON values; nlohmann::json as an interface (Json/Codec) with its documented
--                           laws: a dump reads back, a cut dump of an object does not parse.
--   Sync, Sync/*            src/server/SyncCoordinator.cpp, a function for each method.
--   Wire, Wire/*            src/SerializedCommand.cpp. `none` is an exception.
--   Ipc                     include/instrument-server/ipc/IPCMessage.hpp.
--   Worker, Worker/*        src/workers/generic_worker_main.cpp and
--                           include/instrument-server/plugin/PluginInterface.h: the handlers of
--                           `Instrument` and its main loop over explicit rounds (a time, and what the
--                           queue gave). The plugin is a parameter.
--   Proxy, Proxy/*          src/server/InstrumentWorkerProxy.cpp: the handlers as functions on a record, and
--                           runs of events in any order.
--   JobManager, JobManager/* src/server/JobManager.cpp: the client operations, and the worker thread as a
--                           state machine (Phase) with a step for each section that holds the mutex.
--                           Scripts are a parameter.
--   Registry, Registry/*    src/server/InstrumentRegistry.cpp over the proxies of Proxy. Launch is what happens
--                           outside while a worker is started. Yaml is its reading of YAML documents, ApiRef
--                           src/server/ApiRefResolver.cpp.
--   Context, Context/*      src/server/RuntimeContext.cpp: Calls is `call`, Parallel `parallel` in both modes,
--                           Tokens process_tokens_and_wait and collect_results_json; Script runs whole
--                           scripts. A method call is one step. World is what happens outside meanwhile:
--                           the queues, what comes of each message that is waited for (Awaited: a
--                           response, an exception, nothing for ever, or a response that cannot be
--                           read and ends the process), the clock.
--   Plugins, Plugins/*      src/plugin/PluginRegistry.cpp. Disk is what loading a library and looking into a
--                           directory give.
--   Handlers, Handlers/*    src/server/CommandHandlers.cpp, a function for each handler, and (Http) the dispatch
--                           of src/server/HttpRpcServer.cpp. The singletons are the record Server; Host is
--                           what happens outside while a handler runs.
--   DataBuffers, DataBuffers/* src/ipc/DataBufferManager.cpp: the buffers and their counts of references.
--   Samples                 concrete instances of the interfaces, for the tests in the Tests modules.
--
-- Bounds and fuel. Message ids and tokens wrap at 2 ^ 64, and the int that counts the sleep of a job at 2 ^ 31,
-- where C++ leaves the overflow open; theorems on runs of a proxy assume fewer than 2 ^ 64 - 1 events,
-- so that ids do not repeat. The numerals of Base/Decimal use fuel for twenty digits, which
-- is enough for 64 bits. No other function has fuel. Texts are values of the native string type; the texts
-- copied into the plugin's C arrays are taken to be ASCII.
--
-- Not modelled: the queue itself (boost::interprocess), processes and signals, sockets and the text of HTTP headers,
-- Lua itself (values, calls and blocks are data), dlopen, the parsing of YAML, schemas, the VISA plugin, the
-- process of the daemon and the command line, the wait behind the command that starts the daemon, the end of
-- the accept loop behind the command that stops it.
-- Between the steps of one RuntimeContext method other threads may change the registry in the program;
-- the model takes a method as one step. In such a method `execute` of a proxy is uninterrupted as well; in
-- the runs of a proxy it is two events, between which any other may come, and only the taking of an id
-- and the storing of its promise are one. A wait that never ends is `none`, as an exception that nothing
-- catches is.
pub mod Base
pub mod Sync
pub mod Json
pub mod Wire
pub mod Ipc
pub mod Worker
pub mod Proxy
pub mod JobManager
pub mod DataBuffers
pub mod Plugins
pub mod Registry
pub mod Context
pub mod Handlers
pub mod Samples
