-- ===== src/Lib.antt =====
-- cpp_framework: the message router, the gateway sessions and three workers of the game servers. All
-- paths are below icebridge_svn/trunk.
--
-- Clients talk to the gateway over TCP sessions, the gateway to the router over ZeroMQ, and the router
-- hands each request to a worker that offers the service; workers answer through the router.
--
-- Router: router/mdbroker.cpp, router/service.hpp, router/worker.hpp and module/zmsg.hpp.
--   Router/Fault is what a C++ call ends with: a value, or a null or dangling pointer, an exception
--   that nothing catches, a failed assertion or an iterator that is not valid. Router/Post and
--   Router/Returns state what holds of the value. Router/Uuid and Router/Message are zmsg: the names
--   of peers as 17 bytes and as text, and the frames of a message. Router/Service is both classes of
--   service with `m_waiting`, `m_requests` and the iterator `pos` into the vector. Router/Broker is
--   the broker: the directory `m_services` leads to addresses in a heap of services, so that two names
--   of one service and a deleted service can be told apart, and a `BrokerWorker *` is the identity of
--   the worker, since the broker never deletes a worker while it runs. State holds the data, Services,
--   Dispatch, Workers and Clients the methods of `broker`, Loop the rounds of `start_brokering`. One
--   reading of the clock serves a round. How a vector grows is the parameter `grow`.
--
-- Gateway: gateway_server/sdk/tcp_session.cc, id_generator.h and tcp_io_thread_manager.cc.
--   Gateway/Session is a TCPSession. What asio holds, a read or a write, is a flag, and `wire` is what
--   the socket took. The message filter is a record of functions; Gateway/Sound states its laws, which
--   Gateway/Filtered shows of `MyFilter` for the messages that it can write, and the
--   invariant of a session, Gateway/Handlers, Gateway/Posting and Gateway/Stream what the handlers keep.
--   Gateway/Manager has the generator of identifiers, over 32 bits, and the map of handlers;
--   Gateway/Unique says why no identifier is in use twice.
--   Gateway/Outbox is tcp_session_handler.cc: a handler with its session, and the tasks of the main thread
--   and of the thread of the session; Orderly and InOrder hold the proofs.
--   Gateway/NetMessage is net_message.h and net_message.cc, with the vectors that messages share in a
--   store; its Values compares them with messages that share nothing.
--   Gateway/Filter is my_filter.h: the frames of messages and their cipher; Frames and Reading hold the
--   proofs. Gateway/Cipher has AESSBox and TeaAlgorithm (Field the arithmetic of bytes, Box the table of a
--   session) and module/RandomUtil.cpp (Randoms); Bits, Reduced and Table hold proofs. The loop of `mod`
--   runs on eight rounds and that of `length` on sixteen, enough for a short.
--
-- Army: workers/small_map_worker/_army_build_queue_manager.cpp, for one player.
--   Army/State holds the camps, each a `TimerQueue` with its deadline timer as a time and a flag, and
--   the record of what redis, MySQL and the configuration answer. Army/Queue has `addSoldiers`,
--   `delSoliders` and `timeIsUp`, Army/Complete `completeAtOnce`, `getCampInfo` and the destructor,
--   Army/Reload `newTimerQueueFromRedis` from the entries on; Army/Scheduled, Army/Restored and
--   Army/Reload/Counts hold the proofs. The loop over the soldiers of an entry runs on their number and
--   one more.
--   Shorts and ints are the natural numbers of their bits, and wrap around.
--
-- WorldMap: workers/simple_worker/_world_map.cpp, the free positions.
--   WorldMap/Positions has `map_key` and `remaining_position` and the methods that draw and choose a
--   position. Redis and the random number are parameters.
--
-- Battle: workers/pvp_worker, the battles of one player against another.
--   Battle/State has a battle, the three tables of the worker and the list of what it sent, Battle/Messages
--   what a message holds, Battle/Server a handler for each message, Battle/Update and Battle/Points the
--   tick that ends a battle, Battle/Loop the queue of messages and the tick of `main`. Redis and msgpack
--   are parameters, and so is the value of the variable that two branches read unset. Battle/Fair and
--   Battle/Fought, Battle/Handled, Battle/Received, Battle/Timed, Battle/Ticks and Battle/Attack hold
--   the proofs.
--
-- Login: gateway_server/service/_login_worker_logicworker.cpp, the game of one player.
--   Login/State has a city, the tables of levels and limits, and the commands and messages in their order;
--   Login/Buildings has the requests about buildings and `build_timer_handle`, Login/Events a list of them.
--   Login/Goods has equipment, heroes, the market of gateway_server/database/redis_chat_worker.cpp and
--   `GetBackpack`, Login/Equipment dressing and undressing, Login/Trade the market, boxes and mails,
--   Login/Heroes naming, hiring and dropping heroes, Login/Recruiting who comes to the tavern, Login/Arms
--   the types of soldiers. What heroes are, alone and with their equipment, is computed with floats and a
--   parameter. Login/Built, Login/Begun, Login/Reloaded, Login/Progress, Login/Finishing, Login/Spending
--   and the children of Equipment, Heroes, Recruiting and Trade hold the proofs.
--
-- Prelude has what all share: Boolean tests, lists measured by native numbers, the arithmetic of shorts
-- and ints, keys and dictionaries, which stand for `std::map` and, in the order of the keys, for the hash
-- maps.
--
-- Every loop is structural or runs over a list of events; the dispatch loop of the broker runs on the
-- number of requests in the queue, of which each round takes one. Not modelled: sockets, threads,
-- printing and the text of database commands, the manager over the players of the army queues, the
-- handlers of the world map messages, the values of a hero's attributes and the logging
-- in of the login worker, a handler of a timer that asio has queued before the timer is cancelled, the
-- other parts of the gateway.
pub mod Prelude
pub mod Router
pub mod Army
pub mod WorldMap
pub mod Gateway
pub mod Login
pub mod Battle
