-- ===== src/Lib.antt =====
-- Verification of zmq_test, a collection of ZeroMQ programs in C: the Paranoid Pirate queue and
-- worker, two load balancing brokers, a broker that shares work in a cloud, the client and
-- worker libraries of the Majordomo protocol, the Lazy Pirate client and server, a pipeline of
-- tasks, an asynchronous client and server, a broker that passes messages on, a weather server
-- and its client, a few small servers and their clients, and the functions that they share.
--
-- The parts, the code that each is about, and how its names correspond:
-- Common: lists, Boolean tests, clocks, integers, sums, lists up to order and counted runs of a
--   relation, which the parts share.
-- Czmq: `zmsg_t` and `zlist_t` of CZMQ as the records Zmsg and Zlist, operations with their
--   documented laws. The code of CZMQ is not in the repository, so the programs take them as
--   parameters; Czmq.Instances has values of both.
-- Base: src/base.h and src/base.c. Random is `randof`, Identity the text of `s_set_id`,
--   Transport `s_recv`, `s_send`, `s_sendmore` and `s_sendlists`, Dump `s_dump`, Time `s_sleep`
--   and `s_clock`, Signals `s_signal_handler` and `s_catch_signals`, Errors `parser_errno`;
--   Numbers are the laws of sprintf and atoi for numbers, which are parameters.
-- Ppq: src/ppq. Defs is ppq.h, Queue is queue.c, with `_worker_new`, `_worker_ready`,
--   `_worker_next` and `_worker_purge` under their names and the turn of `main` as `step`;
--   Worker is worker.c, with `turn` for its loop; RoundTrip is about both. Queue.Service is the
--   queue told with names and times only, and Queue.Refinement compares the two.
-- Loadbalance: src/loadbalance. Array is the broker of lbbroker.c with its array of ten names,
--   with its tasks in Tasks, its handling of one message in Handling and the whole with three
--   workers in System, Lists the one of lbbroker2.c, with its tasks in Tasks, Requests rtreq.c.
--   Equivalence has both brokers on the same polls; Whole is lbbroker.c with all its threads as
--   a step relation.
-- Cloud: src/cloud. Flow is lcflow.c, with its outer loop as `turn` and its inner one as
--   `drain`; Flow.Tasks has its clients and workers, Flow.Exchange is about two of its brokers;
--   Full has the client and worker tasks of full.c, State is stateflow.c. Sockets has the
--   sockets of all three programs with their addresses.
-- Mdp: api/MDP. Client is mdcliapi.c, Worker is mdwrkapi.c; the functions keep their names
--   without the prefix. Examples is src/MDP, whose programs use the two.
-- Lpp: src/lpp. Client is client.c, Server is server.c, and Exchange is about both.
-- Task: src/task. Ventilator, Worker and Sink are the three programs, and Pipeline the three
--   together as a step relation.
-- Async: src/async/cs.c. Server is `_server_worker`, Client `_client_task`, and Conversation is
--   about both.
-- Rrb: src/rrb. Broker is broker.c, with its macro and its loop, Client is client.c, Worker is
--   worker.c; Whole is the three together as a step relation.
-- Mt: src/mt. Duff is duff.c, Relay relay.c, with its three threads as a step relation, Server
--   server.c.
-- Weather: src/weather, with the functions of both programs.
-- Hello: src/helloworld. Client is client.c, Server is server.c, with the signals that reach
--   it.
-- Envelope: src/envelope, both programs; Filtering is about what the subscriber prints of what
--   the publisher sends.
-- Erl: src/erl. Server1 is server1.c, Server2 is server2.c.
-- Router: src/router/id_check.c.
--
-- A program is a function from what its environment does to a state and an outcome. Polls,
-- received messages, readings of the clock and draws of random numbers are arguments; what is
-- sent and the sockets that are made are a list in the state. An outcome says whether a loop
-- goes on, ended, or met a failed assertion or a use of NULL. The programs interact through
-- messages only, so theorems on two of them hand the message of one to the other. Where all
-- programs run together, a relation says which steps they can take, each any of the messages
-- that wait for it, and the theorems are about every run.
--
-- A loop without end is run on a list of polls or messages, as long as one likes, so no result
-- depends on a bound. Fuel is used for a scan of a linked list, one more than its length, for
-- the digits of an int in base 16, of which there are eight at most, and for the bits that a
-- float drops, 64 for numbers below 2^88, while the product of two numbers of 31 bits is at
-- most 2^62.
--
-- Not modelled: the release of sockets, threads and memory, their setup where no theorem needs
-- it, most of what is only printed, src/ucontext, which only calls the C library, and
-- `zmq_proxy`, on which src/mt/server.c and the server task of src/async/cs.c rest, since it is
-- not in the repository. Numbers that the programs keep in an int are natural numbers here,
-- since none of them gets negative in the code that is modelled, `mdcli_set_retries` and the
-- lengths of `s_send` aside, whose arguments are taken not to be negative; only the
-- temperatures of src/weather are integers. For the counts that src/ppq counts down and the
-- pauses that it doubles, a theorem says that they do not wrap. The counts that only go up are
-- taken to have no bound, where an int would wrap after 2^31 of them: the requests of
-- src/async/cs.c, the rounds of src/mt/duff.c, `cycles` of src/ppq/worker.c and
-- src/lpp/server.c, `sequence` of src/lpp/client.c, whose array `request` is too short from
-- 10^9 on, and `total` of src/loadbalance/rtreq.c. Memory is taken to hold what is written to
-- it where no array is modelled: the byte 0 that lbbroker.c writes behind the block of a name
-- is not, and what memcmp reads behind an empty frame is taken to be no signal. Strings that
-- src/cloud passes as a format are taken to have no `%`.
pub mod Common
pub mod Czmq
pub mod Base
pub mod Ppq
pub mod Loadbalance
pub mod Cloud
pub mod Mdp
pub mod Lpp
pub mod Task
pub mod Async
pub mod Rrb
pub mod Mt
pub mod Weather
pub mod Hello
pub mod Envelope
pub mod Erl
pub mod Router
