-- ===== src/Lib.antt =====
-- Verification of the C agent of the distributed resource manager (agente_c).
--
-- The program. Each node runs an agent that owns three resources (cpu, mem, gpu). A planner on the
-- same node asks it for jobs (JOB_REQUEST, a list of amounts on nodes), and the agents reserve from
-- one another (RESERVE, answered by GRANTED or DENIED, and RELEASE). The server
-- (agente_c/src/server.c) reads lines from its sockets and hands each one to `process_message` of
-- agente_c/src/resource_manager.c, which holds the whole state: the counters and the queue of each
-- resource (agente_c/src/pending_request.c), the table of jobs (agente_c/src/tabla_jobs.c), the
-- connections to other agents (agente_c/src/tabla_conns.c) and the nodes that were heard of
-- (agente_c/src/tabla_node_entry.c).
--
-- The model. Each handler is a function from the state to the next one; what it sends is put in
-- front of the list `out` of the state, one entry for each call of `enqueue_write`, as a value of
-- `Message` that stands for the format string and its arguments.
--   Prelude        names of the libraries, Boolean tests, lists, `int` as an integer with its
--                  wrap-around written out (`Int.wrap`)
--   ResourceTypes  agente_c/include/resource_types.h
--   Text           `%d` of printf; Scan has the directives of `sscanf` and `strtok_r`, Roundtrip and
--                  Words the lemmas about them
--   Parsing        agente_c/src/parsing.c; JobRequest and Announce have the two parsers with loops
--   Hash           `hash_ip`, and the arrays of 71 buckets
--   Queue          agente_c/src/pending_request.c; the chain of nodes is a list. Queue/Fifo has its
--                  proofs, and Queue/Linked the same operations on nodes in memory
--   Jobs           agente_c/src/tabla_jobs.c; Sweep has the walks over the whole table, Lookup
--                  shows the table as a map, Grants the life of a job, Every and Payable what
--                  holds of all jobs
--   Conns, Nodes   agente_c/src/tabla_conns.c and agente_c/src/tabla_node_entry.c
--   Manager        agente_c/src/resource_manager.c: the state and one resource; Handlers, Requests
--                  and NodeList have the branches of `process_message`, Events the other calls and
--                  the agent as a machine (`step`, `run`), Dispatch the whole of
--                  `process_message` on a line, Wire the text of the messages. The other children
--                  hold the proofs
--   Server         agente_c/src/server.c: the buffers of a connection. Epoll has the types of
--                  connections, their registrations and the calls that open one; Worker the
--                  handlers and the body of the loop of `worker_thread_loop`, over the manager and
--                  a map from addresses to connections (`handle_event`, `worker_step`); Sharing the
--                  turns that workers and senders take on one connection, as a step relation.
--                  Stream, Framed and Framing are about the bytes, and Armed, Fresh, Handled,
--                  Progress, Staged, Settled, Kept and Forgotten have the proofs about an event
--   Startup        agente_c/src/main.c: the configuration, the start, the announcement and the round of
--                  its thread. Announcement, Heartbeat and Service have the proofs
--   Threads        the mutexes: Calls, Building and Handlers have every call of the manager as a
--                  program of locks, unlocks and accesses (`event_prog`), which threads run by turns
--                  (`Step`, `Reach`). Alone shows that a program alone does what the call does, Guarded
--                  and Ordered what each lock guards and in which order the locks are taken, Deadlock
--                  and Finished that the threads come to an end, Exclusion that they change only what
--                  they have locked, and Kept that the manager stays in order
--   Tests          each theorem at a concrete state
--
-- Numbers. An `int` is an integer, and each sum or difference that the code computes is wrapped to
-- 32 bits; a pointer to a connection is a natural number, and NULL is `none`. Strings are lists of
-- bytes, cut to the buffer that `strncpy` copies them to. An index outside the array of jobs, which
-- a negative id gives, reads an empty bucket and writes nothing: the theorems about the table as a
-- map ask for an index inside, and what the handlers do with a negative id is not what the code does,
-- which reads and writes outside the array. In the same way a name of seven bytes in a JOB_REQUEST is
-- refused, where the code has written a zero behind `char rec[7]` by then.
--
-- Loops are structural recursion on the list that they walk; the loop of `release_resource` is on
-- fuel, the length of the queue, of which each round takes a node, and the inner loop of
-- `parse_job_request` on the length of the token, of which each round reads some. `%d` clamps the
-- number that it reads to 64 bits and cuts it to 32, as glibc does.
--
-- The system. What a call of the system returns is an argument: a Boolean where it succeeds or fails,
-- the bytes that `read` gives, the number of bytes that `write` takes, the address that `malloc` gives.
-- `read` and `write` are functions of the number of bytes that they are asked for. Theorems that need
-- it ask that they give no more than that, that `malloc` gives no address in use, and that an
-- event on a connection that is being made has `EPOLLOUT`. `EPOLL_CTL_MOD` may fail everywhere, with one
-- result for each connection while an event is handled; the connections on which it fails in
-- `enqueue_write` are kept (`missed`, `is_missed`) until they are armed again. The bytes that the manager sends in a call
-- are put in the buffers when the call ends, in their order; the manager does not read the buffers.
--
-- Threads. In Manager a call is one function, and in Worker each event is handled alone. In Threads the
-- steps of any number of calls are interleaved at every lock, unlock and access to the state of the
-- manager; the loop of `release_resource` has the same fuel there, the length of the queue that it finds
-- when it has the mutex of the resource. In Sharing the steps of the threads on one connection are
-- interleaved at the calls that lock its `write_mutex`.
--
-- Left out: the creation and the destruction of the mutexes, the log output, `sleep`, `pthread_join` and
-- the failure of `fcntl`, which ends the process. A pointer to a connection or to an entry of a table
-- that is read under a lock is used after it as a value. A message to a connection that
-- was freed is dropped, where the code would write to freed memory. The results of
-- `connect_remote_node` and the clock are arguments of the manager.
pub mod Prelude
pub mod ResourceTypes
pub mod Text
pub mod Parsing
pub mod Hash
pub mod Queue
pub mod Jobs
pub mod Conns
pub mod Nodes
pub mod Manager
pub mod Server
pub mod Startup
pub mod Threads
pub mod Tests
