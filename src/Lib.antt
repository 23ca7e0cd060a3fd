-- ===== src/Lib.antt =====
-- AdaptIPC: a producer and a consumer process exchange messages over a ring in shared memory or
-- over a local datagram socket, and the producer chooses between the two for each message.
--
-- src/shm_ringbuffer.c is `Ring`. A handle and the shared object that it maps are one record, whose
-- memory is a function from offsets to bytes and whose cursors are 64-bit numbers; `push`,
-- `push_scatter` and `pop` are `shm_ring_push`, `shm_ring_push_scatter` and `shm_ring_pop`.
-- `Ring.Inv` relates a ring to the queue of byte strings that it holds, `Ring.Push`, `Ring.Scatter`
-- and `Ring.Pop` are about one operation each, `Ring.Fifo` about sequences of them. `Ring.Capacity`
-- and `Ring.Open` are `round_pow2`, `ring_map`, `shm_ring_create` and `shm_ring_attach`;
-- `Ring.Attach` is about any attachment. `Ring.Flow` is `shm_ring_wait_writable` and
-- `shm_ring_push_scatter_blocking`, and `Ring.Waiting` and `Ring.Blocking` are about them;
-- `Ring.Parking` and its children are the same wait against `shm_ring_pop` as a system of steps,
-- one for each load, store and futex call, in two orders of the producer's stores: at once, or
-- through a store buffer. `Ring.Futex` is the futex that src/shm_ringbuffer.c emulates by a mutex
-- and a condition variable where there is none. src/transport_health.c is `Health`: the debounced
-- state of the ring as a transport. src/runtime_context.c and src/cost_model.c are `Cost`: what the
-- producer measures (`Cost.Context`), the names (`Cost.Names`), the configuration (`Cost.Config`),
-- the calibration (`Cost.Learn`), the decision `adapt_policy_decide` (`Cost.Decide` and its
-- children), and the decision log (`Cost.Log`). src/uds_fallback.c is `Uds`: the loops around
-- `sendto`, `poll` and `recvfrom`, and, in `Uds.Open`, opening and closing over a ledger of what
-- the process holds. src/adapt_ipc.c is `Router`: the context (`Router.Types`), the handshake by
-- which the ring comes to be (`Router.Negotiate`), `adapt_send` in its stages (`Router.Classify`,
-- `Router.Send`), `adapt_recv` and `adapt_recv_uds_timeout` (`Router.Recv`, `Router.Received`,
-- `Router.Socket`), and `adapt_init`, the queries and `adapt_shutdown` (`Router.Init`,
-- `Router.Queries`; `Router.Settings` and `Router.Ledger` are about them, over a count of the
-- mapped rings and the names of the shared objects, beside the ledger of sockets).
-- `Router.Handshake`, `Router.Delivery` and `Router.Datagram` take both ends together,
-- `Router.Keeps`, `Router.Retry` and `Router.Once` a send as a whole, `Router.Waiting` the
-- producer's wait for the acknowledgement; `Router.Rounds` is about the fuel of the loops. It calls
-- the models of the other parts where the code calls them.
-- showcase/decision_log.c is `Showcase`: its loop over an interface (`Endpoints`) of the calls that
-- it makes (`Showcase.Consistency` and `Showcase.Recorded` are about its rows), and `main` on a pair
-- of endpoints (`Showcase.Pair`).
--
-- A `double` is a parameter (`Double`): its type and operations are those of the C library, and a
-- theorem that needs a law of order names it. What the kernel, the clock, the allocator and the
-- other process answer is an argument: a `World`, the `Os` of a mapping, or the rounds of a wait;
-- `World.Post` says what holds of whatever a computation on a `World` returns. A computation is
-- `none` where such answers end before the code has returned. Errors are values, `fail` with the
-- errno.
--
-- Loops: the copy of a segment has as many rounds as bytes, since each takes at least one; `pop`
-- has two, since no sentinel follows a sentinel; `round_pow2` has 52, since the page doubles past 2
-- ^ 63 in fewer. The loops over answers of the kernel recurse on the answers, the blocking push on
-- the rounds that are left, and the handshake and the receive loops on the answers of `poll`, of
-- `recvfrom`, or on the arrivals, one or more of which each pass uses up. How often the
-- demonstrator tries a send again is an argument.
--
-- Not modelled: the memory order of the atomic operations but in `Ring.Parking` (elsewhere an
-- operation is one step, published by its last store), the futex system call, the release of
-- memory, null pointers where every caller passes a real one, and the formatting of the log file.
-- The programs under benchmarks, tests and scripts, and the rest of showcase, only measure and
-- present the library.
pub mod Base
pub mod Ring
pub mod Double
pub mod Health
pub mod Cost
pub mod World
pub mod Showcase
pub mod Uds
pub mod Router
