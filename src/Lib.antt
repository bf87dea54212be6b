-- ===== src/Lib.antt =====
-- The MQTT 3.1.1 client library (client/lib), as a state machine: each call of its API and each message
-- from the broker is a function of the client's state, and what the application sees of it is a trace
-- of events.
--
-- The parts, from the bottom up:
--   Base: the names that all files share, lists over the native numbers, and sorted vectors with the
--     binary search, insertion and removal that the program uses on them.
--   Timers: client/lib/src/TimerMgr.h and TimerMgr.cpp. A timer is its index in the storage; the callback
--     with its data is one value. Timers/Invariant says which managers are well formed.
--   Config and State: ExtConfig.h and ObjListType.h over the generated Config.h, and the four state
--     structures ClientState.h, ConfigState.h, SessionState.h and ReuseState.h.
--   PacketIds and Topics: op/Op.h, op/Op.cpp and isTopicMatch of op/RecvOp.cpp. Topics/Levels describes
--     topics by their levels, with no use of the program's loops.
--   Client: the state of ClientImpl.h, and in its children sendMessage (Output), the lists of operations
--     (Registry), completing, pausing and resuming publishes (Sends), and brokerDisconnected with
--     terminateOps (Broker).
--   Ops: one file per operation under op/: Send, Recv, Connect, KeepAlive, Subscribe, Unsubscribe.
--   Session: brokerConnected (Connected), the acknowledgements of publishes (Acks) and PUBLISH and PUBREL
--     (Incoming), all of ClientImpl.cpp; Frame has what sending a message changes, for the proofs, and
--     Incoming/Overflow what the missing test for room in m_ops leads to.
--   Registered: the proofs that the list of all operations and the lists of each type agree, file by
--     file along the code, up to a run of calls (Calls), and what follows from it: for the publishes
--     (Unique), a disconnection (Cleared, Ended), a ping without answer (Silent) and a SUBACK (Answered).
--   Api: the calls of the application: doApiEnter, doApiExit and tick (Loop), connectPrepare with
--     initInternal (Connect), the other prepare calls (Prepare), processData, the dispatch of
--     messages and DisconnectOp (Data), and the functions of client/lib/templ/client.cpp.templ (Calls,
--     Interface).
--   App: the reading and writing of binary data in client/app/common/AppClient.cpp.
--   Fuzz: the broker of client/afl_fuzz/Generator.cpp: its handlers (Broker) and the topic that it makes
--     from a filter (Topic).
--   Examples: the theorems at concrete inputs.
--
-- An operation is a record with an identity; a pointer to it is that identity, and a look-up that fails
-- is a use of an object that is destroyed, which the trace shows as uses_destroyed. Destructors (of
-- timers and packet ids) run where the list erases the operation. The calls of one function by another
-- through the list of operations, which in the program are mutual recursion (completing a publish
-- resumes others, which may complete), run on fuel: resumeSendOpsSince on twice the number of publishes
-- and one, since each round passes one by or sends a paused one, and resendAllUntil on their number and
-- one; both are proved to be enough. The search for a packet id runs on 2^17, twice through all ids.
--
-- Numbers are natural numbers, with the wrap-around of 16 and 32 bits written out where the program
-- relies on it. A text is the list of its bytes.
--
-- Parameters (Client.Build): the generated configuration, the length and the success of the
-- serialisation of a message, the refresh of a publish before it is sent, what the fields of the
-- protocol library hold of a text assigned to them and their limits, and whether the allocators have
-- room. The append to m_ops of a publish that comes in and of a keep-alive is not tested for room in
-- the program; in a full vector of fixed storage nothing defines it, which the trace shows as
-- overflows_ops. The input of processData is the sequence of results that the frame of the protocol
-- library reads.
--
-- Not modelled: an application that calls the API from its own callbacks, the texts of the error log, of
-- the C interface its getters and the functions that chain others, the rest of the applications under
-- client/app and of the fuzzer, and the serialisation of messages.
pub mod Base
pub mod Config
pub mod State
pub mod Timers
pub mod PacketIds
pub mod Topics
pub mod Client
pub mod Ops
pub mod Session
pub mod Api
pub mod Registered
pub mod App
pub mod Fuzz
pub mod Examples
