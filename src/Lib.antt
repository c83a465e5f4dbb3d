-- ===== src/Lib.antt =====
-- The container platform: models of its parts, and the theorems about them.
--
-- The platform is a set of Python modules that work together: a replicated log (modules/raft-kv)
-- holds the state of a control plane (modules/orchestrator), whose stores the controllers read and
-- write; a queue of tasks (modules/taskqueue) hands jobs to workers over connections. This library
-- follows that order: Raft, Orchestrator over it, and Taskqueue; Images and Dockerfile are of
-- modules/image-toolkit, and Container is of modules/container-runtime. Prelude has what they share:
-- tests on numbers and texts, lists, Python's dict (Prelude/Dict), and the interface of floating-point
-- numbers (Prelude/Float).
--
-- Raft, from modules/raft-kv/raft_kv:
--   Raft/Log               raft/log.py: `RaftLog`. A line of the file is the value that it decodes to.
--   Raft/Log/Indices       what each method does to the entry at each index, with its helper
--   Raft/Log/Contiguous    for consecutive indices
--   Raft/Log/Durability    the file after any methods, and what `_load` makes of it
--   Raft/State             raft/state.py: `PersistentState`; the replaced file is one value
--   Raft/Node              raft/node.py: `RaftNode`, its small methods, and the two RPC handlers
--   Raft/Node/Election     `_start_election`, `_become_leader`, `_tick`
--   Raft/Node/Replication  `_replicate`, `_advance_commit`
--   Raft/Node/Apply        `_apply_committed`, in the three parts that its locks make
--   Raft/Node/Steps        the threads as steps, each a part of a method that holds the lock
--   Raft/Node/Merging, Following, Committing, Winning, Applying: theorems on the methods
--   Raft/Node/Keeping      what a step keeps of a node
--   Raft/Quorum            the quorums of a cluster
--   Raft/Cluster           a cluster of nodes that hold elections, as moves; a ledger of all votes
--                          is kept beside the nodes, which no code reads
--   Raft/Cluster/Nodes, Votes, Backing, Counting, Hearing, Moves, Leaders: the votes behind a
--                          candidate and a leader
--   Raft/Store             store/kv.py: `KVStore`, and its commands
--   Raft/Service           rpc/server.py: `KVServicer`, what a node answers to clients
--   Raft/Client            rpc/client.py: `KVClient`; the answers to its calls are given
--   Raft/Client/Reaching   a client finds the leader
--   Raft/Examples          concrete logs, nodes, clusters and clients
-- A method that waits for an answer is cut there: the answer is an argument, `none` if the call
-- failed, and the steps of Raft/Node/Steps let anything happen between the parts. A clock and a
-- random timeout are arguments (`Moment`). What a state machine does with an entry is a parameter
-- of Raft/Node/Apply.
--
-- Orchestrator, from modules/orchestrator/orchestrator:
--   Orchestrator/Objects          objects.py: `Meta`, `Object`, keys and selectors. Spec and status
--                                 are of any type; two specs are compared by a given test.
--   Orchestrator/Store            store.py: `MemoryStore`. A method returns the store and a result,
--                                 which is a value of its own for each exception.
--   Orchestrator/Store/Machine    `ObjectStateMachine`, and the reads of `RaftStore`
--   Orchestrator/Store/Writes     any writes, and the invariant that they keep
--   Orchestrator/Store/History    `events_since` and the bounded history
--   Orchestrator/Store/Updating   the branches of `update`
--   Orchestrator/Store/Versions   what a version says, and races between writers
--   Orchestrator/Store/Replicas   `ObjectStateMachine` beside `MemoryStore`, as its specification
--   Orchestrator/Store/Retry      `update_with_retry`, with the writes of others at each attempt
--   Orchestrator/Queue            controller.py: `WorkQueue`. A pass of the loop of `get` is a step.
--   Orchestrator/Queue/Sets       its sets, and its invariant
--   Orchestrator/Queue/Waiting    its methods as calls, and the keys that wait
--   Orchestrator/Queue/Hints      no call loses a waiting key
--   Orchestrator/Queue/Retrying   the order of keys, exclusion, and delays
--   Orchestrator/Scheduler        scheduler.py: `evaluate` and `reconcile`, on the fields of pods and
--                                 nodes that they read. The floating-point operations are given.
--   Orchestrator/Scheduler/Fitting, Totals, Capacity: a node that is chosen has room, and keeps it
--   Orchestrator/Workloads        workloads.py: the steps of `DeploymentController.reconcile`, on the
--                                 fields that they read
--   Orchestrator/Workloads/Replicas   `ReplicaSetController.reconcile`, with selectors and labels
--   Orchestrator/Workloads/Replicas/Converging, Ready, Counted: how many pods there are after a pass
--   Orchestrator/Workloads/Revisions  `_ensure_target`, `revisions`, `rollback`
--   Orchestrator/Workloads/Parts, Rolling, Serving, Progress: the numbers that a pass asks for, the
--                                 pods that stay available, and the end of a rollout
--   Orchestrator/Agent            node_agent.py: the passes of `NodeAgent`; the answers of the runtime
--                                 are given
--   Orchestrator/Agent/Tidy, Passes: the processes that run
--   Orchestrator/Examples, Workloads/Examples, Agent/Examples: concrete stores, queues, rollouts and
--                                 an agent
--
-- Taskqueue, from modules/taskqueue/taskqueue:
--   Taskqueue/Queue               broker/queue.py: `TaskQueue`, and `Task` of config.py. A heap is its
--                                 entries in the order in which they leave.
--   Taskqueue/Queue/Ordering      the order of sort keys
--   Taskqueue/Queue/Serving       heaps in order, and counts that are right
--   Taskqueue/Queue/Urgency       which task leaves first
--   Taskqueue/Protocol            broker/protocol.py: frames. The text of a message is given by two
--                                 functions, for json.dumps and json.loads.
--   Taskqueue/Protocol/Receiving  `recv_exactly`, whatever pieces the bytes arrive in
--   Taskqueue/Protocol/Framing    what is read is what was sent
--   Taskqueue/Queue/Heaps         the heap of each name after a call
--   Taskqueue/Broker              broker/server.py: `BrokerServer`, the handlers of its messages
--   Taskqueue/Broker/Connection   `_handle_connection`, an event at a time
--   Taskqueue/Broker/Loops        `_dispatch_loop` and `_reaper_loop`, in the parts of their locks
--   Taskqueue/Broker/Steps        the threads as moves
--   Taskqueue/Broker/Bounds, Handlers, Runs: the retries of tasks
--   Taskqueue/Broker/Holding, Keeping, Returning, Conserving: where a task is held
--   Taskqueue/Broker/Busy, BusyRuns: the workers that are busy
--   Taskqueue/Broker/Retries      the order of messages about one task
--   Taskqueue/Worker              worker/worker.py: `_handle_deliver` and `_on_done`
--   Taskqueue/Worker/Serving      what the broker makes of the messages of a worker
--   Taskqueue/Examples, Broker/Examples, Worker/Examples: concrete queues, a broker and a worker
--
-- Container, from modules/container-runtime/minicon:
--   Container/Netlink             netlink.py: attributes, in the little-endian order of bytes
--   Container/Netlink/Attributes  what is written is read back
--   Container/Idmap               idmap.py: the mappings of ids, and `plan_for_user`
--   Container/Idmap/Choosing      which ids the chosen mapping maps
--   Container/Examples            a message and a mapping
--
-- Images, from modules/image-toolkit/imagekit:
--   Images/Digest                 digest.py, and the index of manifest.py. SHA-256 is a given function.
--   Images/Digest/Tags            a tag and its descriptor
--   Images/Store                  store.py: `ImageStore`. The text of a manifest is given by two
--                                 functions, and a file is an entry of a map.
--   Images/Store/Blobs, Images: what is put is found
--   Images/Transfer, Images/Transfer/Copying: `copy_image`, and what the destination has then
--   Images/Examples               a concrete store
--
-- Dockerfile, from modules/image-toolkit/imagekit/dockerfile.py:
--   Dockerfile                    `_logical_lines`. A text is the codes of its characters.
--   Dockerfile/Comments           lines that change nothing
--   Dockerfile/Stages             `_split_flags` and `parse`
--   Dockerfile/Stages/Indexed     the stages that are parsed
--   Dockerfile/Examples           a concrete file
--
-- Numbers are natural numbers, as Python's integers do not wrap; where the source subtracts, the
-- model stops at zero. The scheduler calculates with floating-point numbers: their operations are a
-- parameter, and a theorem that needs it says that whole numbers up to 2 ^ 53 are exact (`IsExact`). Times are natural numbers that a caller reads from a clock; delays are in
-- units that the caller chooses.
--
-- Two functions have fuel: the loop of `recv_exactly` gets the number of bytes that are asked for,
-- which is enough since each pass adds one at least (Taskqueue/Protocol/Receiving), and the loop of
-- `parse_attributes` gets the length of its buffer, as each pass goes on by four bytes at least
-- (Container/Netlink/Attributes). The other loops of the source run over lists, indices or a given
-- number of attempts. `wait_for_commit` and `get` wait in loops; they are modelled by what their
-- passes see.
--
-- Not modelled: generated stubs and the transport of messages, which are calls with given answers;
-- threads as such, which are orders of steps; the command lines; and so far the connections of
-- workers and the client of taskqueue, the rest of container-runtime, the builds of image-toolkit,
-- ctl, and in the orchestrator the threads of controllers, the status of workloads, the monitor of
-- nodes and the runtimes.
pub mod Prelude
pub mod Raft
pub mod Orchestrator
pub mod Taskqueue
pub mod Container
pub mod Dockerfile
pub mod Images
