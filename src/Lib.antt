-- ===== src/Lib.antt =====
-- Cyclebite: a verification library for the parts of the program that carry its own algorithms.
--
-- The program profiles another program and finds its tasks. The passes (Profile/Passes) insert
-- calls of the backends (Profile/Backend) into the program under test; the memory backend records
-- the ranges of addresses that each epoch reads and writes and derives from them which epoch
-- depends on which; the Markov backend records the control flow, through a queue of tasks
-- (Profile/Backend/ThreadSafe); cartographer reads the control flow as a graph (Graph) and
-- segments it into kernels; Grammar explains each kernel.
--
-- Files, and the code that they model (paths from the repository's root):
--   Base: shared names, tests on numbers, lists, and std::set as an ordered list (Base/StdSet),
--     whose `find` is lower_bound and the test for equivalence.
--   Memory/Tuple: MemTuple, MTCompare, MemTypeCompare, MemAccessCompare, merge_tuples,
--     mem_tuple_overlap and mem_tuple_exclusion (Profile/Backend/Memory/inc/MemoryTuple.hpp).
--     Order, Ranges and Exclusion prove what they do to ranges of bytes.
--   Memory/TupleSet: merge_tuple_set and remove_tuple_set (the same file). Merge and Remove prove
--     that the loops end and what they do to the bytes of a set.
--   Memory/Epoch: Epoch and Iteration (Epoch.cpp, inc/Iteration.h).
--   Memory/CodeInstance: addIteration (CodeInstance.cpp).
--   Memory/Communication: removeExplainedProducers and GenerateTaskCommunication
--     (Profile/Backend/Memory/Processing.cpp). Explain is about one producer, LastWriter about the
--     walk over all of them, Order about the direction of the dependencies.
--   Memory/Profile: the handlers of Profile/Backend/Memory/Memory.cpp as functions on a record of
--     the profiler's globals; Boundaries is FindEpochBoundaries, Process ProcessEpochBoundaries;
--     Touched describes the bytes a call touches; Invariant, Blocks, Calls and Trace prove what a
--     run of the program under test records, and
--     Whole follows it to the dependencies.
--   Graph: Graph, GraphNode, GraphEdge and GECompare (Graph/Graph.cpp, Graph/GraphNode.cpp,
--     Graph/inc); Containers proves what the sets hold after an operation. Graph/Cycles is
--     FindCycles (Graph/Dijkstra.cpp): Arcs is its loop over the successors, Reach the paths and
--     topological orders, Depth the invariant, Verdict and Answer the loops.
--   Graph/Kernels: FullyConnected and the blocks of addNodes (Graph/MLCycle.cpp). Flood and Marks are
--     the search, Connected its answer, Blocks the blocks of a kernel.
--   Graph/ControlNode: mergeSuccessor (Graph/ControlNode.cpp).
--   Graph/VirtualNode: getEntrances and getExits (Graph/VirtualNode.cpp).
--   Markov/Task, Markov/Queue: Task and AtomicQueue (Profile/Backend/ThreadSafe). Queue has each call
--     as one step (Fifo and Calls), Queue/Interleaving the accesses of a writer and a reader that
--     take turns (Balance and Race).
--   Markov/Handlers: the handlers of Profile/Backend/Markov/Markov.cpp for one thread; Stack is the
--     stack of labels, Places the task bin, Submit one event on its way, Increment MarkovIncrement,
--     Reader MarkovPush and MarkovDestroy, Run a whole profile.
--   HashTable: the table of a profile (Profile/Backend/HashTable/DashHashTable.c). Bucket and Placement
--     are about the elements and where they are, Resolve about resolveClash, Calls about what a call
--     leaves to read, Push about the loops of pushEdgeInc, pushCallInc and pushLabelEvent
--     (Profile/Backend/ThreadSafe/Task.cpp), Tally about sequences of events, File is the file.
--   Markov/Tables: pushTasks and the three tables of a profile.
--   Graph/BuildCfg: BuildCFG (Graph/IO.cpp); Nodes, Weights, Listed, Between and
--     Enter are about one edge of the file, RoundTrip about the whole file.
--   Graph/CallGraph: the call graph (Graph/CallGraph.cpp); Lookup is about find and operator[], Main
--     about getMainNode.
--   Graph/Transforms: FanInFanOutTransform, TrivialTransforms (Trivial) and VirtualizeSubgraph
--     (Virtualize) of Graph/Transforms.cpp. Of Virtualize, Frequency is about sums of frequencies,
--     Outside about the nodes outside of the subgraph, Exits about two exits to one node. Subgraph is
--     SubgraphBFS: Step is about one edge, Sweep about the edges of one node, Drain about the inner loop,
--     Near about the nodes that it can come to, Edges about the edges that it returns, Exits about
--     those that it covers, Start about its first state, Whole and Returns
--     about what it returns.
--   Pipeline: the backend, its tables, the file and BuildCFG, one after the other.
--   Tests: the theorems at concrete inputs.
--
-- Machine integers: an address is a uint64_t and an offset a uint32_t, as natural numbers with
-- `% 2 ^ 64` and `% 2 ^ 32` where the source computes with them. Theorems about ranges suppose
-- tuples whose range does not run over the end of the address space and whose base is not 0 (the
-- source's valid tuples); those about unions suppose that the ranges lie within 2^32 addresses,
-- since the offset of a union is cut to 32 bits.
-- Loops: `while` loops take fuel. merge_tuple_set erases one tuple a round, so one round for each
-- tuple and one more are enough, for every input. remove_tuple_set erases in each round a tuple
-- that meets the removed range and inserts only tuples that do not, so the same fuel is enough.
-- FindCycles gets twice the number of nodes and two more rounds for one tree, and one tree more
-- than there are nodes: a round takes a node out of those that are neither visited nor in the queue,
-- or takes one off the queue, and each tree visits a node.
-- FullyConnected gets two more rounds for a search than there are nodes: the queue starts with one
-- node, and then each node is put in it at most once.
-- A push that waits has 32768 tries as its fuel, as in the source; the reader of a profile that
-- has ended gets 256 rounds, one more than the queue holds tasks.
-- TrivialTransforms gets one round more than there are nodes, since a chain that does not start in a
-- ring meets no node twice.
-- The inner loop of SubgraphBFS gets one round for each node in its queue, one for each edge and one
-- more, since a node is put in the queue with an edge that was not covered; the outer loop has the
-- source's million of iterations.
-- A push to a hash table gets one turn for each size up to 31 that is left, since the shift that
-- computes the number of buckets is defined up to there; at most 15 pairs of blocks with the same
-- lower 31 bits of their hash make that enough.
-- A set of shared pointers is the list of the objects in the order of its comparison.
-- The reader of the backend is a thread of its own. Markov/Handlers models the schedules in which each
-- of its rounds is one step between two calls of the program; what a pop that runs into a push does is
-- in Markov/Queue/Interleaving, where such a pop can lose a task.
-- Parameters: the weights of edges, as tests, whether an edge of a control flow graph is imaginary, the kernel file and the task candidates of the memory
-- backend, the size of a new table (computed in floats), the pointers to functions of LLVM, and the
-- contents of memory from malloc.
--
-- Not modelled: the passes (they call LLVM), json and dot output, timers, logs and the counter of
-- consumed bytes, and the parts that PROJECT.json lists with the reason.
mod Base
pub mod Graph
pub mod HashTable
pub mod Markov
pub mod Memory
pub mod Pipeline
mod Tests
