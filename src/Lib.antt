-- ===== src/Lib.antt =====
-- A model of the B-link tree of btree-benchmarks and of parts of its benchmark driver, and theorems
-- about them.
--
-- The tree (src/indices/blinktree) keeps unsigned 64-bit keys and signed 64-bit values in nodes of
-- 1024 bytes. Every node has a high key and a pointer to its right sibling, so that a thread that
-- comes to a node too far left, because the node was split, walks to the right. Threads latch one
-- node at a time.
--
--   Blinktree/Node.antt      src/indices/blinktree/node.h, node.cpp: one node and its arrays. `index`, `child`,
--                            `insert_value`, `insert_separator`, `copy`, `contains_separator` are
--                            the functions of these names.
--   Blinktree/Tree.antt      src/indices/blinktree/tree.h, tree.cpp: `create_node`, `create_new_root`,
--                            `split_leaf_node`, `split_inner_node`. The heap is a function from
--                            addresses to nodes, with the next free address; 0 is null.
--   Blinktree/NodePath.antt  src/indices/blinktree/node_path.h: the path of a descent.
--   Blinktree/Latched.antt   src/indices/blinktree/thread/latched/thread_tree.h, thread_tree.cpp:
--                            `locate_leaf`, `find`, `insert`, and `update` as `update_value`, run by one thread. The latch
--                            is a parameter with laws; Blinktree/Latched/Latches.antt has those of
--                            src/util/spinlock.h and src/util/rw_spinlock.h.
--   Blinktree/OptimisticLock.antt   src/indices/blinktree/optimistic_lock.h: `read_valid`, `is_valid`, `try_lock` and
--                            `unlock`, as steps of several threads that read and write one node.
--   Blinktree/EpochManager.antt   src/indices/blinktree/epoch_manager.h, epoch_manager.cpp: the epochs that delay
--                            the freeing of nodes; Threads.antt has the worker threads and the
--                            epoch thread, one shared access a step.
--   Blinktree/Optimistic.antt   src/indices/blinktree/thread/optimistic/thread_tree.cpp: `locate_leaf`, `find`,
--                            `update` and `insert`, run by one thread. Its latch is the version.
--   Blinktree/Tasks.antt     src/indices/blinktree/tbb/node_task.h, lookup_task.cpp, update_task.cpp: a task visits
--                            one node in each execution.
--   Blinktree/InsertTask.antt   src/indices/blinktree/tbb/insert_task.h, insert_task.cpp: the task that inserts an
--                            entry, down to a leaf and up again by the parent pointers.
--   Blinktree/OptimisticTasks.antt   the same files in the optimistic build (blinktree_tbb_olfit).
--   Blinktree/ConsistencyChecker.antt   src/indices/blinktree/consistency_checker.cpp: the checks of a node.
--   Blinktree/Traversal.antt            src/indices/blinktree/tree.h, tree.cpp, tree_statistics.cpp: the iterator,
--                                       the check of all nodes, and the statistics.
--   Blinktree/ThreadBenchmark.antt   src/indices/blinktree/thread/thread_benchmark.cpp: `execute_iteration`, as steps
--                            of the threads that share the workload.
--   Blinktree/Sample.antt    a tree of one leaf for the tests.
--   Benchmark/Workload.antt  src/benchmark/workload.h, workload.cpp: `parse_file`, `load` and the counts.
--   Benchmark/Progress.antt  src/benchmark/abstract_benchmark.cpp: `is_finished`, which says what run
--                            comes next.
--   Benchmark/Execution.antt  src/indices/blinktree/thread/thread_benchmark.cpp: `execute`, the loop of the runs
--                            with the trees that it allocates.
--   Util/Queue.antt          src/util/queue.h: the queue with the pointers in its items.
--   Util/MpscQueue.antt      src/util/mpsc_queue.h, mpsc_queue.cpp: the queue with a stub item.
--   Util/RwSpinlock.antt     src/util/rw_spinlock.h: the lock's word, and several threads that use it.
--   Util/CoreConfiguration.antt  src/util/core_configuration.cpp: the sizes of the sets of cores.
--   Util/CoreOrder.antt      src/util/core_configuration.cpp, src/hardware/system.h: the order of the cores.
--   Util/CoreSets.antt       src/util/core_configuration.cpp: the sets of cores that the constructor makes.
--   Util/CliArguments.antt   src/util/cli_arguments.h: `parse_cores`, on the codes of the characters.
--   Prelude.antt             Boolean tests, arrays as functions, and the library's names.
--
-- A call of the thread tree ends in one of the ways of Blinktree/Latched/Running.antt: with a result
-- and a new state, or with an access through a null pointer, a path that overflows, a wait for ever,
-- or no fuel left. The theorems say that it returns.
--
-- A tree's shape (Blinktree/Tree/Shape.antt) gives each node a level and the range of keys that it
-- is responsible for. It holds also between a split and the insertion into the parent, where a node
-- is reached from its left sibling only. `Contains` says that some leaf holds an entry.
--
-- Sizes: `header_size` and `garbage_size` depend on the build; the theorems ask that they leave half
-- of the node. Keys below 2^64 - 1 are meant, since that key is the high key of the rightmost
-- nodes. Fuel: a descent takes one step for each level, a walk to the right at most one for each
-- key. The path has room for 10 inner levels.
--
-- A leaf's keys and values are separate arrays in the model. Where a search reads behind the keys, `leaf_key`
-- gives the first value for a full leaf, as the arrays lie in memory; an insertion theorem about one leaf asks
-- for room in it. A loop index of `child` is an int16_t, and its theorem asks for fewer than 2^15 keys.
--
-- Several threads: the optimistic lock, the epochs, the reader-writer lock and the thread benchmark
-- are step relations, in which a step is one access to shared memory and all orders of steps are
-- allowed; memory is sequentially consistent. Counters of fixed width wrap around; a theorem
-- that needs a counter not to come round bounds the number of steps or threads. A version of the
-- optimistic lock has 32 bits and moves by 2, so that 2^31 changes bring it round. The trees
-- themselves are run by one thread: the loops that retry after a failed validation then
-- succeed in their first round.
--
-- Not modelled: several threads in a whole tree, `reclaim_node`, the destructor, hints to the cache, the coroutine build, the
-- printing of statistics, the command line except for the numbers of cores, the timers and logs of the benchmark driver, and the copies of other
-- indices (src/indices/bw_tree, src/indices/mass_tree, src/indices/olc_btree) and libraries (src/lib).
pub mod Prelude
pub mod Benchmark
pub mod Blinktree
pub mod Util
