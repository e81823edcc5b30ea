-- ===== src/Lib.antt =====
-- The concurrent building blocks of include/amino: a C++ template library of lock-free
-- containers, of the memory reclamation they stand on, and of parallel algorithms over an
-- executor.
--
-- Parts and how they interact:
-- - Stack (include/amino/stack.h). LockFreeStack keeps a linked list under an atomic `top`. Each
--   thread takes a hazard pointer before it follows `top`, and gives a popped node to SMR.
-- - Smr (include/amino/smr.h). SMR holds the list of hazard pointer records, one for each
--   thread: its hazard pointers, its retired nodes, and its free data nodes and SMR nodes.
--   `delNode` retires a node; when the list of a thread is long, `scan` frees the nodes that no
--   hazard pointer names.
-- - Parallel (include/amino/foreach.h, transform.h, accumulate.h, parallel_sort.h). An algorithm
--   cuts its range into slices and hands one task for each to an executor.
-- - Scheduler (include/amino/ws_scheduler.h). The work-stealing scheduler of the thread pool:
--   one deque for each worker, filled at the left end, worked off at the right end, stolen from
--   at the left end.
-- - Blocking (include/amino/bdeque.h). The deque of the scheduler: LockFreeDeque with a mutex
--   and a condition variable, so that a take waits for an element.
-- - Future (include/amino/future.h, ftask.h). The result of a task that another thread runs:
--   `get` waits for it.
-- - Deque (include/amino/deque.h). LockFreeDeque: a doubly linked list under one atomic anchor,
--   which holds both ends and says whether a node was just pushed and a link to it may be
--   missing; every call repairs that first. Blocking inherits from it.
-- - Queue (include/amino/queue.h). LockFreeQueue: a linked list with a dummy node first, an
--   atomic `head` and an atomic `tail` that may lag behind the last node.
-- - Ordered (include/amino/ordered_list.h, list.h). OrderedList: a linked list with ascending
--   keys. `remove` first marks the `next` pointer of a node and then takes the node out; `find`
--   takes out the marked nodes it meets.
-- - HashSet (include/amino/lockfree_set.h). Set: a hash set in one ordered list, sorted by the
--   reversed bits of the hash; a dummy node marks where each bucket begins.
-- - Executor (include/amino/tp_exec.h). The thread pool: its workers fetch tasks from the
--   scheduler and run them until they get the end signal.
-- - Monitor (include/amino/condition.h). The mutex that Blocking and Future share, and the
--   deadline of a wait.
--
-- Files:
-- - Prelude.antt and Prelude/: the shared names, Boolean tests, lists, cells of a memory
--   (`update`), and counts of a number in a list.
-- - Stack/Memory.antt: nodes, owners, hazard pointers and the program counters of the calls.
--   Stack/Moves.antt: one step of `push`, `pop`, `peekTop`, and of `delNode` and `scan` inside a
--   pop (PushMove, PopMove, PeekMove, ReclaimMove). Stack/System.antt: a step of any thread.
--   Stack/Spec.antt: the abstract stack, a list. Stack/Invariant.antt and Stack/Invariant/: the
--   invariant and that each move keeps it. Stack/Run.antt: runs from the constructor.
--   Stack/Safety.antt, Stack/Whole.antt: the theorems, and `empty`, `size` and the destructor.
-- - Smr/Record.antt: HPRecType with its free lists. Smr/Scan.antt: `scan`, and Smr/Scan/ its
--   laws. Smr/Domain.antt: `SMR`, `allocHPRec`, `getHPRec`, `delNode`, `mergeList`, `helpScan`,
--   `newNode`, and Smr/Domain/ their laws.
-- - Parallel/Slices.antt: the cut of a range. Parallel/ForEach.antt, Parallel/Transform.antt,
--   Parallel/Accumulate.antt, Parallel/Sort.antt: the algorithms. Parallel/Sort/: the runs
--   between the phases of parallel_sort, and its theorem.
-- - Scheduler.antt: the calls. Scheduler/Queue.antt: the deque as a list with its left end
--   first. Scheduler/Conserve.antt, Scheduler/Calls.antt: what sequences of calls keep.
--   Scheduler/Steal.antt: which queues a worker tries.
-- - Blocking.antt: the steps of the calls. Blocking/Invariant.antt, Blocking/Preserve.antt: who
--   holds the mutex and who sleeps. Blocking/Progress.antt: the theorems. Blocking/Order.antt:
--   the sequential list of a deque, which Deque uses.
-- - Future.antt: the steps of the calls. Future/Invariant.antt: what a thread knows where it
--   stands. Future/Moves.antt, Future/Preserve.antt: that steps keep it. Future/Result.antt,
--   Future/Progress.antt: the theorems.
-- - Monitor.antt: who holds a mutex, for any kind of thread. Monitor/Deadline.antt:
--   `timed_wait`.
-- - Queue/Memory.antt, Queue/Moves.antt, Queue/System.antt: one step of `enqueue` and `dequeue`
--   (EnqueueMove, DequeueMove), and executions. Queue/Invariant.antt: what a thread knows where
--   it stands. Queue/Grows.antt, Queue/Shape.antt, Queue/Good.antt, Queue/Enqueue.antt,
--   Queue/Dequeue.antt, Queue/Recycle.antt, Queue/Preserve.antt: that steps keep it.
--   Queue/Safety.antt, Queue/Whole.antt: the theorems, and `empty`, `size` and the destructor.
-- - Deque/Memory.antt, Deque/Moves.antt, Deque/System.antt: one step of the pushes, the pops and
--   `stabilize` (PushMove, PopMove, StabilizeMove), and executions. Each is written once, for an
--   end: `pushRight` is PushMove at the right end, `pushLeft` the same at the left end.
--   Deque/Views.antt, Deque/Lists.antt, Deque/Shape.antt, Deque/Ends.antt: the nodes as a list
--   seen from either end. Deque/Invariant.antt: what a thread knows where it stands.
--   Deque/Grows.antt, Deque/Good.antt, Deque/Kept.antt, Deque/Turn.antt, Deque/Push.antt,
--   Deque/Publish.antt, Deque/Pop.antt, Deque/Newest.antt, Deque/Fix.antt, Deque/Stabilize.antt,
--   Deque/Preserve.antt: that steps keep it. Deque/Safety.antt, Deque/Whole.antt: the theorems,
--   and `empty`, `size`, the peeks and the destructor.
-- - Ordered/Memory.antt, Ordered/Moves.antt, Ordered/System.antt: one step of `find`, `add`,
--   `remove` and `search` (FindMove, AddMove, RemoveMove), executions, and the ordered set that
--   their events follow. Ordered/Splice.antt, Ordered/Live.antt: the nodes as a list, and their
--   keys. Ordered/Invariant.antt: what a thread knows where it stands. Ordered/Grows.antt,
--   Ordered/Good.antt, Ordered/Cut.antt, Ordered/Find.antt, Ordered/Update.antt,
--   Ordered/Alloc.antt, Ordered/Calls.antt, Ordered/Recycle.antt, Ordered/Preserve.antt: that
--   steps keep it. Ordered/Safety.antt, Ordered/Whole.antt: the theorems, and `front`, `empty`
--   and the destructor.
-- - HashSet/Word.antt: the arithmetic of the hash set. HashSet/Bits.antt: the bits of numbers.
--   HashSet/Reverse.antt, HashSet/Parent.antt, HashSet/Order.antt: reversal, parents and the
--   split order. HashSet/Nodes.antt: the ordered list as one thread sees it, from a node on.
--   HashSet/Table.antt: the calls. HashSet/Sorted.antt, HashSet/Removal.antt: that the list
--   stays in order. HashSet/Buckets.antt, HashSet/Valid.antt, HashSet/Initialize.antt,
--   HashSet/Growth.antt: the cells of the buckets and the invariant. HashSet/Elements.antt,
--   HashSet/Start.antt, HashSet/Answers.antt, HashSet/Safety.antt: the calls against a list of
--   elements.
-- - Executor.antt: the calls of the pool and the turns of a worker's loop. Executor/Halt.antt:
--   the theorem. Scheduler/Signal.antt: who gives the end signal.
-- - Queue/Reuse.antt: an execution in which a node in use is taken back and a value is dequeued
--   twice.
-- - The files named Tests.antt run the definitions on small inputs.
--
-- How the code is modelled:
-- - Stack: addresses are numbers, 0 is NULL. A step is one access of shared memory, with the
--   work on data that no other thread reads attached to it; accesses are sequentially
--   consistent. There are `n` threads with one hazard pointer each, numbered from 0, for any
--   `n`. The allocator gives out any free node, also one that was just freed. When a retired
--   list is scanned, and in which order its nodes are looked up, is left open.
-- - Smr: one call at a time by one thread. The free lists are those of the build that defines
--   FREELIST (include/amino/util.h). plist stays a list: it is sorted and made unique in the
--   code only to be searched. The allocator gives the address of a new SMR node as an argument.
-- - `size` and the destructor follow the list with fuel. Fuel above the length of the list is
--   enough, since each round goes one node on; the memory is one that no thread works on.
-- - Parallel: positions count from the beginning of the range. A task runs as a whole, and the
--   tasks in any order: two tasks share no cell they write. The executor runs each task once,
--   and `get` waits for it; both are its documented behaviour. std::transform, std::for_each and
--   std::accumulate go through their range from left to right. Undefined behaviour of the code,
--   such as a division by zero, is `none`.
-- - Parallel/Sort.antt: the loop of merges has one round of fuel more than `steps` has entries
--   behind its first, which is enough, since every round removes one.
-- - Scheduler: a call is one step, so the races inside `getTask` are not seen. A task is a
--   number, 0 is NULL. An index is an int of 32 bits, named by its bits: `randInd` wraps around,
--   and the remainder of a negative index is that of C.
-- - Deque: as Stack, but no node is given out twice, which is what hazard pointers are for; they
--   and `delNode` are no steps. An anchor is read as a whole and compared as a whole. The
--   sequential list that its events follow is the one that Blocking takes for it.
-- - Executor: a call of the scheduler is one step, and so is the run of a task. A worker that
--   waits in `getTask` takes another turn later.
-- - Queue: as Stack. The hazard pointers and `delNode` are no steps: instead, the allocator may
--   take back any removed node at any time and give it out again (`recycle`). Which executions a
--   theorem is about is a hypothesis (`AllGuarded`): that no node is taken back while a thread
--   uses it, as `Uses` says for each place of the code. Hazard pointers are there to ensure
--   this, but those of the code do not for the head that a dequeue has read
--   (include/amino/queue.h:209).
-- - Ordered: as Queue, with its own `recycle`, `Uses` and `AllGuarded`; the hazard pointers of
--   the code do not guard the node of `prev` (include/amino/ordered_list.h:420). The number 0
--   names NULL and also the cell `head`. The data of a node in use does not change, so it is
--   read together with the check that follows. An answer of a call is true at some moment since
--   the call began, not always at the step that gives it.
-- - HashSet: an unsigned integer has 32 bits; the bits that a shift moves out are dropped. One
--   call at a time. A pointer to a node is the node itself, since no two are equal. The hash
--   function of the user is a parameter, below 2^31, and elements are numbers. Which quotients
--   exceed the load factor, a float, is a parameter too. `initialize_bucket` has more fuel than
--   the number of the bucket, which is enough, since a parent is less. Assertions and the
--   destructor are left out.
-- - Future: the mutex is recursive; an inner lock of a thread that holds it is no step. What the
--   task of the user returns is any value, and tasks may be run more than once.
-- - Blocking: what LockFreeDeque does at either end is one step on a list; the mutex and the
--   condition variable do what POSIX says, with wake-ups that nobody asked for.
-- - The machine's integers are numbers without a bound: they count nodes, threads and positions,
--   and no overflow of them is modelled, but for the index of the scheduler and the words of the
--   hash set. Elements of the stack are numbers.
--
-- Not modelled: queue_shavit.h, the `peekFront` of the queue, the unordered list of list.h,
-- concurrent calls of the ordered list that start at a node of the hash set, skip lists, the
-- single executor, the growing vector, the elimination stack; the wrappers of pthread and of
-- atomic instructions, which the models take by their documented meaning; debug output, build
-- switches and the examples. The destructors of SMR and of its records and the statistics of
-- DEBUG builds are left out of Smr.
pub mod Prelude
pub mod Monitor
pub mod Smr
pub mod Stack
pub mod Parallel
pub mod Scheduler
pub mod Blocking
pub mod Future
pub mod Queue
pub mod Deque
pub mod Executor
pub mod Ordered
pub mod HashSet
