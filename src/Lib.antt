-- ===== src/Lib.antt =====
-- Verification of ilias_async, a C++ library of asynchronous primitives.
--
-- The program. A workq (src/workq.cc, include/ilias/workq.h) runs jobs; the threads of a
-- threadpool (src/threadpool.cc) take them from the run queues through the service of the workqs.
-- A monitor (src/monitor.cc, include/ilias/monitor.h, include/ilias/monitor-inl.h) is a
-- reader/writer lock that fulfils promises of tokens in place of blocking. A message queue
-- (include/ilias/msg_queue.h, src/msg_queue.cc) tells its reader of new messages by an event. A
-- future (src/future.cc, include/ilias/future-inl.h) calls its callbacks when its promise is
-- fulfilled. Jobs, workqs, services and the nodes of lists are held by reference counts
-- (include/ilias/refcnt.h).
--
-- Base.antt has the names that all parts share. `Checked` is the outcome of code with `assert` in
-- it: a value, or `assert_failed`.
--
-- Monitor.antt: `Monitor` has the fields of class monitor; queue (its `queue_` included),
--   try_immediate, unlock_ in the three parts that serve upgrades, a writer and readers, add_,
--   upgrade_to_write_, try_lock, try_lock_shared, and one round of the loops of lock and
--   lock_shared, each of them one critical section of mtx_. A promise is a number, and an
--   operation returns the promises that it fulfils with the access of their tokens.
--   Monitor/World.antt has the callers: how many tokens of each access are live, and the calls
--   that any of them may make next; the part of unlock_ after the mutex was released in between
--   is a call of its own. Monitor/Token.antt has monitor_token: copying, moving, comparing and
--   converting, over a heap of monitors.
-- Refcnt.antt: refcount_base over a heap of counted and deleted objects; the operations of a
--   deleted object have no result. Refcnt/Live.antt has refcnt_acquire_iff_live; the list of
--   attempts says what each exchange that fails has loaded. Refcnt/Pointer.antt has refpointer on
--   the variables of a program, the `atomic_` functions, which run under a lock, included.
-- Workq/Job.antt: workq_job, its bits as Booleans and its generation; Workq/Job/Flow.antt has the
--   threads that activate, take, run and deactivate one job as a step relation over the atomic
--   steps.
-- Workq/Locks.antt: m_run_single and m_run_parallel of a workq, with the steps of all its threads
--   in Workq/Locks/Serial.antt. Workq/RunLock.antt: wq_run_lock, that locks a workq and a job
--   from its queues. Workq/Switch.antt: workq_switch over the frames of a thread.
--   Workq/Coroutine.antt: coroutine_job and co_runnable, with the steps of the threads that run
--   it together. Workq/SpinLock.antt: atom_lck, the spin lock of job pointers.
-- MsgQueue.antt: void_msg_queue, which is a count of messages; the list of attempts says what the
--   exchanges of _dequeue load. MsgQueue/Events.antt: msg_queue_events as a step relation over
--   the atomic steps.
-- Threadpool.antt: threadpool::impl and the states of its workers: wakeup, kill, reduce_oversize,
--   increase_oversize, set_nthreads, do_sleep up to its wait, must_die, the end of _run, and
--   collect.
-- Future.antt: the shared state of a promise with the callbacks of its futures, as a step
--   relation whose steps are the critical sections of its locks: set_value and set_exc up to the
--   release of the lock, and then invoke_ready_cb.
--
-- Llptr.antt: llptr (include/ilias/llptr.h) on the hazards of src/hazard.cc and
--   include/ilias/hazard-inl.h: load with its hazard, store, exchange and compare_exchange with
--   grant and mark, in the atomic steps of all threads (Llptr/Steps.antt). Llptr/Ledger.antt says
--   which references are counted.
-- Hazard.antt: the table of hazards of src/hazard.cc: validate_owner, allocate_hazard, and
--   hazard_grant_n without other threads.
-- FlagPtr.antt: atomic_flag_ptr (include/ilias/llptr.h), its calls on one word; FlagPtr/Pair.antt
--   has the same calls on a pair.
-- LlList.antt: src/ll_list.cc on a memory of elements (LlList/Memory.antt): unlink_aid_ and succ_
--   in LlList/Walk.antt, pred_ in LlList/Pred.antt, link_ and unlink_ in LlList/Link.antt, the
--   operations of list in LlList/Ops.antt, its constructor, destructor and size in
--   LlList/Whole.antt, and list::position in LlList/Position.antt. Represents, in
--   LlList/Refine.antt, says that the memory holds a sequence of elements.
-- LlQueue.antt: ll_qhead (src/ll_queue.cc, include/ilias/ll_queue-inl.h).
-- Intf.antt: the counts and locks of an object that joins a client and a service
--   (src/threadpool_intf.cc, include/ilias/threadpool_intf.h). Intf/Multiplexer.antt has
--   tp_service_multiplexer and tp_client_multiplexer.
--
-- LlList/Iterator.antt: ll_smartptr_list and its iterators (include/ilias/ll_list-inl.h) on the
--   sequence of the elements around one iterator.
-- MsgQueue/Data.antt: data_msg_queue, msg_queue and prepare_enqueue (include/ilias/msg_queue.h),
--   with an allocator, constructors and functors that may throw. MsgQueue/Data/Program.antt runs
--   their calls.
-- MqPtr.antt: the reference counts of a message queue with pointers (include/ilias/mq_ptr.h).
-- Workq/Service.antt: workq_service with its run queue, lock(workq_service&) on top of
--   Workq/RunLock.antt, and workq::aid (src/workq.cc). The code of jobs, and what other threads
--   do with the workqs, are arguments. Workq/Service/Aid.antt has aid of the service, and
--   Workq/Service/Coroutines.antt the co_run that it calls, with the lock of the workq around it;
--   the functions of the coroutines are arguments.
-- Refcnt/TicketLock.antt: the lock of src/refcnt.cc, in the atomic steps of all threads.
-- Future/Promises.antt: promise_refptr, cb_promise and cb_promise_exceptor (src/future.cc,
--   include/ilias/future-inl.h).
--
-- Integers. A counter is a natural number with the wrap-around of its type written out: 2^64 for
-- uintptr_t and size_t, 2^32 for unsigned int. Where a theorem needs that a counter does not
-- overflow, it has a hypothesis on the number of tokens, threads or references (HasRoom, or a
-- bound on a length).
--
-- Loops. A loop of compare-and-exchange runs over a list of what its failing attempts load, and
-- ends at the attempt that succeeds. The other loops recur on the queue or the list that they
-- empty; where set_nthreads takes threads from the back of the idle list, its fuel is the length
-- of that list, and each turn takes one. The loops of a list have fuel, and end in runs_on where
-- it is not enough; the theorems on the list say how much is: one turn of each loop, and one for
-- each element in size. Workq/Service and MqPtr have fuel as well: lock(workq_service&) may go on
-- without end, and so may the release of a pointer, which theorems say. The loops that wait
-- (lock, lock_shared, deactivate) are one round and its test: when they end is up to the other
-- threads.
--
-- Interleavings. Monitor/World, Workq/Job/Flow, Workq/Locks/Serial, Workq/Coroutine,
-- MsgQueue/Events, Llptr, Refcnt/TicketLock and Future are step relations, in which threads act
-- in any order. LlList and LlQueue run without other threads, and Intf a whole call at a time. In
-- Threadpool the operations are whole calls, but for must_die, which takes what other threads do
-- between its atomic steps as an argument. Memory orders are left out: every step sees the steps
-- before it.
--
-- Not modelled: allocation and the destruction of what a pointer owns; activate with ACT_IMMED,
-- and the internal references of workqs; the main loop of a worker and the service of a
-- threadpool; the end of the callback of a mq_out_ptr; converters, waiting with a timeout and
-- async of the futures; how unlink_ waits for references to an element; several threads on one
-- list; a compare_exchange of an llptr that fails and acquires what it has found; attach, and the
-- loops over the active services, of the threadpool interface. Where modelled code uses a
-- lock-free list, the model has the sequence of its elements, on which each operation is one
-- step.
pub mod Base
pub mod Monitor
pub mod Refcnt
pub mod Workq
pub mod MsgQueue
pub mod MqPtr
pub mod Threadpool
pub mod Future
pub mod Hazard
pub mod Llptr
pub mod FlagPtr
pub mod LlList
pub mod LlQueue
pub mod Intf
