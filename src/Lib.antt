-- ===== src/Lib.antt =====
-- A model of co_queue: queues that are shared by threads, and the mutex beside them, in Rust.
-- src/lockless_queue.rs is the chunked queue CoQueue, src/queue/mod.rs the linked queue
-- ShiftQueue, which keeps retired and stray nodes in the guards of src/queue/shift_guard.rs;
-- src/stream.rs and src/blocking_col.rs iterate over CoQueue; src/mutex/raw_mutex.rs is the lock
-- word, src/mutex/mod.rs the mutex with its guards, src/backoff.rs the counter that CoQueue's
-- loops spin with.
--
-- Backoff models src/backoff.rs: spin, nap, reset and is_completed are functions of the step
-- counter, and return what they ask of the processor (Pause). CoQueue models
-- src/lockless_queue.rs over an explicit heap of chunks: CoQueue.Chunk has Slot, Chunk and
-- Chunk::destroy, CoQueue.State the two Segments with the heap, CoQueue.Push, CoQueue.Pop,
-- CoQueue.Measure and CoQueue.Drop the operations of the same names. CachePad is transparent
-- there. One thread runs at a time in these: an operation sees no interference, but each weak
-- compare-exchange may fail. A call is given a list of Booleans, one for each round of its loop,
-- that says whether the exchange fails; the list is the fuel, and one exchange that succeeds is
-- enough. Indices are 64-bit words, and wrap. The allocator returns addresses that were never
-- used. A null or dangling pointer, a slot with no value and an unwrap of None are a fault
-- (Base.Outcome).
--
-- CoQueue.Threads has push and pop of the same file by any number of threads at once, over the
-- same heap: PushStep and PopStep (CoQueue.Threads.Pushes and CoQueue.Threads.Pops) are one
-- atomic access each, Chunk::destroy included, and CoQueue.Threads.Run interleaves them. A thread
-- stands at a PushPc or a PopPc with its locals; a wait is an access that is not a step until its
-- condition holds, and so is an access to a chunk that is gone. The read of a slot and the wait
-- before it are one access. CoQueue.Threads.History numbers the values in the order in which
-- their pushes win a slot, and counts the pops that win one. CoQueue.Threads.Faults says what
-- each access needs of the memory, and CoQueue.Threads.Progress whom a thread that waits is
-- waiting for. A run of a CoQueue that threads share starts from a new one, its accesses
-- interleaved in any order and weak exchanges failing at any time; its tail index stays below 2 ^
-- 64 - 4, so that no index wraps around.
--
-- PtrGuard models src/queue/shift_guard.rs: its memory is a function from cells to what was
-- written there, and a read of anything else is told apart as garbage. ShiftQueue models
-- src/queue/mod.rs over a heap of nodes, one thread at a time: ShiftQueue has _push and push
-- (push_once, push_loop, push), ShiftQueue.Pop has _pop, try_pop, pop and the Drop. What _push
-- and _pop do after their loads is a function of what they loaded (push_loaded, pop_loaded).
-- Pointers are addresses, with no tags. The loops have fuel, and one round is enough for a push
-- or a pop, one for each value and one more for the Drop. Dropping memory that holds no pointer,
-- a failed assert and a panic are a fault.
--
-- OwnRef models src/queue/own_ref.rs: OwnRef has the tag arithmetic on 64-bit words, for any
-- alignment, OwnRef.Words the three pointer types over a heap of boxes, OwnRef.Owned,
-- OwnRef.Shared and OwnRef.Atomic their operations. ShiftQueue uses addresses in their place.
--
-- RawMutex models src/mutex/raw_mutex.rs: the two bits of state are a Word, the callback of
-- unlock_slow a function, and RawMutex.System interleaves any number of threads in lock,
-- try_lock, unlock and mark_parked_when_lock, an atomic access at a time, a weak exchange failing
-- at any time. The parking lot, park and unpark_one, is a parameter (ParkingLot), whose laws say
-- which threads are in its queue; what it does under the lock of its bucket is one access.
-- RawMutex.Calls has lock, try_lock and unlock again as whole calls of one thread, whose loops
-- have a list of what each exchange and spin answers as fuel, and one exchange that succeeds is
-- enough. RawMutex.FifoLot is a ParkingLot that meets the laws.
--
-- SmallMutex models src/mutex/mod.rs: the trait Mutexable is an interface with laws for one
-- thread, and the guards are values; to drop or to forget one is an operation on the mutex.
-- SmallMutex.Mootex fills the interface with RawMutex.Calls.
--
-- Stream models src/stream.rs over CoQueue: poll, poll_next and CoQueIntoIter::next, whose loop
-- has 21 rounds at most, and Blocking the queue and iterator of src/blocking_col.rs. The channel
-- of the standard library is a parameter (Channel), whose laws say that try_recv takes the oldest
-- message.
--
-- Not modelled: the parking lot in src/mutex/deadlock.rs, which is a copy of another library, and
-- the deadlock detection that it is told of; src/cahch_pad.rs, which only aligns; the waker,
-- which does nothing; output, with what formatting a queue does to its guards; memory orderings
-- weaker than sequential consistency.
mod Base
pub mod Backoff
pub mod CoQueue
pub mod RawMutex
pub mod PtrGuard
pub mod ShiftQueue
pub mod Stream
pub mod Blocking
pub mod SmallMutex
pub mod OwnRef
