-- ===== src/Lib.antt =====
-- Verification of DD-Framework's user-mode scheduler, of its heaps, keyboard and mouse input and file
-- device, and of the utilities that they stand on.
--
-- The scheduler runs fibers on cores. Each fiber has a `FiberLocalStorage`, which an object allocator
-- hands out and a handle table names. The fiber stands in one of the scheduler's intrusive lists, and,
-- where it waits for a lock, a key or an address, in the wait list of another fiber. A service call
-- runs under the scheduler's lock, so each is one function on the state.
--
-- The files, and the code that they model, under libraries/lib_dd/:
--   Base              shared names, Boolean tests, runs that may be undefined, signed integers
--   HandleTable       include/dd/ukern/ukern_handletable.hpp: `reserve_handle`, `free_handle` and
--                     `get_object_by_handle` on the counters, the objects and the free slots
--   MessageQueue      include/dd/util/util_messagequeue.hpp: the ring buffer and its four calls
--   IntrusiveList     include/dd/util/util_intrusivelist.hpp: nodes in a store of two pointers each
--   ObjectAllocator   include/dd/util/util_fixedobjectallocator.hpp and util_heapobjectallocator.hpp
--   ResultCode        include/dd/util/util_result.hpp and util_result_ukern.h
--   PathUtil          include/dd/util/util_pathutil.hpp
--   TimeSpan          include/dd/util/util_timespan.hpp, source/util/util_timestamp.x64.cpp and
--                     util_time.cpp, and `GetAbsoluteTimeToWakeup` of the scheduler
--   TreeNode          include/dd/util/util_intrusivetreenode.hpp: nodes in a store of four pointers
--                     each
--   PointerArray      include/dd/util/util_pointerarray.hpp, but for its calls of the heap
--   BusyMutex         include/dd/ukern/ukern_busymutex.hpp: threads that each take a step in turn, in
--                     any order, next to the two counters
--   CriticalSection   include/dd/ukern/ukern_internalcriticalsection.hpp: the steps of a fiber in
--                     `Enter` and `Leave`, over the handle's word and the scheduler
--   ConditionVariable include/dd/ukern/ukern_internalconditionvariable.hpp
--   Api               source/ukern/ukern_threadapi.cpp and ukern_synchronizationapi.cpp
--   Alignment         include/dd/util/util_alignment.hpp
--   ExpHeap           include/dd/mem/mem_expheap.hpp, mem_heap.hpp and source/mem/mem_expheap.cpp: a
--                     heap's free and allocated blocks in two intrusive lists of headers. State,
--                     Blocks, Allocate, Adjust and Create are the code
--   HeapTree          include/dd/mem/mem_heap.hpp and source/mem/mem_heapmanager.cpp: the searches in
--                     the tree of heaps
--   HeapManager       source/mem/mem_heapmanager.cpp and include/dd/mem/mem_new.hpp
--   RawInput          include/dd/hid/hid_rawinput.h and source/hid/hid_rawinput.cpp: the keyboard, and
--                     in Mouse the mouse
--   FileDevice        include/dd/res/res_systemfiledevice.win32.hpp, res_filedevicebase.hpp and
--                     include/dd/util/util_result_res.h
--   RuntimeTypeInfo   include/dd/util/util_runtimetypeinfo.hpp
--   TString           include/dd/util/util_tstring.hpp
--   Scheduler         include/dd/ukern/ukern_scheduler.hpp, ukern_waitableobject.hpp,
--                     ukern_fiberlocalstorage.h, source/ukern/ukern_scheduler.cpp and
--                     ukern_fiberlocalstorage.cpp. State, Lists, Waits, Threads, Locks, Addresses and
--                     Main are the code: `x_impl` is the method `XImpl`. Links, Visits, Pick, Pass,
--                     NewFiber and Create are what holds of it
--
-- The handle table stands behind a `BusyMutex`, whose threads are the cores; the scheduler's calls are
-- made through Api, CriticalSection and ConditionVariable. The clock and its frequency are parameters.
-- HeapManager builds the root ExpHeap, which keeps its blocks by IntrusiveList and rounds sizes by
-- Alignment; FileDevice rounds by Alignment too, and names its results as ResultCode does. What the
-- operating system and the C library do is a parameter, as are `sizeof(ExpHeap)` and the places of its
-- lists.
--
-- A pointer is a number, and null is 0. A machine integer is a natural number with its wrap-around
-- written out, or a `Signed`. A failed assertion, an abort, an access out of bounds and a null that
-- is read are the run `fault`. A loop over a list takes the number of rounds that it may go; the theorems that
-- bound the list's length by it show that this many rounds are enough.
--
-- Not modelled: the switch between fibers, and so what an operation does after it but for its result;
-- the wake-up of a resting core; `UserScheduler::Initialize`, which calls the operating system; names
-- of fibers. Headers of blocks that overlap in memory; the disposers, the unit heap and the separate
-- heap, which are not finished, and the heap of the graphics memory; the directories of a file device;
-- the managers of files and resources; Vulkan; mathematics.
mod Base
pub mod BusyMutex
pub mod CriticalSection
pub mod ConditionVariable
pub mod Api
pub mod HandleTable
pub mod MessageQueue
pub mod IntrusiveList
pub mod ResultCode
pub mod ObjectAllocator
pub mod Scheduler
pub mod PathUtil
pub mod TimeSpan
pub mod TreeNode
pub mod PointerArray
pub mod Alignment
pub mod ExpHeap
pub mod HeapTree
pub mod HeapManager
pub mod RawInput
pub mod FileDevice
pub mod RuntimeTypeInfo
pub mod TString
