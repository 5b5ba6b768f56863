-- ===== src/Lib.antt =====
-- Absolute is a compiler for a small language of its own, with a lexer and parser, a semantic
-- analyzer, a code generator on LLVM, a driver with a package manager, and a runtime library that
-- compiled programs call through a C interface. This library models components of the runtime
-- and of the compiler, and states and proves what makes them correct.
--
-- Parts, with the paths of their sources from the repository's root:
-- - Managed (Absolute-Runtime/src/pointers.cpp): handles to managed objects. Managed/Slots has the
--   slots, handles and look-up, Managed the operations (`register_pointer`, create, get, destroy,
--   transfer and so on, by their names), Managed/Capsule the ownership capsules. Invariant,
--   Operations, Allocation, Refinement, Stale, Release, Leaks and Reader have the theorems. A call
--   that holds the lock is one step; the read that takes no lock is a sequence of loads, between
--   which a writer's stores fall.
-- - Binary (Absolute-Runtime/src/binary.cpp): the writer and the reader of binary buffers.
-- - ByteBuffer (Absolute-Runtime/src/bytes.cpp): buffers of bytes and their slices; the memory is a
--   function from addresses.
-- - Datetime (Absolute-Runtime/src/datetime.cpp): civil dates, times in milliseconds, and
--   their ISO 8601 texts (Datetime/Iso the parser, Datetime/IsoText the printer).
-- - Json (Absolute-Runtime/src/json.cpp): Json/Text, Json/Numbers and Json/Parser have the parser,
--   Json/Printer the printer, Json the functions of the C interface.
-- - Random (Absolute-Runtime/src/random.cpp): the generator of random words, and its ranges.
-- - Sync (Absolute-Runtime/src/tasks.cpp): mutexes, semaphores, read-write locks, condition
--   variables, once-objects, channels and atomic numbers, each in a module of its name. A call that
--   waits is modelled by one round of its loop; Histories of each object lets rounds of any callers
--   follow one another, with what was resumed, and Safety, where there is one, has the invariant.
-- - Scheduler (the same file): Control has deadlines and cancellation (`TaskControl`), Suspension the
--   states of a task (`PrepareSuspend`, `WakeLocked`, `Execute`), Priority the choice of a priority
--   (`ChoosePriorityLocked`), Lanes the work of a priority by roles (`EnqueueLaneLocked`,
--   `TakeLaneLocked`), Queue the queues of one worker (`TakeLocalLocked`, `TakeStealableLocked`),
--   Pool those of all (`TakeLocked`, `EnqueueLocked`), Group the task groups.
-- - Packages (Absolute-Compiler/src/package_manager.cpp): Versions has the versions and constraints
--   (`SemVer`), Documents the searches in a document (`JsonString` and so on), Manifests the manifests
--   and lockfiles, Texts maps and sets, Packages the resolution (`ResolveRecursive`). Order,
--   VersionText, Backing (on Growing), Termination (on Missing), LockRoundTrip and Saving have the
--   theorems.
-- - Symbols (Absolute-Analyzer/src/symbol_table.cpp): the symbol table, with symbols of
--   Absolute-Analyzer/include/analyzer.h; Histories has calls in any order, Answers what is found
--   after them, Scoping what a block leaves behind.
-- - Prelude: what the parts share.
--
-- The functions of the first six parts do not call one another; a compiled program calls each of
-- them. Packages and Symbols call no other part; Packages prints numbers as Datetime does, and orders
-- the keys of a map as Json does. The objects of Sync resume tasks, whose states
-- Scheduler/Suspension has; a wait at a condition variable gives its mutex back, of Sync/Mutex. Pool
-- takes from Queue, and Queue from Priority and Lanes; the loop over victims goes once round the
-- workers.
-- A pointer is a number, and a null pointer 0 or `none`. An abort of the program is an error value.
-- Numbers of 32 and 64 bits are wrapped where the source relies on it or where a sum can leave them,
-- and else said to be in range. A C string is the bytes before its first byte 0. The JSON parser recurses on fuel, two units for each byte of the text and one, which
-- never runs out; the resolution of packages does so too, one unit for each package that it is at, and
-- as many units as there are names and one are enough. Floating-point numbers, memory allocation, the byte order of
-- the host, and paths and files are parameters. The loop of a random range is on fuel, one unit for
-- each value, and ends at a value that is not below the threshold.
--
-- Not modelled: the locks inside the runtime, under which a call is one step, and the memory order
-- of atomics; the time zone of the host, files, sockets and processes, which are calls of the
-- operating system; the timers and fibers of the scheduler, the end of its workers, and its
-- measurements; the other components of the runtime, among them strings; and the compiler's own
-- passes but the symbol table.
pub mod Prelude
pub mod Managed
pub mod Packages
pub mod Symbols
pub mod Binary
pub mod ByteBuffer
pub mod Datetime
pub mod Json
pub mod Random
pub mod Sync
pub mod Scheduler
