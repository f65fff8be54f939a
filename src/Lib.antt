-- ===== src/Lib.antt =====
-- itb-cpp: the C++ binding of the ITB library and its loop harness.
--
-- The binding (src/, include/itb3.hpp) is a thin layer over libitb3, a Go library with a C ABI. Its
-- own work is at that boundary: buffers that the caller allocates, with one retry at the size that
-- the library reports; handles that are released once; bytes carried whole; return codes turned into
-- exceptions. libitb3 is not in the repository and is the parameter `Library` (Binding/World): a
-- record with one function for each C entry, over a state of the library's own. A C++ function that
-- may throw is a function of `M`, from a world to a value, a throw, or `spin` for a loop whose rounds
-- are used up. The world holds the library's state and two ghost lists: the storage released so far
-- with its contents, and the calls whose order the theorems speak of. A pipeline is entered as opened
-- when the library answers a constructing call with 0, whatever the binding then does with the handle.
--
-- Files:
--   Base            tests, lists, decimal and hexadecimal digits, machine words
--   Binding/Status  `enum class Status` of include/itb3.hpp and `to_status` of src/error.cpp
--   Binding/World   the library, the world, the monad; rules for invariants, returns, ends and ways
--                   out
--   Binding/Memory  buffers as byte lists: a write at the start, C strings, the volatile wipe
--   Binding/Errors  src/error.cpp and `check` of src/internal.hpp
--   Binding/Opts    src/opts.cpp; Opts/Query is an independent reader of query strings
--   Binding/Buffers `buf_call`, `cipher_call`, `cipher_call_into` of src/pipeline.cpp
--   Binding/Pipeline  the class `Pipeline` and the profile entries of src/pipeline.cpp; what the library
--                   has opened, and the law `Constructs` on its blobs (Opening)
--   Binding/Stream  the class `Stream` and the pumps of src/stream.cpp; the session of a pump (Scope)
--   Binding/Runtime src/runtime.cpp
--   Loop/Names      the enumerations of loop/loop.hpp and their names
--   Loop/Report     `first_difference` and `hex_window` of loop/worker.cpp
--   Loop/Size       loop/size.cpp: sizes and durations that are whole numbers; Loop/Size/Rates and
--                   Loop/Size/Durations are those that go through `double`
--   Loop/Real       the machine's `double` and the C library's conversions of it, a parameter
--   Loop/Host       the operating system that the harness calls, a parameter
--   Loop/Payload    loop/payload.cpp
--   Loop/State      `Config`, `Worker` and `RunState` of loop/loop.hpp
--   Loop/Worker     the pump loop and the error texts of loop/worker.cpp
--   Loop/Iterate    `iterate` of loop/worker.cpp and how it comes back (Iterate/Returns);
--                   Loop/Verdicts its comparison
--   Loop/Ops        loop/ops.cpp and `worker_main` of loop/worker.cpp
--   Loop/Threads    the worker and main threads as steps that interleave: `worker_main` and the lock
--                   of `iterate` in loop/worker.cpp, the locks of loop/ops.cpp, the barriers and the
--                   wait of `run` in loop/main.cpp
--   Loop/Numbers    the numeric flag values of loop/main.cpp and the conversions of the C library
--   Loop/Flags      the flag table, the parse of the command line and its validation in loop/main.cpp
--   Loop/Profiles   the profile and option helpers of loop/main.cpp
--   Loop/Launch     the construction of a pipeline in loop/main.cpp and the line that it logs
--   Loop/Summary    loop/summary.cpp: the totals and the verdict (Verdict), JSON strings (Json), pool
--                   counters (Pools), the resident set (Rss), `final_summary` in both renderings
--                   (Final, Final/Lines); Loop/Summary/Document is an independent reader of JSON
--   Loop/Main       `run` of loop/main.cpp on the main thread: the set-up (Main), the phases around
--                   the threads (Main/Phases), the lines that it prints (Main/Texts), and the
--                   pipelines that it holds (Main/Balance, Main/Exits)
--   Demo            eitb/eitb.cpp: the commands and their dispatch, the blob text, the catalogue scan;
--                   the file system is a parameter (Demo/Commands)
--   Tests           a concrete library and the theorems at concrete inputs
--
-- Reading the model: a byte is a number below 256 where a theorem needs that; a span is its list of
-- bytes, and a buffer that is written to is passed back as the new list. `std::size_t` arithmetic
-- that can wrap around is written out (Errors.out_cap). `b >> 4` and `b & 0x0F` are written `/ 16`
-- and `% 16`. A string that crosses as `const char *` is cut at its first zero byte (`c_string`).
--
-- Rounds: a drain loop of `pump_into` gets one round more than the buffer has bytes, the feeding
-- loop one round for each byte of the source (a slice has a byte at least), and the last loop one
-- round more than the buffer has bytes. The rounds are enough: the first two loops use up a byte each
-- round whatever the library does, the last one does for a library whose reads after the end bring a
-- byte or the finish (`EndsItself`).
--
-- The harness's pump reads until the library has no more. Its loops take a number of rounds that is a
-- parameter; the number is enough when it exceeds what a session can deliver, which `Spends` of
-- Loop/Worker/Rounds bounds by a measure on the library's states.
--
-- Threads: a state has the lock as a number of readers and a flag, each barrier as a number of
-- arrivals, the stop flag, the count of active workers, and the place where each thread stands. A
-- step is one of a worker or of the main thread; what a cipher call answers, a signal and the
-- deadline are choices, so a theorem on the states that are reached holds for every schedule. The
-- main thread's launching of the threads is not a step: a worker that has not started is one that has
-- not moved. `Reach` counts the steps, and no fuel is involved.
--
-- Doubles: the source computes rates, percentages and durations in `double`. `Real` (Loop/Real) has
-- the conversions, the operations, the comparison, `strtod` and `printf("%.*f")` as functions of its
-- own, and a literal is a whole number that a `double` holds exactly. Only the theorem on the JSON
-- summary assumes something of them (`Laws` of Loop/Summary/Final/Doubles): magnitudes stay bounded
-- by powers of two far below the overflow, and a finite value is printed as a number.
--
-- The main thread's `run` is a chain of phases (Loop/Main/Phases): `prepare` up to the start of the
-- threads, `take_baseline` between the two barriers, `conclude` behind the last join. A return in
-- between destroys the run state, which frees its pipelines (`abandon`). The lines of
-- /proc/self/status, the two policy variables and the command line are inputs.
--
-- Not modelled: failures of allocation; the storage of a pump's scratch buffer in the list of
-- released storage; the ciphers themselves, which are libitb3's. The tests and benchmarks are not
-- part of the model. The steps of the threads do not run the calls of an iteration: Loop/Iterate
-- and Loop/Ops model those for one worker between two steps. The phases of `run` are not joined
-- with the steps of the threads either. The signal handler and the deadline are choices of a step.
-- Signed differences of 64-bit values are unbounded integers. A read that reports more bytes than
-- the drain slice has is out of the model there (`out.insert` would run past the slice). An
-- accumulator that a failed pump leaves half filled is not kept, since the worker stops. Counters
-- are numbers without a bound, where the source has signed 64-bit integers.
pub mod Base
pub mod Binding
pub mod Loop
pub mod Demo
pub mod Tests
