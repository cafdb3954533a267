-- ===== src/Lib.antt =====
-- A model of cpu_check, which looks for processors that corrupt data, and of its analyzer.
--
-- Each worker thread (cpu_check.cc) repeats a round: it writes its slots of a shared silkscreen, fills
-- a buffer with a pattern, hashes, compresses, encrypts and copies it, and then, most often on another
-- processor, undoes every step and compares. A difference is a fault of a processor. The analyzer
-- (corrupt_cores.cc) reads which pairs of threads were accused, and condemns the cores that explain it.
--
-- - Worker.antt: the state of the class Worker of cpu_check.cc, its buffer set, Alignment, MaybeFlush
--   and ReturnError. Worker/Choose.antt is MakeChoices, CopyMethod and CheckerTids, Worker/Compute.antt
--   DoComputations, Worker/Check.antt CheckComputations, and Worker/Run.antt the loop of Run with its frequency control.
--   Worker/Faultless.antt says what a machine without faults is, and Steps, Stages, Inverse, Quiet, Writer and
--   Checker follow a round on it. Worker/Post.antt, Worker/Sound.antt, Worker/Run/Limit.antt,
--   Worker/Run/Bound.antt and Worker/System/Bound.antt are about any machine.
-- - Worker/System.antt: the threads of main in cpu_check.cc, one for each entry of the list of
--   processors. Their rounds are interleaved by halves, and a half is one step: the test of the limit
--   in Jfail and the count of the error that follows are not torn apart by another thread.
-- - Main.antt: the flags, the list of processors and the exit status of main in cpu_check.cc.
-- - Noise.antt: NoiseScheduler and SleepForMillis of cpu_check.cc.
-- - Fvt.antt: fvt_controller.h, vendors/intel/intel.cc, and ScheduledMHz of cpu_check.cc.
--   Fvt/Sampling.antt is the frequency meter, Fvt/Status.antt what FVT and InterestingEnables say,
--   Fvt/Create.antt fvt_controller.cc, and Fvt/Session.antt what Run does with a controller.
-- - Stopper.antt: stopper.h, and the loop of main that waits for it.
-- - Log.antt and Log/Threads.antt: log.h, in one thread and in threads that share a time.
-- - PatternGenerator.antt and PatternGenerator/Chaos.antt: pattern_generator.h and
--   pattern_generator.cc. Alike.antt, Loops.antt and Fill.antt compare two runs, Word.antt takes
--   the words of the systematic pattern apart.
-- - MalignBuffer.antt, MalignBuffer/Syndrome.antt and MalignBuffer/Ranges.antt: malign_buffer.h and
--   malign_buffer.cc. Copy.antt, Store.antt and Raw.antt show what stores leave in a buffer,
--   Syndrome/Spec.antt is what the comparison is held against.
-- - Compressor.antt, Crypto.antt, Hasher.antt and Utils.antt: compressor.cc, crypto.cc, hasher.cc and
--   the hexadecimal text of utils.cc. zlib, OpenSSL and farmhash are parameters. Utils/Json.antt is the
--   JSON text of utils.cc, and Utils/Json/Reader.antt and Records.antt read it.
-- - Silkscreen.antt: silkscreen.h and silkscreen.cc. Silkscreen/Ledger.antt says what it promises.
-- - Avx.antt and Avx/Vectors.antt: avx.h and avx.cc. The vector instructions are parameters, which are
--   told their number in a run of a kernel, so that they may err at any one of them.
-- - Crc32c.antt and Crc32c/Dispatch.antt: crc32c.h and crc32c.c; the CRC32 instructions, the detection
--   of the processor and the environment variable are parameters.
-- - CorruptCores.antt, and Input, Flags and Report in CorruptCores: corrupt_cores.cc.
-- - Base.antt and its modules: lists by index, bit operations, bytes of words, the outcome of code
--   that may abort, reading integers from a stream, and the random engine, which is a parameter.
--
-- Names are those of the source in small letters: RoundUpToPageSize is round_up_to_page_size.
-- Addresses, sizes and counts are natural numbers that do not wrap; words of 8 to 64 bits and the
-- 16 bits of a slot's owner have their width written out. LOG(FATAL) is the outcome `fatal`, and an
-- access outside of an allocation is `fault`.
--
-- Fuel: a fill has the size of the buffer as fuel, since each turn advances by a byte at least; a run
-- out of fuel would be a `fault`, and the fills are shown to return. The loop of condemnations has the
-- number of accusations, of which each turn disposes of one; the word loop of the checksum and the
-- loop over cache lines have the length.
--
-- In Worker/Run.antt a turn of the loop has as arguments what the operating system decides in it; a run
-- is a list of turns. Main.antt has the length of a list of processors as fuel, of which each number
-- takes a character. In Noise.antt three turns are enough when a sleep overshoots by less
-- than a fine period.
--
-- Stopper.antt has a list of turns of its loop, of which one more than the seconds of the timeout and
-- one for the clock to advance are enough.
--
-- Not modelled: the texts of log lines, the load that main logs, the start and the end of the threads,
-- the Json text of a double, and crc32c_test.cc. Counters of 64 bits do not wrap, but the round
-- and the counter of LOG_EVERY_N do. Times are whole units of their clock, without the rounding of
-- doubles. A negative frequency of -f, a frequency period that is not positive, and
-- sleeps of 2^31 microseconds or more are outside of the model. The dispatch of crc32c is the one that the hasher finds.
pub mod Avx
pub mod Base
pub mod Compressor
pub mod CorruptCores
pub mod Crc32c
pub mod Crypto
pub mod Fvt
pub mod Hasher
pub mod Log
pub mod Main
pub mod MalignBuffer
pub mod Noise
pub mod PatternGenerator
pub mod Silkscreen
pub mod Stopper
pub mod Utils
pub mod Worker
