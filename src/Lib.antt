-- ===== src/Lib.antt =====
-- atJIT compiles a C++ function at run time and tunes it: a client asks the driver for a version of
-- the function under a context, the driver times the versions it hands out, and a pipeline of three
-- queues makes further versions from the configurations that a tuner proposes. This library models
-- the program's own logic on plain data, and proves what makes it correct.
--
-- The parts, and where they stand. Paths are from the repository's root.
--   Driver       include/tuner/driver.h (ATDriver::reoptimize) and include/easy/function_wrapper.h: one entry
--                of the driver's map for each key (a function and a context), as the record Info; the
--                trial check is check_trial and settle, the decision whether to experiment is
--                should_return_best, a new version is experiment, the quick recheck of the best version
--                is fast_experiment. Driver/Interfaces lists what it uses of Feedback and Optimizer, and
--                Driver/Objects fills the first with the program's own feedback objects.
--   Pipeline     runtime/tuner/Optimizer.cpp and include/tuner/optimizer.h: recompile(), optimize_callback(),
--                codegen_callback() and the list's queue, as steps of three threads that interleave.
--   LoopSetting  include/tuner/LoopKnob.h, runtime/tuner/LoopKnob.cpp (the equality) and
--                runtime/tuner/LoopSettingGen.cpp: the options of a loop, their integer codes, and the
--                generators, under the names of the source (set_unroll is setUnroll, and so on).
--   Knobs        include/tuner/Knob.h, KnobSet.h, KnobConfig.h, CodegenOptions.h, Tuner.h and
--                runtime/tuner/KnobSet.cpp, KnobConfig.cpp: sets of knobs, configurations of them, the
--                default, random and perturbed ones, and how a configuration is applied. Collect has the knobs that
--                initialize() of runtime/tuner/Optimizer.cpp gives to the tuner.
--   Tuners       include/tuner/RandomTuner.h, include/tuner/AnnealingTuner.h and bestSeen of
--                include/tuner/Tuner.h: which configuration is proposed next, whether another job is compiled
--                ahead, and which version is the best so far. The two states of the annealing tuner share
--                their feedback with entries of Configs_, so they are indices into it (Annealing).
--   Bayes        include/tuner/BayesianTuner.h and exportConfig of runtime/tuner/KnobConfig.cpp: Columns has the
--                columns and rows of the data set, Dataset is updateDataset, Learn the training loop, Batch the
--                multiset of the best predictions, Propose createPredictions and getNextConfig.
--   Loops        include/tuner/MDUtils.h, pass/LoopNamer.cpp, the passes of runtime/tuner/LoopKnob.cpp and
--                runtime/tuner/AnalyzingTuner.cpp: the operands of a loop's node, the loop's name and options,
--                the groups of loops to tile (Sections), and the tree of loop knobs (Build).
--   Tables       include/easy/code_cache.h (Cache) and include/easy/runtime/BitcodeTracker.h with
--                runtime/BitcodeTracker.cpp (Bitcode): what is kept for each key.
--   Wrappers     runtime/pass/InlineParameters.cpp (GetNewArgCount, GetWrapperTy): the parameter types of the
--                wrapper function; Entry is the metadata of runtime/Utils.cpp that marks the entry function.
--   Call         include/easy/jit.h (get_context_for), param.h, options.h and meta.h: how the arguments of a call
--                become a context, and which parameters the type of the returned wrapper has. This runs when a
--                client is compiled; a call that does not compile is `none`.
--   Export       pass/Easy.cpp, the pass that embeds functions when a client is compiled: Collect chooses the objects
--                to export, with the alias tracer of pass/MayAliasTracer.cpp (Trace); Referenced finds the functions
--                that an entry needs, Linkage is fixLinkages, and Register writes the table of local
--                variables and registers the bitcode. MapGlobals of runtime/Function.cpp, which reads the table
--                at run time, is in Register.
--   Context      include/easy/runtime/Context.h, runtime/Context.cpp, include/tuner/param.h and
--                runtime/tuner/Knob.cpp: the context's arguments, the equality and the hash by which a map
--                finds an entry.
--   Feedback     include/tuner/Feedback.h and runtime/tuner/Feedback.cpp: the buffer of recent measurements,
--                the cumulative averages, and the test whether one version is better than another.
--   Util         include/tuner/Util.h and runtime/tuner/Util.cpp: nearbyInt and pow2Bit.
--   Prelude      what the other parts share: natural numbers and lists, `int`, partial results, and the
--                interfaces Double and Rng.
--
-- How the parts meet. Driver calls Feedback and Pipeline through the records FeedbackOps and
-- OptimizerOps; updateStats and recompile() may end the program there, and the theorems on the driver
-- say on which objects and on which optimizer (Driver/Failures). Driver/Objects is Feedback in that place; the Pipeline interleaves three threads, and is not put in place
-- of OptimizerOps, whose recompile() is one call. Tuners calls the generators of Knobs and createFeedback of
-- Feedback; Bayes calls Knobs, Feedback, Tuners (for bestSeen) and LoopSetting's flatten; Loops writes
-- the settings of LoopSetting; Tables keeps the wrappers of Driver; Knobs calls the generators of
-- LoopSetting; both draw with nearbyInt. A map's key is a pair of Context, which Call builds. The wrapper's
-- parameters of Call and of Wrappers are compared in Call/Agree, and what Export registers is found by the
-- tracker of Tables. Assertions, exceptions and reads through null pointers are results of the model's own
-- (an Outcome in Driver, a Selection where CollectIDs reads past the end of its ids, `none` elsewhere), so a
-- theorem that a call succeeds also says that no assertion fails. Where the source reads out of bounds, its
-- behaviour is undefined, and the model does not follow the run further: it ends there without a result.
--
-- Numbers. A uint64_t and a size_t are natural numbers with their wrap-around written out, and so is
-- the conversion to uint16_t in a loop's setting; an `int` is an integer without bounds, since every
-- value is clamped to a small range. A `double` is an element of the record Double, and no law of its
-- arithmetic is assumed, except where a theorem names one as a hypothesis (Draws, in
-- Tuners/Annealing). Random engines and distributions are the record Rng, of which only the inclusive
-- bounds of the uniform distribution are relied on. A float of the Bayesian tuner's matrix is a
-- FloatCell. Another float is a double that was narrowed: `narrow` of the record Double, in the result of a row and
-- in the energy of perturbConfig, and a prediction is such a double too. The strings of
-- metadata are the record MdStrings: equality, different literals, and numerals that read back.
-- Context's Hashes relies on the equality of doubles being symmetric and transitive, and on std::hash
-- agreeing with it.
--
-- Bounds. Three definitions run on fuel: Bayes.Learn.learn, whose fuel is the source's own 500 iterations,
-- Export.Referenced.visit, whose fuel is two more than the uses in the module, and Export.Trace.trace, whose
-- fuel is one more than twice the number of values; the last two are proved to be enough. The other loops are
-- recursion over lists, maps and trees. The polling loop of recompile() is bounded by the source's own bailout
-- of 120000 polls, a millisecond each. The buffer of recent measurements has 32 places, as the source makes
-- it. The theorems on counters assume fewer than 2^64 requests or measurements.
--
-- Not modelled: the work on LLVM modules (code generation, the passes but for the loop metadata and the parts of
-- Easy.cpp above), XGBoost (three functions that are parameters), the parsing of bitcode, output, logging,
-- tests and benchmarks. Locks are not modelled as such: a method that holds a lock is one step. The time that
-- passes between steps is left open.
pub mod Prelude
pub mod Util
pub mod LoopSetting
pub mod Knobs
pub mod Tuners
pub mod Wrappers
pub mod Context
pub mod Feedback
pub mod Driver
pub mod Pipeline
pub mod Bayes
pub mod Loops
pub mod Tables
pub mod Call
pub mod Export
