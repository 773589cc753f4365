-- ===== src/Lib.antt =====
-- Ephippion is a pass for LLVM's `opt`. It reads reports that say which arguments of a function are
-- inputs and outputs of a loop iteration, and builds, beside the function, a harness for a symbolic
-- execution engine: the function is called once for each iteration in order, and once more in the
-- reverse order on copies of its outputs, and the outputs are compared.
--
-- Parts, and the files that model them:
--   Direction       include/Ephippion/Support/IR/ArgDirection.hpp, ArgSpec.hpp: a direction is its
--                   byte, with the tests `isInbound`, `isOutbound`, `isOnlyInbound`, `isOnlyOutbound`.
--   ArgSpecParser   include/Ephippion/Support/Utils/ArgSpecParser.hpp: `parse` of the command line form.
--   FuncUtils       lib/Support/Utils/FuncUtils.cpp: the functions that declare a callee.
--   LoopBuilder     lib/Support/IR/LoopIRBuilder.cpp: `CreateLoop` is `create_loop`.
--   Encapsulation   lib/Transforms/SymbolicEncapsulation.cpp. Its child modules are its methods:
--                   Arguments is `setupHarnessArgs`, Declarations `createSymbolicDeclarations`,
--                   Assertions `createSymbolicAssertions`, Calls `createCall`, Harness
--                   `encapsulateImpl` and the `encapsulate` of a function, WholeModule that
--                   of a module; Sizes holds the size computation that three of them repeat.
--                   Memory is about the sizes that a harness passes on. Harness puts the stages
--                   together: Created, Prepared, Calls and Linked are the state after each, Places
--                   and Handed the values that the calls hand on, Shape the blocks at the end, Runs
--                   what control does in them.
--   Exchange        lib/Exchange/JSONTransfer.cpp: `ReadJSONFromFile`, `WriteJSONToFile`, `fromJSON`.
--   Options         lib/Passes/PassCommandLineOptions.cpp: the options and their defaults.
--   Pass            lib/Transforms/Passes/SymbolicEncapsulationPass.cpp: `run`. The body of its
--                   directory loop is cut in two: `decide_entry` finds out what an entry of the
--                   directory asks for, and `act` does it. Pass.Managers is the constructor and the
--                   legacy pass manager's wrapper.
--   Registration    lib/Passes/RegisterPasses.cpp, Passes.def: how `opt` gets to know the pass.
-- Prelude holds the shared names, texts and lists. Llvm and Ir model no file of the repository.
--
-- LLVM is a parameter. A run of the code is the sequence of the calls into LLVM that it makes, newest
-- first (`Trace`), and what such a call returned is named by its position in the sequence. What the
-- code asks of LLVM (the type of a value, the terminator of a block, whether a declared name has
-- another type) is a record `Llvm` of functions on that sequence; `IsLlvm` lists what LLVM documents
-- of them, and `concrete` is an instance that meets it. A run returns a value and the longer
-- sequence, or stops at a fault: an assertion that fails, or behaviour that C++ leaves undefined
-- (`cast` to a wrong class, an index out of range, a null pointer). `ndebug` says whether `assert` is
-- compiled out. LLVM's JSON values, path functions and the disk are parameters in the same way; two
-- paths name the same file only if they are the same text.
--
-- Ir is the meaning of the generated code after LLVM's language reference: the instructions of a
-- block, and what a block does when control enters it, on 64-bit words that wrap; a block that ends in
-- `unreachable` is told from one that was left without a terminator. What a call or a
-- load gives is decided by an oracle, so the theorems hold whatever the called functions do. The
-- function that the harness calls is taken to return; `__assert_fail` is followed by `unreachable`.
--
-- Widths and rounds: loop bounds are the 32-bit numbers of the source and the induction variable is
-- 64 bits wide. `fill_specs` has as many rounds as there are parameters, which the loop cannot pass,
-- since each round adds one description; `to_string` has one round more than the number of digits
-- can be. `encapsulate` of a module walks a list that it appends to, and is given a number of rounds;
-- it returns `none` if they do not suffice. All other loops of the code are recursions over the
-- list that they walk.
--
-- Not modelled: the registration of the pass by static objects (`RegisterPass`,
-- `RegisterStandardPasses`), debug output, and what the pass prints. The options are read, not parsed:
-- LLVM's command line library parses them. LLVM's own assertions are left out: a run of the model goes
-- on where LLVM would assert on a call whose arguments do not fit the declared types (`memcpy` on a
-- place on the stack) or on a cast that is not legal (the induction variable to a type that is
-- narrower), and a cast of a value to its own type, which makes no instruction, makes one here. How LLVM asks the callbacks of its plugins is a parameter.
pub mod Prelude
pub mod Direction
pub mod ArgSpecParser
pub mod Llvm
pub mod Ir
pub mod FuncUtils
pub mod LoopBuilder
pub mod Encapsulation
pub mod Exchange
pub mod Options
pub mod Pass
pub mod Registration
