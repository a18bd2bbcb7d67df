-- ===== src/Lib.antt =====
-- ruruby, an interpreter of Ruby in Rust: a model of its values, its heap, its code generator and its
-- bytecode, its interpreter loop and operators, its identifiers, its arrays, its numbers and its method caches.
--
-- The program. The parser (src/parse/) builds a syntax tree, the code generator (src/parse/codegen.rs)
-- turns it into bytecode (src/vm/iseq.rs, instructions in src/vm/vm_inst.rs), which `ISeq::optimize`
-- shortens, and the interpreter (src/vm/executor.rs) runs it on values (src/value/value.rs). A value is a
-- 64-bit word: a packed integer, float, symbol or constant, or the address of an object
-- (src/value/rvalue.rs) on the heap of src/alloc.rs, which a mark and sweep collector reclaims. A call
-- finds its method through the inline and the global cache of src/vm/method.rs, which fall back on the
-- search along the class chain (src/value/class.rs). Names are numbers of src/id_table.rs.
--
-- The files.
--   Prelude      Boolean tests, lists, integers, bits, and the outcome of a function that can fail or panic.
--   Value        src/value/value.rs and src/value/rvalue.rs: the words and their tests (Value), packing and
--                unpacking (Value/Pack), the accessors of numbers (Value/Access). `Value/Store` is what
--                they use of the heap: an interface that Alloc/AsStore fills.
--   Alloc        src/alloc.rs: `Allocator::alloc`, `mark_ptr`, `clear_mark` (Alloc), `sweep` and
--                `dealloc_empty_pages` (Alloc/Sweep). Memory maps an address to a cell and a page to its
--                bitmap; the free list runs through the cells' `next` fields, as in the source.
--   ISeq         src/vm/iseq.rs and src/vm/vm_inst.rs: the buffer (ISeq), the instructions (ISeq/Inst), the
--                generators (ISeq/Gen, with those of src/parse/codegen.rs that push one instruction), and
--                `optimize` with `chase` (ISeq/Optimize).
--   Operators    src/vm/executor.rs: `eval_add` to `eval_compare` on integers and floats, with the macros that
--                define most of them: sums and quotients (Operators/Arith), bits (Operators/Bits) and
--                comparisons (Operators/Compare).
--   Vm           src/vm/executor/opt_core.rs: `run_context_main`, one function of Vm/Operate, Vm/Variables,
--                Vm/Stack, Vm/Jump and Vm/Call for the arms of each kind of instruction, put together in
--                Vm/Run; src/vm/executor.rs: the calls (Vm/Call), the arguments on the stack (Vm/Arguments),
--                and `run_context` with the exception table (Vm/Frame); src/vm/context.rs: the local
--                variables (Vm/Locals), a new context and its positional arguments (Vm/Params). Vm computes in the monad `Exec`: the stack, the contexts and the
--                rest of the memory go through, and a computation returns, raises an error or panics.
--                Vm/Executor is the interface of what the loop calls: the operators, which
--                Operators/AsOperators fills for numbers, and the objects, globals and methods.
--   Codegen      src/parse/codegen.rs and src/parse/node.rs: the nodes and the local variables that the code
--                generator knows (Codegen), `gen` with `gen_jmp_if_false`, `gen_comp_stmt` and the generators
--                of local variables (Codegen/Gen), `gen_iseq` of a body without parameters, before `optimize`
--                (Codegen/Method). What a node computes, without code and without a stack, is in Codegen/Eval:
--                the operators of the interpreter applied to the values of the parts, from left to right;
--                which operands are immediates and which variable a name is, Codegen/Operands says without
--                the generator. Codegen/Reach has what steps of the loop lead to, Codegen/Sound what code has to do.
--   IdentTable   src/id_table.rs: the table of identifiers.
--   ArrayInfo    src/value/array.rs: reads, writes and `retain`; src/vm/args.rs: the argument counts.
--   MethodRepo   src/vm/method.rs: the caches; src/value/class.rs: `Module::get_method`, `ClassInfo::upper`.
--   Real         src/value/real.rs: sums, differences, quotients and ranges of integers and floats.
-- The other files of each folder hold the lemmas, and Examples the runs at concrete inputs.
--
-- Numbers. Words are natural numbers below 2 ^ 64, signed integers are `ℤ` with their casts written out,
-- a float is its 64-bit pattern, and lengths are far below 2 ^ 63. A wrap-around is written with `%`.
--
-- Fuel. `ISeq::chase` calls itself without a bound, so it runs on fuel: a cycle of jumps has no answer at
-- any, and on a chain of jumps fuel above its length is enough. The loop of `optimize` moves on by at
-- least a byte in each round, so one round more than there are bytes is enough. `upper` and `get_method`
-- follow the class chain on fuel, and have no answer on a chain that is a circle; the caches take the
-- result of the search as an argument. The interpreter loop (`run`) takes one unit for each instruction, and
-- `run_frame` one more for each error that a handler serves; Ruby programs need not end, so a run on too
-- little fuel has no answer. What a node computes (`eval`) takes fuel for the rounds of its loops only, and
-- a node without loops needs none.
--
-- Parameters. The page that the system hands out next; the operations on `f64`, `f64::trunc` among them,
-- and `rem_floor` of the crate divrem; whether arithmetic on `i64` and `u32` checks overflow, which the
-- build's profile decides; the values of an array, with the tests that the code makes on them; what the loop calls beyond
-- the stack and the local variables (objects, globals, constants, methods), and the method that an operator
-- falls back on. The code generator is related to what nodes compute for operators that neither read nor
-- change the stack of the interpreter and a collector that reads it, as `VM::gc` does, and leaves it as it
-- is (`KeepsStack`); Codegen/OnHeap is about the operators of Operators. A node's evaluation hands the
-- values that wait on the stack to the collector.
--
-- Assumptions. A cell is 64 bytes (`size_of::<GCBox<RValue>>`), and the cells lie at the start of a page:
-- `Page` is not `repr(C)`, so the compiler could place the bitmap first. An index into
-- the stack that would be below 0 is a panic, as in a build with overflow checks. `TAKE` of 0 values from what is no array is a panic in
-- any build. The assertions of debug builds are left out, and the one of `sweep` that `used_in_current` is
-- at most `DATA_LEN`.
--
-- Not modelled: `Allocator::gc` as a whole and the traversal of the object graph that marks (`GC::mark`), the
-- formatting, hashing and equality of values (`eval_eq`, `eval_teq`), the lexer, the parser, the code
-- of sends, blocks, definitions, multiple assignments, exceptions, `break` and `next`, and the positions in the source that
-- the code generator saves, the keyword arguments of a context, the invocation of methods beyond the stack
-- discipline of a call, fibers and the built-in classes. The vector that `ArrayInfo::retain` leaves when its
-- test fails is not modelled either.
pub mod Prelude
pub mod Value
pub mod Vm
pub mod Codegen
pub mod Operators
pub mod ISeq
pub mod Alloc
pub mod IdentTable
pub mod ArrayInfo
pub mod MethodRepo
pub mod Real
