-- ===== src/Vm/Frame.antt =====
-- src/vm/executor.rs: `run_context`, which runs the loop in a new frame and serves its errors, with the
-- exception table of src/parse/codegen.rs.
use ruruby.Prelude.{
  ℕ, zero, suc, Bool, ◌&&◌, List, [], ◌∷◌, Option, none, some, leb, ltb, if◌then◌else◌, length,
}
use ruruby.ISeq.{ISeq}
use ruruby.Vm.{
  Memory, Exec, Ended, returns, raises, panics, RubyErrorKind, ◌>>=◌, ◌>>◌, pure, stack_push,
  stack_pop, set_stack_len,
}
use ruruby.Vm.Locals.{context, get_outer_context, get_lvar, set_lvar}
use ruruby.Vm.Executor.{Executor}
use ruruby.Vm.Run.{run, Stopped, done, raised, panicked, unfinished}

pub record ExceptionEntry : Type 0 where
  pub start : ℕ
  pub end : ℕ
  pub dest : ℕ

unfoldable pub include : ExceptionEntry → ℕ → Bool
include entry pc = leb entry.start pc && ltb pc entry.end

-- The first entry that covers the program counter.
unfoldable pub find_entry : List ExceptionEntry → ℕ → Option ExceptionEntry
unfolding include
find_entry [] pc = none
find_entry (entry ∷ entries) pc = if include entry pc then some entry else find_entry entries pc

-- What the loop reads of `ISeqInfo`.
pub record ISeqInfo : Type 0 where
  pub iseq : ISeq
  pub exception_table : List ExceptionEntry
  pub forvars : List (ℕ × ℕ)

-- How a call ends. `unfinished` is no end yet, on the fuel given.
pub data Called (W : Type 0) : Type 0 where
  returned : Memory W → Called W
  failed : RubyErrorKind → Memory W → Called W
  aborted : Called W
  running : Called W

module _ {W : Type 0} where
  unfoldable pub context_push : ℕ → Exec (Memory W) (Unit {0})
  context_push ctx m = elim m.cur_context [
    | some c ↦ returns tt (record m { exec_context = c ∷ m.exec_context; cur_context = some ctx })
    | none ↦ returns tt (record m { cur_context = some ctx })
  ]

  -- `exec_context.pop()`, whose last element is the head of the list.
  pop_context : List ℕ → Memory W → Memory W
  pop_context [] m = record m { cur_context = none }
  pop_context (c ∷ cs) m = record m { exec_context = cs; cur_context = some c }

  -- `context_pop().unwrap()`.
  unfoldable pub context_pop : Exec (Memory W) ℕ
  unfolding pop_context
  context_pop m = elim m.cur_context [
    | some c ↦ returns c (pop_context m.exec_context m)
    | none ↦ panics
  ]

  -- The rest of a call that has its end.
  unfoldable pub ended : Ended (Memory W) (Called W) → Called W
  ended (returns r m) = r
  ended (raises e m) = Called.aborted
  ended panics = Called.aborted

  -- `break` and `return` of a block leave the frame with their value on the stack of the caller.
  unfoldable pub leave_with_value : RubyErrorKind → ℕ → Memory W → Called W
  unfolding context_pop stack_pop set_stack_len stack_push ended ◌>>=◌
  leave_with_value e stack_len m = ended (
      (context_pop >>= λ c. stack_pop >>= λ val.
      set_stack_len stack_len >>= λ u. stack_push val >>= λ v m'. returns (Called.failed e m') m')
        m)

  unfoldable pub leave_with_error : RubyErrorKind → ℕ → Memory W → Called W
  unfolding context_pop set_stack_len ended ◌>>=◌
  leave_with_error e stack_len m =
      ended (
        (context_pop >>= λ c. set_stack_len stack_len >>= λ u m'. returns (Called.failed e m') m')
          m)

module _ {W : Type 0} (o : Executor W) (to_exception_val : RubyErrorKind → Exec (Memory W) ℕ)
    (info : ISeqInfo) where
  -- The variables of a `for` loop are those of an outer context: `run_context_main` copies the
  -- block's arguments there when it starts.
  unfoldable pub copy_forvars : ℕ → List (ℕ × ℕ) → Exec (Memory W) (Unit {0})
  copy_forvars i [] = pure tt
  copy_forvars i ((outer, lvar) ∷ rest) = do
    cref ← get_outer_context outer
    ctx ← context
    val ← get_lvar ctx i
    set_lvar cref lvar val
    copy_forvars (suc i) rest

  run_from : ℕ → ℕ → ℕ → Ended (Memory W) (Unit {0}) → Stopped W
  run_from self_value fuel pc (returns u m) = run o self_value info.iseq fuel pc m
  run_from self_value fuel pc (raises e m) = raised e pc m
  run_from self_value fuel pc panics = panicked

  unfoldable pub run_context_main : ℕ → ℕ → ℕ → Memory W → Stopped W
  unfolding copy_forvars run_from
  run_context_main self_value fuel pc m =
      run_from self_value fuel pc ((o.gc >> copy_forvars 0 info.forvars) m)

  -- The stack of a handler: that of the start of the frame, with the exception on top.
  unfoldable pub enter_handler : RubyErrorKind → ℕ → Exec (Memory W) (Unit {0})
  unfolding set_stack_len stack_push ◌>>=◌
  enter_handler e stack_len = set_stack_len stack_len >>= λ u. to_exception_val e >>= stack_push

  -- An exception: the first entry of the table that covers its place is its handler, at which `k` goes
  -- on; without one the frame is left.
  unfoldable pub handle : (ℕ → Memory W → Called W) → RubyErrorKind → ℕ → ℕ → Memory W → Called W
  unfolding leave_with_error enter_handler find_entry ended ◌>>=◌
  handle k e stack_len pc m = elim (find_entry info.exception_table pc) [
    | some entry ↦ ended ((enter_handler e stack_len >>= λ u m'. returns (k entry.dest m') m') m)
    | none ↦ leave_with_error e stack_len m
  ]

  -- Every error that the loop ends with.
  unfoldable pub serve : (ℕ → Memory W → Called W) → RubyErrorKind → ℕ → ℕ → Memory W → Called W
  unfolding leave_with_value handle
  serve k RubyErrorKind.block_return stack_len pc m =
      leave_with_value RubyErrorKind.block_return stack_len m
  serve k RubyErrorKind.method_return stack_len pc m =
      leave_with_value RubyErrorKind.method_return stack_len m
  serve k RubyErrorKind.internal stack_len pc m = Called.aborted
  serve k e stack_len pc m = handle k e stack_len pc m

  unfoldable pub served : (ℕ → Memory W → Called W) → ℕ → Stopped W → Called W
  unfolding context_pop serve ended ◌>>=◌
  served k stack_len (done m) = ended ((context_pop >>= λ c m'. returns (Called.returned m') m') m)
  served k stack_len (raised e pc m) = serve k e stack_len pc m
  served k stack_len panicked = Called.aborted
  served k stack_len unfinished = Called.running

  -- The loop of `run_context`, on fuel for the handlers that are entered.
  unfoldable pub run_frame : ℕ → ℕ → ℕ → ℕ → ℕ → Memory W → Called W
  unfolding run_context_main served
  run_frame zero self_value fuel stack_len pc m = Called.running
  run_frame (suc rounds) self_value fuel stack_len pc m =
      served (run_frame rounds self_value fuel stack_len) stack_len
        (run_context_main self_value fuel pc m)

  unfoldable pub run_context : ℕ → ℕ → ℕ → ℕ → Memory W → Called W
  unfolding context_push run_frame
  run_context rounds self_value fuel ctx m = elim (context_push ctx m) [
    | returns u m' ↦ run_frame rounds self_value fuel (length m.exec_stack) 0 m'
    | raises e m' ↦ Called.aborted
    | panics ↦ Called.aborted
  ]
