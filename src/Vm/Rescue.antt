-- ===== src/Vm/Rescue.antt =====
-- src/vm/executor.rs: what `run_context` does with an error, and the stack that a failed call leaves.
use ruruby.Prelude.{
  ℕ, zero, suc, ◌+◌, ◌-◌, ◌≤◌, ◌<◌, ◌≡◌, ◌⊎◌, ◌++◌, [], leb, ltb, le→leb, lt→ltb, Bool-cases, subst,
  refl, ◌∙◌, Bool, true, false, List, ◌∷◌, some, arith, if◌then◌else◌, length, drop, length-drop,
  Option-cases, inl, inr,
}
use ruruby.Vm.{
  Memory, Exec, Ended, returns, raises, panics, RubyErrorKind, ◌>>=◌, stack_push, stack_pop,
  set_stack_len,
}
use ruruby.Vm.Executor.{Executor}
use ruruby.Vm.Run.{Stopped, done, raised, panicked, unfinished}
use ruruby.Vm.Frame.{
  ExceptionEntry, include, find_entry, ISeqInfo, Called, failed, context_pop, ended,
  leave_with_value, leave_with_error, enter_handler, handle, serve, served, run_context_main,
  run_frame,
}

-- An error that a handler can take: no `break` or `return` of a block, no internal error.
abbrev pub is_exception : RubyErrorKind → Bool
is_exception RubyErrorKind.block_return = false
is_exception RubyErrorKind.method_return = false
is_exception RubyErrorKind.internal = false
is_exception _ = true

-- The lowest `n` values of a stack.
abbrev pub lowest : ℕ → List ℕ → List ℕ
lowest n st = drop (length st - n) st

-- No entry covers the place.
abbrev pub Misses : ℕ → List ExceptionEntry → Type 0
Misses pc [] = Unit
Misses pc (entry ∷ entries) = ((pc < entry.start) ⊎ (entry.end ≤ pc)) × Misses pc entries

find_entry-first :
    (before after : List ExceptionEntry) (entry : ExceptionEntry) (pc : ℕ)
    → Misses pc before
    → entry.start ≤ pc
    → pc < entry.end
    → find_entry (before ++ entry ∷ after) pc ≡ some entry
unfolding find_entry include
find_entry-first [] after entry pc misses l u =
    rw (le→leb entry.start pc l, lt→ltb pc entry.end u) refl
find_entry-first (e ∷ rest) after entry pc misses l u =
    let ih = find_entry-first rest after entry pc misses.1 l u in
    elim misses.0 [
      | inl h ↦ let t : leb e.start pc ≡ false = ground arith in rw t ih
      | inr h ↦
          let t : ltb pc e.end ≡ false = ground arith in
          elim (Bool-cases (leb e.start pc)) [ inl q ↦ rw (q, t) ih | inr q ↦ rw q ih ]
    ]

module _ {W : Type 0} (o : Executor W) (to_exception_val : RubyErrorKind → Exec (Memory W) ℕ)
    (info : ISeqInfo) where
  serve-exception :
      (k : ℕ → Memory W → Called W) (e : RubyErrorKind) (stack_len pc : ℕ) (m : Memory W)
      → is_exception e ≡ true
      → serve o to_exception_val info k e stack_len pc m
        ≡ handle o to_exception_val info k e stack_len pc m
  unfolding serve
  serve-exception k (RubyErrorKind.parse_err n) stack_len pc m x = refl
  serve-exception k RubyErrorKind.block_return stack_len pc m x = cc x
  serve-exception k RubyErrorKind.method_return stack_len pc m x = cc x
  serve-exception k RubyErrorKind.internal stack_len pc m x = cc x
  serve-exception k _ stack_len pc m x = refl

  enter_handler-stack :
      (e : RubyErrorKind) (stack_len val : ℕ) (m m' : Memory W)
      → to_exception_val e (record m { exec_stack = lowest stack_len m.exec_stack })
        ≡ returns val m'
      → enter_handler o to_exception_val info e stack_len m
        ≡ returns tt (record m' { exec_stack = val ∷ m'.exec_stack })
  unfolding enter_handler set_stack_len stack_push ◌>>=◌
  enter_handler-stack e stack_len val m m' v = rw (◌>>=◌, enter_handler, v) refl

  -- An exception that the loop ends with, at a place that an entry of the exception table covers, from its
  -- start up to but not including its end, where no entry before it does: the frame goes on at the handler
  -- of that entry, with the exception on the lowest `stack_len` values of the stack. What the frame had
  -- pushed on top of those is gone.
  pub run_frame-rescue :
      (rounds self_value fuel stack_len pc pc' val : ℕ) (e : RubyErrorKind) (m m₁ m₂ : Memory W)
      (before after : List ExceptionEntry) (entry : ExceptionEntry)
      → run_context_main o to_exception_val info self_value fuel pc m ≡ raised e pc' m₁
      → is_exception e ≡ true
      → info.exception_table ≡ before ++ entry ∷ after
      → Misses pc' before
      → entry.start ≤ pc'
      → pc' < entry.end
      → to_exception_val e (record m₁ { exec_stack = lowest stack_len m₁.exec_stack })
        ≡ returns val m₂
      → run_frame o to_exception_val info (suc rounds) self_value fuel stack_len pc m
        ≡ run_frame o to_exception_val info rounds self_value fuel stack_len entry.dest
            (record m₂ { exec_stack = val ∷ m₂.exec_stack })
  unfolding run_frame served handle enter_handler ended set_stack_len stack_push ◌>>=◌
  run_frame-rescue rounds self_value fuel stack_len pc pc' val e m m₁ m₂ before after entry r x
        table misses from_start to_end v =
      let f : find_entry info.exception_table pc' ≡ some entry =
        rw table (find_entry-first before after entry pc' misses from_start to_end) in
      rw (r, run_frame)
        (serve-exception _ e stack_len pc' m₁ x
          ∙ rw (f, handle) (rw (enter_handler-stack e stack_len val m₁ m₂ v, ◌>>=◌) refl))

length-lowest : (n : ℕ) (st : List ℕ) → length (lowest n st) ≤ n
length-lowest n st = omega (arith, length-drop (length st - n) st)

abbrev pub value_left : RubyErrorKind → ℕ
value_left e = if is_exception e then 0 else 1

module _ {W : Type 0} where
  -- The height of the stack that a failed call leaves, for the height that it began with.
  abbrev IsCutTo : ℕ → Called W → Type 0
  IsCutTo stack_len (failed e m) = length m.exec_stack ≤ stack_len + value_left e
  IsCutTo stack_len _ = Unit

  module _ (stack_len : ℕ) where
    ended_bind :
        {A : Type 0} (k : A → Exec (Memory W) (Called W)) (r : Ended (Memory W) A)
        → ((x : A) (m : Memory W) → IsCutTo stack_len (ended (k x m)))
        → IsCutTo stack_len
            (ended (elim r [ returns x m ↦ k x m | raises e m ↦ raises e m | panics ↦ panics ]))
    unfolding ended
    ended_bind k (returns x m) h = h x m
    ended_bind k (raises e m) h = tt
    ended_bind k panics h = tt

    leave_with_error-IsCutTo :
        (e : RubyErrorKind) (m : Memory W) → IsCutTo stack_len (leave_with_error e stack_len m)
    unfolding leave_with_error set_stack_len ended ◌>>=◌
    leave_with_error-IsCutTo e m =
        ended_bind _ (context_pop m) λ c m'. omega (arith, length-lowest stack_len m'.exec_stack)

    leave_with_value-IsCutTo :
        (e : RubyErrorKind) (m : Memory W)
        → is_exception e ≡ false
        → IsCutTo stack_len (leave_with_value e stack_len m)
    unfolding leave_with_value set_stack_len stack_push ended ◌>>=◌
    leave_with_value-IsCutTo e m x = ended_bind _ (context_pop m) λ c m'.
        ended_bind _ (stack_pop m')
          λ val m''. ground (arith, length-lowest stack_len m''.exec_stack)

module _ {W : Type 0} (o : Executor W) (to_exception_val : RubyErrorKind → Exec (Memory W) ℕ)
    (info : ISeqInfo) (stack_len : ℕ) where
  module _ (k : ℕ → Memory W → Called W)
      (ih : (pc : ℕ) (m : Memory W) → IsCutTo stack_len (k pc m)) where
    handle-IsCutTo :
        (e : RubyErrorKind) (pc : ℕ) (m : Memory W)
        → IsCutTo stack_len (handle o to_exception_val info k e stack_len pc m)
    unfolding handle ended ◌>>=◌
    handle-IsCutTo e pc m = elim (Option-cases (find_entry info.exception_table pc)) [
      | inl n ↦ rw (n, handle) (leave_with_error-IsCutTo stack_len e m)
      | inr (entry, n) ↦
          rw (n, handle)
            (ended_bind stack_len _ (enter_handler o to_exception_val info e stack_len m)
              λ u m'. ih entry.dest m')
    ]

    serve-IsCutTo :
        (e : RubyErrorKind) (pc : ℕ) (m : Memory W)
        → IsCutTo stack_len (serve o to_exception_val info k e stack_len pc m)
    unfolding serve
    serve-IsCutTo RubyErrorKind.block_return pc m = leave_with_value-IsCutTo stack_len _ m refl
    serve-IsCutTo RubyErrorKind.method_return pc m = leave_with_value-IsCutTo stack_len _ m refl
    serve-IsCutTo RubyErrorKind.internal pc m = tt
    serve-IsCutTo e pc m = handle-IsCutTo e pc m

    served-IsCutTo :
        (r : Stopped W) → IsCutTo stack_len (served o to_exception_val info k stack_len r)
    unfolding served ended ◌>>=◌
    served-IsCutTo (done m) = ended_bind stack_len _ (context_pop m) λ c m'. tt
    served-IsCutTo (raised e pc m) = serve-IsCutTo e pc m
    served-IsCutTo panicked = tt
    served-IsCutTo unfinished = tt

  run_frame-IsCutTo :
      (rounds self_value fuel pc : ℕ) (m : Memory W)
      → IsCutTo stack_len (run_frame o to_exception_val info rounds self_value fuel stack_len pc m)
  unfolding run_frame
  run_frame-IsCutTo zero self_value fuel pc m = tt
  run_frame-IsCutTo (suc rounds) self_value fuel pc m =
      served-IsCutTo _ (run_frame-IsCutTo rounds self_value fuel) _

  -- A frame that ends with an error leaves no more on the stack than the height that it is given, that
  -- of the stack when it was entered, and the value of a `break` or `return` on top of that.
  pub run_frame-failed :
      (rounds self_value fuel pc : ℕ) (m m' : Memory W) (e : RubyErrorKind)
      → run_frame o to_exception_val info rounds self_value fuel stack_len pc m ≡ failed e m'
      → length m'.exec_stack ≤ stack_len + value_left e
  run_frame-failed rounds self_value fuel pc m m' e r =
      subst (IsCutTo stack_len) r (run_frame-IsCutTo rounds self_value fuel pc m)
