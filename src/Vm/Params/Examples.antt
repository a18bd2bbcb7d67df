-- ===== src/Vm/Params/Examples.antt =====
-- src/vm/context.rs: the arguments of small calls.
use ruruby.Prelude.{
  ℕ, ◌+◌, ◌-◌, ◌≡◌, refl, List, [], ◌∷◌, ◌++◌, none, false, arith, length, take, drop, replicate,
}
use ruruby.Prelude.Parts.{overwrite}
use ruruby.Value.{nil_value}
use ruruby.Vm.{Context, Memory, Exec, pure, returns}
use ruruby.Vm.Params.{ISeqParams, new, rest_len, fill_arguments, fill_arguments_opt}
use ruruby.Vm.Filled.{lvars, Wrote}
use ruruby.Vm.Spread.{fill_arguments_lem, fill_arguments_opt_lem}
use ruruby.Operators.Arith.{Store}
use ruruby.Operators.Samples.{sample_memory, sample_machine}

-- Seven local variables: three of them are in the vector.
abbrev frame : Context
unfolding new
frame = new nil_value 7 none false

abbrev words : List ℕ
words = 3 ∷ 5 ∷ 7 ∷ 9 ∷ []

fill_arguments_opt_lem_example :
    Wrote
      (fill_arguments_opt frame words 6)
      (take 6 words ++ replicate (6 - length words) nil_value ++ drop 6 (lvars frame))
unfolding lvars new
fill_arguments_opt_lem_example = fill_arguments_opt_lem frame words 6 refl (omega arith)

-- `|a, b = 0, c = 0, d, e|`
abbrev five_params : ISeqParams
five_params = record { req = 1; opt = 2; rest = none; post = 2 }

abbrev no_arrays : List ℕ → Exec (Memory (Store sample_machine)) ℕ
no_arrays values = pure nil_value

fill_arguments_lem_example :
    (c' : Context) × (fill_arguments no_arrays words five_params nil_value frame sample_memory
      ≡ returns c' sample_memory)
    × (lvars c' ≡ overwrite (overwrite (lvars frame) (1 + 2) (drop 2 words)) 0 (take 2 words))
unfolding lvars new rest_len
fill_arguments_lem_example =
    fill_arguments_lem no_arrays words five_params frame 2 sample_memory refl refl refl
      (omega arith) (omega arith) (omega arith)
