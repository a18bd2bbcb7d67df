-- ===== src/Vm/Arguments.antt =====
-- src/vm/executor.rs: `pop_args_to_args` and `pop_key_value_pair`.
use ruruby.Prelude.{
  ℕ, zero, suc, ◌+◌, ◌-◌, ◌*◌, ◌^◌, Bool, not, ◌&&◌, List, [], ◌∷◌, ◌++◌, Option, none, some, ltb,
  if◌then◌else◌,
}
use ruruby.Prelude.Int.{ℤ, pos, pos_part, neg_part, ◌+ℤ◌, as_i64, as_u64}
use ruruby.Value.{ObjKind}
use ruruby.Vm.{
  Memory, Exec, Ended, raises, panics, ◌>>=◌, ◌>>◌, pure, drain_top, peek_top, bottom_first,
}
use ruruby.Vm.Executor.{Executor}

-- `Value::as_splat`, of the kind of an object.
abbrev pub splat_of : Option ObjKind → Option ℕ
splat_of (some (ObjKind.splat inner)) = some inner
splat_of _ = none

-- The pairs of a list of keys and values; an odd one at the end is none.
abbrev pub pairs : List ℕ → List (ℕ × ℕ)
pairs [] = []
pairs (key ∷ []) = []
pairs (key ∷ val ∷ rest) = (key, val) ∷ pairs rest

module _ {W : Type 0} where
  unwrapped : {A : Type 0} → Ended (Memory W) A → Ended (Memory W) A
  unwrapped (raises e m) = panics
  unwrapped r = r

  -- `.unwrap()` of a `Result`.
  unfoldable pub unwrap_ok : {A : Type 0} → Exec (Memory W) A → Exec (Memory W) A
  unfolding unwrapped
  unwrap_ok call m = unwrapped (call m)

module _ {W : Type 0} (o : Executor W) where
  open o use {overflow_checks, kind_of, integer, expect_integer}

  -- `n` integers from `i` on, as values.
  unfoldable pub integers : ℕ → ℤ → Exec (Memory W) (List ℕ)
  integers zero i = pure []
  integers (suc n) i = do val ← integer i; vals ← integers n (i +ℤ pos 1); pure (val ∷ vals)

  -- The end of a range, which an inclusive one contains. An overflow of the sum is a panic where the build
  -- checks it, else the sum wraps around.
  range_stop : Bool → ℤ → Exec (Memory W) ℤ
  range_stop exclude i =
      if exclude
      then pure i
      else (if overflow_checks && not (ltb (pos_part i + 1) (2 ^ 63))
          then (λ m. panics)
          else pure (as_i64 (as_u64 (i +ℤ pos 1))))

  -- What a splat stands for: the elements of an array, the integers of a range, or the value.
  unfoldable pub expand_inner : ℕ → Option ObjKind → Exec (Memory W) (List ℕ)
  unfolding integers range_stop unwrap_ok
  expand_inner inner (some (ObjKind.array elements)) = pure elements
  expand_inner inner (some (ObjKind.range start end exclude)) = do
    s ← unwrap_ok (expect_integer start)
    e ← unwrap_ok (expect_integer end)
    stop ← range_stop exclude e
    integers ((pos_part stop + neg_part s) - (pos_part s + neg_part stop)) s
  expand_inner inner _ = pure (inner ∷ [])

  unfoldable pub expand : ℕ → Exec (Memory W) (List ℕ)
  unfolding expand_inner
  expand val = do
    kind ← kind_of val
    elim (splat_of kind) [
      | none ↦ pure (val ∷ [])
      | some inner ↦ kind_of inner >>= expand_inner inner
    ]

  unfoldable pub expand_all : List ℕ → Exec (Memory W) (List ℕ)
  unfolding expand
  expand_all [] = pure []
  expand_all (val ∷ vals) = do first ← expand val; rest ← expand_all vals; pure (first ++ rest)

  unfoldable pub pop_args_to_args : ℕ → Exec (Memory W) (List ℕ)
  unfolding peek_top drain_top expand_all
  pop_args_to_args arg_num = do
    top ← peek_top arg_num
    args ← expand_all (bottom_first top)
    drain_top arg_num
    pure args

  -- The pairs in the order in which they are inserted.
  unfoldable pub pop_key_value_pair : ℕ → Exec (Memory W) (List (ℕ × ℕ))
  unfolding drain_top
  pop_key_value_pair arg_num = do top ← drain_top (arg_num * 2); pure (pairs (bottom_first top))
