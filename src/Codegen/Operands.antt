-- ===== src/Codegen/Operands.antt =====
-- src/parse/codegen.rs: which operands are immediates and which variable a name is, said without the
-- generator, and that the generator agrees.
use ruruby.Prelude.{
  ℕ, ◌+◌, ◌-◌, ◌^◌, ◌≡◌, refl, arith, Bool, true, false, List, [], ◌∷◌, Option, none, some, ◌==◌,
  ltb, if◌then◌else◌, length, Option-cases, inl, inr,
}
use ruruby.Prelude.Int.{ℤ, pos, negsuc, as_i64, as_u64}
use ruruby.Codegen.{Node, BinOp, Scope, Codegen, lookup, extern_var, local_var_from, get_local_var}
use ruruby.Codegen.Gen.{imm_i32, immediate_operand, has_imm, lvar_add}

-- A number from -2 ^ 31 to 2 ^ 31 - 1.
unfoldable pub in_i32 : ℤ → Bool
in_i32 (pos n) = ltb n (2 ^ 31)
in_i32 (negsuc n) = ltb n (2 ^ 31)

-- A number that is written out, if it is one of 32 bits.
unfoldable pub literal : Node → Option ℤ
unfolding in_i32
literal (Node.integer i) = let n = as_i64 (as_u64 i) in if in_i32 n then some n else none
literal _ = none

-- The operators that are asked with a number instead of a value where the right operand is a literal.
unfoldable pub takes_literal : BinOp → Bool
takes_literal BinOp.mul = false
takes_literal BinOp.div = false
takes_literal BinOp.rem = false
takes_literal BinOp.exp = false
takes_literal BinOp.shr = false
takes_literal BinOp.shl = false
takes_literal BinOp.bit_xor = false
takes_literal BinOp.teq = false
takes_literal BinOp.cmp = false
takes_literal BinOp.land = false
takes_literal BinOp.lor = false
takes_literal _ = true

unfoldable pub operand : BinOp → Node → Option ℤ
unfolding takes_literal literal
operand op n = if takes_literal op then literal n else none

-- What is added to a variable by an assignment of its own value and a literal.
unfoldable pub increment : ℕ → Node → Option ℤ
unfolding literal
increment id (Node.bin_op BinOp.add (Node.local_var id') n) = if id == id' then literal n else none
increment id _ = none

-- The scopes that a name is looked up in: up to the first one of a method.
unfoldable pub reachable : List Scope → List (List (ℕ × ℕ))
reachable [] = []
reachable (scope ∷ scopes) =
    let rest = reachable scopes in scope.lvar_info ∷ (if scope.is_method then [] else rest)

unfoldable pub in_method : List Scope → Bool
in_method [] = false
in_method (scope ∷ scopes) = let rest = in_method scopes in if scope.is_method then true else rest

-- The first table with the name, numbered from `i` on.
unfoldable pub first_with : ℕ → List (List (ℕ × ℕ)) → ℕ → Option (ℕ × ℕ)
unfolding lookup
first_with i [] id = none
first_with i (table ∷ tables) id =
    let rest = first_with (i + 1) tables id in
    elim (lookup table id) [ some lvar ↦ some (i, lvar) | none ↦ rest ]

-- The variable of a name: one of a scope that is reached, or else, outside of methods, one of the contexts
-- around the program, of which the innermost has the number of the outermost scope.
unfoldable pub resolve : Codegen → ℕ → Option (ℕ × ℕ)
unfolding reachable in_method first_with
resolve g id = elim (first_with 0 (reachable g.context_stack) id) [
  | some v ↦ some v
  | none ↦
      if in_method g.context_stack
      then none
      else first_with (length g.context_stack - 1) g.extern_context id
]

imm_i32-literal : (n : Node) → imm_i32 n ≡ literal n
unfolding imm_i32 literal in_i32
imm_i32-literal (Node.integer (pos n)) = ground arith
imm_i32-literal (Node.integer (negsuc n)) = ground arith
imm_i32-literal n = refl

has_imm-takes_literal : (op : BinOp) → has_imm op ≡ takes_literal op
unfolding has_imm takes_literal
has_imm-takes_literal op = refl

pub immediate_operand-operand :
    (op : BinOp) (n : Node) → immediate_operand op (imm_i32 n) ≡ operand op n
unfolding immediate_operand operand
immediate_operand-operand op n = rw (imm_i32-literal n, has_imm-takes_literal op) refl

pub lvar_add-increment : (id : ℕ) (n : Node) → lvar_add id n ≡ increment id n
unfolding lvar_add increment
lvar_add-increment id (Node.bin_op BinOp.add (Node.local_var id') n) = rw (imm_i32-literal n) refl
lvar_add-increment id n = refl

extern_var-first_with :
    (tables : List (List (ℕ × ℕ))) (id i : ℕ) → extern_var tables id i ≡ first_with i tables id
unfolding extern_var first_with
extern_var-first_with [] id i = refl
extern_var-first_with (table ∷ tables) id i = elim (Option-cases (lookup table id)) [
  | inl f ↦ rw (extern_var, first_with, f) (extern_var-first_with tables id (i + 1))
  | inr (v, f) ↦ rw (extern_var, first_with, f) refl
]

-- What the walk finds from scope number `i` on, where the contexts around have numbers from `k` on.
abbrev found : Codegen → List Scope → ℕ → ℕ → ℕ → Option (ℕ × ℕ)
found g scopes id k i = elim (first_with i (reachable scopes) id) [
  | some v ↦ some v
  | none ↦ if in_method scopes then none else first_with k g.extern_context id
]

here_or :
    (r : Option ℕ) (i : ℕ) (w v other : Option (ℕ × ℕ))
    → w ≡ elim v [ some x ↦ some x | none ↦ other ]
    → (elim r [ some lvar ↦ some (i, lvar) | none ↦ w ])
      ≡ elim (elim r as (λ y. Option (ℕ × ℕ)) [ some lvar ↦ some (i, lvar) | none ↦ v ]) [
        | some x ↦ some x
        | none ↦ other
      ]
here_or none i w v other h = h
here_or (some lvar) i w v other h = refl

walk_step :
    (g : Codegen) (table : List (ℕ × ℕ)) (b : Bool) (scopes : List Scope) (id k i last : ℕ)
    → local_var_from g scopes id (i + 1) i ≡ found g scopes id k (i + 1)
    → local_var_from g (record { lvar_info = table; is_method = b } ∷ scopes) id i last
      ≡ found g (record { lvar_info = table; is_method = b } ∷ scopes) id k i
unfolding local_var_from first_with reachable in_method
walk_step g table true scopes id k i last ih = here_or (lookup table id) i _ _ _ refl
walk_step g table false scopes id k i last ih = here_or (lookup table id) i _ _ _ ih

walk :
    (g : Codegen) (scopes : List Scope) (id k i last : ℕ)
    → last ≡ i - 1
    → k ≡ i + length scopes - 1
    → local_var_from g scopes id i last ≡ found g scopes id k i
unfolding local_var_from first_with reachable in_method
walk g [] id k i last e e' =
    let n : k ≡ last = omega arith in rw n (extern_var-first_with g.extern_context id last)
walk g (scope ∷ scopes) id k i last e e' =
    walk_step g scope.lvar_info scope.is_method scopes id k i last
      (walk g scopes id k (i + 1) i (omega arith) (omega arith))

pub get_local_var-resolve : (g : Codegen) (id : ℕ) → get_local_var g id ≡ resolve g id
unfolding get_local_var resolve
get_local_var-resolve g id =
    walk g g.context_stack id (length g.context_stack - 1) 0 0 (omega arith) (omega arith)
