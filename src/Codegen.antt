-- ===== src/Codegen.antt =====
-- src/parse/node.rs and src/parse/codegen.rs: the syntax tree of expressions and conditions, and the
-- local variables that the code generator knows. The children generate the code, say what a node
-- computes, and relate the two.
pub mod Gen
pub mod Operands
pub mod Eval
pub mod Reach
pub mod Bytes
pub mod Sound
pub mod Neutral
pub mod Leaves
pub mod Moves
pub mod Grow
pub mod Branch
pub mod Jumps
pub mod Choice
pub mod Loop
pub mod Good
pub mod Binary
pub mod Assign
pub mod Control
pub mod Correct
pub mod Method
pub mod Total
pub mod OnHeap
mod Examples
use ruruby.Prelude.{
  ℕ, suc, ◌+◌, Bool, true, false, List, [], ◌∷◌, Option, none, some, ◌==◌, if◌then◌else◌,
}
use ruruby.Prelude.Int.{ℤ}

pub data BinOp : Type 0 where
  add sub mul div rem exp shr shl bit_and bit_or bit_xor : BinOp
  eq ne teq gt ge lt le cmp land lor : BinOp

pub data UnOp : Type 0 where
  bit_not not pos neg : UnOp

unfoldable pub is_cmp_op : BinOp → Bool
is_cmp_op BinOp.eq = true
is_cmp_op BinOp.ne = true
is_cmp_op BinOp.ge = true
is_cmp_op BinOp.gt = true
is_cmp_op BinOp.le = true
is_cmp_op BinOp.lt = true
is_cmp_op _ = false

-- `NodeKind`, without the positions in the source. `assign id rhs` is the `MulAssign` of one value to
-- one local variable.
mutual
  pub data Node : Type 0 where
    self_value nil : Node
    integer : ℤ → Node
    bool : Bool → Node
    symbol local_var : ℕ → Node
    bin_op : BinOp → Node → Node → Node
    un_op : UnOp → Node → Node
    assign : ℕ → Node → Node
    comp_stmt : Nodes → Node
    if_node : Node → Node → Node → Node
    while_node : Node → Node → Bool → Node

  pub data Nodes : Type 0 where
    no_nodes : Nodes
    node_and : Node → Nodes → Nodes

unfoldable pub is_empty : Node → Bool
is_empty (Node.comp_stmt Nodes.no_nodes) = true
is_empty _ = false

-- `Context` of the code generator: the names of the local variables with their numbers, and whether its
-- kind is a method.
pub record Scope : Type 0 where
  pub lvar_info : List (ℕ × ℕ)
  pub is_method : Bool

-- The innermost scope comes first. `extern_context` has the local variables of the contexts around a
-- program that is evaluated in another one, from the innermost outwards.
pub record Codegen : Type 0 where
  pub context_stack : List Scope
  pub extern_context : List (List (ℕ × ℕ))

unfoldable pub lookup : List (ℕ × ℕ) → ℕ → Option ℕ
lookup [] id = none
lookup (x ∷ xs) id = if x.0 == id then some x.1 else lookup xs id

unfoldable pub extern_var : List (List (ℕ × ℕ)) → ℕ → ℕ → Option (ℕ × ℕ)
unfolding lookup
extern_var [] id idx = none
extern_var (vars ∷ outer) id idx =
    let rest = extern_var outer id (idx + 1) in
    elim (lookup vars id) [ some lvar ↦ some (idx, lvar) | none ↦ rest ]

-- The walk from the scope number `i` on; `last` is the number of the scope before it.
unfoldable pub local_var_from : Codegen → List Scope → ℕ → ℕ → ℕ → Option (ℕ × ℕ)
unfolding lookup extern_var
local_var_from g [] id i last = extern_var g.extern_context id last
local_var_from g (scope ∷ scopes) id i last =
    let rest = local_var_from g scopes id (i + 1) i in
    elim (lookup scope.lvar_info id) [
      | some lvar ↦ some (i, lvar)
      | none ↦ if scope.is_method then none else rest
    ]

-- How many scopes out a local variable is, and its number there.
unfoldable pub get_local_var : Codegen → ℕ → Option (ℕ × ℕ)
unfolding local_var_from
get_local_var g id = local_var_from g g.context_stack id 0 0
