-- ===== src/Vm/Locals.antt =====
-- src/vm/context.rs and src/vm/executor.rs: the local variables of a context and of the outer ones.
use ruruby.Prelude.{
  ℕ, zero, suc, ◌-◌, Option, none, some, ltb, if◌then◌else◌, length, get_elem?, set,
}
use ruruby.Vm.{Context, Memory, returns, Exec, ◌>>=◌, unwrap, pure}

-- LVAR_ARRAY_SIZE.
abbrev pub lvar_array_size : ℕ
lvar_array_size = 4

-- `context[id]`, by `Index` and by `IndexMut`.
unfoldable pub index : Context → ℕ → Option ℕ
index c id =
    if ltb id lvar_array_size
    then get_elem? c.lvar_ary id
    else get_elem? c.lvar_vec (id - lvar_array_size)

unfoldable pub index_mut : Context → ℕ → ℕ → Option Context
index_mut c id val =
    if ltb id lvar_array_size
    then (if ltb id (length c.lvar_ary)
        then some (record c { lvar_ary = set c.lvar_ary id val })
        else none)
    else (if ltb (id - lvar_array_size) (length c.lvar_vec)
        then some (record c { lvar_vec = set c.lvar_vec (id - lvar_array_size) val })
        else none)

module _ {W : Type 0} where
  -- A read through a `ContextRef`.
  unfoldable pub deref : ℕ → Exec (Memory W) Context
  unfolding unwrap
  deref ref m = unwrap (get_elem? m.contexts ref) m

  unfoldable pub context : Exec (Memory W) ℕ
  unfolding unwrap
  context m = unwrap m.cur_context m

  unfoldable pub get_outer_context_from : ℕ → ℕ → Exec (Memory W) ℕ
  unfolding ◌>>=◌ unwrap deref
  get_outer_context_from zero ref = pure ref
  get_outer_context_from (suc outer) ref = do
    c ← deref ref
    up ← unwrap c.outer
    get_outer_context_from outer up

  -- The context that is `outer` levels out.
  unfoldable pub get_outer_context : ℕ → Exec (Memory W) ℕ
  unfolding ◌>>=◌ context get_outer_context_from
  get_outer_context outer = context >>= get_outer_context_from outer

  -- `cref[id]` and `cref[id] = val`.
  unfoldable pub get_lvar : ℕ → ℕ → Exec (Memory W) ℕ
  unfolding ◌>>=◌ unwrap deref index
  get_lvar ref id = do c ← deref ref; unwrap (index c id)

  unfoldable pub set_lvar : ℕ → ℕ → ℕ → Exec (Memory W) (Unit {0})
  unfolding ◌>>=◌ unwrap deref index_mut
  set_lvar ref id val = do
    c ← deref ref
    c' ← unwrap (index_mut c id val)
    λ m. returns tt (record m { contexts = set m.contexts ref c' })
