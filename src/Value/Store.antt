-- ===== src/Value/Store.antt =====
-- What src/value/value.rs uses of the heap: `RValue::pack`, which allocates an object and returns
-- its address, and a read through the address.
use ruruby.Prelude.{ℕ, ◌%◌, ◌^◌, ◌<◌, ◌≡◌, ◌≢◌}
use ruruby.Value.{RValue}

-- An address of an object: not null, and aligned to 64 bytes, the size of a cell.
abbrev pub IsAddress : ℕ → Type 0
IsAddress p = (p ≢ 0) × (p % 64 ≡ 0) × (p < 2 ^ 64)

pub record ObjectStore : Type 1 where
  pub Store : Type 0
  -- the states in which the heap is well-formed
  pub IsReady : Store → Type 0
  pub alloc : RValue → Store → ℕ × Store
  pub read : Store → ℕ → RValue
  pub alloc-IsAddress : (v : RValue) (s : Store) → IsReady s → IsAddress (alloc v s).0
  pub read-alloc : (v : RValue) (s : Store) → IsReady s → read (alloc v s).1 (alloc v s).0 ≡ v
