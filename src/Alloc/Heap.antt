-- ===== src/Alloc/Heap.antt =====
-- src/alloc.rs: well-formed heaps, and what `alloc` promises of them.
pub mod FreeList
pub mod Bump
pub mod NewPage
use ruruby.Prelude.{
  ℕ, ◌+◌, ◌-◌, ◌*◌, ◌/◌, ◌%◌, ◌^◌, ◌≤◌, ◌<◌, ◌≡◌, ◌≢◌, ◌↔◌, ◌⊎◌, inl, inr, refl, Bool, true, false,
  ◌&&◌, List, [], ◌∷◌, ◌++◌, Option, none, some, arith, length, ◌∙◌, ap, sym, subst, ◌==◌,
  Bool-cases, Option-cases, if◌then◌else◌, eq→==, ne→==, ==→eq, ==→ne,
}
use ruruby.Value.{RValue}
use ruruby.Value.Store.{IsAddress}
use ruruby.Alloc.{
  Allocator, Cell, Memory, store, alloc, data_len, threshold, get_data_ptr, pop_page,
}
use ruruby.Alloc.Links.{In, Distinct, Chain}
use ruruby.Alloc.DeadBits.{In-append, Distinct-append}

-- A page of the system: aligned to its size, not at 0, within the address space.
pub record IsSystemPage (p : ℕ) : Type 0 where
  pub aligned : p % 2 ^ 18 ≡ 0
  pub not_null : p ≢ 0
  pub below : p < 2 ^ 64

-- The cells that were handed out at least once.
pub data IsUsed (a : Allocator) (x : ℕ) : Type 0 where
  in_page : (p : ℕ) → In p a.pages → (i : ℕ) → i < data_len → x ≡ p + i * 64 → IsUsed a x
  in_current : (i : ℕ) → i < a.used_in_current → x ≡ a.current + i * 64 → IsUsed a x

-- The pages are all different, and the free list `xs` goes through cells that were handed out.
pub record IsHeap (a : Allocator) (xs : List ℕ) : Type 0 where
  pub chain : Chain a.cells a.free xs
  pub distinct : Distinct xs
  pub counted : a.free_list_count ≡ length xs
  pub once_used : (x : ℕ) → In x xs → IsUsed a x
  pub bound : a.used_in_current ≤ data_len
  pub current_page : IsSystemPage a.current
  pub each_page : (p : ℕ) → In p a.pages → IsSystemPage p
  pub free_page : (p : ℕ) → In p a.free_pages → IsSystemPage p
  pub current_apart : ¬ In a.current a.pages
  pub pages_distinct : Distinct a.pages
  pub free_distinct : Distinct a.free_pages
  pub free_apart : (p : ℕ) → In p a.free_pages → (p ≢ a.current) × (¬ In p a.pages)

-- An object in use: its cell was handed out and is not on the free list.
abbrev pub IsLive : Allocator → List ℕ → ℕ → Type 0
IsLive a xs x = IsUsed a x × (¬ In x xs)

-- A page that the system may hand out next.
abbrev pub IsFresh : Allocator → ℕ → Type 0
IsFresh a p = IsSystemPage p × (p ≢ a.current) × (¬ In p a.pages) × (¬ In p a.free_pages)

-- What `alloc` promises, in state `a` with free list `xs`, of its answer `r` for the object `v`.
pub record IsAllocated (v : RValue) (a : Allocator) (xs : List ℕ) (r : ℕ × Allocator) (ys : List ℕ)
    : Type 0 where
  pub heap : IsHeap r.1 ys
  pub address : IsAddress r.0
  pub not_live : ¬ IsLive a xs r.0
  pub live : (x : ℕ) → IsLive r.1 ys x ↔ ((x ≡ r.0) ⊎ IsLive a xs x)
  pub stored : r.1.cells r.0 ≡ record { inner = v; next = none }
  pub others : (x : ℕ) → x ≢ r.0 → r.1.cells x ≡ a.cells x

pub cell_page :
    (p i q j : ℕ)
    → p % 2 ^ 18 ≡ 0
    → q % 2 ^ 18 ≡ 0
    → i < data_len
    → j < data_len
    → p + i * 64 ≡ q + j * 64
    → p ≡ q
cell_page p i q j hp hq hi hj e = omega arith

pub store_self : (m : Memory) (x : ℕ) (c : Cell) → store m x c x ≡ c
store_self m x c = rw (eq→== x x refl)

pub store_other : (m : Memory) (x y : ℕ) (c : Cell) → y ≢ x → store m x c y ≡ m y
store_other m x y c ne = rw (ne→== x y (λ e. ne (sym e)))

-- A write outside a chain leaves it as it is.
pub Chain-store :
    (m : Memory) (o : Option ℕ) (xs : List ℕ) (x : ℕ) (c : Cell)
    → Chain m o xs
    → (¬ In x xs)
    → Chain (store m x c) o xs
Chain-store m o [] x c h out = h
Chain-store m o (y ∷ ys) x c h out = (
  h.0,
  subst (λ n. Chain (store m x c) n ys)
      (ap (λ d. d.next) (sym (store_other m x y c (λ e. out (inl (sym e))))))
      (Chain-store m (m y).next ys x c h.1 (λ i. out (inr i))),
)

pub cell-IsAddress : (p i : ℕ) → IsSystemPage p → i < data_len → IsAddress (p + i * 64)
cell-IsAddress p i h b =
    (λ e. h.not_null (omega arith), omega (arith, h.aligned), omega (arith, h.aligned, h.below))

pub first_cell : (p : ℕ) → get_data_ptr p 0 ≡ p
unfolding get_data_ptr
first_cell p = omega arith

abbrev pub new_cell : RValue → Cell
new_cell v = record { inner = v; next = none }
