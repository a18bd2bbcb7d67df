-- ===== src/Alloc.antt =====
-- src/alloc.rs: the allocator and the mark and sweep collector.
--
-- A page is named by its address. Memory is a function from an address to a cell (`GCBox`), and from
-- a page to its mark bitmap, a list of 63 64-bit words. A pointer is the address of a cell: `data`
-- lies at the start of a page. The pages that the system hands out are a parameter of `alloc`.
pub mod Bitmap
pub mod Sweep
pub mod Dead
pub mod Links
pub mod DeadBits
pub mod Members
pub mod Collect
pub mod Heap
pub mod Allocate
pub mod Reclaim
pub mod Empty
pub mod AsStore
mod Examples
use Prim.Native.Nat.{bit_and, bit_or}
use ruruby.Prelude.{
  ℕ, zero, suc, ◌+◌, ◌-◌, ◌*◌, ◌/◌, ◌%◌, ◌^◌, Bool, true, false, not, ◌&&◌, List, [], ◌∷◌, ◌++◌,
  Option, none, some, ltb, ◌==◌, if◌then◌else◌, get_elem?, set, replicate, take, length,
}
use ruruby.Value.{ObjKind, RValue}

-- SIZE - 1, DATA_LEN, THRESHOLD, GCBOX_SIZE and ALLOC_SIZE.
abbrev pub bitmap_len : ℕ
bitmap_len = 63

abbrev pub data_len : ℕ
data_len = 64 * 63

abbrev pub threshold : ℕ
threshold = 64 * 62

abbrev pub gcbox_size : ℕ
gcbox_size = 64

abbrev pub alloc_size : ℕ
alloc_size = 2 ^ 18

-- `GCBox`: the object, and the next cell of the free list.
pub record Cell : Type 0 where
  pub inner : RValue
  pub next : Option ℕ

abbrev pub Memory : Type 0
Memory = ℕ → Cell

abbrev pub store {ℓ} : {A : Type ℓ} → (ℕ → A) → ℕ → A → ℕ → A
store m p c q = if p == q then c else m q

pub record Allocator : Type 0 where
  pub used_in_current : ℕ
  pub allocated : ℕ
  pub free_list_count : ℕ
  pub current : ℕ
  pub pages : List ℕ
  pub mark_counter : ℕ
  pub free : Option ℕ
  pub free_pages : List ℕ
  pub count : ℕ
  pub alloc_flag : Bool
  pub gc_enabled : Bool
  pub cells : Memory
  pub marks : ℕ → List ℕ

-- `PageRef::get_data_ptr` and `PageRef::from_inner`.
unfoldable pub get_data_ptr : ℕ → ℕ → ℕ
get_data_ptr page index = page + index * gcbox_size

unfoldable pub from_inner : ℕ → ℕ
from_inner ptr = bit_and ptr (2 ^ 64 - 1 - (alloc_size - 1))

-- `RValue::free`.
unfoldable pub free_rvalue : RValue → RValue
free_rvalue v = elim v.kind [
  | ObjKind.invalid ↦ v
  | _ ↦ record v { kind = ObjKind.invalid; var_table = none }
]

-- `Vec::pop`, of a vector whose last element is the head of the list.
abbrev pub pop_page : List ℕ → ℕ → ℕ × List ℕ
pop_page [] fresh = (fresh, [])
pop_page (p ∷ ps) fresh = (p, ps)

-- `Allocator::alloc`; `fresh` is the page that the system returns if a new one is asked for.
unfoldable pub alloc : ℕ → RValue → Allocator → ℕ × Allocator
unfolding get_data_ptr
alloc fresh v a = elim a.free [
  | some gcbox ↦ (
    gcbox,
    record a {
      allocated = a.allocated + 1;
      free = (a.cells gcbox).next;
      cells = store a.cells gcbox (record { inner = v; next = none });
      free_list_count = a.free_list_count - 1;
    },
  )
  | none ↦
      if a.used_in_current == data_len
      then (let page = pop_page a.free_pages fresh in
          (
            get_data_ptr page.0 0,
            record a {
              allocated = a.allocated + 1;
              used_in_current = 1;
              pages = a.pages ++ a.current ∷ [];
              current = page.0;
              free_pages = page.1;
              cells = store a.cells (get_data_ptr page.0 0) (record { inner = v; next = none });
            },
          ))
      else (let ptr = get_data_ptr a.current a.used_in_current in
          (
            ptr,
            record a {
              allocated = a.allocated + 1;
              alloc_flag =
                  if a.used_in_current == threshold && a.gc_enabled then true else a.alloc_flag;
              used_in_current = a.used_in_current + 1;
              cells = store a.cells ptr (record { inner = v; next = none });
            },
          ))
]

-- `PageRef::clear_bits`, and `Allocator::clear_mark`.
abbrev pub clear_bits : (ℕ → List ℕ) → ℕ → ℕ → List ℕ
clear_bits m page = store m page (replicate bitmap_len 0)

abbrev pub clear_all : (ℕ → List ℕ) → List ℕ → ℕ → List ℕ
clear_all m [] = m
clear_all m (p ∷ ps) = clear_all (clear_bits m p) ps

unfoldable pub clear_mark : Allocator → Allocator
clear_mark a = record a {
  marks = clear_all (clear_bits a.marks a.current) a.pages;
  mark_counter = 0;
}

-- `Allocator::mark_ptr`: whether the object was marked already, and the state with it marked. `none`
-- is the panic of an index beyond the bitmap.
unfoldable pub mark_ptr : ℕ → Allocator → Option (Bool × Allocator)
unfolding from_inner get_data_ptr
mark_ptr ptr a =
    let page = from_inner ptr in
    let index = (ptr - get_data_ptr page 0) / gcbox_size in
    let bit_mask = 2 ^ (index % 64) in
    elim (get_elem? (a.marks page) (index / 64)) [
      | none ↦ none
      | some bitmap ↦
          (let is_marked = not (bit_and bitmap bit_mask == 0) in
            some (
              is_marked,
              record a {
                marks =
                    store a.marks page (set (a.marks page) (index / 64) (bit_or bitmap bit_mask));
                mark_counter = if is_marked then a.mark_counter else a.mark_counter + 1;
              },
            ))
    ]
