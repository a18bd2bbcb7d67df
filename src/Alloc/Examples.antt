-- ===== src/Alloc/Examples.antt =====
-- src/alloc.rs on a small heap.
use ruruby.Prelude.{
  ◌⊎◌, ℕ, ◌+◌, ◌*◌, ◌^◌, ◌≡◌, ◌≢◌, ◌↔◌, refl, true, false, List, [], ◌∷◌, none, some, arith, length,
  replicate, ◌==◌, if◌then◌else◌,
}
use ruruby.Value.{ObjKind, RValue}
use ruruby.Alloc.{Allocator, alloc, mark_ptr, free_rvalue}
use ruruby.Alloc.Sweep.{sweep, dealloc_empty_pages}
use ruruby.Alloc.Links.{In, Distinct, Chain}
use ruruby.Alloc.Members.{bitmap_bit}
use ruruby.Alloc.Collect.{IsLaidOut, Garbage, sweep-collects}
use ruruby.Alloc.Heap.{IsUsed, IsHeap, IsLive, IsFresh, IsAllocated}
use ruruby.Alloc.Allocate.{alloc_lem}
use ruruby.Alloc.Reclaim.{sweep-IsHeap}
use ruruby.Alloc.Empty.{HasMark, dealloc_empty_pages_lem}
use ruruby.Alloc.Bitmap.{mark_ptr_lem}

abbrev object : RValue
object = record { class = 1; var_table = none; kind = ObjKind.ordinary }

-- One page with three cells handed out, of which the second is marked.
abbrev small_heap : Allocator
small_heap = record {
  used_in_current = 3;
  allocated = 3;
  free_list_count = 0;
  current = 2 ^ 18;
  pages = [];
  mark_counter = 1;
  free = none;
  free_pages = [];
  count = 0;
  alloc_flag = false;
  gc_enabled = true;
  cells = λ p. record { inner = object; next = none };
  marks = λ p. 2 ∷ replicate 62 0;
}

abbrev small_heap-IsHeap : IsHeap small_heap []
small_heap-IsHeap = record {
  chain = refl;
  distinct = tt;
  counted = refl;
  once_used = λ x i. absurd i;
  bound = omega arith;
  current_page = record {
    aligned = refl;
    not_null = λ e. absurd (omega arith);
    below = omega arith;
  };
  each_page = λ p i. absurd i;
  free_page = λ p i. absurd i;
  current_apart = λ i. i;
  pages_distinct = tt;
  free_distinct = tt;
  free_apart = λ p i. absurd i;
}

abbrev small_heap-IsLaidOut : IsLaidOut small_heap
small_heap-IsLaidOut = record {
  current_page = record { aligned = refl; bitmap = refl };
  each_page = λ p i. absurd i;
  distinct = ((λ i. i), tt);
  used = omega arith;
}

abbrev bitmaps :
    (p : ℕ) → In p (small_heap.current ∷ small_heap.pages) → length (small_heap.marks p) ≡ 63
bitmaps p i = refl

abbrev next_page : IsFresh small_heap (2 ^ 19)
next_page = (
  record { aligned = refl; not_null = λ e. absurd (omega arith); below = omega arith },
  (λ e. absurd (omega arith)),
  (λ i. i),
  λ i. i,
)

alloc_lem_example :
    (ys : List ℕ) × IsAllocated object small_heap [] (alloc (2 ^ 19) object small_heap) ys
alloc_lem_example = alloc_lem object small_heap [] small_heap-IsHeap (2 ^ 19) next_page

sweep-IsHeap_example :
    (xs : List ℕ) × IsHeap (sweep small_heap) xs
    × ((x : ℕ) → IsLive (sweep small_heap) xs x ↔ (IsUsed small_heap x × (¬ Garbage small_heap x)))
sweep-IsHeap_example = sweep-IsHeap small_heap [] small_heap-IsHeap bitmaps

sweep-collects_example :
    (xs : List ℕ) × Chain (sweep small_heap).cells (sweep small_heap).free xs
    × Distinct xs
    × ((x : ℕ) → In x xs ↔ Garbage small_heap x)
    × ((sweep small_heap).free_list_count ≡ length xs)
    × ((x : ℕ)
        → Garbage small_heap x
        → ((sweep small_heap).cells x).inner ≡ free_rvalue (small_heap.cells x).inner)
    × ((x : ℕ) → (¬ Garbage small_heap x) → (sweep small_heap).cells x ≡ small_heap.cells x)
sweep-collects_example = sweep-collects small_heap small_heap-IsLaidOut

mark_ptr_lem_example :
    (a' : Allocator) × (mark_ptr (2 ^ 18 + 2 * 64) small_heap
      ≡ some (bitmap_bit (small_heap.marks (2 ^ 18)) 2, a'))
    × ((j : ℕ)
        → bitmap_bit (a'.marks (2 ^ 18)) j
          ≡ (if j == 2 then true else bitmap_bit (small_heap.marks (2 ^ 18)) j))
    × ((q : ℕ) → q ≢ 2 ^ 18 → a'.marks q ≡ small_heap.marks q)
    × (a'.mark_counter ≡ (
        if bitmap_bit (small_heap.marks (2 ^ 18)) 2
        then small_heap.mark_counter
        else small_heap.mark_counter + 1))
mark_ptr_lem_example = mark_ptr_lem small_heap (2 ^ 18) 2 refl (omega arith) (omega arith) refl

two_freed : (sweep small_heap).free_list_count ≡ 2
unfolding sweep
two_freed = refl

first_free : (sweep small_heap).free ≡ some (2 ^ 18)
unfolding sweep
first_free = refl

-- A page without a mark, beside the current one.
abbrev two_pages : Allocator
two_pages = record small_heap {
  pages = 2 ^ 19 ∷ [];
  marks = λ p. if p == 2 ^ 18 then 2 ∷ replicate 62 0 else replicate 63 0;
}

dealloc_empty_pages_lem_example :
    (In (2 ^ 19) (dealloc_empty_pages two_pages).pages
      ↔ (In (2 ^ 19) two_pages.pages × HasMark (two_pages.marks (2 ^ 19))))
    × (In (2 ^ 19) (dealloc_empty_pages two_pages).free_pages ↔ (
        (In (2 ^ 19) two_pages.pages × (¬ HasMark (two_pages.marks (2 ^ 19))))
        ⊎ In (2 ^ 19) two_pages.free_pages))
    × ((dealloc_empty_pages two_pages).current ≡ two_pages.current)
dealloc_empty_pages_lem_example = dealloc_empty_pages_lem two_pages (2 ^ 19)

given_up : (dealloc_empty_pages two_pages).free_pages ≡ 2 ^ 19 ∷ []
unfolding dealloc_empty_pages
given_up = refl
