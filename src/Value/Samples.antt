-- ===== src/Value/Samples.antt =====
-- A heap for the runs of src/value/value.rs and of what stands on it.
use ruruby.Prelude.{◌+◌, ◌^◌, refl, true, false, [], none, arith, replicate}
use ruruby.Prelude.Int.{pos}
use ruruby.Value.{ObjKind, Rv}
use ruruby.Value.Store.{ObjectStore}
use ruruby.Value.Pack.{BuiltinClass}
use ruruby.Alloc.{Allocator}
use ruruby.Alloc.Heap.{IsHeap, IsFresh}
use ruruby.Alloc.AsStore.{allocator_store}

abbrev pub builtin : BuiltinClass
builtin = record { integer = 2 ^ 18; float = 2 ^ 18 + 64 }

-- A heap of one page without an object, where the system has one page more.
abbrev pub empty_heap : Allocator
empty_heap = record {
  used_in_current = 0;
  allocated = 0;
  free_list_count = 0;
  current = 2 ^ 18;
  pages = [];
  mark_counter = 0;
  free = none;
  free_pages = [];
  count = 0;
  alloc_flag = false;
  gc_enabled = true;
  cells = λ p. record {
    inner = record { class = 0; var_table = none; kind = ObjKind.invalid };
    next = none;
  };
  marks = λ p. replicate 63 0;
}

abbrev pub empty_heap-IsHeap : IsHeap empty_heap []
empty_heap-IsHeap = record {
  chain = refl;
  distinct = tt;
  counted = refl;
  once_used = λ x i. absurd i;
  bound = omega arith;
  current_page = record {
    aligned = refl;
    not_null = λ e. absurd (omega arith);
    below = omega arith;
  };
  each_page = λ p i. absurd i;
  free_page = λ p i. absurd i;
  current_apart = λ i. i;
  pages_distinct = tt;
  free_distinct = tt;
  free_apart = λ p i. absurd i;
}

abbrev pub next_page : IsFresh empty_heap (2 ^ 19)
next_page = (
  record { aligned = refl; not_null = λ e. absurd (omega arith); below = omega arith },
  (λ e. absurd (omega arith)),
  (λ i. i),
  λ i. i,
)

abbrev pub heap : ObjectStore
heap = allocator_store (λ a. 2 ^ 19)

-- An integer too large to be packed.
abbrev pub large : Rv
large = Rv.integer (pos (2 ^ 62))
